-- ===== src/Agents/Http.antt =====
-- agents/_common/vw_http.py: `request_json`. What each attempt meets is a parameter, numbered from
-- 0; sleeping adds to a sum, in units of the delay.
use airgap_videowall.Prelude.{
  ℕ, zero, suc, ◌+◌, String, Bool, true, false, [], ◌∷◌, ltb, if◌then◌else◌, elem, nat_eq,
}
use airgap_videowall.Values.{Value, obj, str, end, field}

-- `resp.content`: nothing, JSON, or a text that is not JSON
pub data Content : Type 0 where
  empty_content : Content
  json : Value → Content
  raw : String → Content

pub data Reply : Type 0 where
  raised : Reply
  answered : ℕ → Content → Reply

-- `_is_retryable`
unfoldable pub is_retryable : ℕ → Bool
is_retryable status = elem status (408 ∷ 409 ∷ 425 ∷ 429 ∷ 500 ∷ 502 ∷ 503 ∷ 504 ∷ [])

unfoldable pub data_of : Content → Value
data_of empty_content = obj end
data_of (json v) = v
data_of (raw s) = obj (field "_raw" (str s) end)

pub data Returned : Type 0 where
  returned : ℕ → Value → Returned
  failed : Returned

-- What the call returns, the number of requests that it sent, and the delays that it slept.
pub record Outcome : Type 0 where
  pub result : Returned
  pub sent : ℕ
  pub slept : ℕ

-- The attempt is followed by another one if any is left.
unfoldable pub is_transient : Reply → Bool
unfolding is_retryable
is_transient raised = true
is_transient (answered status content) = if ltb status 400 then false else is_retryable status

unfoldable pub result_of : Reply → Returned
unfolding data_of
result_of raised = failed
result_of (answered status content) = returned status (data_of content)

-- the loop: `left` is what `range(retries + 1)` still has behind this attempt
unfoldable pub attempts : (ℕ → Reply) → ℕ → ℕ → ℕ → Outcome
unfolding is_transient result_of
attempts replies attempt slept zero = record {
  result = result_of (replies attempt);
  sent = attempt + 1;
  slept = slept;
}
attempts replies attempt slept (suc left) =
    let again = attempts replies (attempt + 1) (slept + (attempt + 1)) left in
    if is_transient (replies attempt)
    then again
    else record { result = result_of (replies attempt); sent = attempt + 1; slept = slept }

-- `request_json`
unfoldable pub request_json : (ℕ → Reply) → ℕ → Outcome
unfolding attempts
request_json replies retries = attempts replies 0 0 retries
