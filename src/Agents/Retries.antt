-- ===== src/Agents/Retries.antt =====
-- Which attempt the retries end with.
use airgap_videowall.Prelude.{
  ℕ, zero, suc, ◌+◌, ◌≤◌, ◌<◌, ◌≡◌, refl, ◌⊎◌, inl, inr, true, false, arith, Bool-cases, nat_beq,
}
use airgap_videowall.Agents.Http.{Reply, Outcome, is_transient, result_of, attempts, request_json}

-- 1 + 2 + … + n
unfoldable pub sum_to : ℕ → ℕ
sum_to zero = 0
sum_to (suc n) = sum_to n + suc n

abbrev pub ends_at : (ℕ → Reply) → ℕ → Outcome
ends_at replies n = record { result = result_of (replies n); sent = n + 1; slept = sum_to n }

module _ (replies : ℕ → Reply) where
  attempts_end :
      (left attempt n : ℕ)
      → attempt ≤ n
      → n ≤ attempt + left
      → ((m : ℕ) → attempt ≤ m → m < n → is_transient (replies m) ≡ true)
      → (is_transient (replies n) ≡ false) ⊎ (n ≡ attempt + left)
      → attempts replies attempt (sum_to attempt) left ≡ ends_at replies n
  unfolding attempts sum_to
  attempts_end zero attempt n le ge before last =
      let same : attempt ≡ n = omega arith in rw same refl
  attempts_end (suc left) attempt n le ge before last = elim (Bool-cases (nat_beq attempt n)) [
    | inl e ↦
        let same : attempt ≡ n = ground arith in
        elim last [ inl final ↦ rw (same, final) refl | inr end ↦ absurd (omega arith) ]
    | inr e ↦
        let more : suc attempt ≤ n = ground arith in
        let next : attempt + 1 ≡ suc attempt = omega arith in
        let bound : n ≤ suc attempt + left = omega arith in
        let rest : (is_transient (replies n) ≡ false) ⊎ (n ≡ suc attempt + left) = elim last [
          | inl final ↦ inl final
          | inr end ↦ inr (omega arith)
        ] in
        let ih =
          attempts_end left (suc attempt) n more bound (λ m l h. before m (omega arith) h) rest in
        rw (before attempt (omega arith) (omega arith), next) ih
  ]

  -- The call ends at the first attempt whose reply is neither an exception nor a status to retry,
  -- or at the last one: its result is that reply's, and it has sent one request for each attempt
  -- and slept once, twice, … the delay between them.
  pub request_json-ends :
      (retries n : ℕ)
      → n ≤ retries
      → ((m : ℕ) → m < n → is_transient (replies m) ≡ true)
      → (is_transient (replies n) ≡ false) ⊎ (n ≡ retries)
      → request_json replies retries ≡ ends_at replies n
  unfolding request_json sum_to
  request_json-ends retries n le before last =
      attempts_end retries 0 n (omega arith) (omega arith) (λ m _ h. before m h)
        (elim last [ inl final ↦ inl final | inr end ↦ inr (omega arith) ])
