-- ===== src/Agents/Endpoint.antt =====
-- What the management API makes of a request to create a source: services/mgmt-api/app/models.py,
-- SourceIn, and main.py, the endpoint of `create_source`.

use airgap_videowall.Prelude.{
  ℕ, zero, suc, ◌+◌, String, ◌≡◌, refl, ap, inl, inr, true, Option, none, some, List, [], ◌∷◌, leb,
  if◌then◌else◌, Bool-cases, elem, string_eq,
}
use airgap_videowall.Values.{Value, Fields, Items, str, list, nil, cons, get_field, has_field}
use airgap_videowall.Mgmt.Data.{SourceIn}
use airgap_videowall.Mgmt.Tokens.{Subject}
use airgap_videowall.Mgmt.Users.{
  OidcSettings, JwtTools, AuthError, Checked, refused, passed, require_role, missing_authorization,
  invalid_authorization, no_public_key, unsupported_jwt_alg, kid_not_found, jwt_invalid,
  user_forbidden, crashed,
}
use airgap_videowall.Agents.Http.{Reply, answered, Content, attempts, result_of, is_transient}

infixl 5 ◌>>=◌
abbrev ◌>>=◌ : {A B : Type 0} → Option A → (A → Option B) → Option B
some a >>= f = f a
none >>= f = none

abbrev text_in : Value → Option String
text_in (str s) = some s
text_in _ = none

unfoldable pub texts_in : Items → Option (List String)
texts_in nil = some []
texts_in (cons (str s) vs) = elim (texts_in vs) [ none ↦ none | some ss ↦ some (s ∷ ss) ]
texts_in (cons _ vs) = none

abbrev list_in : Value → Option (List String)
list_in (list vs) = texts_in vs
list_in _ = none

-- a field with a default
abbrev default_in : {A : Type 0} → Fields → String → A → (Value → Option A) → Option A
default_in fs k default read = if has_field fs k then read (get_field fs k) else some default

abbrev required_in : Fields → String → Option String
required_in fs k = if has_field fs k then text_in (get_field fs k) else none

abbrev literal : List String → String → Option String
literal options s = if elem s options then some s else none

-- `SourceIn`: a body that is no such model is answered with 422
unfoldable pub source_in : Fields → Option SourceIn
unfolding has_field get_field texts_in
source_in fs = do
  name ← required_in fs "name"
  source_type ← required_in fs "source_type"
  source_type ← literal ("vdi" ∷ "hdmi" ∷ []) source_type
  protocol ← required_in fs "protocol"
  protocol ← literal ("rtsp" ∷ "rtp" ∷ "srt" ∷ "webrtc" ∷ "http" ∷ "other" ∷ []) protocol
  endpoint_url ← required_in fs "endpoint_url"
  codec ← default_in fs "codec" "h264" text_in
  tags ← default_in fs "tags" [] list_in
  health_status ← default_in fs "health_status" "unknown" text_in
  some (record {
    name = name;
    source_type = source_type;
    protocol = protocol;
    endpoint_url = endpoint_url;
    codec = codec;
    tags = tags;
    health_status = health_status;
  })

-- The HTTP status of a refusal by `require_role`
unfoldable pub http_status : AuthError → ℕ
http_status user_forbidden = 403
http_status crashed = 500
http_status no_public_key = 500
http_status _ = 401

-- What stands behind the endpoint: the verification of tokens, the bodies of errors, and what
-- `create_source` answers for a user and a body that are accepted.
pub record Api : Type 0 where
  pub settings : OidcSettings
  pub tools : JwtTools
  pub detail : AuthError → Content
  pub invalid : Fields → Content
  pub create : Subject → SourceIn → Reply

unfoldable pub validated : Api → Subject → Fields → Option SourceIn → Reply
validated api user body none = answered 422 (api.invalid body)
validated api user body (some payload) = api.create user payload

unfoldable pub authorized : Api → Fields → Checked Subject → Reply
unfolding http_status validated source_in
authorized api body (refused e) = answered (http_status e) (api.detail e)
authorized api body (passed user) = validated api user body (source_in body)

-- POST /api/v1/sources: what the handler depends on comes before the body is validated.
unfoldable pub post_source : Api → Option String → Fields → Reply
unfolding require_role authorized
post_source api header body =
    authorized api body (require_role api.settings api.tools ("operator" ∷ "admin" ∷ []) header)

-- An answer that is always the same is what is returned in the end.
pub attempts-constant :
    (r : Reply) (attempt slept left : ℕ)
    → (attempts (λ n. r) attempt slept left).result ≡ result_of r
unfolding attempts
attempts-constant r attempt slept zero = refl
attempts-constant r attempt slept (suc left) = elim (Bool-cases (is_transient r)) [
  | inl e ↦ rw e (attempts-constant r (attempt + 1) (slept + (attempt + 1)) left)
  | inr e ↦ rw e refl
]

-- An answer with an error status.
abbrev pub IsError : Reply → Type 0
IsError r =
    (status : ℕ) × (content : Content) × (r ≡ answered status content) × (leb 400 status ≡ true)

http_status-error : (e : AuthError) → leb 400 (http_status e) ≡ true
unfolding http_status
http_status-error missing_authorization = refl
http_status-error invalid_authorization = refl
http_status-error no_public_key = refl
http_status-error unsupported_jwt_alg = refl
http_status-error kid_not_found = refl
http_status-error jwt_invalid = refl
http_status-error user_forbidden = refl
http_status-error crashed = refl

pub authorized-IsError :
    (api : Api) (body : Fields) (c : Checked Subject)
    → source_in body ≡ none
    → IsError (authorized api body c)
unfolding authorized validated
authorized-IsError api body (refused e) h = (http_status e, api.detail e, refl, http_status-error e)
authorized-IsError api body (passed user) h =
    (422, api.invalid body, ap (validated api user body) h, refl)
