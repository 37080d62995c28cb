-- ===== src/Mgmt/Users.antt =====
-- services/mgmt-api/app/main.py: who sends a request (`get_current_user`) and whether it may
-- (`require_role`). The library of JSON web tokens, the certificates' encoding and the file of the
-- key set are parameters.
use airgap_videowall.Values.Equality.{same_value}
use airgap_videowall.Mgmt.Requests.{permits}
use airgap_videowall.Values.{
  Value, Fields, truthy, has_field, get_field, or_else, obj, list, str, end, nil, cons,
}
use airgap_videowall.Reconcile.Sorting.{sorted_set}
use airgap_videowall.Mgmt.Tokens.{Subject}
use airgap_videowall.Policy.Service.{iterate}
use airgap_videowall.Prelude.Text.{lower, strip, split}
use airgap_videowall.Prelude.{
  String, Bool, false, not, ◌&&◌, Option, none, some, List, [], ◌∷◌, ◌++◌, if◌then◌else◌, ◌==◌,
  string_eq,
}

pub record OidcSettings : Type 0 where
  pub public_key_pem : String
  pub jwks_path : String
  pub client_id : String

-- `none` where the call raises.
pub record JwtTools : Type 0 where
  pub read_jwks : Option Value
  pub unverified_header : String → Option Fields
  pub certificate : String → Option String
  pub decode : String → String → Option Fields

-- The answer with an error; `crashed` is an exception that nothing catches.
pub data AuthError : Type 0 where
  missing_authorization invalid_authorization no_public_key unsupported_jwt_alg kid_not_found
        jwt_invalid user_forbidden crashed :
      AuthError

pub data Checked (A : Type 0) : Type 0 where
  refused : AuthError → Checked A
  passed : A → Checked A

infixl 5 ◌>>=◌
abbrev pub ◌>>=◌ : {A B : Type 0} → Checked A → (A → Checked B) → Checked B
refused e >>= f = refused e
passed a >>= f = f a

abbrev pub or_crash : {A : Type 0} → Option A → Checked A
or_crash none = refused crashed
or_crash (some a) = passed a

unfoldable pub bearer_of : List String → Checked String
unfolding lower
bearer_of (scheme ∷ token ∷ []) =
    if lower scheme == "bearer" then passed token else refused invalid_authorization
bearer_of _ = refused invalid_authorization

-- `_parse_bearer`
unfoldable pub parse_bearer : Option String → Checked String
unfolding bearer_of split
parse_bearer none = refused missing_authorization
parse_bearer (some header) =
    if header == "" then refused missing_authorization else bearer_of (split header)

abbrev is_text : String → Value → Bool
is_text s (str t) = s == t
is_text s _ = false

-- a mapping, or the AttributeError of its `get`
abbrev pub fields_of : Value → Checked Fields
fields_of (obj fs) = passed fs
fields_of _ = refused crashed

-- `k["x5c"]`'s first certificate; `none` where the loop goes on
unfoldable pub certificate_of : JwtTools → Value → Checked (Option String)
certificate_of tools (list (cons (str der) vs)) = elim (tools.certificate der) [
  | none ↦ refused crashed
  | some pem ↦ passed (some pem)
]
certificate_of tools (list (cons v vs)) = refused crashed
certificate_of tools _ = passed none

-- `kid and k.get("kid") != kid`
unfoldable pub other_key : Value → Fields → Bool
unfolding truthy get_field same_value
other_key kid k = truthy kid && not (same_value (get_field k "kid") kid)

-- the loop over the keys
unfoldable pub find_key : JwtTools → Value → List Value → Checked String
unfolding certificate_of other_key get_field
find_key tools kid [] = refused kid_not_found
find_key tools kid (v ∷ vs) = do
  k ← fields_of v
  let rest = find_key tools kid vs
  if other_key kid k then rest else do
    found ← certificate_of tools (get_field k "x5c")
    elim found [ none ↦ rest | some pem ↦ passed pem ]

-- `_load_jwks`
unfoldable pub load_jwks : OidcSettings → JwtTools → Checked Value
load_jwks settings tools =
    if settings.jwks_path == "" then passed (obj end) else or_crash tools.read_jwks

unfoldable pub key_of_set : JwtTools → String → Value → Checked String
unfolding find_key iterate get_field
key_of_set tools token keys = do
  header ← or_crash (tools.unverified_header token)
  if is_text "RS256" (get_field header "alg")
      then (or_crash (iterate keys) >>= find_key tools (get_field header "kid"))
      else refused unsupported_jwt_alg

-- `_get_public_key_for_token`
unfoldable pub public_key_for_token : OidcSettings → JwtTools → String → Checked String
unfolding load_jwks key_of_set strip truthy get_field
public_key_for_token settings tools token =
    let pem = strip settings.public_key_pem in
    if not (pem == "") then passed pem else do
      jwks ← load_jwks settings tools
      fs ← fields_of jwks
      let keys = get_field fs "keys"
      if truthy keys then key_of_set tools token keys else refused no_public_key

unfoldable pub texts : List Value → List String
texts [] = []
texts (str s ∷ vs) = s ∷ texts vs
texts (v ∷ vs) = texts vs

-- `for r in fs.get("roles") or []: if isinstance(r, str)`
unfoldable pub listed_roles : Fields → Checked (List String)
unfolding iterate truthy get_field texts
listed_roles fs = do
  vs ← or_crash (iterate (or_else (get_field fs "roles") (list nil)))
  passed (texts vs)

-- the same of `v or {}`
unfoldable pub roles_of : Value → Checked (List String)
unfolding truthy listed_roles
roles_of v = fields_of (or_else v (obj end)) >>= listed_roles

unfoldable pub client_roles : String → Value → Checked (List String)
unfolding roles_of has_field get_field
client_roles client (obj fs) =
    if has_field fs client then roles_of (get_field fs client) else passed []
client_roles client _ = passed []

-- `_extract_roles`
unfoldable pub extract_roles : String → Fields → Checked (List String)
unfolding roles_of client_roles sorted_set get_field
extract_roles client claims = do
  realm ← roles_of (get_field claims "realm_access")
  own ← client_roles client (get_field claims "resource_access")
  passed (sorted_set (realm ++ own))

module _ (settings : OidcSettings) (tools : JwtTools) where
  -- `_decode_and_verify_rs256`
  unfoldable pub decode_and_verify : String → Checked Fields
  unfolding public_key_for_token
  decode_and_verify token = do
    key ← public_key_for_token settings tools token
    elim (tools.decode token key) [ none ↦ refused jwt_invalid | some claims ↦ passed claims ]

  -- `get_current_user`
  unfoldable pub get_current_user : Option String → Checked Subject
  unfolding parse_bearer decode_and_verify extract_roles
  get_current_user header = do
    token ← parse_bearer header
    claims ← decode_and_verify token
    roles ← extract_roles settings.client_id claims
    passed (record { claims = claims; roles = roles })

  -- `require_role`, on top of `get_current_user`
  unfoldable pub require_role : List String → Option String → Checked Subject
  unfolding get_current_user permits
  require_role required header = do
    user ← get_current_user header
    if permits required user.roles then passed user else refused user_forbidden
