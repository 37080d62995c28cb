-- ===== src/Mgmt/UserTests.antt =====
-- The users of the management API at concrete requests.
use airgap_videowall.Mgmt.Imported.{
  IsStaged, IsSigned, bundles_import_iff, Allows, tokens_subscribe-policy_evaluate,
}
use airgap_videowall.Mgmt.Proxies.{
  ImportTools, bundles_import, BundleImportRequest, staged, policy_evaluate,
}
use airgap_videowall.Mgmt.Data.{Env, Db, empty_db}
use airgap_videowall.Policy.Service.{iterate}
use airgap_videowall.Mgmt.Ingested.{Ingests}
use airgap_videowall.Mgmt.Log.{History, start, subscribe, import_bundle, History-Ingests}
use airgap_videowall.Reconcile.Sorting.{before}
use airgap_videowall.Prelude.Text.{strip}
use airgap_videowall.Values.{int_of_text}
use airgap_videowall.Mgmt.Claimed.{IsClaimed}
use airgap_videowall.Mgmt.Verified.{IsVerified, require_role-IsVerified}
use airgap_videowall.Mgmt.Users.{
  OidcSettings, JwtTools, require_role, get_current_user, parse_bearer, decode_and_verify, refused,
  public_key_for_token, passed, jwt_invalid, missing_authorization, user_forbidden,
}
use airgap_videowall.Mgmt.Tokens.{
  Subject, TokenTools, TokenSubscribeRequest, IsGranted, tokens_subscribe,
}
use airgap_videowall.Values.{
  Fields, field, str, obj, list, cons, null, nil, end, num, int_of, get_field, pos, has_field,
}
use airgap_videowall.Prelude.{
  String, ◌≡◌, refl, ◌↔◌, ◌⊎◌, true, ◌&&◌, none, some, [], ◌∷◌, if◌then◌else◌, ◌==◌, string_eq, In,
}

abbrev claims : Fields
claims = field "sub" (str "alice") (
    field "realm_access" (obj (field "roles" (list (cons (str "viewer") (cons null nil))) end)) (
      field "resource_access"
        (obj (field "vw-api" (obj (field "roles" (list (cons (str "operator") nil)) end)) end))
        end))

abbrev settings : OidcSettings
settings = record { public_key_pem = " key\n"; jwks_path = ""; client_id = "vw-api" }

abbrev tools : JwtTools
tools = record {
  read_jwks = none;
  unverified_header = λ t. none;
  certificate = λ der. none;
  decode = λ t key. if t == "t1" && key == "key" then some claims else none;
}

abbrev alice : Subject
alice = record { claims = claims; roles = "operator" ∷ "viewer" ∷ [] }

lets_alice :
    require_role settings tools ("operator" ∷ "admin" ∷ []) (some "bearer t1") ≡ passed alice
unfolding require_role get_current_user decode_and_verify public_key_for_token parse_bearer before
lets_alice = refl

require_role-IsVerified_example :
    IsVerified settings tools (some "bearer t1") alice
    × ((r : String) × ((r ≡ "admin") ⊎ In r ("operator" ∷ "admin" ∷ []))
        × IsClaimed "vw-api" claims r)
require_role-IsVerified_example =
    require_role-IsVerified settings tools ("operator" ∷ "admin" ∷ []) (some "bearer t1") alice
      lets_alice

no_header : require_role settings tools ("viewer" ∷ []) none ≡ refused missing_authorization
unfolding require_role get_current_user parse_bearer
no_header = refl

other_token : require_role settings tools ("viewer" ∷ []) (some "Bearer t2") ≡ refused jwt_invalid
unfolding require_role get_current_user decode_and_verify public_key_for_token parse_bearer before
other_token = refl

other_role : require_role settings tools ("admin" ∷ []) (some "Bearer t1") ≡ refused user_forbidden
unfolding require_role get_current_user decode_and_verify public_key_for_token parse_bearer before
other_role = refl

abbrev env : Env
env = record {
  codec = record { sha256_hex = λ t. t; canon_event = λ core. core.action; jsonb = λ fs. fs };
  audit_chain_id = "mgmt-api";
  read_jsonb = λ fs. "{}";
  isoformat = λ t. "now";
}

abbrev imports : ImportTools
imports = record {
  bundle_hmac_secret = "s3";
  json = λ fs. "{}";
  hmac_sha256_hex = λ key message. if key == "s3" then "ab12" else "00";
}

abbrev root : Subject
root = record { claims = end; roles = "admin" ∷ [] }

abbrev bundle : BundleImportRequest
bundle = record { ring = "dev"; payload = end; hmac_hex = some "AB12" }

bundles_import_iff_example :
    let r = bundles_import env (λ v. "") imports 7 root bundle empty_db in
    (IsStaged r.1 ↔ (In "admin" root.roles × IsSigned imports bundle))
    × (¬ IsStaged r.1 → r.0 ≡ empty_db)
unfolding strip
bundles_import_iff_example = bundles_import_iff env (λ v. "") imports 7 root bundle empty_db refl

stages_bundle : (bundles_import env (λ v. "") imports 7 root bundle empty_db).1 ≡ staged "dev"
unfolding bundles_import
stages_bundle = refl

abbrev tokens : TokenTools
tokens = record {
  repr = λ v. "";
  policy = λ req. some (record { allowed = true; reason = "ok"; matched_rules = [] });
  jwt_encode = λ c. c.tile_id;
  stream_token_ttl_seconds = 300;
}

abbrev tile : TokenSubscribeRequest
tile = record { wall_id = pos 1; source_id = pos 2; tile_id = "t" }

abbrev asked : Fields
asked = field "wall_id" (str "1") (field "source_id" (num (pos 2)) end)

tokens_subscribe-policy_evaluate_example :
    IsGranted (tokens_subscribe env tokens 7 alice tile empty_db).1
    ↔ Allows (policy_evaluate env tokens 7 alice asked empty_db).1
unfolding int_of get_field has_field int_of_text
tokens_subscribe-policy_evaluate_example =
    tokens_subscribe-policy_evaluate env tokens 7 alice tile asked empty_db refl refl refl refl

abbrev subscribed : Db
subscribed = (tokens_subscribe env tokens 8 alice tile empty_db).0

abbrev imported : Db
imported = (bundles_import env (λ v. "") imports 9 root bundle subscribed).0

history : History env empty_db 2 imported
unfolding tokens_subscribe bundles_import iterate
history = import_bundle (subscribe start tokens 8 alice tile) (λ v. "") imports 9 root bundle

History-Ingests_example : Ingests env 2 empty_db.events imported.events
History-Ingests_example = History-Ingests env empty_db 2 imported history
