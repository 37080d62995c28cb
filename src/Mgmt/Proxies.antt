-- ===== src/Mgmt/Proxies.antt =====
-- services/mgmt-api/app/main.py: `policy_evaluate`, which asks the policy service, and
-- `bundles_import`. The HMAC and the canonical JSON of a payload are parameters.
use airgap_videowall.Policy.Service.{EvalRequest}
use airgap_videowall.Mgmt.Tokens.{Subject, TokenTools, operator_id, operator_tags}
use airgap_videowall.Mgmt.Requests.{permits}
use airgap_videowall.Policy.Engine.{EvalResponse}
use airgap_videowall.Audit.Chain.{IngestIn}
use airgap_videowall.Values.{
  Fields, get_field, ℤ, Value, field, truthy, text_of_int, has_field, str, bool, str_of, end, obj,
  int_of, or_else,
}
use airgap_videowall.Mgmt.Data.{Env, Db, append_event}
use airgap_videowall.Prelude.Text.{lower, strip, concat}
use Prim.Native.Char.{code}
use airgap_videowall.Prelude.{
  ℕ, String, Bool, true, not, ◌&&◌, Option, none, some, List, [], ◌∷◌, leb, if◌then◌else◌, ◌==◌,
  string_eq,
}

pub data PolicyAnswer : Type 0 where
  evaluated : EvalResponse → PolicyAnswer
  evaluate_forbidden evaluate_failed key_missing evaluate_crashed : PolicyAnswer

abbrev policy_event : String → ℤ → ℤ → EvalResponse → IngestIn
policy_event actor wall source r = record {
  action = "policy.evaluate";
  actor = actor;
  object_type = "policy";
  object_id = concat (text_of_int wall ∷ ":" ∷ text_of_int source ∷ []);
  details = field "allowed" (bool r.allowed) (field "reason" (str r.reason) end);
}

abbrev ask_request : (Value → String) → Subject → ℤ → ℤ → List String → EvalRequest
ask_request repr user wall source tags = record {
  wall_id = wall;
  source_id = source;
  operator_id = operator_id repr user;
  operator_roles = user.roles;
  operator_tags = tags;
}

module _ (env : Env) (tools : TokenTools) (now : ℕ) where
  unfoldable pub evaluated_by : Subject → ℤ → ℤ → Option EvalResponse → Db → Db × PolicyAnswer
  unfolding text_of_int concat operator_id
  evaluated_by user wall source none db = (db, evaluate_failed)
  evaluated_by user wall source (some r) db = (
    append_event env now (policy_event (operator_id tools.repr user) wall source r) db,
    evaluated r,
  )

  -- int(payload["wall_id"]), int(payload["source_id"]): a missing key is answered with 404
  unfoldable pub evaluate_payload : Subject → Fields → List String → Db → Db × PolicyAnswer
  unfolding evaluated_by has_field get_field int_of operator_id
  evaluate_payload user payload tags db =
      if not (has_field payload "wall_id")
      then (db, key_missing)
      else elim (int_of (get_field payload "wall_id")) [
        | none ↦ (db, evaluate_crashed)
        | some wall ↦
            if not (has_field payload "source_id")
            then (db, key_missing)
            else elim (int_of (get_field payload "source_id")) [
              | none ↦ (db, evaluate_crashed)
              | some source ↦
                  evaluated_by user wall source
                    (tools.policy (ask_request tools.repr user wall source tags)) db
            ]
      ]

  unfoldable pub evaluate_tagged : Subject → Fields → Option (List String) → Db → Db × PolicyAnswer
  unfolding evaluate_payload
  evaluate_tagged user payload none db = (db, evaluate_crashed)
  evaluate_tagged user payload (some tags) db = evaluate_payload user payload tags db

  -- `policy_evaluate`
  unfoldable pub policy_evaluate : Subject → Fields → Db → Db × PolicyAnswer
  unfolding evaluate_tagged operator_tags permits
  policy_evaluate user payload db =
      if permits ("viewer" ∷ "operator" ∷ "admin" ∷ []) user.roles
      then evaluate_tagged user payload (operator_tags tools.repr user) db
      else (db, evaluate_forbidden)

pub record BundleImportRequest : Type 0 where
  pub ring : String
  pub payload : Fields
  pub hmac_hex : Option String

pub record ImportTools : Type 0 where
  pub bundle_hmac_secret : String
  pub json : Fields → String
  pub hmac_sha256_hex : String → String → String

pub data ImportAnswer : Type 0 where
  staged : String → ImportAnswer
  missing_hmac invalid_hmac import_forbidden import_crashed : ImportAnswer

unfoldable pub is_ascii : String → Bool
is_ascii String.[] = true
is_ascii (String.◌∷◌ c s) = leb (code c) 127 && is_ascii s

-- `hmac.compare_digest` of a hexadecimal text and another one, which raises where that is not ASCII
unfoldable pub check_digest : String → String → Option ImportAnswer
unfolding is_ascii
check_digest expected given =
    if not (is_ascii given)
    then some import_crashed
    else if expected == given
    then none
    else some invalid_hmac

unfoldable pub check_given : ImportTools → Fields → Option String → Option ImportAnswer
unfolding check_digest strip lower
check_given tools payload none = some missing_hmac
check_given tools payload (some given) =
    if given == ""
    then some missing_hmac
    else check_digest (tools.hmac_sha256_hex (strip tools.bundle_hmac_secret) (tools.json payload))
        (lower given)

-- the checks of `bundles_import`: `none` where they pass
unfoldable pub check_hmac : ImportTools → BundleImportRequest → Option ImportAnswer
unfolding check_given strip
check_hmac tools req =
    if strip tools.bundle_hmac_secret == ""
    then none
    else check_given tools req.payload req.hmac_hex

-- str(user.get("preferred_username") or user.get("sub") or "unknown")
unfoldable pub actor_of : (Value → String) → Subject → String
unfolding get_field truthy str_of
actor_of repr user = str_of repr (
    or_else (or_else (get_field user.claims "preferred_username") (get_field user.claims "sub"))
      (str "unknown"))

abbrev import_event : String → BundleImportRequest → IngestIn
import_event actor req = record {
  action = "bundles.import.stage";
  actor = actor;
  object_type = "bundle";
  object_id = req.ring;
  details = field "ring" (str req.ring) (field "payload" (obj req.payload) end);
}

module _ (env : Env) (repr : Value → String) (tools : ImportTools) (now : ℕ) where
  unfoldable pub stage_import :
      Subject → BundleImportRequest → Option ImportAnswer → Db → Db × ImportAnswer
  unfolding actor_of
  stage_import user req (some answer) db = (db, answer)
  stage_import user req none db =
      (append_event env now (import_event (actor_of repr user) req) db, staged req.ring)

  -- `bundles_import`
  unfoldable pub bundles_import : Subject → BundleImportRequest → Db → Db × ImportAnswer
  unfolding stage_import check_hmac permits
  bundles_import user req db =
      if permits ("admin" ∷ []) user.roles
      then stage_import user req (check_hmac tools req) db
      else (db, import_forbidden)
