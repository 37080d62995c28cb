-- ===== src/Mgmt/Tokens.antt =====
-- services/mgmt-api/app/main.py: `tokens_subscribe`, which asks the policy service and mints a
-- stream token. The answer of the policy service (`none` for an error status) and the JWT encoding
-- are parameters.
use airgap_videowall.Prelude.Text.{concat}
use airgap_videowall.Prelude.{
  ℕ, ◌+◌, String, ◌≡◌, Option, none, some, List, [], ◌∷◌, map, if◌then◌else◌,
}
use airgap_videowall.Values.{
  ℤ, Value, Fields, str, num, list, nil, field, end, or_else, get_field, str_of, text_of_int,
}
use airgap_videowall.Audit.Chain.{IngestIn}
use airgap_videowall.Policy.Engine.{EvalResponse, Result, ok, attribute_error}
use airgap_videowall.Policy.Service.{EvalRequest, iterate}
use airgap_videowall.Mgmt.Data.{Env, Db, append_event}
use airgap_videowall.Mgmt.Requests.{permits}

-- The verified claims of a token, and the roles that were read from them.
pub record Subject : Type 0 where
  pub claims : Fields
  pub roles : List String

pub record TokenSubscribeRequest : Type 0 where
  pub wall_id : ℤ
  pub source_id : ℤ
  pub tile_id : String

-- The claims of a stream token.
pub record StreamClaims : Type 0 where
  pub sub : String
  pub wall_id : ℤ
  pub source_id : ℤ
  pub tile_id : String
  pub iat : ℕ
  pub exp : ℕ
  pub typ : String

pub record TokenTools : Type 0 where
  pub repr : Value → String
  pub policy : EvalRequest → Option EvalResponse
  pub jwt_encode : StreamClaims → String
  pub stream_token_ttl_seconds : ℕ

pub data TokenAnswer : Type 0 where
  token_granted : String → TokenAnswer
  token_denied : String → TokenAnswer
  policy_service_error : TokenAnswer
  type_error : TokenAnswer
  token_forbidden : TokenAnswer

-- `str(user.get("sub") or "")`
unfoldable pub operator_id : (Value → String) → Subject → String
operator_id repr user = str_of repr (or_else (get_field user.claims "sub") (str ""))

-- `[str(x) for x in list(user.get("tags") or user.get("groups") or [])]`, `none` where `list` raises
unfoldable pub operator_tags : (Value → String) → Subject → Option (List String)
operator_tags repr user =
    let v =
      or_else (or_else (get_field user.claims "tags") (get_field user.claims "groups"))
        (list nil) in
    elim (iterate v) [ none ↦ none | some vs ↦ some (map (str_of repr) vs) ]

unfoldable pub policy_request :
    (Value → String) → Subject → TokenSubscribeRequest → List String → EvalRequest
unfolding operator_id
policy_request repr user req tags = record {
  wall_id = req.wall_id;
  source_id = req.source_id;
  operator_id = operator_id repr user;
  operator_roles = user.roles;
  operator_tags = tags;
}

-- f"{payload.wall_id}:{payload.source_id}:{payload.tile_id}"
unfoldable pub token_object : TokenSubscribeRequest → String
token_object req =
    concat (text_of_int req.wall_id ∷ ":" ∷ text_of_int req.source_id ∷ ":" ∷ req.tile_id ∷ [])

module _ (env : Env) (tools : TokenTools) (now : ℕ) where
  -- `_mint_stream_token`
  unfoldable pub mint_stream_token : String → TokenSubscribeRequest → String
  mint_stream_token sub req = tools.jwt_encode (record {
    sub = sub;
    wall_id = req.wall_id;
    source_id = req.source_id;
    tile_id = req.tile_id;
    iat = now;
    exp = now + tools.stream_token_ttl_seconds;
    typ = "vw-stream";
  })

  abbrev pub token_event : String → String → TokenSubscribeRequest → Fields → IngestIn
  token_event action actor req details = record {
    action = action;
    actor = actor;
    object_type = "token";
    object_id = token_object req;
    details = details;
  }

  -- what follows the answer of the policy service
  unfoldable pub conclude :
      Subject → TokenSubscribeRequest → Option EvalResponse → Db → Db × TokenAnswer
  unfolding mint_stream_token operator_id token_object
  conclude user req none db = (db, policy_service_error)
  conclude user req (some presp) db =
      let actor = operator_id tools.repr user in
      let denial =
        field "reason" (str presp.reason)
          (field "wall_id" (num req.wall_id) (field "source_id" (num req.source_id) end)) in
      let grant =
        field "wall_id" (num req.wall_id)
          (field "source_id" (num req.source_id) (field "tile_id" (str req.tile_id) end)) in
      if presp.allowed
      then (
        append_event env now (token_event "tokens.subscribe.allow" actor req grant) db,
        token_granted (mint_stream_token actor req),
      )
      else (
        append_event env now (token_event "tokens.subscribe.deny" actor req denial) db,
        token_denied presp.reason,
      )

  unfoldable pub ask :
      Subject → TokenSubscribeRequest → Option (List String) → Db → Db × TokenAnswer
  unfolding conclude policy_request
  ask user req none db = (db, type_error)
  ask user req (some tags) db =
      conclude user req (tools.policy (policy_request tools.repr user req tags)) db

  -- `tokens_subscribe`
  unfoldable pub tokens_subscribe : Subject → TokenSubscribeRequest → Db → Db × TokenAnswer
  unfolding ask operator_tags
  tokens_subscribe user req db =
      if permits ("viewer" ∷ "operator" ∷ "admin" ∷ []) user.roles
      then ask user req (operator_tags tools.repr user) db
      else (db, token_forbidden)

-- The policy service's answer: an exception is an error status.
unfoldable pub answer_of : Result EvalResponse → Option EvalResponse
answer_of (ok r) = some r
answer_of attribute_error = none

abbrev pub IsGranted : TokenAnswer → Type 0
IsGranted a = (t : String) × (a ≡ token_granted t)
