-- ===== src/Processes/Compositor.antt =====
-- services/compositor/app: the mosaic handlers (main.py) and the policy check before them
-- (policy.py). What the policy service answers to a request is a parameter, `none` where the call
-- raises or the answer has an error status; the builder of pipelines is another.
use airgap_videowall.Prelude.{
  ℕ, String, Bool, true, false, Option, none, some, List, [], ◌∷◌, if◌then◌else◌, ◌==◌, string_eq,
}
use airgap_videowall.Prelude.Text.{starts_with, digits}
use airgap_videowall.Values.{Value, Fields, pos, ℤ, str, bool, obj, get_field, has_field, str_of}
use airgap_videowall.Policy.Service.{EvalRequest}
use airgap_videowall.Processes.Table.{State, Answer, Spec, Request, denied, step, create_request}

pub record MosaicInput : Type 0 where
  pub source_id : String
  pub position : ℤ
  pub width : ℤ
  pub height : ℤ
  pub source_url : Option String
  pub source_protocol : String

-- The fields of `MosaicDefinition` beside its id and the two that the service sets.
pub record Mosaic : Type 0 where
  pub wall_id : String
  pub name : String
  pub resolution : String
  pub fps : ℤ
  pub codec : String
  pub output_mode : String
  pub output_url : String
  pub grid_cols : ℤ
  pub grid_rows : ℤ
  pub inputs : List MosaicInput

-- `int(source_id) if str(source_id).isdigit() else 0`, of the digits 0 to 9
unfoldable pub source_number : Option ℕ → ℤ
source_number none = pos 0
source_number (some n) = pos n

-- `user or "compositor-service"`
unfoldable pub operator_of : Option String → String
operator_of none = "compositor-service"
operator_of (some u) = if u == "" then "compositor-service" else u

unfoldable pub payload : String → Option String → EvalRequest
unfolding source_number operator_of
payload source_id user = record {
  wall_id = pos 0;
  source_id = source_number (digits source_id);
  operator_id = operator_of user;
  operator_roles = "admin" ∷ [];
  operator_tags = [];
}

unfoldable pub is_json_true : Value → Bool
is_json_true (bool true) = true
is_json_true _ = false

-- data.get("reason", "")
unfoldable pub reason_of : Fields → Value
reason_of fs = if has_field fs "reason" then get_field fs "reason" else str ""

module _ (repr : Value → String) (post : EvalRequest → Option Value) where
  unfoldable pub grants : Option Value → Bool
  unfolding is_json_true reason_of
  grants (some (obj fs)) =
      if is_json_true (get_field fs "allowed")
      then true
      else starts_with (str_of repr (reason_of fs)) "allowed"
  grants _ = false

  -- `evaluate_source_access`
  unfoldable pub evaluate_source_access : String → Option String → Bool
  unfolding grants payload
  evaluate_source_access source_id user = grants (post (payload source_id user))

  -- the loop over the inputs, before the process table is looked at
  unfoldable pub inputs_allowed : Option String → List MosaicInput → Bool
  unfolding evaluate_source_access
  inputs_allowed user [] = true
  inputs_allowed user (i ∷ inputs) =
      if evaluate_source_access i.source_id user then inputs_allowed user inputs else false

  unfoldable pub permitted : Option String → Request Mosaic → Bool
  unfolding inputs_allowed
  permitted user (create_request d) = inputs_allowed user d.body.inputs
  permitted user _ = true

  -- The handlers of the mosaics, with the user of the `X-User` header.
  unfoldable pub handle_mosaic :
      (Mosaic → Option Spec)
      → (ℕ → Bool)
      → Option String
      → Request Mosaic
      → State Mosaic
      → State Mosaic × Answer
  handle_mosaic build alive user req s =
      if permitted user req then step build alive req s else (s, denied)
