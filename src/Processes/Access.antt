-- ===== src/Processes/Access.antt =====
-- What the compositor's policy check is worth: the check stands before the process table, and the
-- policy service always grants what the compositor asks.
use airgap_videowall.Policy.Verdicts.{evaluate-IsAdmin}
use airgap_videowall.Prelude.Text.{lower}
use airgap_videowall.Processes.Compositor.{
  inputs_allowed, handle_mosaic, evaluate_source_access, MosaicInput, grants, permitted, Mosaic,
  payload, is_json_true,
}
use airgap_videowall.Prelude.{
  ℕ, String, ◌≡◌, refl, Bool, true, false, Option, none, some, List, [], ◌∷◌, arith, In, here,
  there,
}
use airgap_videowall.Values.{Value, bool, str, obj, field, end, get_field}
use airgap_videowall.Policy.Engine.{EvalResponse, Result, ok, attribute_error}
use airgap_videowall.Policy.Service.{EvalRequest, World, Engine, handle_evaluate, query_of}
use airgap_videowall.Processes.Table.{State, Spec, denied, create_request, Definition}

-- The JSON of what the `/evaluate` handler answers; `none` for an error status.
unfoldable pub policy_answer : Result EvalResponse → Option Value
policy_answer (ok r) =
    some (obj (field "allowed" (bool r.allowed) (field "reason" (str r.reason) end)))
policy_answer attribute_error = none

module _ (repr : Value → String) (post : EvalRequest → Option Value) where
  inputs_allowed_denied :
      (user : Option String) (i : MosaicInput) (inputs : List MosaicInput)
      → In i inputs
      → evaluate_source_access repr post i.source_id user ≡ false
      → inputs_allowed repr post user inputs ≡ false
  unfolding inputs_allowed
  inputs_allowed_denied user i [] m d = elim m [ ]
  inputs_allowed_denied user i (x ∷ inputs) (here e) d = rw (← e, d) refl
  inputs_allowed_denied user i (x ∷ inputs) (there m) d =
      ground (arith, inputs_allowed_denied user i inputs m d)

  -- Creating a mosaic with an input that the policy service does not grant is refused and changes nothing,
  -- whether it is new or not.
  pub handle_mosaic-denied :
      (build : Mosaic → Option Spec) (alive : ℕ → Bool) (user : Option String)
      (d : Definition Mosaic) (i : MosaicInput) (s : State Mosaic)
      → In i d.body.inputs
      → evaluate_source_access repr post i.source_id user ≡ false
      → handle_mosaic repr post build alive user (create_request d) s ≡ (s, denied)
  unfolding handle_mosaic permitted
  handle_mosaic-denied build alive user d i s m h =
      rw (inputs_allowed_denied user i d.body.inputs m h) refl

-- Asked of the policy service itself, the check grants every source to every user, whatever the
-- document says: the compositor names the role `admin` in each request.
pub evaluate_source_access-granted :
    (repr : Value → String) (w : World) (e : Engine) (source_id : String) (user : Option String)
    → evaluate_source_access repr
        (λ req. policy_answer (handle_evaluate repr w e req))
        source_id
        user
      ≡ true
unfolding evaluate_source_access grants payload is_json_true handle_evaluate policy_answer get_field
    lower
evaluate_source_access-granted repr w e source_id user =
    rw
      (evaluate-IsAdmin repr e.policy (query_of repr w (payload source_id user))
        ("admin", here refl, refl))
      refl
