-- ===== src/Policy/Failures.antt =====
-- The policy service when what it depends on does not answer.
use Prim.Native.String.{◌++◌ as append}
use airgap_videowall.Prelude.{
  String, ◌≡◌, refl, inl, true, false, none, some, List, [], ◌∷◌, In, arith, Option,
}
use airgap_videowall.Prelude.Text.{lower}
use airgap_videowall.Values.{truthy, Value, Fields, text_of_int, obj, field, end, str_of, get_field}
use airgap_videowall.Policy.Engine.{
  ok, EvalResponse, get_rules, rule_conditions, rule_effect, decision, Query, evaluate,
  evaluate_rules, rule_id, conditions_met, condition, is_true, default_reason,
}
use airgap_videowall.Policy.Decides.{first, Decides, Applies, holds, source_subset, IsAdmin}
use airgap_videowall.Policy.Verdicts.{IsWellFormed, rule, evaluate-allowed_iff, not-admin}
use airgap_videowall.Policy.Service.{
  from_path, from_file, use_default, World, Engine, EvalRequest, fetch_policy, file_policy, reload,
  handle_evaluate, query_of, default_deny, source_tags, response_tags, or_path, resolve_policy_path,
}

-- A request's roles hold no `admin`, in any case.
abbrev pub HasAdmin : EvalRequest → Type 0
HasAdmin req = (r : String) × In r req.operator_roles × (lower r ≡ "admin")

from_path_default :
    (w : World) (e : Engine) (path : Option String)
    → ((path : String) → file_policy (w.load_yaml path) ≡ none)
    → (from_path w e path).policy ≡ default_deny
unfolding from_path from_file use_default
from_path_default w e none no_file = refl
from_path_default w e (some path) no_file = ground (arith, no_file path)

reload_default :
    (w : World) (e : Engine)
    → fetch_policy (w.http_get (append w.config_url "/api/v1/policy")) ≡ none
    → ((path : String) → file_policy (w.load_yaml path) ≡ none)
    → (reload w e).policy ≡ default_deny
unfolding reload
reload_default w e no_api no_file =
    ground (arith, from_path_default w e (or_path e.path (resolve_policy_path w)) no_file)

module _ (repr : Value → String) where
  evaluate_default :
      (q : Query)
      → ¬ IsAdmin q
      → evaluate repr default_deny q
        ≡ decision false "denied_by:default-deny"
            (record { id = "default-deny"; effect = some "deny" } ∷ [])
  unfolding evaluate evaluate_rules get_rules rule_conditions rule_effect rule_id conditions_met
      condition is_true default_reason str_of get_field truthy lower
  evaluate_default q n = rw (not-admin q n)

  unreachable_Applies :
      (policy : Fields) (q : Query) (r : Fields) (v : Value)
      → q.source_tags ≡ []
      → rule_conditions r ≡ obj (field "source_tags_subset_of_operator_tags" v end) ∷ []
      → Applies repr policy q r
  unreachable_Applies policy q r v no_tags e =
      rw e (holds _ v end refl (source_subset refl (λ t m. elim (rw no_tags at m) [ ])), tt)

module _ (repr : Value → String) (w : World) (e : Engine) (req : EvalRequest) where
  -- If the configuration service gives no policy and no candidate file does, a request without
  -- the role admin is denied by the built-in document, after a reload.
  pub handle_evaluate-reload_default :
      fetch_policy (w.http_get (append w.config_url "/api/v1/policy")) ≡ none
      → ((path : String) → file_policy (w.load_yaml path) ≡ none)
      → ¬ HasAdmin req
      → handle_evaluate repr w (reload w e) req
        ≡ decision false "denied_by:default-deny"
            (record { id = "default-deny"; effect = some "deny" } ∷ [])
  unfolding handle_evaluate
  handle_evaluate-reload_default no_api no_file n =
      rw (reload_default w e no_api no_file) (evaluate_default repr (query_of repr w req) n)

  -- If the tags of the source cannot be fetched, a well-formed document whose first rule allows on clearance
  -- alone allows every request, whatever the operator's roles and tags.
  pub handle_evaluate-unreachable :
      (r : Fields) (rules : List Value) (v : Value)
      → IsWellFormed e.policy
      → get_rules e.policy ≡ obj r ∷ rules
      → rule_conditions r ≡ obj (field "source_tags_subset_of_operator_tags" v end) ∷ []
      → rule_effect repr r ≡ "allow"
      → w.http_get (append w.mgmt_api_url (append "/api/v1/sources/" (text_of_int req.source_id)))
        ≡ none
      → (a : EvalResponse) × (handle_evaluate repr w e req ≡ ok a) × (a.allowed ≡ true)
  unfolding handle_evaluate source_tags response_tags
  handle_evaluate-unreachable r rules v wf e₁ e₂ e₃ no_tags =
      let q = query_of repr w req in
      let (a, run, iff) = evaluate-allowed_iff repr e.policy q wf in
      let applies = unreachable_Applies repr e.policy q r v (rw no_tags) e₂ in
      let decides : Decides repr e.policy q (get_rules e.policy) r =
        rw e₁ (first r rules applies (inl e₃)) in
      (a, run, iff.1 (rule r decides e₃))
