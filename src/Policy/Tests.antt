-- ===== src/Policy/Tests.antt =====
-- The policy engine at concrete documents and requests.

use airgap_videowall.Policy.Service.{EvalRequest, Engine, World}
use airgap_videowall.Prelude.{
  String, ◌≡◌, refl, ◌↔◌, inl, true, some, List, [], ◌∷◌, In, here, there, eq_iff, subst, false,
  none,
}
use airgap_videowall.Prelude.Text.{lower}
use airgap_videowall.Values.{
  pos, Value, Fields, null, bool, str, num, list, obj, nil, cons, end, field, truthy, get_field,
  str_of,
}
use airgap_videowall.Policy.Engine.{
  ok, Query, Match, EvalResponse, get_rules, rule_conditions, rule_effect, rule_id, decision,
  evaluate, evaluate_rules, default_reason, conditions_met, condition, is_admin,
}
use airgap_videowall.Policy.Decides.{Decides, first, holds, source_subset, later}
use airgap_videowall.Policy.Evaluation.{answer, Undecided}
use airgap_videowall.Policy.Verdicts.{IsWellFormed, Admits, evaluate-allowed_iff, evaluate-Decides}

abbrev repr : Value → String
repr v = "<value>"

-- The first rule of services/policy/policy.yaml.
abbrev clearance : Fields
clearance = field "id" (str "rule-1-operator-clearance") (
    field "effect" (str "allow") (
      field "when"
        (list (cons (obj (field "source_tags_subset_of_operator_tags" (bool true) end)) nil)) end))

-- A rule whose condition is no mapping.
abbrev odd : Fields
odd =
    field "id" (str "odd") (field "effect" (str "Allow") (field "when" (list (cons null nil)) end))

abbrev with_rule : Fields → Fields
with_rule r = field "version" (num (pos 1)) (field "rules" (list (cons (obj r) nil)) end)

with_rule-IsWellFormed : (r : Fields) → IsWellFormed (with_rule r)
unfolding get_rules truthy get_field
with_rule-IsWellFormed r = record { rules = ((r, refl), tt); defaults = end; defaults_lem = refl }

abbrev request : Query
request = record {
  wall_id = pos 1;
  source_id = pos 2;
  operator_id = "bob";
  operator_roles = "Viewer" ∷ [];
  operator_tags = "C" ∷ "ops" ∷ [];
  source_tags = "ops" ∷ [];
  wall_tags = [];
}

not_admin : {r : String} → In r ("Viewer" ∷ []) → lower r ≡ "admin" → ⊥
unfolding lower
not_admin (here e) h = cc ((eq_iff (lower "Viewer") "admin").1 (subst (λ s. lower s ≡ "admin") e h))
not_admin (there m) h = elim m [ ]

evaluate_runs :
    evaluate repr (with_rule clearance) request
    ≡ decision true "allowed_by:rule-1-operator-clearance"
        (record { id = "rule-1-operator-clearance"; effect = some "allow" } ∷ [])
unfolding evaluate evaluate_rules get_rules rule_conditions rule_effect rule_id conditions_met
    condition default_reason str_of get_field truthy lower is_admin
evaluate_runs = refl

evaluate-allowed_iff_example :
    (r : EvalResponse) × (evaluate repr (with_rule clearance) request ≡ ok r)
    × ((r.allowed ≡ true) ↔ Admits repr (with_rule clearance) request)
evaluate-allowed_iff_example =
    evaluate-allowed_iff repr (with_rule clearance) request (with_rule-IsWellFormed clearance)

clearance-Decides :
    Decides repr (with_rule clearance) request (get_rules (with_rule clearance)) clearance
unfolding get_rules rule_conditions rule_effect str_of truthy get_field lower
clearance-Decides =
    first clearance []
      (
        holds _ _ _ refl
            (source_subset refl λ t m. elim m [ here e ↦ there (here e) | there n ↦ elim n [ ] ]),
        tt,
      )
      (inl refl)

evaluate-Decides_example :
    (before : List Match) × (evaluate repr (with_rule clearance) request
      ≡ ok (answer repr clearance before))
evaluate-Decides_example =
    evaluate-Decides repr (with_rule clearance) request clearance (with_rule-IsWellFormed clearance)
      (λ (r, m, e). not_admin m e) clearance-Decides

odd-Undecided : Undecided repr (with_rule odd) request (get_rules (with_rule odd))
unfolding get_rules rule_conditions truthy get_field
odd-Undecided rule d = undecided d
  where
    undecided : {r : Fields} → Decides repr (with_rule odd) request (obj odd ∷ []) r → ⊥
    undecided (first _ _ (holds k w fs e c, _) f) = cc
    undecided (later _ _ _ _ rest) = elim rest [ ]

-- Nothing answers: no file, no service.
abbrev silent : World
silent = record {
  candidates = "/etc/vw-policy/policy.yaml" ∷ [];
  is_file = λ p. false;
  load_yaml = λ p. none;
  http_get = λ url. none;
  config_url = "http://vw-config:8006";
  mgmt_api_url = "http://vw-mgmt-api:8000";
}

abbrev loaded : Engine
loaded = record { path = none; policy = with_rule clearance; source = "file:policy.yaml" }

abbrev stranger : EvalRequest
stranger = record {
  wall_id = pos 1;
  source_id = pos 2;
  operator_id = "mallory";
  operator_roles = "Viewer" ∷ [];
  operator_tags = [];
}

abbrev administrator : Query
administrator = record request { operator_roles = "Admin" ∷ [] }
