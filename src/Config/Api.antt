-- ===== src/Config/Api.antt =====
-- services/vw-config/app/main.py: the JSON of the policy, and the policy engine that reads it from
-- there (services/policy/app/main.py).
use airgap_videowall.Prelude.Text.{lower}
use airgap_videowall.Prelude.{String, ◌≡◌, refl, true, List, [], ◌∷◌, All, inl}
use airgap_videowall.Prelude.Dict.{Dict}
use airgap_videowall.Values.{
  Value, Fields, Items, str, list, obj, nil, cons, end, field, values, get_field, truthy, str_of,
}
use airgap_videowall.Config.Data.{PolicyRule, PolicyConfig}
use airgap_videowall.Policy.Engine.{
  Query, EvalResponse, ok, evaluate, get_rules, rule_conditions, rule_effect,
}
use airgap_videowall.Policy.Decides.{AreMappings, Holds, Decides, first}
use airgap_videowall.Policy.Verdicts.{IsWellFormed, evaluate-allowed_iff, rule}

unfoldable pub texts_json : List String → Items
texts_json [] = nil
texts_json (s ∷ ss) = cons (str s) (texts_json ss)

unfoldable pub taxonomy_json : Dict String (List String) → Fields
unfolding texts_json
taxonomy_json [] = end
taxonomy_json ((k, tags) ∷ d) = field k (list (texts_json tags)) (taxonomy_json d)

unfoldable pub entry_json : Dict String String → Fields
entry_json [] = end
entry_json ((k, v) ∷ d) = field k (str v) (entry_json d)

unfoldable pub entries_json : List (Dict String String) → Items
unfolding entry_json
entries_json [] = nil
entries_json (d ∷ ds) = cons (obj (entry_json d)) (entries_json ds)

unfoldable pub rule_json : PolicyRule → Fields
rule_json r = field "id" (str r.id) (
    field "effect" (str r.effect)
      (field "description" (str r.description) (field "when" (obj r.when) end)))

unfoldable pub rules_json : List PolicyRule → Items
unfolding rule_json
rules_json [] = nil
rules_json (r ∷ rs) = cons (obj (rule_json r)) (rules_json rs)

-- `get_policy`
unfoldable pub policy_json : PolicyConfig → Fields
unfolding taxonomy_json rules_json entries_json
policy_json p = field "taxonomy" (obj (taxonomy_json p.taxonomy)) (
    field "rules" (list (rules_json p.rules))
      (field "allow_list" (list (entries_json p.allow_list)) end))

rules_json-AreMappings : (rs : List PolicyRule) → AreMappings (values (rules_json rs))
unfolding rules_json
rules_json-AreMappings [] = tt
rules_json-AreMappings (r ∷ rs) = ((rule_json r, refl), rules_json-AreMappings rs)

-- The policy engine takes the conditions from a list only, and the served rules have a mapping.
rule_conditions-json :
    (r : PolicyRule) (w : Fields) → r.when ≡ w → rule_conditions (rule_json r) ≡ []
unfolding rule_conditions rule_json get_field truthy
rule_conditions-json r end e = rw e refl
rule_conditions-json r (field k v fs) e = rw e refl

get_rules-json :
    (p : PolicyConfig) (r : PolicyRule) (rs : List PolicyRule)
    → p.rules ≡ r ∷ rs
    → get_rules (policy_json p) ≡ obj (rule_json r) ∷ values (rules_json rs)
unfolding get_rules policy_json rules_json get_field truthy
get_rules-json p r rs e = rw e refl

rule_effect-json :
    (repr : Value → String) (r : PolicyRule)
    → r.effect ≡ "allow"
    → rule_effect repr (rule_json r) ≡ "allow"
unfolding rule_effect rule_json get_field truthy str_of lower
rule_effect-json repr r e = rw e refl

module _ (repr : Value → String) where
  -- If the first rule of the configuration has the effect `allow`, the policy engine allows every
  -- request under the policy that the configuration service serves, whatever the rule's conditions.
  pub evaluate-policy_json :
      (p : PolicyConfig) (r : PolicyRule) (rs : List PolicyRule) (q : Query)
      → p.rules ≡ r ∷ rs
      → r.effect ≡ "allow"
      → (a : EvalResponse) × (evaluate repr (policy_json p) q ≡ ok a) × (a.allowed ≡ true)
  unfolding get_field truthy policy_json
  evaluate-policy_json p r rs q e f =
      let rules = get_rules-json p r rs e in
      let wf : IsWellFormed (policy_json p) = record {
        rules = rw rules ((rule_json r, refl), rules_json-AreMappings rs);
        defaults = end;
        defaults_lem = refl;
      } in
      let applies : All (Holds repr (policy_json p) q) (rule_conditions (rule_json r)) =
        rw (rule_conditions-json r r.when refl) tt in
      let effect = rule_effect-json repr r f in
      let decides : Decides repr (policy_json p) q (get_rules (policy_json p)) (rule_json r) =
        rw rules (first (rule_json r) (values (rules_json rs)) applies (inl effect)) in
      let (a, run, iff) = evaluate-allowed_iff repr (policy_json p) q wf in
      (a, run, iff.1 (rule (rule_json r) decides effect))
