-- ===== src/Policy/Engine.antt =====
-- services/policy/app/main.py: the request and response models, and `PolicyEngine`'s `evaluate`
-- with its closures. The policy document has no schema there, so it is a mapping of `Values`.
use Prim.Native.String.{◌++◌ as append}
use airgap_videowall.Prelude.{
  String, Bool, true, false, ◌&&◌, Option, none, some, List, [], ◌∷◌, ◌++◌, if◌then◌else◌, ◌==◌,
  any, subset, intersects, string_eq,
}
use airgap_videowall.Prelude.Text.{lower}
use airgap_videowall.Values.{
  ℤ, int_eq, Value, Fields, str, list, obj, nil, field, end, values, or_else, get_field, int_of,
  str_of,
}

pub data Result {ℓ} (A : Type ℓ) : Type ℓ where
  ok : A → Result A
  attribute_error : Result A

-- The arguments of `evaluate`, and the fields of `EvalRequest` among them.
pub record Query : Type 0 where
  pub wall_id : ℤ
  pub source_id : ℤ
  pub operator_id : String
  pub operator_roles : List String
  pub operator_tags : List String
  pub source_tags : List String
  pub wall_tags : List String

-- An entry of `matched_rules`; the one of the admin bypass has no effect.
pub record Match : Type 0 where
  pub id : String
  pub effect : Option String

pub record EvalResponse : Type 0 where
  pub allowed : Bool
  pub reason : String
  pub matched_rules : List Match

abbrev or_list : Value → List Value
or_list (list vs) = values vs
or_list _ = []

-- `_get_allow_list` and `_get_rules`
unfoldable pub get_allow_list : Fields → List Value
get_allow_list policy = or_list (or_else (get_field policy "allow_list") (list nil))

unfoldable pub get_rules : Fields → List Value
get_rules policy = or_list (or_else (get_field policy "rules") (list nil))

unfoldable pub is_int : ℤ → Option ℤ → Bool
is_int n none = false
is_int n (some m) = m == n

unfoldable pub is_true : Option Bool → Bool
is_true none = false
is_true (some b) = b

-- a `when` that is no list counts as the empty list
unfoldable pub rule_conditions : Fields → List Value
rule_conditions rule = or_list (or_else (get_field rule "when") (list nil))

abbrev pub decision : Bool → String → List Match → Result EvalResponse
decision allowed reason matched =
    ok (record { allowed = allowed; reason = reason; matched_rules = matched })

unfoldable pub is_admin : List String → Bool
is_admin roles = any (λ r. lower r == "admin") roles

module _ (repr : Value → String) where
  -- One entry of `cond_explicit_allow`: what raises is skipped by the `except`.
  unfoldable pub entry_allows : Query → Value → Bool
  unfolding is_int
  entry_allows q (obj entry) =
      str_of repr (get_field entry "operator_id") == q.operator_id
      && (is_int q.wall_id (int_of (get_field entry "wall_id"))
          && is_int q.source_id (int_of (get_field entry "source_id")))
  entry_allows q _ = false

  -- `cond_map.get(k)`, called: `none` if no condition has the name
  unfoldable pub condition : Fields → Query → String → Option Bool
  condition policy q k =
      if k == "source_tags_subset_of_operator_tags"
      then some (subset q.source_tags q.operator_tags)
      else if k == "source_tags_intersect_wall_tags"
      then some (intersects q.source_tags q.wall_tags)
      else if k == "in_explicit_allow_list"
      then some (any (entry_allows q) (get_allow_list policy))
      else if k == "always"
      then some true
      else none

  -- the loop over `when`: only the first key of each entry is looked at
  unfoldable pub conditions_met : Fields → Query → List Value → Bool
  unfolding is_true
  conditions_met policy q [] = true
  conditions_met policy q (obj (field k v fs) ∷ rest) =
      if is_true (condition policy q k) then conditions_met policy q rest else false
  conditions_met policy q (_ ∷ rest) = false

  unfoldable pub rule_id : Fields → String
  rule_id rule = str_of repr (or_else (get_field rule "id") (str "rule-unknown"))

  unfoldable pub rule_effect : Fields → String
  rule_effect rule = lower (str_of repr (or_else (get_field rule "effect") (str "deny")))

  -- the loop over the rules; `reason` is `default_reason`, `matched` the list so far
  unfoldable pub evaluate_rules :
      Fields → Query → String → List Match → List Value → Result EvalResponse
  evaluate_rules policy q reason matched [] = decision false reason matched
  evaluate_rules policy q reason matched (obj rule ∷ rules) =
      let applies = conditions_met policy q (rule_conditions rule) in
      let effect = rule_effect rule in
      let hit = matched ++ record { id = rule_id rule; effect = some effect } ∷ [] in
      let rest = evaluate_rules policy q reason (if applies then hit else matched) rules in
      if applies
      then (if effect == "allow"
          then decision true (append "allowed_by:" (rule_id rule)) hit
          else if effect == "deny"
          then decision false (append "denied_by:" (rule_id rule)) hit
          else rest)
      else rest
  evaluate_rules policy q reason matched (_ ∷ rules) = attribute_error

  -- `(policy.get("defaults") or {}).get("deny_reason") or "default_deny"`
  unfoldable pub default_reason : Value → Result Value
  default_reason (obj defaults) =
      ok (or_else (get_field defaults "deny_reason") (str "default_deny"))
  default_reason _ = attribute_error

  unfoldable pub after_default : Fields → Query → Result Value → Result EvalResponse
  after_default policy q (ok reason) =
      evaluate_rules policy q (str_of repr reason) [] (get_rules policy)
  after_default policy q attribute_error = attribute_error

  -- `PolicyEngine.evaluate`
  unfoldable pub evaluate : Fields → Query → Result EvalResponse
  unfolding after_default
  evaluate policy q =
      if is_admin q.operator_roles
      then decision true "admin_bypass" (record { id = "admin-bypass"; effect = none } ∷ [])
      else after_default policy q (default_reason (or_else (get_field policy "defaults") (obj end)))
