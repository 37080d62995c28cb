-- ===== src/Policy/Decides.antt =====
-- What a policy document means, said without the loops of the code.
use airgap_videowall.Prelude.{String, ◌≡◌, ◌⊎◌, some, List, ◌∷◌, All, In}
use airgap_videowall.Prelude.Text.{lower}
use airgap_videowall.Values.{Value, Fields, obj, field, get_field, int_of, str_of}
use airgap_videowall.Policy.Engine.{Query, get_allow_list, rule_effect, rule_conditions}

abbrev pub IsFinal : String → Type 0
IsFinal effect = (effect ≡ "allow") ⊎ (effect ≡ "deny")

-- Every rule is a mapping, so that `rule.get` is there.
abbrev pub AreMappings : List Value → Type 0
AreMappings = All (λ v. (fs : Fields) × (v ≡ obj fs))

abbrev pub IsAdmin : Query → Type 0
IsAdmin q = (r : String) × In r q.operator_roles × (lower r ≡ "admin")

module _ (repr : Value → String) where
  -- The entry names the operator, the wall and the source of the request.
  pub data Names (q : Query) (v : Value) : Type 0 where
    names :
        (entry : Fields)
        → v ≡ obj entry
        → str_of repr (get_field entry "operator_id") ≡ q.operator_id
        → int_of (get_field entry "wall_id") ≡ some q.wall_id
        → int_of (get_field entry "source_id") ≡ some q.source_id
        → Names q v

  -- The condition that a name stands for.
  pub data Condition (policy : Fields) (q : Query) (k : String) : Type 0 where
    source_subset :
        k ≡ "source_tags_subset_of_operator_tags"
        → ((t : String) → In t q.source_tags → In t q.operator_tags)
        → Condition policy q k
    wall_intersect :
        k ≡ "source_tags_intersect_wall_tags"
        → (t : String) → In t q.source_tags
        → In t q.wall_tags
        → Condition policy q k
    explicit_allow :
        k ≡ "in_explicit_allow_list"
        → (v : Value) → In v (get_allow_list policy)
        → Names q v
        → Condition policy q k
    always : k ≡ "always" → Condition policy q k

  -- An entry of `when` holds if it is a mapping whose first key is a condition that holds.
  pub data Holds (policy : Fields) (q : Query) (v : Value) : Type 0 where
    holds :
        (k : String) (w : Value) (fs : Fields)
        → v ≡ obj (field k w fs)
        → Condition policy q k
        → Holds policy q v

  abbrev pub Applies : Fields → Query → Fields → Type 0
  Applies policy q rule = All (Holds policy q) (rule_conditions rule)

  -- `Decides policy q rules rule`: `rule` is the first that applies and allows or denies.
  pub data Decides (policy : Fields) (q : Query) : List Value → Fields → Type 0 where
    first :
        (rule : Fields) (rules : List Value)
        → Applies policy q rule
        → IsFinal (rule_effect repr rule)
        → Decides policy q (obj rule ∷ rules) rule
    later :
        (skipped rule : Fields) (rules : List Value)
        → ¬ (Applies policy q skipped × IsFinal (rule_effect repr skipped))
        → Decides policy q rules rule
        → Decides policy q (obj skipped ∷ rules) rule
