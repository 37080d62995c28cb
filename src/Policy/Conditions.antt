-- ===== src/Policy/Conditions.antt =====
-- The Boolean tests of the engine decide the conditions that the document states.

use airgap_videowall.Prelude.{
  String, ◌≡◌, refl, ap, ◌↔◌, inl, inr, true, Option, none, some, List, [], ◌∷◌, arith, Bool-cases,
  ◌==◌, beq_self, eq_of_beq, All, any→In, In→any, subset_iff, intersects_iff, string_eq,
}
use airgap_videowall.Values.{ℤ, int_eq, Value, Fields, obj, field, get_field, int_of, str_of}
use airgap_videowall.Policy.Engine.{
  Query, get_allow_list, is_int, entry_allows, condition, is_true, conditions_met,
}
use airgap_videowall.Policy.Decides.{
  Names, names, Condition, source_subset, wall_intersect, explicit_allow, always, Holds, holds,
}

is_int_iff : (n : ℤ) (o : Option ℤ) → (is_int n o ≡ true) ↔ (o ≡ some n)
unfolding is_int
is_int_iff n none = (λ h. cc, λ h. cc)
is_int_iff n (some m) = (λ h. ap some (eq_of_beq m n h), λ h. ground (arith, int_eq.same_iff m n))

module _ (repr : Value → String) where
  entry_allows→Names : (q : Query) (v : Value) → entry_allows repr q v ≡ true → Names repr q v
  unfolding entry_allows
  entry_allows→Names q (obj entry) h =
      names entry refl
        (eq_of_beq (str_of repr (get_field entry "operator_id")) q.operator_id (ground arith))
        ((is_int_iff q.wall_id (int_of (get_field entry "wall_id"))).0 (ground arith))
        ((is_int_iff q.source_id (int_of (get_field entry "source_id"))).0 (ground arith))
  entry_allows→Names q _ h = cc

  Names→entry_allows : (q : Query) (v : Value) → Names repr q v → entry_allows repr q v ≡ true
  unfolding entry_allows
  Names→entry_allows q v (names entry e op wall source) =
      rw (e, op, wall, source, beq_self q.operator_id, beq_self q.wall_id, beq_self q.source_id)

  condition→Condition :
      (policy : Fields) (q : Query) (k : String)
      → is_true (condition repr policy q k) ≡ true
      → Condition repr policy q k
  unfolding condition is_true
  condition→Condition policy q k h =
      elim (Bool-cases (k == "source_tags_subset_of_operator_tags")) [
        | inl e ↦
            source_subset (eq_of_beq _ _ e)
              ((subset_iff q.source_tags q.operator_tags).0 (ground arith))
        | inr n₁ ↦ elim (Bool-cases (k == "source_tags_intersect_wall_tags")) [
          | inl e ↦
              let (t, s, w) = (intersects_iff q.source_tags q.wall_tags).0 (ground arith) in
              wall_intersect (eq_of_beq _ _ e) t s w
          | inr n₂ ↦ elim (Bool-cases (k == "in_explicit_allow_list")) [
            | inl e ↦
                let (v, m, a) =
                  any→In (entry_allows repr q) (get_allow_list policy) (ground arith) in
                explicit_allow (eq_of_beq _ _ e) v m (entry_allows→Names q v a)
            | inr n₃ ↦ always (eq_of_beq k "always" (ground arith))
          ]
        ]
      ]

  Condition→condition :
      (policy : Fields) (q : Query) (k : String)
      → Condition repr policy q k
      → is_true (condition repr policy q k) ≡ true
  unfolding condition is_true
  Condition→condition policy q k (source_subset e h) =
      rw e ((subset_iff q.source_tags q.operator_tags).1 h)
  Condition→condition policy q k (wall_intersect e t s w) =
      rw e ((intersects_iff q.source_tags q.wall_tags).1 (t, s, w))
  Condition→condition policy q k (explicit_allow e v m n) =
      rw e (In→any (entry_allows repr q) v (get_allow_list policy) m (Names→entry_allows q v n))
  Condition→condition policy q k (always e) = rw e

  pub conditions_met→All :
      (policy : Fields) (q : Query) (when : List Value)
      → conditions_met repr policy q when ≡ true
      → All (Holds repr policy q) when
  unfolding conditions_met
  conditions_met→All policy q [] h = tt
  conditions_met→All policy q (obj (field k v fs) ∷ rest) h =
      elim (Bool-cases (is_true (condition repr policy q k))) [
        | inl e ↦ (
          holds k v fs refl (condition→Condition policy q k e),
          conditions_met→All policy q rest (rw e at h),
        )
        | inr e ↦ absurd (ground arith)
      ]
  conditions_met→All policy q (_ ∷ rest) h = cc

  pub All→conditions_met :
      (policy : Fields) (q : Query) (when : List Value)
      → All (Holds repr policy q) when
      → conditions_met repr policy q when ≡ true
  unfolding conditions_met
  All→conditions_met policy q [] h = refl
  All→conditions_met policy q (v ∷ rest) (holds k w fs e c, more) =
      rw (e, Condition→condition policy q k c) (All→conditions_met policy q rest more)
