-- ===== src/Reconcile/Issuing.antt =====
-- The ids of the rows, while entries are written.
use airgap_videowall.Prelude.{
  ℕ, ◌+◌, ◌<◌, ◌≡◌, refl, sym, ap, ◌∙◌, inl, inr, Option, none, some, List, ◌∷◌, arith, Bool-cases,
  ◌==◌, eq_of_beq, In, here, there, map-In, nat_eq,
}
use airgap_videowall.Reconcile.Rows.{
  Managed, IsIssued, Select, change_of, replace, change, written, next_id, has_marker,
}

module _ {Row Item : Type 0} (k : Managed Row Item) where
  module _ (select : Select Row) (t n : ℕ) (i : Item) (rows : List Row)
      (issued : IsIssued k n rows) where
    replace-id : (new x : Row) → k.id (replace k new x) ≡ k.id x
    replace-id new x = elim (Bool-cases (k.id x == k.id new)) [
      | inl e ↦ rw e (sym (eq_of_beq (k.id x) (k.id new) e))
      | inr e ↦ rw e refl
    ]

    inserted_unique :
        (a b : Row)
        → In a (k.insert n i ∷ rows)
        → In b (k.insert n i ∷ rows)
        → k.id a ≡ k.id b
        → a ≡ b
    inserted_unique a b (here e) (here f) h = e ∙ sym f
    inserted_unique a b (here e) (there m) h =
        absurd (omega (arith, ap k.id e, k.id-insert n i, issued.below b m))
    inserted_unique a b (there m) (here f) h =
        absurd (omega (arith, ap k.id f, k.id-insert n i, issued.below a m))
    inserted_unique a b (there m) (there o) h = issued.unique a b m o h

    inserted_below : (a : Row) → In a (k.insert n i ∷ rows) → k.id a < n + 1
    inserted_below a (here e) = omega (arith, ap k.id e, k.id-insert n i)
    inserted_below a (there m) = omega (arith, issued.below a m)

    found_issues :
        (found : Option Row)
        → IsIssued k (next_id k (change_of k n i found) n) (written k (change_of k n i found) rows)
    unfolding change_of written next_id
    found_issues none = record { unique = inserted_unique; below = inserted_below }
    found_issues (some r) = elim (Bool-cases (k.agrees r i)) [
      | inl a ↦ rw a issued
      | inr a ↦
          let new = k.update r i in
          rw a (record {
            unique = λ x y mx my h.
                let (x₀, mx₀, ex) = map-In (replace k new) x rows mx in
                let (y₀, my₀, ey) = map-In (replace k new) y rows my in
                let ids : k.id x₀ ≡ k.id y₀ = cc (replace-id new x₀, replace-id new y₀) in
                ex ∙ ap (replace k new) (issued.unique x₀ y₀ mx₀ my₀ ids) ∙ sym ey;
            below = λ x mx.
                let (x₀, mx₀, ex) = map-In (replace k new) x rows mx in
                omega (arith, ap k.id ex, replace-id new x₀, issued.below x₀ mx₀);
          })
    ]

    pub change_issues :
        IsIssued k
          (next_id k (change k select t n i rows) n)
          (written k (change k select t n i rows) rows)
    unfolding change
    change_issues = found_issues (select t (has_marker k i) rows)
