-- ===== src/Reconcile/Passes.antt =====
-- A whole pass over the entries of a table, and what it settles.
use airgap_videowall.Prelude.{ℕ, refl, sym, subst, List, [], ◌∷◌, map, all, In, here, there}
use airgap_videowall.Reconcile.Rows.{
  Managed, Select, Selects, Alone, change, written, next_id, Settled, IsIssued,
}
use airgap_videowall.Reconcile.Settling.{Apart, change-Handled}
use airgap_videowall.Reconcile.Issuing.{change_issues}

-- The entries without the instants at which they are handled.
abbrev pub entries_of : {Item : Type 0} → List (ℕ × Item) → List Item
entries_of = map (λ e. e.1)

module _ {Row Item : Type 0} (k : Managed Row Item) (select : Select Row) where
  -- the rows and the next id, after each entry in turn
  unfoldable pub pass : List (ℕ × Item) → ℕ → List Row → ℕ × List Row
  pass [] n rows = (n, rows)
  pass ((t, i) ∷ items) n rows =
      let c = change k select t n i rows in pass items (next_id k c n) (written k c rows)

  module _ (law : Selects select) where
    pass_keeps :
        (j : Item) (items : List (ℕ × Item)) (n : ℕ) (rows : List Row)
        → IsIssued k n rows
        → ((i : Item) → In i (entries_of items) → Alone k i rows)
        → ((i x : Item) → In i (entries_of items) → In x (entries_of items) → Apart k i x)
        → ((i : Item) → In i (entries_of items) → Apart k i j)
        → Settled k j rows
        → Settled k j (pass items n rows).1
    unfolding pass
    pass_keeps j [] n rows issued alone all apart old = old
    pass_keeps j ((t, i) ∷ items) n rows issued alone all apart old =
        let done = change-Handled k select law t n i rows issued (alone i (here refl)) in
        pass_keeps j items _ _ (change_issues k select t n i rows issued)
          (λ x m. done.alone_keeps x (all i x (here refl) (there m)) (alone x (there m)))
          (λ x y mx my. all x y (there mx) (there my)) (λ x m. apart x (there m))
          (done.settled_keeps j (apart i (here refl)) old)

    pub pass_settles :
        (items : List (ℕ × Item)) (n : ℕ) (rows : List Row)
        → IsIssued k n rows
        → ((i : Item) → In i (entries_of items) → Alone k i rows)
        → ((i j : Item) → In i (entries_of items) → In j (entries_of items) → Apart k i j)
        → (j : Item) → In j (entries_of items)
        → Settled k j (pass items n rows).1
    unfolding pass
    pass_settles [] n rows issued alone all j m = elim m [ ]
    pass_settles ((t, i) ∷ items) n rows issued alone all j m =
        let done = change-Handled k select law t n i rows issued (alone i (here refl)) in
        let issued' = change_issues k select t n i rows issued in
        let alone' = λ (x : Item) (mx : In x (entries_of items)).
          done.alone_keeps x (all i x (here refl) (there mx)) (alone x (there mx)) in
        let all' = λ (x y : Item) (mx : In x (entries_of items)) (my : In y (entries_of items)).
          all x y (there mx) (there my) in
        elim m [
          | here e ↦
              subst (λ x. Settled k x (pass ((t, i) ∷ items) n rows).1) (sym e)
                (pass_keeps i items _ _ issued' alone' all' (λ x mx. all x i (there mx) (here refl))
                  done.settled)
          | there mj ↦ pass_settles items _ _ issued' alone' all' j mj
        ]
