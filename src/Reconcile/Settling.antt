-- ===== src/Reconcile/Settling.antt =====
-- An entry that is written is settled, and stays so while other entries are written.
use airgap_videowall.Prelude.{
  ℕ, ◌≡◌, refl, sym, ap, ◌∙◌, subst, ◌⊎◌, inl, inr, true, false, Option, none, some, List, ◌∷◌, map,
  arith, Bool-cases, ◌==◌, eq_of_beq, In, elem_iff, here, there, nat_eq, string_eq,
}
use airgap_videowall.Reconcile.Rows.{
  Managed, IsIssued, Settled, Alone, Select, Selects, change_of, replace, change, written,
  has_marker, marked, carried, In-replace, replace-In, replace-In_other,
}

module _ {Row Item : Type 0} (k : Managed Row Item) where
  -- Neither of two different entries carries the other's marker.
  abbrev pub Apart : Item → Item → Type 0
  Apart i j = (In (k.marker j) (k.carries i) → j ≡ i) × (In (k.marker i) (k.carries j) → i ≡ j)

  -- The row `new` of the entry is written, for the rows that carry its marker.
  record Writes (i : Item) (new : Row) (rows rows' : List Row) : Type 0 where
    tagged : k.tags new ≡ k.carries i
    agrees_new : k.agrees new i ≡ true
    is_in : In new rows'
    back : (x : Row) → In x rows' → (x ≡ new) ⊎ (In x rows × (has_marker k i x ≡ false))
    forth : (x : Row) → In x rows → In x rows' ⊎ (has_marker k i x ≡ true)

  module _ (i : Item) (new : Row) (rows rows' : List Row) (w : Writes i new rows rows') where
    Writes-Settled : Settled k i rows'
    Writes-Settled = record {
      row = new;
      is_in = w.is_in;
      is_marked = marked k i new w.tagged;
      agree = λ r m h. elim (w.back r m) [
        | inl q ↦ rw q w.agrees_new
        | inr (mr, f) ↦ absurd (cc (h, f))
      ];
    }

    module _ (j : Item) (apart : Apart i j) where
      same-entry : has_marker k j new ≡ true → j ≡ i
      same-entry h = apart.0 (carried k i j new w.tagged h)

      kept-agrees :
          ((r : Row) → In r rows → has_marker k j r ≡ true → k.agrees r j ≡ true)
          → (r : Row) → In r rows'
          → has_marker k j r ≡ true
          → k.agrees r j ≡ true
      kept-agrees old r m h = elim (w.back r m) [
        | inl q ↦
            let same = same-entry (ap (has_marker k j) (sym q) ∙ h) in rw (q, same) w.agrees_new
        | inr (mr, f) ↦ old r mr h
      ]

      Writes-Settled_keeps : Settled k j rows → Settled k j rows'
      Writes-Settled_keeps old = elim (w.forth old.row old.is_in) [
        | inl m ↦ record {
          row = old.row;
          is_in = m;
          is_marked = old.is_marked;
          agree = kept-agrees old.agree;
        }
        | inr h ↦
            let tag = (elem_iff (k.marker i) (k.tags old.row)).0 h in
            let agreed = old.agree old.row old.is_in old.is_marked in
            let equal : i ≡ j = apart.1 (k.agrees-tags old.row j (k.marker i) agreed tag) in
            subst (λ x. Settled k x rows') equal Writes-Settled
      ]

      unmarked-old :
          (x : Row)
          → has_marker k j new ≡ true
          → has_marker k i x ≡ false
          → has_marker k j x ≡ true
          → ⊥
      unmarked-old x hn f hx =
          let hi = subst (λ y. has_marker k y x ≡ true) (same-entry hn) hx in cc (hi, f)

      Writes-Alone_keeps : Alone k j rows → Alone k j rows'
      Writes-Alone_keeps old a b ma mb ha hb = elim (w.back a ma) [
        | inl p ↦ elim (w.back b mb) [
          | inl q ↦ p ∙ sym q
          | inr (nb, f) ↦ absurd (unmarked-old b (ap (has_marker k j) (sym p) ∙ ha) f hb)
        ]
        | inr (na, f) ↦ elim (w.back b mb) [
          | inl q ↦ absurd (unmarked-old a (ap (has_marker k j) (sym q) ∙ hb) f ha)
          | inr (nb, g) ↦ old a b na nb ha hb
        ]
      ]

  -- What a pass needs to know of an entry's write, and of the rows of the other entries.
  pub record Handled (i : Item) (rows rows' : List Row) : Type 0 where
    pub settled : Settled k i rows'
    pub settled_keeps : (j : Item) → Apart i j → Settled k j rows → Settled k j rows'
    pub alone_keeps : (j : Item) → Apart i j → Alone k j rows → Alone k j rows'

  Writes-Handled :
      (i : Item) (new : Row) (rows rows' : List Row)
      → Writes i new rows rows'
      → Handled i rows rows'
  Writes-Handled i new rows rows' w = record {
    settled = Writes-Settled i new rows rows' w;
    settled_keeps = Writes-Settled_keeps i new rows rows' w;
    alone_keeps = Writes-Alone_keeps i new rows rows' w;
  }

  module _ (select : Select Row) (law : Selects select) (t n : ℕ) (i : Item) (rows : List Row)
      (issued : IsIssued k n rows) (alone : Alone k i rows) where
    created-Writes :
        select t (has_marker k i) rows ≡ none → Writes i (k.insert n i) rows (k.insert n i ∷ rows)
    created-Writes e = record {
      tagged = k.tags-insert n i;
      agrees_new = k.agrees-insert n i;
      is_in = here refl;
      back = λ x m. elim m [
        | here q ↦ inl q
        | there mx ↦ inr (mx, law.missing t (has_marker k i) rows e x mx)
      ];
      forth = λ x m. inl (there m);
    }

    module _ (r : Row) (e : select t (has_marker k i) rows ≡ some r) where
      abbrev new : Row
      new = k.update r i

      updated-Writes : Writes i new rows (map (replace k new) rows)
      updated-Writes =
          let (mr, hr) = law.found t (has_marker k i) rows r e in
          let same_id : k.id r ≡ k.id new = sym (k.id-update r i) in
          record {
            tagged = k.tags-update r i;
            agrees_new = k.agrees-update r i;
            is_in = replace-In k new r rows mr same_id;
            back = λ x m. elim (In-replace k new x rows m) [
              | inl q ↦ inl q
              | inr (mx, ne) ↦ inr (
                mx,
                elim (Bool-cases (has_marker k i x)) [
                  | inl h ↦ absurd (ne (ap k.id (alone x r mx mr h hr) ∙ same_id))
                  | inr h ↦ h
                ],
              )
            ];
            forth = λ x m. elim (Bool-cases (k.id x == k.id new)) [
              | inl h ↦
                  let one =
                    issued.unique x r m mr (eq_of_beq (k.id x) (k.id new) h ∙ sym same_id) in
                  inr (ap (has_marker k i) one ∙ hr)
              | inr h ↦ inl (replace-In_other k new x rows m (ground arith))
            ];
          }

      unchanged-Handled : k.agrees r i ≡ true → Handled i rows rows
      unchanged-Handled a =
          let (mr, hr) = law.found t (has_marker k i) rows r e in
          record {
            settled = record {
              row = r;
              is_in = mr;
              is_marked = hr;
              agree = λ x m h. rw (alone x r m mr h hr) a;
            };
            settled_keeps = λ j p old. old;
            alone_keeps = λ j p old. old;
          }

    found-Handled :
        (found : Option Row)
        → select t (has_marker k i) rows ≡ found
        → Handled i rows (written k (change_of k n i found) rows)
    unfolding change_of written
    found-Handled none e = Writes-Handled i (k.insert n i) rows _ (created-Writes e)
    found-Handled (some r) e = elim (Bool-cases (k.agrees r i)) [
      | inl a ↦ rw a (unchanged-Handled r e a)
      | inr a ↦ rw a (Writes-Handled i (k.update r i) rows _ (updated-Writes r e))
    ]

    pub change-Handled : Handled i rows (written k (change k select t n i rows) rows)
    unfolding change
    change-Handled = found-Handled (select t (has_marker k i) rows) refl
