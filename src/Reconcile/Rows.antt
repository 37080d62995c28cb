-- ===== src/Reconcile/Rows.antt =====
-- What `_reconcile_walls` and `_reconcile_sources` do to the rows of a table, over an interface that
-- both fill: the row of an entry is one that carries the entry's marker tag.
use airgap_videowall.Prelude.{
  ℕ, ◌+◌, ◌<◌, String, ◌≡◌, refl, sym, ◌∙◌, subst, ◌≢◌, ◌⊎◌, inl, inr, Bool, true, false, Option,
  none, some, List, ◌∷◌, map, arith, if◌then◌else◌, Bool-cases, ◌==◌, nat_eq, string_eq, elem, In,
  elem_iff, In-map, map-In,
}

pub record Managed (Row Item : Type 0) : Type 0 where
  pub id : Row → ℕ
  pub tags : Row → List String
  pub marker : Item → String
  -- the tags that the entry's row gets
  pub carries : Item → List String
  pub insert : ℕ → Item → Row
  pub update : Row → Item → Row
  -- `existing == proposed`
  pub agrees : Row → Item → Bool
  pub id-insert : (n : ℕ) (i : Item) → id (insert n i) ≡ n
  pub id-update : (r : Row) (i : Item) → id (update r i) ≡ id r
  pub tags-insert : (n : ℕ) (i : Item) → tags (insert n i) ≡ carries i
  pub tags-update : (r : Row) (i : Item) → tags (update r i) ≡ carries i
  pub agrees-insert : (n : ℕ) (i : Item) → agrees (insert n i) i ≡ true
  pub agrees-update : (r : Row) (i : Item) → agrees (update r i) i ≡ true
  pub agrees-tags :
      (r : Row) (i : Item) (t : String) → agrees r i ≡ true → In t (tags r) → In t (carries i)
  pub marker-carries : (i : Item) → In (marker i) (carries i)

-- What becomes of an entry: its new row, its changed row and the one before, or nothing.
pub data Change (Row : Type 0) : Type 0 where
  created : Row → Change Row
  updated : Row → Row → Change Row
  unchanged : Change Row

-- `fetchrow` of `SELECT … WHERE p`, at an instant. No order is asked for: which of the rows that fit
-- is given is left to the database.
abbrev pub Select : Type 0 → Type 0
Select Row = ℕ → (Row → Bool) → List Row → Option Row

-- A row that is given is one of the table that fits, and none is given only if none fits.
pub record Selects {Row : Type 0} (select : Select Row) : Type 0 where
  pub found :
      (t : ℕ) (p : Row → Bool) (rows : List Row) (r : Row)
      → select t p rows ≡ some r
      → In r rows × (p r ≡ true)
  pub missing :
      (t : ℕ) (p : Row → Bool) (rows : List Row)
      → select t p rows ≡ none
      → (r : Row) → In r rows
      → p r ≡ false

module _ {Row Item : Type 0} (k : Managed Row Item) where
  abbrev pub has_marker : Item → Row → Bool
  has_marker i r = elem (k.marker i) (k.tags r)

  -- UPDATE … WHERE id=$1
  abbrev pub replace : Row → Row → Row
  replace new r = if k.id r == k.id new then new else r

  unfoldable pub change_of : ℕ → Item → Option Row → Change Row
  change_of n i none = created (k.insert n i)
  change_of n i (some r) = if k.agrees r i then unchanged else updated (k.update r i) r

  -- the row with the marker is looked for, then written
  unfoldable pub change : Select Row → ℕ → ℕ → Item → List Row → Change Row
  unfolding change_of
  change select t n i rows = change_of n i (select t (has_marker i) rows)

  unfoldable pub written : Change Row → List Row → List Row
  written (created r) rows = r ∷ rows
  written (updated r old) rows = map (replace r) rows
  written unchanged rows = rows

  unfoldable pub next_id : Change Row → ℕ → ℕ
  next_id (created r) n = n + 1
  next_id _ n = n

  -- A row with the entry's marker is there, and all of them agree with the entry.
  pub record Settled (i : Item) (rows : List Row) : Type 0 where
    pub row : Row
    pub is_in : In row rows
    pub is_marked : has_marker i row ≡ true
    pub agree : (r : Row) → In r rows → has_marker i r ≡ true → k.agrees r i ≡ true

  -- No two rows carry the entry's marker.
  abbrev pub Alone : Item → List Row → Type 0
  Alone i rows =
      (a b : Row) → In a rows → In b rows → has_marker i a ≡ true → has_marker i b ≡ true → a ≡ b

  -- The ids of the rows come from the sequence, and name one row each.
  pub record IsIssued (n : ℕ) (rows : List Row) : Type 0 where
    pub unique : (a b : Row) → In a rows → In b rows → k.id a ≡ k.id b → a ≡ b
    pub below : (a : Row) → In a rows → k.id a < n

  change_of-Settled :
      (select : Select Row) (t n : ℕ) (i : Item) (rows : List Row) (o : Option Row)
      → Selects select
      → select t (has_marker i) rows ≡ o
      → Settled i rows
      → change_of n i o ≡ unchanged
  unfolding change_of
  change_of-Settled select t n i rows none law e s =
      absurd (cc (law.missing t (has_marker i) rows e s.row s.is_in, s.is_marked))
  change_of-Settled select t n i rows (some r) law e s =
      let (m, q) = law.found t (has_marker i) rows r e in rw (s.agree r m q) refl

  pub change-Settled :
      (select : Select Row) (t n : ℕ) (i : Item) (rows : List Row)
      → Selects select
      → Settled i rows
      → change select t n i rows ≡ unchanged
  unfolding change
  change-Settled select t n i rows law s =
      change_of-Settled select t n i rows (select t (has_marker i) rows) law refl s

  pub marked : (i : Item) (r : Row) → k.tags r ≡ k.carries i → has_marker i r ≡ true
  marked i r e = rw e ((elem_iff (k.marker i) (k.carries i)).1 (k.marker-carries i))

  -- A row that another entry has written carries a marker only as one of its own tags.
  pub carried :
      (i j : Item) (r : Row)
      → k.tags r ≡ k.carries i
      → has_marker j r ≡ true
      → In (k.marker j) (k.carries i)
  carried i j r e h = (elem_iff (k.marker j) (k.carries i)).0 (rw e at h)

  -- A row of the table after an UPDATE: the new one, or one before with another id.
  pub In-replace :
      (new x : Row) (rows : List Row)
      → In x (map (replace new) rows)
      → (x ≡ new) ⊎ (In x rows × (k.id x ≢ k.id new))
  In-replace new x rows m =
      let (y, my, e) = map-In (replace new) x rows m in
      elim (Bool-cases (k.id y == k.id new)) [
        | inl h ↦ inl (e ∙ rw h refl)
        | inr h ↦
            let same : x ≡ y = e ∙ rw h refl in
            inr (subst (λ z. In z rows) (sym same) my, λ i. ground (arith, same))
      ]

  pub replace-In :
      (new r : Row) (rows : List Row)
      → In r rows
      → k.id r ≡ k.id new
      → In new (map (replace new) rows)
  replace-In new r rows m e =
      let hit : (k.id r == k.id new) ≡ true = ground arith in
      let same : replace new r ≡ new = rw hit refl in
      subst (λ z. In z (map (replace new) rows)) same (In-map (replace new) r rows m)

  pub replace-In_other :
      (new r : Row) (rows : List Row)
      → In r rows
      → k.id r ≢ k.id new
      → In r (map (replace new) rows)
  replace-In_other new r rows m n =
      let miss : (k.id r == k.id new) ≡ false = ground arith in
      let same : replace new r ≡ r = rw miss refl in
      subst (λ z. In z (map (replace new) rows)) same (In-map (replace new) r rows m)
