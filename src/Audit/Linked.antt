-- ===== src/Audit/Linked.antt =====
-- Chains of rows that link up, and what the loop of `verify` makes of them.
use mathlib.Core.List.{reverse-append}
use airgap_videowall.Prelude.{
  ℕ, ◌+◌, String, ◌≡◌, refl, ap, ◌∙◌, inl, inr, List, [], ◌∷◌, ◌++◌, reverse, arith, Bool-cases,
  length, keep, eq_iff, append-ne-nil,
}
use airgap_videowall.Audit.Chain.{
  Row, Codec, Tally, Broken, seal, check_row, check_rows, of_chain, last_hash, genesis,
  hash_mismatch, prev_hash_mismatch,
}

-- The hash that the next row has to name, over rows with the newest first.
abbrev pub newest : String → List Row → String
newest base [] = base
newest base (r ∷ rows) = r.hash

-- Each row names the hash of the row before it, and its own hash seals that and its content.
abbrev pub Linked : Codec → String → List Row → Type 0
Linked c base [] = Unit
Linked c base (r ∷ rows) =
    (r.prev_hash ≡ newest base rows) × (seal c r.prev_hash r.core ≡ r.hash) × Linked c base rows

pub last_hash-newest :
    (chain : String) (rows : List Row)
    → last_hash chain rows ≡ newest genesis (keep (of_chain chain) rows)
unfolding last_hash
last_hash-newest chain [] = refl
last_hash-newest chain (r ∷ rows) = elim (Bool-cases (of_chain chain r)) [
  | inl e ↦ rw (e, last_hash)
  | inr e ↦ rw (e, last_hash) (last_hash-newest chain rows)
]

module _ (c : Codec) where
  pub check_rows-append :
      (t : Tally) (xs ys : List Row)
      → check_rows c t (xs ++ ys) ≡ check_rows c (check_rows c t xs) ys
  unfolding check_rows
  check_rows-append t [] ys = refl
  check_rows-append t (x ∷ xs) ys = check_rows-append (check_row c t x) xs ys

  -- the newest row is checked last
  pub check_rows-reverse :
      (t : Tally) (r : Row) (rows : List Row)
      → check_rows c t (reverse (r ∷ rows)) ≡ check_row c (check_rows c t (reverse rows)) r
  unfolding check_rows
  check_rows-reverse t r rows =
      ap (check_rows c t) (reverse-append (r ∷ []) rows)
      ∙ check_rows-append t (reverse rows) (r ∷ [])

  check_row_good :
      (t : Tally) (r : Row)
      → r.prev_hash ≡ t.expected_prev
      → seal c t.expected_prev r.core ≡ r.hash
      → check_row c t r
        ≡ record { expected_prev = r.hash; verified = t.verified + 1; broken = t.broken }
  unfolding check_row
  check_row_good t r p h =
      ground
        (arith, eq_iff r.prev_hash t.expected_prev, eq_iff (seal c t.expected_prev r.core) r.hash)

  abbrev pub tally : String → ℕ → List Broken → Tally
  tally base n b = record { expected_prev = base; verified = n; broken = b }

  -- Rows that link up from the expected hash are all verified.
  pub check_rows-Linked :
      (base : String) (n : ℕ) (b : List Broken) (rows : List Row)
      → Linked c base rows
      → check_rows c (tally base n b) (reverse rows) ≡ tally (newest base rows) (n + length rows) b
  unfolding check_rows
  check_rows-Linked base n b [] l = ground arith
  check_rows-Linked base n b (r ∷ rows) (p, h, l) =
      let before = tally (newest base rows) (n + length rows) b in
      check_rows-reverse (tally base n b) r rows
      ∙ ap (λ t. check_row c t r) (check_rows-Linked base n b rows l)
      ∙ check_row_good before r p (rw (← p) h)
      ∙ ap (λ m. tally r.hash m b) (omega arith)

  check_row-broken :
      (t : Tally) (r : Row)
      → (check_row c t r).broken ≡ []
      → (t.broken ≡ [])
        × (r.prev_hash ≡ t.expected_prev)
        × (seal c t.expected_prev r.core ≡ r.hash)
        × ((check_row c t r).expected_prev ≡ r.hash)
  unfolding check_row
  check_row-broken t r h = ground (
    arith,
    eq_iff r.prev_hash t.expected_prev,
    eq_iff (seal c t.expected_prev r.core) r.hash,
    append-ne-nil t.broken (hash_mismatch r.id (seal c t.expected_prev r.core) r.hash),
    append-ne-nil t.broken (prev_hash_mismatch r.id t.expected_prev r.prev_hash),
  )

  -- Rows without a break link up.
  pub check_rows-broken :
      (base : String) (n : ℕ) (rows : List Row)
      → (check_rows c (tally base n []) (reverse rows)).broken ≡ []
      → Linked c base rows
        × ((check_rows c (tally base n []) (reverse rows)).expected_prev ≡ newest base rows)
  unfolding check_rows
  check_rows-broken base n [] h = (tt, refl)
  check_rows-broken base n (r ∷ rows) h =
      let t = check_rows c (tally base n []) (reverse rows) in
      let e = check_rows-reverse (tally base n []) r rows in
      let (none_before, p, s, here) = check_row-broken t r (rw e at h) in
      let (l, q) = check_rows-broken base n rows none_before in
      ((p ∙ q, rw p s, l), ap (λ (u : Tally). u.expected_prev) e ∙ here)
