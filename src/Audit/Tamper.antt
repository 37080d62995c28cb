-- ===== src/Audit/Tamper.antt =====
-- What a clean report of `verify` pins down, if no two inputs have one seal; and two requests
-- whose SELECT and INSERT interleave.
use airgap_videowall.Prelude.{
  ℕ, suc, ◌+◌, ◌≤◌, String, ◌≡◌, refl, sym, ap, ◌∙◌, subst, ◌≢◌, List, [], ◌∷◌, map, reverse, arith,
  length, All, In, here, there, take_of_length-le,
}
use airgap_videowall.Audit.Chain.{
  Core, Row, IngestIn, Store, Codec, genesis, seal, last_hash, event_core, insert, verify, row_of,
  check_rows, start,
}
use airgap_videowall.Audit.Linked.{newest, Linked, last_hash-newest, check_rows-broken}
use airgap_videowall.Audit.Ingest.{rows_of, rows_of-insert}

-- Two rows of the lists whose seals are equal have the same content.
abbrev pub NoCollision : Codec → List Row → List Row → Type 0
NoCollision c xs ys =
    (x y : Row)
    → In x xs
    → In y ys
    → seal c x.prev_hash x.core ≡ seal c y.prev_hash y.core
    → (x.prev_hash ≡ y.prev_hash) × (x.core ≡ y.core)

-- No row's seal is the text that stands for "no row".
abbrev pub NoGenesis : Codec → List Row → Type 0
NoGenesis c = All (λ (r : Row). seal c r.prev_hash r.core ≢ genesis)

abbrev pub cores : List Row → List Core
cores = map (λ (r : Row). r.core)

module _ (c : Codec) where
  Linked-cores :
      (xs ys : List Row)
      → NoCollision c xs ys
      → NoGenesis c xs
      → NoGenesis c ys
      → Linked c genesis xs
      → Linked c genesis ys
      → newest genesis xs ≡ newest genesis ys
      → cores xs ≡ cores ys
  Linked-cores [] [] free g h l k e = refl
  Linked-cores [] (y ∷ ys) free g (h, _) l (p, s, k) e = absurd (h (s ∙ sym e))
  Linked-cores (x ∷ xs) [] free (g, _) h (p, s, l) k e = absurd (g (s ∙ e))
  Linked-cores (x ∷ xs) (y ∷ ys) free (_, g) (_, h) (p, s, l) (q, t, k) e =
      let (same_prev, same_core) = free x y (here refl) (here refl) (s ∙ e ∙ sym t) in
      let free' : NoCollision c xs ys = λ a b m n. free a b (there m) (there n) in
      cc (same_core, Linked-cores xs ys free' g h l k (sym p ∙ same_prev ∙ q))

  -- In a chain no row has the hash of the row before it.
  Linked-fresh :
      (r : Row) (rows : List Row)
      → NoCollision c (r ∷ rows) (r ∷ rows)
      → NoGenesis c (r ∷ rows)
      → Linked c genesis (r ∷ rows)
      → newest genesis rows ≢ r.hash
  Linked-fresh r [] free (g, _) (p, s, l) e = g (s ∙ sym e)
  Linked-fresh r (q ∷ rows) free (_, g) (p, s, (p', s', l)) e =
      let (same, _) = free q r (there (here refl)) (here refl) (s' ∙ e ∙ sym s) in
      let free' : NoCollision c (q ∷ rows) (q ∷ rows) = λ a b m n. free a b (there m) (there n) in
      Linked-fresh q rows free' g (p', s', l) (sym p' ∙ same ∙ p)

  verify-Linked :
      (chain : String) (n : ℕ) (s : Store)
      → length (rows_of chain s) ≤ n
      → (verify c chain n s).broken ≡ []
      → Linked c genesis (rows_of chain s)
  unfolding verify
  verify-Linked chain n s fits h =
      let e = take_of_length-le n (rows_of chain s) fits in
      let full : (check_rows c start (reverse (rows_of chain s))).broken ≡ [] = rw e at h in
      (check_rows-broken c genesis 0 (rows_of chain s) full).0

  -- Two stores of a chain that `verify` reports without a break, read in full, and that end in the
  -- same hash hold the same events in the same order, if no two of their seals collide and none is
  -- the 64 zeros.
  pub verify-unforgeable :
      (chain : String) (n : ℕ) (s s' : Store)
      → NoCollision c (rows_of chain s) (rows_of chain s')
      → NoGenesis c (rows_of chain s)
      → NoGenesis c (rows_of chain s')
      → length (rows_of chain s) ≤ n
      → length (rows_of chain s') ≤ n
      → (verify c chain n s).broken ≡ []
      → (verify c chain n s').broken ≡ []
      → last_hash chain s.rows ≡ last_hash chain s'.rows
      → cores (rows_of chain s) ≡ cores (rows_of chain s')
  verify-unforgeable chain n s s' free g g' fits fits' h h' e =
      Linked-cores (rows_of chain s) (rows_of chain s') free g g' (verify-Linked chain n s fits h)
        (verify-Linked chain n s' fits' h')
        (sym (last_hash-newest chain s.rows) ∙ e ∙ last_hash-newest chain s'.rows)

  abbrev pub insert_first : String → ℕ → IngestIn → Store → Store
  insert_first chain t ev s = insert c (event_core chain t ev) (last_hash chain s.rows) s

  -- Two requests both read the last hash before either inserts its row. If no seals collide
  -- and none is the 64 zeros, `verify` over the whole chain then reports a break, though the service wrote both rows itself.
  pub verify-race :
      (chain : String) (t t' : ℕ) (ev ev' : IngestIn) (s : Store) (n : ℕ)
      → NoCollision c
          (rows_of chain (insert_first chain t ev s))
          (rows_of chain (insert_first chain t ev s))
      → NoGenesis c (rows_of chain (insert_first chain t ev s))
      → length (rows_of chain s) + 2 ≤ n
      → (verify c chain n (
          insert c
            (event_core chain t' ev')
            (last_hash chain s.rows)
            (insert_first chain t ev s))).broken
        ≢ []
  verify-race chain t t' ev ev' s n free g fits clean =
      let prev = last_hash chain s.rows in
      let first = insert_first chain t ev s in
      let core' = event_core chain t' ev' in
      let both = insert c core' prev first in
      let row = row_of c s.next_id (event_core chain t ev) prev in
      let row' = row_of c first.next_id core' prev in
      let one : rows_of chain first ≡ row ∷ rows_of chain s = rows_of-insert c chain t ev prev s in
      let two : rows_of chain both ≡ row' ∷ row ∷ rows_of chain s =
        rows_of-insert c chain t' ev' prev first ∙ ap (◌∷◌ row') one in
      let size : length (rows_of chain both) ≡ suc (suc (length (rows_of chain s))) =
        ap length two in
      let (q, _, (p, s', old)) : Linked c genesis (row' ∷ row ∷ rows_of chain s) =
        subst (Linked c genesis) two (verify-Linked chain n both (omega arith) clean) in
      Linked-fresh row (rows_of chain s) (subst (λ l. NoCollision c l l) one free)
        (subst (NoGenesis c) one g) (p, s', old) (sym p ∙ q)
