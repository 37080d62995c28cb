-- ===== src/Audit/Partial.antt =====
-- `verify` with a `last_n` below the length of the chain: the oldest of the rows that it reads names
-- the hash of a row that it does not read, and is held against 64 zeros.
use mathlib.Core.List.{reverse-append}
use airgap_videowall.Prelude.{
  ℕ, zero, suc, ◌+◌, ◌<◌, String, ◌≡◌, refl, sym, ap, ◌∙◌, ◌≢◌, List, [], ◌∷◌, ◌++◌, reverse, arith,
  length, take, All, eq_iff, length-reverse, length-append,
}
use airgap_videowall.Audit.Chain.{
  Row, Store, Codec, prev_hash_mismatch, empty, genesis, seal, event_core, check_rows, check_row,
  start, verify,
}
use airgap_videowall.Audit.Linked.{newest, Linked, check_rows-Linked, tally}
use airgap_videowall.Audit.Ingest.{
  Event, ingest_all, Survives, Intact, rows_of, ingest_all-Intact, length-ingest_all,
}

module _ (c : Codec) where
  -- The oldest row of the `n + 1` newest ones, the rows after it, and the row before it.
  data Window (n : ℕ) (rows : List Row) : Type 0 where
    window :
        (after : List Row) (first before : Row)
        → take (suc n) rows ≡ after ++ first ∷ []
        → length after ≡ n
        → Linked c first.hash after
        → newest first.hash after ≡ newest genesis rows
        → first.prev_hash ≡ before.hash
        → seal c before.prev_hash before.core ≡ before.hash
        → Window n rows

  oldest-Window :
      (n : ℕ) (rows : List Row) → suc n < length rows → Linked c genesis rows → Window n rows
  oldest-Window n [] h l = absurd (omega arith)
  oldest-Window n (r ∷ []) h l = absurd (omega arith)
  oldest-Window zero (r ∷ q ∷ rows) h (p, s, (p', s', l)) = window [] r q refl refl tt refl p s'
  oldest-Window (suc n) (r ∷ q ∷ rows) h (p, s, l) =
      elim (oldest-Window n (q ∷ rows) (omega arith) l) [
        | window after first before e k l' top p' s' ↦
            window (r ∷ after) first before (ap (◌∷◌ r) e) (ap suc k) (p ∙ sym top, s, l') refl p'
              s'
      ]

  check_row_first :
      (r : Row)
      → r.prev_hash ≢ genesis
      → check_row c start r ≡ tally c r.hash 0 (prev_hash_mismatch r.id genesis r.prev_hash ∷ [])
  unfolding check_row
  check_row_first r h = ground (arith, eq_iff r.prev_hash genesis)

  check_rows-window :
      (after : List Row) (r : Row)
      → r.prev_hash ≢ genesis
      → Linked c r.hash after
      → check_rows c start (reverse (after ++ r ∷ []))
        ≡ tally c
            (newest r.hash after)
            (0 + length after)
            (prev_hash_mismatch r.id genesis r.prev_hash ∷ [])
  unfolding check_rows
  check_rows-window after r h l =
      ap (check_rows c start) (reverse-append after (r ∷ []))
      ∙ ap (λ t. check_rows c t (reverse after)) (check_row_first r h)
      ∙ check_rows-Linked c r.hash 0 (prev_hash_mismatch r.id genesis r.prev_hash ∷ []) after l

module _ (c : Codec) (chain : String) (sound : (x : String) → c.sha256_hex x ≢ genesis) where
  verify-partial :
      (n : ℕ) (s : Store)
      → suc n < length (rows_of chain s)
      → Intact c chain s
      → (id : ℕ) × (found : String) × (verify c chain (suc n) s ≡ record {
        checked = suc n;
        verified = n;
        broken = prev_hash_mismatch id genesis found ∷ [];
      })
  unfolding verify seal
  verify-partial n s h i = elim (oldest-Window c n (rows_of chain s) h i) [
    | window after r before e k l _ p s' ↦
        let other : r.prev_hash ≢ genesis = λ q. sound _ (s' ∙ sym p ∙ q) in
        (
          r.id,
          r.prev_hash,
          rw (e, check_rows-window c after r other l)
              (ground (arith, length-reverse (after ++ r ∷ []), length-append after (r ∷ []))),
        )
  ]

  -- A chain of events ingested one at a time, whose details keep their canonical text and whose
  -- digests are never the 64 zeros, with more of them than `verify` is asked for: it reports the
  -- oldest row that it reads as broken, though nothing was tampered with.
  pub verify-ingest_all_partial :
      (events : List Event) (n : ℕ)
      → All (λ e. Survives c (event_core chain e.0 e.1)) events
      → suc n < length events
      → (id : ℕ) × (found : String) × (verify c chain (suc n) (ingest_all c chain events empty)
          ≡ record {
            checked = suc n;
            verified = n;
            broken = prev_hash_mismatch id genesis found ∷ [];
          })
  verify-ingest_all_partial events n h more =
      verify-partial n (ingest_all c chain events empty)
        (omega (arith, length-ingest_all c chain events empty))
        (ingest_all-Intact c chain events empty h tt)
