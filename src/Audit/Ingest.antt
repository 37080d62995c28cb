-- ===== src/Audit/Ingest.antt =====
-- Ingested events and `verify`: the chain that ingesting builds, what `verify` reports of it over
-- the whole chain and over a part, and two requests whose statements interleave.

use Prim.Native.String.{◌++◌ as append}
use airgap_videowall.Prelude.{
  ℕ, ◌+◌, ◌≤◌, String, ◌≡◌, List, [], ◌∷◌, arith, beq_self, length, keep, All, eq_iff, ◌∙◌,
  take_of_length-le, length-reverse, ap,
}
use airgap_videowall.Audit.Chain.{
  row_of, Core, Row, IngestIn, Store, Codec, empty, genesis, seal, of_chain, event_core, insert,
  ingest, verify, last_hash,
}
use airgap_videowall.Audit.Linked.{Linked, last_hash-newest, check_rows-Linked}

-- A request and the instant at which it is served.
abbrev pub Event : Type 0
Event = ℕ × IngestIn

unfoldable pub ingest_all : Codec → String → List Event → Store → Store
ingest_all c chain [] s = s
ingest_all c chain ((ts, ev) ∷ events) s = ingest_all c chain events (ingest c chain ts ev s)

-- The details read back from the JSONB column have the canonical text that was hashed.
abbrev pub Survives : Codec → Core → Type 0
Survives c core =
    c.canon_event (record core { details = c.jsonb core.details }) ≡ c.canon_event core

abbrev pub rows_of : String → Store → List Row
rows_of chain s = keep (of_chain chain) s.rows

abbrev pub Intact : Codec → String → Store → Type 0
Intact c chain s = Linked c genesis (rows_of chain s)

module _ (c : Codec) (chain : String) where
  pub rows_of-insert :
      (ts : ℕ) (ev : IngestIn) (prev : String) (s : Store)
      → rows_of chain (insert c (event_core chain ts ev) prev s)
        ≡ row_of c s.next_id (event_core chain ts ev) prev ∷ rows_of chain s
  unfolding insert
  rows_of-insert ts ev prev s = rw (beq_self chain)

  pub ingest-Intact :
      (ts : ℕ) (ev : IngestIn) (s : Store)
      → Survives c (event_core chain ts ev)
      → Intact c chain s
      → Intact c chain (ingest c chain ts ev s)
  unfolding ingest insert seal
  ingest-Intact ts ev s h i = rw (beq_self chain) (
    last_hash-newest chain s.rows,
    ap (λ t. c.sha256_hex (append (append (last_hash chain s.rows) "|") t)) h,
    i,
  )

  pub length-ingest :
      (ts : ℕ) (ev : IngestIn) (s : Store)
      → length (rows_of chain (ingest c chain ts ev s)) ≡ length (rows_of chain s) + 1
  unfolding ingest insert
  length-ingest ts ev s = ground (arith, eq_iff chain chain)

  pub ingest_all-Intact :
      (events : List Event) (s : Store)
      → All (λ e. Survives c (event_core chain e.0 e.1)) events
      → Intact c chain s
      → Intact c chain (ingest_all c chain events s)
  unfolding ingest_all
  ingest_all-Intact [] s h i = i
  ingest_all-Intact ((ts, ev) ∷ events) s (h, hs) i =
      ingest_all-Intact events (ingest c chain ts ev s) hs (ingest-Intact ts ev s h i)

  pub length-ingest_all :
      (events : List Event) (s : Store)
      → length (rows_of chain (ingest_all c chain events s))
        ≡ length events + length (rows_of chain s)
  unfolding ingest_all
  length-ingest_all [] s = omega arith
  length-ingest_all ((ts, ev) ∷ events) s =
      omega (arith, length-ingest_all events (ingest c chain ts ev s), length-ingest ts ev s)

  pub verify-Intact :
      (n : ℕ) (s : Store)
      → Intact c chain s
      → length (rows_of chain s) ≤ n
      → verify c chain n s ≡ record {
        checked = length (rows_of chain s);
        verified = length (rows_of chain s);
        broken = [];
      }
  unfolding verify
  verify-Intact n s i h =
      let rows = rows_of chain s in
      rw (take_of_length-le n rows h, length-reverse rows, check_rows-Linked c genesis 0 [] rows i)
        (ground arith)

  -- Events are ingested into an empty log one request at a time, and their details keep their
  -- canonical text in the table. Then `verify`, asked for at least as many rows, counts every event
  -- as verified and reports no break.
  pub verify-ingest_all :
      (events : List Event) (n : ℕ)
      → All (λ e. Survives c (event_core chain e.0 e.1)) events
      → length events ≤ n
      → verify c chain n (ingest_all c chain events empty)
        ≡ record { checked = length events; verified = length events; broken = [] }
  verify-ingest_all events n h fits =
      let s = ingest_all c chain events empty in
      let size : length (rows_of chain s) ≡ length events =
        omega (arith, length-ingest_all events empty) in
      verify-Intact n s (ingest_all-Intact events empty h tt) (omega arith)
      ∙ ap (λ m. record { checked = m; verified = m; broken = [] }) size
