-- ===== src/Audit/Chain.antt =====
-- services/audit/app/main.py: the hash chain. `audit_store` is a list of its rows with the newest
-- first, since the serial ids grow with every insert; `ORDER BY id DESC` reads it as it stands.
-- SHA-256, the canonical JSON text, the text of an instant and what a JSONB column makes of the
-- details are parameters.
use Prim.Native.String.{◌++◌ as append}
use airgap_videowall.Prelude.{
  ℕ, ◌+◌, String, Bool, none, some, List, [], ◌∷◌, ◌++◌, reverse, if◌then◌else◌, ◌==◌, length, take,
  find, keep, string_eq,
}
use airgap_videowall.Values.{Fields}

-- `core`, the part of an event that is hashed. An instant counts microseconds.
pub record Core : Type 0 where
  pub ts : ℕ
  pub chain_id : String
  pub action : String
  pub actor : String
  pub object_type : String
  pub object_id : String
  pub details : Fields

-- A row of the table.
pub record Row : Type 0 where
  pub id : ℕ
  pub core : Core
  pub open core use *
  pub prev_hash : String
  pub hash : String

-- The body of a request, `IngestIn`.
pub record IngestIn : Type 0 where
  pub action : String
  pub actor : String
  pub object_type : String
  pub object_id : String
  pub details : Fields

pub record Store : Type 0 where
  pub next_id : ℕ
  pub rows : List Row

abbrev pub empty : Store
empty = record { next_id = 1; rows = [] }

-- "0" * 64
abbrev pub genesis : String
genesis = "0000000000000000000000000000000000000000000000000000000000000000"

pub record Codec : Type 0 where
  pub sha256_hex : String → String
  pub canon_event : Core → String
  pub jsonb : Fields → Fields

-- `_sha256_hex((prev_hash + "|").encode() + _canon_event(core))`
unfoldable pub seal : Codec → String → Core → String
seal c prev core = c.sha256_hex (append (append prev "|") (c.canon_event core))

-- the rows `WHERE chain_id=$1`
abbrev pub of_chain : String → Row → Bool
of_chain chain r = r.chain_id == chain

-- `row["hash"] if row else "0"*64`, of the newest row of the chain
unfoldable pub last_hash : String → List Row → String
last_hash chain rows = elim (find (of_chain chain) rows) [ none ↦ genesis | some r ↦ r.hash ]

abbrev pub event_core : String → ℕ → IngestIn → Core
event_core chain ts ev = record {
  ts = ts;
  chain_id = chain;
  action = ev.action;
  actor = ev.actor;
  object_type = ev.object_type;
  object_id = ev.object_id;
  details = ev.details;
}

-- The row of an event, with the previous hash that was read before it.
abbrev pub row_of : Codec → ℕ → Core → String → Row
row_of c id core prev = record {
  id = id;
  core = record core { details = c.jsonb core.details };
  prev_hash = prev;
  hash = seal c prev core;
}

-- The INSERT.
unfoldable pub insert : Codec → Core → String → Store → Store
insert c core prev s = record {
  next_id = s.next_id + 1;
  rows = row_of c s.next_id core prev ∷ s.rows;
}

-- `ingest`, run with nothing in between the SELECT and the INSERT
unfoldable pub ingest : Codec → String → ℕ → IngestIn → Store → Store
ingest c chain ts ev s = insert c (event_core chain ts ev) (last_hash chain s.rows) s

-- An entry of `broken`: the id, what was expected and what was found.
pub data Broken : Type 0 where
  prev_hash_mismatch : ℕ → String → String → Broken
  hash_mismatch : ℕ → String → String → Broken

pub record Tally : Type 0 where
  pub expected_prev : String
  pub verified : ℕ
  pub broken : List Broken

-- one round of the loop of `verify`
unfoldable pub check_row : Codec → Tally → Row → Tally
check_row c t r =
    let calc = seal c t.expected_prev r.core in
    if r.prev_hash == t.expected_prev
    then (if calc == r.hash
        then record { expected_prev = r.hash; verified = t.verified + 1; broken = t.broken }
        else record {
          expected_prev = r.hash;
          verified = t.verified;
          broken = t.broken ++ hash_mismatch r.id calc r.hash ∷ [];
        })
    else record {
      expected_prev = r.hash;
      verified = t.verified;
      broken = t.broken ++ prev_hash_mismatch r.id t.expected_prev r.prev_hash ∷ [];
    }

unfoldable pub check_rows : Codec → Tally → List Row → Tally
check_rows c t [] = t
check_rows c t (r ∷ rows) = check_rows c (check_row c t r) rows

abbrev pub start : Tally
start = record { expected_prev = genesis; verified = 0; broken = [] }

pub record Report : Type 0 where
  pub checked : ℕ
  pub verified : ℕ
  pub broken : List Broken

-- `verify`: the `last_n` newest rows of the chain, oldest first
unfoldable pub verify : Codec → String → ℕ → Store → Report
verify c chain last_n s =
    let rows = reverse (take last_n (keep (of_chain chain) s.rows)) in
    let t = check_rows c start rows in
    record { checked = length rows; verified = t.verified; broken = t.broken }
