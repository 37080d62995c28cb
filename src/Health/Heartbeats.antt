-- ===== src/Health/Heartbeats.antt =====
-- services/health/app/main.py: the heartbeats, and the rows that the status reports join. What
-- PostgreSQL takes as JSONB and as TEXT is a parameter.
use airgap_videowall.Prelude.{
  ℕ, String, Bool, false, not, ◌&&◌, ◌||◌, Option, none, some, List, [], ◌∷◌, ltb, if◌then◌else◌,
  ◌==◌, elem,
}
use airgap_videowall.Prelude.Dict.{Dict, put, keys}
use airgap_videowall.Values.{Fields, ℤ, pos, negsuc, int_eq}

-- `to_jsonb` is `json.dumps` and the conversion to JSONB, `none` where it is refused, as it is for NaN
-- and for NUL in a text; `is_text` is false of a text with NUL.
pub record Columns : Type 0 where
  pub to_jsonb : Fields → Option Fields
  pub is_text : String → Bool

-- `HeartbeatWall` and `HeartbeatSource`
pub record Heartbeat : Type 0 where
  pub id : ℤ
  pub status : String
  pub details : Fields

-- A row of `wall_health` or `source_health`, beside its key.
pub record Health : Type 0 where
  pub last_seen : ℕ
  pub status : String
  pub details : Fields

-- The tables of health that the service writes, and the ids that stand in `walls` and `sources`, with
-- the column `health_status` of the latter, `none` where the table is missing. The tables of health
-- refer to those two if the management API has created them, and to nothing if the service has.
pub record Tables : Type 0 where
  pub wall_health : Dict ℤ Health
  pub source_health : Dict ℤ Health
  pub walls : List ℤ
  pub health_status : Option (Dict ℤ String)
  pub has_references : Bool

-- What the handlers answer: `ok` with the instant, or 500 where a statement raises.
pub data Answer : Type 0 where
  noted : ℤ → ℕ → Answer
  server_error : Answer

-- INTEGER
unfoldable pub is_int4 : ℤ → Bool
is_int4 (pos n) = ltb n 2147483648
is_int4 (negsuc n) = ltb n 2147483648

-- the row of an INSERT, if its columns take the values
unfoldable pub row_of : Columns → ℕ → Heartbeat → Option Health
unfolding is_int4
row_of cols now hb =
    if is_int4 hb.id && cols.is_text hb.status
    then elim (cols.to_jsonb hb.details) [
      | none ↦ none
      | some d ↦ some (record { last_seen = now; status = hb.status; details = d })
    ]
    else none

-- a foreign key, where there is one
abbrev pub refers : Bool → Bool → Bool
refers has_references known = not has_references || known

unfoldable pub has_source : ℤ → Option (Dict ℤ String) → Bool
has_source id none = false
has_source id (some d) = elem id (keys d)

unfoldable pub wall_row : Columns → Tables → ℕ → Heartbeat → Option Health
unfolding row_of
wall_row cols t now hb =
    if refers t.has_references (elem hb.id t.walls) then row_of cols now hb else none

unfoldable pub source_row : Columns → Tables → ℕ → Heartbeat → Option Health
unfolding row_of has_source
source_row cols t now hb =
    if refers t.has_references (has_source hb.id t.health_status) then row_of cols now hb else none

-- UPDATE sources SET health_status=$2 WHERE id=$1
unfoldable pub set_status : ℤ → String → Dict ℤ String → Dict ℤ String
set_status id status [] = []
set_status id status ((k, s) ∷ d) =
    if k == id then (k, status) ∷ set_status id status d else (k, s) ∷ set_status id status d

unfoldable pub write_wall : ℕ → Heartbeat → Option Health → Tables → Tables × Answer
write_wall now hb none t = (t, server_error)
write_wall now hb (some h) t =
    (record t { wall_health = put t.wall_health hb.id h }, noted hb.id now)

-- `heartbeat_wall`
unfoldable pub heartbeat_wall : Columns → ℕ → Heartbeat → Tables → Tables × Answer
unfolding wall_row write_wall
heartbeat_wall cols now hb t = write_wall now hb (wall_row cols t now hb) t

-- an UPDATE of a table that is missing raises, and is ignored
unfoldable pub sync_status : Heartbeat → Option (Dict ℤ String) → Option (Dict ℤ String)
unfolding set_status
sync_status hb none = none
sync_status hb (some d) = some (set_status hb.id hb.status d)

unfoldable pub write_source : ℕ → Heartbeat → Option Health → Tables → Tables × Answer
unfolding sync_status
write_source now hb none t = (t, server_error)
write_source now hb (some h) t = (
  record t {
    source_health = put t.source_health hb.id h;
    health_status = sync_status hb t.health_status;
  },
  noted hb.id now,
)

-- `heartbeat_source`
unfoldable pub heartbeat_source : Columns → ℕ → Heartbeat → Tables → Tables × Answer
unfolding source_row write_source
heartbeat_source cols now hb t = write_source now hb (source_row cols t now hb) t

pub data Beat : Type 0 where
  wall_beat : ℕ → Heartbeat → Beat
  source_beat : ℕ → Heartbeat → Beat

unfoldable pub beats : Columns → List Beat → Tables → Tables
beats cols [] t = t
beats cols (wall_beat now hb ∷ bs) t = beats cols bs (heartbeat_wall cols now hb t).0
beats cols (source_beat now hb ∷ bs) t = beats cols bs (heartbeat_source cols now hb t).0
