-- ===== src/Mgmt/Data.antt =====
-- services/mgmt-api/app/models.py and database.py: the models, the tables, and
-- `append_audit_event`. A table is a list of its rows. What the database driver and the codec of
-- the audit chain give is a parameter.
use airgap_videowall.Prelude.Text.{decimal}
use airgap_videowall.Values.{
  Value, Fields, Items, end, num, nil, field, pos, str, cons, bool, list, obj,
}
use airgap_videowall.Audit.Chain.{empty, Store, Codec, IngestIn, event_core, last_hash, insert}
use airgap_videowall.Prelude.{
  ℕ, String, Bool, Option, none, some, List, [], ◌∷◌, if◌then◌else◌, ◌==◌, string_eq,
}

pub record WallIn : Type 0 where
  pub name : String
  pub wall_type : String
  pub tile_count : ℕ
  pub resolution : String
  pub tags : List String

pub record Wall : Type 0 where
  pub id : ℕ
  pub input : WallIn

pub record SourceIn : Type 0 where
  pub name : String
  pub source_type : String
  pub protocol : String
  pub endpoint_url : String
  pub codec : String
  pub tags : List String
  pub health_status : String

pub record Source : Type 0 where
  pub id : ℕ
  pub input : SourceIn

pub record LayoutIn : Type 0 where
  pub wall_id : ℕ
  pub name : String
  pub grid_config : Fields
  pub preset_name : String
  pub is_active : Bool

-- A row of `layouts`, and the model `Layout`.
pub record Layout : Type 0 where
  pub id : ℕ
  pub wall_id : ℕ
  pub name : String
  pub version : ℕ
  pub grid_config : Fields
  pub preset_name : String
  pub is_active : Bool
  pub created_by : String
  pub created_at : ℕ

-- The tables; `next_wall` and its like are the sequences of the serial ids.
pub record Db : Type 0 where
  pub walls : List Wall
  pub next_wall : ℕ
  pub sources : List Source
  pub next_source : ℕ
  pub layouts : List Layout
  pub next_layout : ℕ
  pub events : Store

abbrev pub empty_db : Db
empty_db = record {
  walls = [];
  next_wall = 1;
  sources = [];
  next_source = 1;
  layouts = [];
  next_layout = 1;
  events = empty;
}

-- dict(v or {}) of a column that the driver hands over as text: the characters of a text that is not
-- empty are no pairs, so it raises
unfoldable pub dict_of : String → Option Fields
dict_of s = if s == "" then some end else none

-- `read_jsonb` is the text of a JSONB column, as the driver gives it without a codec for the type.
pub record Env : Type 0 where
  pub codec : Codec
  pub audit_chain_id : String
  pub read_jsonb : Fields → String
  pub isoformat : ℕ → String

-- The roles and the name of the user of a request.
pub record User : Type 0 where
  pub roles : List String
  pub actor : String

-- What a handler raises.
pub data Error : Type 0 where
  forbidden : Error
  not_found : String → Error
  foreign_key : Error
  value_error : Error

pub data Response : Type 0 where
  wall_out : Wall → Response
  source_out : Source → Response
  layout_out : Layout → Response
  activated : Layout → Response
  no_content : Response
  failed : Error → Response

abbrev pub event_in : String → String → String → ℕ → Fields → IngestIn
event_in action actor object_type object_id details = record {
  action = action;
  actor = actor;
  object_type = object_type;
  object_id = decimal object_id;
  details = details;
}

-- `append_audit_event`, with nothing in between the SELECT and the INSERT
abbrev pub append_event : Env → ℕ → IngestIn → Db → Db
append_event env now ev db =
    let core = event_core env.audit_chain_id now ev in
    let prev_hash = last_hash env.audit_chain_id db.events.rows in
    record db { events = insert env.codec core prev_hash db.events }

-- The same, of an object with a number.
unfoldable pub append_audit_event : Env → ℕ → String → String → String → ℕ → Fields → Db → Db
append_audit_event env now action actor object_type object_id details db =
    append_event env now (event_in action actor object_type object_id details) db

number : ℕ → Value
number n = num (pos n)

texts : List String → Items
texts [] = nil
texts (s ∷ ss) = cons (str s) (texts ss)

-- model_dump()
unfoldable pub dump_wall : Wall → Fields
unfolding number texts
dump_wall w = field "name" (str w.input.name) (
    field "wall_type" (str w.input.wall_type) (
      field "tile_count" (number w.input.tile_count) (
        field "resolution" (str w.input.resolution)
          (field "tags" (list (texts w.input.tags)) (field "id" (number w.id) end)))))

unfoldable pub dump_source : Source → Fields
unfolding number texts
dump_source s = field "name" (str s.input.name) (
    field "source_type" (str s.input.source_type) (
      field "protocol" (str s.input.protocol) (
        field "endpoint_url" (str s.input.endpoint_url) (
          field "codec" (str s.input.codec) (
            field "tags" (list (texts s.input.tags)) (
              field "health_status" (str s.input.health_status) (field "id" (number s.id) end)))))))

unfoldable pub dump_layout : Env → Layout → Fields
unfolding number
dump_layout env l = field "id" (number l.id) (
    field "wall_id" (number l.wall_id) (
      field "name" (str l.name) (
        field "version" (number l.version) (
          field "grid_config" (obj l.grid_config) (
            field "preset_name" (str l.preset_name) (
              field "is_active" (bool l.is_active) (
                field "created_by" (str l.created_by)
                  (field "created_at" (str (env.isoformat l.created_at)) end))))))))

-- the row that `activate_layout` returns
unfoldable pub dump_activated : Layout → Fields
unfolding number
dump_activated l = field "id" (number l.id) (
    field "wall_id" (number l.wall_id) (
      field "name" (str l.name)
        (field "version" (number l.version) (field "is_active" (bool l.is_active) end))))
