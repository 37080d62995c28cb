-- ===== src/Reconcile/Upsert.antt =====
-- services/mgmt-api/app/reconcile.py: `_reconcile_walls`, `_reconcile_sources` and `reconcile_once`.
-- An entry comes with the instant at which it is handled. What vw-config answers is a parameter,
-- `none` where the request raises. Which row is given where several carry a
-- marker is a parameter too, since the code asks for no order.
use airgap_videowall.Prelude.{ℕ, ◌+◌, String, Option, none, some, List, [], ◌∷◌, map}
use airgap_videowall.Values.{Fields, Items, pos, num, str, list, obj, nil, cons, end, field}
use airgap_videowall.Mgmt.Data.{WallIn, Wall, SourceIn, Source, Db, Env, append_event, event_in}
use airgap_videowall.Reconcile.Sorting.{sorted}
use airgap_videowall.Reconcile.Rows.{Change, created, updated, unchanged, change, replace, Select}
use airgap_videowall.Reconcile.Mapping.{ConfigWall, ConfigSource, managed_walls, managed_sources}

pub record Stats : Type 0 where
  pub created : ℕ
  pub updated : ℕ

abbrev pub no_stats : Stats
no_stats = record { created = 0; updated = 0 }

unfoldable pub texts : List String → Items
texts [] = nil
texts (s ∷ ss) = cons (str s) (texts ss)

-- `existing` and `proposed` of a wall
unfoldable pub wall_fields : WallIn → List String → Fields
unfolding texts
wall_fields w tags = field "name" (str w.name) (
    field "wall_type" (str w.wall_type) (
      field "tile_count" (num (pos w.tile_count))
        (field "resolution" (str w.resolution) (field "tags" (list (texts tags)) end))))

-- `existing` and `proposed` of a source, and the fields of a new one, with what follows the tags
unfoldable pub source_fields : SourceIn → List String → Fields → Fields
unfolding texts
source_fields s tags rest = field "name" (str s.name) (
    field "source_type" (str s.source_type) (
      field "protocol" (str s.protocol) (
        field "endpoint_url" (str s.endpoint_url)
          (field "codec" (str s.codec) (field "tags" (list (texts tags)) rest)))))

abbrev pub change_details : String → Fields → Fields → Fields
change_details id before after =
    field "config_id" (str id) (field "before" (obj before) (field "after" (obj after) end))

abbrev pub reconciler : String
reconciler = "config-reconciler"

module _ (env : Env) where
  unfoldable pub apply_wall : ℕ → ConfigWall → Change Wall → Db × Stats → Db × Stats
  unfolding wall_fields
  apply_wall now cw (created w) (db, st) =
      let ev =
        event_in "config.reconcile.wall.create" reconciler "wall" w.id
          (field "config_id" (str cw.id) (wall_fields w.input w.input.tags)) in
      (
        append_event env now ev (record db { walls = w ∷ db.walls; next_wall = db.next_wall + 1 }),
        record st { created = st.created + 1 },
      )
  apply_wall now cw (updated w old) (db, st) =
      let before = wall_fields old.input (sorted old.input.tags) in
      let after = wall_fields w.input w.input.tags in
      let ev =
        event_in "config.reconcile.wall.update" reconciler "wall" w.id
          (change_details cw.id before after) in
      (
        append_event env now ev (record db { walls = map (replace managed_walls w) db.walls }),
        record st { updated = st.updated + 1 },
      )
  apply_wall now cw unchanged s = s

  -- the loop of `_reconcile_walls`
  unfoldable pub reconcile_walls : Select Wall → List (ℕ × ConfigWall) → Db × Stats → Db × Stats
  unfolding apply_wall
  reconcile_walls select [] s = s
  reconcile_walls select ((now, cw) ∷ entries) s =
      reconcile_walls select entries
        (apply_wall now cw (change managed_walls select now s.0.next_wall cw s.0.walls) s)

  unfoldable pub apply_source : ℕ → ConfigSource → Change Source → Db × Stats → Db × Stats
  unfolding source_fields
  apply_source now cs (created r) (db, st) =
      let health = field "health_status" (str r.input.health_status) end in
      let ev =
        event_in "config.reconcile.source.create" reconciler "source" r.id
          (field "config_id" (str cs.id) (source_fields r.input r.input.tags health)) in
      (
        append_event env now ev
            (record db { sources = r ∷ db.sources; next_source = db.next_source + 1 }),
        record st { created = st.created + 1 },
      )
  apply_source now cs (updated r old) (db, st) =
      let before = source_fields old.input (sorted old.input.tags) end in
      let after = source_fields r.input r.input.tags end in
      let ev =
        event_in "config.reconcile.source.update" reconciler "source" r.id
          (change_details cs.id before after) in
      (
        append_event env now ev
            (record db { sources = map (replace managed_sources r) db.sources }),
        record st { updated = st.updated + 1 },
      )
  apply_source now cs unchanged s = s

  -- the loop of `_reconcile_sources`
  unfoldable pub reconcile_sources :
      Select Source → List (ℕ × ConfigSource) → Db × Stats → Db × Stats
  unfolding apply_source
  reconcile_sources select [] s = s
  reconcile_sources select ((now, cs) ∷ entries) s =
      reconcile_sources select entries
        (apply_source now cs (change managed_sources select now s.0.next_source cs s.0.sources) s)

  -- `reconcile_once`: the database after it, and the two statistics, or `none` if vw-config fails
  unfoldable pub reconcile_once :
      Select Wall
      → Select Source
      → Option (List (ℕ × ConfigWall))
      → Option (List (ℕ × ConfigSource))
      → Db
      → Db × Option (Stats × Stats)
  reconcile_once select_wall select_source (some walls) (some sources) db =
      let (db₁, wall_stats) = reconcile_walls select_wall walls (db, no_stats) in
      let (db₂, source_stats) = reconcile_sources select_source sources (db₁, no_stats) in
      (db₂, some (wall_stats, source_stats))
  reconcile_once _ _ _ _ db = (db, none)
