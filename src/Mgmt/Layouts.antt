-- ===== src/Mgmt/Layouts.antt =====
-- services/mgmt-api/app/main.py and database.py: the handlers that create, change, delete and
-- activate layouts.
use airgap_videowall.Mgmt.Catalogue.{has_wall}
use airgap_videowall.Values.{Fields, end}
use airgap_videowall.Mgmt.Data.{
  LayoutIn, Layout, Env, User, Db, Response, append_audit_event, failed, value_error, dict_of,
  not_found, dump_activated, foreign_key, no_content, dump_layout, layout_out, activated,
}
use airgap_videowall.Prelude.{
  ℕ, ◌+◌, String, Bool, true, false, not, ◌&&◌, Option, none, some, List, [], ◌∷◌, map, ltb,
  if◌then◌else◌, ◌==◌, any, find, keep, nat_eq,
}

-- `COALESCE(MAX(version),0)` of the layouts of a wall
unfoldable pub max_version : ℕ → List Layout → ℕ
max_version wall_id [] = 0
max_version wall_id (l ∷ ls) =
    let rest = max_version wall_id ls in
    if l.wall_id == wall_id then (if ltb rest l.version then l.version else rest) else rest

-- `ensure_layout_version`
unfoldable pub ensure_layout_version : ℕ → List Layout → ℕ
unfolding max_version
ensure_layout_version wall_id ls = max_version wall_id ls + 1

-- UPDATE layouts SET is_active=FALSE WHERE wall_id=$1 AND id<>$2
unfoldable pub deactivate : ℕ → ℕ → Layout → Layout
deactivate wall_id id l =
    if l.wall_id == wall_id && not (l.id == id) then record l { is_active = false } else l

unfoldable pub settle_active : Bool → ℕ → ℕ → List Layout → List Layout
unfolding deactivate
settle_active active wall_id id ls = if active then map (deactivate wall_id id) ls else ls

-- UPDATE layouts SET wall_id=$2, name=$3, grid_config=$4, preset_name=$5, is_active=$6 WHERE id=$1
unfoldable pub rewrite : ℕ → LayoutIn → Layout → Layout
rewrite id payload l =
    if l.id == id
    then record l {
      wall_id = payload.wall_id;
      name = payload.name;
      grid_config = payload.grid_config;
      preset_name = payload.preset_name;
      is_active = payload.is_active;
    }
    else l

-- UPDATE layouts SET is_active=TRUE WHERE id=$1
unfoldable pub set_active : ℕ → Layout → Layout
set_active id l = if l.id == id then record l { is_active = true } else l

abbrev pub find_layout : ℕ → List Layout → Option Layout
find_layout id ls = find (λ (l : Layout). l.id == id) ls

-- The two UPDATEs of `activate_layout`.
unfoldable pub switch_active : ℕ → ℕ → List Layout → List Layout
unfolding deactivate set_active
switch_active wall_id id ls = map (set_active id) (map (deactivate wall_id id) ls)

-- The row that `create_layout` inserts.
abbrev pub new_row : User → ℕ → LayoutIn → Db → Layout
new_row user now payload db = record {
  id = db.next_layout;
  wall_id = payload.wall_id;
  name = payload.name;
  version = ensure_layout_version payload.wall_id db.layouts;
  grid_config = payload.grid_config;
  preset_name = payload.preset_name;
  is_active = payload.is_active;
  created_by = user.actor;
  created_at = now;
}

module _ (env : Env) (user : User) (now : ℕ) where
  -- What follows the transaction: the row is turned into a `Layout`, which `dict` may refuse, and
  -- the event is written.
  unfoldable pub report_layout : String → Layout → Option Fields → Db → Db × Response
  report_layout action row none db = (db, failed value_error)
  report_layout action row (some grid) db =
      let l = record row { grid_config = grid } in
      (
        append_audit_event env now action user.actor "layout" l.id (dump_layout env l) db,
        layout_out l,
      )

  -- A failed INSERT has taken its id from the sequence.
  unfoldable pub create_layout : LayoutIn → Db → Db × Response
  unfolding report_layout settle_active
  create_layout payload db =
      let row = new_row user now payload db in
      let layouts = settle_active payload.is_active payload.wall_id row.id (row ∷ db.layouts) in
      let taken = record db { next_layout = db.next_layout + 1 } in
      if has_wall payload.wall_id db.walls
      then report_layout "layouts.create" row (dict_of (env.read_jsonb payload.grid_config))
          (record taken { layouts = layouts })
      else (taken, failed foreign_key)

  unfoldable pub update_row : ℕ → LayoutIn → Option Layout → Db → Db × Response
  unfolding report_layout settle_active rewrite
  update_row id payload none db = (db, failed (not_found "layout_not_found"))
  update_row id payload (some old) db =
      let layouts =
        settle_active payload.is_active payload.wall_id id (map (rewrite id payload) db.layouts) in
      if has_wall payload.wall_id db.walls
      then report_layout "layouts.update" (rewrite id payload old)
          (dict_of (env.read_jsonb payload.grid_config)) (record db { layouts = layouts })
      else (db, failed foreign_key)

  unfoldable pub update_layout : ℕ → LayoutIn → Db → Db × Response
  unfolding update_row
  update_layout id payload db = update_row id payload (find_layout id db.layouts) db

  unfoldable pub delete_layout : ℕ → Db → Db × Response
  delete_layout id db =
      let db' = record db { layouts = keep (λ (l : Layout). not (l.id == id)) db.layouts } in
      if any (λ (l : Layout). l.id == id) db.layouts
      then (append_audit_event env now "layouts.delete" user.actor "layout" id end db', no_content)
      else (db, failed (not_found "layout_not_found"))

  unfoldable pub activate_row : ℕ → Option Layout → Db → Db × Response
  unfolding switch_active set_active
  activate_row id none db = (db, failed (not_found "layout_not_found"))
  activate_row id (some l) db =
      let updated = set_active id l in
      let db' = record db { layouts = switch_active l.wall_id id db.layouts } in
      (
        append_audit_event env now "layouts.activate" user.actor "layout" id
            (dump_activated updated) db',
        activated updated,
      )

  -- `activate`, with `activate_layout`
  unfoldable pub activate : ℕ → Db → Db × Response
  unfolding activate_row
  activate id db = activate_row id (find_layout id db.layouts) db
