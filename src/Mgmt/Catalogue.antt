-- ===== src/Mgmt/Catalogue.antt =====
-- services/mgmt-api/app/main.py: the handlers that create, change and delete walls and sources.
use airgap_videowall.Values.{end}
use airgap_videowall.Mgmt.Data.{
  Source, Wall, Env, User, Db, SourceIn, WallIn, Response, Layout, append_audit_event, dump_source,
  dump_wall, wall_out, no_content, source_out, failed, not_found,
}
use airgap_videowall.Prelude.{
  ℕ, ◌+◌, Bool, not, List, ◌∷◌, map, if◌then◌else◌, ◌==◌, any, keep, nat_eq,
}

abbrev pub has_wall : ℕ → List Wall → Bool
has_wall id walls = any (λ (w : Wall). w.id == id) walls

abbrev pub has_source : ℕ → List Source → Bool
has_source id sources = any (λ (s : Source). s.id == id) sources

abbrev pub set_wall : Wall → Wall → Wall
set_wall new w = if w.id == new.id then new else w

abbrev pub set_source : Source → Source → Source
set_source new s = if s.id == new.id then new else s

module _ (env : Env) (user : User) (now : ℕ) where
  unfoldable pub create_wall : WallIn → Db → Db × Response
  create_wall payload db =
      let w : Wall = record { id = db.next_wall; input = payload } in
      let db' = record db { walls = w ∷ db.walls; next_wall = db.next_wall + 1 } in
      (
        append_audit_event env now "walls.create" user.actor "wall" w.id (dump_wall w) db',
        wall_out w,
      )

  unfoldable pub update_wall : ℕ → WallIn → Db → Db × Response
  update_wall id payload db =
      let w : Wall = record { id = id; input = payload } in
      let db' = record db { walls = map (set_wall w) db.walls } in
      if has_wall id db.walls
      then (
        append_audit_event env now "walls.update" user.actor "wall" id (dump_wall w) db',
        wall_out w,
      )
      else (db, failed (not_found "wall_not_found"))

  -- The layouts of the wall go with it: `ON DELETE CASCADE`.
  unfoldable pub delete_wall : ℕ → Db → Db × Response
  delete_wall id db =
      let db' = record db {
        walls = keep (λ (w : Wall). not (w.id == id)) db.walls;
        layouts = keep (λ (l : Layout). not (l.wall_id == id)) db.layouts;
      } in
      if has_wall id db.walls
      then (append_audit_event env now "walls.delete" user.actor "wall" id end db', no_content)
      else (db, failed (not_found "wall_not_found"))

  unfoldable pub create_source : SourceIn → Db → Db × Response
  create_source payload db =
      let s : Source = record { id = db.next_source; input = payload } in
      let db' = record db { sources = s ∷ db.sources; next_source = db.next_source + 1 } in
      (
        append_audit_event env now "sources.create" user.actor "source" s.id (dump_source s) db',
        source_out s,
      )

  unfoldable pub update_source : ℕ → SourceIn → Db → Db × Response
  update_source id payload db =
      let s : Source = record { id = id; input = payload } in
      let db' = record db { sources = map (set_source s) db.sources } in
      if has_source id db.sources
      then (
        append_audit_event env now "sources.update" user.actor "source" id (dump_source s) db',
        source_out s,
      )
      else (db, failed (not_found "source_not_found"))

  unfoldable pub delete_source : ℕ → Db → Db × Response
  delete_source id db =
      let db' = record db { sources = keep (λ (s : Source). not (s.id == id)) db.sources } in
      if has_source id db.sources
      then (append_audit_event env now "sources.delete" user.actor "source" id end db', no_content)
      else (db, failed (not_found "source_not_found"))
