-- ===== src/Mgmt/Reachable.antt =====
-- The tables after every sequence of requests, and what one request to activate a layout does.
use airgap_videowall.Mgmt.Invariant.{
  switch_active-UniqueIds, switch_active-Issued, switch_active-Refers, create_layout-IsConsistent,
  update_row-IsConsistent,
}
use airgap_videowall.Mgmt.Switching.{switch_active-OneActive}
use airgap_videowall.Mgmt.Layouts.{
  activate_row, update_layout, delete_layout, activate, find_layout,
}
use airgap_videowall.Mgmt.Catalogue.{
  create_wall, delete_wall, update_wall, create_source, update_source, has_wall, set_wall,
  delete_source,
}
use airgap_videowall.Mgmt.Data.{Env, User, Db, append_audit_event, WallIn, Layout, Wall}
use airgap_videowall.Prelude.{
  ℕ, ◌≡◌, refl, ◌∙◌, inl, inr, true, not, Option, none, some, arith, Bool-cases, ◌==◌, nat_eq, any,
  there, In-keep_iff, In-map,
}
use airgap_videowall.Mgmt.Guards.{handle_cases}
use airgap_videowall.Mgmt.Requests.{
  update_source_request, Request, Reach, start, next, handle, serve, create_wall_request,
  update_wall_request, delete_wall_request, create_source_request, update_source_request,
  delete_source_request, create_layout_request, update_layout_request, delete_layout_request,
  activate_request,
}
use airgap_videowall.Mgmt.Consistency.{
  IsConsistent, keep-OneActive, find-In, keep-UniqueIds, set_wall-id, kept,
}

module _ (env : Env) (user : User) (now : ℕ) where
  delete_layout-IsConsistent :
      (id : ℕ) (db : Db) → IsConsistent db → IsConsistent (delete_layout env user now id db).0
  unfolding delete_layout append_audit_event
  delete_layout-IsConsistent id db c =
      let p = λ (l : Layout). not (l.id == id) in
      elim (Bool-cases (any (λ (l : Layout). l.id == id) db.layouts)) [
        | inr e ↦ rw e c
        | inl e ↦ rw e (record {
          one_active = keep-OneActive p db.layouts c.one_active;
          unique_ids = keep-UniqueIds p db.layouts c.unique_ids;
          issued = λ l m. c.issued l (kept p db.layouts l m);
          refers = λ l m. c.refers l (kept p db.layouts l m);
        })
      ]

  activate_row-IsConsistent :
      (id : ℕ) (found : Option Layout) (db : Db)
      → find_layout id db.layouts ≡ found
      → IsConsistent db
      → IsConsistent (activate_row env user now id found db).0
  unfolding activate_row append_audit_event
  activate_row-IsConsistent id none db e c = c
  activate_row-IsConsistent id (some l) db e c =
      let (m, k) = find-In id db.layouts l e in
      rw (← k) (record {
        one_active = switch_active-OneActive l db.layouts c.unique_ids m c.one_active;
        unique_ids = switch_active-UniqueIds l.wall_id l.id db.layouts c.unique_ids;
        issued = switch_active-Issued l.wall_id l.id _ db.layouts c.issued;
        refers = switch_active-Refers l.wall_id l.id db.walls db.layouts c.refers;
      })

  update_wall-IsConsistent :
      (id : ℕ) (payload : WallIn) (db : Db)
      → IsConsistent db
      → IsConsistent (update_wall env user now id payload db).0
  unfolding update_wall append_audit_event
  update_wall-IsConsistent id payload db c =
      let new : Wall = record { id = id; input = payload } in
      elim (Bool-cases (has_wall id db.walls)) [
        | inr e ↦ rw e c
        | inl e ↦ rw e (record {
          one_active = c.one_active;
          unique_ids = c.unique_ids;
          issued = c.issued;
          refers = λ l m.
              let (w, n, k) = c.refers l m in
              (set_wall new w, In-map (set_wall new) w db.walls n, set_wall-id new w ∙ k);
        })
      ]

  delete_wall-IsConsistent :
      (id : ℕ) (db : Db) → IsConsistent db → IsConsistent (delete_wall env user now id db).0
  unfolding delete_wall append_audit_event
  delete_wall-IsConsistent id db c =
      let p = λ (l : Layout). not (l.wall_id == id) in
      elim (Bool-cases (has_wall id db.walls)) [
        | inr e ↦ rw e c
        | inl e ↦ rw e (record {
          one_active = keep-OneActive p db.layouts c.one_active;
          unique_ids = keep-UniqueIds p db.layouts c.unique_ids;
          issued = λ l m. c.issued l (kept p db.layouts l m);
          refers = λ l m.
              let (n, k) = (In-keep_iff p l db.layouts).0 m in
              let (w, i, j) = c.refers l n in
              let other : not (w.id == id) ≡ true = rw j k in
              (w, (In-keep_iff (λ (w : Wall). not (w.id == id)) w db.walls).1 (i, other), j);
        })
      ]

  create_wall-IsConsistent :
      (payload : WallIn) (db : Db)
      → IsConsistent db
      → IsConsistent (create_wall env user now payload db).0
  unfolding create_wall append_audit_event
  create_wall-IsConsistent payload db c = record {
    one_active = c.one_active;
    unique_ids = c.unique_ids;
    issued = c.issued;
    refers = λ l m. let (w, n, k) = c.refers l m in (w, there n, k);
  }

  -- The statements on sources leave the tables of layouts and walls alone.
  SameTables-IsConsistent :
      (db db' : Db)
      → db'.layouts ≡ db.layouts
      → db'.next_layout ≡ db.next_layout
      → db'.walls ≡ db.walls
      → IsConsistent db
      → IsConsistent db'
  SameTables-IsConsistent db db' e f g c = record {
    one_active = rw e c.one_active;
    unique_ids = rw e c.unique_ids;
    issued = rw (e, f) c.issued;
    refers = rw (e, g) c.refers;
  }

  serve-IsConsistent :
      (req : Request) (db : Db) → IsConsistent db → IsConsistent (serve env user now req db).0
  unfolding serve update_layout activate create_source update_source delete_source
      append_audit_event
  serve-IsConsistent (create_wall_request payload) db c = create_wall-IsConsistent payload db c
  serve-IsConsistent (update_wall_request id payload) db c =
      update_wall-IsConsistent id payload db c
  serve-IsConsistent (delete_wall_request id) db c = delete_wall-IsConsistent id db c
  serve-IsConsistent (create_source_request payload) db c =
      SameTables-IsConsistent db _ refl refl refl c
  serve-IsConsistent (update_source_request id payload) db c =
      SameTables-IsConsistent db _ (ground arith) (ground arith) (ground arith) c
  serve-IsConsistent (delete_source_request id) db c =
      SameTables-IsConsistent db _ (ground arith) (ground arith) (ground arith) c
  serve-IsConsistent (create_layout_request payload) db c =
      create_layout-IsConsistent env user now payload db c
  serve-IsConsistent (update_layout_request id payload) db c =
      update_row-IsConsistent env user now id payload (find_layout id db.layouts) db c
  serve-IsConsistent (delete_layout_request id) db c = delete_layout-IsConsistent id db c
  serve-IsConsistent (activate_request id) db c =
      activate_row-IsConsistent id (find_layout id db.layouts) db refl c

  handle-IsConsistent :
      (req : Request) (db : Db) → IsConsistent db → IsConsistent (handle env user now req db).0
  handle-IsConsistent req db c = elim (handle_cases env user now req db) [
    | inl (p, e) ↦ rw e (serve-IsConsistent req db c)
    | inr (n, e) ↦ rw e c
  ]

-- From consistent tables, and after every sequence of requests by any users, no wall has two active layouts, an id names one
-- layout, and every layout's wall is there.
pub Reach-IsConsistent :
    (env : Env) (db db' : Db) → IsConsistent db → Reach env db db' → IsConsistent db'
Reach-IsConsistent env db db' c start = c
Reach-IsConsistent env db db' c (next {db' = db₀} r user now req) =
    handle-IsConsistent env user now req db₀ (Reach-IsConsistent env db db₀ c r)
