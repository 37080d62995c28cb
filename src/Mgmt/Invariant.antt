-- ===== src/Mgmt/Invariant.antt =====
-- Every request keeps the tables consistent, whatever it answers.
use airgap_videowall.Mgmt.Switching.{set_active_fields}
use airgap_videowall.Values.{Fields}
use airgap_videowall.Mgmt.Rows.{
  UniqueIds, rewrite-OneActive, insert-OneActive, rewrite-id, deactivate_fields,
}
use airgap_videowall.Mgmt.Catalogue.{has_wall}
use airgap_videowall.Mgmt.Layouts.{
  report_layout, rewrite, update_row, create_layout, settle_active, deactivate, switch_active,
  set_active, new_row,
}
use airgap_videowall.Mgmt.Data.{Db, Env, User, LayoutIn, Layout, append_audit_event, Wall, dict_of}
use airgap_videowall.Prelude.{
  ℕ, String, ◌≡◌, refl, sym, ◌∙◌, ◌⊎◌, inl, inr, Bool, true, false, Option, none, some, List, map,
  arith, Bool-cases, ◌==◌, nat_eq,
}
use airgap_videowall.Mgmt.Consistency.{
  IsConsistent, Issued, Refers, map-Refers, map-Issued, map-UniqueIds, insert-UniqueIds,
  has_wall→In, insert-Issued, insert-Refers,
}

settle_active-UniqueIds :
    (active : Bool) (wall_id id : ℕ) (ls : List Layout)
    → UniqueIds ls
    → UniqueIds (settle_active active wall_id id ls)
unfolding settle_active
settle_active-UniqueIds true wall_id id ls u =
    map-UniqueIds (deactivate wall_id id) ls (λ l. (deactivate_fields wall_id id l).0) u
settle_active-UniqueIds false wall_id id ls u = u

settle_active-Issued :
    (active : Bool) (wall_id id n : ℕ) (ls : List Layout)
    → Issued n ls
    → Issued n (settle_active active wall_id id ls)
unfolding settle_active
settle_active-Issued true wall_id id n ls i =
    map-Issued (deactivate wall_id id) n ls (λ l. (deactivate_fields wall_id id l).0) i
settle_active-Issued false wall_id id n ls i = i

settle_active-Refers :
    (active : Bool) (wall_id id : ℕ) (walls : List Wall) (ls : List Layout)
    → Refers walls ls
    → Refers walls (settle_active active wall_id id ls)
unfolding settle_active
settle_active-Refers true wall_id id walls ls r =
    map-Refers (deactivate wall_id id) walls ls (λ l. inl (deactivate_fields wall_id id l).1) r
settle_active-Refers false wall_id id walls ls r = r

rewrite-wall :
    (id : ℕ) (payload : LayoutIn) (l : Layout)
    → ((rewrite id payload l).wall_id ≡ l.wall_id)
      ⊎ ((rewrite id payload l).wall_id ≡ payload.wall_id)
unfolding rewrite
rewrite-wall id payload l = elim (Bool-cases (l.id == id)) [
  | inl e ↦ inr (rw e refl)
  | inr e ↦ inl (rw e refl)
]

rewrite-Refers :
    (id : ℕ) (payload : LayoutIn) (walls : List Wall) (ls : List Layout)
    → has_wall payload.wall_id walls ≡ true
    → Refers walls ls
    → Refers walls (map (rewrite id payload) ls)
rewrite-Refers id payload walls ls e r =
    map-Refers (rewrite id payload) walls ls
      (λ l. elim (rewrite-wall id payload l) [
        | inl same ↦ inl same
        | inr moved ↦
            let (w, m, k) = has_wall→In payload.wall_id walls e in inr (w, m, k ∙ sym moved)
      ])
      r

pub switch_active-UniqueIds :
    (wall_id id : ℕ) (ls : List Layout) → UniqueIds ls → UniqueIds (switch_active wall_id id ls)
unfolding switch_active
switch_active-UniqueIds wall_id id ls u =
    map-UniqueIds (set_active id) _ (λ l. (set_active_fields id l).0)
      (map-UniqueIds (deactivate wall_id id) ls (λ l. (deactivate_fields wall_id id l).0) u)

pub switch_active-Issued :
    (wall_id id n : ℕ) (ls : List Layout) → Issued n ls → Issued n (switch_active wall_id id ls)
unfolding switch_active
switch_active-Issued wall_id id n ls i =
    map-Issued (set_active id) n _ (λ l. (set_active_fields id l).0)
      (map-Issued (deactivate wall_id id) n ls (λ l. (deactivate_fields wall_id id l).0) i)

pub switch_active-Refers :
    (wall_id id : ℕ) (walls : List Wall) (ls : List Layout)
    → Refers walls ls
    → Refers walls (switch_active wall_id id ls)
unfolding switch_active
switch_active-Refers wall_id id walls ls r =
    map-Refers (set_active id) walls _ (λ l. inl (set_active_fields id l).1)
      (map-Refers (deactivate wall_id id) walls ls (λ l. inl (deactivate_fields wall_id id l).1) r)

module _ (env : Env) (user : User) (now : ℕ) where
  report_layout-IsConsistent :
      (action : String) (row : Layout) (grid : Option Fields) (db : Db)
      → IsConsistent db
      → IsConsistent (report_layout env user now action row grid db).0
  unfolding report_layout append_audit_event
  report_layout-IsConsistent action row none db c = c
  report_layout-IsConsistent action row (some grid) db c = record {
    one_active = c.one_active;
    unique_ids = c.unique_ids;
    issued = c.issued;
    refers = c.refers;
  }

  pub create_layout-IsConsistent :
      (payload : LayoutIn) (db : Db)
      → IsConsistent db
      → IsConsistent (create_layout env user now payload db).0
  unfolding create_layout
  create_layout-IsConsistent payload db c = elim (Bool-cases (has_wall payload.wall_id db.walls)) [
    | inr e ↦ rw e (record {
      one_active = c.one_active;
      unique_ids = c.unique_ids;
      issued = λ l m. omega (arith, c.issued l m);
      refers = c.refers;
    })
    | inl e ↦
        let row = new_row user now payload db in
        rw e (
          report_layout-IsConsistent _ row (dict_of (env.read_jsonb payload.grid_config)) _
            (record {
              one_active = insert-OneActive row db.layouts c.one_active;
              unique_ids =
                  settle_active-UniqueIds payload.is_active _ _ _
                    (insert-UniqueIds row db.layouts c.issued c.unique_ids);
              issued =
                  settle_active-Issued payload.is_active _ _ _ _
                    (insert-Issued row db.next_layout db.layouts refl c.issued);
              refers = settle_active-Refers payload.is_active _ _ _ _ (
                  insert-Refers row db.walls db.layouts (has_wall→In payload.wall_id db.walls e)
                    c.refers);
            }))
  ]

  pub update_row-IsConsistent :
      (id : ℕ) (payload : LayoutIn) (found : Option Layout) (db : Db)
      → IsConsistent db
      → IsConsistent (update_row env user now id payload found db).0
  unfolding update_row
  update_row-IsConsistent id payload none db c = c
  update_row-IsConsistent id payload (some old) db c =
      elim (Bool-cases (has_wall payload.wall_id db.walls)) [
        | inr e ↦ rw e c
        | inl e ↦ rw e (
            report_layout-IsConsistent _ (rewrite id payload old)
              (dict_of (env.read_jsonb payload.grid_config)) _
              (record {
                one_active = rewrite-OneActive id payload db.layouts c.one_active;
                unique_ids =
                    settle_active-UniqueIds payload.is_active _ _ _
                      (map-UniqueIds _ db.layouts (rewrite-id id payload) c.unique_ids);
                issued =
                    settle_active-Issued payload.is_active _ _ _ _
                      (map-Issued _ _ db.layouts (rewrite-id id payload) c.issued);
                refers =
                    settle_active-Refers payload.is_active _ _ _ _
                      (rewrite-Refers id payload db.walls db.layouts e c.refers);
              }))
      ]
