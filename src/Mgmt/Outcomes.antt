-- ===== src/Mgmt/Outcomes.antt =====
-- What activating and creating a layout does to the layouts.
use airgap_videowall.Mgmt.Catalogue.{has_wall}
use airgap_videowall.Values.{Fields}
use airgap_videowall.Mgmt.Switching.{set_active_fields}
use airgap_videowall.Mgmt.Rows.{UniqueIds, deactivate_fields}
use airgap_videowall.Mgmt.Layouts.{
  set_active, deactivate, switch_active, activate, create_layout, max_version, report_layout,
  ensure_layout_version, activate_row, settle_active, find_layout, new_row,
}
use airgap_videowall.Mgmt.Data.{Layout, Env, User, Db, dict_of, append_audit_event, LayoutIn}
use airgap_videowall.Prelude.{
  ℕ, ◌≤◌, ◌<◌, String, ◌≡◌, refl, sym, ap, ◌∙◌, subst, ◌≢◌, ◌↔◌, Bool, true, false, Option, none,
  some, List, [], ◌∷◌, map, arith, In, here, there, In-map, map-In,
}
use airgap_videowall.Mgmt.Consistency.{IsConsistent, find-In}

-- A row after the two UPDATEs, for one of the wall and for one of another wall.
switched_here :
    (id : ℕ) (a : Layout) (wall_id : ℕ)
    → a.wall_id ≡ wall_id
    → ((set_active id (deactivate wall_id id a)).is_active ≡ true) ↔ (a.id ≡ id)
unfolding set_active deactivate
switched_here id a wall_id w = (λ h. ground arith, λ h. ground arith)

switched_elsewhere :
    (id : ℕ) (a : Layout) (wall_id : ℕ)
    → a.wall_id ≢ wall_id
    → a.id ≢ id
    → set_active id (deactivate wall_id id a) ≡ a
unfolding set_active deactivate
switched_elsewhere id a wall_id w n = ground arith

module _ (l : Layout) (ls : List Layout) (u : UniqueIds ls) (ml : In l ls) where
  switch_active-here :
      (a : Layout)
      → In a (switch_active l.wall_id l.id ls)
      → a.wall_id ≡ l.wall_id
      → (a.is_active ≡ true) ↔ (a.id ≡ l.id)
  unfolding switch_active
  switch_active-here a m w =
      let (a₁, m₁, e₁) = map-In (set_active l.id) a (map (deactivate l.wall_id l.id) ls) m in
      let (a₀, m₀, e₀) = map-In (deactivate l.wall_id l.id) a₁ ls m₁ in
      let (i₁, w₁, _) = set_active_fields l.id a₁ in
      let (i₀, w₀) = deactivate_fields l.wall_id l.id a₀ in
      let (f, g) = switched_here l.id a₀ l.wall_id (cc) in
      let whole : a ≡ set_active l.id (deactivate l.wall_id l.id a₀) = cc in
      let id : a.id ≡ a₀.id = cc in
      (λ h. id ∙ f (cc), λ h. ap (λ (x : Layout). x.is_active) whole ∙ g (sym id ∙ h))

  other-id : (a : Layout) → In a ls → a.wall_id ≢ l.wall_id → a.id ≢ l.id
  other-id a m ne e = ne (ap (λ (x : Layout). x.wall_id) (u a l m ml e))

  switch_active-elsewhere :
      (a : Layout) → a.wall_id ≢ l.wall_id → In a (switch_active l.wall_id l.id ls) ↔ In a ls
  unfolding switch_active
  switch_active-elsewhere a ne = (
    λ m.
        let (a₁, m₁, e₁) = map-In (set_active l.id) a (map (deactivate l.wall_id l.id) ls) m in
        let (a₀, m₀, e₀) = map-In (deactivate l.wall_id l.id) a₁ ls m₁ in
        let (i₁, w₁, _) = set_active_fields l.id a₁ in
        let (i₀, w₀) = deactivate_fields l.wall_id l.id a₀ in
        let ne₀ : a₀.wall_id ≢ l.wall_id = λ h. ne (cc) in
        let same = switched_elsewhere l.id a₀ l.wall_id ne₀ (other-id a₀ m₀ ne₀) in
        let whole : a ≡ a₀ = cc in subst (λ x. In x ls) (sym whole) m₀,
    λ m.
        subst (λ x. In x (switch_active l.wall_id l.id ls))
          (switched_elsewhere l.id a l.wall_id ne (other-id a m ne))
          (In-map (set_active l.id) _ _ (In-map (deactivate l.wall_id l.id) a ls m)),
  )

-- The new row stays as it is when the others of its wall are deactivated.
settle_active-row :
    (active : Bool) (row : Layout) (ls : List Layout)
    → In row (settle_active active row.wall_id row.id (row ∷ ls))
unfolding settle_active deactivate
settle_active-row true row ls = here (ground arith)
settle_active-row false row ls = here refl

module _ (env : Env) (user : User) (now : ℕ) (db : Db) where
  -- In consistent tables, activating a layout that is there makes it the only active one of its
  -- wall, and leaves the layouts of the other walls as they were.
  pub activate-switches :
      (id : ℕ) (l : Layout)
      → IsConsistent db
      → find_layout id db.layouts ≡ some l
      → let after = (activate env user now id db).0.layouts in
        ((a : Layout) → In a after → a.wall_id ≡ l.wall_id → (a.is_active ≡ true) ↔ (a.id ≡ id))
        × ((a : Layout) → a.wall_id ≢ l.wall_id → In a after ↔ In a db.layouts)
  unfolding activate activate_row append_audit_event
  activate-switches id l c found =
      let (m, k) = find-In id db.layouts l found in
      rw (found, ← k)
        (
          switch_active-here l db.layouts c.unique_ids m,
          switch_active-elsewhere l db.layouts c.unique_ids m,
        )

  version-max :
      (wall_id : ℕ) (ls : List Layout) (a : Layout)
      → In a ls
      → a.wall_id ≡ wall_id
      → a.version ≤ max_version wall_id ls
  unfolding max_version
  version-max wall_id [] a m w = elim m [ ]
  version-max wall_id (x ∷ ls) a (here e) w =
      let same : a.version ≡ x.version = ap (λ (l : Layout). l.version) e in
      let walls : x.wall_id ≡ wall_id = sym (ap (λ (l : Layout). l.wall_id) e) ∙ w in ground arith
  version-max wall_id (x ∷ ls) a (there m) w = let ih = version-max wall_id ls a m w in ground arith

  report_layout-layouts :
      (action : String) (row : Layout) (grid : Option Fields) (after : Db)
      → (report_layout env user now action row grid after).0.layouts ≡ after.layouts
  unfolding report_layout append_audit_event
  report_layout-layouts action row none after = refl
  report_layout-layouts action row (some grid) after = refl

  -- A request to create a layout on a wall that is there adds a row with the next id, also where it
  -- is then answered with an error, active if that was asked, and with a version above those of all
  -- layouts the wall had before.
  pub create_layout-version :
      (payload : LayoutIn)
      → has_wall payload.wall_id db.walls ≡ true
      → (row : Layout) × In row (create_layout env user now payload db).0.layouts
        × (row.id ≡ db.next_layout)
        × (row.wall_id ≡ payload.wall_id)
        × (row.is_active ≡ payload.is_active)
        × ((a : Layout) → In a db.layouts → a.wall_id ≡ payload.wall_id → a.version < row.version)
  unfolding create_layout ensure_layout_version
  create_layout-version payload w =
      let row = new_row user now payload db in
      let stored = settle_active-row payload.is_active row db.layouts in
      let grid = dict_of (env.read_jsonb payload.grid_config) in
      let above : (a : Layout)
          → In a db.layouts
          → a.wall_id ≡ payload.wall_id
          → a.version < row.version =
        λ a m e. omega (arith, version-max payload.wall_id db.layouts a m e) in
      let kept : In row (create_layout env user now payload db).0.layouts =
        rw (w, report_layout-layouts "layouts.create" row grid) stored in
      (row, kept, refl, refl, refl, above)
