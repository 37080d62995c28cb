-- ===== src/Mgmt/Switching.antt =====
-- The two UPDATEs of `activate_layout` keep one active layout on each wall.
use airgap_videowall.Prelude.{
  ℕ, ◌≡◌, refl, sym, ap, ◌∙◌, ◌≢◌, ◌⊎◌, inl, inr, true, List, map, arith, Bool-cases, ◌==◌,
  eq_of_beq, In, map-In, nat_eq,
}
use airgap_videowall.Mgmt.Data.{Layout}
use airgap_videowall.Mgmt.Layouts.{deactivate, set_active, switch_active}
use airgap_videowall.Mgmt.Rows.{OneActive, UniqueIds, deactivate_fields, deactivate_active}

pub set_active_fields :
    (id : ℕ) (l : Layout)
    → ((set_active id l).id ≡ l.id)
      × ((set_active id l).wall_id ≡ l.wall_id)
      × ((set_active id l).is_active ≡ true → (l.id ≡ id) ⊎ (l.is_active ≡ true))
unfolding set_active
set_active_fields id l = elim (Bool-cases (l.id == id)) [
  | inl e ↦ (rw e refl, rw e refl, λ h. inl (eq_of_beq l.id id e))
  | inr e ↦ (rw e refl, rw e refl, λ h. inr (rw e at h))
]

-- What an active row of the switched table was before.
switched_active :
    (l : Layout) (ls : List Layout)
    → UniqueIds ls
    → In l ls
    → (a : Layout) → In a (switch_active l.wall_id l.id ls)
    → a.is_active ≡ true
    → (a₀ : Layout) × In a₀ ls
      × (a.id ≡ a₀.id)
      × (a.wall_id ≡ a₀.wall_id)
      × ((a₀.wall_id ≡ l.wall_id → a₀.id ≡ l.id) × (a₀.wall_id ≢ l.wall_id → a₀.is_active ≡ true))
unfolding switch_active
switched_active l ls u ml a m p =
    let (a₁, m₁, e₁) = map-In (set_active l.id) a (map (deactivate l.wall_id l.id) ls) m in
    let (a₀, m₀, e₀) = map-In (deactivate l.wall_id l.id) a₁ ls m₁ in
    let (i₁, w₁, c) = set_active_fields l.id a₁ in
    let (i₀, w₀) = deactivate_fields l.wall_id l.id a₀ in
    let cases = c (rw e₁ at p) in
    (
      a₀,
      m₀,
      cc,
      cc,
      elim cases [
        | inl k ↦
            let same : a₀ ≡ l = u a₀ l m₀ ml (cc) in
            (
              λ _. ap (λ (x : Layout). x.id) same,
              λ ne. absurd (ne (ap (λ (x : Layout). x.wall_id) same)),
            )
        | inr k ↦ let (y, z) = deactivate_active l.wall_id l.id a₀ (rw e₀ at k) in (z, λ _. y)
      ],
    )

-- The two UPDATEs of `activate_layout`.
pub switch_active-OneActive :
    (l : Layout) (ls : List Layout)
    → UniqueIds ls
    → In l ls
    → OneActive ls
    → OneActive (switch_active l.wall_id l.id ls)
switch_active-OneActive l ls u ml h a b m n p q w =
    let (a₀, m₀, ia, wa, (sa, oa)) = switched_active l ls u ml a m p in
    let (b₀, n₀, ib, wb, (sb, ob)) = switched_active l ls u ml b n q in
    let walls : a₀.wall_id ≡ b₀.wall_id = cc in
    elim (Bool-cases (a₀.wall_id == l.wall_id)) [
      | inl e ↦ let ea = eq_of_beq a₀.wall_id l.wall_id e in cc (ia, ib, sa ea, sb (sym walls ∙ ea))
      | inr e ↦
          let ne : a₀.wall_id ≢ l.wall_id = ground arith in
          let ne' : b₀.wall_id ≢ l.wall_id = λ k. ne (walls ∙ k) in
          cc (ia, ib, h a₀ b₀ m₀ n₀ (oa ne) (ob ne') walls)
    ]
