-- ===== src/Mgmt/Rows.antt =====
-- The invariants of the table of layouts, and that each statement on the table keeps them.
use airgap_videowall.Prelude.{
  ℕ, ◌≡◌, sym, ◌∙◌, ◌≢◌, inl, inr, true, List, map, arith, Bool-cases, ◌==◌, eq_of_beq, In, map-In,
  nat_eq, ◌∷◌, false, Bool, ap, ◌⊎◌, subst, here, there, refl,
}
use airgap_videowall.Mgmt.Data.{Layout, LayoutIn}
use airgap_videowall.Mgmt.Layouts.{deactivate, rewrite, settle_active}

-- No wall has two active layouts.
abbrev pub OneActive : List Layout → Type 0
OneActive ls =
    (a b : Layout)
    → In a ls
    → In b ls
    → a.is_active ≡ true
    → b.is_active ≡ true
    → a.wall_id ≡ b.wall_id
    → a.id ≡ b.id

-- An id names one row.
abbrev pub UniqueIds : List Layout → Type 0
UniqueIds ls = (a b : Layout) → In a ls → In b ls → a.id ≡ b.id → a ≡ b

-- Walls other than `wall_id` have no two active layouts.
abbrev OneActiveElsewhere : ℕ → List Layout → Type 0
OneActiveElsewhere wall_id ls =
    (a b : Layout)
    → In a ls
    → In b ls
    → a.is_active ≡ true
    → b.is_active ≡ true
    → a.wall_id ≡ b.wall_id
    → a.wall_id ≢ wall_id
    → a.id ≡ b.id

pub deactivate_fields :
    (wall_id id : ℕ) (l : Layout)
    → ((deactivate wall_id id l).id ≡ l.id) × ((deactivate wall_id id l).wall_id ≡ l.wall_id)
unfolding deactivate
deactivate_fields wall_id id l = ground arith

pub deactivate_active :
    (wall_id id : ℕ) (l : Layout)
    → (deactivate wall_id id l).is_active ≡ true
    → (l.is_active ≡ true) × (l.wall_id ≡ wall_id → l.id ≡ id)
unfolding deactivate
deactivate_active wall_id id l h = ground arith

deactivate-OneActive :
    (wall_id id : ℕ) (ls : List Layout)
    → OneActiveElsewhere wall_id ls
    → OneActive (map (deactivate wall_id id) ls)
deactivate-OneActive wall_id id ls h a b m n p q w =
    let (a₀, m₀, ea) = map-In (deactivate wall_id id) a ls m in
    let (b₀, n₀, eb) = map-In (deactivate wall_id id) b ls n in
    let (pa, ia) = deactivate_active wall_id id a₀ (rw ea at p) in
    let (pb, ib) = deactivate_active wall_id id b₀ (rw eb at q) in
    let (fa, wa) = deactivate_fields wall_id id a₀ in
    let (fb, wb) = deactivate_fields wall_id id b₀ in
    let walls : a₀.wall_id ≡ b₀.wall_id = cc in
    let same : a₀.id ≡ b₀.id = elim (Bool-cases (a₀.wall_id == wall_id)) [
      | inl e ↦ omega (
        arith,
        ia (eq_of_beq a₀.wall_id wall_id e),
        ib (sym walls ∙ eq_of_beq a₀.wall_id wall_id e),
      )
      | inr e ↦ h a₀ b₀ m₀ n₀ pa pb walls (ground arith)
    ] in
    cc

settle_active-OneActive :
    (active : Bool) (wall_id id : ℕ) (ls : List Layout)
    → OneActiveElsewhere wall_id ls
    → (active ≡ false → OneActive ls)
    → OneActive (settle_active active wall_id id ls)
unfolding settle_active
settle_active-OneActive true wall_id id ls h k = deactivate-OneActive wall_id id ls h
settle_active-OneActive false wall_id id ls h k = k refl

insert-Elsewhere :
    (row : Layout) (ls : List Layout) → OneActive ls → OneActiveElsewhere row.wall_id (row ∷ ls)
insert-Elsewhere row ls h a b (here e) n p q w ne = absurd (ne (ap (λ (l : Layout). l.wall_id) e))
insert-Elsewhere row ls h a b (there m) (here e) p q w ne =
    absurd (ne (w ∙ ap (λ (l : Layout). l.wall_id) e))
insert-Elsewhere row ls h a b (there m) (there n) p q w ne = h a b m n p q w

insert_inactive :
    (row : Layout) (ls : List Layout) → OneActive ls → row.is_active ≡ false → OneActive (row ∷ ls)
insert_inactive row ls h i a b (here e) n p q w = absurd (cc (e, i, p))
insert_inactive row ls h i a b (there m) (here e) p q w = absurd (cc (e, i, q))
insert_inactive row ls h i a b (there m) (there n) p q w = h a b m n p q w

-- The INSERT of `create_layout` and the UPDATE that follows it.
pub insert-OneActive :
    (row : Layout) (ls : List Layout)
    → OneActive ls
    → OneActive (settle_active row.is_active row.wall_id row.id (row ∷ ls))
insert-OneActive row ls h =
    settle_active-OneActive row.is_active row.wall_id row.id (row ∷ ls) (insert-Elsewhere row ls h)
      (insert_inactive row ls h)

pub rewrite-id : (id : ℕ) (payload : LayoutIn) (l : Layout) → (rewrite id payload l).id ≡ l.id
unfolding rewrite
rewrite-id id payload l = ground arith

-- A rewritten row is active on a wall as it was before, or has the payload's wall and activity.
rewrite_cases :
    (id : ℕ) (payload : LayoutIn) (l : Layout)
    → (rewrite id payload l ≡ l)
      ⊎ (((rewrite id payload l).wall_id ≡ payload.wall_id)
          × ((rewrite id payload l).is_active ≡ payload.is_active))
unfolding rewrite
rewrite_cases id payload l = elim (Bool-cases (l.id == id)) [
  | inl e ↦ inr (rw e (refl, refl))
  | inr e ↦ inl (rw e refl)
]

rewrite-Elsewhere :
    (id : ℕ) (payload : LayoutIn) (ls : List Layout)
    → OneActive ls
    → OneActiveElsewhere payload.wall_id (map (rewrite id payload) ls)
rewrite-Elsewhere id payload ls h a b m n p q w ne =
    let (a₀, m₀, ea) = map-In (rewrite id payload) a ls m in
    let (b₀, n₀, eb) = map-In (rewrite id payload) b ls n in
    elim (rewrite_cases id payload a₀) [
      | inl ka ↦ elim (rewrite_cases id payload b₀) [
        | inl kb ↦
            let xa : a ≡ a₀ = ea ∙ ka in
            let xb : b ≡ b₀ = eb ∙ kb in
            h a b (subst (λ l. In l ls) (sym xa) m₀) (subst (λ l. In l ls) (sym xb) n₀) p q w
        | inr kb ↦ absurd (ne (w ∙ ap (λ (l : Layout). l.wall_id) eb ∙ kb.0))
      ]
      | inr ka ↦ absurd (ne (ap (λ (l : Layout). l.wall_id) ea ∙ ka.0))
    ]

rewrite_inactive :
    (id : ℕ) (payload : LayoutIn) (ls : List Layout)
    → OneActive ls
    → payload.is_active ≡ false
    → OneActive (map (rewrite id payload) ls)
rewrite_inactive id payload ls h i a b m n p q w =
    let (a₀, m₀, ea) = map-In (rewrite id payload) a ls m in
    let (b₀, n₀, eb) = map-In (rewrite id payload) b ls n in
    elim (rewrite_cases id payload a₀) [
      | inl ka ↦ elim (rewrite_cases id payload b₀) [
        | inl kb ↦
            let xa : a ≡ a₀ = ea ∙ ka in
            let xb : b ≡ b₀ = eb ∙ kb in
            h a b (subst (λ l. In l ls) (sym xa) m₀) (subst (λ l. In l ls) (sym xb) n₀) p q w
        | inr kb ↦ absurd (cc (kb.1, i, q, eb))
      ]
      | inr ka ↦ absurd (cc (ka.1, i, p, ea))
    ]

-- The UPDATE of `update_layout` and the one that follows it.
pub rewrite-OneActive :
    (id : ℕ) (payload : LayoutIn) (ls : List Layout)
    → OneActive ls
    → OneActive (settle_active payload.is_active payload.wall_id id (map (rewrite id payload) ls))
rewrite-OneActive id payload ls h =
    settle_active-OneActive payload.is_active payload.wall_id id (map (rewrite id payload) ls)
      (rewrite-Elsewhere id payload ls h) (rewrite_inactive id payload ls h)
