-- ===== src/Mgmt/Consistency.antt =====
-- What the tables satisfy after every sequence of requests.
use airgap_videowall.Mgmt.Layouts.{find_layout}
use airgap_videowall.Mgmt.Catalogue.{has_wall, set_wall}
use airgap_videowall.Mgmt.Data.{Wall, Db, Layout}
use airgap_videowall.Prelude.{
  ℕ, ◌+◌, ◌<◌, ◌≡◌, refl, sym, ap, ◌∙◌, ◌⊎◌, inl, inr, Bool, true, some, List, [], ◌∷◌, map, arith,
  Bool-cases, ◌==◌, eq_of_beq, keep, In, any→In, here, there, In-keep_iff, map-In, nat_eq,
}
use airgap_videowall.Mgmt.Rows.{OneActive, UniqueIds}

-- The ids of the rows come from the sequence.
abbrev pub Issued : ℕ → List Layout → Type 0
Issued n ls = (l : Layout) → In l ls → l.id < n

-- The wall of a row is there: the foreign key.
abbrev pub Refers : List Wall → List Layout → Type 0
Refers walls ls = (l : Layout) → In l ls → (w : Wall) × In w walls × (w.id ≡ l.wall_id)

pub record IsConsistent (db : Db) : Type 0 where
  pub one_active : OneActive db.layouts
  pub unique_ids : UniqueIds db.layouts
  pub issued : Issued db.next_layout db.layouts
  pub refers : Refers db.walls db.layouts

pub map-UniqueIds :
    (f : Layout → Layout) (ls : List Layout)
    → ((l : Layout) → (f l).id ≡ l.id)
    → UniqueIds ls
    → UniqueIds (map f ls)
map-UniqueIds f ls k u a b m n e =
    let (a₀, m₀, ea) = map-In f a ls m in
    let (b₀, n₀, eb) = map-In f b ls n in cc (u a₀ b₀ m₀ n₀ (cc (k a₀, k b₀)))

pub map-Issued :
    (f : Layout → Layout) (n : ℕ) (ls : List Layout)
    → ((l : Layout) → (f l).id ≡ l.id)
    → Issued n ls
    → Issued n (map f ls)
map-Issued f n ls k i a m =
    let (a₀, m₀, e) = map-In f a ls m in omega (arith, ap (λ (l : Layout). l.id) e, k a₀, i a₀ m₀)

pub insert-UniqueIds :
    (row : Layout) (ls : List Layout) → Issued row.id ls → UniqueIds ls → UniqueIds (row ∷ ls)
insert-UniqueIds row ls i u a b (here e) (here f) k = e ∙ sym f
insert-UniqueIds row ls i u a b (here e) (there n) k =
    absurd (omega (arith, ap (λ (l : Layout). l.id) e, i b n))
insert-UniqueIds row ls i u a b (there m) (here f) k =
    absurd (omega (arith, ap (λ (l : Layout). l.id) f, i a m))
insert-UniqueIds row ls i u a b (there m) (there n) k = u a b m n k

pub insert-Issued :
    (row : Layout) (n : ℕ) (ls : List Layout) → row.id ≡ n → Issued n ls → Issued (n + 1) (row ∷ ls)
insert-Issued row n ls e i l (here f) = omega (arith, ap (λ (l : Layout). l.id) f)
insert-Issued row n ls e i l (there m) = omega (arith, i l m)

pub insert-Refers :
    (row : Layout) (walls : List Wall) (ls : List Layout)
    → (w : Wall) × In w walls × (w.id ≡ row.wall_id)
    → Refers walls ls
    → Refers walls (row ∷ ls)
insert-Refers row walls ls (w, m, k) r l (here e) =
    (w, m, k ∙ sym (ap (λ (l : Layout). l.wall_id) e))
insert-Refers row walls ls found r l (there m) = r l m

-- A statement that keeps a row's wall or moves it to a wall that is there.
pub map-Refers :
    (f : Layout → Layout) (walls : List Wall) (ls : List Layout)
    → ((l : Layout)
        → ((f l).wall_id ≡ l.wall_id) ⊎ ((w : Wall) × In w walls × (w.id ≡ (f l).wall_id)))
    → Refers walls ls
    → Refers walls (map f ls)
map-Refers f walls ls k r a m =
    let (a₀, m₀, e) = map-In f a ls m in
    let moved = ap (λ (l : Layout). l.wall_id) e in
    elim (k a₀) [
      | inl same ↦ let (w, n, i) = r a₀ m₀ in (w, n, i ∙ sym same ∙ sym moved)
      | inr (w, n, i) ↦ (w, n, i ∙ sym moved)
    ]

pub has_wall→In :
    (id : ℕ) (walls : List Wall) → has_wall id walls ≡ true → (w : Wall) × In w walls × (w.id ≡ id)
has_wall→In id walls h =
    let (w, m, e) = any→In (λ (w : Wall). w.id == id) walls h in (w, m, eq_of_beq w.id id e)

-- Rows that are kept keep what held of all.
module _ (p : Layout → Bool) (ls : List Layout) where
  pub kept : (l : Layout) → In l (keep p ls) → In l ls
  kept l m = ((In-keep_iff p l ls).0 m).0

  pub keep-OneActive : OneActive ls → OneActive (keep p ls)
  keep-OneActive h a b m n = h a b (kept a m) (kept b n)

  pub keep-UniqueIds : UniqueIds ls → UniqueIds (keep p ls)
  keep-UniqueIds u a b m n = u a b (kept a m) (kept b n)

pub set_wall-id : (new w : Wall) → (set_wall new w).id ≡ w.id
set_wall-id new w = elim (Bool-cases (w.id == new.id)) [
  | inl e ↦ rw e (sym (eq_of_beq w.id new.id e))
  | inr e ↦ rw e refl
]

pub find-In :
    (id : ℕ) (ls : List Layout) (l : Layout) → find_layout id ls ≡ some l → In l ls × (l.id ≡ id)
find-In id [] l h = absurd (cc)
find-In id (x ∷ ls) l h = elim (Bool-cases (x.id == id)) [
  | inl e ↦
      let found : some x ≡ some l = rw e at h in
      let same : x ≡ l = cc in
      (here (sym same), sym (ap (λ (l : Layout). l.id) same) ∙ eq_of_beq x.id id e)
  | inr e ↦ let (m, k) = find-In id ls l (rw e at h) in (there m, k)
]
