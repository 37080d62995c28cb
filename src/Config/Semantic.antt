-- ===== src/Config/Semantic.antt =====
-- services/vw-config/app/config_authority.py: `validate_semantic`, and what its silence means.

use airgap_videowall.Prelude.{
  String, ◌≡◌, refl, ◌≢◌, Bool, true, false, not, ◌&&◌, Option, none, some, List, [], ◌∷◌, ◌++◌,
  map, if◌then◌else◌, ◌==◌, keep, elem, All, In, string_eq, not-elem, subst, append-eq-nil,
  Bool-cases, ◌↔◌, arith, here, there, In-keep_iff, inl, elem_iff, inr, not-In, eq_iff, ap,
  eq_of_beq,
}
use airgap_videowall.Config.Data.{
  RawWall, RawSource, RawConfig, or_default, Fault, duplicate_wall, duplicate_source, shared_ids,
  missing_grid, missing_screens,
}

-- the loop with `seen`; `fault` makes the message
unfoldable pub duplicates : (String → Fault) → List String → List String → List Fault
duplicates fault seen [] = []
duplicates fault seen (x ∷ xs) =
    let rest = duplicates fault (x ∷ seen) xs in if elem x seen then fault x ∷ rest else rest

unfoldable pub is_some {ℓ} : {A : Type ℓ} → Option A → Bool
is_some none = false
is_some (some a) = true

-- `w.get("type", "") == name and key not in w`
unfoldable pub demand : Option String → String → Bool → Fault → List Fault
demand kind name present fault =
    if or_default kind "" == name && not present then fault ∷ [] else []

-- the two tests on a wall's type
unfoldable pub shape_faults : RawWall → List Fault
shape_faults w =
    demand w.kind "tiles" (is_some w.grid) (missing_grid (or_default w.id "?"))
    ++ demand w.kind "bigscreen" (is_some w.screens) (missing_screens (or_default w.id "?"))

unfoldable pub walls_faults : List RawWall → List Fault
walls_faults [] = []
walls_faults (w ∷ ws) = shape_faults w ++ walls_faults ws

abbrev pub raw_walls : RawConfig → List RawWall
raw_walls d = or_default d.walls []

abbrev pub raw_sources : RawConfig → List RawSource
raw_sources d = or_default d.sources []

abbrev pub raw_wall_ids : RawConfig → List String
raw_wall_ids d = map (λ (w : RawWall). or_default w.id "") (raw_walls d)

abbrev pub raw_source_ids : RawConfig → List String
raw_source_ids d = map (λ (s : RawSource). or_default s.id "") (raw_sources d)

-- `set(wall_ids) & set(source_ids)`
unfoldable pub overlap : List String → List String → List String
overlap xs ys = keep (λ x. elem x ys) xs

unfoldable pub overlap_faults : List String → List Fault
overlap_faults [] = []
overlap_faults (x ∷ xs) = shared_ids (x ∷ xs) ∷ []

unfoldable pub validate_semantic : RawConfig → List Fault
validate_semantic d =
    duplicates duplicate_wall [] (raw_wall_ids d)
    ++ (duplicates duplicate_source [] (raw_source_ids d)
        ++ (overlap_faults (overlap (raw_wall_ids d) (raw_source_ids d))
            ++ walls_faults (raw_walls d)))

-- No text occurs twice.
abbrev pub Distinct : List String → Type 0
Distinct [] = Unit
Distinct (x ∷ xs) = (¬ In x xs) × Distinct xs

-- A wall of tiles has a grid and a big screen its number of screens.
pub record HasShape (w : RawWall) : Type 0 where
  pub tiles : w.kind ≡ some "tiles" → w.grid ≢ none
  pub bigscreen : w.kind ≡ some "bigscreen" → w.screens ≢ none

pub record IsConsistent (d : RawConfig) : Type 0 where
  pub distinct_walls : Distinct (raw_wall_ids d)
  pub distinct_sources : Distinct (raw_source_ids d)
  pub disjoint : (x : String) → In x (raw_wall_ids d) → ¬ In x (raw_source_ids d)
  pub shapes : All HasShape (raw_walls d)

-- No text of the first list occurs in the second.
abbrev pub Fresh : List String → List String → Type 0
Fresh xs seen = (x : String) → In x xs → ¬ In x seen

Fresh-nil : (xs : List String) → Fresh xs []
Fresh-nil xs x m n = elim n [ ]

Fresh-cons :
    (x : String) (xs seen : List String) → ¬ In x seen → Fresh xs (x ∷ seen) → Fresh (x ∷ xs) seen
Fresh-cons x xs seen n f y (here e) s = n (subst (λ z. In z seen) e s)
Fresh-cons x xs seen n f y (there m) s = f y m (there s)

Fresh-seen :
    (x : String) (xs seen : List String) → ¬ In x xs → Fresh (x ∷ xs) seen → Fresh xs (x ∷ seen)
Fresh-seen x xs seen n f y m (here e) = n (subst (λ z. In z xs) e m)
Fresh-seen x xs seen n f y m (there s) = f y (there m) s

duplicates→Distinct :
    (fault : String → Fault) (seen xs : List String)
    → duplicates fault seen xs ≡ []
    → Distinct xs × Fresh xs seen
unfolding duplicates
duplicates→Distinct fault seen [] h = (tt, λ x m. elim m [ ])
duplicates→Distinct fault seen (x ∷ xs) h = elim (Bool-cases (elem x seen)) [
  | inl e ↦ absurd (ground arith)
  | inr e ↦
      let (d, f) = duplicates→Distinct fault (x ∷ seen) xs (rw e at h) in
      ((λ m. f x m (here refl), d), Fresh-cons x xs seen (not-In x seen e) f)
]

Distinct→duplicates :
    (fault : String → Fault) (seen xs : List String)
    → Distinct xs
    → Fresh xs seen
    → duplicates fault seen xs ≡ []
unfolding duplicates
Distinct→duplicates fault seen [] d f = refl
Distinct→duplicates fault seen (x ∷ xs) (n, d) f =
    rw (not-elem x seen (f x (here refl)))
      (Distinct→duplicates fault (x ∷ seen) xs d (Fresh-seen x xs seen n f))

is_some_iff {ℓ} : {A : Type ℓ} (o : Option A) → (is_some o ≡ true) ↔ (o ≢ none)
unfolding is_some
is_some_iff none = (λ h. absurd (cc), λ h. absurd (h refl))
is_some_iff (some a) = (λ h e. cc, λ h. refl)

demand_iff :
    (kind : Option String) (name : String) (present : Bool) (fault : Fault)
    → name ≢ ""
    → (demand kind name present fault ≡ []) ↔ (kind ≡ some name → present ≡ true)
unfolding demand
demand_iff none name present fault n = (λ h e. absurd (cc), λ h. ground (arith, eq_iff "" name))
demand_iff (some k) name true fault n = (λ h e. refl, λ h. ground arith)
demand_iff (some k) name false fault n = (
  λ h e. ground (arith, eq_iff k name),
  λ h. elim (Bool-cases (k == name)) [
    | inl e ↦ absurd (cc (h (ap some (eq_of_beq k name e))))
    | inr e ↦ rw e
  ],
)

tiles_named : ◌≢◌ {A = String} "tiles" ""
tiles_named = cc

bigscreen_named : ◌≢◌ {A = String} "bigscreen" ""
bigscreen_named = cc

shape_faults_iff : (w : RawWall) → (shape_faults w ≡ []) ↔ HasShape w
unfolding shape_faults
shape_faults_iff w =
    let grid =
      demand_iff w.kind "tiles" (is_some w.grid) (missing_grid (or_default w.id "?")) tiles_named in
    let screens =
      demand_iff w.kind "bigscreen" (is_some w.screens) (missing_screens (or_default w.id "?"))
        bigscreen_named in
    (
      λ h.
          let (a, b) = append-eq-nil (demand w.kind "tiles" (is_some w.grid) _) _ h in
          record {
            tiles = λ k. (is_some_iff w.grid).0 (grid.0 a k);
            bigscreen = λ k. (is_some_iff w.screens).0 (screens.0 b k);
          },
      λ s. rw (
        grid.1 (λ k. (is_some_iff w.grid).1 (s.tiles k)),
        screens.1 (λ k. (is_some_iff w.screens).1 (s.bigscreen k)),
      ),
    )

walls_faults→All : (ws : List RawWall) → walls_faults ws ≡ [] → All HasShape ws
unfolding walls_faults
walls_faults→All [] h = tt
walls_faults→All (w ∷ ws) h =
    let (a, b) = append-eq-nil (shape_faults w) (walls_faults ws) h in
    ((shape_faults_iff w).0 a, walls_faults→All ws b)

All→walls_faults : (ws : List RawWall) → All HasShape ws → walls_faults ws ≡ []
unfolding walls_faults
All→walls_faults [] s = refl
All→walls_faults (w ∷ ws) (a, b) = rw ((shape_faults_iff w).1 a, All→walls_faults ws b)

overlap_faults_iff : (xs : List String) → (overlap_faults xs ≡ []) ↔ (xs ≡ [])
unfolding overlap_faults
overlap_faults_iff [] = (λ h. refl, λ h. refl)
overlap_faults_iff (x ∷ xs) = (λ h. absurd (cc), λ h. absurd (cc))

overlap→disjoint : (xs ys : List String) → overlap xs ys ≡ [] → (x : String) → In x xs → ¬ In x ys
unfolding overlap
overlap→disjoint xs ys h x m n =
    elim (subst (In x) h ((In-keep_iff (λ x. elem x ys) x xs).1 (m, (elem_iff x ys).1 n))) [ ]

disjoint→overlap : (xs ys : List String) → ((x : String) → In x xs → ¬ In x ys) → overlap xs ys ≡ []
unfolding overlap
disjoint→overlap [] ys d = refl
disjoint→overlap (x ∷ xs) ys d =
    rw (not-elem x ys (d x (here refl))) (disjoint→overlap xs ys (λ y m. d y (there m)))

-- `validate_semantic` is silent exactly on the consistent documents.
pub validate_semantic_iff : (d : RawConfig) → (validate_semantic d ≡ []) ↔ IsConsistent d
unfolding validate_semantic
validate_semantic_iff d = (
  λ h.
      let (a, h₁) = append-eq-nil (duplicates duplicate_wall [] (raw_wall_ids d)) _ h in
      let (b, h₂) = append-eq-nil (duplicates duplicate_source [] (raw_source_ids d)) _ h₁ in
      let (c, s) =
        append-eq-nil (overlap_faults (overlap (raw_wall_ids d) (raw_source_ids d))) _ h₂ in
      record {
        distinct_walls = (duplicates→Distinct duplicate_wall [] (raw_wall_ids d) a).0;
        distinct_sources = (duplicates→Distinct duplicate_source [] (raw_source_ids d) b).0;
        disjoint =
            overlap→disjoint (raw_wall_ids d) (raw_source_ids d) ((overlap_faults_iff _).0 c);
        shapes = walls_faults→All (raw_walls d) s;
      },
  λ v. rw (
    Distinct→duplicates duplicate_wall [] (raw_wall_ids d) v.distinct_walls (Fresh-nil _),
    Distinct→duplicates duplicate_source [] (raw_source_ids d) v.distinct_sources (Fresh-nil _),
    (overlap_faults_iff _).1 (disjoint→overlap (raw_wall_ids d) (raw_source_ids d) v.disjoint),
    All→walls_faults (raw_walls d) v.shapes,
  ),
)
