-- ===== src/Prelude/Membership.antt =====
-- Membership as a type, and what the Boolean searches say in its terms.

use mathlib.Core.Path.{◌≡◌, refl, sym, ap, subst}
use mathlib.Core.Bool.{Bool, true, false}
use mathlib.Core.Logic.{inl, inr, ◌↔◌, ◌⊎◌}
use mathlib.Core.List.{List, [], ◌∷◌, ◌++◌, map}
use native.Mathlib.Omega.{arith}
use airgap_videowall.Prelude.Tests.{Eq, ◌==◌, Bool-cases}
use airgap_videowall.Prelude.Lists.{keep, any, all, elem, subset, intersects}

pub data In {ℓ} {A : Type ℓ} (x : A) : List A → Type ℓ where
  here : {y : A} {ys : List A} → x ≡ y → In x (y ∷ ys)
  there : {y : A} {ys : List A} → In x ys → In x (y ∷ ys)

module _ {ℓ} {A : Type ℓ} (p : A → Bool) where
  pub any→In : (xs : List A) → any p xs ≡ true → (x : A) × In x xs × (p x ≡ true)
  any→In [] h = cc
  any→In (x ∷ xs) h = elim (Bool-cases (p x)) [
    | inl e ↦ (x, here refl, e)
    | inr e ↦ let (y, m, q) = any→In xs (rw e at h) in (y, there m, q)
  ]

  pub In→any : (x : A) (xs : List A) → In x xs → p x ≡ true → any p xs ≡ true
  In→any x [] m h = elim m [ ]
  In→any x (y ∷ ys) (here e) h = rw (← e, h)
  In→any x (y ∷ ys) (there m) h = ground (arith, In→any x ys m h)

  pub all→In : (xs : List A) → all p xs ≡ true → (x : A) → In x xs → p x ≡ true
  all→In [] h x m = elim m [ ]
  all→In (y ∷ ys) h x (here e) = rw e (ground arith)
  all→In (y ∷ ys) h x (there m) = all→In ys (ground arith) x m

  pub In→all : (xs : List A) → ((x : A) → In x xs → p x ≡ true) → all p xs ≡ true
  In→all [] h = refl
  In→all (x ∷ xs) h = ground (arith, h x (here refl), In→all xs (λ y m. h y (there m)))

module _ {ℓ} {A : Type ℓ} ⦃e : Eq A⦄ where
  pub elem_iff : (x : A) (xs : List A) → (elem x xs ≡ true) ↔ In x xs
  elem_iff x xs = (
    λ h.
        let (y, m, q) = any→In (λ y. x == y) xs h in
        subst (λ z. In z xs) (sym ((e.same_iff x y).0 q)) m,
    λ m. In→any (λ y. x == y) x xs m ((e.same_iff x x).1 refl),
  )

  pub not-In : (x : A) (xs : List A) → elem x xs ≡ false → ¬ In x xs
  not-In x xs h m = cc (h, (elem_iff x xs).1 m)

  pub not-elem : (x : A) (xs : List A) → ¬ In x xs → elem x xs ≡ false
  not-elem x xs h = elim (Bool-cases (elem x xs)) [
    | inl e ↦ absurd (h ((elem_iff x xs).0 e))
    | inr e ↦ e
  ]

  pub subset_iff : (xs ys : List A) → (subset xs ys ≡ true) ↔ ((x : A) → In x xs → In x ys)
  subset_iff xs ys = (
    λ h x m. (elem_iff x ys).0 (all→In (λ y. elem y ys) xs h x m),
    λ h. In→all (λ y. elem y ys) xs (λ x m. (elem_iff x ys).1 (h x m)),
  )

  pub intersects_iff : (xs ys : List A) → (intersects xs ys ≡ true) ↔ ((x : A) × In x xs × In x ys)
  intersects_iff xs ys = (
    λ h. let (x, m, q) = any→In (λ y. elem y ys) xs h in (x, m, (elem_iff x ys).0 q),
    λ (x, m, n). In→any (λ y. elem y ys) x xs m ((elem_iff x ys).1 n),
  )

module _ {ℓ} {A : Type ℓ} (p : A → Bool) where
  In-keep_head :
      (x y : A) (ys : List A)
      → p y ≡ true
      → (In x (keep p ys) → In x ys × (p x ≡ true))
      → In x (y ∷ keep p ys)
      → In x (y ∷ ys) × (p x ≡ true)
  In-keep_head x y ys e ih (here q) = (here q, rw q e)
  In-keep_head x y ys e ih (there n) = (there (ih n).0, (ih n).1)

  In-keep_of : (x : A) (xs : List A) → In x (keep p xs) → In x xs × (p x ≡ true)
  In-keep_of x [] m = elim m [ ]
  In-keep_of x (y ∷ ys) m = elim (Bool-cases (p y)) [
    | inl e ↦ In-keep_head x y ys e (In-keep_of x ys) (rw e at m)
    | inr e ↦ let (n, h) = In-keep_of x ys (rw e at m) in (there n, h)
  ]

  keep-In : (x : A) (xs : List A) → In x xs → p x ≡ true → In x (keep p xs)
  keep-In x [] m h = elim m [ ]
  keep-In x (y ∷ ys) (here e) h = rw (← e, h) (here refl)
  keep-In x (y ∷ ys) (there m) h = elim (Bool-cases (p y)) [
    | inl e ↦ rw e (there (keep-In x ys m h))
    | inr e ↦ rw e (keep-In x ys m h)
  ]

  pub In-keep_iff : (x : A) (xs : List A) → In x (keep p xs) ↔ (In x xs × (p x ≡ true))
  In-keep_iff x xs = (In-keep_of x xs, λ (m, h). keep-In x xs m h)

pub In-map {ℓ κ} :
    {A : Type ℓ} {B : Type κ} (f : A → B) (x : A) (xs : List A) → In x xs → In (f x) (map f xs)
In-map f x [] m = elim m [ ]
In-map f x (y ∷ ys) (here e) = here (ap f e)
In-map f x (y ∷ ys) (there m) = there (In-map f x ys m)

pub map-In {ℓ κ} :
    {A : Type ℓ} {B : Type κ} (f : A → B) (y : B) (xs : List A)
    → In y (map f xs)
    → (x : A) × In x xs × (y ≡ f x)
map-In f y [] m = elim m [ ]
map-In f y (x ∷ xs) (here e) = (x, here refl, e)
map-In f y (x ∷ xs) (there m) = let (z, n, e) = map-In f y xs m in (z, there n, e)

module _ {ℓ} {A : Type ℓ} (x : A) where
  pub In-append_left : (xs ys : List A) → In x xs → In x (xs ++ ys)
  In-append_left [] ys m = elim m [ ]
  In-append_left (z ∷ xs) ys (here e) = here e
  In-append_left (z ∷ xs) ys (there m) = there (In-append_left xs ys m)

  pub In-append_right : (xs ys : List A) → In x ys → In x (xs ++ ys)
  In-append_right [] ys m = m
  In-append_right (z ∷ xs) ys m = there (In-append_right xs ys m)

  pub In-append_cases : (xs ys : List A) → In x (xs ++ ys) → In x xs ⊎ In x ys
  In-append_cases [] ys m = inr m
  In-append_cases (z ∷ xs) ys (here e) = inl (here e)
  In-append_cases (z ∷ xs) ys (there m) = elim (In-append_cases xs ys m) [
    | inl n ↦ inl (there n)
    | inr n ↦ inr n
  ]
