-- ===== src/Reconcile/Sorting.antt =====
-- Python's `sorted` on texts, which compares code points, and on a set of texts.
use Prim.Native.Char.{code}
use text.Mathlib.TextEquality.{Char-path}
use airgap_videowall.Prelude.{
  String, ◌≡◌, refl, ◌∙◌, inl, inr, Bool, true, false, List, [], ◌∷◌, arith, ltb, if◌then◌else◌,
  Bool-cases, In, here, there, subst,
}

-- s < t
unfoldable pub before : String → String → Bool
before String.[] String.[] = false
before String.[] (String.◌∷◌ d t) = true
before (String.◌∷◌ c s) String.[] = false
before (String.◌∷◌ c s) (String.◌∷◌ d t) =
    let rest = before s t in
    if ltb (code c) (code d) then true else if ltb (code d) (code c) then false else rest

before_asym : (s t : String) → before s t ≡ true → before t s ≡ false
unfolding before
before_asym String.[] String.[] h = absurd (cc)
before_asym String.[] (String.◌∷◌ d t) h = refl
before_asym (String.◌∷◌ c s) String.[] h = absurd (cc)
before_asym (String.◌∷◌ c s) (String.◌∷◌ d t) h = ground (arith, before_asym s t)

before_total : (s t : String) → before s t ≡ false → before t s ≡ false → s ≡ t
unfolding before
before_total String.[] String.[] h k = refl
before_total String.[] (String.◌∷◌ d t) h k = absurd (cc)
before_total (String.◌∷◌ c s) String.[] h k = absurd (cc)
before_total (String.◌∷◌ c s) (String.◌∷◌ d t) h k =
    let same : c ≡ d = Char-path c d (ground arith) in
    let rest : s ≡ t = before_total s t (ground arith) (ground arith) in cc (same, rest)

-- one step of `sorted(set(xs))`
unfoldable pub insert_once : String → List String → List String
insert_once x [] = x ∷ []
insert_once x (y ∷ ys) =
    let rest = insert_once x ys in
    if before x y then x ∷ y ∷ ys else if before y x then y ∷ rest else y ∷ ys

unfoldable pub sorted_set : List String → List String
unfolding insert_once
sorted_set [] = []
sorted_set (x ∷ xs) = insert_once x (sorted_set xs)

-- one step of `sorted(xs)`
unfoldable pub insert_text : String → List String → List String
insert_text x [] = x ∷ []
insert_text x (y ∷ ys) = let rest = insert_text x ys in if before y x then y ∷ rest else x ∷ y ∷ ys

unfoldable pub sorted : List String → List String
unfolding insert_text
sorted [] = []
sorted (x ∷ xs) = insert_text x (sorted xs)

-- Each text comes before the next.
abbrev pub Ascending : List String → Type 0
Ascending [] = Unit
Ascending (x ∷ []) = Unit
Ascending (x ∷ y ∷ ys) = (before x y ≡ true) × Ascending (y ∷ ys)

-- The first text of the list, if there is one, comes after the text.
abbrev Above : String → List String → Type 0
Above y [] = Unit
Above y (z ∷ zs) = before y z ≡ true

cons-Ascending : (y : String) (zs : List String) → Above y zs → Ascending zs → Ascending (y ∷ zs)
cons-Ascending y [] b a = tt
cons-Ascending y (z ∷ zs) b a = (b, a)

uncons-Ascending : (y : String) (zs : List String) → Ascending (y ∷ zs) → Above y zs × Ascending zs
uncons-Ascending y [] a = (tt, tt)
uncons-Ascending y (z ∷ zs) a = a

insert_once-Above :
    (x y : String) (zs : List String) → before y x ≡ true → Above y zs → Above y (insert_once x zs)
unfolding insert_once
insert_once-Above x y [] h a = h
insert_once-Above x y (z ∷ zs) h a = elim (Bool-cases (before x z)) [
  | inl e ↦ rw e h
  | inr e ↦ elim (Bool-cases (before z x)) [ inl f ↦ rw (e, f) a | inr f ↦ rw (e, f) a ]
]

insert_once-Ascending :
    (x : String) (ys : List String) → Ascending ys → Ascending (insert_once x ys)
unfolding insert_once
insert_once-Ascending x [] a = tt
insert_once-Ascending x (y ∷ ys) a = elim (Bool-cases (before x y)) [
  | inl e ↦ rw e (e, a)
  | inr e ↦ elim (Bool-cases (before y x)) [
    | inr f ↦ rw (e, f) a
    | inl f ↦
        let (b, c) = uncons-Ascending y ys a in
        rw (e, f)
          (cons-Ascending y (insert_once x ys) (insert_once-Above x y ys f b)
            (insert_once-Ascending x ys c))
  ]
]

pub sorted_set-Ascending : (xs : List String) → Ascending (sorted_set xs)
unfolding sorted_set
sorted_set-Ascending [] = tt
sorted_set-Ascending (x ∷ xs) = insert_once-Ascending x (sorted_set xs) (sorted_set-Ascending xs)

pub sorted-Ascending : (xs : List String) → Ascending xs → sorted xs ≡ xs
unfolding sorted insert_text
sorted-Ascending [] a = refl
sorted-Ascending (x ∷ []) a = refl
sorted-Ascending (x ∷ y ∷ ys) (b, a) = rw (sorted-Ascending (y ∷ ys) a, before_asym x y b) refl

-- What goes past the first text of a list.
push :
    {x y z : String} {ys zs : List String}
    → (In z (x ∷ ys) → In z zs)
    → In z (x ∷ y ∷ ys)
    → In z (y ∷ zs)
push f (here e) = there (f (here e))
push f (there (here e)) = here e
push f (there (there m)) = there (f (there m))

behind :
    {x y z : String} {ys zs : List String}
    → (In z zs → In z (x ∷ ys))
    → In z (y ∷ zs)
    → In z (x ∷ y ∷ ys)
behind f (here e) = there (here e)
behind f (there m) = elim (f m) [ here e ↦ here e | there n ↦ there (there n) ]

within : {x z : String} {xs ys : List String} → (In z xs → In z ys) → In z (x ∷ xs) → In z (x ∷ ys)
within f (here e) = here e
within f (there m) = there (f m)

drop_first : {x y z : String} {ys : List String} → x ≡ y → In z (x ∷ y ∷ ys) → In z (y ∷ ys)
drop_first same (here e) = here (e ∙ same)
drop_first same (there m) = m

In-insert_text : (x z : String) (ys : List String) → In z (x ∷ ys) → In z (insert_text x ys)
unfolding insert_text
In-insert_text x z [] m = m
In-insert_text x z (y ∷ ys) m = elim (Bool-cases (before y x)) [
  | inr e ↦ rw e m
  | inl e ↦ rw e (push (In-insert_text x z ys) m)
]

pub In-sorted : (z : String) (xs : List String) → In z xs → In z (sorted xs)
unfolding sorted
In-sorted z [] m = elim m [ ]
In-sorted z (x ∷ xs) (here e) = In-insert_text x z (sorted xs) (here e)
In-sorted z (x ∷ xs) (there m) = In-insert_text x z (sorted xs) (there (In-sorted z xs m))

In-insert_once : (x z : String) (ys : List String) → In z (x ∷ ys) → In z (insert_once x ys)
unfolding insert_once
In-insert_once x z [] m = m
In-insert_once x z (y ∷ ys) m = elim (Bool-cases (before x y)) [
  | inl e ↦ rw e m
  | inr e ↦ elim (Bool-cases (before y x)) [
    | inl f ↦ rw (e, f) (push (In-insert_once x z ys) m)
    | inr f ↦ rw (e, f) (drop_first (before_total x y e f) m)
  ]
]

pub In-sorted_set : (z : String) (xs : List String) → In z xs → In z (sorted_set xs)
unfolding sorted_set
In-sorted_set z [] m = elim m [ ]
In-sorted_set z (x ∷ xs) (here e) = In-insert_once x z (sorted_set xs) (here e)
In-sorted_set z (x ∷ xs) (there m) =
    In-insert_once x z (sorted_set xs) (there (In-sorted_set z xs m))

insert_once-In : (x z : String) (ys : List String) → In z (insert_once x ys) → In z (x ∷ ys)
unfolding insert_once
insert_once-In x z [] m = m
insert_once-In x z (y ∷ ys) m = elim (Bool-cases (before x y)) [
  | inl e ↦ subst (In z) (rw e refl) m
  | inr e ↦ elim (Bool-cases (before y x)) [
    | inl f ↦ behind (insert_once-In x z ys) (subst (In z) (rw (e, f) refl) m)
    | inr f ↦ there (subst (In z) (rw (e, f) refl) m)
  ]
]

pub sorted_set-In : (z : String) (xs : List String) → In z (sorted_set xs) → In z xs
unfolding sorted_set
sorted_set-In z [] m = elim m [ ]
sorted_set-In z (x ∷ xs) m = within (sorted_set-In z xs) (insert_once-In x z (sorted_set xs) m)
