-- ===== src/Mgmt/Elements.antt =====
-- The elements of a value, as the loops over the roles find them, and checks that pass.

use airgap_videowall.Policy.Service.{iterate}
use airgap_videowall.Values.{
  Value, str, obj, bool, num, list, other, null, truthy, or_else, nil, cons, field, end,
}
use airgap_videowall.Mgmt.Users.{Checked, passed, texts, ◌>>=◌, refused, or_crash}
use airgap_videowall.Prelude.{
  String, ◌≡◌, refl, ap, ◌↔◌, some, List, In, ◌∷◌, here, there, [], Option, ◌≢◌, false, Bool-cases,
  inl, subst, sym, ◌∙◌, none, inr, string_eq, if◌then◌else◌, eq_of_beq, Bool, not, true,
}

-- The text `r` is an element of `v`.
abbrev pub Listed : Value → String → Type 0
Listed v r = (vs : List Value) × (iterate v ≡ some vs) × In (str r) vs

pub some-injective : {A : Type 0} {a b : A} → some a ≡ some b → a ≡ b
some-injective {A} {a} h = ap (λ o. elim o [ none ↦ a | some c ↦ c ]) h

pub passed-injective : {A : Type 0} {a b : A} → passed a ≡ passed b → a ≡ b
passed-injective {A} {a} h = ap (λ c. elim c [ refused e ↦ a | passed b ↦ b ]) h

pub then_passed :
    {A B : Type 0} (c : Checked A) (f : A → Checked B) {b : B}
    → (c >>= f) ≡ passed b
    → (a : A) × (c ≡ passed a) × (f a ≡ passed b)
then_passed (refused e) f h = absurd (cc)
then_passed (passed a) f h = (a, refl, h)

str-injective : {s t : String} → str s ≡ str t → s ≡ t
str-injective {s} h = ap (λ v. elim v [ str u ↦ u | _ ↦ s ]) h

no_text_iff :
    {r : String} {v : Value} {vs : List Value} {rs : List String}
    → str r ≢ v
    → In r rs ↔ In (str r) vs
    → In r rs ↔ In (str r) (v ∷ vs)
no_text_iff apart iff =
    (λ m. there (iff.0 m), λ m. elim m [ here e ↦ absurd (apart e) | there n ↦ iff.1 n ])

pub texts_iff : (r : String) (vs : List Value) → In r (texts vs) ↔ In (str r) vs
unfolding texts
texts_iff r [] = (λ m. elim m [ ], λ m. elim m [ ])
texts_iff r (str s ∷ vs) = (
  λ m. elim m [ here e ↦ here (ap str e) | there n ↦ there ((texts_iff r vs).0 n) ],
  λ m. elim m [ here e ↦ here (str-injective e) | there n ↦ there ((texts_iff r vs).1 n) ],
)
texts_iff r (null ∷ vs) = no_text_iff (λ e. absurd (cc)) (texts_iff r vs)
texts_iff r (bool b ∷ vs) = no_text_iff (λ e. absurd (cc)) (texts_iff r vs)
texts_iff r (num n ∷ vs) = no_text_iff (λ e. absurd (cc)) (texts_iff r vs)
texts_iff r (list is ∷ vs) = no_text_iff (λ e. absurd (cc)) (texts_iff r vs)
texts_iff r (obj fs ∷ vs) = no_text_iff (λ e. absurd (cc)) (texts_iff r vs)
texts_iff r (other s b n ∷ vs) = no_text_iff (λ e. absurd (cc)) (texts_iff r vs)

not-false : (b : Bool) → not b ≡ false → b ≡ true
not-false true h = refl
not-false false h = absurd (cc)

-- A value that counts as false has no elements.
falsy_empty : (v : Value) (vs : List Value) → truthy v ≡ false → iterate v ≡ some vs → [] ≡ vs
unfolding truthy iterate
falsy_empty null vs f h = absurd (cc)
falsy_empty (bool b) vs f h = absurd (cc)
falsy_empty (num n) vs f h = absurd (cc)
falsy_empty (str s) vs f h =
    let empty = eq_of_beq s "" (not-false _ f) in
    some-injective (subst (λ t. iterate (str t) ≡ some vs) empty h)
falsy_empty (list nil) vs f h = some-injective h
falsy_empty (list (cons x xs)) vs f h = absurd (cc)
falsy_empty (obj end) vs f h = some-injective h
falsy_empty (obj (field k x fs)) vs f h = absurd (cc)
falsy_empty (other s b n) vs f h = absurd (cc)

pub or_empty_iff :
    (v : Value) (vs : List Value) (r : String)
    → iterate (or_else v (list nil)) ≡ some vs
    → In (str r) vs ↔ Listed v r
unfolding iterate
or_empty_iff v vs r h = elim (Bool-cases (truthy v)) [
  | inl t ↦
      let is : iterate v ≡ some vs =
        subst (λ b. iterate (if b then v else list nil) ≡ some vs) t h in
      (λ m. (vs, is, m), λ (us, e, m). subst (In (str r)) (some-injective (sym e ∙ is)) m)
  | inr f ↦
      let none_in : [] ≡ vs =
        some-injective (subst (λ b. iterate (if b then v else list nil) ≡ some vs) f h) in
      (
        λ m. absurd (elim (subst (In (str r)) (sym none_in) m) [ ]),
        λ (us, e, m). absurd (elim (subst (In (str r)) (sym (falsy_empty v us f e)) m) [ ]),
      )
]

pub or_crash-some : {A : Type 0} (o : Option A) {a : A} → or_crash o ≡ passed a → o ≡ some a
or_crash-some none h = absurd (cc)
or_crash-some (some b) h = ap some (passed-injective h)

pub iff_trans : {A B C : Type 0} → A ↔ B → B ↔ C → A ↔ C
iff_trans p q = (λ a. q.0 (p.0 a), λ c. p.1 (q.1 c))
