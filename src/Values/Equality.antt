-- ===== src/Values/Equality.antt =====
-- Python's `==` on the values of JSON: `True` is 1 and `False` is 0, and a mapping's order does not
-- count. Scalars of other types are compared by their text.
use airgap_videowall.Prelude.{
  ℕ, suc, String, ◌≡◌, inl, inr, Bool, true, false, ◌&&◌, Option, none, some, arith, Bool-cases,
  ◌==◌, eq_of_beq, string_eq, nat_eq, sym, ap, refl, subst, beq_self, ◌∙◌, nat_beq,
}
use airgap_videowall.Values.Numbers.{ℤ, pos, int_eq}
use airgap_videowall.Values.{
  Value, Items, Fields, null, bool, num, str, list, obj, other, nil, cons, end, field, get_field,
  has_field,
}

unfoldable pub int_value : Value → Option ℤ
int_value (bool true) = some (pos 1)
int_value (bool false) = some (pos 0)
int_value (num n) = some n
int_value _ = none

-- len(d)
unfoldable pub count_fields : Fields → ℕ
count_fields end = 0
count_fields (field k v fs) = suc (count_fields fs)

abbrev same_int : Option ℤ → Option ℤ → Bool
same_int (some a) (some b) = a == b
same_int _ _ = false

-- a == b
unfoldable mutual
  unfolding int_value count_fields

  pub same_value : Value → Value → Bool
  same_value null null = true
  same_value (str s) (str t) = s == t
  same_value (other s _ _) (other t _ _) = s == t
  same_value (list xs) (list ys) = same_items xs ys
  same_value (obj fs) (obj gs) = (count_fields fs == count_fields gs) && same_fields fs gs
  same_value a b = same_int (int_value a) (int_value b)

  pub same_items : Items → Items → Bool
  same_items nil nil = true
  same_items (cons x xs) (cons y ys) = same_value x y && same_items xs ys
  same_items _ _ = false

  pub same_fields : Fields → Fields → Bool
  same_fields end gs = true
  same_fields (field k v fs) gs =
      has_field gs k && (same_value v (get_field gs k) && same_fields fs gs)

pub both : (a b : Bool) → (a && b) ≡ true → (a ≡ true) × (b ≡ true)
both true true h = (refl, refl)
both true false h = absurd (cc)
both false b h = absurd (cc)

same_fields-get :
    (fs gs : Fields) (k : String)
    → same_fields fs gs ≡ true
    → has_field fs k ≡ true
    → (has_field gs k ≡ true) × (same_value (get_field fs k) (get_field gs k) ≡ true)
unfolding same_value has_field get_field
same_fields-get end gs k h m = absurd (cc)
same_fields-get (field j v fs) gs k h m =
    let (a, h') = both (has_field gs j) _ h in
    let (b, c) = both (same_value v (get_field gs j)) _ h' in
    elim (Bool-cases (j == k)) [
      | inl e ↦
          let same = eq_of_beq j k e in
          rw e (
            subst (λ i. has_field gs i ≡ true) same a,
            subst (λ i. same_value v (get_field gs i) ≡ true) same b,
          )
      | inr e ↦ rw e (same_fields-get fs gs k c (rw e at m))
    ]

-- What a value is equal to.
null-inv : (b : Value) → same_value null b ≡ true → b ≡ null
unfolding same_value
null-inv null h = refl
null-inv _ h = absurd (ground arith)

list-inv :
    (xs : Items) (b : Value)
    → same_value (list xs) b ≡ true
    → (ys : Items) × (b ≡ list ys) × (same_items xs ys ≡ true)
unfolding same_value
list-inv xs (list ys) h = (ys, refl, h)
list-inv xs _ h = absurd (ground arith)

obj-inv :
    (fs : Fields) (b : Value)
    → same_value (obj fs) b ≡ true
    → (gs : Fields) × (b ≡ obj gs)
      × (count_fields fs ≡ count_fields gs)
      × (same_fields fs gs ≡ true)
unfolding same_value
obj-inv fs (obj gs) h =
    let (a, b) = both (count_fields fs == count_fields gs) _ h in
    (gs, refl, eq_of_beq (count_fields fs) (count_fields gs) a, b)
obj-inv fs _ h = absurd (ground arith)

str-inv : (s : String) (b : Value) → same_value (str s) b ≡ true → b ≡ str s
unfolding same_value
str-inv s (str t) h = ap str (sym (eq_of_beq s t h))
str-inv s _ h = absurd (ground arith)

other-inv :
    (s : String) (x : Bool) (n : Option ℤ) (b : Value)
    → same_value (other s x n) b ≡ true
    → (y : Bool) × (m : Option ℤ) × (b ≡ other s y m)
unfolding same_value
other-inv s x n (other t y m) h = (y, m, ap (λ r. other r y m) (sym (eq_of_beq s t h)))
other-inv s x n _ h = absurd (ground arith)

abbrev IsInt : Value → ℤ → Type 0
IsInt v n = int_value v ≡ some n

bool-inv :
    (x : Bool) (b : Value) → same_value (bool x) b ≡ true → (n : ℤ) × IsInt (bool x) n × IsInt b n
unfolding same_value
bool-inv true (bool true) h = (pos 1, refl, refl)
bool-inv false (bool false) h = (pos 0, refl, refl)
bool-inv true (num n) h = (pos 1, refl, ap some (sym (eq_of_beq (pos 1) n h)))
bool-inv false (num n) h = (pos 0, refl, ap some (sym (eq_of_beq (pos 0) n h)))
bool-inv true _ h = absurd (ground arith)
bool-inv false _ h = absurd (ground arith)

num-inv : (n : ℤ) (b : Value) → same_value (num n) b ≡ true → (m : ℤ) × IsInt (num n) m × IsInt b m
unfolding same_value
num-inv n (bool true) h = (n, refl, ap some (sym (eq_of_beq n (pos 1) h)))
num-inv n (bool false) h = (n, refl, ap some (sym (eq_of_beq n (pos 0) h)))
num-inv n (num m) h = (n, refl, ap some (sym (eq_of_beq n m h)))
num-inv n _ h = absurd (cc)

same_int-some : (a b : Option ℤ) (n : ℤ) → a ≡ some n → b ≡ some n → same_int a b ≡ true
same_int-some a b n h k = rw (h, k) (beq_self n)

same_value-int : (a b : Value) (n : ℤ) → IsInt a n → IsInt b n → same_value a b ≡ true
unfolding same_value
same_value-int (bool x) (bool y) n h k =
    same_int-some (int_value (bool x)) (int_value (bool y)) n h k
same_value-int (bool x) (num y) n h k = same_int-some (int_value (bool x)) (some y) n h k
same_value-int (num x) (bool y) n h k = same_int-some (some x) (int_value (bool y)) n h k
same_value-int (num x) (num y) n h k = same_int-some (some x) (some y) n h k
same_value-int (bool x) _ n h k = absurd (cc)
same_value-int (num x) _ n h k = absurd (cc)
same_value-int _ b n h k = absurd (cc)

-- Through a value with an integer value, equality goes on.
through_int :
    (a b c : Value) (n : ℤ) → IsInt a n → IsInt b n → same_value b c ≡ true → same_value a c ≡ true
unfolding same_value
through_int a (bool y) c n h k q =
    let (m, e, f) = bool-inv y c q in
    let same : some m ≡ some n = sym e ∙ k in same_value-int a c n h (f ∙ same)
through_int a (num y) c n h k q =
    let (m, e, f) = num-inv y c q in
    let same : some m ≡ some n = sym e ∙ k in same_value-int a c n h (f ∙ same)
through_int a _ c n h k q = absurd (cc)

mutual
  unfolding same_value

  trans_value :
      (a b c : Value) → same_value a b ≡ true → same_value b c ≡ true → same_value a c ≡ true
  trans_value null b c h k = let e = null-inv b h in rw e at k
  trans_value (bool x) b c h k = let (n, e, f) = bool-inv x b h in through_int (bool x) b c n e f k
  trans_value (num x) b c h k = let (n, e, f) = num-inv x b h in through_int (num x) b c n e f k
  trans_value (str s) b c h k = let e = str-inv s b h in rw e at k
  trans_value (list xs) b c h k =
      let (ys, e, p) = list-inv xs b h in
      let (zs, f, q) = list-inv ys c (rw e at k) in rw f (trans_items xs ys zs p q)
  trans_value (obj fs) b c h k =
      let (gs, e, n, p) = obj-inv fs b h in
      let (hs, f, m, q) = obj-inv gs c (rw e at k) in
      let sizes : nat_beq (count_fields fs) (count_fields hs) ≡ true =
        rw (n, m) (beq_self (count_fields hs)) in
      rw (f, sizes) (trans_fields fs gs hs p q)
  trans_value (other s x n) b c h k =
      let (y, m, e) = other-inv s x n b h in
      let k' : same_value (other s y m) c ≡ true = rw e at k in
      let (z, l, f) = other-inv s y m c k' in rw f (beq_self s)

  trans_items :
      (xs ys zs : Items)
      → same_items xs ys ≡ true
      → same_items ys zs ≡ true
      → same_items xs zs ≡ true
  trans_items nil nil zs h k = k
  trans_items nil (cons y ys) zs h k = absurd (cc)
  trans_items (cons x xs) nil zs h k = absurd (cc)
  trans_items (cons x xs) (cons y ys) nil h k = absurd (cc)
  trans_items (cons x xs) (cons y ys) (cons z zs) h k =
      let (a, b) = both (same_value x y) _ h in
      let (c, d) = both (same_value y z) _ k in
      rw (trans_value x y z a c, trans_items xs ys zs b d) refl

  trans_fields :
      (fs gs hs : Fields)
      → same_fields fs gs ≡ true
      → same_fields gs hs ≡ true
      → same_fields fs hs ≡ true
  trans_fields end gs hs h k = refl
  trans_fields (field j v fs) gs hs h k =
      let (a, b) = both (has_field gs j) _ h in
      let (c, d) = both (same_value v (get_field gs j)) _ b in
      let (e, f) = same_fields-get gs hs j k a in
      rw (e, trans_value v (get_field gs j) (get_field hs j) c f, trans_fields fs gs hs d k) refl

-- Equality goes on from a value to the next.
pub same_value_trans :
    (a b c : Value) → same_value a b ≡ true → same_value b c ≡ true → same_value a c ≡ true
same_value_trans a b c h k = trans_value a b c h k
