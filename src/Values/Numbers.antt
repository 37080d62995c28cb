-- ===== src/Values/Numbers.antt =====
-- Python's `int`: the integers, their text and the reading of one from a text.
use Prim.Native.Char.{code}
use Prim.Native.String.{[], ◌∷◌, ◌++◌}
use airgap_videowall.Prelude.{
  ℕ, zero, suc, ◌+◌, String, ◌≡◌, refl, ◌↔◌, Bool, true, false, Option, none, some, arith,
  if◌then◌else◌, Eq, ◌==◌, nat_eq,
}
use airgap_videowall.Prelude.Text.{decimal, strip, parse_digits}
use mathlib.Core.Option

-- `negsuc n` is -(n + 1).
pub data ℤ : Type 0 where
  pos : ℕ → ℤ
  negsuc : ℕ → ℤ

abbrev pub int_beq : ℤ → ℤ → Bool
int_beq (pos a) (pos b) = a == b
int_beq (negsuc a) (negsuc b) = a == b
int_beq _ _ = false

pub int_beq_iff : (a b : ℤ) → (int_beq a b ≡ true) ↔ (a ≡ b)
int_beq_iff (pos a) (pos b) = ground arith
int_beq_iff (pos a) (negsuc b) = ground arith
int_beq_iff (negsuc a) (pos b) = ground arith
int_beq_iff (negsuc a) (negsuc b) = ground arith

instance abbrev pub int_eq : Eq ℤ
int_eq = record { same = int_beq; same_iff = int_beq_iff }

abbrev pub negate : ℕ → ℤ
negate zero = pos 0
negate (suc n) = negsuc n

-- str(n)
unfoldable pub text_of_int : ℤ → String
unfolding decimal
text_of_int (pos n) = decimal n
text_of_int (negsuc n) = "-" ++ decimal (n + 1)

signed : String → Option ℤ
signed [] = none
signed (c ∷ s) =
    if code c == b'-'
    then Option.map negate (parse_digits 0 false s)
    else Option.map pos (parse_digits 0 false (if code c == b'+' then s else c ∷ s))

-- int(s)
unfoldable pub int_of_text : String → Option ℤ
unfolding signed strip parse_digits
int_of_text s = signed (strip s)

int_of_text_runs : int_of_text " -4_2 " ≡ some (negsuc 41)
unfolding int_of_text
int_of_text_runs = refl

text_of_int_runs : text_of_int (pos 305) ≡ "305"
unfolding text_of_int
text_of_int_runs = refl
