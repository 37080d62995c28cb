-- ===== src/Values/Division.antt =====
-- Python's `*`, `//` and `%` of integers: the quotient is rounded down, and the remainder has the
-- sign of the divisor. `none` is a division by zero.
use airgap_videowall.Values.{negsuc, ℤ, pos, negate}
use airgap_videowall.Prelude.{
  ℕ, zero, suc, ◌+◌, ◌-◌, ◌*◌, ◌/◌, ◌%◌, ◌≡◌, refl, Option, none, some, if◌then◌else◌, ◌==◌, nat_eq,
}

unfoldable pub mul_int : ℤ → ℤ → ℤ
mul_int (pos a) (pos b) = pos (a * b)
mul_int (pos a) (negsuc b) = negate (a * (b + 1))
mul_int (negsuc a) (pos b) = negate ((a + 1) * b)
mul_int (negsuc a) (negsuc b) = pos ((a + 1) * (b + 1))

-- `a // n` and `a % n` of a divisor that is not 0
abbrev rest_of : ℕ → ℕ → ℕ
rest_of a n = if a % n == 0 then 0 else n - a % n

unfoldable pub floor_div : ℤ → ℤ → Option ℤ
floor_div a (pos zero) = none
floor_div (pos a) (pos (suc b)) = some (pos (a / suc b))
floor_div (negsuc a) (pos (suc b)) = some (negate ((a + suc b) / suc b))
floor_div (pos a) (negsuc b) = some (negate ((a + b) / suc b))
floor_div (negsuc a) (negsuc b) = some (pos (suc a / suc b))

unfoldable pub modulo : ℤ → ℤ → Option ℤ
modulo a (pos zero) = none
modulo (pos a) (pos (suc b)) = some (pos (a % suc b))
modulo (negsuc a) (pos (suc b)) = some (pos (rest_of (suc a) (suc b)))
modulo (pos a) (negsuc b) = some (negate (rest_of a (suc b)))
modulo (negsuc a) (negsuc b) = some (negate (suc a % suc b))

-- `max(1, n)`
unfoldable pub at_least_one : ℤ → ℤ
at_least_one (pos zero) = pos 1
at_least_one (pos (suc n)) = pos (suc n)
at_least_one (negsuc n) = pos 1

division_runs :
    (floor_div (negsuc 6) (pos 2) ≡ some (negsuc 3))
    × (modulo (negsuc 6) (pos 2) ≡ some (pos 1))
    × (floor_div (pos 7) (negsuc 1) ≡ some (negsuc 3))
    × (modulo (pos 7) (negsuc 1) ≡ some (negsuc 0))
unfolding floor_div modulo
division_runs = (refl, refl, refl, refl)
