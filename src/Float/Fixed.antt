-- ===== src/Float/Fixed.antt =====
-- A concrete instance of the float interface, for tests: decimals of six places with a NaN.
pub mod Laws
use bank_of_baroda_iit_gn.Common.{
  ℕ, zero, suc, ◌+◌, ◌*◌, ◌/◌, ◌^◌, Bool, true, false, Option, none, some, List, [], ◌∷◌, length,
  leb, ◌==◌, if◌then◌else◌,
}
use bank_of_baroda_iit_gn.Common.Int.{
  ℤ, pos, negsuc, pos_part, neg_part, sub_ℕ, ltb_ℤ, ◌+ℤ◌, ◌-ℤ◌, ◌*ℤ◌,
}
use bank_of_baroda_iit_gn.Float.{Float}

-- `num z` is z · 10^-6.
pub data Fixed : Type 0 where
  num : ℤ → Fixed
  nan : Fixed

abbrev scale : ℕ
scale = 10 ^ 6

abbrev on_nums : (ℤ → ℤ → ℤ) → Fixed → Fixed → Fixed
on_nums g (num a) (num b) = num (g a b)
on_nums g _ _ = nan

abbrev test_nums : (ℤ → ℤ → Bool) → Fixed → Fixed → Bool
test_nums g (num a) (num b) = g a b
test_nums g _ _ = false

-- Division of an integer by a number that is not 0, towards zero.
abbrev quotient : ℤ → ℕ → ℤ
quotient z n = sub_ℕ (pos_part z / n) (neg_part z / n)

abbrev divide : ℤ → ℤ → ℤ
divide a (pos n) = quotient a n
divide a (negsuc n) = quotient (pos 0 -ℤ a) (suc n)

abbrev div_fixed : Fixed → Fixed → Fixed
div_fixed (num a) (num (pos zero)) = nan
div_fixed (num a) (num b) = num (divide (a *ℤ pos scale) b)
div_fixed _ _ = nan

-- The integer square root, by its binary digits.
unfoldable pub isqrt : ℕ → ℕ → ℕ
isqrt zero n = 0
isqrt (suc fuel) n =
    let r = 2 * isqrt fuel (n / 4) in if leb ((r + 1) * (r + 1)) n then r + 1 else r

abbrev sqrt_fixed : Fixed → Fixed
sqrt_fixed (num (pos n)) = num (pos (isqrt 64 (n * scale)))
sqrt_fixed _ = nan

abbrev abs_fixed : Fixed → Fixed
abs_fixed (num (pos n)) = num (pos n)
abs_fixed (num (negsuc n)) = num (pos (suc n))
abs_fixed nan = nan

abbrev trunc_fixed : Fixed → Option ℤ
trunc_fixed (num z) = some (quotient z scale)
trunc_fixed nan = none

abbrev round_fixed : Fixed → Fixed
round_fixed (num z) = num (quotient z 100 *ℤ pos 100)
round_fixed nan = nan

abbrev finite_fixed : Fixed → Bool
finite_fixed (num z) = true
finite_fixed nan = false

abbrev eq_ℤ : ℤ → ℤ → Bool
eq_ℤ a b = pos_part a + neg_part b == pos_part b + neg_part a

abbrev sum_fixed : List Fixed → Fixed
sum_fixed [] = num (pos 0)
sum_fixed (x ∷ xs) = on_nums ◌+ℤ◌ x (sum_fixed xs)

instance abbrev pub fixed_float : Float Fixed
fixed_float = record {
  lit = λ n k. num (pos (n * scale / 10 ^ k));
  of_int = λ z. num (z *ℤ pos scale);
  add = on_nums ◌+ℤ◌;
  sub = on_nums ◌-ℤ◌;
  mul = on_nums (λ a b. quotient (a *ℤ b) scale);
  div = div_fixed;
  abs = abs_fixed;
  sqrt = sqrt_fixed;
  lt = test_nums ltb_ℤ;
  eq = test_nums eq_ℤ;
  trunc = trunc_fixed;
  round4 = round_fixed;
  is_finite = finite_fixed;
  sum = sum_fixed;
  mean = λ xs. div_fixed (sum_fixed xs) (num (pos (length xs * scale)));
}
