-- ===== src/Float/Fixed/Laws.antt =====
-- The decimal instance has the laws of the interface, and a clipping for it.
use native.Mathlib.Nat.{
  pow-suc, mul-le-mul_right, le_of_mul-le-mul_right, le-div_iff_mul-le, div-mul-le_self,
}
use bank_of_baroda_iit_gn.Common.{
  zero, suc, ◌*◌, ◌/◌, ◌^◌, ◌≤◌, ◌<◌, ◌≡◌, true, false, some, refl, ℕ, if◌then◌else◌, arith,
}
use bank_of_baroda_iit_gn.Common.Int.{ℤ, pos, negsuc, ◌≤ℤ◌, ◌*ℤ◌, -ℤ_parts, +ℤ_parts, min_ℤ, max_ℤ}
use bank_of_baroda_iit_gn.Float.{le, IsFloat, Libs, IsClip}
use bank_of_baroda_iit_gn.Float.Fixed.{Fixed, num, nan, fixed_float}

lt_asymm_fixed : (a b : Fixed) → fixed_float.lt a b ≡ true → fixed_float.lt b a ≡ false
lt_asymm_fixed a b h = ground arith

trunc_nonneg_fixed :
    (a : Fixed) {n : ℤ}
    → fixed_float.lt a (fixed_float.lit 0 0) ≡ false
    → fixed_float.trunc a ≡ some n
    → pos 0 ≤ℤ n
trunc_nonneg_fixed (num (pos a)) h e = ground arith
trunc_nonneg_fixed (num (negsuc a)) h e = ground arith
trunc_nonneg_fixed nan h e = cc

sub_nonneg_fixed :
    (a b : Fixed)
    → fixed_float.lt b a ≡ false
    → fixed_float.lt (fixed_float.sub b a) (fixed_float.lit 0 0) ≡ false
sub_nonneg_fixed (num a) (num b) h = ground (arith, -ℤ_parts b a)
sub_nonneg_fixed (num a) nan h = ground arith
sub_nonneg_fixed nan b h = ground arith

mul_nonneg_fixed :
    (a b : Fixed)
    → fixed_float.lt a (fixed_float.lit 0 0) ≡ false
    → fixed_float.lt b (fixed_float.lit 0 0) ≡ false
    → fixed_float.lt (fixed_float.mul a b) (fixed_float.lit 0 0) ≡ false
unfolding ◌*ℤ◌
mul_nonneg_fixed (num (pos a)) (num (pos b)) h k = ground arith
mul_nonneg_fixed _ _ h k = ground arith

pow_pos : (k : ℕ) → 0 < 10 ^ k
pow_pos zero = omega arith
pow_pos (suc k) = omega (arith, pow_pos k, pow-suc 10 k)

-- Cutting a decimal to six places keeps the order.
cut_mono : (x y a b s : ℕ) → 0 < a → 0 < b → x * b ≤ y * a → x * s / a ≤ y * s / b
cut_mono x y a b s ha hb h =
    let lower : x * s / a * a ≤ x * s = div-mul-le_self (x * s) a in
    (le-div_iff_mul-le hb).1 (
      le_of_mul-le-mul_right {k = a} (omega (arith, mul-le-mul_right b lower, mul-le-mul_right s h))
        ha)

lit_mono_fixed :
    (n k m j : ℕ)
    → n * 10 ^ j ≤ m * 10 ^ k
    → fixed_float.lt (fixed_float.lit m j) (fixed_float.lit n k) ≡ false
lit_mono_fixed n k m j h =
    ground (arith, cut_mono n m (10 ^ k) (10 ^ j) (10 ^ 6) (pow_pos k) (pow_pos j) h)

add_grows_fixed :
    (a b : Fixed)
    → fixed_float.lt b (fixed_float.lit 0 0) ≡ false
    → fixed_float.lt (fixed_float.add a b) a ≡ false
add_grows_fixed (num a) (num b) h = ground (arith, +ℤ_parts a b)
add_grows_fixed (num a) nan h = ground arith
add_grows_fixed nan b h = ground arith

lt-le_trans_fixed :
    (a b c : Fixed) → fixed_float.lt a b ≡ true → le b c ≡ true → fixed_float.lt a c ≡ true
lt-le_trans_fixed a b c h k = ground arith

le-lt_trans_fixed :
    (a b c : Fixed) → le a b ≡ true → fixed_float.lt b c ≡ true → fixed_float.lt a c ≡ true
le-lt_trans_fixed a b c h k = ground arith

le_of_not_lt_fixed :
    (a b : Fixed)
    → fixed_float.eq a a ≡ true
    → fixed_float.eq b b ≡ true
    → fixed_float.lt a b ≡ false
    → le b a ≡ true
le_of_not_lt_fixed a b p q h = ground arith

pub Fixed-IsFloat : IsFloat Fixed
Fixed-IsFloat = record {
  lt_asymm = lt_asymm_fixed;
  zero-lt-one = refl;
  trunc_nonneg = trunc_nonneg_fixed;
  sub_nonneg = sub_nonneg_fixed;
  mul_nonneg = mul_nonneg_fixed;
  lit_mono = lit_mono_fixed;
  add_grows = add_grows_fixed;
  le-lt_trans = le-lt_trans_fixed;
  le_of_not_lt = le_of_not_lt_fixed;
  lt-le_trans = lt-le_trans_fixed;
}

-- Clipping by two comparisons; the Kolmogorov-Smirnov test always rejects.
abbrev pub fixed_libs : Libs Fixed
fixed_libs = record {
  clip = λ x lo hi. if fixed_float.lt x lo then lo else if fixed_float.lt hi x then hi else x;
  clip_int = λ x lo hi. min_ℤ (max_ℤ x lo) hi;
  ks_pvalue = λ early late. some (fixed_float.lit 0 0);
}

pub Fixed-IsClip : IsClip fixed_libs
Fixed-IsClip = record {
  clip_below = λ x lo hi h. ground arith;
  clip_above = λ x lo hi h k. ground arith;
  clip_within = λ x lo hi h k. ground arith;
  clip_int-below = λ x lo hi h k. ground arith;
  clip_int-above = λ x lo hi h k. ground arith;
  clip_int-within = λ x lo hi h k. ground arith;
}
