-- ===== src/Float.antt =====
-- Python's `float` as the backend uses it: an interface of the operations, and of the facts of
-- IEEE 754 arithmetic that the proofs rely on. NaN is a value of `W`, below and above nothing.
pub mod Fixed
use bank_of_baroda_iit_gn.Common.{
  ℕ, ◌*◌, ◌^◌, ◌≤◌, ◌≡◌, Bool, true, false, ◌||◌, Option, some, List, [], ◌∷◌, if◌then◌else◌,
}
use bank_of_baroda_iit_gn.Common.Int.{ℤ, pos, ◌≤ℤ◌}

pub record Float (W : Type 0) : Type 0 where
  -- The literal n · 10^-k: `lit 45 2` is `0.45`.
  pub lit : ℕ → ℕ → W
  pub of_int : ℤ → W
  pub add : W → W → W
  pub sub : W → W → W
  pub mul : W → W → W
  pub div : W → W → W
  pub abs : W → W
  -- `x ** 0.5`
  pub sqrt : W → W
  pub lt : W → W → Bool
  pub eq : W → W → Bool
  -- `int(x)`; `none` where it raises, at NaN and the infinities.
  pub trunc : W → Option ℤ
  -- `round(x, 4)`
  pub round4 : W → W
  pub is_finite : W → Bool
  -- The built-in `sum`, and `statistics.mean` of a list that is not empty.
  pub sum : List W → W
  pub mean : List W → W

module _ {W : Type 0} ⦃f : Float W⦄ where
  open f use {lit, lt, eq}

  abbrev pub le : W → W → Bool
  le a b = lt a b || eq a b

  -- `min(a, b)` and `max(a, b)`: the first argument unless the second is smaller, or larger.
  abbrev pub min_float : W → W → W
  min_float a b = if lt b a then b else a

  abbrev pub max_float : W → W → W
  max_float a b = if lt a b then b else a

  -- `min(xs)` of a list that is not empty.
  abbrev pub min_list : W → List W → W
  min_list m [] = m
  min_list m (x ∷ xs) = min_list (if lt x m then x else m) xs

  abbrev pub zero_float : W
  zero_float = lit 0 0

  abbrev pub one_float : W
  one_float = lit 1 0

-- What the proofs use of IEEE 754, each law true of every double, NaN and the infinities included.
pub record IsFloat (W : Type 0) ⦃f : Float W⦄ : Type 0 where
  pub lt_asymm : (a b : W) → f.lt a b ≡ true → f.lt b a ≡ false
  pub zero-lt-one : f.lt (f.lit 0 0) (f.lit 1 0) ≡ true
  pub trunc_nonneg : (a : W) {n : ℤ} → f.lt a (f.lit 0 0) ≡ false → f.trunc a ≡ some n → pos 0 ≤ℤ n
  pub sub_nonneg : (a b : W) → f.lt b a ≡ false → f.lt (f.sub b a) (f.lit 0 0) ≡ false
  pub mul_nonneg :
      (a b : W)
      → f.lt a (f.lit 0 0) ≡ false
      → f.lt b (f.lit 0 0) ≡ false
      → f.lt (f.mul a b) (f.lit 0 0) ≡ false
  -- Reading a literal rounds to the nearest double, which keeps the order.
  pub lit_mono : (n k m j : ℕ) → n * 10 ^ j ≤ m * 10 ^ k → f.lt (f.lit m j) (f.lit n k) ≡ false
  -- So does adding: a sum with a number that is not below 0 is not below the other.
  pub add_grows : (a b : W) → f.lt b (f.lit 0 0) ≡ false → f.lt (f.add a b) a ≡ false
  pub le-lt_trans : (a b c : W) → le a b ≡ true → f.lt b c ≡ true → f.lt a c ≡ true
  -- Any two numbers that are not NaN, that is, equal to themselves, are in order.
  pub le_of_not_lt :
      (a b : W) → f.eq a a ≡ true → f.eq b b ≡ true → f.lt a b ≡ false → le b a ≡ true
  pub lt-le_trans : (a b c : W) → f.lt a b ≡ true → le b c ≡ true → f.lt a c ≡ true

-- `np.clip` on floats and on integers, and the p-value of `scipy.stats.ks_2samp` (`none` where the
-- call raises): third-party code, which the model takes as a parameter.
pub record Libs (W : Type 0) : Type 0 where
  pub clip : W → W → W → W
  pub clip_int : ℤ → ℤ → ℤ → ℤ
  pub ks_pvalue : List W → List W → Option W

-- numpy's documentation of `clip`: what lies outside the interval becomes the nearer edge.
pub record IsClip {W : Type 0} ⦃f : Float W⦄ (l : Libs W) : Type 0 where
  pub clip_below : (x lo hi : W) → f.lt x lo ≡ true → l.clip x lo hi ≡ lo
  pub clip_above : (x lo hi : W) → f.lt x lo ≡ false → f.lt hi x ≡ true → l.clip x lo hi ≡ hi
  pub clip_within : (x lo hi : W) → f.lt x lo ≡ false → f.lt hi x ≡ false → l.clip x lo hi ≡ x
  pub clip_int-below : (x lo hi : ℤ) → lo ≤ℤ hi → x ≤ℤ lo → l.clip_int x lo hi ≡ lo
  pub clip_int-above : (x lo hi : ℤ) → lo ≤ℤ hi → hi ≤ℤ x → l.clip_int x lo hi ≡ hi
  pub clip_int-within : (x lo hi : ℤ) → lo ≤ℤ x → x ≤ℤ hi → l.clip_int x lo hi ≡ x
