-- ===== src/Training/UserDays/Deviations.antt =====
-- A deviation from a user's own norm is never below 0.
use bank_of_baroda_iit_gn.Common.{◌≡◌, false, List, arith}
use bank_of_baroda_iit_gn.Float.{Float, IsFloat, zero_float}
use bank_of_baroda_iit_gn.Training.UserDays.{deviation}

module _ {W : Type 0} ⦃f : Float W⦄ (laws : IsFloat W) (median : List W → W) (float32 : W → W) where
  open f use {lt, div, mul, sub, lit, eq}

  -- No deviation is below 0.
  pub deviation_nonneg :
      (med mad x : W) → lt (deviation median float32 med mad x) zero_float ≡ false
  unfolding deviation
  deviation_nonneg med mad x =
      let z = div (sub x med) (mul (lit 14826 4) mad) in
      ground (arith, laws.lt_asymm zero_float z, laws.lt_asymm zero_float zero_float)
