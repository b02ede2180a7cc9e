-- ===== src/Drift/Laws.antt =====
-- The CUSUM is never negative, and once fired it stays fired while the excess stays.
use bank_of_baroda_iit_gn.Common.{◌≡◌, true, false, arith}
use bank_of_baroda_iit_gn.Float.{Float, IsFloat, le, zero_float}
use bank_of_baroda_iit_gn.Drift.{DriftDetector, excess_of, drift_step}

module _ {W : Type 0} ⦃f : Float W⦄ (laws : IsFloat W) where
  open f use {lt, add, eq}
  open laws use {lt_asymm, add_grows, lt-le_trans, le-lt_trans, le_of_not_lt}

  lt_irrefl : (a : W) → lt a a ≡ false
  lt_irrefl a = ground (arith, lt_asymm a a)

  -- Whatever the risk, NaN included, the new CUSUM is not below 0, and the detector fires exactly
  -- where it is above the threshold.
  pub cusum_nonneg :
      (d : DriftDetector W) (ewma cusum risk : W)
      → let (_, new_cusum, fired) = drift_step d ewma cusum risk in
        (lt new_cusum zero_float ≡ false) × (fired ≡ lt d.cusum_threshold new_cusum)
  unfolding drift_step
  cusum_nonneg d ewma cusum risk =
      let sum = add cusum (excess_of d ewma risk) in
      ground (arith, lt_asymm zero_float sum, lt_irrefl zero_float)

  -- A detector that has fired fires again on each event whose risk does not fall below baseline
  -- plus slack, as long as the threshold is not below 0 and no sum is NaN.
  pub fired_is_sticky :
      (d : DriftDetector W) (ewma cusum risk : W)
      → le zero_float d.cusum_threshold ≡ true
      → lt d.cusum_threshold cusum ≡ true
      → eq cusum cusum ≡ true
      → eq (add cusum (excess_of d ewma risk)) (add cusum (excess_of d ewma risk)) ≡ true
      → lt (excess_of d ewma risk) zero_float ≡ false
      → (drift_step d ewma cusum risk).2 ≡ true
  unfolding drift_step
  fired_is_sticky d ewma cusum risk floor fired number sum_number grown =
      let excess = excess_of d ewma risk in
      let above =
        le_of_not_lt (add cusum excess) cusum sum_number number (add_grows cusum excess grown) in
      let over = lt-le_trans d.cusum_threshold cusum (add cusum excess) fired above in
      ground (arith, over, le-lt_trans zero_float d.cusum_threshold (add cusum excess) floor over)
