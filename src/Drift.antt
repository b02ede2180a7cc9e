-- ===== src/Drift.antt =====
-- backend/app/drift.py: the sliding-window test and the CUSUM over a slow baseline.
pub mod Laws
use bank_of_baroda_iit_gn.Common.{
  ℕ, ◌/◌, Bool, true, false, ◌||◌, Option, none, some, List, length, take, drop, last_n, is_empty,
  ltb, if◌then◌else◌,
}
use bank_of_baroda_iit_gn.Float.{Float, Libs, max_float, zero_float}

pub record DriftDetector (W : Type 0) : Type 0 where
  pub window : ℕ
  pub min_samples : ℕ
  pub min_shift : W
  pub alpha : W
  pub ewma_alpha : W
  pub cusum_slack : W
  pub cusum_threshold : W

module _ {W : Type 0} ⦃f : Float W⦄ where
  open f use {lit, lt, eq, add, sub, mul, mean}

  -- The defaults of `DriftDetector.__init__`.
  abbrev pub default_drift : DriftDetector W
  default_drift = record {
    window = 12;
    min_samples = 8;
    min_shift = lit 8 2;
    alpha = lit 5 2;
    ewma_alpha = lit 3 2;
    cusum_slack = lit 15 3;
    cusum_threshold = lit 4 1;
  }

  -- `bool(p < self.alpha)`, or the mean shift alone where the library call raises.
  abbrev rejects : W → Option W → Bool
  rejects alpha none = true
  rejects alpha (some p) = lt p alpha

  -- `DriftDetector.detect`
  unfoldable pub detect : DriftDetector W → Libs W → List W → Bool
  detect d libs risk_window =
      let recent = last_n d.window risk_window in
      let half = length recent / 2 in
      let early = take half recent in
      let late = drop half recent in
      if ltb (length risk_window) d.min_samples
      then false
      else if is_empty early || is_empty late
      then false
      else if lt (sub (mean late) (mean early)) d.min_shift
      then false
      else rejects d.alpha (libs.ks_pvalue early late)

  -- `baseline` of `DriftDetector.step`
  abbrev pub baseline_of : W → W → W
  baseline_of ewma risk = if lt zero_float ewma then ewma else risk

  -- `risk - baseline - self.cusum_slack`
  abbrev pub excess_of : DriftDetector W → W → W → W
  excess_of d ewma risk = sub (sub risk (baseline_of ewma risk)) d.cusum_slack

  -- `DriftDetector.step`
  unfoldable pub drift_step : DriftDetector W → W → W → W → W × W × Bool
  drift_step d ewma cusum risk =
      let new_cusum = max_float zero_float (add cusum (excess_of d ewma risk)) in
      let new_ewma =
        if eq ewma zero_float then risk else add ewma (mul d.ewma_alpha (sub risk ewma)) in
      (new_ewma, new_cusum, lt d.cusum_threshold new_cusum)
