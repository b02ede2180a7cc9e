-- ===== src/Tests/Decisions.antt =====
-- The theorems on the policy, the degradation rule and the two planes at concrete inputs.
use bank_of_baroda_iit_gn.Common.{false, some, [], ◌∷◌}
use bank_of_baroda_iit_gn.Common.Int.{pos}
use bank_of_baroda_iit_gn.Float.Fixed.{Fixed, fixed_float}
use bank_of_baroda_iit_gn.Schemas.{Decision, Band, StepUpMethod, Counterfactual, SocAssessment}

abbrev calm : Fixed
calm = fixed_float.lit 2 1

abbrev tense : Fixed
tense = fixed_float.lit 5 1

abbrev soc : SocAssessment Fixed
soc = record {
  event_id = "e1";
  identity_id = "asha";
  trust_score = pos 500;
  risk_band = Band.elevated;
  decision = Decision.step_up;
  step_up_method = some StepUpMethod.device_biometric;
  challenge_id = some "c1";
  reason_codes = "geo_novelty" ∷ [];
  feature_contributions = [];
  shap_values = [];
  counterfactual = Counterfactual.no_factor;
  ml_risk = some tense;
  det_risk = tense;
  event_risk = tense;
  model_provenance = "PROD";
  model_mode = "prod";
  degraded = false;
  latency_ms = calm;
}
