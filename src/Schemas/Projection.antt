-- ===== src/Schemas/Projection.antt =====
-- The client plane of an assessment shows nothing of the detector.
use bank_of_baroda_iit_gn.Common.{String, ◌≡◌, refl, Bool, List, Option}
use bank_of_baroda_iit_gn.Common.Int.{ℤ}
use bank_of_baroda_iit_gn.Schemas.{Band, SocAssessment, Counterfactual, to_client_assessment}

-- The client's answer is the same whatever the identity, trust score, band, reasons, contributions,
-- SHAP values, counterfactual, risks, provenance and degradation of the assessment are.
pub client_hides_detector :
    {W : Type 0} (soc : SocAssessment W) (who : String) (trust : ℤ) (band : Band)
    → (reasons : List String) (contributions shap : List (W × String)) (cf : Counterfactual)
    → (ml : Option W) (det risk : W) (provenance : String) (degraded : Bool)
    → to_client_assessment (record soc {
      identity_id = who;
      trust_score = trust;
      risk_band = band;
      reason_codes = reasons;
      feature_contributions = contributions;
      shap_values = shap;
      counterfactual = cf;
      ml_risk = ml;
      det_risk = det;
      event_risk = risk;
      model_provenance = provenance;
      degraded = degraded;
    })
      ≡ to_client_assessment soc
unfolding to_client_assessment
client_hides_detector soc who trust band reasons contributions shap cf ml det risk prov deg = refl
