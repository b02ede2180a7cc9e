-- ===== src/Schemas.antt =====
-- backend/app/schemas.py: the events, the decisions, and the two planes of an assessment. A risk
-- band is one of the fixed texts of policy.py, risk_engine.py and resilience.py.
pub mod Projection
use bank_of_baroda_iit_gn.Common.{
  ℕ, ◌≤◌, String, ◌≡◌, Bool, true, false, Option, none, some, List, map, if◌then◌else◌,
}
use bank_of_baroda_iit_gn.Common.Int.{ℤ}
use bank_of_baroda_iit_gn.Float.{Float}

pub data EventType : Type 0 where
  login transaction onboarding account_recovery privileged_access profile_change : EventType

pub data Channel : Type 0 where
  mobile_app internet_banking branch api admin_console : Channel

pub data Decision : Type 0 where
  allow step_up block : Decision

pub data StepUpMethod : Type 0 where
  device_biometric otp_sms security_questions video_kyc manager_approval : StepUpMethod

pub data Band : Type 0 where
  low elevated high critical drift_review degraded_failclosed degraded_failopen : Band

pub record IdentityEvent (W : Type 0) : Type 0 where
  pub identity_id : String
  pub event_type : EventType
  pub channel : Channel
  pub device_id : String
  pub geo : String
  pub hour_of_day : ℕ
  pub amount : Option W
  pub is_new_beneficiary : Bool
  pub recovery_contact_changed : Bool
  pub privileged_scope : Option String
  pub device_attestation : Option String
  pub behavior_assertion : Option String
  pub idempotency_key : Option String

-- `Field(..., ge=0, le=23)`, the one range that pydantic checks.
abbrev pub IsEvent : {W : Type 0} → IdentityEvent W → Type 0
IsEvent e = e.hour_of_day ≤ 23

-- The sentences of `counterfactual` in explain.py: no factor dominated; an amount near the given
-- one; an amount nearer to the usual range; or the sentence for another factor.
pub data Counterfactual : Type 0 where
  no_factor : Counterfactual
  near_amount : ℤ → Counterfactual
  usual_amount : Counterfactual
  other_factor : String → Counterfactual

-- The client plane.
pub record RiskAssessment (W : Type 0) : Type 0 where
  pub event_id : String
  pub decision : Decision
  pub step_up_method : Option StepUpMethod
  pub challenge_id : Option String
  pub message : String
  pub model_mode : String
  pub latency_ms : W

pub record StepUpResult : Type 0 where
  pub challenge_id : String
  pub decision : Decision
  pub message : String

-- The SOC plane.
pub record SocAssessment (W : Type 0) : Type 0 where
  pub event_id : String
  pub identity_id : String
  pub trust_score : ℤ
  pub risk_band : Band
  pub decision : Decision
  pub step_up_method : Option StepUpMethod
  pub challenge_id : Option String
  pub reason_codes : List String
  pub feature_contributions : List (W × String)
  pub shap_values : List (W × String)
  pub counterfactual : Counterfactual
  pub ml_risk : Option W
  pub det_risk : W
  pub event_risk : W
  pub model_provenance : String
  pub model_mode : String
  pub degraded : Bool
  pub latency_ms : W

abbrev pub is_allow : Decision → Bool
is_allow Decision.allow = true
is_allow _ = false

abbrev pub is_step_up : Decision → Bool
is_step_up Decision.step_up = true
is_step_up _ = false

-- `_CLIENT_MESSAGE`
unfoldable pub client_message : Decision → String
client_message Decision.allow = "Approved."
client_message Decision.step_up = "Additional verification is required to continue."
client_message Decision.block = "This request could not be completed. Please contact support."

-- What `to_audit_payload` writes, in the order of its keys; the type of the record is its tag.
pub record AuditPayload (W : Type 0) : Type 0 where
  pub event_id : String
  pub identity_id : String
  pub trust_score : ℤ
  pub risk_band : Band
  pub decision : Decision
  pub reasons : List String
  pub feature_contributions : List (W × String)
  pub shap_values : List (W × String)
  pub counterfactual : Counterfactual
  pub ml_risk : Option W
  pub det_risk : W
  pub event_risk : W
  pub model_provenance : String
  pub model_mode : String
  pub degraded : Bool

module _ {W : Type 0} ⦃f : Float W⦄ where
  open f use {round4}

  abbrev round_contribution : W × String → W × String
  round_contribution (c, n) = (round4 c, n)

  unfoldable pub to_audit_payload : SocAssessment W → AuditPayload W
  to_audit_payload soc = record {
    event_id = soc.event_id;
    identity_id = soc.identity_id;
    trust_score = soc.trust_score;
    risk_band = soc.risk_band;
    decision = soc.decision;
    reasons = soc.reason_codes;
    feature_contributions = map round_contribution soc.feature_contributions;
    shap_values = soc.shap_values;
    counterfactual = soc.counterfactual;
    ml_risk = soc.ml_risk;
    det_risk = round4 soc.det_risk;
    event_risk = round4 soc.event_risk;
    model_provenance = soc.model_provenance;
    model_mode = soc.model_mode;
    degraded = soc.degraded;
  }

-- `to_client_assessment`, which `SocAssessment.to_client` calls.
unfoldable pub to_client_assessment : {W : Type 0} → SocAssessment W → RiskAssessment W
unfolding client_message
to_client_assessment soc = record {
  event_id = soc.event_id;
  decision = soc.decision;
  step_up_method = if is_step_up soc.decision then soc.step_up_method else none;
  challenge_id = if is_step_up soc.decision then soc.challenge_id else none;
  message = client_message soc.decision;
  model_mode = soc.model_mode;
  latency_ms = soc.latency_ms;
}
