-- ===== src/Engine/Assess.antt =====
-- `assess` and the reading methods: the loop of compare-and-set attempts over the store. What other
-- clients do to the store between an attempt's load and its commit is a parameter, `rivals`, one
-- function for each attempt. Times, fresh identifiers and the latency are arguments.
pub mod Stored
pub mod Learned
use bank_of_baroda_iit_gn.Common.{
  ℕ, zero, suc, String, Bool, false, not, Option, none, some, List, length, str_eq, is_empty, ◌||◌,
  is_some, if◌then◌else◌,
}
use bank_of_baroda_iit_gn.Common.Int.{ℤ, pos}
use bank_of_baroda_iit_gn.Float.{Float, one_float}
use bank_of_baroda_iit_gn.Schemas.{Counterfactual, IdentityEvent, SocAssessment, is_step_up}
use bank_of_baroda_iit_gn.State.{StateStore, load, commit, device_add}
use bank_of_baroda_iit_gn.Explain.{weights, shap_values, counterfactual}
use bank_of_baroda_iit_gn.Verifier.{NonceCache}
use bank_of_baroda_iit_gn.Attestation.{resolve}
use bank_of_baroda_iit_gn.Engine.Trust.{TrustEngine, BehaviorResolver}
use bank_of_baroda_iit_gn.Engine.Attempt.{Outcome, assess_state}

-- What the surroundings of one call of `assess` supply.
pub record Surroundings (W : Type 0) : Type 0 where
  pub now_wall : W
  -- The time that the nonce cache reads.
  pub clock : W
  pub rivals : ℕ → StateStore W → StateStore W
  pub event_id : String
  pub challenge_id : String
  pub latency_ms : W

-- The objects that `assess` changes.
pub record EngineState (W : Type 0) : Type 0 where
  pub store : StateStore W
  pub nonces : NonceCache W

module _ {W : Type 0} ⦃f : Float W⦄ where
  open f use {sub, div, sum, of_int}

  abbrev pub offer :
      String
      → (StateStore W → StateStore W)
      → StateStore W
      → Option (Outcome W)
      → Option (Outcome W) × Bool × StateStore W
  offer identity_id rival store none = (none, false, store)
  offer identity_id rival store (some o) =
      let (committed, after) = commit (rival store) identity_id o.state o.state.version in
      (some o, committed, after)

  -- One attempt: the outcome (`none` where it raises), whether it was committed, and the store.
  unfoldable pub attempt :
      TrustEngine W
      → IdentityEvent W
      → Option W
      → W
      → (StateStore W → StateStore W)
      → StateStore W
      → Option (Outcome W) × Bool × StateStore W
  attempt engine e behavior_anomaly now rival store =
      let state = load store e.identity_id in
      let (dev_count, seen) = device_add store e.device_id e.identity_id in
      offer e.identity_id rival seen (assess_state engine e behavior_anomaly now state dev_count)

  -- The loop. `retries` are left after this attempt.
  unfoldable pub assess_loop :
      ℕ
      → TrustEngine W
      → IdentityEvent W
      → Option W
      → W
      → (ℕ → StateStore W → StateStore W)
      → StateStore W
      → Option (Outcome W) × Bool × StateStore W
  assess_loop zero engine e behavior_anomaly now rivals store =
      attempt engine e behavior_anomaly now (rivals 0) store
  assess_loop (suc retries) engine e behavior_anomaly now rivals store =
      let (outcome, committed, after) =
        attempt engine e behavior_anomaly now (rivals (suc retries)) store in
      let again = assess_loop retries engine e behavior_anomaly now rivals after in
      if committed || not (is_some outcome) then (outcome, committed, after) else again

  abbrev resolved :
      Option (BehaviorResolver W)
      → TrustEngine W
      → W
      → IdentityEvent W
      → NonceCache W
      → Option W × NonceCache W
  unfolding resolve
  resolved none engine clock e nonces = (none, nonces)
  resolved (some r) engine clock e nonces =
      resolve engine.codec r.attest r.behavior r.max_skew clock e.device_attestation
        e.behavior_assertion e.identity_id e.device_id clock nonces

  -- `_resolve_behavior`
  unfoldable pub resolve_behavior :
      TrustEngine W → W → IdentityEvent W → NonceCache W → Option W × NonceCache W
  unfolding resolve
  resolve_behavior engine clock e nonces = resolved engine.behavior_resolver engine clock e nonces

  abbrev pub anomaly_of : Option W → Option W
  anomaly_of none = none
  anomaly_of (some sim) = some (sub one_float sim)

  -- `"demo_synthetic" if self.model.is_synthetic else "prod"`
  abbrev pub model_mode : TrustEngine W → String
  model_mode engine =
      if str_eq engine.model.provenance "DEMO_SYNTHETIC" then "demo_synthetic" else "prod"

  -- The mean of the identity's amounts, where it has any.
  abbrev amount_reference : List W → Option W
  amount_reference amounts =
      if is_empty amounts then none else some (div (sum amounts) (of_int (pos (length amounts))))

  -- The assessment that is built after the loop.
  unfoldable pub build_assessment :
      TrustEngine W
      → IdentityEvent W
      → Surroundings W
      → Outcome W
      → Counterfactual
      → SocAssessment W
  unfolding shap_values
  build_assessment engine e around o cf = record {
    event_id = around.event_id;
    identity_id = e.identity_id;
    trust_score = o.new_trust;
    risk_band = o.band;
    decision = o.decision;
    step_up_method = o.step_up;
    challenge_id = if is_step_up o.decision then some around.challenge_id else none;
    reason_codes = o.reasons;
    feature_contributions = o.scored.contributions;
    shap_values = shap_values o.scored.vec weights;
    counterfactual = cf;
    ml_risk = o.scored.ml_risk;
    det_risk = o.scored.det_risk;
    event_risk = o.scored.event_risk;
    model_provenance = engine.model.provenance;
    model_mode = model_mode engine;
    degraded = o.degraded;
    latency_ms = around.latency_ms;
  }

  abbrev pub explained :
      TrustEngine W
      → IdentityEvent W
      → Surroundings W
      → Outcome W
      → Option Counterfactual
      → Option (SocAssessment W)
  unfolding build_assessment
  explained engine e around o none = none
  explained engine e around o (some cf) = some (build_assessment engine e around o cf)

  abbrev pub report :
      TrustEngine W
      → IdentityEvent W
      → Surroundings W
      → Option (Outcome W)
      → Option (SocAssessment W)
  unfolding build_assessment counterfactual
  report engine e around none = none
  report engine e around (some o) =
      explained engine e around o
        (counterfactual o.scored.vec weights e.amount (amount_reference o.state.amounts))

  -- `TrustEngine.assess`: the assessment (`none` where it raises), and what it leaves behind.
  unfoldable pub assess :
      TrustEngine W
      → Surroundings W
      → IdentityEvent W
      → EngineState W
      → Option (SocAssessment W) × EngineState W
  unfolding resolve_behavior assess_loop build_assessment counterfactual
  assess engine around e s =
      let (sim, nonces) = resolve_behavior engine around.clock e s.nonces in
      let (outcome, committed, store) =
        assess_loop 5 engine e (anomaly_of sim) around.now_wall around.rivals s.store in
      (report engine e around outcome, record { store = store; nonces = nonces })

  -- `get_trust`
  unfoldable pub get_trust : StateStore W → String → ℤ
  unfolding load
  get_trust store identity_id = (load store identity_id).trust

  -- `identity_snapshot`: trust score, known devices and events seen.
  unfoldable pub identity_snapshot : StateStore W → String → ℤ × ℕ × ℕ
  unfolding load
  identity_snapshot store identity_id =
      let s = load store identity_id in (s.trust, length s.devices, s.event_count)
