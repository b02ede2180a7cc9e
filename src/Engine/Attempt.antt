-- ===== src/Engine/Attempt.antt =====
-- One attempt of `assess` under the lock: scoring, drift, trust, decision, and what an allowed
-- event commits.
pub mod Inversion
pub mod Poisoning
pub mod Review
use bank_of_baroda_iit_gn.Common.{
  ℕ, String, Bool, true, false, ◌&&◌, ◌||◌, not, Option, none, some, List, [], ◌∷◌, ◌++◌, last_n,
  ◌==◌, is_some, if◌then◌else◌,
}
use bank_of_baroda_iit_gn.Common.Int.{ℤ}
use bank_of_baroda_iit_gn.Float.{Float, zero_float, one_float}
use bank_of_baroda_iit_gn.Schemas.{Decision, StepUpMethod, Band, IdentityEvent, is_allow}
use bank_of_baroda_iit_gn.Policy.{Verdict, decide, cheapest_sufficient, apply_degraded}
use bank_of_baroda_iit_gn.State.{IdentityState}
use bank_of_baroda_iit_gn.Features.{compute_features, commit_features}
use bank_of_baroda_iit_gn.Drift.{detect, drift_step}
use bank_of_baroda_iit_gn.Explain.{weights, products, explain}
use bank_of_baroda_iit_gn.Engine.Trust.{
  ServingModel, TrustEngine, cold_prior_applies, travels_impossibly, update_trust,
}

abbrev pub drift_reason : String
drift_reason = "DRIFT_REVIEW: sustained low-and-slow risk increase - secondary review"

abbrev pub impossible_travel_reason : String
impossible_travel_reason = "IMPOSSIBLE_TRAVEL: geo changed faster than physically possible"

-- What the scoring of an attempt leaves in the local variables of `assess`.
pub record Scored (W : Type 0) : Type 0 where
  pub vec : List W
  pub ml_risk : Option W
  pub det_risk : W
  pub event_risk : W
  pub reasons : List String
  pub contributions : List (W × String)
  pub cold : Bool
  pub state : IdentityState W

-- The outcome of an attempt, with the state that it offers to the store.
pub record Outcome (W : Type 0) : Type 0 where
  pub scored : Scored W
  pub new_trust : ℤ
  pub decision : Decision
  pub band : Band
  pub step_up : Option StepUpMethod
  pub reasons : List String
  pub degraded : Bool
  pub state : IdentityState W

module _ {W : Type 0} ⦃f : Float W⦄ where
  open f use {lit, add, sub, mul, sum, round4}

  abbrev clipped_risk : TrustEngine W → Option W → Option W
  clipped_risk engine none = none
  clipped_risk engine (some raw) =
      some (engine.libs.clip (sub (lit 5 1) (mul raw (lit 25 1))) zero_float one_float)

  -- `ServingModel.risk` under the engine's `try`: `none` where it raises.
  unfoldable pub model_risk : TrustEngine W → List W → Option W
  model_risk engine vec = clipped_risk engine (engine.model.decision_function vec)

  -- The cold-start prior on the first two features.
  abbrev pub dampen : List W → List W
  dampen (a ∷ b ∷ rest) = mul a (lit 5 1) ∷ mul b (lit 5 1) ∷ rest
  dampen vec = vec

  unfoldable pub det_risk_of : TrustEngine W → List W → W
  unfolding products
  det_risk_of engine vec = engine.libs.clip (sum (products weights vec)) zero_float one_float

  -- The deterministic risk alone where the model gave none.
  abbrev pub hybrid : Option W → W → W
  hybrid none det = det
  hybrid (some ml) det = add (mul (lit 55 2) ml) (mul (lit 45 2) det)

  -- Scoring: from the loaded state to the event risk.
  abbrev pub mark_cold : Bool → IdentityState W → IdentityState W
  mark_cold cold state = if cold then record state { cold_prior_used = true } else state

  unfoldable pub score :
      TrustEngine W → IdentityEvent W → Option W → W → IdentityState W → ℕ → Scored W
  score engine e behavior_anomaly now state dev_count =
      let cold = state.event_count == 0 in
      let (raw, counted) = compute_features e state dev_count behavior_anomaly in
      let prior =
        cold && engine.cold_start_prior && not counted.cold_prior_used && cold_prior_applies e in
      let vec = if prior then dampen raw else raw in
      let marked = mark_cold cold counted in
      let ml_risk = model_risk engine vec in
      let det_risk = det_risk_of engine vec in
      let blended = hybrid ml_risk det_risk in
      let (reasons, contributions) = explain vec in
      let impossible = travels_impossibly engine marked e now in
      record {
        vec = vec;
        ml_risk = ml_risk;
        det_risk = det_risk;
        event_risk =
            if impossible
            then engine.libs.clip (add blended (lit 5 1)) zero_float one_float
            else blended;
        reasons = if impossible then impossible_travel_reason ∷ reasons else reasons;
        contributions = contributions;
        cold = cold;
        state = marked;
      }

  -- The drift detectors on the scored risk: whether one fired, and the state with its history.
  unfoldable pub track : TrustEngine W → Scored W → Bool × IdentityState W
  track engine s =
      let window = last_n 16 (s.state.risk_window ++ round4 s.event_risk ∷ []) in
      let (ewma, cusum, cusum_fired) =
        drift_step engine.drift s.state.risk_ewma s.state.cusum s.event_risk in
      let window_fired = not s.cold && detect engine.drift engine.libs window in
      (
        engine.drift_enabled && (cusum_fired || window_fired),
        record s.state { risk_window = window; risk_ewma = ewma; cusum = cusum },
      )

  -- The decision: the policy, the sticky review of drift, then the degradation rule.
  unfoldable pub judge :
      Bool → Bool → ℤ → W → IdentityEvent W → IdentityState W → Verdict × Bool × IdentityState W
  judge drifting degraded new_trust event_risk e state =
      let decided = decide new_trust event_risk e in
      let review = (drifting || state.under_review) && is_allow decided.0 in
      let reviewed =
        if review
        then (Decision.step_up, Band.drift_review, some (cheapest_sufficient e.event_type true))
        else decided in
      (
        if degraded then apply_degraded reviewed e else reviewed,
        review,
        if review then record state { under_review = true } else state,
      )

  -- What is offered to the store: the new trust, and the profile only of an allowed event.
  unfoldable pub settle : ℤ → Decision → W → IdentityEvent W → IdentityState W → IdentityState W
  unfolding commit_features
  settle new_trust decision now e state =
      let trusted = record state { trust = new_trust } in
      let committed = commit_features trusted e in
      if is_allow decision
      then record committed { last_geo = e.geo; last_geo_ts = now }
      else trusted

  -- The rest of an attempt, once the trust update has returned.
  abbrev pub outcome_of :
      TrustEngine W → IdentityEvent W → W → Scored W → Bool → ℤ → IdentityState W → Outcome W
  outcome_of engine e now s drifting new_trust updated =
      let degraded = not (is_some s.ml_risk) in
      let (verdict, review, judged) = judge drifting degraded new_trust s.event_risk e updated in
      record {
        scored = s;
        new_trust = new_trust;
        decision = verdict.0;
        band = verdict.1;
        step_up = verdict.2;
        reasons = if review then drift_reason ∷ s.reasons else s.reasons;
        degraded = degraded;
        state = settle new_trust verdict.0 now e judged;
      }

  abbrev finish :
      TrustEngine W
      → IdentityEvent W
      → W
      → Scored W
      → Bool
      → Option (ℤ × IdentityState W)
      → Option (Outcome W)
  finish engine e now s drifting none = none
  finish engine e now s drifting (some (new_trust, updated)) =
      some (outcome_of engine e now s drifting new_trust updated)

  -- The body of the loop of `assess`, from the loaded state to the state that it commits; `none`
  -- where it raises.
  unfoldable pub assess_state :
      TrustEngine W → IdentityEvent W → Option W → W → IdentityState W → ℕ → Option (Outcome W)
  assess_state engine e behavior_anomaly now state dev_count =
      let s = score engine e behavior_anomaly now state dev_count in
      let (drifting, tracked) = track engine s in
      finish engine e now s drifting (update_trust engine tracked s.event_risk now)
