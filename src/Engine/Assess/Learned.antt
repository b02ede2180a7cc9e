-- ===== src/Engine/Assess/Learned.antt =====
-- What the behavioural profile learns from one call of `assess`: the event, if it was allowed.
use bank_of_baroda_iit_gn.Common.{
  ℕ, ◌+◌, ◌≡◌, ◌∙◌, Option, some, not, is_some, arith, if◌then◌else◌,
}
use bank_of_baroda_iit_gn.Common.Int.{ℤ}
use bank_of_baroda_iit_gn.Float.{Float}
use bank_of_baroda_iit_gn.Schemas.{Decision, IdentityEvent, SocAssessment, is_allow}
use bank_of_baroda_iit_gn.State.{IdentityState, load}
use bank_of_baroda_iit_gn.Features.{append_amount, commit_features}
use bank_of_baroda_iit_gn.Engine.Trust.{TrustEngine}
use bank_of_baroda_iit_gn.Engine.Attempt.{Outcome, assess_state, judge, score, settle, track}
use bank_of_baroda_iit_gn.Engine.Attempt.Inversion.{assess_state-Returned}
use bank_of_baroda_iit_gn.Engine.Attempt.Poisoning.{
  judge-SameProfile, score-SameProfile, track-SameProfile, update_trust-SameProfile,
}
use bank_of_baroda_iit_gn.Engine.Assess.{EngineState, Surroundings, assess}
use bank_of_baroda_iit_gn.Engine.Assess.Stored.{assess-IsCommitted}

-- The profile that is learned from an event that is allowed or not.
pub record IsLearned {W : Type 0} ⦃f : Float W⦄ (e : IdentityEvent W) (d : Decision)
    (before after : IdentityState W) : Type 0 where
  pub events :
      after.event_count ≡ (if is_allow d then before.event_count + 1 else before.event_count)
  pub amounts :
      after.amounts ≡ (if is_allow d then append_amount before.amounts e.amount else before.amounts)

module _ {W : Type 0} ⦃f : Float W⦄ (engine : TrustEngine W) (e : IdentityEvent W) where
  settle-IsLearned :
      (t : ℤ) (d : Decision) (now : W) (before state : IdentityState W)
      → state.event_count ≡ before.event_count
      → state.amounts ≡ before.amounts
      → IsLearned e d before (settle t d now e state)
  unfolding settle commit_features
  settle-IsLearned t d now before state events amounts = record {
    events = ground (arith, events);
    amounts = ground (arith, amounts);
  }

  outcome-IsLearned :
      (anomaly : Option W) (now : W) (state : IdentityState W) (dev_count : ℕ) (o : Outcome W)
      → assess_state engine e anomaly now state dev_count ≡ some o
      → IsLearned e o.decision state o.state
  outcome-IsLearned anomaly now state dev_count o h =
      let s = score engine e anomaly now state dev_count in
      let drifting = (track engine s).0 in
      let r = assess_state-Returned engine e anomaly now state dev_count o h in
      let degraded = not (is_some s.ml_risk) in
      let judged = judge drifting degraded r.trust s.event_risk e r.after in
      let a = judge-SameProfile engine e drifting degraded r.trust s.event_risk r.after in
      let b =
        update_trust-SameProfile engine e (track engine s).1 r.after s.event_risk now r.trust
          r.updated in
      let c = track-SameProfile engine e s in
      let d = score-SameProfile engine e anomaly now state dev_count in
      rw r.outcome (
        settle-IsLearned r.trust judged.0.0 now state judged.2
          (a.event_count ∙ b.event_count ∙ c.event_count ∙ d.event_count)
          (a.amounts ∙ b.amounts ∙ c.amounts ∙ d.amounts))

  -- An undisturbed call that returns learns its event if it was allowed, and else nothing.
  pub assess-IsLearned :
      (around : Surroundings W) (s : EngineState W) (soc : SocAssessment W)
      → around.rivals ≡ (λ k st. st)
      → (assess engine around e s).0 ≡ some soc
      → IsLearned e soc.decision
          (load s.store e.identity_id)
          (load (assess engine around e s).1.store e.identity_id)
  assess-IsLearned around s soc alone h =
      let c = assess-IsCommitted engine e around s soc alone h in
      let learned = outcome-IsLearned _ around.now_wall _ _ c.outcome c.answered in
      rw (c.own, c.reported.1) (record { events = learned.events; amounts = learned.amounts })
