-- ===== src/Engine/Assess/Stored.antt =====
-- What a whole call of `assess` leaves in the store.
use bank_of_baroda_iit_gn.Common.{
  ℕ, zero, suc, ◌+◌, String, ◌≡◌, refl, Bool, true, false, not, Option, none, some, arith, is_some,
  str_eq, Option-cases, inl, inr, ◌∙◌, sym, ap,
}
use bank_of_baroda_iit_gn.Common.Int.{ℤ}
use bank_of_baroda_iit_gn.Float.{Float, IsClip}
use bank_of_baroda_iit_gn.Schemas.{Counterfactual, Decision, IdentityEvent, SocAssessment}
use bank_of_baroda_iit_gn.State.{IdentityState, StateStore, commit, device_add, load}
use bank_of_baroda_iit_gn.State.Commit.{commit_cas, commit_fresh}
use bank_of_baroda_iit_gn.Engine.Trust.{TrustEngine}
use bank_of_baroda_iit_gn.Engine.Trust.Bounds.{InRange}
use bank_of_baroda_iit_gn.Engine.Attempt.{Outcome, assess_state, judge, score, settle, track}
use bank_of_baroda_iit_gn.Engine.Attempt.Inversion.{assess_state-Returned}
use bank_of_baroda_iit_gn.Engine.Attempt.Poisoning.{
  judge-SameProfile, score-SameProfile, track-SameProfile, update_trust-SameProfile,
}
use bank_of_baroda_iit_gn.Engine.Attempt.Review.{outcome_trust}
use bank_of_baroda_iit_gn.Engine.Assess.{
  EngineState, Surroundings, anomaly_of, assess, assess_loop, attempt, build_assessment, explained,
  report, resolve_behavior,
}

module _ {W : Type 0} ⦃f : Float W⦄ (engine : TrustEngine W) (e : IdentityEvent W) where
  settle_version :
      (t : ℤ) (d : Decision) (now : W) (state : IdentityState W)
      → (settle t d now e state).version ≡ state.version
  unfolding settle
  settle_version t d now state = ground arith

  version-assess_state :
      (anomaly : Option W) (now : W) (state : IdentityState W) (dev_count : ℕ) (o : Outcome W)
      → assess_state engine e anomaly now state dev_count ≡ some o
      → o.state.version ≡ state.version
  version-assess_state anomaly now state dev_count o h =
      let s = score engine e anomaly now state dev_count in
      let drifting = (track engine s).0 in
      let r = assess_state-Returned engine e anomaly now state dev_count o h in
      let degraded = not (is_some s.ml_risk) in
      let judged = judge drifting degraded r.trust s.event_risk e r.after in
      rw r.outcome (
        settle_version r.trust judged.0.0 now judged.2
        ∙ (judge-SameProfile engine e drifting degraded r.trust s.event_risk r.after).version
        ∙ (update_trust-SameProfile engine e (track engine s).1 r.after s.event_risk now r.trust
            r.updated).version
        ∙ (track-SameProfile engine e s).version
        ∙ (score-SameProfile engine e anomaly now state dev_count).version)

  -- A store with the outcome of an attempt committed, if there is one.
  committed_to : StateStore W → Option (Outcome W) → Option (Outcome W) × Bool × StateStore W
  committed_to seen none = (none, false, seen)
  committed_to seen (some o) = (some o, true, (commit seen e.identity_id o.state o.state.version).1)

  load-device_add :
      (store : StateStore W) (device id j : String)
      → load (device_add store device id).1 j ≡ load store j
  unfolding load device_add
  load-device_add store device id j = refl

  -- An attempt that nobody disturbs commits its outcome.
  attempt_undisturbed :
      (anomaly : Option W) (now : W) (store : StateStore W)
      → let (dev, seen) = device_add store e.device_id e.identity_id in
        attempt engine e anomaly now (λ st. st) store
        ≡ committed_to seen (assess_state engine e anomaly now (load store e.identity_id) dev)
  unfolding attempt committed_to
  attempt_undisturbed anomaly now store =
      let (dev, seen) = device_add store e.device_id e.identity_id in
      let state = load store e.identity_id in
      elim (Option-cases (assess_state engine e anomaly now state dev)) [
        | inl raised ↦ rw raised
        | inr (o, answered) ↦
            let same : (load seen e.identity_id).version ≡ o.state.version =
              ap (λ (s : IdentityState W). s.version)
                (load-device_add store e.device_id e.identity_id e.identity_id)
              ∙ sym (version-assess_state anomaly now state dev o answered) in
            rw answered (ground (arith, commit_fresh seen e.identity_id o.state same))
      ]

  loop_undisturbed :
      (n : ℕ) (anomaly : Option W) (now : W) (store : StateStore W)
      → assess_loop n engine e anomaly now (λ k st. st) store
        ≡ attempt engine e anomaly now (λ st. st) store
  unfolding assess_loop committed_to
  loop_undisturbed zero anomaly now store = refl
  loop_undisturbed (suc n) anomaly now store =
      let (dev, seen) = device_add store e.device_id e.identity_id in
      let state = load store e.identity_id in
      elim (Option-cases (assess_state engine e anomaly now state dev)) [
        | inl raised ↦ ground (arith, raised, attempt_undisturbed anomaly now store)
        | inr (o, answered) ↦ ground (arith, answered, attempt_undisturbed anomaly now store)
      ]

  explained_outcome :
      (around : Surroundings W) (o : Outcome W) (cf : Option Counterfactual) (soc : SocAssessment W)
      → explained engine e around o cf ≡ some soc
      → (soc.trust_score ≡ o.new_trust) × (soc.decision ≡ o.decision)
  unfolding build_assessment
  explained_outcome around o none soc h = cc (h)
  explained_outcome around o (some cf) soc h = ground (arith, h)

  -- What an undisturbed call of `assess` did that returned: its outcome, which it reported and
  -- committed.
  pub record IsCommitted (around : Surroundings W) (s : EngineState W) (soc : SocAssessment W)
      : Type 0 where
    pub outcome : Outcome W
    pub answered :
        assess_state engine e
          (anomaly_of (resolve_behavior engine around.clock e s.nonces).0)
          around.now_wall
          (load s.store e.identity_id)
          (device_add s.store e.device_id e.identity_id).0
        ≡ some outcome
    pub reported : (soc.trust_score ≡ outcome.new_trust) × (soc.decision ≡ outcome.decision)
    pub version : outcome.state.version ≡ (load s.store e.identity_id).version
    pub own :
        load (assess engine around e s).1.store e.identity_id
        ≡ record outcome.state { version = outcome.state.version + 1 }
    pub others :
        (j : String)
        → str_eq e.identity_id j ≡ false
        → load (assess engine around e s).1.store j ≡ load s.store j

  pub assess-IsCommitted :
      (around : Surroundings W) (s : EngineState W) (soc : SocAssessment W)
      → around.rivals ≡ (λ k st. st)
      → (assess engine around e s).0 ≡ some soc
      → IsCommitted around s soc
  unfolding assess committed_to
  assess-IsCommitted around s soc alone h =
      let (sim, nonces) = resolve_behavior engine around.clock e s.nonces in
      let anomaly = anomaly_of sim in
      let (dev, seen) = device_add s.store e.device_id e.identity_id in
      let state = load s.store e.identity_id in
      let loop : assess_loop 5 engine e anomaly around.now_wall around.rivals s.store
          ≡ committed_to seen (assess_state engine e anomaly around.now_wall state dev) =
        ap (λ r. assess_loop 5 engine e anomaly around.now_wall r s.store) alone
        ∙ loop_undisturbed 5 anomaly around.now_wall s.store
        ∙ attempt_undisturbed anomaly around.now_wall s.store in
      elim (Option-cases (assess_state engine e anomaly around.now_wall state dev)) [
        | inl raised ↦
            let run = loop ∙ ap (committed_to seen) raised in
            let silent : report engine e around none ≡ some soc = rw run at h in
            ground (arith, silent)
        | inr (o, answered) ↦
            let run = loop ∙ ap (committed_to seen) answered in
            let told : report engine e around (some o) ≡ some soc = rw run at h in
            let version = version-assess_state anomaly around.now_wall state dev o answered in
            let same : (load seen e.identity_id).version ≡ o.state.version =
              ap (λ (t : IdentityState W). t.version)
                (load-device_add s.store e.device_id e.identity_id e.identity_id)
              ∙ sym version in
            record {
              outcome = o;
              answered = answered;
              reported = explained_outcome around o _ soc told;
              version = version;
              own = rw run ((commit_fresh seen e.identity_id o.state same).1);
              others = λ j other. rw run (
                  ground (
                    arith,
                    other,
                    commit_cas seen e.identity_id o.state o.state.version j,
                    load-device_add s.store e.device_id e.identity_id j,
                  ));
            }
      ]

  -- If the clip of the libraries is numpy's, nobody else writes and assess returns an assessment,
  -- the identity's state is one version on with the reported trust score, which lies between 0 and
  -- 1000, and no other identity's state has changed.
  pub assess_stored :
      IsClip engine.libs
      → (around : Surroundings W) (s : EngineState W) (soc : SocAssessment W) (j : String)
      → around.rivals ≡ (λ k st. st)
      → (assess engine around e s).0 ≡ some soc
      → str_eq e.identity_id j ≡ false
      → let after = (assess engine around e s).1.store in
        ((load after e.identity_id).trust ≡ soc.trust_score)
        × ((load after e.identity_id).version ≡ (load s.store e.identity_id).version + 1)
        × InRange soc.trust_score
        × (load after j ≡ load s.store j)
  assess_stored clips around s soc j alone h other =
      let c = assess-IsCommitted around s soc alone h in
      let (range, stored) =
        outcome_trust engine e clips _ around.now_wall _ _ c.outcome c.answered in
      rw c.own (ground (arith, c.reported, c.version, range, stored, c.others j other))
