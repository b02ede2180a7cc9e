-- ===== src/Engine/Attempt/Poisoning.antt =====
-- Only an allowed event teaches the profile.
use bank_of_baroda_iit_gn.Common.{ℕ, ◌≡◌, ◌≢◌, Bool, Option, some, arith, not, is_some}
use bank_of_baroda_iit_gn.Common.Int.{ℤ}
use bank_of_baroda_iit_gn.Float.{Float}
use bank_of_baroda_iit_gn.Schemas.{Decision, IdentityEvent}
use bank_of_baroda_iit_gn.State.{IdentityState}
use bank_of_baroda_iit_gn.Features.{compute_features}
use bank_of_baroda_iit_gn.Engine.Trust.{TrustEngine, update_trust, roll_window}
use bank_of_baroda_iit_gn.Engine.Attempt.Inversion.{assess_state-Returned}
use bank_of_baroda_iit_gn.Engine.Attempt.{
  Outcome, Scored, score, track, judge, settle, assess_state,
}

-- The profile, the travel reference and the version: all that an event which is not allowed must
-- leave alone.
pub record SameProfile {W : Type 0} (a b : IdentityState W) : Type 0 where
  pub devices : a.devices ≡ b.devices
  pub geos : a.geos ≡ b.geos
  pub hours : a.hours ≡ b.hours
  pub amounts : a.amounts ≡ b.amounts
  pub event_count : a.event_count ≡ b.event_count
  pub last_geo : a.last_geo ≡ b.last_geo
  pub last_geo_ts : a.last_geo_ts ≡ b.last_geo_ts
  pub version : a.version ≡ b.version

SameProfile-trans :
    {W : Type 0} {a b c : IdentityState W} → SameProfile a b → SameProfile b c → SameProfile a c
SameProfile-trans h k = ground arith

module _ {W : Type 0} ⦃f : Float W⦄ (engine : TrustEngine W) (e : IdentityEvent W) where
  pub score-SameProfile :
      (anomaly : Option W) (now : W) (state : IdentityState W) (dev_count : ℕ)
      → SameProfile (score engine e anomaly now state dev_count).state state
  unfolding score compute_features
  score-SameProfile anomaly now state dev_count = ground arith

  pub track-SameProfile : (s : Scored W) → SameProfile (track engine s).1 s.state
  unfolding track
  track-SameProfile s = ground arith

  pub judge-SameProfile :
      (drifting degraded : Bool) (t : ℤ) (risk : W) (state : IdentityState W)
      → SameProfile (judge drifting degraded t risk e state).2 state
  unfolding judge
  judge-SameProfile drifting degraded t risk state = ground arith

  settle-SameProfile :
      (t : ℤ) (d : Decision) (now : W) (state : IdentityState W)
      → d ≢ Decision.allow
      → SameProfile (settle t d now e state) state
  unfolding settle
  settle-SameProfile t d now state blocked = ground arith

  pub update_trust-SameProfile :
      (state after : IdentityState W) (risk now : W) (t : ℤ)
      → update_trust engine state risk now ≡ some (t, after)
      → SameProfile after state
  unfolding update_trust roll_window
  update_trust-SameProfile state after risk now t h = ground arith

  -- An event that is not allowed leaves devices, locations, hours, amounts, event count and travel
  -- reference of the identity as they were loaded.
  pub not_allowed_keeps_profile :
      (anomaly : Option W) (now : W) (state : IdentityState W) (dev_count : ℕ) (o : Outcome W)
      → assess_state engine e anomaly now state dev_count ≡ some o
      → o.decision ≢ Decision.allow
      → SameProfile o.state state
  not_allowed_keeps_profile anomaly now state dev_count o h blocked =
      let s = score engine e anomaly now state dev_count in
      let drifting = (track engine s).0 in
      let r = assess_state-Returned engine e anomaly now state dev_count o h in
      let judged = judge drifting (not (is_some s.ml_risk)) r.trust s.event_risk e r.after in
      let settled = settle-SameProfile r.trust judged.0.0 now judged.2 (rw r.outcome at blocked) in
      rw r.outcome (
        SameProfile-trans settled (
          SameProfile-trans (judge-SameProfile drifting _ r.trust s.event_risk r.after) (
            SameProfile-trans
              (update_trust-SameProfile (track engine s).1 r.after s.event_risk now r.trust
                r.updated)
              (SameProfile-trans (track-SameProfile s)
                (score-SameProfile anomaly now state dev_count)))))
