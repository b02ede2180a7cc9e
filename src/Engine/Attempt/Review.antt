-- ===== src/Engine/Attempt/Review.antt =====
-- When an attempt allows an event, and the sticky review that stops it.
use bank_of_baroda_iit_gn.Common.{
  ℕ, ◌≡◌, ◌≢◌, ◌↔◌, Bool, true, false, ◌&&◌, not, ◌∙◌, Option, some, arith, is_some,
}
use bank_of_baroda_iit_gn.Common.Int.{ℤ, pos, ◌≤ℤ◌}
use bank_of_baroda_iit_gn.Float.{Float, IsClip}
use bank_of_baroda_iit_gn.Schemas.{Decision, IdentityEvent}
use bank_of_baroda_iit_gn.State.{IdentityState}
use bank_of_baroda_iit_gn.Policy.{fail_closed, decide, apply_degraded}
use bank_of_baroda_iit_gn.Features.{compute_features}
use bank_of_baroda_iit_gn.Engine.Trust.{TrustEngine, update_trust, roll_window}
use bank_of_baroda_iit_gn.Engine.Trust.Bounds.{InRange, update_trust-InRange}
use bank_of_baroda_iit_gn.Engine.Attempt.Inversion.{assess_state-Returned}
use bank_of_baroda_iit_gn.Engine.Attempt.{Outcome, score, track, judge, settle, assess_state}

module _ {W : Type 0} ⦃f : Float W⦄ (engine : TrustEngine W) (e : IdentityEvent W) where
  open f use {lt, lit}

  -- Everything that the decision rests on.
  abbrev pub Clear : Bool → Bool → ℤ → W → Bool → Type 0
  Clear drifting degraded trust risk under_review =
      (pos 650 ≤ℤ trust)
      × (lt risk (lit 45 2) ≡ true)
      × (drifting ≡ false)
      × (under_review ≡ false)
      × ((degraded && fail_closed e.event_type) ≡ false)

  judge-allow :
      (drifting degraded : Bool) (t : ℤ) (risk : W) (state : IdentityState W) (flagged : Bool)
      → state.under_review ≡ flagged
      → ((judge drifting degraded t risk e state).0.0 ≡ Decision.allow)
        ↔ Clear drifting degraded t risk flagged
  unfolding judge decide apply_degraded
  judge-allow drifting degraded t risk state flagged h = ground arith

  under_review-track :
      (anomaly : Option W) (now : W) (state : IdentityState W) (dev_count : ℕ)
      → let s = score engine e anomaly now state dev_count in
        (track engine s).1.under_review ≡ state.under_review
  unfolding score track compute_features
  under_review-track anomaly now state dev_count = ground arith

  under_review-update_trust :
      (state after : IdentityState W) (risk now : W) (t : ℤ)
      → update_trust engine state risk now ≡ some (t, after)
      → after.under_review ≡ state.under_review
  unfolding update_trust roll_window
  under_review-update_trust state after risk now t h = ground arith

  settle-keeps :
      (t : ℤ) (d : Decision) (now : W) (state : IdentityState W)
      → ((settle t d now e state).under_review ≡ state.under_review)
        × ((settle t d now e state).trust ≡ t)
  unfolding settle
  settle-keeps t d now state = ground arith

  judge-keeps_review :
      (drifting degraded : Bool) (t : ℤ) (risk : W) (state : IdentityState W)
      → state.under_review ≡ true
      → (judge drifting degraded t risk e state).2.under_review ≡ true
  unfolding judge
  judge-keeps_review drifting degraded t risk state h = ground arith

  -- An attempt allows an event exactly if the new trust score is 650 or more, the event risk is
  -- below 0.45, no drift detector fired, the identity was not under review, and the model answered
  -- or the event is not one of the fail-closed kinds.
  pub allow_exact :
      (anomaly : Option W) (now : W) (state : IdentityState W) (dev_count : ℕ) (o : Outcome W)
      → assess_state engine e anomaly now state dev_count ≡ some o
      → (o.decision ≡ Decision.allow)
        ↔ Clear
            (track engine o.scored).0
            (not (is_some o.scored.ml_risk))
            o.new_trust
            o.scored.event_risk
            state.under_review
  allow_exact anomaly now state dev_count o h =
      let s = score engine e anomaly now state dev_count in
      let drifting = (track engine s).0 in
      let r = assess_state-Returned engine e anomaly now state dev_count o h in
      let kept =
        under_review-update_trust (track engine s).1 r.after s.event_risk now r.trust r.updated in
      rw r.outcome (
        judge-allow drifting (not (is_some s.ml_risk)) r.trust s.event_risk r.after
          state.under_review (kept ∙ under_review-track anomaly now state dev_count))

  -- An identity under review stays under review, and is not allowed, until something other than an
  -- event clears it.
  pub review_is_sticky :
      (anomaly : Option W) (now : W) (state : IdentityState W) (dev_count : ℕ) (o : Outcome W)
      → state.under_review ≡ true
      → assess_state engine e anomaly now state dev_count ≡ some o
      → (o.decision ≢ Decision.allow) × (o.state.under_review ≡ true)
  review_is_sticky anomaly now state dev_count o flagged h =
      let s = score engine e anomaly now state dev_count in
      let drifting = (track engine s).0 in
      let degraded = not (is_some s.ml_risk) in
      let r = assess_state-Returned engine e anomaly now state dev_count o h in
      let judged = judge drifting degraded r.trust s.event_risk e r.after in
      let still : r.after.under_review ≡ true =
        under_review-update_trust (track engine s).1 r.after s.event_risk now r.trust r.updated
        ∙ under_review-track anomaly now state dev_count
        ∙ flagged in
      let exact = allow_exact anomaly now state dev_count o h in
      (
        λ allowed. cc (flagged, (exact.0 allowed).3),
        rw r.outcome (settle-keeps r.trust judged.0.0 now judged.2).0
            ∙ judge-keeps_review drifting degraded r.trust s.event_risk r.after still,
      )

  -- The stored trust score is the reported one, and lies between 0 and 1000.
  pub outcome_trust :
      IsClip engine.libs
      → (anomaly : Option W) (now : W) (state : IdentityState W) (dev_count : ℕ) (o : Outcome W)
      → assess_state engine e anomaly now state dev_count ≡ some o
      → InRange o.new_trust × (o.state.trust ≡ o.new_trust)
  outcome_trust clips anomaly now state dev_count o h =
      let s = score engine e anomaly now state dev_count in
      let r = assess_state-Returned engine e anomaly now state dev_count o h in
      let degraded = not (is_some s.ml_risk) in
      let judged = judge (track engine s).0 degraded r.trust s.event_risk e r.after in
      rw r.outcome (
        update_trust-InRange engine clips (track engine s).1 r.after s.event_risk now r.trust
            r.updated,
        (settle-keeps r.trust judged.0.0 now judged.2).1,
      )
