-- ===== src/Engine/Attempt/Inversion.antt =====
-- An attempt that returned went through the trust update to one outcome.
use bank_of_baroda_iit_gn.Common.{ℕ, ◌≡◌, Option, some, arith, Option-cases, inl, inr}
use bank_of_baroda_iit_gn.Common.Int.{ℤ}
use bank_of_baroda_iit_gn.Float.{Float}
use bank_of_baroda_iit_gn.Schemas.{IdentityEvent}
use bank_of_baroda_iit_gn.State.{IdentityState}
use bank_of_baroda_iit_gn.Engine.Trust.{TrustEngine, update_trust}
use bank_of_baroda_iit_gn.Engine.Attempt.{Outcome, score, track, outcome_of, assess_state}

module _ {W : Type 0} ⦃f : Float W⦄ (engine : TrustEngine W) (e : IdentityEvent W) where
  module _ (anomaly : Option W) (now : W) (state : IdentityState W) (dev_count : ℕ) where
    pub record Returned (o : Outcome W) : Type 0 where
      pub trust : ℤ
      pub after : IdentityState W
      pub updated :
          let s = score engine e anomaly now state dev_count in
          update_trust engine (track engine s).1 s.event_risk now ≡ some (trust, after)
      pub outcome :
          let s = score engine e anomaly now state dev_count in
          o ≡ outcome_of engine e now s (track engine s).0 trust after

    pub assess_state-Returned :
        (o : Outcome W) → assess_state engine e anomaly now state dev_count ≡ some o → Returned o
    unfolding assess_state
    assess_state-Returned o h =
        let s = score engine e anomaly now state dev_count in
        elim (Option-cases (update_trust engine (track engine s).1 s.event_risk now)) [
          | inl raised ↦ absurd (ground arith)
          | inr ((t, after), updated) ↦ record {
            trust = t;
            after = after;
            updated = updated;
            outcome = ground arith;
          }
        ]
