-- ===== src/Api/StepUps.antt =====
-- `step_up_outcome`: the signed outcome of a challenge, under two rate limits.
use bank_of_baroda_iit_gn.Common.{ℕ, String, Bool, true, false, Result, ok, err, leb, if◌then◌else◌}
use bank_of_baroda_iit_gn.Float.{Float}
use bank_of_baroda_iit_gn.Schemas.{Decision, StepUpResult}
use bank_of_baroda_iit_gn.State.{StateStore}
use bank_of_baroda_iit_gn.Verifier.{
  Json, NonceCache, Rejection, StepUpAssertion, passed, text, validate,
}
use bank_of_baroda_iit_gn.Audit.{append}
use bank_of_baroda_iit_gn.Engine.StepUp.{apply_verified_step_up}
use bank_of_baroda_iit_gn.Api.{AuditEntry, Config, HttpError, Service}
use bank_of_baroda_iit_gn.Api.Cache.{note, rate_count}

abbrev pub accepted_max : ℕ
accepted_max = 5

abbrev pub failure_max : ℕ
failure_max = 20

-- `_STEPUP_MESSAGE`
unfoldable pub step_up_message : Bool → String
step_up_message true = "Verification successful."
step_up_message false = "Verification failed."

-- The four clocks that one request reads, and what other clients do to the store between the
-- attempts of the engine.
pub record StepUpRequest (W : Type 0) : Type 0 where
  pub assertion : String
  pub now : W
  pub validated_at : W
  pub clock : W
  pub logged_at : W
  pub rivals : ℕ → StateStore W → StateStore W

-- The response; the model of the response refuses a challenge that is not a text.
abbrev answer : {W : Type 0} → Bool → Json W → Result HttpError StepUpResult
unfolding step_up_message
answer pass (text challenge) = ok (record {
  challenge_id = challenge;
  decision = if pass then Decision.allow else Decision.block;
  message = step_up_message pass;
})
answer pass _ = err HttpError.server_error

module _ {W : Type 0} ⦃f : Float W⦄ (config : Config W) where
  abbrev log_entry : AuditEntry W → W → Service W → Service W
  unfolding append
  log_entry entry now s = record s { audit = (append config.crypto s.audit entry now).1 }

  -- The effect of an outcome that passed every check.
  unfoldable pub accept :
      StepUpRequest W
      → String
      → StepUpAssertion W
      → Service W
      → Result HttpError StepUpResult × Service W
  unfolding apply_verified_step_up note append step_up_message
  accept r identity_id a s =
      let (new_trust, store) =
        apply_verified_step_up identity_id (passed a) r.rivals s.engine.store in
      let noted = record s {
        stepup_accepted = note s.stepup_accepted identity_id r.now;
        engine = record s.engine { store = store };
      } in
      (
        answer (passed a) a.challenge_id,
        log_entry (AuditEntry.stepped_up identity_id a.method a.result a.challenge_id new_trust)
            r.logged_at noted,
      )

  abbrev accept_limited :
      StepUpRequest W
      → String
      → StepUpAssertion W
      → Service W
      → Result HttpError StepUpResult × Service W
  accept_limited r identity_id a s =
      let (n, bucket) = rate_count s.stepup_accepted identity_id r.now in
      let pruned = record s { stepup_accepted = bucket } in
      if leb accepted_max n then (err HttpError.too_many, pruned) else accept r identity_id a pruned

  -- `except AssertionRejected`; any other exception leaves the handler.
  unfoldable pub refuse :
      StepUpRequest W → String → Rejection → Service W → Result HttpError StepUpResult × Service W
  unfolding note append
  refuse r identity_id Rejection.crash s = (err HttpError.server_error, s)
  refuse r identity_id e s = (
    err HttpError.unauthorized,
    log_entry (AuditEntry.step_up_rejected identity_id e) r.logged_at
        (record s { stepup_failures = note s.stepup_failures identity_id r.now }),
  )

  abbrev judged :
      StepUpRequest W
      → String
      → Service W
      → Result Rejection (StepUpAssertion W) × NonceCache W
      → Result HttpError StepUpResult × Service W
  judged r identity_id s (ok a, nonces) =
      accept_limited r identity_id a (record s { stepup_nonces = nonces })
  judged r identity_id s (err e, nonces) =
      refuse r identity_id e (record s { stepup_nonces = nonces })

  abbrev check :
      StepUpRequest W → String → Service W → Result Rejection (StepUpAssertion W) × NonceCache W
  check r identity_id s =
      validate config.engine.codec config.stepup_key config.max_skew r.clock r.assertion identity_id
        r.validated_at s.stepup_nonces

  -- `step_up_outcome`
  unfoldable pub step_up_outcome :
      StepUpRequest W → String → Service W → Result HttpError StepUpResult × Service W
  step_up_outcome r identity_id s =
      let (n, bucket) = rate_count s.stepup_failures identity_id r.now in
      let pruned = record s { stepup_failures = bucket } in
      if leb failure_max n
      then (err HttpError.too_many, pruned)
      else judged r identity_id pruned (check r identity_id pruned)
