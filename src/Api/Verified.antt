-- ===== src/Api/Verified.antt =====
-- A whole step-up: the verifier service issues the assertion, the endpoint accepts it, and the engine
-- changes trust and review.
use bank_of_baroda_iit_gn.Common.{
  String, ◌+◌, ◌≡◌, ◌∙◌, ap, refl, false, none, some, ok, leb, str_eq, if◌then◌else◌,
}
use bank_of_baroda_iit_gn.Common.Dict.{lookup}
use bank_of_baroda_iit_gn.Float.{Float}
use bank_of_baroda_iit_gn.Schemas.{Decision}
use bank_of_baroda_iit_gn.State.{load}
use bank_of_baroda_iit_gn.Verifier.{
  NonceCache, Payload, Signer, StepUpAssertion, number, prune, remember, text, validate,
}
use bank_of_baroda_iit_gn.Verifier.Service.{IssueRequest, issue_assertion}
use bank_of_baroda_iit_gn.Verifier.Service.Accepted.{IsCarried, issued, validate-issue_assertion}
use bank_of_baroda_iit_gn.Audit.{append}
use bank_of_baroda_iit_gn.Engine.StepUp.{stepped}
use bank_of_baroda_iit_gn.Engine.StepUp.Effect.{step_up_stored, undisturbed}
use bank_of_baroda_iit_gn.Api.{AuditEntry, Config, Service}
use bank_of_baroda_iit_gn.Api.Cache.{rate_count}
use bank_of_baroda_iit_gn.Api.StepUps.{
  StepUpRequest, accept, accepted_max, failure_max, step_up_message, step_up_outcome,
}

module _ {W : Type 0} ⦃f : Float W⦄ (config : Config W) where
  open f use {add, lit, lt}

  -- Within the rate limits, the endpoint does what an accepted assertion asks for.
  step_up_outcome-accept :
      (r : StepUpRequest W) (id : String) (s : Service W) (a : StepUpAssertion W)
      → (rest : NonceCache W) → leb failure_max (rate_count s.stepup_failures id r.now).0 ≡ false
      → leb accepted_max (rate_count s.stepup_accepted id r.now).0 ≡ false
      → validate config.engine.codec config.stepup_key config.max_skew r.clock r.assertion id
          r.validated_at s.stepup_nonces
        ≡ (ok a, rest)
      → step_up_outcome config r id s
        ≡ accept config r id a (record s {
          stepup_failures = (rate_count s.stepup_failures id r.now).1;
          stepup_accepted = (rate_count s.stepup_accepted id r.now).1;
          stepup_nonces = rest;
        })
  unfolding step_up_outcome
  step_up_outcome-accept r id s a rest few_failures few_accepted valid =
      rw (few_failures, valid, few_accepted) refl

  -- If the service's signature verifies under the endpoint's key, an assertion that it issues, used
  -- in time and once, within the rate limits and with no other writer, is answered with its verdict;
  -- the identity's state is stepped up or down accordingly, one version on; the nonce is used up;
  -- and the audit chain gets one record, with the new trust score.
  pub verified_step_up :
      (signer : Signer) (drawn : String) (at : W) (req : IssueRequest) (received : Payload W)
      (r : StepUpRequest W) (s : Service W)
      → IsCarried config.engine.codec signer config.stepup_key
          (issued config.engine.codec signer drawn at req)
          received
      → ((x : W) → config.engine.codec.to_float (number x) ≡ some x)
      → config.engine.codec.hash_key (text drawn) ≡ some drawn
      → r.assertion ≡ issue_assertion config.engine.codec signer drawn at req
      → lt (add at (lit 120 0)) r.validated_at ≡ false
      → lt (add r.validated_at config.max_skew) at ≡ false
      → lookup drawn (prune r.clock s.stepup_nonces) ≡ none
      → leb failure_max (rate_count s.stepup_failures req.identity_id r.now).0 ≡ false
      → leb accepted_max (rate_count s.stepup_accepted req.identity_id r.now).0 ≡ false
      → r.rivals ≡ undisturbed
      → let pass = str_eq req.result "pass" in
        let (response, after) = step_up_outcome config r req.identity_id s in
        let state = load s.engine.store req.identity_id in
        (response
          ≡ ok (record {
            challenge_id = req.challenge_id;
            decision = if pass then Decision.allow else Decision.block;
            message = step_up_message pass;
          }))
        × (load after.engine.store req.identity_id
            ≡ record (stepped state pass) { version = state.version + 1 })
        × (after.stepup_nonces
            ≡ remember drawn (add at (lit 120 0)) (prune r.clock s.stepup_nonces))
        × (after.audit
            ≡ (append config.crypto s.audit
                (AuditEntry.stepped_up req.identity_id
                  (text req.method)
                  (text req.result)
                  (text req.challenge_id)
                  (load after.engine.store req.identity_id).trust)
                r.logged_at).1)
  unfolding accept
  verified_step_up signer drawn at req received r s carried floats key sent live past unused
        few_failures few_accepted alone =
      let codec = config.engine.codec in
      let id = req.identity_id in
      let pass = str_eq req.result "pass" in
      let valid =
        ap
          (λ t.
            validate codec config.stepup_key config.max_skew r.clock t id r.validated_at
              s.stepup_nonces)
          sent
        ∙ validate-issue_assertion codec signer config.stepup_key config.max_skew r.clock drawn at
            r.validated_at s.stepup_nonces req received carried floats key live past unused in
      let run = step_up_outcome-accept r id s _ _ few_failures few_accepted valid in
      let (stored, reported) = step_up_stored id pass s.engine.store in
      rw run (
        rw alone (
          refl,
          stored,
          refl,
          ap
              (λ t.
                (append config.crypto s.audit
                  (AuditEntry.stepped_up id (text req.method) (text req.result)
                    (text req.challenge_id) t)
                  r.logged_at).1)
              reported,
        ))
