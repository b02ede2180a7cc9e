-- ===== src/Api/Guards.antt =====
-- What the handlers leave alone.
use bank_of_baroda_iit_gn.Common.{
  String, ◌≡◌, true, false, Option, none, some, err, is_ok, arith, leb, Bool-cases, Option-cases,
  Result-cases, inl, inr,
}
use bank_of_baroda_iit_gn.Float.{Float}
use bank_of_baroda_iit_gn.Schemas.{IdentityEvent}
use bank_of_baroda_iit_gn.Verifier.{Bytes, StepUpAssertion, Rejection, validate}
use bank_of_baroda_iit_gn.Audit.{verify_chain}
use bank_of_baroda_iit_gn.Audit.Chain.{append_keeps_verdict}
use bank_of_baroda_iit_gn.Keystore.{PiiStore, is_erased}
use bank_of_baroda_iit_gn.Engine.Assess.{assess}
use bank_of_baroda_iit_gn.Api.{AuditEntry, Config, Service}
use bank_of_baroda_iit_gn.Api.Cache.{rate_count}
use bank_of_baroda_iit_gn.Api.Events.{
  Request, cache_key, collect, ingest_event, ingest_new, record_assessment, erase_identity,
}
use bank_of_baroda_iit_gn.Api.StepUps.{
  StepUpRequest, accept, refuse, step_up_outcome, accepted_max, failure_max,
}

module _ {W : Type 0} ⦃f : Float W⦄ (config : Config W) where
  refused :
      (r : StepUpRequest W) (id : String) (e : Rejection) (s : Service W)
      → let (response, after) = refuse config r id e s in
        (is_ok response ≡ false)
        × (after.engine ≡ s.engine)
        × (after.stepup_accepted ≡ s.stepup_accepted)
        × (after.pii ≡ s.pii)
        × (after.idem ≡ s.idem)
  unfolding refuse
  refused r id e s = ground arith

  -- A step-up whose assertion is rejected changes no identity's state, uses up nothing of the
  -- budget for accepted step-ups, touches neither vault nor cached responses, and never succeeds.
  pub rejected_step_up_is_harmless :
      (r : StepUpRequest W) (id : String) (s : Service W) (e : Rejection)
      → (validate config.engine.codec config.stepup_key config.max_skew r.clock r.assertion id
          r.validated_at s.stepup_nonces).0
        ≡ err e
      → let (response, after) = step_up_outcome config r id s in
        (is_ok response ≡ false)
        × (after.engine ≡ s.engine)
        × (after.stepup_accepted ≡ s.stepup_accepted)
        × (after.pii ≡ s.pii)
        × (after.idem ≡ s.idem)
  unfolding step_up_outcome refuse
  rejected_step_up_is_harmless r id s e h = ground (
    arith,
    h,
    refused r id e (record s {
      stepup_failures = (rate_count s.stepup_failures id r.now).1;
      stepup_nonces =
          (validate config.engine.codec config.stepup_key config.max_skew r.clock r.assertion id
            r.validated_at s.stepup_nonces).1;
    }),
  )

  collect_erased :
      (e : IdentityEvent W) (generated : Bytes) (pii : PiiStore)
      → is_erased e.identity_id pii ≡ true
      → collect config e generated pii ≡ (none, pii)
  unfolding collect
  collect_erased e generated pii h = rw h

  new_erased :
      (r : Request W) (e : IdentityEvent W) (key : Option (String × String)) (s : Service W)
      → is_erased e.identity_id s.pii ≡ true
      → (ingest_new config r e key s).1.pii ≡ s.pii
  unfolding ingest_new record_assessment
  new_erased r e none s h =
      let scored = assess config.engine r.around e s.engine in
      elim (Option-cases scored.0) [
        | inl raised ↦ rw raised
        | inr (soc, found) ↦ rw (found, (collect_erased e r.generated s.pii h))
      ]
  new_erased r e (some key) s h =
      let scored = assess config.engine r.around e s.engine in
      elim (Option-cases scored.0) [
        | inl raised ↦ rw raised
        | inr (soc, found) ↦ rw (found, (collect_erased e r.generated s.pii h))
      ]

  -- An event of an erased identity puts nothing into the vault.
  pub erased_is_not_collected :
      (r : Request W) (client : String) (e : IdentityEvent W) (s : Service W)
      → is_erased e.identity_id s.pii ≡ true
      → (ingest_event config r client e s).1.pii ≡ s.pii
  unfolding ingest_event
  erased_is_not_collected r client e s h =
      ground
        (arith, new_erased r e none s h, new_erased r e (cache_key client e.idempotency_key) s h)

  ingest_new_keeps :
      (r : Request W) (e : IdentityEvent W) (key : Option (String × String)) (s : Service W)
      → verify_chain config.crypto (ingest_new config r e key s).1.audit
        ≡ verify_chain config.crypto s.audit
  unfolding ingest_new record_assessment
  ingest_new_keeps r e none s =
      let scored = assess config.engine r.around e s.engine in
      elim (Option-cases scored.0) [
        | inl raised ↦ ground (arith, raised)
        | inr (soc, found) ↦ rw found (append_keeps_verdict config.crypto s.audit _ r.logged_at)
      ]
  ingest_new_keeps r e (some key) s =
      let scored = assess config.engine r.around e s.engine in
      elim (Option-cases scored.0) [
        | inl raised ↦ ground (arith, raised)
        | inr (soc, found) ↦ rw found (append_keeps_verdict config.crypto s.audit _ r.logged_at)
      ]

  ingest_keeps :
      (r : Request W) (client : String) (e : IdentityEvent W) (s : Service W)
      → verify_chain config.crypto (ingest_event config r client e s).1.audit
        ≡ verify_chain config.crypto s.audit
  unfolding ingest_event
  ingest_keeps r client e s = ground (
    arith,
    ingest_new_keeps r e none s,
    ingest_new_keeps r e (cache_key client e.idempotency_key) s,
  )

  accept_keeps :
      (q : StepUpRequest W) (id : String) (a : StepUpAssertion W) (s : Service W)
      → verify_chain config.crypto (accept config q id a s).1.audit
        ≡ verify_chain config.crypto s.audit
  unfolding accept
  accept_keeps q id a s = append_keeps_verdict config.crypto s.audit _ q.logged_at

  refuse_keeps :
      (q : StepUpRequest W) (id : String) (e : Rejection) (s : Service W)
      → verify_chain config.crypto (refuse config q id e s).1.audit
        ≡ verify_chain config.crypto s.audit
  unfolding refuse
  refuse_keeps q id e s = ground (
    arith,
    append_keeps_verdict config.crypto s.audit (AuditEntry.step_up_rejected id e) q.logged_at,
  )

  step_up_keeps :
      (q : StepUpRequest W) (id : String) (s : Service W)
      → verify_chain config.crypto (step_up_outcome config q id s).1.audit
        ≡ verify_chain config.crypto s.audit
  unfolding step_up_outcome
  step_up_keeps q id s =
      let checked =
        validate config.engine.codec config.stepup_key config.max_skew q.clock q.assertion id
          q.validated_at s.stepup_nonces in
      elim (Bool-cases (leb failure_max (rate_count s.stepup_failures id q.now).0)) [
        | inl flooded ↦ rw flooded
        | inr open_gate ↦ elim (Result-cases checked.0) [
          | inl (e, rejected) ↦ rw (open_gate, rejected) (refuse_keeps q id e _)
          | inr (a, accepted) ↦
              elim (Bool-cases (leb accepted_max (rate_count s.stepup_accepted id q.now).0)) [
                | inl tired ↦ rw (open_gate, accepted, tired)
                | inr rested ↦ rw (open_gate, accepted, rested) (accept_keeps q id a _)
              ]
        ]
      ]

  -- No handler breaks the audit chain, or mends a broken one.
  pub handlers_keep_verdict :
      (r : Request W) (q : StepUpRequest W) (client id : String) (e : IdentityEvent W) (now : W)
      (s : Service W)
      → let verdict = verify_chain config.crypto s.audit in
        (verify_chain config.crypto (ingest_event config r client e s).1.audit ≡ verdict)
        × (verify_chain config.crypto (step_up_outcome config q id s).1.audit ≡ verdict)
        × (verify_chain config.crypto (erase_identity config id now s).1.audit ≡ verdict)
  unfolding erase_identity
  handlers_keep_verdict r q client id e now s = (
    ingest_keeps r client e s,
    step_up_keeps q id s,
    append_keeps_verdict config.crypto s.audit _ now,
  )
