-- ===== src/Api/Events.antt =====
-- `ingest_event`, `erase_identity` and the reading endpoints.
use bank_of_baroda_iit_gn.Common.{
  ℕ, String, Bool, Option, none, some, List, Result, ok, err, length, str_eq, if◌then◌else◌,
}
use bank_of_baroda_iit_gn.Common.Int.{ℤ}
use bank_of_baroda_iit_gn.Float.{Float}
use bank_of_baroda_iit_gn.Schemas.{
  IdentityEvent, RiskAssessment, SocAssessment, to_audit_payload, to_client_assessment,
}
use bank_of_baroda_iit_gn.Verifier.{Bytes}
use bank_of_baroda_iit_gn.Audit.{AuditRecord, append, verify_chain, head_checkpoint, tail}
use bank_of_baroda_iit_gn.Keystore.{PiiStore, Failure, put, is_erased, shred}
use bank_of_baroda_iit_gn.Engine.Assess.{
  EngineState, Surroundings, assess, identity_snapshot, model_mode,
}
use bank_of_baroda_iit_gn.Api.{AuditEntry, Config, HttpError, Service}
use bank_of_baroda_iit_gn.Api.Cache.{idem_get, idem_last, idem_store}

-- The response of `health`.
pub record Health : Type 0 where
  pub status : String
  pub service : String
  pub mode : String
  pub model : String
  pub audit_chain_intact : Bool

-- `if event.idempotency_key: cache_key = (ctx.client_id, event.idempotency_key)`
abbrev pub cache_key : String → Option String → Option (String × String)
cache_key client_id none = none
cache_key client_id (some k) = if str_eq k "" then none else some (client_id, k)

-- What one request takes from outside: the surroundings of `assess`, the key that Fernet would
-- generate, and the time of the audit record.
pub record Request (W : Type 0) : Type 0 where
  pub around : Surroundings W
  pub generated : Bytes
  pub logged_at : W

module _ {W : Type 0} ⦃f : Float W⦄ (config : Config W) where
  -- `_event_fingerprint`
  unfoldable pub event_fingerprint : IdentityEvent W → String
  event_fingerprint e = config.sha256 (config.dump_event (record e { idempotency_key = none }))

  abbrev ref_or_none : Result Failure String × PiiStore → Option String × PiiStore
  ref_or_none (ok ref, pii) = (some ref, pii)
  ref_or_none (err e, pii) = (none, pii)

  -- The material of an identity that is not erased goes into the vault; `put` does not raise then.
  unfoldable pub collect : IdentityEvent W → Bytes → PiiStore → Option String × PiiStore
  unfolding is_erased put
  collect e generated pii =
      if is_erased e.identity_id pii
      then (none, pii)
      else ref_or_none (
          put config.vault e.identity_id
            (record { identity_token = e.identity_id; geo = e.geo; device = e.device_id }) generated
            pii)

  abbrev remember_response :
      Option (String × String) → String → RiskAssessment W → Service W → Service W
  unfolding idem_store
  remember_response none fingerprint client s = s
  remember_response (some k) fingerprint client s = record s {
    idem = idem_store k (fingerprint, client) s.idem;
  }

  -- The rest of the handler, once `assess` has returned.
  unfoldable pub record_assessment :
      Request W
      → IdentityEvent W
      → Option (String × String)
      → SocAssessment W
      → Service W
      → RiskAssessment W × Service W
  unfolding append collect idem_store event_fingerprint to_audit_payload to_client_assessment
  record_assessment r e key soc s =
      let (pii_ref, pii) = collect e r.generated s.pii in
      let (entry, audit) =
        append config.crypto s.audit (AuditEntry.assessed (to_audit_payload soc) pii_ref)
          r.logged_at in
      let client = to_client_assessment soc in
      (
        client,
        remember_response key (event_fingerprint e) client (record s { pii = pii; audit = audit }),
      )

  abbrev assessed_event :
      Request W
      → IdentityEvent W
      → Option (String × String)
      → Service W
      → Option (SocAssessment W) × EngineState W
      → Result HttpError (RiskAssessment W) × Service W
  unfolding record_assessment
  assessed_event r e key s (none, engine) =
      (err HttpError.server_error, record s { engine = engine })
  assessed_event r e key s (some soc, engine) =
      let (client, after) = record_assessment r e key soc (record s { engine = engine }) in
      (ok client, after)

  -- The handler without a cached response.
  unfoldable pub ingest_new :
      Request W
      → IdentityEvent W
      → Option (String × String)
      → Service W
      → Result HttpError (RiskAssessment W) × Service W
  unfolding record_assessment assess
  ingest_new r e key s = assessed_event r e key s (assess config.engine r.around e s.engine)

  abbrev cached_or_new :
      Request W
      → IdentityEvent W
      → String × String
      → Option (String × RiskAssessment W)
      → Service W
      → Result HttpError (RiskAssessment W) × Service W
  unfolding ingest_new idem_last event_fingerprint
  cached_or_new r e key none s = ingest_new r e (some key) s
  cached_or_new r e key (some (stored_fp, stored_resp)) s =
      if str_eq stored_fp (event_fingerprint e)
      then (ok stored_resp, record s { idem = idem_last key (stored_fp, stored_resp) s.idem })
      else (err HttpError.conflict, s)

  abbrev ingest_with :
      Request W
      → IdentityEvent W
      → Option (String × String)
      → Service W
      → Result HttpError (RiskAssessment W) × Service W
  unfolding ingest_new idem_get idem_last event_fingerprint
  ingest_with r e none s = ingest_new r e none s
  ingest_with r e (some key) s = cached_or_new r e key (idem_get key s.idem) s

  -- `ingest_event`
  unfoldable pub ingest_event :
      Request W
      → String
      → IdentityEvent W
      → Service W
      → Result HttpError (RiskAssessment W) × Service W
  unfolding ingest_new idem_get idem_last event_fingerprint
  ingest_event r client_id e s = ingest_with r e (cache_key client_id e.idempotency_key) s

  -- `erase_identity`: whether the identity existed and whether the chain is intact.
  unfoldable pub erase_identity : String → W → Service W → (Bool × Bool) × Service W
  unfolding shred append verify_chain
  erase_identity identity_id now s =
      let (existed, pii) = shred identity_id s.pii in
      let (entry, audit) =
        append config.crypto s.audit (AuditEntry.erasure identity_id existed) now in
      ((existed, verify_chain config.crypto audit), record s { pii = pii; audit = audit })

  -- `identity_state`, `audit_tail` and `audit_verify`
  unfoldable pub identity_state : String → Service W → ℤ × ℕ × ℕ
  unfolding identity_snapshot
  identity_state identity_id s = identity_snapshot s.engine.store identity_id

  unfoldable pub audit_tail : ℤ → Service W → Bool × List (AuditRecord (AuditEntry W) W)
  unfolding verify_chain tail
  audit_tail n s = (verify_chain config.crypto s.audit, tail s.audit n)

  unfoldable pub audit_verify : Service W → Bool × ℕ × String
  unfolding verify_chain head_checkpoint
  audit_verify s = (
    verify_chain config.crypto s.audit,
    length s.audit.records,
    head_checkpoint config.crypto s.audit,
  )

  -- `health`; `mode` is the mode of the settings.
  unfoldable pub health : String → Service W → Health
  unfolding verify_chain
  health mode s = record {
    status = "ok";
    service = "pramaan";
    mode = mode;
    model = model_mode config.engine;
    audit_chain_intact = verify_chain config.crypto s.audit;
  }
