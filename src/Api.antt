-- ===== src/Api.antt =====
-- backend/app/main.py: the endpoints over the shared state of one process. The caller has passed
-- authentication. Hashing an event and reading the clock are parameters and arguments.
pub mod Cache
pub mod Events
pub mod StepUps
pub mod Idempotency
pub mod Guards
pub mod Verified
use bank_of_baroda_iit_gn.Common.{String, List, Option, Bool}
use bank_of_baroda_iit_gn.Common.Int.{ℤ}
use bank_of_baroda_iit_gn.Common.Dict.{Dict}
use bank_of_baroda_iit_gn.Float.{Float}
use bank_of_baroda_iit_gn.Schemas.{AuditPayload, IdentityEvent, RiskAssessment}
use bank_of_baroda_iit_gn.Verifier.{Bytes, Json, NonceCache, Rejection, SignatureVerifier}
use bank_of_baroda_iit_gn.Audit.{AuditLog, Crypto}
use bank_of_baroda_iit_gn.Keystore.{PiiStore, Vault}
use bank_of_baroda_iit_gn.Engine.Trust.{TrustEngine}
use bank_of_baroda_iit_gn.Engine.Assess.{EngineState}

-- The payloads of the audit chain, and the material of the vault.
pub data AuditEntry (W : Type 0) : Type 0 where
  assessed : AuditPayload W → Option String → AuditEntry W
  step_up_rejected : String → Rejection → AuditEntry W
  stepped_up : String → Json W → Json W → Json W → ℤ → AuditEntry W
  erasure : String → Bool → AuditEntry W

pub record Material : Type 0 where
  pub identity_token : String
  pub geo : String
  pub device : String

-- `HTTPException` with its status: 409, 429, 401, and 500 for an exception that nobody catches.
pub data HttpError : Type 0 where
  conflict too_many unauthorized server_error : HttpError

-- `_idem_cache`, the oldest entry first: caller and key, then fingerprint and response.
abbrev pub IdemCache : Type 0 → Type 0
IdemCache W = List ((String × String) × (String × RiskAssessment W))

-- What the service is built with at its start.
pub record Config (W : Type 0) : Type 0 where
  pub engine : TrustEngine W
  pub stepup_key : SignatureVerifier
  pub max_skew : W
  pub crypto : Crypto (AuditEntry W) W
  pub vault : Vault Material
  -- `json.dumps(body, sort_keys=True).encode()` of an event, and SHA-256.
  pub dump_event : IdentityEvent W → Bytes
  pub sha256 : Bytes → String

-- The module's state.
pub record Service (W : Type 0) : Type 0 where
  pub engine : EngineState W
  pub audit : AuditLog (AuditEntry W) W
  pub pii : PiiStore
  pub idem : IdemCache W
  pub stepup_accepted : Dict (List W)
  pub stepup_failures : Dict (List W)
  pub stepup_nonces : NonceCache W
