-- ===== src/Pipeline.antt =====
-- The scaled-out topology: backend/app/ingress.py puts events on the topic and answers polls,
-- backend/app/scoring_pod.py scores what it consumes. Kafka hands a pod its messages in order; the
-- parser of events (pydantic) and the raw form of an event are parameters. Postgres may be down for
-- a call, which then raises and writes nothing.
pub mod Delivery
pub mod Sink
pub mod Audited
use bank_of_baroda_iit_gn.Common.{
  String, Bool, true, false, Option, none, some, List, [], ◌∷◌, ◌++◌, Result, ok, err, or_raise,
  if◌then◌else◌,
}
use bank_of_baroda_iit_gn.Common.Dict.{Dict}
use bank_of_baroda_iit_gn.Float.{Float}
use bank_of_baroda_iit_gn.Schemas.{
  AuditPayload, Decision, IdentityEvent, RiskAssessment, SocAssessment, to_audit_payload,
  to_client_assessment,
}
use bank_of_baroda_iit_gn.Audit.{AuditRecord, Crypto}
use bank_of_baroda_iit_gn.Durable.{DecisionRow, put_decision}
use bank_of_baroda_iit_gn.Durable as Durable
use bank_of_baroda_iit_gn.Durable.AuditTable.{Table, append_row}
use bank_of_baroda_iit_gn.Engine.Trust.{TrustEngine}
use bank_of_baroda_iit_gn.Engine.Assess.{EngineState, Surroundings, assess}

-- `msg.value`: `none` where a key is missing, or where the value is no object. `R` is the JSON of an event.
pub record Message (R : Type 0) : Type 0 where
  pub event_id : Option String
  pub event : Option R

-- `decision.value`
unfoldable pub decision_value : Decision → String
decision_value Decision.allow = "ALLOW"
decision_value Decision.step_up = "STEP_UP"
decision_value Decision.block = "BLOCK"

-- `soc.to_audit_payload()` with the pod's name.
pub record PodPayload (W : Type 0) : Type 0 where
  pub assessment : AuditPayload W
  pub pod : String

abbrev pub Decisions : Type 0 → Type 0
Decisions W = Dict (DecisionRow (RiskAssessment W) W)

-- What a pod is built with.
pub record PodConfig (W R : Type 0) : Type 0 where
  pub engine : TrustEngine W
  pub crypto : Crypto (PodPayload W) W
  pub audit_table : Table (PodPayload W)
  pub pod : String
  -- `IdentityEvent(**rec["event"])`; `none` where the validation raises.
  pub parse : R → Option (IdentityEvent W)

-- A message with what surrounds its handling.
pub record Delivered (W R : Type 0) : Type 0 where
  pub message : Message R
  pub around : Surroundings W
  pub audited_at : W
  pub decided_at : W
  pub audit_up : Bool
  pub sink_up : Bool

-- What the pod changes: the states of identities, the audit table and the table of decisions.
pub record Pod (W : Type 0) : Type 0 where
  pub engine : EngineState W
  pub audit : List (AuditRecord (PodPayload W) W)
  pub decisions : Decisions W

module _ {W R : Type 0} ⦃f : Float W⦄ (config : PodConfig W R) where
  abbrev parsed : Option R → Option (IdentityEvent W)
  parsed none = none
  parsed (some r) = config.parse r

  abbrev put_decided :
      Option String → IdentityEvent W → SocAssessment W → W → Decisions W → Decisions W
  put_decided none e soc now rows = rows
  put_decided (some event_id) e soc now rows =
      put_decision event_id e.identity_id (decision_value soc.decision) (to_client_assessment soc)
        now rows

  -- `decisions.put(…)`, which raises before it writes if the identifier is missing.
  abbrev decide_soc : Delivered W R → IdentityEvent W → SocAssessment W → Pod W → Pod W
  decide_soc d e soc s =
      if d.sink_up
      then record s { decisions = put_decided d.message.event_id e soc d.decided_at s.decisions }
      else s

  abbrev payload_of : SocAssessment W → PodPayload W
  payload_of soc = record { assessment = to_audit_payload soc; pod = config.pod }

  -- `audit.append(payload)`, then the decision.
  abbrev persist : Delivered W R → IdentityEvent W → SocAssessment W → Pod W → Pod W
  persist d e soc s =
      if d.audit_up
      then decide_soc d e soc (record s {
        audit =
            (append_row config.crypto config.audit_table (payload_of soc) d.audited_at s.audit).1;
      })
      else s

  abbrev persist_assessed :
      Delivered W R → IdentityEvent W → Option (SocAssessment W) → Pod W → Pod W
  persist_assessed d e none s = s
  persist_assessed d e (some soc) s = persist d e soc s

  abbrev handle_event : Delivered W R → Option (IdentityEvent W) → Pod W → Pod W
  handle_event d none s = s
  handle_event d (some e) s =
      let (soc, engine) = assess config.engine d.around e s.engine in
      persist_assessed d e soc (record s { engine = engine })

  -- One turn of the loop of `main` on a message that was read: every exception ends the turn and no
  -- more.
  unfoldable pub handle_message : Delivered W R → Pod W → Pod W
  handle_message d s = handle_event d (parsed d.message.event) s

  -- The loop over the messages that the pod is handed.
  unfoldable pub consume : List (Delivered W R) → Pod W → Pod W
  consume [] s = s
  consume (d ∷ ds) s = consume ds (handle_message d s)

  -- The messages that the loop reaches: where the value of one is not JSON, for which `none` stands
  -- here, `value_deserializer` raises outside the `try` of the loop, and the pod ends.
  unfoldable pub handed : List (Option (Delivered W R)) → List (Delivered W R)
  handed [] = []
  handed (none ∷ ds) = []
  handed (some d ∷ ds) = d ∷ handed ds

  -- The pod on the messages of its partitions, until it ends.
  unfoldable pub run : List (Option (Delivered W R)) → Pod W → Pod W
  unfolding handed consume
  run ds s = consume (handed ds) s

-- `ingest_event` of the ingress: what is sent under the identity as the key, and what is answered.
-- `model_dump` is a parameter; the identifier is fresh.
unfoldable pub ingest_event :
    {W R : Type 0}
    → (IdentityEvent W → R)
    → String
    → IdentityEvent W
    → List (String × Message R)
    → String × List (String × Message R)
ingest_event dump event_id e topic = (
  event_id,
  topic ++ (e.identity_id, record { event_id = some event_id; event = some (dump e) }) ∷ [],
)

-- `HTTPException(404)`
pub data Pending : Type 0 where
  pending : Pending

-- `get_decision` of the ingress
unfoldable pub get_decision :
    {W : Type 0} → String → Decisions W → Result Pending (RiskAssessment W)
get_decision event_id rows = or_raise (Durable.get_decision event_id rows) pending
