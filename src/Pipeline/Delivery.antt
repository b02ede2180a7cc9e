-- ===== src/Pipeline/Delivery.antt =====
-- What a pod makes of the messages that it consumes: the cases of one turn of its loop, and what
-- follows for all of them.
use bank_of_baroda_iit_gn.Common.{
  String, ◌≡◌, refl, ◌∙◌, ap, sym, map, Bool, true, false, Option, none, some, List, [], ◌∷◌, ◌++◌,
  ok, err, arith, str_eq_iff,
}
use mathlib.Core.List.{append-nil}
use bank_of_baroda_iit_gn.Float.{Float}
use bank_of_baroda_iit_gn.Schemas.{
  IdentityEvent, RiskAssessment, SocAssessment, to_client_assessment,
}
use bank_of_baroda_iit_gn.Durable.{put_decision}
use bank_of_baroda_iit_gn.Durable as Durable
use bank_of_baroda_iit_gn.Durable.AuditTable.{append_row}
use bank_of_baroda_iit_gn.Engine.Assess.{EngineState, assess}
use bank_of_baroda_iit_gn.Pipeline.{
  ingest_event, pending, persist_assessed, Delivered, Message, Pod, PodConfig, consume,
  decision_value, get_decision, handed, handle_event, handle_message, run, parsed, payload_of,
  persist,
}
use bank_of_baroda_iit_gn.Pipeline.Sink.{get-put_decision}

module _ {W R : Type 0} ⦃f : Float W⦄ (config : PodConfig W R) where
  -- What one turn does: the message is no event; or scoring or the audit fails, and only the states
  -- of identities change; or the decision fails; or everything is written.
  pub data Handled (d : Delivered W R) (s : Pod W) : Pod W → Type 0 where
    refused : parsed config d.message.event ≡ none → Handled d s s
    scored : (engine : EngineState W) → Handled d s (record s { engine = engine })
    audited :
        (e : IdentityEvent W) (soc : SocAssessment W) (engine : EngineState W)
        → Handled d s (record s {
          engine = engine;
          audit =
              (append_row config.crypto config.audit_table
                (payload_of config soc)
                d.audited_at
                s.audit).1;
        })
    decided :
        (id : String) (e : IdentityEvent W) (soc : SocAssessment W) (engine : EngineState W)
        → Handled d s (record {
          engine = engine;
          audit =
              (append_row config.crypto config.audit_table
                (payload_of config soc)
                d.audited_at
                s.audit).1;
          decisions =
              put_decision id e.identity_id
                (decision_value soc.decision)
                (to_client_assessment soc)
                d.decided_at
                s.decisions;
        })

  decided_cases :
      (d : Delivered W R) (e : IdentityEvent W) (soc : SocAssessment W) (s : Pod W)
      → (engine : EngineState W) (id : Option String) (sink_up audit_up : Bool)
      → Handled d s (
          persist config
            (record d {
              message = record { event_id = id; event = d.message.event };
              sink_up = sink_up;
              audit_up = audit_up;
            })
            e
            soc
            (record s { engine = engine }))
  decided_cases d e soc s engine id sink_up false = scored engine
  decided_cases d e soc s engine id false true = audited e soc engine
  decided_cases d e soc s engine none true true = audited e soc engine
  decided_cases d e soc s engine (some id) true true = decided id e soc engine

  event_cases :
      (d : Delivered W R) (e : IdentityEvent W) (soc : Option (SocAssessment W)) (s : Pod W)
      → (engine : EngineState W)
      → Handled d s (persist_assessed config d e soc (record s { engine = engine }))
  event_cases d e none s engine = scored engine
  event_cases d e (some soc) s engine =
      decided_cases d e soc s engine d.message.event_id d.sink_up d.audit_up

  parsed_cases :
      (d : Delivered W R) (o : Option (IdentityEvent W)) (s : Pod W)
      → parsed config d.message.event ≡ o
      → Handled d s (handle_event config d o s)
  parsed_cases d none s h = refused h
  parsed_cases d (some e) s h =
      let (soc, engine) = assess config.engine d.around e s.engine in event_cases d e soc s engine

  pub handle-Handled : (d : Delivered W R) (s : Pod W) → Handled d s (handle_message config d s)
  unfolding handle_message
  handle-Handled d s = parsed_cases d (parsed config d.message.event) s refl

  consume-append :
      (ds es : List (Delivered W R)) (s : Pod W)
      → consume config (ds ++ es) s ≡ consume config es (consume config ds s)
  unfolding consume
  consume-append [] es s = refl
  consume-append (d ∷ ds) es s = consume-append ds es (handle_message config d s)

  Handled-keeps :
      (d : Delivered W R) (id : String) (b : RiskAssessment W) {s t : Pod W}
      → Handled d s t
      → Durable.get_decision id s.decisions ≡ some b
      → Durable.get_decision id t.decisions ≡ some b
  Handled-keeps d id b (refused h) old = old
  Handled-keeps d id b (scored engine) old = old
  Handled-keeps d id b (audited e soc engine) old = old
  Handled-keeps d id b {s} (decided j e soc engine) old = ground (
    arith,
    get-put_decision j id e.identity_id (decision_value soc.decision) (to_client_assessment soc)
        d.decided_at s.decisions,
  )

  consume_keeps :
      (ds : List (Delivered W R)) (id : String) (b : RiskAssessment W) (s : Pod W)
      → Durable.get_decision id s.decisions ≡ some b
      → Durable.get_decision id (consume config ds s).decisions ≡ some b
  unfolding consume
  consume_keeps [] id b s old = old
  consume_keeps (d ∷ ds) id b s old =
      consume_keeps ds id b (handle_message config d s)
        (Handled-keeps d id b (handle-Handled d s) old)

  decides :
      (d : Delivered W R) (id : String) (e : IdentityEvent W) (soc : SocAssessment W) (s : Pod W)
      → d.message.event_id ≡ some id
      → parsed config d.message.event ≡ some e
      → d.audit_up ≡ true
      → d.sink_up ≡ true
      → (assess config.engine d.around e s.engine).0 ≡ some soc
      → Durable.get_decision id s.decisions ≡ none
      → Durable.get_decision id (handle_message config d s).decisions
        ≡ some (to_client_assessment soc)
  unfolding handle_message
  decides d id e soc s named event audit_up sink_up answer new =
      rw (event, answer, audit_up, sink_up, named)
        (ground (
          arith,
          str_eq_iff id id,
          get-put_decision id id e.identity_id (decision_value soc.decision)
              (to_client_assessment soc) d.decided_at s.decisions,
        ))

  handed-read :
      (ds : List (Delivered W R)) (es : List (Option (Delivered W R)))
      → handed config (map some ds ++ es) ≡ ds ++ handed config es
  unfolding handed
  handed-read [] es = refl
  handed-read (d ∷ ds) es = ap (d ∷◌) (handed-read ds es)

  -- Every event that the ingress accepts gets its answer: once a pod has taken the message from the
  -- topic, after messages that are all JSON, with both tables up, with no decision under its
  -- identifier before, and with an assessment that does not raise, a poll returns the client plane of
  -- that assessment, whatever messages come after it.
  pub accepted_event_is_decided :
      (ds : List (Delivered W R)) (es : List (Option (Delivered W R))) (d : Delivered W R)
      → (dump : IdentityEvent W → R)
      → (id : String) (e : IdentityEvent W) (soc : SocAssessment W) (s : Pod W)
      → (ingest_event dump id e []).1 ≡ (e.identity_id, d.message) ∷ []
      → config.parse (dump e) ≡ some e
      → d.audit_up ≡ true
      → d.sink_up ≡ true
      → get_decision id (run config (map some ds) s).decisions ≡ err pending
      → (assess config.engine d.around e (run config (map some ds) s).engine).0 ≡ some soc
      → get_decision id (run config (map some ds ++ some d ∷ es) s).decisions
        ≡ ok (to_client_assessment soc)
  unfolding run consume handed get_decision ingest_event
  accepted_event_is_decided ds es d dump id e soc s sent readable audit_up sink_up new answer =
      let only : handed config (map some ds) ≡ ds =
        ap (handed config) (sym (append-nil (map some ds))) ∙ handed-read ds [] ∙ append-nil ds in
      let before = consume config ds s in
      let new' : get_decision id before.decisions ≡ err pending = rw only at new in
      let answer' : (assess config.engine d.around e before.engine).0 ≡ some soc =
        rw only at answer in
      let same : d.message ≡ record { event_id = some id; event = some (dump e) } = cc (sent) in
      let none_yet : Durable.get_decision id before.decisions ≡ none = ground (arith, new') in
      let done =
        decides d id e soc before (ap (λ (m : Message R). m.event_id) same)
          (ap (λ (m : Message R). parsed config m.event) same ∙ readable) audit_up sink_up answer'
          none_yet in
      let kept =
        consume_keeps (handed config es) id (to_client_assessment soc)
          (handle_message config d before) done in
      rw (handed-read ds (some d ∷ es), consume-append ds (d ∷ handed config es) s, kept)
