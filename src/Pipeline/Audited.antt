-- ===== src/Pipeline/Audited.antt =====
-- No decision without its audit record: the order of the two writes in the pod's loop.
use bank_of_baroda_iit_gn.Common.{
  String, ◌≡◌, refl, Bool, true, false, ◌&&◌, ◌||◌, Option, List, [], ◌∷◌, ◌++◌, arith, str_eq,
  str_eq_iff,
}
use bank_of_baroda_iit_gn.Common.Dict.{insert}
use bank_of_baroda_iit_gn.Float.{Float}
use bank_of_baroda_iit_gn.Schemas.{
  RiskAssessment, SocAssessment, to_audit_payload, to_client_assessment,
}
use bank_of_baroda_iit_gn.Audit.{AuditRecord}
use bank_of_baroda_iit_gn.Durable.{DecisionRow, put_decision}
use bank_of_baroda_iit_gn.Durable.AuditTable.{append_row, stored}
use bank_of_baroda_iit_gn.Pipeline.{
  Decisions, Delivered, Pod, PodConfig, PodPayload, consume, decision_value, handed, handle_message,
  run, payload_of,
}
use bank_of_baroda_iit_gn.Pipeline.Delivery.{Handled, handle-Handled}

module _ {W : Type 0} where
  -- A row of the audit table has the identifier and the decision of an answer.
  pub fits_answer : RiskAssessment W → AuditRecord (PodPayload W) W → Bool
  fits_answer b r =
      str_eq r.body.payload.assessment.event_id b.event_id
      && str_eq (decision_value r.body.payload.assessment.decision) (decision_value b.decision)

  pub has_record : RiskAssessment W → List (AuditRecord (PodPayload W) W) → Bool
  has_record b [] = false
  has_record b (r ∷ rows) = fits_answer b r || has_record b rows

  unfoldable pub all_recorded : List (AuditRecord (PodPayload W) W) → Decisions W → Bool
  all_recorded rows [] = true
  all_recorded rows ((id, d) ∷ ds) = has_record d.body rows && all_recorded rows ds

  has_record-append :
      (b : RiskAssessment W) (r : AuditRecord (PodPayload W) W)
      → (rows : List (AuditRecord (PodPayload W) W))
      → has_record b (rows ++ r ∷ []) ≡ (has_record b rows || fits_answer b r)
  unfolding has_record
  has_record-append b r [] = ground arith
  has_record-append b r (q ∷ rows) = ground (arith, has_record-append b r rows)

  all_recorded-append :
      (r : AuditRecord (PodPayload W) W) (rows : List (AuditRecord (PodPayload W) W))
      → (ds : Decisions W) → all_recorded rows ds ≡ true
      → all_recorded (rows ++ r ∷ []) ds ≡ true
  unfolding all_recorded
  all_recorded-append r rows [] h = refl
  all_recorded-append r rows ((id, d) ∷ ds) h =
      ground (arith, has_record-append d.body r rows, all_recorded-append r rows ds)

  all_recorded-insert :
      (rows : List (AuditRecord (PodPayload W) W)) (id : String)
      → (d : DecisionRow (RiskAssessment W) W) (ds : Decisions W) → has_record d.body rows ≡ true
      → all_recorded rows ds ≡ true
      → all_recorded rows (insert id d ds) ≡ true
  unfolding all_recorded insert
  all_recorded-insert rows id d [] new h = ground arith
  all_recorded-insert rows id d ((j, e) ∷ ds) new h =
      ground (arith, all_recorded-insert rows id d ds)

module _ {W R : Type 0} ⦃f : Float W⦄ (config : PodConfig W R) where
  -- Every decision that can be polled has its record in the audit table.
  pub record IsAudited (s : Pod W) : Type 0 where
    pub recorded : all_recorded s.audit s.decisions ≡ true

  -- Postgres' documentation of JSONB: texts are kept.
  pub record KeepsText : Type 0 where
    pub event_id :
        (p : PodPayload W)
        → (config.audit_table.jsonb p).assessment.event_id ≡ p.assessment.event_id
    pub decision :
        (p : PodPayload W)
        → (config.audit_table.jsonb p).assessment.decision ≡ p.assessment.decision

  appended_fits :
      KeepsText
      → (soc : SocAssessment W) (now : W) (s : Pod W) → IsAudited s
      → let rows =
          (append_row config.crypto config.audit_table (payload_of config soc) now s.audit).1 in
        IsAudited (record s { audit = rows }) × (has_record (to_client_assessment soc) rows ≡ true)
  unfolding append_row to_audit_payload to_client_assessment fits_answer
  appended_fits text soc now s v =
      let p = payload_of config soc in
      let r =
        stored config.crypto config.audit_table
          (append_row config.crypto config.audit_table p now s.audit).0 in
      let id = soc.event_id in
      let verdict = decision_value soc.decision in
      (
        record { recorded = all_recorded-append r s.audit s.decisions v.recorded },
        ground (
          arith,
          has_record-append (to_client_assessment soc) r s.audit,
          text.event_id p,
          text.decision p,
          str_eq_iff id id,
          str_eq_iff verdict verdict,
        ),
      )

  put_recorded :
      (id who verdict : String) (b : RiskAssessment W) (now : W) (s : Pod W)
      → IsAudited s
      → has_record b s.audit ≡ true
      → IsAudited (record s { decisions = put_decision id who verdict b now s.decisions })
  unfolding put_decision
  put_recorded id who verdict b now s v h =
      let row : DecisionRow (RiskAssessment W) W = record {
        identity_id = who;
        decision = verdict;
        body = b;
        ts = now;
      } in
      record {
        recorded = ground (arith, v.recorded, all_recorded-insert s.audit id row s.decisions);
      }

  Handled-IsAudited :
      KeepsText
      → (d : Delivered W R) {s t : Pod W} → Handled config d s t
      → IsAudited s
      → IsAudited t
  Handled-IsAudited text d (Handled.refused h) v = v
  Handled-IsAudited text d (Handled.scored engine) v = record { recorded = v.recorded }
  Handled-IsAudited text d {s} (Handled.audited e soc engine) v =
      let kept = (appended_fits text soc d.audited_at s v).0 in record { recorded = kept.recorded }
  Handled-IsAudited text d {s} (Handled.decided id e soc engine) v =
      let (kept, here) = appended_fits text soc d.audited_at s v in
      let done =
        put_recorded id e.identity_id (decision_value soc.decision) (to_client_assessment soc)
          d.decided_at _ kept here in
      record { recorded = done.recorded }

  consume-IsAudited :
      KeepsText
      → (ds : List (Delivered W R)) (s : Pod W) → IsAudited s
      → IsAudited (consume config ds s)
  unfolding consume
  consume-IsAudited text [] s v = v
  consume-IsAudited text (d ∷ ds) s v =
      consume-IsAudited text ds (handle_message config d s)
        (Handled-IsAudited text d (handle-Handled config d s) v)

  -- If the JSONB column keeps texts, then whatever messages a pod is handed, and whichever of its
  -- writes fail, every answer in the table of decisions has an audit record with its decision and
  -- with the identifier in its body, which is not the one that it is polled under.
  pub run-IsAudited :
      KeepsText
      → (ds : List (Option (Delivered W R))) (s : Pod W) → IsAudited s
      → IsAudited (run config ds s)
  unfolding run
  run-IsAudited text ds s v = consume-IsAudited text (handed config ds) s v
