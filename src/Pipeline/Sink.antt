-- ===== src/Pipeline/Sink.antt =====
-- The table of decisions under a pod: the first decision of an event stays, and only the event that
-- a message names can get one.
use bank_of_baroda_iit_gn.Common.{String, ◌≡◌, none, some, arith, str_eq_iff, if◌then◌else◌, str_eq}
use bank_of_baroda_iit_gn.Common.Dict.{Dict, lookup-insert}
use bank_of_baroda_iit_gn.Durable.{DecisionRow, put_decision}
use bank_of_baroda_iit_gn.Durable as Durable

module _ {B W : Type 0} where
  pub get-put_decision :
      (id j who verdict : String) (body : B) (now : W) (rows : Dict (DecisionRow B W))
      → Durable.get_decision j (put_decision id who verdict body now rows) ≡ (
          if str_eq id j
          then (elim (Durable.get_decision j rows) [ none ↦ some body | some b ↦ some b ])
          else Durable.get_decision j rows)
  unfolding Durable.get_decision put_decision
  get-put_decision id j who verdict body now rows =
      let row : DecisionRow B W = record {
        identity_id = who;
        decision = verdict;
        body = body;
        ts = now;
      } in
      ground (arith, str_eq_iff id j, lookup-insert id j row rows)
