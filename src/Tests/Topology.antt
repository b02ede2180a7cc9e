-- ===== src/Tests/Topology.antt =====
-- The broker, a pod and its tables at concrete messages.
use bank_of_baroda_iit_gn.Common.{
  ℕ, ◌*◌, ◌≡◌, refl, true, none, some, Option, List, [], ◌∷◌, ◌++◌, ok, err, arith, ◌+◌, All,
  last_n, is_some,
}
use bank_of_baroda_iit_gn.Common.Int.{◌+ℤ◌, ◌-ℤ◌, ◌*ℤ◌}
use bank_of_baroda_iit_gn.Common.Dict.{lookup, insert, contains, add}
use bank_of_baroda_iit_gn.Float.Fixed.{Fixed, fixed_float, isqrt}
use bank_of_baroda_iit_gn.Schemas.{IdentityEvent, SocAssessment, to_client_assessment}
use bank_of_baroda_iit_gn.State.{load, commit, current_version, device_add, empty_store}
use bank_of_baroda_iit_gn.Features.{
  commit_features, compute_features, features_of, amount_zscore, hour_deviation, channel_risk,
  event_criticality,
}
use bank_of_baroda_iit_gn.Explain.{
  explain, sort_desc, insert_desc, products, contributions_of, counterfactual, shap_values, phis_of,
  text_lt,
}
use bank_of_baroda_iit_gn.Drift.{drift_step, detect}
use bank_of_baroda_iit_gn.Policy.{
  apply_degraded, decide, decide_customer, decide_privileged, band_of, cheapest_sufficient,
}
use bank_of_baroda_iit_gn.Audit.{Crypto, append, head_checkpoint, verify_chain}
use bank_of_baroda_iit_gn.Durable.AuditTable.{Table, append_row, checkpoint_rows, verify_rows}
use bank_of_baroda_iit_gn.Durable.Chained.{log_of, table_refines_log}
use bank_of_baroda_iit_gn.Engine.Trust.{
  update_trust, roll_window, travels_impossibly, country, cold_prior_applies,
}
use bank_of_baroda_iit_gn.Engine.Attempt.{
  assess_state, score, track, judge, settle, model_risk, det_risk_of,
}
use bank_of_baroda_iit_gn.Engine.Assess.{
  assess, assess_loop, attempt, resolve_behavior, build_assessment, EngineState, Surroundings,
}
use bank_of_baroda_iit_gn.Bus.{make_producer, unavailable}
use bank_of_baroda_iit_gn.Bus.Retries.{producer_gives_up}
use bank_of_baroda_iit_gn.Pipeline.{
  Delivered, Pod, PodConfig, PodPayload, consume, get_decision, handed, ingest_event, run,
}
use bank_of_baroda_iit_gn.Pipeline.Delivery.{accepted_event_is_decided}
use bank_of_baroda_iit_gn.Durable as Durable
use bank_of_baroda_iit_gn.Pipeline.Audited as Audited
use bank_of_baroda_iit_gn.Pipeline.Audited.{IsAudited, KeepsText, run-IsAudited}
use bank_of_baroda_iit_gn.Float.Fixed.Laws.{Fixed-IsClip}
use bank_of_baroda_iit_gn.Engine.Trust.Bounds.{InRange}
use bank_of_baroda_iit_gn.Engine.Assess.Stored.{assess_stored}
use bank_of_baroda_iit_gn.Engine.Reachable.{
  AllInRange, Call, RivalsKeepRange, run_calls, run_calls-AllInRange, scored, stepped_up,
}
use bank_of_baroda_iit_gn.Tests.Data.{login, known_state, engine, get, get_lem}

producer_gives_up_example :
    make_producer {C = ℕ} (λ i hosts. err "refused") "kafka:9092" 40
    ≡ (err (unavailable "kafka producer" (some "refused")), 2 * 40)
producer_gives_up_example =
    producer_gives_up (λ i. "refused") (λ i hosts. err "refused") "kafka:9092" 39 (λ j h. refl)

abbrev crypto : Crypto (PodPayload Fixed) Fixed
crypto = record {
  dumps = λ body. body.seq ∷ [];
  sha256 = λ bytes. "h";
  hmac_sha256 = λ k bytes. "m";
  encode = λ s. [];
  digits = λ n. "1";
}

-- A pod that reads an event as it was sent.
abbrev config : PodConfig Fixed (Option (IdentityEvent Fixed))
config = record {
  engine = engine;
  crypto = crypto;
  audit_table = record { key = 1 ∷ []; jsonb = λ payload. payload };
  pod = "pod";
  parse = λ raw. raw;
}

abbrev pod : Pod Fixed
pod = record {
  engine = record {
    store = record { records = ("asha", known_state) ∷ []; device_ids = [] };
    nonces = [];
  };
  audit = [];
  decisions = [];
}

abbrev around : Surroundings Fixed
around = record {
  now_wall = fixed_float.lit 1600 0;
  clock = fixed_float.lit 1600 0;
  rivals = λ k store. store;
  event_id = "e1";
  challenge_id = "c1";
  latency_ms = fixed_float.lit 1 0;
}

abbrev sent : Delivered Fixed (Option (IdentityEvent Fixed))
sent = record {
  message = record { event_id = some "m1"; event = some (some login) };
  around = around;
  audited_at = fixed_float.lit 1601 0;
  decided_at = fixed_float.lit 1602 0;
  audit_up = true;
  sink_up = true;
}

-- The same without an event.
abbrev broken : Delivered Fixed (Option (IdentityEvent Fixed))
broken = record sent { message = record { event_id = some "m0"; event = none } }

login_assessed : is_some (assess engine around login pod.engine).0 ≡ true
unfolding assess assess_loop attempt resolve_behavior build_assessment counterfactual shap_values
    phis_of text_lt load commit current_version device_add lookup insert assess_state score track
    judge settle update_trust roll_window travels_impossibly country cold_prior_applies model_risk
    det_risk_of apply_degraded decide decide_customer decide_privileged band_of cheapest_sufficient
    drift_step detect explain sort_desc insert_desc products contributions_of commit_features
    compute_features features_of amount_zscore hour_deviation channel_risk event_criticality last_n
    contains add ◌+ℤ◌ ◌-ℤ◌ ◌*ℤ◌ isqrt
login_assessed = refl

abbrev soc : SocAssessment Fixed
soc = get (assess engine around login pod.engine).0 login_assessed

assess_stored_example :
    let after = (assess engine around login pod.engine).1.store in
    ((load after login.identity_id).trust ≡ soc.trust_score)
    × ((load after login.identity_id).version
        ≡ (load pod.engine.store login.identity_id).version + 1)
    × InRange soc.trust_score
    × (load after "ravi" ≡ load pod.engine.store "ravi")
assess_stored_example =
    assess_stored engine login Fixed-IsClip around pod.engine soc "ravi" refl
      (get_lem (assess engine around login pod.engine).0 login_assessed) refl

abbrev new_engine_state : EngineState Fixed
new_engine_state = record { store = empty_store; nonces = [] }

-- A login, and a step-up that passed.
abbrev calls : List (Call Fixed)
calls = scored around login ∷ stepped_up "asha" true (λ k st. st) ∷ []

calls-KeepRange : All RivalsKeepRange calls
calls-KeepRange = (λ k store all. all, (λ k store all. all, tt))

new-AllInRange : AllInRange new_engine_state.store
unfolding load lookup
new-AllInRange j = ground arith

run_calls-AllInRange_example : AllInRange (run_calls engine calls new_engine_state).store
run_calls-AllInRange_example =
    run_calls-AllInRange engine Fixed-IsClip calls new_engine_state calls-KeepRange new-AllInRange

accepted_event_is_decided_example :
    get_decision "m1" (run config ([] ++ some sent ∷ some broken ∷ none ∷ []) pod).decisions
    ≡ ok (to_client_assessment soc)
unfolding run handed consume get_decision ingest_event Durable.get_decision lookup
accepted_event_is_decided_example =
    accepted_event_is_decided config [] (some broken ∷ none ∷ []) sent some "m1" login soc pod refl
      refl refl refl refl (get_lem (assess engine around login pod.engine).0 login_assessed)

pod-IsAudited : IsAudited config pod
unfolding Audited.all_recorded
pod-IsAudited = record { recorded = refl }

config-KeepsText : KeepsText config
config-KeepsText = record { event_id = λ p. refl; decision = λ p. refl }

run-IsAudited_example :
    IsAudited config (run config (some sent ∷ some broken ∷ none ∷ some sent ∷ []) pod)
run-IsAudited_example =
    run-IsAudited config config-KeepsText (some sent ∷ some broken ∷ none ∷ some sent ∷ []) pod
      pod-IsAudited

abbrev bare_crypto : Crypto ℕ ℕ
bare_crypto = record {
  dumps = λ body. body.seq ∷ [];
  sha256 = λ bytes. "h";
  hmac_sha256 = λ k bytes. "m";
  encode = λ s. [];
  digits = λ n. "1";
}

abbrev bare_table : Table ℕ
bare_table = record { key = 1 ∷ []; jsonb = λ payload. payload }

table_refines_log_example :
    (append_row bare_crypto bare_table 7 5 [] ≡ (
      (append bare_crypto (log_of bare_crypto bare_table []) 7 5).0,
      (append bare_crypto (log_of bare_crypto bare_table []) 7 5).1.records,
    ))
    × (verify_rows bare_crypto bare_table (append_row bare_crypto bare_table 7 5 []).1 ≡ true)
    × (verify_rows bare_crypto bare_table []
        ≡ verify_chain bare_crypto (log_of bare_crypto bare_table []))
    × (checkpoint_rows bare_crypto bare_table []
        ≡ head_checkpoint bare_crypto (log_of bare_crypto bare_table []))
table_refines_log_example =
    table_refines_log bare_crypto bare_table [] 7 5 refl (unfold verify_rows in refl)
