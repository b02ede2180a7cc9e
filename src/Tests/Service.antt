-- ===== src/Tests/Service.antt =====
-- The theorems on the endpoints at a concrete service.
use bank_of_baroda_iit_gn.Common.{
  arith, ◌≡◌, refl, true, false, none, some, [], ◌∷◌, ok, err, is_ok, length, str_eq, last_n,
  if◌then◌else◌, ◌==◌,
}
use bank_of_baroda_iit_gn.Common.Int.{◌+ℤ◌, ◌-ℤ◌, ◌*ℤ◌}
use bank_of_baroda_iit_gn.Common.Dict.{lookup, insert, contains, add}
use bank_of_baroda_iit_gn.Float.Fixed.{Fixed, fixed_float, isqrt}
use bank_of_baroda_iit_gn.Schemas.{IdentityEvent, RiskAssessment}
use bank_of_baroda_iit_gn.State.{load, commit, current_version, device_add}
use bank_of_baroda_iit_gn.Features.{
  commit_features, compute_features, features_of, amount_zscore, hour_deviation, channel_risk,
  event_criticality,
}
use bank_of_baroda_iit_gn.Explain.{
  explain, sort_desc, insert_desc, products, contributions_of, counterfactual, shap_values, phis_of,
  text_lt,
}
use bank_of_baroda_iit_gn.Drift.{drift_step, detect}
use bank_of_baroda_iit_gn.Policy.{
  apply_degraded, decide, decide_customer, decide_privileged, band_of, cheapest_sufficient,
}
use bank_of_baroda_iit_gn.Verifier.{
  Rejection, validate, check_assertion, open_token, split_dot, has_dot,
}
use bank_of_baroda_iit_gn.Audit.{verify_chain}
use bank_of_baroda_iit_gn.Engine.Trust.{
  update_trust, roll_window, travels_impossibly, country, cold_prior_applies,
}
use bank_of_baroda_iit_gn.Engine.Attempt.{
  assess_state, score, track, judge, settle, model_risk, det_risk_of,
}
use bank_of_baroda_iit_gn.Engine.Assess.{
  assess, assess_loop, attempt, resolve_behavior, build_assessment,
}
use bank_of_baroda_iit_gn.Api.{Config, HttpError, Service}
use bank_of_baroda_iit_gn.Api.Cache.{idem_get}
use bank_of_baroda_iit_gn.Api.Events.{
  Request, event_fingerprint, ingest_event, ingest_new, record_assessment, erase_identity,
}
use bank_of_baroda_iit_gn.Api.StepUps.{StepUpRequest, step_up_outcome}
use bank_of_baroda_iit_gn.Api.Idempotency.{after_events, repeat_is_answered}
use bank_of_baroda_iit_gn.Api.Guards.{rejected_step_up_is_harmless, handlers_keep_verdict}
use bank_of_baroda_iit_gn.Tests.Data.{login, known_state, engine, key, get_ok, get_ok_lem}

abbrev pub config : Config Fixed
config = record {
  engine = engine;
  stepup_key = key;
  max_skew = fixed_float.lit 5 0;
  crypto = record {
    dumps = λ body. body.seq ∷ [];
    sha256 = λ bytes. "h";
    hmac_sha256 = λ k bytes. "m";
    encode = λ s. [];
    digits = λ n. "1";
  };
  vault = record {
    encrypt = λ k bytes. bytes;
    decrypt = λ k bytes. some bytes;
    dumps = λ m. 1 ∷ [];
    loads = λ bytes. none;
    ref_of = λ token. "ref";
  };
  dump_event = λ e. e.hour_of_day ∷ [];
  sha256 = λ bytes. if length bytes == 1 then "f" else "g";
}

abbrev pub service : Service Fixed
service = record {
  engine = record {
    store = record { records = ("asha", known_state) ∷ []; device_ids = [] };
    nonces = [];
  };
  audit = record { records = []; key = none };
  pii = record { keys = []; ct = []; tombstoned = "asha" ∷ [] };
  idem = [];
  stepup_accepted = [];
  stepup_failures = [];
  stepup_nonces = [];
}

abbrev request : Request Fixed
request = record {
  around = record {
    now_wall = fixed_float.lit 1600 0;
    clock = fixed_float.lit 1600 0;
    rivals = λ k store. store;
    event_id = "e1";
    challenge_id = "c1";
    latency_ms = fixed_float.lit 1 0;
  };
  generated = 9 ∷ [];
  logged_at = fixed_float.lit 1601 0;
}

abbrev keyed_login : IdentityEvent Fixed
keyed_login = record login { idempotency_key = some "i1" }

login_answered : is_ok (ingest_event config request "k1" keyed_login service).0 ≡ true
unfolding ingest_event ingest_new record_assessment idem_get assess assess_loop attempt
    resolve_behavior build_assessment counterfactual shap_values phis_of text_lt load commit
    current_version device_add lookup insert assess_state score track judge settle update_trust
    roll_window travels_impossibly country cold_prior_applies model_risk det_risk_of apply_degraded
    decide decide_customer decide_privileged band_of cheapest_sufficient drift_step detect explain
    sort_desc insert_desc products contributions_of commit_features compute_features features_of
    amount_zscore hour_deviation channel_risk event_criticality last_n contains add ◌+ℤ◌ ◌-ℤ◌ ◌*ℤ◌
    isqrt
login_answered = refl

abbrev response : RiskAssessment Fixed
response = get_ok (ingest_event config request "k1" keyed_login service).0 login_answered

repeat_is_answered_example :
    let after =
      after_events config
        ((request, "k2", keyed_login) ∷ [])
        (ingest_event config request "k1" keyed_login service).1 in
    let (again, final) = ingest_event config request "k1" keyed_login after in
    (again ≡ (
      if str_eq (event_fingerprint config keyed_login) (event_fingerprint config keyed_login)
      then ok response
      else err HttpError.conflict))
    × (final.engine ≡ after.engine)
    × (final.audit ≡ after.audit)
    × (final.pii ≡ after.pii)
repeat_is_answered_example =
    repeat_is_answered config request request "k1" keyed_login keyed_login ("k1", "i1") service
      response ((request, "k2", keyed_login) ∷ []) (omega arith) refl refl
      (get_ok_lem (ingest_event config request "k1" keyed_login service).0 login_answered)

abbrev forged : StepUpRequest Fixed
forged = record {
  assertion = "verified=true";
  now = fixed_float.lit 1600 0;
  validated_at = fixed_float.lit 1600 0;
  clock = fixed_float.lit 1600 0;
  logged_at = fixed_float.lit 1600 0;
  rivals = λ k store. store;
}

forged_is_malformed :
    (validate config.engine.codec config.stepup_key config.max_skew forged.clock forged.assertion
      "asha" forged.validated_at service.stepup_nonces).0
    ≡ err Rejection.malformed
unfolding validate check_assertion open_token split_dot has_dot
forged_is_malformed = refl

rejected_step_up_is_harmless_example :
    let (answer, after) = step_up_outcome config forged "asha" service in
    (is_ok answer ≡ false)
    × (after.engine ≡ service.engine)
    × (after.stepup_accepted ≡ service.stepup_accepted)
    × (after.pii ≡ service.pii)
    × (after.idem ≡ service.idem)
rejected_step_up_is_harmless_example =
    rejected_step_up_is_harmless config forged "asha" service Rejection.malformed
      forged_is_malformed

handlers_keep_verdict_example :
    let verdict = verify_chain config.crypto service.audit in
    (verify_chain config.crypto (ingest_event config request "k1" login service).1.audit ≡ verdict)
    × (verify_chain config.crypto (step_up_outcome config forged "asha" service).1.audit ≡ verdict)
    × (verify_chain config.crypto
          (erase_identity config "asha" (fixed_float.lit 1 0) service).1.audit
        ≡ verdict)
handlers_keep_verdict_example =
    handlers_keep_verdict config request forged "k1" "asha" login (fixed_float.lit 1 0) service
