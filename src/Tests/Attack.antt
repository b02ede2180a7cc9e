-- ===== src/Tests/Attack.antt =====
-- The hijacked session against an engine, two turns long.
use bank_of_baroda_iit_gn.Common.{◌≡◌, ◌+◌, ◌++◌, refl, true, some, is_some, List, [], ◌∷◌, last_n}
use bank_of_baroda_iit_gn.Common.Int.{pos, ◌+ℤ◌, ◌-ℤ◌, ◌*ℤ◌}
use bank_of_baroda_iit_gn.Common.Dict.{lookup, insert, contains, add}
use bank_of_baroda_iit_gn.Float.Fixed.{Fixed, fixed_float, isqrt}
use bank_of_baroda_iit_gn.State.{load, commit, current_version, device_add}
use bank_of_baroda_iit_gn.Features.{
  commit_features, compute_features, features_of, amount_zscore, hour_deviation, channel_risk,
  event_criticality,
}
use bank_of_baroda_iit_gn.Explain.{
  explain, sort_desc, insert_desc, products, contributions_of, counterfactual, shap_values, phis_of,
  text_lt,
}
use bank_of_baroda_iit_gn.Drift.{drift_step, detect}
use bank_of_baroda_iit_gn.Policy.{
  apply_degraded, decide, decide_customer, decide_privileged, band_of, cheapest_sufficient,
}
use bank_of_baroda_iit_gn.Engine.Trust.{
  update_trust, roll_window, travels_impossibly, country, cold_prior_applies,
}
use bank_of_baroda_iit_gn.Engine.Attempt.{
  assess_state, score, track, judge, settle, model_risk, det_risk_of,
}
use bank_of_baroda_iit_gn.Engine.Assess.{
  EngineState, assess, assess_loop, attempt, build_assessment, resolve_behavior,
}
use bank_of_baroda_iit_gn.Simulator.{Day, Session, creep, creep_event}
use bank_of_baroda_iit_gn.Simulator.Creep.{creep_learns, missed, missed_amounts}
use bank_of_baroda_iit_gn.Tests.Data.{known_state, engine, get, get_lem}

abbrev day : Day Fixed
day = record {
  around = λ k. record {
    now_wall = fixed_float.lit 1600 0;
    clock = fixed_float.lit 1600 0;
    rivals = λ j store. store;
    event_id = "e";
    challenge_id = "c";
    latency_ms = fixed_float.lit 1 0;
  };
  attest_nonce = λ k. "a";
  attested_at = λ k. fixed_float.lit 1600 0;
  behavior_nonce = λ k. "b";
  observed_at = λ k. fixed_float.lit 1600 0;
  round_int = λ x. some (pos 2500);
  round3 = λ x. x;
}

abbrev victim : EngineState Fixed
victim = record {
  store = record { records = ("asha", known_state) ∷ []; device_ids = [] };
  nonces = [];
}

abbrev first_amount : Fixed
first_amount = fixed_float.lit 2500 0

two_turns_return : is_some (creep engine day "asha" 2 0 first_amount victim) ≡ true
unfolding creep creep_event assess assess_loop attempt resolve_behavior build_assessment
    counterfactual shap_values phis_of text_lt load commit current_version device_add lookup insert
    assess_state score track judge settle update_trust roll_window travels_impossibly country
    cold_prior_applies model_risk det_risk_of apply_degraded decide decide_customer
    decide_privileged band_of cheapest_sufficient drift_step detect explain sort_desc insert_desc
    products contributions_of commit_features compute_features features_of amount_zscore
    hour_deviation channel_risk event_criticality last_n contains add ◌+ℤ◌ ◌-ℤ◌ ◌*ℤ◌ isqrt
two_turns_return = refl

abbrev two_turns : List (Session Fixed) × EngineState Fixed
two_turns = get (creep engine day "asha" 2 0 first_amount victim) two_turns_return

creep_learns_example :
    ((load two_turns.1.store "asha").event_count
      ≡ (load victim.store "asha").event_count + missed two_turns.0)
    × ((load two_turns.1.store "asha").amounts
        ≡ (load victim.store "asha").amounts ++ missed_amounts first_amount two_turns.0)
creep_learns_example =
    creep_learns engine day "asha" (λ k. refl) 2 0 first_amount victim two_turns.1 two_turns.0
      (get_lem (creep engine day "asha" 2 0 first_amount victim) two_turns_return)
