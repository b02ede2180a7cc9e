-- ===== src/Tests/Engine.antt =====
-- The theorems on the engine at concrete events.
use bank_of_baroda_iit_gn.Common.{
  ◌≡◌, ◌≢◌, ◌↔◌, refl, not, arith, some, List, if◌then◌else◌, true, none, is_some, [], ◌∷◌,
}
use bank_of_baroda_iit_gn.Common.Int.{pos, ◌≤ℤ◌, ◌+ℤ◌, ◌-ℤ◌, ◌*ℤ◌}
use bank_of_baroda_iit_gn.Common.Dict.{contains}
use bank_of_baroda_iit_gn.Float.Fixed.{Fixed, fixed_float, isqrt}
use bank_of_baroda_iit_gn.Tests.Data.{login, takeover, known_state, engine, get, get_lem}
use bank_of_baroda_iit_gn.Common.Dict.{add}
use bank_of_baroda_iit_gn.Common.{last_n}
use bank_of_baroda_iit_gn.Features.{
  commit_features, compute_features, features_of, amount_zscore, hour_deviation, channel_risk,
  event_criticality,
}
use bank_of_baroda_iit_gn.Explain.{explain, sort_desc, insert_desc, products, contributions_of}
use bank_of_baroda_iit_gn.Drift.{drift_step, detect}
use bank_of_baroda_iit_gn.Policy.{
  apply_degraded, decide, decide_customer, decide_privileged, band_of, cheapest_sufficient,
}
use bank_of_baroda_iit_gn.Engine.Trust.{
  update_trust, roll_window, travels_impossibly, country, cold_prior_applies,
}
use bank_of_baroda_iit_gn.Engine.Attempt.{
  assess_state, score, track, judge, settle, model_risk, det_risk_of,
}
use bank_of_baroda_iit_gn.Schemas.{Decision}
use bank_of_baroda_iit_gn.State.{IdentityState}
use bank_of_baroda_iit_gn.Float.Fixed.Laws.{Fixed-IsFloat, Fixed-IsClip}
use bank_of_baroda_iit_gn.Engine.Attempt.{Outcome}
use bank_of_baroda_iit_gn.Engine.Attempt.Poisoning.{SameProfile, not_allowed_keeps_profile}
use bank_of_baroda_iit_gn.Engine.Attempt.Review.{Clear, allow_exact, review_is_sticky}
use bank_of_baroda_iit_gn.Engine.Trust.Bounds.{update_trust_direction}
use bank_of_baroda_iit_gn.Engine.Trust.Budget.{InWindow, run_updates, recovery_budget}

abbrev now : Fixed
now = fixed_float.lit 1600 0

abbrev flagged : IdentityState Fixed
flagged = record known_state { under_review = true }

login_returns : is_some (assess_state engine login none now known_state 1) ≡ true
unfolding assess_state score track judge settle update_trust roll_window travels_impossibly country
    cold_prior_applies model_risk det_risk_of apply_degraded decide decide_customer
    decide_privileged band_of cheapest_sufficient drift_step detect explain sort_desc insert_desc
    products contributions_of commit_features compute_features features_of amount_zscore
    hour_deviation channel_risk event_criticality last_n contains add ◌+ℤ◌ ◌-ℤ◌ ◌*ℤ◌ isqrt
login_returns = refl

takeover_returns : is_some (assess_state engine takeover none now known_state 1) ≡ true
unfolding assess_state score track judge settle update_trust roll_window travels_impossibly country
    cold_prior_applies model_risk det_risk_of apply_degraded decide decide_customer
    decide_privileged band_of cheapest_sufficient drift_step detect explain sort_desc insert_desc
    products contributions_of commit_features compute_features features_of amount_zscore
    hour_deviation channel_risk event_criticality last_n contains add ◌+ℤ◌ ◌-ℤ◌ ◌*ℤ◌ isqrt
takeover_returns = refl

flagged_returns : is_some (assess_state engine login none now flagged 1) ≡ true
unfolding assess_state score track judge settle update_trust roll_window travels_impossibly country
    cold_prior_applies model_risk det_risk_of apply_degraded decide decide_customer
    decide_privileged band_of cheapest_sufficient drift_step detect explain sort_desc insert_desc
    products contributions_of commit_features compute_features features_of amount_zscore
    hour_deviation channel_risk event_criticality last_n contains add ◌+ℤ◌ ◌-ℤ◌ ◌*ℤ◌ isqrt
flagged_returns = refl

abbrev login_outcome : Outcome Fixed
login_outcome = get (assess_state engine login none now known_state 1) login_returns

abbrev takeover_outcome : Outcome Fixed
takeover_outcome = get (assess_state engine takeover none now known_state 1) takeover_returns

abbrev flagged_outcome : Outcome Fixed
flagged_outcome = get (assess_state engine login none now flagged 1) flagged_returns

login_allowed : login_outcome.decision ≡ Decision.allow
unfolding assess_state score track judge settle update_trust roll_window travels_impossibly country
    cold_prior_applies model_risk det_risk_of apply_degraded decide decide_customer
    decide_privileged band_of cheapest_sufficient drift_step detect explain sort_desc insert_desc
    products contributions_of commit_features compute_features features_of amount_zscore
    hour_deviation channel_risk event_criticality last_n contains add ◌+ℤ◌ ◌-ℤ◌ ◌*ℤ◌ isqrt
login_allowed = refl

takeover_stopped : takeover_outcome.decision ≢ Decision.allow
unfolding assess_state score track judge settle update_trust roll_window travels_impossibly country
    cold_prior_applies model_risk det_risk_of apply_degraded decide decide_customer
    decide_privileged band_of cheapest_sufficient drift_step detect explain sort_desc insert_desc
    products contributions_of commit_features compute_features features_of amount_zscore
    hour_deviation channel_risk event_criticality last_n contains add ◌+ℤ◌ ◌-ℤ◌ ◌*ℤ◌ isqrt
takeover_stopped h = cc

allow_exact_example :
    (login_outcome.decision ≡ Decision.allow)
    ↔ Clear engine login
        (track engine login_outcome.scored).0
        (not (is_some login_outcome.scored.ml_risk))
        login_outcome.new_trust
        login_outcome.scored.event_risk
        known_state.under_review
allow_exact_example =
    allow_exact engine login none now known_state 1 login_outcome
      (get_lem (assess_state engine login none now known_state 1) login_returns)

not_allowed_keeps_profile_example : SameProfile takeover_outcome.state known_state
not_allowed_keeps_profile_example =
    not_allowed_keeps_profile engine takeover none now known_state 1 takeover_outcome
      (get_lem (assess_state engine takeover none now known_state 1) takeover_returns)
      takeover_stopped

review_is_sticky_example :
    (flagged_outcome.decision ≢ Decision.allow) × (flagged_outcome.state.under_review ≡ true)
review_is_sticky_example =
    review_is_sticky engine login none now flagged 1 flagged_outcome refl
      (get_lem (assess_state engine login none now flagged 1) flagged_returns)

in_time : InWindow (fixed_float.lit 1500 0) now
unfolding assess_state score track judge settle update_trust roll_window travels_impossibly country
    cold_prior_applies model_risk det_risk_of apply_degraded decide decide_customer
    decide_privileged band_of cheapest_sufficient drift_step detect explain sort_desc insert_desc
    products contributions_of commit_features compute_features features_of amount_zscore
    hour_deviation channel_risk event_criticality last_n contains add ◌+ℤ◌ ◌-ℤ◌ ◌*ℤ◌ isqrt
in_time = refl

-- A safe event raises the score from 700 by 18, a risky one lowers it by 270.
abbrev safe : Fixed
safe = fixed_float.lit 15 2

abbrev risky : Fixed
risky = fixed_float.lit 75 2

abbrev open_window : IdentityState Fixed
open_window = record known_state { recovery_window_start = fixed_float.lit 1500 0 }

updated :
    update_trust engine open_window safe now
    ≡ some (pos 718, record open_window { recovered_in_window = pos 18 })
unfolding assess_state score track judge settle update_trust roll_window travels_impossibly country
    cold_prior_applies model_risk det_risk_of apply_degraded decide decide_customer
    decide_privileged band_of cheapest_sufficient drift_step detect explain sort_desc insert_desc
    products contributions_of commit_features compute_features features_of amount_zscore
    hour_deviation channel_risk event_criticality last_n contains add ◌+ℤ◌ ◌-ℤ◌ ◌*ℤ◌ isqrt
updated = refl

update_trust_direction_example :
    if fixed_float.lt (fixed_float.lit 45 2) safe
    then (pos 718 ≤ℤ pos 700) × (record open_window { recovered_in_window = pos 18 } ≡ open_window)
    else (pos 700 ≤ℤ pos 718)
      × (pos 718 +ℤ (roll_window open_window now).recovered_in_window ≤ℤ pos 700 +ℤ pos 18)
update_trust_direction_example =
    update_trust_direction engine Fixed-IsClip Fixed-IsFloat open_window
      (record open_window { recovered_in_window = pos 18 }) safe now (pos 718)
      (omega arith, omega arith) updated

abbrev attack : List (Fixed × Fixed)
attack = (risky, now) ∷ (safe, now) ∷ (safe, now) ∷ []

abbrev attacked : IdentityState Fixed
attacked = record open_window { trust = pos 466; recovered_in_window = pos 36 }

attack_runs : run_updates engine attack open_window ≡ some attacked
unfolding run_updates assess_state score track judge settle update_trust roll_window
    travels_impossibly country cold_prior_applies model_risk det_risk_of apply_degraded decide
    decide_customer decide_privileged band_of cheapest_sufficient drift_step detect explain
    sort_desc insert_desc products contributions_of commit_features compute_features features_of
    amount_zscore hour_deviation channel_risk event_criticality last_n contains add ◌+ℤ◌ ◌-ℤ◌ ◌*ℤ◌
    isqrt
attack_runs = refl

recovery_budget_example : pos 466 ≤ℤ pos 700 +ℤ (pos 120 -ℤ pos 0)
recovery_budget_example =
    recovery_budget Fixed-IsFloat engine Fixed-IsClip attack open_window attacked
      (omega arith, omega arith) (omega arith) (in_time, (in_time, (in_time, tt))) attack_runs
