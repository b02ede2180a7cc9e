-- ===== src/Engine/Trust.antt =====
-- The configuration of `TrustEngine`, the trust update with its recovery budget, and the tests on
-- travel and on first contacts.
pub mod Bounds
pub mod Budget
use Prim.Native.Char.{code}
use bank_of_baroda_iit_gn.Common.{
  ℕ, String, Bool, true, false, ◌&&◌, ◌||◌, not, Option, none, some, List, ◌==◌, str_eq,
  if◌then◌else◌,
}
use bank_of_baroda_iit_gn.Common.Int.{ℤ, pos, ◌+ℤ◌, ◌-ℤ◌, min_ℤ, max_ℤ}
use bank_of_baroda_iit_gn.Float.{Float, Libs}
use bank_of_baroda_iit_gn.Schemas.{EventType, Channel, IdentityEvent}
use bank_of_baroda_iit_gn.State.{IdentityState}
use bank_of_baroda_iit_gn.Drift.{DriftDetector, default_drift}
use bank_of_baroda_iit_gn.Verifier.{Codec, SignatureVerifier}

-- The loaded model: `decision_function` over the scaled vector (`none` where a call raises).
pub record ServingModel (W : Type 0) : Type 0 where
  pub decision_function : List W → Option W
  pub provenance : String

pub record BehaviorResolver (W : Type 0) : Type 0 where
  pub attest : SignatureVerifier
  pub behavior : SignatureVerifier
  pub max_skew : W

pub record TrustEngine (W : Type 0) : Type 0 where
  pub model : ServingModel W
  pub drift : DriftDetector W
  pub drift_enabled : Bool
  pub recovery_cap : ℤ
  pub cold_start_prior : Bool
  pub impossible_travel : Bool
  pub behavior_resolver : Option (BehaviorResolver W)
  pub libs : Libs W
  pub codec : Codec W

-- The constants of the recovery budget and of the compare-and-set.
abbrev pub recovery_cap_per_window : ℤ
recovery_cap_per_window = pos 120

abbrev pub cas_retries : ℕ
cas_retries = 6

module _ {W : Type 0} ⦃f : Float W⦄ where
  -- `TrustEngine(...)` with its default toggles.
  abbrev pub new_engine :
      ServingModel W → Option (BehaviorResolver W) → Libs W → Codec W → TrustEngine W
  new_engine model resolver libs codec = record {
    model = model;
    drift = default_drift;
    drift_enabled = true;
    recovery_cap = recovery_cap_per_window;
    cold_start_prior = true;
    impossible_travel = true;
    behavior_resolver = resolver;
    libs = libs;
    codec = codec;
  }

  -- `TrustEngine.legacy`
  abbrev pub legacy :
      ServingModel W → Option (BehaviorResolver W) → Libs W → Codec W → TrustEngine W
  legacy model resolver libs codec = record {
    model = model;
    drift = default_drift;
    drift_enabled = false;
    recovery_cap = pos 1000000000;
    cold_start_prior = false;
    impossible_travel = false;
    behavior_resolver = resolver;
    libs = libs;
    codec = codec;
  }

-- `_country`: the text before the first dash.
unfoldable pub country : String → String
country String.[] = String.[]
country (String.◌∷◌ c s) =
    let rest = country s in if code c == b'-' then String.[] else String.◌∷◌ c rest

-- `_COLD_PRIOR_OK_EVENTS` and `_COLD_PRIOR_OK_CHANNELS`
abbrev pub cold_prior_event : EventType → Bool
cold_prior_event EventType.login = true
cold_prior_event EventType.transaction = true
cold_prior_event _ = false

abbrev pub cold_prior_channel : Channel → Bool
cold_prior_channel Channel.mobile_app = true
cold_prior_channel Channel.internet_banking = true
cold_prior_channel Channel.branch = true
cold_prior_channel _ = false

module _ {W : Type 0} ⦃f : Float W⦄ where
  open f use {lit, lt, add, sub, mul, trunc}

  abbrev small_amount : Option W → Bool
  small_amount none = true
  small_amount (some a) = lt a (lit 25000 0)

  -- `_cold_prior_applies`
  unfoldable pub cold_prior_applies : IdentityEvent W → Bool
  cold_prior_applies e =
      cold_prior_event e.event_type
      && cold_prior_channel e.channel
      && not e.is_new_beneficiary
      && not e.recovery_contact_changed
      && small_amount e.amount

  -- `_impossible_travel`
  unfoldable pub travels_impossibly : TrustEngine W → IdentityState W → IdentityEvent W → W → Bool
  unfolding country
  travels_impossibly engine state e now =
      if not engine.impossible_travel || str_eq state.last_geo ""
      then false
      else if str_eq (country e.geo) (country state.last_geo)
      then false
      else lt (sub now state.last_geo_ts) (lit 3600 0)

  -- The rolling window of the recovery budget starts anew after an hour.
  unfoldable pub roll_window : IdentityState W → W → IdentityState W
  roll_window state now =
      if lt (lit 3600 0) (sub now state.recovery_window_start)
      then record state { recovery_window_start = now; recovered_in_window = pos 0 }
      else state

  -- The gain that the budget allows.
  abbrev pub allowed_gain : ℤ → ℤ → IdentityState W → ℤ
  allowed_gain cap gain state = min_ℤ gain (max_ℤ (pos 0) (cap -ℤ state.recovered_in_window))

  abbrev lose : TrustEngine W → IdentityState W → Option ℤ → Option (ℤ × IdentityState W)
  lose engine state none = none
  lose engine state (some loss) =
      some (engine.libs.clip_int (state.trust -ℤ loss) (pos 0) (pos 1000), state)

  abbrev recover : TrustEngine W → IdentityState W → W → Option ℤ → Option (ℤ × IdentityState W)
  recover engine state now none = none
  recover engine state now (some gain) =
      let rolled = roll_window state now in
      let granted = allowed_gain engine.recovery_cap gain rolled in
      some (
        engine.libs.clip_int (state.trust +ℤ granted) (pos 0) (pos 1000),
        record rolled { recovered_in_window = rolled.recovered_in_window +ℤ granted },
      )

  -- `_update_trust`: the new trust and the state that it leaves; `none` where `int` raises.
  unfoldable pub update_trust :
      TrustEngine W → IdentityState W → W → W → Option (ℤ × IdentityState W)
  update_trust engine state event_risk now =
      if lt (lit 45 2) event_risk
      then lose engine state (trunc (mul (sub event_risk (lit 45 2)) (lit 900 0)))
      else recover engine state now (trunc (mul (sub (lit 45 2) event_risk) (lit 60 0)))
