-- ===== src/Features.antt =====
-- backend/app/features.py: the serving vector of an event, and the profile that allowed events
-- build up. `x ** 2` is written as a product.
pub mod Profile
pub mod Capped
use bank_of_baroda_iit_gn.Common.{
  ℕ, ◌+◌, ◌-◌, String, Bool, true, false, Option, none, some, List, [], ◌∷◌, ◌++◌, map, length,
  last_n, ltb, ◌==◌, if◌then◌else◌,
}
use bank_of_baroda_iit_gn.Common.Int.{ℤ, pos, sub_ℕ, min_ℤ}
use bank_of_baroda_iit_gn.Common.Dict.{add, contains}
use bank_of_baroda_iit_gn.Float.{Float, min_float, max_float, one_float}
use bank_of_baroda_iit_gn.Schemas.{EventType, Channel, IdentityEvent}
use bank_of_baroda_iit_gn.State.{IdentityState}

-- `FEATURE_NAMES`
abbrev pub feature_names : List String
feature_names =
    "new_device" ∷ "new_geo" ∷ "hour_deviation" ∷ "amount_zscore" ∷ "behavior_anomaly"
    ∷ "event_criticality" ∷ "channel_risk" ∷ "new_beneficiary" ∷ "recovery_change" ∷ "velocity"
    ∷ "device_sharing" ∷ []

-- `abs(hour - h)`
abbrev pub hour_distance : ℕ → ℕ → ℕ
hour_distance hour h = if ltb hour h then h - hour else hour - h

-- `min(abs(hour - h), 24 - abs(hour - h))`
abbrev pub clock_distance : ℕ → ℕ → ℤ
clock_distance hour h = min_ℤ (pos (hour_distance hour h)) (sub_ℕ 24 (hour_distance hour h))

-- `min(diffs)` of a list that is not empty.
abbrev min_distance : ℤ → List ℤ → ℤ
min_distance m [] = m
min_distance m (d ∷ ds) = min_distance (min_ℤ m d) ds

module _ {W : Type 0} ⦃f : Float W⦄ where
  open f use {lit, of_int, sub, mul, div, abs, sqrt, sum}

  -- `EVENT_CRITICALITY`
  unfoldable pub event_criticality : EventType → W
  event_criticality EventType.login = lit 2 1
  event_criticality EventType.transaction = lit 4 1
  event_criticality EventType.profile_change = lit 5 1
  event_criticality EventType.onboarding = lit 6 1
  event_criticality EventType.account_recovery = lit 8 1
  event_criticality EventType.privileged_access = lit 9 1

  -- `CHANNEL_RISK`
  unfoldable pub channel_risk : Channel → W
  channel_risk Channel.branch = lit 1 1
  channel_risk Channel.mobile_app = lit 3 1
  channel_risk Channel.internet_banking = lit 4 1
  channel_risk Channel.api = lit 5 1
  channel_risk Channel.admin_console = lit 7 1

  abbrev closest_hour : List ℤ → W
  closest_hour [] = lit 5 1
  closest_hour (d ∷ ds) = min_float (div (of_int (min_distance d ds)) (lit 12 0)) one_float

  -- `_hour_deviation`; the list is empty exactly where `state.hours` is.
  unfoldable pub hour_deviation : IdentityState W → ℕ → W
  hour_deviation state hour = closest_hour (map (clock_distance hour) (last_n 200 state.hours))

  abbrev square_from : W → W → W
  square_from mean a = mul (sub a mean) (sub a mean)

  abbrev zscore : List W → W → W
  zscore hist amount =
      let n = of_int (pos (length hist)) in
      let mean = div (sum hist) n in
      let var = div (sum (map (square_from mean) hist)) n in
      let std = max_float (sqrt var) one_float in
      min_float (div (abs (sub amount mean)) (mul (lit 3 0) std)) one_float

  -- `_amount_zscore`
  unfoldable pub amount_zscore : IdentityState W → Option W → W
  amount_zscore state none = lit 0 0
  amount_zscore state (some amount) =
      let hist = last_n 200 state.amounts in
      if ltb (length hist) 5
      then min_float (div amount (lit 100000 0)) one_float
      else zscore hist amount

  abbrev pub behavior_or_neutral : Option W → W
  behavior_or_neutral none = lit 5 1
  behavior_or_neutral (some anomaly) = anomaly

  abbrev pub flag : Bool → W
  flag b = if b then lit 1 0 else lit 0 0

  -- The effect of `compute_features` on the state: the burst counter decays and counts the attempt.
  abbrev pub count_attempt : IdentityState W → IdentityState W
  count_attempt state = record state { burst = f.add (mul state.burst (lit 5 1)) (lit 1 0) }

  -- `compute_features`, after `count_attempt` has updated the state.
  unfoldable pub features_of : IdentityEvent W → IdentityState W → ℕ → Option W → List W
  unfolding hour_deviation amount_zscore event_criticality channel_risk
  features_of e state device_share_count behavior_anomaly =
      let cold = state.event_count == 0 in
      (if cold then lit 4 1 else if contains e.device_id state.devices then lit 0 0 else lit 1 0)
      ∷ (if cold then lit 5 1 else if contains e.geo state.geos then lit 0 0 else lit 1 0)
      ∷ hour_deviation state e.hour_of_day
      ∷ amount_zscore state e.amount
      ∷ behavior_or_neutral behavior_anomaly
      ∷ event_criticality e.event_type
      ∷ channel_risk e.channel
      ∷ flag e.is_new_beneficiary
      ∷ flag e.recovery_contact_changed
      ∷ min_float (div state.burst (lit 15 0)) one_float
      ∷ min_float (div (of_int (sub_ℕ device_share_count 1)) (lit 3 0)) one_float
      ∷ []

  -- `compute_features`: the vector and the state that it leaves.
  unfoldable pub compute_features :
      IdentityEvent W → IdentityState W → ℕ → Option W → List W × IdentityState W
  unfolding features_of
  compute_features e state device_share_count behavior_anomaly =
      let counted = count_attempt state in
      (features_of e counted device_share_count behavior_anomaly, counted)

abbrev pub append_amount : {W : Type 0} → List W → Option W → List W
append_amount amounts none = amounts
append_amount amounts (some a) = amounts ++ a ∷ []

-- `commit_features`
unfoldable pub commit_features : {W : Type 0} → IdentityState W → IdentityEvent W → IdentityState W
commit_features state e = record state {
  devices = add e.device_id state.devices;
  geos = add e.geo state.geos;
  hours = state.hours ++ e.hour_of_day ∷ [];
  amounts = append_amount state.amounts e.amount;
  event_count = state.event_count + 1;
}
