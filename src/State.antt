-- ===== src/State.antt =====
-- backend/app/state_store.py: the state of one identity and the in-memory store with its
-- compare-and-set. A `load` hands out a copy, so the model's values share nothing.
pub mod Same
pub mod Json
pub mod Locks
pub mod Commit
pub mod Devices
pub mod Schedule
use bank_of_baroda_iit_gn.Common.{
  ℕ, ◌+◌, String, Bool, true, false, Option, none, some, List, [], length, ◌==◌, if◌then◌else◌,
}
use bank_of_baroda_iit_gn.Common.Int.{ℤ, pos}
use bank_of_baroda_iit_gn.Common.Dict.{Dict, lookup, insert, add}
use bank_of_baroda_iit_gn.Float.{Float}

abbrev pub default_trust : ℤ
default_trust = pos 700

pub record IdentityState (W : Type 0) : Type 0 where
  pub trust : ℤ
  pub devices : List String
  pub geos : List String
  pub hours : List ℕ
  pub amounts : List W
  pub event_count : ℕ
  pub burst : W
  pub last_event_ts : W
  pub recovered_in_window : ℤ
  pub recovery_window_start : W
  pub risk_window : List W
  pub risk_ewma : W
  pub cusum : W
  pub under_review : Bool
  pub cold_prior_used : Bool
  pub last_geo : String
  pub last_geo_ts : W
  pub version : ℕ

-- `IdentityState()`, the state of an unseen identity.
abbrev pub new_state : {W : Type 0} ⦃f : Float W⦄ → IdentityState W
new_state ⦃f⦄ = record {
  trust = default_trust;
  devices = [];
  geos = [];
  hours = [];
  amounts = [];
  event_count = 0;
  burst = f.lit 0 0;
  last_event_ts = f.lit 0 0;
  recovered_in_window = pos 0;
  recovery_window_start = f.lit 0 0;
  risk_window = [];
  risk_ewma = f.lit 0 0;
  cusum = f.lit 0 0;
  under_review = false;
  cold_prior_used = false;
  last_geo = "";
  last_geo_ts = f.lit 0 0;
  version = 0;
}

-- `InMemoryStateStore`: `_data` and `_devices`.
pub record StateStore (W : Type 0) : Type 0 where
  pub records : Dict (IdentityState W)
  pub device_ids : Dict (List String)

abbrev pub empty_store : {W : Type 0} → StateStore W
empty_store = record { records = []; device_ids = [] }

module _ {W : Type 0} ⦃f : Float W⦄ where
  abbrev state_or_new : Option (IdentityState W) → IdentityState W
  state_or_new none = new_state
  state_or_new (some s) = s

  unfoldable pub load : StateStore W → String → IdentityState W
  load store identity_id = state_or_new (lookup identity_id store.records)

-- `self._devices.get(device_id, ())`
abbrev pub ids_or_empty : Option (List String) → List String
ids_or_empty none = []
ids_or_empty (some ids) = ids

module _ {W : Type 0} where
  abbrev version_or_zero : Option (IdentityState W) → ℕ
  version_or_zero none = 0
  version_or_zero (some s) = s.version

  -- The `current_version` of `commit`.
  unfoldable pub current_version : StateStore W → String → ℕ
  current_version store identity_id = version_or_zero (lookup identity_id store.records)

  unfoldable pub commit : StateStore W → String → IdentityState W → ℕ → Bool × StateStore W
  unfolding current_version
  commit store identity_id state expected_version =
      if current_version store identity_id == expected_version
      then (
        true,
        record store {
          records =
              insert identity_id (record state { version = expected_version + 1 }) store.records;
        },
      )
      else (false, store)

  unfoldable pub device_add : StateStore W → String → String → ℕ × StateStore W
  device_add store device_id identity_id =
      let ids = add identity_id (ids_or_empty (lookup device_id store.device_ids)) in
      (length ids, record store { device_ids = insert device_id ids store.device_ids })

  unfoldable pub device_count : StateStore W → String → ℕ
  device_count store device_id = length (ids_or_empty (lookup device_id store.device_ids))
