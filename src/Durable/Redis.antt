-- ===== src/Durable/Redis.antt =====
-- `RedisStateStore` of backend/app/state_store.py over the keys of one Redis. JSON is a parameter. A
-- transaction whose key another client has changed, or that fails in another way, is `interrupted`.
pub mod Keys
pub mod Matches
pub mod Written
use Prim.Native.String.{◌++◌}
use bank_of_baroda_iit_gn.Common.{
  ℕ, ◌+◌, String, Bool, true, false, not, ◌||◌, Option, none, some, List, length, is_empty, ◌==◌,
  if◌then◌else◌,
}
use bank_of_baroda_iit_gn.Common.Dict.{Dict, lookup, insert, add}
use bank_of_baroda_iit_gn.Float.{Float}
use bank_of_baroda_iit_gn.Verifier.{Bytes}
use bank_of_baroda_iit_gn.State.{IdentityState, new_state, ids_or_empty}

pub record Redis : Type 0 where
  pub values : Dict Bytes
  pub sets : Dict (List String)

-- `to_json` and `from_json`, which raises on what is no state.
pub record StateJson (W : Type 0) : Type 0 where
  pub to_json : IdentityState W → Bytes
  pub from_json : Bytes → Option (IdentityState W)

-- `_key` and `_dev_key`
abbrev pub id_key : String → String → String
id_key ns identity_id = ns ++ ":id:" ++ identity_id

abbrev pub dev_key : String → String → String
dev_key ns device_id = ns ++ ":dev:" ++ device_id

-- `raw` where it is there and not empty.
abbrev raw_of : Option Bytes → Option Bytes
raw_of none = none
raw_of (some raw) = if is_empty raw then none else some raw

module _ {W : Type 0} ⦃f : Float W⦄ (json : StateJson W) (ns : String) where
  abbrev parsed_or_new : Option Bytes → Option (IdentityState W)
  parsed_or_new none = some new_state
  parsed_or_new (some raw) = json.from_json raw

  -- `load`; `none` where `from_json` raises.
  unfoldable pub redis_load : Redis → String → Option (IdentityState W)
  redis_load r identity_id = parsed_or_new (raw_of (lookup (id_key ns identity_id) r.values))

  abbrev commit_version :
      Bool → Redis → String → IdentityState W → ℕ → Option (IdentityState W) → Bool × Redis
  commit_version interrupted r identity_id state expected_version none = (false, r)
  commit_version interrupted r identity_id state expected_version (some current) =
      if not (current.version == expected_version) || interrupted then (false, r) else (
        true,
        record r {
          values =
              insert (id_key ns identity_id)
                (json.to_json (record state { version = expected_version + 1 })) r.values;
        },
      )

  -- `commit`; whatever raises makes it return False.
  unfoldable pub redis_commit : Bool → Redis → String → IdentityState W → ℕ → Bool × Redis
  unfolding redis_load
  redis_commit interrupted r identity_id state expected_version =
      commit_version interrupted r identity_id state expected_version (redis_load r identity_id)

-- `device_add` and `device_count`
unfoldable pub redis_device_add : String → Redis → String → String → ℕ × Redis
redis_device_add ns r device_id identity_id =
    let ids = add identity_id (ids_or_empty (lookup (dev_key ns device_id) r.sets)) in
    (length ids, record r { sets = insert (dev_key ns device_id) ids r.sets })

unfoldable pub redis_device_count : String → Redis → String → ℕ
redis_device_count ns r device_id = length (ids_or_empty (lookup (dev_key ns device_id) r.sets))
