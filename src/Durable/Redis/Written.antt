-- ===== src/Durable/Redis/Written.antt =====
-- What the store on Redis writes, it reads back: `to_json` and `from_json` over the text of JSON.
use bank_of_baroda_iit_gn.Common.{
  ℕ, ◌+◌, String, ◌≡◌, ap, ◌∙◌, true, false, Option, none, some, Result, ok, err, is_empty,
}
use bank_of_baroda_iit_gn.Float.{Float}
use bank_of_baroda_iit_gn.Verifier.{Bytes}
use bank_of_baroda_iit_gn.State.{IdentityState, StateStore, commit, device_add, device_count}
use bank_of_baroda_iit_gn.State.Same.{SameState-refl}
use bank_of_baroda_iit_gn.State.Json.{StateDict, Unread, from_dict, to_dict}
use bank_of_baroda_iit_gn.State.Json.RoundTrip.{from_dict-to_dict, reread}
use bank_of_baroda_iit_gn.Durable.Redis.{
  Redis, StateJson, redis_commit, redis_device_add, redis_device_count,
}
use bank_of_baroda_iit_gn.Durable.Redis.Matches.{Mirrors, ReadsBack, redis_refines_memory}

-- `json.dumps(d).encode()`, and `json.loads`, which is `none` where it raises or gives no object.
pub record JsonText (W : Type 0) : Type 0 where
  pub dumps : StateDict W → Bytes
  pub loads : Bytes → Option (StateDict W)

-- JSON reads back the dictionary of a state, and its text is not empty.
pub record IsFaithful {W : Type 0} (json : JsonText W) (s : IdentityState W) : Type 0 where
  pub reads : json.loads (json.dumps (to_dict s)) ≡ some (to_dict s)
  pub full : is_empty (json.dumps (to_dict s)) ≡ false

module _ {W : Type 0} ⦃f : Float W⦄ (json : JsonText W) where
  abbrev returned : Result Unread (IdentityState W) → Option (IdentityState W)
  returned (ok s) = some s
  returned (err e) = none

  abbrev read_state : Option (StateDict W) → Option (IdentityState W)
  read_state none = none
  read_state (some d) = returned (from_dict d)

  -- `to_json` and `from_json`
  abbrev pub state_json : StateJson W
  state_json = record {
    to_json = λ s. json.dumps (to_dict s);
    from_json = λ raw. read_state (json.loads raw);
  }

  state_json-ReadsBack : (s : IdentityState W) → IsFaithful json s → ReadsBack state_json s
  state_json-ReadsBack s faithful =
      let (read, same) = from_dict-to_dict s in
      record {
        parsed = reread s;
        reads = ap read_state faithful.reads ∙ ap returned read;
        same = same;
        full = faithful.full;
      }

  -- If a Redis and a store in memory hold the same, and JSON reads back what it wrote of the new
  -- state, commit gives the same verdict on both and they hold the same again, as after device_add,
  -- whose count is the same, as is device_count. A commit that Redis interrupts fails and writes
  -- nothing.
  pub redis_refines_store :
      (ns : String) (store : StateStore W) (r : Redis) (id d : String) (s : IdentityState W) (v : ℕ)
      → Mirrors state_json ns store r
      → IsFaithful json (record s { version = v + 1 })
      → ((redis_commit state_json ns false r id s v).0 ≡ (commit store id s v).0)
        × Mirrors state_json ns
            (commit store id s v).1
            (redis_commit state_json ns false r id s v).1
        × (redis_commit state_json ns true r id s v ≡ (false, r))
        × ((redis_device_add ns r d id).0 ≡ (device_add store d id).0)
        × Mirrors state_json ns (device_add store d id).1 (redis_device_add ns r d id).1
        × (redis_device_count ns r d ≡ device_count store d)
  redis_refines_store ns store r id d s v m faithful =
      redis_refines_memory state_json ns store r id d s s v m (SameState-refl s)
        (state_json-ReadsBack (record s { version = v + 1 }) faithful)
