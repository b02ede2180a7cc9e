-- ===== src/Tests/Stores.antt =====
-- The theorems on the store and on step-ups at concrete stores.
use bank_of_baroda_iit_gn.Common.{
  ℕ, suc, ◌≡◌, refl, true, false, none, some, ok, [], ◌∷◌, List, arith, str_eq_iff,
}
use bank_of_baroda_iit_gn.Common.Int.{pos}
use bank_of_baroda_iit_gn.Common.Dict.{lookup, insert}
use bank_of_baroda_iit_gn.Float.Fixed.{Fixed, fixed_float}
use bank_of_baroda_iit_gn.State.{
  IdentityState, StateStore, load, commit, current_version, device_add, device_count, empty_store,
  new_state,
}
use bank_of_baroda_iit_gn.State.Commit.{commit_cas}
use bank_of_baroda_iit_gn.Durable.Redis.{
  Redis, redis_commit, redis_device_add, redis_device_count, redis_load,
}
use bank_of_baroda_iit_gn.Durable.Redis.Matches.{Mirrors}
use bank_of_baroda_iit_gn.Durable.Redis.Written.{
  IsFaithful, JsonText, redis_refines_store, state_json,
}
use bank_of_baroda_iit_gn.State.Same.{SameState, SameState-refl}
use bank_of_baroda_iit_gn.State.Json.{from_dict, to_dict}
use bank_of_baroda_iit_gn.State.Json.RoundTrip.{from_dict-to_dict, reread}
use bank_of_baroda_iit_gn.State.Schedule.{Snapshot, World, Move, run, no_lost_update}
use bank_of_baroda_iit_gn.Engine.StepUp.{apply_verified_step_up}
use bank_of_baroda_iit_gn.Engine.StepUp.Effect.{only_rivals, step_up_lost}
use bank_of_baroda_iit_gn.Tests.Data.{known_state}

abbrev store : StateStore Fixed
store = record { records = ("asha", known_state) ∷ []; device_ids = ("d1", "asha" ∷ []) ∷ [] }

abbrev two_devices : IdentityState Fixed
two_devices = record known_state { devices = "d2" ∷ "d1" ∷ [] }

from_dict-to_dict_example :
    (from_dict (to_dict two_devices) ≡ ok (reread two_devices))
    × SameState two_devices (reread two_devices)
from_dict-to_dict_example = from_dict-to_dict two_devices

-- A JSON that knows the text of one state.
abbrev one_state : JsonText Fixed
one_state = record {
  dumps = λ d. 1 ∷ [];
  loads = λ raw. some (to_dict (record known_state { version = 1 }));
}

abbrev fresh_redis : Redis
fresh_redis = record { values = []; sets = [] }

fresh-Mirrors : Mirrors (state_json one_state) "pramaan" empty_store fresh_redis
unfolding load redis_load lookup
fresh-Mirrors = record {
  states = λ j. record { held = new_state; loads = refl; same = SameState-refl new_state };
  devices = λ d. refl;
}

first_version : IsFaithful one_state (record known_state { version = 1 })
first_version = record { reads = refl; full = refl }

redis_refines_store_example :
    ((redis_commit (state_json one_state) "pramaan" false fresh_redis "asha" known_state 0).0
      ≡ (commit empty_store "asha" known_state 0).0)
    × Mirrors
        (state_json one_state)
        "pramaan"
        (commit empty_store "asha" known_state 0).1
        (redis_commit (state_json one_state) "pramaan" false fresh_redis "asha" known_state 0).1
    × (redis_commit (state_json one_state) "pramaan" true fresh_redis "asha" known_state 0
        ≡ (false, fresh_redis))
    × ((redis_device_add "pramaan" fresh_redis "d1" "asha").0
        ≡ (device_add {W = Fixed} empty_store "d1" "asha").0)
    × Mirrors
        (state_json one_state)
        "pramaan"
        (device_add empty_store "d1" "asha").1
        (redis_device_add "pramaan" fresh_redis "d1" "asha").1
    × (redis_device_count "pramaan" fresh_redis "d1" ≡ device_count {W = Fixed} empty_store "d1")
redis_refines_store_example =
    redis_refines_store one_state "pramaan" empty_store fresh_redis "asha" "d1" known_state 0
      fresh-Mirrors first_version

abbrev lower : IdentityState Fixed → IdentityState Fixed
lower s = record s { trust = pos 300 }

abbrev world : World Fixed
world = record { store = store; held = λ c. none }

-- Two clients load; the first writes; the second loads again.
abbrev moves : List (Move Fixed)
moves =
    Move.take_copy 1 "asha"
    ∷ Move.take_copy 2 "asha"
    ∷ Move.write_back 1 lower
    ∷ Move.take_copy 2 "asha"
    ∷ []

abbrev reloaded : Snapshot Fixed
reloaded = record { identity = "asha"; state = record known_state { trust = pos 300; version = 3 } }

second_holds : (run world moves).held 2 ≡ some reloaded
unfolding run load commit current_version lookup insert
second_holds = refl

second_commits : (commit (run world moves).store "asha" (lower reloaded.state) 3).0 ≡ true
unfolding run load commit current_version lookup insert
second_commits = refl

no_lost_update_example : reloaded.state ≡ load (run world moves).store "asha"
no_lost_update_example =
    no_lost_update world moves 2 reloaded lower (λ d. refl) second_holds second_commits

-- A rival that rewrites the state it finds.
abbrev rival : ℕ → StateStore Fixed → StateStore Fixed
rival k s = (commit s "asha" (load s "asha") (load s "asha").version).1

rival_bumps :
    (k : ℕ) (s : StateStore Fixed) → (load (rival k s) "asha").version ≡ suc (load s "asha").version
rival_bumps k s = ground (
  arith,
  commit_cas s "asha" (load s "asha") (load s "asha").version "asha",
  str_eq_iff "asha" "asha",
)

step_up_lost_example :
    (apply_verified_step_up "asha" true rival store).1 ≡ only_rivals 5 rival store
step_up_lost_example = step_up_lost "asha" true rival store rival_bumps
