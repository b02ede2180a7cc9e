-- ===== src/Durable/Redis/Matches.antt =====
-- The store on Redis does what the store in memory does, on devices and locations as sets.
use bank_of_baroda_iit_gn.Common.{
  ℕ, ◌+◌, String, ◌≡◌, ap, ◌∙◌, sym, ◌==◌, ◌&&◌, true, false, some, arith, is_empty, length, str_eq,
  Bool, if◌then◌else◌,
}
use bank_of_baroda_iit_gn.Common.Dict.{lookup-insert, add, insert, lookup}
use bank_of_baroda_iit_gn.Float.{Float}
use bank_of_baroda_iit_gn.State.{
  IdentityState, StateStore, commit, device_add, device_count, ids_or_empty, load,
}
use bank_of_baroda_iit_gn.State.Same.{SameState, SameState-at, SameState-version}
use bank_of_baroda_iit_gn.Durable.Redis.Keys.{dev_key_eq, id_key_eq}
use bank_of_baroda_iit_gn.State.Commit.{commit_cas}
use bank_of_baroda_iit_gn.Durable.Redis.{
  Redis, StateJson, dev_key, id_key, redis_commit, redis_device_add, redis_device_count, redis_load,
}

module _ {W : Type 0} where
  -- JSON reads a written state back, and writes something.
  pub record ReadsBack (json : StateJson W) (s : IdentityState W) : Type 0 where
    pub parsed : IdentityState W
    pub reads : json.from_json (json.to_json s) ≡ some parsed
    pub same : SameState s parsed
    pub full : is_empty (json.to_json s) ≡ false

module _ {W : Type 0} ⦃f : Float W⦄ (json : StateJson W) (ns : String) where
  -- Redis returns for an identity the state that the store in memory returns.
  pub record Agrees (store : StateStore W) (r : Redis) (id : String) : Type 0 where
    pub held : IdentityState W
    pub loads : redis_load json ns r id ≡ some held
    pub same : SameState (load store id) held

  load-written :
      (id j : String) (s : IdentityState W) (r : Redis)
      → is_empty (json.to_json s) ≡ false
      → redis_load json ns (record r { values = insert (id_key ns id) (json.to_json s) r.values }) j
        ≡ (if str_eq id j then json.from_json (json.to_json s) else redis_load json ns r j)
  unfolding redis_load
  load-written id j s r full = ground (
    arith,
    full,
    id_key_eq ns id j,
    lookup-insert (id_key ns id) (id_key ns j) (json.to_json s) r.values,
  )

  Agrees-either :
      (b : Bool) (store after : StateStore W) (r written : Redis) (j : String)
      → (new parsed : IdentityState W) → load after j ≡ (if b then new else load store j)
      → redis_load json ns written j ≡ (if b then some parsed else redis_load json ns r j)
      → SameState new parsed
      → Agrees store r j
      → Agrees after written j
  Agrees-either true store after r written j new parsed at_store at_redis same at_j = record {
    held = parsed;
    loads = at_redis;
    same = rw at_store same;
  }
  Agrees-either false store after r written j new parsed at_store at_redis same at_j = record {
    held = at_j.held;
    loads = at_redis ∙ at_j.loads;
    same = rw at_store at_j.same;
  }

  -- A commit that is not interrupted, by the version of the state that Redis holds.
  redis_commit_cas :
      (r : Redis) (id j : String) (t at_id : IdentityState W) (v : ℕ)
      → (back : ReadsBack json (record t { version = v + 1 }))
      → redis_load json ns r id ≡ some at_id
      → ((redis_commit json ns false r id t v).0 ≡ (at_id.version == v))
        × (redis_load json ns (redis_commit json ns false r id t v).1 j ≡ (
            if (at_id.version == v) && str_eq id j
            then some back.parsed
            else redis_load json ns r j))
  unfolding redis_commit
  redis_commit_cas r id j t at_id v back loads =
      rw loads
        (ground (arith, back.reads, load-written id j (record t { version = v + 1 }) r back.full))

  commit-Agrees :
      (store : StateStore W) (r : Redis) (id j : String) (s t : IdentityState W) (v : ℕ)
      → SameState s t
      → ReadsBack json (record t { version = v + 1 })
      → Agrees store r id
      → Agrees store r j
      → ((redis_commit json ns false r id t v).0 ≡ (commit store id s v).0)
        × Agrees (commit store id s v).1 (redis_commit json ns false r id t v).1 j
  commit-Agrees store r id j s t v same back at_id at_j =
      let (fits, after, devices) = commit_cas store id s v j in
      let (verdict, loads) = redis_commit_cas r id j t at_id.held v back at_id.loads in
      let version : (load store id).version == v ≡ at_id.held.version == v =
        ap (λ n. n == v) (SameState-version (load store id) at_id.held at_id.same) in
      let stored_after : load (commit store id s v).1 j ≡ (
          if (at_id.held.version == v) && str_eq id j
          then record s { version = v + 1 }
          else load store j) =
        after
        ∙ ap (λ b. if b && str_eq id j then record s { version = v + 1 } else load store j)
            version in
      (
        verdict ∙ sym (fits ∙ version),
        Agrees-either ((at_id.held.version == v) && str_eq id j) store (commit store id s v).1 r
            (redis_commit json ns false r id t v).1 j (record s { version = v + 1 }) back.parsed
            stored_after loads (SameState-at s t back.parsed (v + 1) same back.same) at_j,
      )

  -- A Redis and a store in memory that hold the same states and the same devices.
  pub record Mirrors (store : StateStore W) (r : Redis) : Type 0 where
    pub states : (j : String) → Agrees store r j
    pub devices :
        (d : String)
        → ids_or_empty (lookup (dev_key ns d) r.sets) ≡ ids_or_empty (lookup d store.device_ids)

  redis_commit-sets :
      (interrupted : Bool) (r : Redis) (id : String) (t : IdentityState W) (v : ℕ)
      → (redis_commit json ns interrupted r id t v).1.sets ≡ r.sets
  unfolding redis_commit
  redis_commit-sets interrupted r id t v = ground arith

  -- A commit that is interrupted fails and writes nothing.
  redis_commit-interrupted :
      (r : Redis) (id : String) (t : IdentityState W) (v : ℕ)
      → redis_commit json ns true r id t v ≡ (false, r)
  unfolding redis_commit
  redis_commit-interrupted r id t v = ground arith

  device_add-Mirrors :
      (store : StateStore W) (r : Redis) (d id : String)
      → Mirrors store r
      → ((redis_device_add ns r d id).0 ≡ (device_add store d id).0)
        × Mirrors (device_add store d id).1 (redis_device_add ns r d id).1
  unfolding redis_device_add device_add
  device_add-Mirrors store r d id m = (
    ap (λ ids. length (add id ids)) (m.devices d),
    record {
      states = λ j. record {
        held = (m.states j).held;
        loads = unfold redis_load in (m.states j).loads;
        same = unfold load in (m.states j).same;
      };
      devices = λ e.
          let before = m.devices d in
          let ids = add id (ids_or_empty (lookup d store.device_ids)) in
          ground (
            arith,
            m.devices e,
            before,
            dev_key_eq ns d e,
            lookup-insert (dev_key ns d) (dev_key ns e) ids r.sets,
            lookup-insert d e ids store.device_ids,
          );
    },
  )

  -- If a Redis and a store in memory hold the same, and JSON reads back the state to be written,
  -- commit gives the same verdict on both and they hold the same again, as after device_add, whose
  -- count is the same, as is device_count. A commit that Redis interrupts fails and writes nothing.
  pub redis_refines_memory :
      (store : StateStore W) (r : Redis) (id d : String) (s t : IdentityState W) (v : ℕ)
      → Mirrors store r
      → SameState s t
      → ReadsBack json (record t { version = v + 1 })
      → ((redis_commit json ns false r id t v).0 ≡ (commit store id s v).0)
        × Mirrors (commit store id s v).1 (redis_commit json ns false r id t v).1
        × (redis_commit json ns true r id t v ≡ (false, r))
        × ((redis_device_add ns r d id).0 ≡ (device_add store d id).0)
        × Mirrors (device_add store d id).1 (redis_device_add ns r d id).1
        × (redis_device_count ns r d ≡ device_count store d)
  redis_refines_memory store r id d s t v m same back =
      let committed =
        λ (j : String). commit-Agrees store r id j s t v same back (m.states id) (m.states j) in
      let (fits, after, kept) = commit_cas store id s v id in
      let (count, added) = device_add-Mirrors store r d id m in
      (
        (committed id).0,
        record {
          states = λ j. (committed j).1;
          devices = λ e. rw (redis_commit-sets false r id t v, kept) (m.devices e);
        },
        redis_commit-interrupted r id t v,
        count,
        added,
        unfold redis_device_count device_count in ap length (m.devices d),
      )
