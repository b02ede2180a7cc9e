-- ===== src/State/Commit.antt =====
-- The compare-and-set of `commit`, on both of its branches.
use bank_of_baroda_iit_gn.Common.{
  ℕ, ◌+◌, String, ◌≡◌, ◌&&◌, arith, str_eq, ◌==◌, true, false, str_eq_iff, if◌then◌else◌,
}
use bank_of_baroda_iit_gn.Common.Dict.{lookup-insert}
use bank_of_baroda_iit_gn.Float.{Float}
use bank_of_baroda_iit_gn.State.{IdentityState, StateStore, load, current_version, commit}

module _ {W : Type 0} ⦃f : Float W⦄ (store : StateStore W) (id : String) where
  -- The stored version is the version of the state that `load` returns.
  pub version-load : (load store id).version ≡ current_version store id
  unfolding load current_version
  version-load = ground arith

  -- A commit succeeds exactly where the expected version is the stored one. Then `load` returns the
  -- given state one version on, under its identity alone; otherwise nothing changes. The device
  -- graph never changes.
  pub commit_cas :
      (s : IdentityState W) (v : ℕ) (j : String)
      → let fits = (load store id).version == v in
        ((commit store id s v).0 ≡ fits)
        × (load (commit store id s v).1 j
            ≡ (if fits && str_eq id j then record s { version = v + 1 } else load store j))
        × ((commit store id s v).1.device_ids ≡ store.device_ids)
  unfolding commit load
  commit_cas s v j = ground (arith, lookup-insert id j (record s { version = v + 1 }) store.records)

  -- A commit against a version that is not the stored one changes nothing.
  pub commit_stale :
      (s : IdentityState W) (v : ℕ)
      → ((load store id).version == v) ≡ false
      → commit store id s v ≡ (false, store)
  unfolding commit load current_version
  commit_stale s v h = ground arith

  -- A commit against the stored version succeeds, and `load` then returns the state one version on.
  pub commit_fresh :
      (s : IdentityState W)
      → ((load store id).version ≡ s.version)
      → ((commit store id s s.version).0 ≡ true)
        × (load (commit store id s s.version).1 id ≡ record s { version = s.version + 1 })
  commit_fresh s h = ground (arith, commit_cas s s.version id, str_eq_iff id id)
