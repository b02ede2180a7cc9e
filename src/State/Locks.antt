-- ===== src/State/Locks.antt =====
-- The lock of each identity in `InMemoryStateStore`, and clients that load and commit under it, as
-- the loops of the engine do. A lock is Python's `RLock`: its owner may acquire it again.
pub mod Exclusion
use bank_of_baroda_iit_gn.Common.{
  ℕ, zero, suc, String, ◌≡◌, Bool, Option, none, some, List, [], ◌==◌, if◌then◌else◌,
}
use bank_of_baroda_iit_gn.Common.Dict.{Dict, lookup, insert}
use bank_of_baroda_iit_gn.Float.{Float}
use bank_of_baroda_iit_gn.State.{IdentityState, StateStore, load, commit}

-- An `RLock`: its owner, and how many more times than once the owner holds it.
abbrev pub Lock : Type 0
Lock = Option (ℕ × ℕ)

-- `_key_lock`: the lock of an identity, which is made free where it is missing.
abbrev lock_or_new : Option Lock → Lock
lock_or_new none = none
lock_or_new (some l) = l

unfoldable pub key_lock : Dict Lock → String → Lock
unfolding lookup
key_lock locks id = lock_or_new (lookup id locks)

abbrev acquired : ℕ → Lock → Option Lock
acquired c none = some (some (c, 0))
acquired c (some (d, depth)) = if d == c then some (some (d, suc depth)) else none

abbrev stored_lock : String → Dict Lock → Option Lock → Option (Dict Lock)
unfolding insert
stored_lock id locks none = none
stored_lock id locks (some l) = some (insert id l locks)

-- The start of `lock`: `none` where the thread waits.
unfoldable pub acquire : ℕ → String → Dict Lock → Option (Dict Lock)
unfolding key_lock insert
acquire c id locks = stored_lock id locks (acquired c (key_lock locks id))

abbrev pub after_release : ℕ → Lock → Lock
after_release c none = none
after_release c (some (d, zero)) = if d == c then none else some (d, zero)
after_release c (some (d, suc depth)) = if d == c then some (d, depth) else some (d, suc depth)

-- The end of `lock`. A thread that does not own the lock would get an exception.
unfoldable pub release : ℕ → String → Dict Lock → Dict Lock
unfolding key_lock insert
release c id locks = insert id (after_release c (key_lock locks id)) locks

-- Where a client stands: outside, in the body of `with self.store.lock(identity_id)`, after its load
-- with the loaded state, or after its commit.
pub data Phase (W : Type 0) : Type 0 where
  outside : Phase W
  entered : (id : String) → Phase W
  loaded : (id : String) → IdentityState W → Phase W
  written : (id : String) → Phase W

-- The identity whose lock the client holds.
abbrev pub section_of : {W : Type 0} → Phase W → Option String
section_of outside = none
section_of (entered id) = some id
section_of (loaded id s) = some id
section_of (written id) = some id

pub record LockedWorld (W : Type 0) : Type 0 where
  pub store : StateStore W
  pub locks : Dict Lock
  pub phase : ℕ → Phase W

abbrev pub with_phase : {W : Type 0} → ℕ → Phase W → (ℕ → Phase W) → ℕ → Phase W
with_phase c p phase d = if c == d then p else phase d

module _ {W : Type 0} ⦃f : Float W⦄ where
  -- One step of one client: it acquires a lock, loads, commits what it computed from the loaded
  -- state against the loaded version, or leaves the body, also by an exception.
  pub data Step (w : LockedWorld W) : LockedWorld W → Type 0 where
    enter :
        (c : ℕ) (id : String) (locks : Dict Lock)
        → w.phase c ≡ outside
        → acquire c id w.locks ≡ some locks
        → Step w (record w { locks = locks; phase = with_phase c (entered id) w.phase })
    read :
        (c : ℕ) (id : String)
        → w.phase c ≡ entered id
        → Step w (record w { phase = with_phase c (loaded id (load w.store id)) w.phase })
    write :
        (c : ℕ) (id : String) (s new : IdentityState W)
        → w.phase c ≡ loaded id s
        → Step w (record w {
          store = (commit w.store id new s.version).1;
          phase = with_phase c (written id) w.phase;
        })
    leave :
        (c : ℕ) (id : String)
        → section_of (w.phase c) ≡ some id
        → Step w (record w { locks = release c id w.locks; phase = with_phase c outside w.phase })

  -- What any number of clients reach from a store, with no lock made yet.
  pub data Reach (store : StateStore W) : LockedWorld W → Type 0 where
    start : Reach store (record { store = store; locks = []; phase = λ c. outside })
    later : {w v : LockedWorld W} → Reach store w → Step w v → Reach store v
