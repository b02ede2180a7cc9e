-- ===== src/State/Locks/Exclusion.antt =====
-- Under the locks, at most one client is in the body for an identity, and every commit succeeds.
use bank_of_baroda_iit_gn.Common.{
  ℕ, zero, suc, String, ◌≡◌, refl, true, false, Option, none, some, arith, ◌==◌, str_eq, str_eq_iff,
  Bool-cases, inl, inr, Option-cases, if◌then◌else◌,
}
use bank_of_baroda_iit_gn.Common.Dict.{Dict, insert, lookup-insert}
use bank_of_baroda_iit_gn.Float.{Float}
use bank_of_baroda_iit_gn.State.{IdentityState, StateStore, load, commit}
use bank_of_baroda_iit_gn.State.Commit.{commit_cas}
use bank_of_baroda_iit_gn.State.Locks.{
  Lock, LockedWorld, Reach, Step, acquire, enter, key_lock, later, leave, loaded, read, release,
  after_release, section_of, start, write,
}

abbrev owner : Lock → Option ℕ
owner none = none
owner (some (c, depth)) = some c

key_lock-insert :
    (id j : String) (l : Lock) (locks : Dict Lock)
    → key_lock (insert id l locks) j ≡ (if str_eq id j then l else key_lock locks j)
unfolding key_lock
key_lock-insert id j l locks = ground (arith, lookup-insert id j l locks)

-- A client that acquires a lock owns it, and nobody else did.
acquire-owner :
    (c : ℕ) (id : String) (locks after : Dict Lock)
    → acquire c id locks ≡ some after
    → (l : Lock) × (after ≡ insert id l locks)
      × (owner l ≡ some c)
      × ((d : ℕ) → owner (key_lock locks id) ≡ some d → d ≡ c)
unfolding acquire
acquire-owner c id locks after h = elim (Option-cases (key_lock locks id)) [
  | inl free ↦ (some (c, 0), ground (arith, h, free), refl, λ d e. cc (free, e))
  | inr ((d, depth), taken) ↦ elim (Bool-cases (d == c)) [
    | inl same ↦ (
      some (d, suc depth),
      ground (arith, h, taken, same),
      ground (arith, same),
      λ b e. ground (arith, taken, same, e),
    )
    | inr other ↦ absurd (ground (arith, h, taken, other))
  ]
]

owner-after_release :
    (c d : ℕ) (l : Lock) → (c == d) ≡ false → owner l ≡ some d → owner (after_release c l) ≡ some d
owner-after_release c d none other h = h
owner-after_release c d (some (b, zero)) other h = ground (arith, other, h)
owner-after_release c d (some (b, suc depth)) other h = ground (arith, other, h)

-- Releasing a lock leaves the locks that others own.
release-owner :
    (c d : ℕ) (id j : String) (locks : Dict Lock)
    → (c == d) ≡ false
    → owner (key_lock locks j) ≡ some d
    → owner (key_lock (release c id locks) j) ≡ some d
unfolding release
release-owner c d id j locks other h = ground (
  arith,
  h,
  str_eq_iff id j,
  key_lock-insert id j (after_release c (key_lock locks id)) locks,
  owner-after_release c d (key_lock locks id) other,
)

module _ {W : Type 0} ⦃f : Float W⦄ where
  -- Who is in the body for an identity owns its lock, and a loaded state is the stored one.
  record IsExclusive (w : LockedWorld W) : Type 0 where
    held :
        (c : ℕ) (id : String)
        → section_of (w.phase c) ≡ some id
        → owner (key_lock w.locks id) ≡ some c
    current :
        (c : ℕ) (id : String) (s : IdentityState W) → w.phase c ≡ loaded id s → s ≡ load w.store id

  Step-IsExclusive : {w v : LockedWorld W} → Step w v → IsExclusive w → IsExclusive v
  Step-IsExclusive {w} (enter c id locks free got) inv =
      let (l, after, mine, alone) = acquire-owner c id w.locks locks got in
      record {
        held = λ d j h. rw after (
            ground (
              arith,
              mine,
              alone d,
              inv.held d j,
              key_lock-insert id j l w.locks,
              str_eq_iff id j,
              h,
            ));
        current = λ d j s h. ground (arith, inv.current d j s, h);
      }
  Step-IsExclusive (read c id at_body) inv = record {
    held = λ d j h. ground (arith, inv.held d j, inv.held c j, at_body, h);
    current = λ d j s h. ground (arith, inv.current d j s, h);
  }
  Step-IsExclusive {w} (write c id s new at_loaded) inv = record {
    held = λ d j h. ground (arith, inv.held d j, inv.held c j, at_loaded, h);
    current = λ d j t h. ground (
      arith,
      inv.current d j t,
      inv.held d j,
      inv.held c id,
      at_loaded,
      h,
      commit_cas w.store id new s.version j,
      str_eq_iff id j,
    );
  }
  Step-IsExclusive {w} (leave c id inside) inv = record {
    held = λ d j h. ground (arith, inv.held d j, release-owner c d id j w.locks, h);
    current = λ d j s h. ground (arith, inv.current d j s, h);
  }

  Reach-IsExclusive : {store : StateStore W} {w : LockedWorld W} → Reach store w → IsExclusive w
  unfolding key_lock
  Reach-IsExclusive start = record { held = λ c id h. cc (h); current = λ c id s h. cc (h) }
  Reach-IsExclusive (later r st) = Step-IsExclusive st (Reach-IsExclusive r)

  -- However clients interleave under the locks, a client that has loaded a state is the only one in
  -- the body for that identity, the state is still the stored one, and its commit against the
  -- version of that state succeeds, whatever new state it offers.
  pub locked_commit_succeeds :
      {store : StateStore W} {w : LockedWorld W}
      → Reach store w
      → (c d : ℕ) (id : String) (s new : IdentityState W) → w.phase c ≡ loaded id s
      → section_of (w.phase d) ≡ some id
      → (d ≡ c) × (s ≡ load w.store id) × ((commit w.store id new s.version).0 ≡ true)
  locked_commit_succeeds {store} {w} r c d id s new at_loaded inside =
      let inv = Reach-IsExclusive r in
      ground (
        arith,
        inv.held d id inside,
        inv.held c id,
        inv.current c id s at_loaded,
        at_loaded,
        commit_cas w.store id new s.version id,
      )
