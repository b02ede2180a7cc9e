-- ===== src/State/Schedule.antt =====
-- Clients that load and commit in any order: a commit that succeeds was computed from the state
-- that it replaces, so no update is lost.
use bank_of_baroda_iit_gn.Common.{
  ℕ, ◌≤◌, String, ◌≡◌, true, Option, none, some, List, [], ◌∷◌, arith, ◌==◌, str_eq_iff,
  if◌then◌else◌,
}
use bank_of_baroda_iit_gn.Float.{Float}
use bank_of_baroda_iit_gn.State.{IdentityState, StateStore, load, commit}
use bank_of_baroda_iit_gn.State.Commit.{commit_cas}

-- What a request holds between its `load` and its `commit`.
pub record Snapshot (W : Type 0) : Type 0 where
  pub identity : String
  pub state : IdentityState W

pub record World (W : Type 0) : Type 0 where
  pub store : StateStore W
  pub held : ℕ → Option (Snapshot W)

-- A client loads the state of an identity, or commits what it computed from the state it holds. As
-- in the engine, the expected version is the version of the loaded state.
pub data Move (W : Type 0) : Type 0 where
  take_copy : ℕ → String → Move W
  write_back : ℕ → (IdentityState W → IdentityState W) → Move W

module _ {W : Type 0} ⦃f : Float W⦄ where
  abbrev write :
      StateStore W → Option (Snapshot W) → (IdentityState W → IdentityState W) → StateStore W
  write store none g = store
  write store (some s) g = (commit store s.identity (g s.state) s.state.version).1

  unfoldable step : World W → Move W → World W
  step w (take_copy c id) = record w {
    held =
        λ d. if c == d then some (record { identity = id; state = load w.store id }) else w.held d;
  }
  step w (write_back c g) = record w { store = write w.store (w.held c) g }

  unfoldable pub run : World W → List (Move W) → World W
  unfolding step
  run w [] = w
  run w (m ∷ ms) = run (step w m) ms

  -- A held copy is no newer than the stored state, and is that state if the versions agree.
  abbrev IsFresh : StateStore W → Snapshot W → Type 0
  IsFresh store s =
      (s.state.version ≤ (load store s.identity).version)
      × (s.state.version ≡ (load store s.identity).version → s.state ≡ load store s.identity)

  pub record IsCoherent (w : World W) : Type 0 where
    pub fresh : (c : ℕ) (s : Snapshot W) → w.held c ≡ some s → IsFresh w.store s

  commit-IsFresh :
      (store : StateStore W) (id : String) (new : IdentityState W) (v : ℕ) (s : Snapshot W)
      → IsFresh store s
      → IsFresh (commit store id new v).1 s
  commit-IsFresh store id new v s h =
      ground (arith, commit_cas store id new v s.identity, str_eq_iff id s.identity)

  write-IsFresh :
      (store : StateStore W) (copy : Option (Snapshot W)) (g : IdentityState W → IdentityState W)
      → (s : Snapshot W) → IsFresh store s
      → IsFresh (write store copy g) s
  write-IsFresh store none g s h = h
  write-IsFresh store (some t) g s h =
      commit-IsFresh store t.identity (g t.state) t.state.version s h

  step-IsCoherent : (w : World W) (m : Move W) → IsCoherent w → IsCoherent (step w m)
  unfolding step
  step-IsCoherent w (take_copy c id) h = record { fresh = λ d s e. ground (arith, h.fresh d s) }
  step-IsCoherent w (write_back c g) h = record {
    fresh = λ d s e. write-IsFresh w.store (w.held c) g s (h.fresh d s e);
  }

  run-IsCoherent : (w : World W) (ms : List (Move W)) → IsCoherent w → IsCoherent (run w ms)
  unfolding run
  run-IsCoherent w [] h = h
  run-IsCoherent w (m ∷ ms) h = run-IsCoherent (step w m) ms (step-IsCoherent w m h)

  -- From a world in which nobody holds a copy, after any interleaving of loads and commits of any
  -- clients, a commit that succeeds was computed from exactly the state it replaces.
  pub no_lost_update :
      (w : World W) (ms : List (Move W)) (c : ℕ) (s : Snapshot W)
      (g : IdentityState W → IdentityState W)
      → ((d : ℕ) → w.held d ≡ none)
      → (run w ms).held c ≡ some s
      → (commit (run w ms).store s.identity (g s.state) s.state.version).0 ≡ true
      → s.state ≡ load (run w ms).store s.identity
  no_lost_update w ms c s g fresh_start holds succeeded =
      let start : IsCoherent w = record { fresh = λ d t e. cc (fresh_start d) } in
      ground (
        arith,
        (run-IsCoherent w ms start).fresh c s holds,
        commit_cas (run w ms).store s.identity (g s.state) s.state.version s.identity,
      )
