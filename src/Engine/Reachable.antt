-- ===== src/Engine/Reachable.antt =====
-- Any sequence of assessments and step-ups on one store, against any other clients.
use bank_of_baroda_iit_gn.Common.{
  ℕ, zero, suc, String, Bool, true, false, ◌&&◌, ◌==◌, Option, List, [], ◌∷◌, str_eq, Bool-cases,
  Option-cases, inl, inr, All, if◌then◌else◌,
}
use bank_of_baroda_iit_gn.Float.{Float, IsClip}
use bank_of_baroda_iit_gn.Schemas.{IdentityEvent}
use bank_of_baroda_iit_gn.State.{IdentityState, StateStore, commit, device_add, load}
use bank_of_baroda_iit_gn.State.Commit.{commit_cas}
use bank_of_baroda_iit_gn.Engine.Trust.{TrustEngine}
use bank_of_baroda_iit_gn.Engine.Trust.Bounds.{InRange}
use bank_of_baroda_iit_gn.Engine.Attempt.{assess_state}
use bank_of_baroda_iit_gn.Engine.Attempt.Review.{outcome_trust}
use bank_of_baroda_iit_gn.Engine.Assess.{
  EngineState, Surroundings, assess, assess_loop, attempt, resolve_behavior, anomaly_of,
}
use bank_of_baroda_iit_gn.Engine.StepUp.{apply_verified_step_up, step_up_loop, stepped}
use bank_of_baroda_iit_gn.Engine.StepUp.Effect.{stepped_trust_bounds, stepped_version}

-- One call of the engine.
pub data Call (W : Type 0) : Type 0 where
  scored : Surroundings W → IdentityEvent W → Call W
  stepped_up : String → Bool → (ℕ → StateStore W → StateStore W) → Call W

module _ {W : Type 0} ⦃f : Float W⦄ where
  -- The trust score of every identity lies between 0 and 1000.
  abbrev pub AllInRange : StateStore W → Type 0
  AllInRange store = (j : String) → InRange (load store j).trust

  -- The other clients keep every trust score in range.
  abbrev pub KeepRange : (ℕ → StateStore W → StateStore W) → Type 0
  KeepRange rivals = (k : ℕ) (store : StateStore W) → AllInRange store → AllInRange (rivals k store)

  abbrev pub RivalsKeepRange : Call W → Type 0
  RivalsKeepRange (scored around e) = KeepRange around.rivals
  RivalsKeepRange (stepped_up id passed rivals) = KeepRange rivals

  unfoldable pub perform : TrustEngine W → Call W → EngineState W → EngineState W
  perform engine (scored around e) s = (assess engine around e s).1
  perform engine (stepped_up id passed rivals) s = record s {
    store = (apply_verified_step_up id passed rivals s.store).1;
  }

  unfoldable pub run_calls : TrustEngine W → List (Call W) → EngineState W → EngineState W
  run_calls engine [] s = s
  run_calls engine (c ∷ cs) s = run_calls engine cs (perform engine c s)

  commit-AllInRange :
      (store : StateStore W) (id : String) (s : IdentityState W) (v : ℕ)
      → AllInRange store
      → InRange s.trust
      → AllInRange (commit store id s v).1
  commit-AllInRange store id s v all new j =
      let (fits, after, kept) = commit_cas store id s v j in
      elim (Bool-cases (((load store id).version == v) && str_eq id j)) [
        | inl e ↦ rw (after, e) new
        | inr e ↦ rw (after, e) (all j)
      ]

  either_AllInRange :
      {A : Type 0} (b : Bool) (x y : A × Bool × StateStore W)
      → AllInRange x.2
      → AllInRange y.2
      → AllInRange (if b then x else y).2
  either_AllInRange true x y at_x at_y = at_x
  either_AllInRange false x y at_x at_y = at_y

  stepped-InRange :
      (s : IdentityState W) (passed : Bool) → InRange s.trust → InRange (stepped s passed).trust
  stepped-InRange s passed h =
      rw ((stepped_version s passed).1) (stepped_trust_bounds s.trust passed h).0

  step_up_loop-AllInRange :
      (n : ℕ) (id : String) (passed : Bool) (rivals : ℕ → StateStore W → StateStore W)
      (store : StateStore W)
      → KeepRange rivals
      → AllInRange store
      → AllInRange (step_up_loop n id passed rivals store).2
  unfolding step_up_loop
  step_up_loop-AllInRange zero id passed rivals store keep all =
      let new = stepped (load store id) passed in
      commit-AllInRange (rivals 0 store) id new new.version (keep 0 store all)
        (stepped-InRange (load store id) passed (all id))
  step_up_loop-AllInRange (suc n) id passed rivals store keep all =
      let new = stepped (load store id) passed in
      let after = (commit (rivals (suc n) store) id new new.version).1 in
      let kept =
        commit-AllInRange (rivals (suc n) store) id new new.version (keep (suc n) store all)
          (stepped-InRange (load store id) passed (all id)) in
      either_AllInRange _ _ _ kept (step_up_loop-AllInRange n id passed rivals after keep kept)

  module _ (engine : TrustEngine W) (clips : IsClip engine.libs) where
    attempt-AllInRange :
        (e : IdentityEvent W) (anomaly : Option W) (now : W) (rival : StateStore W → StateStore W)
        (store : StateStore W)
        → ((st : StateStore W) → AllInRange st → AllInRange (rival st))
        → AllInRange store
        → AllInRange (attempt engine e anomaly now rival store).2
    unfolding attempt
    attempt-AllInRange e anomaly now rival store keep all =
        let (dev, seen) = device_add store e.device_id e.identity_id in
        let state = load store e.identity_id in
        let still : AllInRange seen = λ j. unfold device_add load in all j in
        elim (Option-cases (assess_state engine e anomaly now state dev)) [
          | inl raised ↦ rw raised still
          | inr (o, answered) ↦
              let (range, same) = outcome_trust engine e clips anomaly now state dev o answered in
              rw answered (
                commit-AllInRange (rival seen) e.identity_id o.state o.state.version
                  (keep seen still) (rw same range))
        ]

    assess_loop-AllInRange :
        (n : ℕ) (e : IdentityEvent W) (anomaly : Option W) (now : W)
        (rivals : ℕ → StateStore W → StateStore W) (store : StateStore W)
        → KeepRange rivals
        → AllInRange store
        → AllInRange (assess_loop n engine e anomaly now rivals store).2
    unfolding assess_loop
    assess_loop-AllInRange zero e anomaly now rivals store keep all =
        attempt-AllInRange e anomaly now (rivals 0) store (keep 0) all
    assess_loop-AllInRange (suc n) e anomaly now rivals store keep all =
        let kept = attempt-AllInRange e anomaly now (rivals (suc n)) store (keep (suc n)) all in
        either_AllInRange _ _ _ kept (assess_loop-AllInRange n e anomaly now rivals _ keep kept)

    perform-AllInRange :
        (c : Call W) (s : EngineState W)
        → RivalsKeepRange c
        → AllInRange s.store
        → AllInRange (perform engine c s).store
    unfolding perform assess apply_verified_step_up
    perform-AllInRange (scored around e) s keep all =
        assess_loop-AllInRange 5 e (anomaly_of (resolve_behavior engine around.clock e s.nonces).0)
          around.now_wall around.rivals s.store keep all
    perform-AllInRange (stepped_up id passed rivals) s keep all =
        step_up_loop-AllInRange 5 id passed rivals s.store keep all

    -- Whatever sequence of assessments and step-ups an engine performs, with whatever results, every
    -- trust score in its store stays between 0 and 1000, if the clip of the libraries is numpy's and
    -- the other clients keep it so.
    pub run_calls-AllInRange :
        (calls : List (Call W)) (s : EngineState W)
        → All RivalsKeepRange calls
        → AllInRange s.store
        → AllInRange (run_calls engine calls s).store
    unfolding run_calls
    run_calls-AllInRange [] s keep all = all
    run_calls-AllInRange (c ∷ cs) s (keep, keeps) all =
        run_calls-AllInRange cs (perform engine c s) keeps (perform-AllInRange c s keep all)
