-- ===== src/Engine/Trust/Budget.antt =====
-- Within one recovery window, events of any risks raise the trust score by the budget at most.
use bank_of_baroda_iit_gn.Common.{
  ◌≡◌, false, Option, none, some, List, [], ◌∷◌, All, arith, Bool-cases, Option-cases, inl, inr,
}
use bank_of_baroda_iit_gn.Common.Int.{ℤ, ◌+ℤ◌, ◌-ℤ◌, ◌≤ℤ◌, +ℤ_parts, -ℤ_parts, int_laws}
use bank_of_baroda_iit_gn.Float.{Float, IsFloat, IsClip}
use bank_of_baroda_iit_gn.State.{IdentityState}
use bank_of_baroda_iit_gn.Engine.Trust.{TrustEngine, roll_window, allowed_gain, update_trust}
use bank_of_baroda_iit_gn.Engine.Trust.Bounds.{
  InRange, update_trust-InRange, update_trust_direction,
}

module _ {W : Type 0} ⦃f : Float W⦄ where
  open f use {lt, lit, sub}

  abbrev pub resume : Option (ℤ × IdentityState W) → Option (IdentityState W)
  resume none = none
  resume (some (t, s)) = some (record s { trust = t })

  -- The trust updates of a sequence of events, each a risk and a time, as `assess` makes them.
  unfoldable pub run_updates :
      TrustEngine W → List (W × W) → IdentityState W → Option (IdentityState W)
  run_updates engine [] state = some state
  run_updates engine ((risk, now) ∷ events) state =
      elim (resume (update_trust engine state risk now)) [
        | none ↦ none
        | some s ↦ run_updates engine events s
      ]

  -- A time within the window that the state has opened.
  abbrev pub InWindow : W → W → Type 0
  InWindow start now = lt (lit 3600 0) (sub now start) ≡ false

module _ {W : Type 0} ⦃f : Float W⦄ (laws : IsFloat W) (engine : TrustEngine W)
    (clips : IsClip engine.libs) where
  open f use {lt, lit, sub, mul, trunc}

  granted_within :
      (cap gain : ℤ) (s : IdentityState W)
      → s.recovered_in_window ≤ℤ cap
      → s.recovered_in_window +ℤ allowed_gain cap gain s ≤ℤ cap
  granted_within cap gain s h = ground (
    arith,
    -ℤ_parts cap s.recovered_in_window,
    +ℤ_parts s.recovered_in_window (allowed_gain cap gain s),
  )

  -- The window stays, and what is spent stays within the cap.
  update_trust_window :
      (state after : IdentityState W) (risk now : W) (t : ℤ)
      → InWindow state.recovery_window_start now
      → state.recovered_in_window ≤ℤ engine.recovery_cap
      → update_trust engine state risk now ≡ some (t, after)
      → (after.recovery_window_start ≡ state.recovery_window_start)
        × (after.recovered_in_window ≤ℤ engine.recovery_cap)
  unfolding update_trust roll_window
  update_trust_window state after risk now t within spent h =
      elim (Bool-cases (lt (lit 45 2) risk)) [
        | inl high ↦ ground arith
        | inr low ↦ elim (Option-cases (trunc (mul (sub (lit 45 2) risk) (lit 60 0)))) [
          | inl raised ↦ absurd (ground arith)
          | inr (n, e) ↦ ground (arith, granted_within engine.recovery_cap n state spent)
        ]
      ]

  -- One event moves the score by no more than it spends of the budget.
  step_within :
      (state after : IdentityState W) (risk now : W) (t : ℤ)
      → InRange state.trust
      → InWindow state.recovery_window_start now
      → update_trust engine state risk now ≡ some (t, after)
      → t +ℤ state.recovered_in_window ≤ℤ state.trust +ℤ after.recovered_in_window
  step_within state after risk now t range within h =
      let direction = update_trust_direction engine clips laws state after risk now t range h in
      elim (Bool-cases (lt (lit 45 2) risk)) [
        | inl high ↦ ground (
          arith,
          direction,
          +ℤ_parts t state.recovered_in_window,
          +ℤ_parts state.trust state.recovered_in_window,
        )
        | inr low ↦ unfold roll_window in ground (arith, direction)
      ]

  run_within :
      (events : List (W × W)) (state final : IdentityState W)
      → InRange state.trust
      → state.recovered_in_window ≤ℤ engine.recovery_cap
      → All (λ e. InWindow state.recovery_window_start e.1) events
      → run_updates engine events state ≡ some final
      → (final.trust +ℤ state.recovered_in_window ≤ℤ state.trust +ℤ final.recovered_in_window)
        × (final.recovered_in_window ≤ℤ engine.recovery_cap)
  unfolding run_updates
  run_within [] state final range spent within h = ground arith
  run_within ((risk, now) ∷ events) state final range spent within h =
      elim (Option-cases (update_trust engine state risk now)) [
        | inl raised ↦ absurd (ground arith)
        | inr ((t, after), e) ↦
            let (start, kept) = update_trust_window state after risk now t within.0 spent e in
            let moved = step_within state after risk now t range within.0 e in
            let rest =
              run_within events (record after { trust = t }) final
                (update_trust-InRange engine clips state after risk now t e) kept
                (rw start within.1) (ground arith) in
            (omega (int_laws, moved, rest.0), rest.1)
      ]

  -- From a score in range, after any events within one recovery window, the score is at most the
  -- starting score plus what was left of the budget.
  pub recovery_budget :
      (events : List (W × W)) (state final : IdentityState W)
      → InRange state.trust
      → state.recovered_in_window ≤ℤ engine.recovery_cap
      → All (λ e. InWindow state.recovery_window_start e.1) events
      → run_updates engine events state ≡ some final
      → final.trust ≤ℤ state.trust +ℤ (engine.recovery_cap -ℤ state.recovered_in_window)
  recovery_budget events state final range spent within h =
      omega (int_laws, run_within events state final range spent within h)
