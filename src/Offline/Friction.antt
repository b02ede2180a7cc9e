-- ===== src/Offline/Friction.antt =====
-- How often genuine logins are challenged: src/coldstart_metric.py, src/fairness_audit.py, and the
-- count of src/impossible_travel_lift.py. What surrounds each call of `assess` is an argument.
pub mod Counts
use bank_of_baroda_iit_gn.Common.{
  ℕ, zero, suc, ◌+◌, String, Bool, true, false, ◌&&◌, ◌||◌, not, Option, none, some, List, [], ◌∷◌,
  ◌++◌, length, leb, ltb, str_eq, if◌then◌else◌,
}
use bank_of_baroda_iit_gn.Common.Int.{pos}
use bank_of_baroda_iit_gn.Common.Dict.{Dict, lookup, insert, contains}
use bank_of_baroda_iit_gn.Float.{Float, le, min_float, max_float, zero_float, one_float}
use bank_of_baroda_iit_gn.Schemas.{IdentityEvent, SocAssessment, is_allow}
use bank_of_baroda_iit_gn.Engine.Trust.{TrustEngine}
use bank_of_baroda_iit_gn.Engine.Assess.{EngineState, Surroundings, assess}
use bank_of_baroda_iit_gn.Offline.{Row, genuine_logins, head_of, is_genuine, keep, row_to_event}

-- `groupby("User ID", sort=False).head(1)`, after the users in `seen`.
unfoldable pub first_of_each : List String → List Row → List Row
first_of_each seen [] = []
first_of_each seen (r ∷ rows) =
    let rest = first_of_each (if contains r.user seen then seen else r.user ∷ seen) rows in
    if contains r.user seen then rest else r ∷ rest

-- `_first_logins`
unfoldable pub first_logins : (List Row → List Row) → Option ℕ → List Row → List Row
unfolding first_of_each keep is_genuine
first_logins sort_values limit rows =
    head_of limit (first_of_each [] (sort_values (keep is_genuine rows)))

-- `int(decision != Decision.ALLOW)`
abbrev challenged : {W : Type 0} → SocAssessment W → ℕ
challenged soc = if is_allow soc.decision then 0 else 1

abbrev pub add_outcome :
    {W : Type 0}
    → String
    → Option (SocAssessment W)
    → Option (List (String × ℕ))
    → Option (List (String × ℕ))
add_outcome country (some soc) (some os) = some ((country, challenged soc) ∷ os)
add_outcome country _ _ = none

-- The counters of `_stepup_rate`: logins, and logins that were challenged.
unfoldable pub tally : List (String × ℕ) → ℕ × ℕ → ℕ × ℕ
tally [] counters = counters
tally ((country, c) ∷ os) (n, stepped) = tally os (n + 1, stepped + c)

abbrev or_empty : Option (List ℕ) → List ℕ
or_empty none = []
or_empty (some flags) = flags

-- `by_cohort.setdefault(country, []).append(…)`
unfoldable pub by_cohort : List (String × ℕ) → Dict (List ℕ) → Dict (List ℕ)
by_cohort [] cohorts = cohorts
by_cohort ((country, c) ∷ os) cohorts =
    by_cohort os (insert country (or_empty (lookup country cohorts) ++ c ∷ []) cohorts)

module _ {W : Type 0} ⦃f : Float W⦄ where
  open f use {of_int, div, lt, mean}

  -- `stepped / max(n, 1)`
  abbrev rate_of : ℕ × ℕ → W
  rate_of (n, stepped) = div (of_int (pos stepped)) (of_int (pos (if ltb n 1 then 1 else n)))

  abbrev floats : List ℕ → List W
  floats [] = []
  floats (c ∷ cs) = of_int (pos c) ∷ floats cs

  -- The rates of the cohorts with at least 200 logins.
  unfoldable pub selection_rates : Dict (List ℕ) → Dict W
  selection_rates [] = []
  selection_rates ((country, flags) ∷ cohorts) =
      let rest = selection_rates cohorts in
      if leb 200 (length flags) then (country, mean (floats flags)) ∷ rest else rest

  -- `min(rates.values())` and `max(rates.values())` from a first rate.
  abbrev least : W → Dict W → W
  least m [] = m
  least m ((country, r) ∷ rates) = least (min_float m r) rates

  abbrev greatest : W → Dict W → W
  greatest m [] = m
  greatest m ((country, r) ∷ rates) = greatest (max_float m r) rates

  -- The disparate-impact ratio, and whether it passes the rule of four fifths.
  unfoldable pub disparate_impact : Dict W → W
  disparate_impact [] = one_float
  disparate_impact ((country, r) ∷ rates) =
      if lt zero_float (greatest r rates) then div (least r rates) (greatest r rates) else one_float

  abbrev passes : W → Bool
  passes di = le (f.lit 8 1) di

module _ {W : Type 0} ⦃f : Float W⦄ (engine : TrustEngine W) (around : ℕ → Surroundings W) where
  -- The rows' outcomes in turn, from call `i`: `none` where a call raises.
  unfoldable pub outcomes : ℕ → List Row → EngineState W → Option (List (String × ℕ))
  unfolding row_to_event
  outcomes i [] s = some []
  outcomes i (r ∷ rows) s =
      let (soc, after) = assess engine (around i) (row_to_event r) s in
      add_outcome r.country soc (outcomes (i + 1) rows after)

  -- `_stepup_rate`
  unfoldable pub stepup_rate : List Row → EngineState W → Option W
  unfolding outcomes tally
  stepup_rate rows s = elim (outcomes 0 rows s) [
    | none ↦ none
    | some os ↦ some (rate_of (tally os (0, 0)))
  ]

-- src/impossible_travel_lift.py: the latest country and time of each user, in the sorted order.
abbrev before_of : Option (String × ℕ) → Bool
before_of none = false
before_of (some p) = true

-- `prev_country.notna() & (Country != prev_country) & (dt_h < MAX_HOURS)`, times in milliseconds.
abbrev travels : String → ℕ → Option (String × ℕ) → Bool
travels country ts none = false
travels country ts (some (prev, before)) = not (str_eq country prev) && ltb ts (before + 21600000)

pub record Lift : Type 0 where
  pub n_ato : ℕ
  pub ato_with_prior : ℕ
  pub ato_flagged : ℕ
  pub n_genuine : ℕ
  pub genuine_flagged : ℕ

abbrev one_if : Bool → ℕ
one_if b = if b then 1 else 0

abbrev add_login : Bool → Bool → Bool → Lift → Lift
add_login ato prior flagged l = record {
  n_ato = l.n_ato + one_if ato;
  ato_with_prior = l.ato_with_prior + one_if (ato && prior);
  ato_flagged = l.ato_flagged + one_if (ato && flagged);
  n_genuine = l.n_genuine + one_if (not ato);
  genuine_flagged = l.genuine_flagged + one_if (not ato && flagged);
}

abbrev time_of : Option ℕ → ℕ
time_of none = 0
time_of (some t) = t

-- The counts over the successful logins with a time, in the sorted order.
unfoldable pub lift : List Row → Dict (String × ℕ) → Lift → Lift
lift [] last l = l
lift (r ∷ rows) last l =
    let prev = lookup r.user last in
    lift rows (insert r.user (r.country, time_of r.ts) last)
      (add_login r.ato (before_of prev) (travels r.country (time_of r.ts) prev) l)
