-- ===== src/Offline/Friction/Counts.antt =====
-- The counts behind the rates.
use bank_of_baroda_iit_gn.Common.{
  ℕ, ◌+◌, ◌≤◌, String, ◌≡◌, refl, Bool, true, ◌&&◌, ◌||◌, not, Option, none, some, List, [], ◌∷◌,
  ◌++◌, length, arith, str_eq, str_eq_iff, length-append, All, Bool-cases, inl, inr,
}
use bank_of_baroda_iit_gn.Common.Dict.{Dict, lookup, insert, contains}
use bank_of_baroda_iit_gn.Float.{Float}
use bank_of_baroda_iit_gn.Engine.Trust.{TrustEngine}
use bank_of_baroda_iit_gn.Engine.Assess.{EngineState, Surroundings, assess}
use bank_of_baroda_iit_gn.Schemas.{SocAssessment}
use bank_of_baroda_iit_gn.Offline.{Row, row_to_event}
use bank_of_baroda_iit_gn.Offline.Friction.{
  add_outcome, by_cohort, challenged, first_of_each, or_empty, outcomes, tally,
}

-- The users of some rows.
pub users : List Row → List String
users [] = []
users (r ∷ rows) = r.user ∷ users rows

-- Nobody stands twice in a list, nor in the list after those `seen`.
pub all_distinct : List String → List String → Bool
all_distinct seen [] = true
all_distinct seen (u ∷ us) = let rest = all_distinct (u ∷ seen) us in not (contains u seen) && rest

first_of_each-distinct :
    (rows : List Row) (seen : List String)
    → all_distinct seen (users (first_of_each seen rows)) ≡ true
unfolding first_of_each users all_distinct
first_of_each-distinct [] seen = refl
first_of_each-distinct (r ∷ rows) seen = elim (Bool-cases (contains r.user seen)) [
  | inl e ↦ rw e (first_of_each-distinct rows seen)
  | inr e ↦ rw (e, e) (first_of_each-distinct rows (r.user ∷ seen))
]

first_of_each-users :
    (rows : List Row) (seen : List String) (u : String)
    → (contains u seen || contains u (users (first_of_each seen rows)))
      ≡ (contains u seen || contains u (users rows))
unfolding first_of_each users contains
first_of_each-users [] seen u = refl
first_of_each-users (r ∷ rows) seen u = elim (Bool-cases (contains r.user seen)) [
  | inl e ↦ ground (arith, e, str_eq_iff r.user u, first_of_each-users rows seen u)
  | inr e ↦ ground (arith, e, first_of_each-users rows (r.user ∷ seen) u)
]

-- The first logins hold each user of the rows, no other, and none twice.
pub first_logins_exact :
    (rows : List Row) (u : String)
    → (contains u (users (first_of_each [] rows)) ≡ contains u (users rows))
      × (all_distinct [] (users (first_of_each [] rows)) ≡ true)
unfolding contains
first_logins_exact rows u = (first_of_each-users rows [] u, first_of_each-distinct rows [])

-- Every flag of some outcomes is 0 or 1.
abbrev AreFlags : List (String × ℕ) → Type 0
AreFlags os = All (λ o. o.1 ≤ 1) os

tally_counts :
    (os : List (String × ℕ)) (n stepped : ℕ)
    → AreFlags os
    → ((tally os (n, stepped)).0 ≡ n + length os)
      × ((tally os (n, stepped)).1 ≤ stepped + length os)
unfolding tally
tally_counts [] n stepped h = omega arith
tally_counts ((country, c) ∷ os) n stepped h =
    omega (arith, h.0, tally_counts os (n + 1) (stepped + c) h.1)

-- The number of logins in all cohorts.
pub logins_in : Dict (List ℕ) → ℕ
logins_in [] = 0
logins_in ((country, flags) ∷ cohorts) = length flags + logins_in cohorts

insert_flags :
    (country : String) (flags : List ℕ) (cohorts : Dict (List ℕ))
    → logins_in (insert country flags cohorts) + length (or_empty (lookup country cohorts))
      ≡ logins_in cohorts + length flags
unfolding logins_in insert lookup
insert_flags country flags [] = omega arith
insert_flags country flags ((k, old) ∷ cohorts) = elim (Bool-cases (str_eq k country)) [
  | inl e ↦ rw e (omega arith)
  | inr e ↦ rw e (omega (arith, insert_flags country flags cohorts))
]

insert_login :
    (country : String) (c : ℕ) (cohorts : Dict (List ℕ))
    → logins_in (insert country (or_empty (lookup country cohorts) ++ c ∷ []) cohorts)
      ≡ logins_in cohorts + 1
insert_login country c cohorts =
    let old = or_empty (lookup country cohorts) in
    omega (arith, insert_flags country (old ++ c ∷ []) cohorts, length-append old (c ∷ []))

by_cohort_counts :
    (os : List (String × ℕ)) (cohorts : Dict (List ℕ))
    → logins_in (by_cohort os cohorts) ≡ logins_in cohorts + length os
unfolding by_cohort
by_cohort_counts [] cohorts = omega arith
by_cohort_counts ((country, c) ∷ os) cohorts = omega (
  arith,
  insert_login country c cohorts,
  by_cohort_counts os (insert country (or_empty (lookup country cohorts) ++ c ∷ []) cohorts),
)

module _ {W : Type 0} ⦃f : Float W⦄ (engine : TrustEngine W) (around : ℕ → Surroundings W) where
  challenged-le : (soc : SocAssessment W) → challenged soc ≤ 1
  challenged-le soc = ground arith

  added :
      (country : String) (soc : Option (SocAssessment W)) (rest : Option (List (String × ℕ)))
      → (os : List (String × ℕ)) → add_outcome country soc rest ≡ some os
      → (c : ℕ) × (more : List (String × ℕ)) × (rest ≡ some more)
        × (os ≡ (country, c) ∷ more)
        × (c ≤ 1)
  added country none rest os h = cc (h)
  added country (some soc) none os h = cc (h)
  added country (some soc) (some more) os h =
      (challenged soc, more, refl, cc (h), challenged-le soc)

  outcomes-length :
      (i : ℕ) (rows : List Row) (s : EngineState W) (os : List (String × ℕ))
      → outcomes engine around i rows s ≡ some os
      → (length os ≡ length rows) × AreFlags os
  unfolding outcomes
  outcomes-length i [] s [] h = (refl, tt)
  outcomes-length i [] s (o ∷ os) h = cc (h)
  outcomes-length i (r ∷ rows) s os h =
      let (soc, after) = assess engine (around i) (row_to_event r) s in
      let (c, more, rest, same, le1) =
        added r.country soc (outcomes engine around (i + 1) rows after) os h in
      let (len, flags) = outcomes-length (i + 1) rows after more rest in
      rw same (omega (arith, len), (le1, flags))

  -- Where no login raises, `_stepup_rate` counts every row once and at most that many challenges,
  -- and the cohorts of the fairness audit hold every row once.
  pub friction_counts :
      (rows : List Row) (s : EngineState W) (os : List (String × ℕ))
      → outcomes engine around 0 rows s ≡ some os
      → ((tally os (0, 0)).0 ≡ length rows)
        × ((tally os (0, 0)).1 ≤ length rows)
        × (logins_in (by_cohort os []) ≡ length rows)
  unfolding logins_in
  friction_counts rows s os h =
      let (len, flags) = outcomes-length 0 rows s os h in
      let (n, stepped) = tally_counts os 0 0 flags in
      omega (arith, len, n, stepped, by_cohort_counts os [])
