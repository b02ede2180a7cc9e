-- ===== src/Offline/DpExport.antt =====
-- src/dp_export.py: the export of feature means per country under differential privacy. The noise
-- that numpy's generator draws, one pair for each cohort in turn, and `math.sqrt` are parameters;
-- so is the accountant, which is not modelled.
use bank_of_baroda_iit_gn.Common.{
  ℕ, zero, suc, ◌+◌, String, Bool, Option, none, some, List, [], ◌∷◌, ◌++◌, map, length, Result, ok,
  err, ◌>>=◌, if◌then◌else◌,
}
use bank_of_baroda_iit_gn.Common.Int.{pos}
use bank_of_baroda_iit_gn.Common.Dict.{Dict, lookup, insert}
use bank_of_baroda_iit_gn.Float.{Float, Libs, le, zero_float, one_float}
use bank_of_baroda_iit_gn.State.{StateStore}
use bank_of_baroda_iit_gn.Offline.{Row, new_store, replay_login}

-- `RuntimeError`
pub data Blocked : Type 0 where
  not_noised : Blocked

-- What the loop of `_identity_means` keeps for each identity.
pub record Totals (W : Type 0) : Type 0 where
  pub sum : List W
  pub count : ℕ
  pub cohort : String

-- The draws for the cohort at a position: Laplace with a scale, and normal with a deviation.
pub record Draws (W : Type 0) : Type 0 where
  pub laplace : ℕ → W → W
  pub normal : ℕ → W → List W

-- A released cohort: the mean without noise, and the one that is published.
pub record Release (W : Type 0) : Type 0 where
  pub raw : List W
  pub noised : List W

module _ {W : Type 0} ⦃f : Float W⦄ (l : Libs W) where
  open f use {lit, of_int, add, mul, div, lt, sqrt}

  -- Addition of arrays of one length.
  unfoldable pub add_vectors : List W → List W → List W
  add_vectors (x ∷ xs) (y ∷ ys) = add x y ∷ add_vectors xs ys
  add_vectors _ _ = []

  abbrev pub unit_clip : W → W
  unit_clip x = l.clip x zero_float one_float

  -- `np.zeros(F)`, with F = 11 features.
  abbrev zeros : ℕ → List W
  zeros zero = []
  zeros (suc n) = zero_float ∷ zeros n

  abbrev features_count : ℕ
  features_count = 11

  abbrev total_with : Option (Totals W) → List W → String → Totals W
  unfolding add_vectors
  total_with none vec country = record {
    sum = add_vectors (zeros features_count) vec;
    count = 1;
    cohort = country;
  }
  total_with (some t) vec country = record {
    sum = add_vectors t.sum vec;
    count = t.count + 1;
    cohort = country;
  }

  -- The loop of `_identity_means`.
  unfoldable pub identity_totals : StateStore W → List Row → Dict (Totals W) → Dict (Totals W)
  unfolding add_vectors
  identity_totals store [] totals = totals
  identity_totals store (r ∷ rows) totals =
      let (vec, after) = replay_login store r in
      identity_totals after rows
        (insert r.user (total_with (lookup r.user totals) (map unit_clip vec) r.country) totals)

  abbrev mean_of : Totals W → List W
  mean_of t = map (λ x. div x (of_int (pos t.count))) t.sum

  abbrev or_empty : Option (List (List W)) → List (List W)
  or_empty none = []
  or_empty (some vecs) = vecs

  -- `by_cohort.setdefault(cohort[iid], []).append(m)`, in the order of the identities.
  unfoldable pub group : Dict (Totals W) → Dict (List (List W)) → Dict (List (List W))
  group [] cohorts = cohorts
  group ((iid, t) ∷ totals) cohorts =
      group totals (insert t.cohort (or_empty (lookup t.cohort cohorts) ++ mean_of t ∷ []) cohorts)

  -- `np.sum(vecs, axis=0)` of a list that is not empty.
  unfoldable pub sum_from : List W → List (List W) → List W
  unfolding add_vectors
  sum_from total [] = total
  sum_from total (v ∷ vs) = sum_from (add_vectors total v) vs

  abbrev pub sum_vectors : List (List W) → List W
  unfolding sum_from
  sum_vectors [] = []
  sum_vectors (v ∷ vs) = sum_from v vs

  -- `n + rng.laplace(0.0, 1.0 / COUNT_EPSILON)`
  abbrev pub noisy_count : Draws W → ℕ → List (List W) → W
  noisy_count draws i vecs =
      add (of_int (pos (length vecs))) (draws.laplace i (div one_float (lit 1 1)))

  -- `noisy_n < MIN_COHORT + COUNT_BUFFER`
  abbrev pub is_suppressed : Draws W → ℕ → List (List W) → Bool
  is_suppressed draws i vecs = lt (noisy_count draws i vecs) (lit 35 0)

  -- `noise_multiplier * sensitivity_l2`
  abbrev sigma : W → W
  sigma noise_multiplier = mul noise_multiplier (sqrt (lit 11 0))

  abbrev released : Draws W → W → ℕ → List (List W) → Release W
  unfolding sum_from add_vectors
  released draws noise_multiplier i vecs =
      let n = of_int (pos (length vecs)) in
      let s = sum_vectors vecs in
      record {
        raw = map (λ x. div x n) s;
        noised =
            map (λ x. unit_clip (div x n))
              (add_vectors s (draws.normal i (sigma noise_multiplier)));
      }

  -- The loop over the cohorts, from position `i`.
  unfoldable pub release_from : Draws W → W → ℕ → Dict (List (List W)) → Dict (Release W)
  unfolding sum_from add_vectors
  release_from draws noise_multiplier i [] = []
  release_from draws noise_multiplier i ((c, vecs) ∷ cohorts) =
      let rest = release_from draws noise_multiplier (i + 1) cohorts in
      if is_suppressed draws i vecs
      then rest
      else (c, released draws noise_multiplier i vecs) ∷ rest

  -- `compute_cohort_means`, from the rows that the replay takes.
  unfoldable pub compute_cohort_means : Draws W → W → List Row → Result Blocked (Dict (Release W))
  unfolding identity_totals group release_from
  compute_cohort_means draws noise_multiplier rows =
      if le noise_multiplier zero_float
      then err not_noised
      else ok (release_from draws noise_multiplier 0 (group (identity_totals new_store rows []) []))

  abbrev pub noised_of : String × Release W → String × List W
  noised_of (c, r) = (c, r.noised)

  -- What `export_dp_aggregates` writes to `dp_feature_aggregates.json`.
  unfoldable pub exported : Draws W → W → List Row → Result Blocked (Dict (List W))
  unfolding compute_cohort_means
  exported draws noise_multiplier rows =
      compute_cohort_means draws noise_multiplier rows >>= λ cohorts. ok (map noised_of cohorts)
