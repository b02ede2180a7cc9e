-- ===== src/Offline/Suppression.antt =====
-- What the export publishes.
use bank_of_baroda_iit_gn.Common.{
  ℕ, suc, ◌+◌, String, ◌≡◌, refl, sym, ap, ◌∙◌, false, some, List, [], ◌∷◌, map, length, ok, All,
  arith, get_elem?, Bool-cases, inl, inr,
}
use mathlib.Core.Path.{subst}
use bank_of_baroda_iit_gn.Common.Int.{pos}
use bank_of_baroda_iit_gn.Common.Dict.{Dict}
use bank_of_baroda_iit_gn.Float.{Float, IsFloat, IsClip, Libs, le, zero_float, one_float}
use bank_of_baroda_iit_gn.Offline.{Row, new_store}
use bank_of_baroda_iit_gn.Offline.DpExport.{
  Draws, add_vectors, compute_cohort_means, exported, group, identity_totals, is_suppressed,
  noised_of, release_from, sum_vectors, unit_clip,
}

All-mono :
    {A : Type 0} {P Q : A → Type 0} (g : (x : A) → P x → Q x) (xs : List A) → All P xs → All Q xs
All-mono g [] h = h
All-mono g (x ∷ xs) (h, hs) = (g x h, All-mono g xs hs)

module _ {W : Type 0} ⦃f : Float W⦄ (laws : IsFloat W) (l : Libs W) (c : IsClip l) where
  -- Neither below 0 nor above 1.
  abbrev pub InUnit : W → Type 0
  InUnit x = (f.lt x zero_float ≡ false) × (f.lt one_float x ≡ false)

  unit_clip-InUnit : (x : W) → InUnit (unit_clip l x)
  unit_clip-InUnit x = elim (Bool-cases (f.lt x zero_float)) [
    | inl e ↦ ground (
      arith,
      c.clip_below x zero_float one_float e,
      laws.zero-lt-one,
      laws.lt_asymm zero_float one_float,
      laws.lt_asymm zero_float zero_float,
    )
    | inr e ↦ elim (Bool-cases (f.lt one_float x)) [
      | inl g ↦ ground (
        arith,
        c.clip_above x zero_float one_float e g,
        laws.zero-lt-one,
        laws.lt_asymm zero_float one_float,
        laws.lt_asymm one_float one_float,
      )
      | inr g ↦ ground (arith, c.clip_within x zero_float one_float e g, e, g)
    ]
  ]

  map-InUnit : {A : Type 0} (g : A → W) (xs : List A) → All InUnit (map (λ x. unit_clip l (g x)) xs)
  map-InUnit g [] = tt
  map-InUnit g (x ∷ xs) = (unit_clip-InUnit (g x), map-InUnit g xs)

  -- The mean of a cohort as it may be published: normal noise of the deviation multiplier · √11 on the
  -- sum of the identities' vectors, divided by their number, clipped to [0, 1].
  pub noised_mean : Draws W → W → ℕ → List (List W) → List W
  noised_mean draws noise_multiplier i vecs =
      map (λ x. l.clip (f.div x (f.of_int (pos (length vecs)))) zero_float one_float)
        (add_vectors l (sum_vectors l vecs)
          (draws.normal i (f.mul noise_multiplier (f.sqrt (f.lit 11 0)))))

  -- A published mean: that of its cohort with the noise, whose noisy count was not below 35, and its
  -- numbers are in range.
  abbrev pub IsReleased : Draws W → W → Dict (List (List W)) → ℕ → String × List W → Type 0
  IsReleased draws noise_multiplier cohorts i (name, mean) =
      (k : ℕ) × (vecs : List (List W)) × (get_elem? cohorts k ≡ some (name, vecs))
      × (is_suppressed l draws (i + k) vecs ≡ false)
      × (mean ≡ noised_mean draws noise_multiplier (i + k) vecs)
      × All InUnit mean

  shift :
      (draws : Draws W) (noise_multiplier : W) (i : ℕ) (name : String) (vecs : List (List W))
      → (cohorts : Dict (List (List W))) (x : String × List W)
      → IsReleased draws noise_multiplier cohorts (i + 1) x
      → IsReleased draws noise_multiplier ((name, vecs) ∷ cohorts) i x
  shift draws noise_multiplier i name vecs cohorts (n, mean) (k, ws, at_k, kept, noised, range) =
      let e : i + 1 + k ≡ i + suc k = omega arith in
      (
        suc k,
        ws,
        at_k,
        ap (λ t. is_suppressed l draws t ws) (sym e) ∙ kept,
        noised ∙ ap (λ t. noised_mean draws noise_multiplier t ws) e,
        range,
      )

  IsReleased-All :
      (draws : Draws W) (noise_multiplier : W) (i : ℕ) (cohorts : Dict (List (List W)))
      → All
          (IsReleased draws noise_multiplier cohorts i)
          (map (noised_of l) (release_from l draws noise_multiplier i cohorts))
  unfolding release_from noised_mean
  IsReleased-All draws noise_multiplier i [] = tt
  IsReleased-All draws noise_multiplier i ((name, vecs) ∷ cohorts) =
      let rest =
        All-mono (shift draws noise_multiplier i name vecs cohorts) _
          (IsReleased-All draws noise_multiplier (i + 1) cohorts) in
      elim (Bool-cases (is_suppressed l draws i vecs)) [
        | inl e ↦ rw e rest
        | inr e ↦
            let at_0 : i + 0 ≡ i = omega arith in
            rw e (
              (
                0,
                vecs,
                refl,
                ap (λ t. is_suppressed l draws t vecs) at_0 ∙ e,
                ap (λ t. noised_mean draws noise_multiplier t vecs) (sym at_0),
                map-InUnit _ _,
              ),
              rest,
            )
      ]

  exported-ok :
      (draws : Draws W) (noise_multiplier : W) (rows : List Row) (out : Dict (List W))
      → exported l draws noise_multiplier rows ≡ ok out
      → (le noise_multiplier zero_float ≡ false)
        × (map (noised_of l) (
              release_from l draws noise_multiplier 0
                (group l (identity_totals l new_store rows []) []))
            ≡ out)
  unfolding exported compute_cohort_means
  exported-ok draws noise_multiplier rows out h =
      elim (Bool-cases (le noise_multiplier zero_float)) [
        | inl e ↦ ground (arith, e, h)
        | inr e ↦ ground (arith, e, h)
      ]

  -- An export that is not blocked has a noise multiplier above 0, or none that is a number; each mean
  -- in it is that of its cohort with normal noise of the mandatory deviation on the sum, the noisy
  -- count of the cohort is not below 35, and no number of it is below 0 or above 1.
  pub export_is_guarded :
      (draws : Draws W) (noise_multiplier : W) (rows : List Row) {out : Dict (List W)}
      → exported l draws noise_multiplier rows ≡ ok out
      → (le noise_multiplier zero_float ≡ false)
        × All
            (IsReleased draws noise_multiplier (group l (identity_totals l new_store rows []) []) 0)
            out
  export_is_guarded draws noise_multiplier rows {out} h =
      let (noised, same) = exported-ok draws noise_multiplier rows out h in
      let cohorts = group l (identity_totals l new_store rows []) [] in
      (
        noised,
        subst (All (IsReleased draws noise_multiplier cohorts 0)) same
            (IsReleased-All draws noise_multiplier 0 cohorts),
      )
