-- ===== src/Headline/Gate.antt =====
-- When the gate passes.
use bank_of_baroda_iit_gn.Common.{
  ◌≡◌, ◌∙◌, refl, Bool, true, false, ◌&&◌, ◌||◌, not, Bool-cases, inl, inr, Option, none, some,
  List, [], ◌∷◌, ◌++◌, arith, is_empty, ◌↔◌,
}
use bank_of_baroda_iit_gn.Float.{Float}
use bank_of_baroda_iit_gn.Headline.{
  Check, Complaint, Files, Json, check_all, check_file, Python, dig, gate, low_and_slow, number_in,
  new_session, old_session, compare_sessions, Fields, exit_of, check_sessions, within, earlier,
  is_null, less,
}

abbrev is_earlier : Option Bool → Bool
is_earlier none = false
is_earlier (some b) = b

module _ {W : Type 0} ⦃f : Float W⦄ (py : Python W) where
  -- The number of a check is there and near the published one.
  abbrev confirmed_number : Check W → Option W → Bool
  confirmed_number c none = false
  confirmed_number c (some got) = within c got

  abbrev confirmed_in : Check W → Option (Option (Json W)) → Bool
  confirmed_in c none = false
  confirmed_in c (some content) = confirmed_number c (number_in py c content)

  pub all_confirmed : Files W → List (Check W) → Bool
  all_confirmed files [] = true
  all_confirmed files (c ∷ cs) = confirmed_in c (files c.rel) && all_confirmed files cs

  -- The comparison of the engines holds, or its file is missing.
  abbrev pub sessions_confirmed : Option (Option (Json W)) → Bool
  sessions_confirmed none = true
  sessions_confirmed (some (some (Json.obj d))) =
      not (is_null py (new_session py d))
      && (is_null py (old_session py d)
          || is_earlier (less py (new_session py d) (old_session py d)))
  sessions_confirmed (some _) = false

  abbrev finds_nothing : Option (List (Complaint W)) → Bool
  finds_nothing none = false
  finds_nothing (some xs) = is_empty xs

  compare-finds_nothing :
      (d : Fields W) (b : Option Bool) → finds_nothing (compare_sessions py d b) ≡ is_earlier b
  compare-finds_nothing d none = refl
  compare-finds_nothing d (some true) = refl
  compare-finds_nothing d (some false) = refl

  earlier-lem :
      (new old : Json W)
      → is_earlier (earlier py new old)
        ≡ (not (is_null py new) && (is_null py old || is_earlier (less py new old)))
  unfolding earlier
  earlier-lem new old = elim (Bool-cases (is_null py new)) [
    | inl e ↦ rw e
    | inr e ↦ elim (Bool-cases (is_null py old)) [ inl g ↦ rw (e, g) | inr g ↦ rw (e, g) ]
  ]

  sessions-finds_nothing :
      (o : Option (Option (Json W))) → finds_nothing (check_sessions py o) ≡ sessions_confirmed o
  unfolding earlier
  sessions-finds_nothing none = refl
  sessions-finds_nothing (some none) = refl
  sessions-finds_nothing (some (some Json.null)) = refl
  sessions-finds_nothing (some (some (Json.num x))) = refl
  sessions-finds_nothing (some (some (Json.boolean x))) = refl
  sessions-finds_nothing (some (some (Json.text x))) = refl
  sessions-finds_nothing (some (some (Json.array x))) = refl
  sessions-finds_nothing (some (some (Json.obj d))) =
      compare-finds_nothing d (earlier py (new_session py d) (old_session py d))
      ∙ earlier-lem (new_session py d) (old_session py d)

  exit_verdict :
      (xs : List (Complaint W)) (more : Option (List (Complaint W)))
      → (exit_of py xs more ≡ some 0) ↔ ((is_empty xs && finds_nothing more) ≡ true)
  exit_verdict [] none = ground arith
  exit_verdict [] (some []) = ground arith
  exit_verdict [] (some (y ∷ ys)) = ground arith
  exit_verdict (x ∷ xs) none = ground arith
  exit_verdict (x ∷ xs) (some ys) = ground arith

  check_file-is_empty :
      (c : Check W) (o : Option (Option (Json W))) → is_empty (check_file py c o) ≡ confirmed_in c o
  unfolding dig within
  check_file-is_empty c none = refl
  check_file-is_empty c (some content) = ground arith

  is_empty-append :
      (xs ys : List (Complaint W)) → is_empty (xs ++ ys) ≡ (is_empty xs && is_empty ys)
  is_empty-append [] ys = refl
  is_empty-append (x ∷ xs) ys = refl

  check_all-is_empty :
      (files : Files W) (cs : List (Check W))
      → is_empty (check_all py files cs) ≡ all_confirmed files cs
  unfolding check_all all_confirmed
  check_all-is_empty files [] = refl
  check_all-is_empty files (c ∷ cs) = ground (
    arith,
    is_empty-append (check_file py c (files c.rel)) (check_all py files cs),
    check_file-is_empty c (files c.rel),
    check_all-is_empty files cs,
  )

  -- The gate exits with 0 exactly if every check's file is there, parses, and holds a number within
  -- the tolerance of the published one, and the file that compares the engines is missing, or
  -- parses and has the new engine catch the attack, before the old one does if that catches it.
  pub gate_exact :
      (files : Files W) (cs : List (Check W))
      → (gate py files cs ≡ some 0)
        ↔ ((all_confirmed files cs && sessions_confirmed (files low_and_slow)) ≡ true)
  unfolding gate
  gate_exact files cs =
      rw (← check_all-is_empty files cs, ← sessions-finds_nothing (files low_and_slow))
        (exit_verdict (check_all py files cs) (check_sessions py (files low_and_slow)))
