-- ===== src/Training/PaySim/Leakage.antt =====
-- The labels of the payments after step 600 reach neither the models nor their scores.
use bank_of_baroda_iit_gn.Common.{
  ℕ, suc, ◌+◌, ◌<◌, String, ◌≡◌, ◌∙◌, sym, ap, refl, Bool, Option, none, some, List, [], ◌∷◌, ◌++◌,
  map, length, take, get_elem?, arith, str_eq, All, Bool-cases, inl, inr,
}
use mathlib.Core.List.{append-nil, map-append}
use bank_of_baroda_iit_gn.Float.{Float}
use bank_of_baroda_iit_gn.Training.UserDays.{count_if, filter_if}
use bank_of_baroda_iit_gn.Training.PaySim.{
  Featured, Payment, ScoreTable, Tools, all_columns, featured, is_test, is_train, paysim_features,
  paysim_fit, model_score, score_table, training_set, with_columns,
}

abbrev pub occurrences : String → List String → ℕ
occurrences k ks = count_if (str_eq k) ks

-- The number of each item among those before it, the items in `past` included.
unfoldable pub numbered : List String → List String → List ℕ
numbered past [] = []
numbered past (k ∷ ks) = occurrences k past ∷ numbered (k ∷ past) ks

-- What was met after `xs`, latest first.
abbrev onto : List String → List String → List String
onto [] past = past
onto (x ∷ xs) past = onto xs (x ∷ past)

pub occurrence_moves :
    (j k : String) (past later : List String)
    → occurrences j past + occurrences j (k ∷ later)
      ≡ occurrences j (k ∷ past) + occurrences j later
unfolding count_if
occurrence_moves j k past later = ground arith

pub none_later :
    (j : String) (past : List String) → occurrences j past + occurrences j [] ≡ occurrences j past
unfolding count_if
none_later j past = omega arith

numbered_unique :
    (past ks : List String) (cs : List ℕ)
    → length cs ≡ length ks
    → ((i : ℕ) (k : String)
        → get_elem? ks i ≡ some k
        → get_elem? cs i ≡ some (occurrences k past + occurrences k (take i ks)))
    → cs ≡ numbered past ks
unfolding numbered
numbered_unique past [] [] len at = refl
numbered_unique past [] (c ∷ cs) len at = absurd (omega (arith, len))
numbered_unique past (k ∷ ks) [] len at = absurd (omega (arith, len))
numbered_unique past (k ∷ ks) (c ∷ cs) len at =
    let rest : cs ≡ numbered (k ∷ past) ks =
      numbered_unique (k ∷ past) ks cs (omega (arith, len))
        (λ i j found. at (suc i) j found ∙ ap some (occurrence_moves j k past (take i ks))) in
    let here : some c ≡ some (occurrences k past) = at 0 k refl ∙ ap some (none_later k past) in
    cc (rest, here)

filter_if-append :
    {A : Type 0} (test : A → Bool) (xs ys : List A)
    → filter_if test (xs ++ ys) ≡ filter_if test xs ++ filter_if test ys
unfolding filter_if
filter_if-append test [] ys = refl
filter_if-append test (x ∷ xs) ys = elim (Bool-cases (test x)) [
  | inl e ↦ rw e (ap (x ∷◌) (filter_if-append test xs ys))
  | inr e ↦ rw e (filter_if-append test xs ys)
]

-- The two labels of a payment replaced.
abbrev pub marked : {W : Type 0} → ℕ × ℕ → Payment W → Payment W
marked (fraud, flagged) p = record p { is_fraud = fraud; is_flagged_fraud = flagged }

-- The labels of the first payments replaced by the given ones.
abbrev pub relabelled : {W : Type 0} → List (ℕ × ℕ) → List (Payment W) → List (Payment W)
relabelled (l ∷ ls) (p ∷ ps) = marked l p ∷ relabelled ls ps
relabelled _ ps = ps

-- The scores of both models.
abbrev pub scores_of : {W : Type 0} → Option (ScoreTable W) → Option (List W × List W)
scores_of none = none
scores_of (some out) = some (out.score_full, out.score_behavioral_only)

abbrev pub IsLate : {W : Type 0} → Payment W → Type 0
IsLate p = 600 < p.step

module _ {W : Type 0} ⦃f : Float W⦄ (tools : Tools W) where
  -- pandas' documentation of `cumcount`: the items of each group are numbered from 0, in order.
  pub record IsTools : Type 0 where
    pub cumcount_length : (ks : List String) → length (tools.cumcount ks) ≡ length ks
    pub cumcount_at :
        (ks : List String) (i : ℕ) (k : String)
        → get_elem? ks i ≡ some k
        → get_elem? (tools.cumcount ks) i ≡ some (occurrences k (take i ks))

  abbrev attached : List String → List String → List (Payment W) → List (Featured W)
  attached from to ps =
      with_columns tools ps (numbered from (map (λ p. p.name_orig) ps))
        (numbered to (map (λ p. p.name_dest) ps))

  abbrev later_from : List (Payment W) → List String → List String
  later_from ps from = onto (map (λ p. p.name_orig) ps) from

  abbrev later_to : List (Payment W) → List String → List String
  later_to ps to = onto (map (λ p. p.name_dest) ps) to

  attached-append :
      (from to : List String) (ps qs : List (Payment W))
      → attached from to (ps ++ qs)
        ≡ attached from to ps ++ attached (later_from ps from) (later_to ps to) qs
  unfolding with_columns numbered
  attached-append from to [] qs = refl
  attached-append from to (p ∷ ps) qs =
      ap (featured tools p (occurrences p.name_orig from) (occurrences p.name_dest to) ∷◌)
        (attached-append (p.name_orig ∷ from) (p.name_dest ∷ to) ps qs)

  late-untrained :
      (from to : List String) (ps : List (Payment W))
      → All IsLate ps
      → filter_if is_train (attached from to ps) ≡ []
  unfolding with_columns numbered filter_if featured
  late-untrained from to [] late = refl
  late-untrained from to (p ∷ ps) (h, late) =
      let rest = late-untrained (p.name_orig ∷ from) (p.name_dest ∷ to) ps late in
      ground (arith, h, rest)

  late-tested :
      (from to : List String) (ps : List (Payment W))
      → All IsLate ps
      → filter_if is_test (attached from to ps) ≡ attached from to ps
  unfolding with_columns numbered filter_if featured
  late-tested from to [] late = refl
  late-tested from to (p ∷ ps) (h, late) =
      let rest = late-tested (p.name_orig ∷ from) (p.name_dest ∷ to) ps late in
      ground (arith, h, rest)

  relabelled-AllLate :
      (ls : List (ℕ × ℕ)) (ps : List (Payment W)) → All IsLate ps → All IsLate (relabelled ls ps)
  relabelled-AllLate [] ps late = late
  relabelled-AllLate (l ∷ ls) [] late = late
  relabelled-AllLate (l ∷ ls) (p ∷ ps) (h, late) = (h, relabelled-AllLate ls ps late)

  map-relabelled :
      {A : Type 0} (cols : Featured W → A)
      → ((l : ℕ × ℕ) (p : Payment W) (i j : ℕ)
          → cols (featured tools (marked l p) i j) ≡ cols (featured tools p i j))
      → (from to : List String) (ls : List (ℕ × ℕ)) (ps : List (Payment W))
      → map cols (attached from to (relabelled ls ps)) ≡ map cols (attached from to ps)
  unfolding with_columns numbered
  map-relabelled cols blind from to [] ps = refl
  map-relabelled cols blind from to (l ∷ ls) [] = refl
  map-relabelled cols blind from to (l ∷ ls) (p ∷ ps) =
      let rest = map-relabelled cols blind (p.name_orig ∷ from) (p.name_dest ∷ to) ls ps in
      cc (rest, blind l p (occurrences p.name_orig from) (occurrences p.name_dest to))

  training_set-same :
      (df dg : List (Featured W))
      → filter_if is_train df ≡ filter_if is_train dg
      → training_set tools df ≡ training_set tools dg
  unfolding training_set
  training_set-same df dg e = rw e refl

  sifted :
      (test : Featured W → Bool) (ps qs : List (Payment W))
      → filter_if test (attached [] [] (ps ++ qs))
        ≡ filter_if test (attached [] [] ps)
          ++ filter_if test (attached (later_from ps []) (later_to ps []) qs)
  sifted test ps qs =
      ap (filter_if test) (attached-append [] [] ps qs)
      ∙ filter_if-append test (attached [] [] ps) (attached (later_from ps []) (later_to ps []) qs)

  trained_before :
      (ps qs : List (Payment W))
      → All IsLate qs
      → training_set tools (attached [] [] (ps ++ qs)) ≡ training_set tools (attached [] [] ps)
  trained_before ps qs late =
      let early = filter_if is_train (attached [] [] ps) in
      training_set-same (attached [] [] (ps ++ qs)) (attached [] [] ps) (
        sifted is_train ps qs
        ∙ ap (early ++◌) (late-untrained (later_from ps []) (later_to ps []) qs late)
        ∙ append-nil early)

  cumcount-numbered : IsTools → (ks : List String) → tools.cumcount ks ≡ numbered [] ks
  unfolding count_if
  cumcount-numbered doc ks =
      numbered_unique [] ks (tools.cumcount ks) (doc.cumcount_length ks)
        (λ i k found. doc.cumcount_at ks i k found ∙ ap some (omega arith))

  features-attached :
      IsTools → (ps : List (Payment W)) → paysim_features tools ps ≡ attached [] [] ps
  unfolding paysim_features
  features-attached doc ps =
      rw
        (
          cumcount-numbered doc (map (λ p. p.name_orig) ps),
          cumcount-numbered doc (map (λ p. p.name_dest) ps),
        )
        refl

  tested_late :
      {A : Type 0} (cols : Featured W → A) (ps qs : List (Payment W))
      → All IsLate qs
      → map cols (filter_if is_test (attached [] [] (ps ++ qs)))
        ≡ map cols (filter_if is_test (attached [] [] ps))
          ++ map cols (attached (later_from ps []) (later_to ps []) qs)
  tested_late cols ps qs late =
      let early = filter_if is_test (attached [] [] ps) in
      let after = attached (later_from ps []) (later_to ps []) qs in
      ap (map cols) (
        sifted is_test ps qs
        ∙ ap (early ++◌) (late-tested (later_from ps []) (later_to ps []) qs late))
      ∙ map-append cols early after

  tested-relabelled :
      {A : Type 0} (cols : Featured W → A)
      → ((l : ℕ × ℕ) (p : Payment W) (i j : ℕ)
          → cols (featured tools (marked l p) i j) ≡ cols (featured tools p i j))
      → (ls : List (ℕ × ℕ)) (ps qs : List (Payment W)) → All IsLate qs
      → map cols (filter_if is_test (attached [] [] (ps ++ relabelled ls qs)))
        ≡ map cols (filter_if is_test (attached [] [] (ps ++ qs)))
  tested-relabelled cols blind ls ps qs late =
      let early = map cols (filter_if is_test (attached [] [] ps)) in
      tested_late cols ps (relabelled ls qs) (relabelled-AllLate ls qs late)
      ∙ ap (early ++◌) (map-relabelled cols blind (later_from ps []) (later_to ps []) ls qs)
      ∙ sym (tested_late cols ps qs late)

  score_table-same :
      (test other : List (Featured W)) (train : Option (List (Featured W)))
      → map all_columns test ≡ map all_columns other
      → map (λ r. r.behaviour) test ≡ map (λ r. r.behaviour) other
      → scores_of (score_table tools test train) ≡ scores_of (score_table tools other train)
  unfolding model_score
  score_table-same test other none full part = refl
  score_table-same test other (some train) full part =
      let a = map (λ r. (all_columns r, r.is_fraud)) train in
      let b = map (λ r. (r.behaviour, r.is_fraud)) train in
      ap (λ c. some (tools.fit_predict a c, tools.fit_predict b (map (λ r. r.behaviour) test))) full
      ∙ ap (λ c. some (tools.fit_predict a (map all_columns other), tools.fit_predict b c)) part

  -- If cumcount numbers the rows of a group in order, then for a table whose last payments are all
  -- after step 600, replacing the labels of those payments changes no score of either model, nor
  -- whether the fit succeeds.
  pub scores_ignore_test_labels :
      IsTools
      → (ls : List (ℕ × ℕ)) (ps qs : List (Payment W)) → All IsLate qs
      → scores_of (paysim_fit tools (paysim_features tools (ps ++ relabelled ls qs)))
        ≡ scores_of (paysim_fit tools (paysim_features tools (ps ++ qs)))
  unfolding paysim_fit featured
  scores_ignore_test_labels doc ls ps qs late =
      let late' = relabelled-AllLate ls qs late in
      rw
        (
          features-attached doc (ps ++ relabelled ls qs),
          features-attached doc (ps ++ qs),
          trained_before ps (relabelled ls qs) late',
          trained_before ps qs late,
        )
        (score_table-same _ _ (training_set tools (attached [] [] ps))
          (tested-relabelled all_columns (λ l p i j. refl) ls ps qs late)
          (tested-relabelled (λ r. r.behaviour) (λ l p i j. refl) ls ps qs late))
