-- ===== src/Training/NoLookAhead.antt =====
-- The splits by time are clean.
use bank_of_baroda_iit_gn.Common.{
  ℕ, ◌+◌, ◌≤◌, ◌≡◌, refl, ap, ◌∙◌, Bool, true, false, not, Option, List, [], ◌∷◌, ◌++◌, map, length,
  arith, ltb, leb, Bool-cases, inl, inr, ◌&&◌,
}
use mathlib.Core.List.{append-nil}
use bank_of_baroda_iit_gn.Training.{
  Login, Pandas, RawLogin, capped, collect, filter_rows, ieee_splits, is_after, is_positive,
  pass_b_collect, prep_chunk,
}

-- Every element passes a test.
unfoldable pub all_pass : {A : Type 0} → (A → Bool) → List A → Bool
all_pass p [] = true
all_pass p (x ∷ xs) = p x && all_pass p xs

module _ {A : Type 0} where
  all_pass-append :
      (p : A → Bool) (xs ys : List A) → all_pass p (xs ++ ys) ≡ (all_pass p xs && all_pass p ys)
  unfolding all_pass
  all_pass-append p [] ys = refl
  all_pass-append p (x ∷ xs) ys = ground (arith, all_pass-append p xs ys)

  all_pass-filter : (p : A → Bool) (xs : List A) → all_pass p (filter_rows p xs) ≡ true
  unfolding all_pass filter_rows
  all_pass-filter p [] = refl
  all_pass-filter p (x ∷ xs) = ground (arith, all_pass-filter p xs)

  all_pass-filter_of :
      (p q : A → Bool) (xs : List A) → all_pass p xs ≡ true → all_pass p (filter_rows q xs) ≡ true
  unfolding all_pass filter_rows
  all_pass-filter_of p q [] h = refl
  all_pass-filter_of p q (x ∷ xs) h = ground (arith, all_pass-filter_of p q xs)

  length-split :
      (p q : A → Bool) (xs : List A)
      → ((x : A) → q x ≡ not (p x))
      → length (filter_rows p xs) + length (filter_rows q xs) ≡ length xs
  unfolding filter_rows
  length-split p q [] h = omega arith
  length-split p q (x ∷ xs) h = elim (Bool-cases (p x)) [
    | inl e ↦
        let no_q : q x ≡ false = ground (arith, e, h x) in
        rw (e, no_q) (omega (arith, length-split p q xs h))
    | inr e ↦
        let so_q : q x ≡ true = ground (arith, e, h x) in
        rw (e, so_q) (omega (arith, length-split p q xs h))
  ]

  filter-append :
      (p : A → Bool) (xs ys : List A)
      → filter_rows p (xs ++ ys) ≡ filter_rows p xs ++ filter_rows p ys
  unfolding filter_rows
  filter-append p [] ys = refl
  filter-append p (x ∷ xs) ys = ground (arith, filter-append p xs ys)

  filter-twice : (p : A → Bool) (xs : List A) → filter_rows p (filter_rows p xs) ≡ filter_rows p xs
  unfolding filter_rows
  filter-twice p [] = refl
  filter-twice p (x ∷ xs) = elim (Bool-cases (p x)) [
    | inl e ↦ rw (e, e) (ap (λ r. x ∷ r) (filter-twice p xs))
    | inr e ↦ rw e (filter-twice p xs)
  ]

  filter-none :
      (p : A → Bool) (xs : List A) → all_pass (λ x. not (p x)) xs ≡ true → filter_rows p xs ≡ []
  unfolding filter_rows all_pass
  filter-none p [] h = refl
  filter-none p (x ∷ xs) h = ground (arith, filter-none p xs)

module _ {W : Type 0} (pd : Pandas W) where
  -- pandas' documentation of `sample`: rows of the frame, as many as asked for.
  pub record IsSample : Type 0 where
    pub sample_pass :
        (p : Login W → Bool) (n : ℕ) (rows : List (Login W))
        → all_pass p rows ≡ true
        → all_pass p (pd.sample n rows) ≡ true
    pub sample_length :
        (n : ℕ) (rows : List (Login W)) → n ≤ length rows → length (pd.sample n rows) ≡ n

  abbrev is_before : Option ℕ → Login W → Bool
  is_before cut r = not (is_after cut r.ts)

  abbrev is_later : Option ℕ → Login W → Bool
  is_later cut r = is_after cut r.ts

  collect_times :
      (cut : Option ℕ) (chunks : List (List RawLogin))
      → (all_pass (is_before cut) (collect pd cut chunks).0 ≡ true)
        × (all_pass (is_later cut) (collect pd cut chunks).1 ≡ true)
  unfolding collect all_pass
  collect_times cut [] = (refl, refl)
  collect_times cut (ch ∷ chunks) =
      let d = prep_chunk pd ch in
      let (train, test) = collect pd cut chunks in
      ground (
        arith,
        all_pass-append (is_before cut) (filter_rows (is_before cut) d) train,
        all_pass-append (is_later cut) (filter_rows (is_later cut) d) test,
        all_pass-filter (is_before cut) d,
        all_pass-filter (is_later cut) d,
        collect_times cut chunks,
      )

  capped_pass :
      (doc : IsSample) (p : Login W → Bool) (limit : ℕ) (rows : List (Login W))
      → all_pass p rows ≡ true
      → all_pass p (capped pd limit rows) ≡ true
  capped_pass doc p limit rows h = elim (Bool-cases (ltb limit (length rows))) [
    | inl e ↦ rw e (doc.sample_pass p limit rows h)
    | inr e ↦ rw e h
  ]

  -- In what `pass_b_collect` returns, no training row is after the cut and every test row is; and
  -- the takeovers in the training set are exactly those collected, so that the cap drops none.
  pub no_look_ahead :
      (doc : IsSample) (cut : Option ℕ) (limit : ℕ) (chunks : List (List RawLogin))
      → let (train, test) = pass_b_collect pd cut limit chunks in
        (all_pass (λ r. not (is_after cut r.ts)) train ≡ true)
        × (all_pass (λ r. is_after cut r.ts) test ≡ true)
        × (filter_rows is_positive train ≡ filter_rows is_positive (collect pd cut chunks).0)
  unfolding pass_b_collect
  no_look_ahead doc cut limit chunks =
      let before = λ (r : Login W). not (is_after cut r.ts) in
      let all_train = (collect pd cut chunks).0 in
      let (early, late) = collect_times cut chunks in
      let pos_ = filter_rows (is_positive) all_train in
      let neg = filter_rows (λ r. not (is_positive r)) all_train in
      let kept = capped pd limit neg in
      let early_kept =
        capped_pass doc before limit neg
          (all_pass-filter_of before (λ r. not (is_positive r)) all_train early) in
      let none_kept : filter_rows is_positive kept ≡ [] = filter-none is_positive kept (
        capped_pass doc (λ r. not (is_positive r)) limit neg
          (all_pass-filter (λ r. not (is_positive r)) all_train)) in
      (
        ground (
          arith,
          all_pass-append before pos_ kept,
          all_pass-filter_of before is_positive all_train early,
          early_kept,
        ),
        late,
        filter-append is_positive pos_ kept
            ∙ ap (λ xs. filter_rows is_positive pos_ ++ xs) none_kept
            ∙ append-nil _
            ∙ filter-twice is_positive all_train,
      )

module _ {A : Type 0} (time : A → ℕ) (quantile : List ℕ → ℕ) where
  -- `ieee_splits` uses each row once, and its parts follow one another in time: nothing of the
  -- training part is after the first cut, the validation part is after it and not after the second,
  -- and the test part is after the second.
  pub splits_in_order :
      (rows : List A)
      → let s = ieee_splits time quantile rows in
        let cut = quantile (map time rows) in
        let vcut = quantile (map time s.train_all) in
        (all_pass (λ r. leb (time r) vcut) s.tr ≡ true)
        × (all_pass (λ r. ltb vcut (time r)) s.val ≡ true)
        × (all_pass (λ r. leb (time r) cut) s.val ≡ true)
        × (all_pass (λ r. ltb cut (time r)) s.test ≡ true)
        × (length s.tr + length s.val + length s.test ≡ length rows)
  unfolding ieee_splits
  splits_in_order rows =
      let cut = quantile (map time rows) in
      let train = filter_rows (λ r. leb (time r) cut) rows in
      let vcut = quantile (map time train) in
      (
        all_pass-filter (λ r. leb (time r) vcut) train,
        all_pass-filter (λ r. ltb vcut (time r)) train,
        all_pass-filter_of (λ r. leb (time r) cut) (λ r. ltb vcut (time r)) train
            (all_pass-filter (λ r. leb (time r) cut) rows),
        all_pass-filter (λ r. ltb cut (time r)) rows,
        omega (
          arith,
          length-split (λ r. leb (time r) vcut) (λ r. ltb vcut (time r)) train (λ r. ground arith),
          length-split (λ r. leb (time r) cut) (λ r. ltb cut (time r)) rows (λ r. ground arith),
        ),
      )
