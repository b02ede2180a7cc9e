-- ===== src/Metrics/Budget.antt =====
-- The operating point that a budget of false positives gets.
use bank_of_baroda_iit_gn.Common.{
  ℕ, zero, suc, ◌≤◌, ◌<◌, ◌≡◌, refl, sym, ◌==◌, ◌∙◌, ap, true, false, false≢true, some, List, [],
  ◌∷◌, map, length, get_elem?, arith, ltb, Bool-cases, inl, inr,
}
use bank_of_baroda_iit_gn.Float.{Float, le, zero_float}
use bank_of_baroda_iit_gn.Metrics.{
  Numerics, Point, budget_index, count, op_at_fpr, roc_pack, zip_with,
}

element_at :
    {A : Type 0} (xs : List A) (i : ℕ) → i < length xs → (x : A) × (get_elem? xs i ≡ some x)
element_at [] i h = absurd (omega (arith, h))
element_at (x ∷ xs) zero h = (x, refl)
element_at (x ∷ xs) (suc i) h = element_at xs i (omega (arith, h))

length-map : {A B : Type 0} (g : A → B) (xs : List A) → length (map g xs) ≡ length xs
length-map g [] = refl
length-map g (x ∷ xs) = ap suc (length-map g xs)

length-zip_with :
    {A B C : Type 0} (g : A → B → C) (xs : List A) (ys : List B)
    → length xs ≡ length ys
    → length (zip_with g xs ys) ≡ length ys
unfolding zip_with
length-zip_with g [] [] h = refl
length-zip_with g [] (y ∷ ys) h = absurd (omega (arith, h))
length-zip_with g (x ∷ xs) [] h = absurd (omega (arith, h))
length-zip_with g (x ∷ xs) (y ∷ ys) h = ap suc (length-zip_with g xs ys (omega (arith, h)))

length-curve :
    {A B C D E : Type 0} (g : C → D → E) (h : A → C) (k : B → D) (xs : List A) (ys : List B)
    → length xs ≡ length ys
    → length (zip_with g (map h xs) (map k ys)) ≡ length ys
length-curve g h k xs ys e =
    length-zip_with g (map h xs) (map k ys) (length-map h xs ∙ e ∙ sym (length-map k ys))
    ∙ length-map k ys

module _ {W : Type 0} ⦃f : Float W⦄ where
  -- A list in ascending order.
  abbrev pub IsAscending : List W → Type 0
  IsAscending [] = Unit
  IsAscending (x ∷ []) = Unit
  IsAscending (x ∷ y ∷ xs) = (le x y ≡ true) × IsAscending (y ∷ xs)

  -- numpy's documentation of `searchsorted` on an ascending array, `a[i - 1] <= v < a[i]`, and
  -- scikit-learn's of `roc_curve` on labels of both kinds: increasing rates that start at 0, as
  -- many true positive rates and thresholds.
  pub record IsNumerics (np : Numerics W) : Type 0 where
    pub search_length : (a : List W) (v : W) → IsAscending a → np.searchsorted_right a v ≤ length a
    pub search_below :
        (a : List W) (v x : W) (i : ℕ)
        → IsAscending a
        → i < np.searchsorted_right a v
        → get_elem? a i ≡ some x
        → le x v ≡ true
    pub search_above :
        (a : List W) (v x : W) (i : ℕ)
        → IsAscending a
        → np.searchsorted_right a v ≤ i
        → get_elem? a i ≡ some x
        → le x v ≡ false
    pub roc_ascending :
        (y : List ℕ) (s : List W) → 0 < count 0 y → 0 < count 1 y → IsAscending (np.roc_curve y s).0
    pub roc_start :
        (y : List ℕ) (s : List W)
        → 0 < count 0 y
        → 0 < count 1 y
        → get_elem? (np.roc_curve y s).0 0 ≡ some zero_float
    pub roc_length-tpr :
        (y : List ℕ) (s : List W) → length (np.roc_curve y s).1 ≡ length (np.roc_curve y s).0
    pub roc_length-thr :
        (y : List ℕ) (s : List W) → length (np.roc_curve y s).2 ≡ length (np.roc_curve y s).0

  module _ (np : Numerics W) (doc : IsNumerics np) where
    pack_lengths :
        (y : List ℕ) (s : List W) (neg_rate : W)
        → let pack = roc_pack np y s neg_rate in
          (length pack.tpr ≡ length pack.fpr)
          × (length pack.thr ≡ length pack.fpr)
          × (length pack.precision ≡ length pack.fpr)
    unfolding roc_pack
    pack_lengths y s neg_rate =
        let e = doc.roc_length-tpr y s in
        (e, doc.roc_length-thr y s, length-curve _ _ _ (np.roc_curve y s).1 (np.roc_curve y s).0 e)

    found :
        (a : List W) (v : W)
        → IsAscending a
        → get_elem? a 0 ≡ some zero_float
        → le zero_float v ≡ true
        → (budget_index np a v < np.searchsorted_right a v) × (budget_index np a v < length a)
    unfolding budget_index
    found a v asc start h = elim (Bool-cases (np.searchsorted_right a v == 0)) [
      | inl e ↦
          let none_below : le zero_float v ≡ false =
            doc.search_above a v zero_float 0 asc (ground (arith, e)) start in
          absurd (false≢true (sym none_below ∙ h))
      | inr e ↦ (ground (arith, e), ground (arith, e, doc.search_length a v asc))
    ]

    latest :
        (a : List W) (v x : W) (j : ℕ)
        → IsAscending a
        → get_elem? a j ≡ some x
        → le x v ≡ true
        → j ≤ budget_index np a v
    unfolding budget_index
    latest a v x j asc at_j fits = elim (Bool-cases (ltb j (np.searchsorted_right a v))) [
      | inl e ↦ ground (arith, e)
      | inr e ↦
          absurd (false≢true (sym (doc.search_above a v x j asc (ground (arith, e)) at_j) ∙ fits))
    ]

    point_within :
        (a tpr thr precision : List W) (v x : W) (j : ℕ)
        → IsAscending a
        → get_elem? a 0 ≡ some zero_float
        → (length tpr ≡ length a) × (length thr ≡ length a) × (length precision ≡ length a)
        → le zero_float v ≡ true
        → get_elem? a j ≡ some x
        → le x v ≡ true
        → let (i, o) = op_at_fpr np a tpr thr precision v in
          ((p : Point W) × (o ≡ some p) × (get_elem? a i ≡ some p.fpr) × (le p.fpr v ≡ true))
          × (j ≤ i)
    unfolding op_at_fpr
    point_within a tpr thr precision v x j asc start lens h at_j fits =
        let (below, inside) = found a v asc start h in
        let i = budget_index np a v in
        let (pa, at_a) = element_at a i inside in
        let (pr, at_r) = element_at tpr i (omega (arith, lens.0, inside)) in
        let (pt, at_t) = element_at thr i (omega (arith, lens.1, inside)) in
        let (pp, at_p) = element_at precision i (omega (arith, lens.2, inside)) in
        (
          (
            record { fpr = pa; recall = pr; precision = pp; threshold = pt },
            rw (at_a, at_r, at_p, at_t),
            at_a,
            doc.search_below a v pa i asc below at_a,
          ),
          latest a v x j asc at_j fits,
        )

    -- With labels of both kinds and a budget that is not below 0, the operating point exists, its
    -- rate of false positives is within the budget, and every point of the curve within the budget
    -- stands at or before its index.
    pub op_within_budget :
        (y : List ℕ) (s : List W) (neg_rate target x : W) (j : ℕ)
        → 0 < count 0 y
        → 0 < count 1 y
        → le zero_float target ≡ true
        → get_elem? (roc_pack np y s neg_rate).fpr j ≡ some x
        → le x target ≡ true
        → let pack = roc_pack np y s neg_rate in
          let (i, o) = op_at_fpr np pack.fpr pack.tpr pack.thr pack.precision target in
          ((p : Point W) × (o ≡ some p)
            × (get_elem? pack.fpr i ≡ some p.fpr)
            × (le p.fpr target ≡ true))
          × (j ≤ i)
    unfolding roc_pack
    op_within_budget y s neg_rate target x j neg pos_ h at_j fits =
        let pack = roc_pack np y s neg_rate in
        point_within pack.fpr pack.tpr pack.thr pack.precision target x j
          (doc.roc_ascending y s neg pos_) (doc.roc_start y s neg pos_) (pack_lengths y s neg_rate)
          h at_j fits
