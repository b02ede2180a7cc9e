-- ===== src/Metrics.antt =====
-- The operating points of the detectors: src/eval_full.py, src/pramaan_eval.py and
-- src/seed_sweep.py. Arrays are lists. scikit-learn's `roc_curve`, numpy's `searchsorted`, Python's
-- rounding and the formatting of a number are parameters.
pub mod Budget
pub mod Suites
use bank_of_baroda_iit_gn.Common.{
  ℕ, zero, suc, ◌+◌, ◌-◌, String, Bool, true, false, Option, none, some, List, [], ◌∷◌, map, length,
  get_elem?, ◌==◌, if◌then◌else◌,
}
use bank_of_baroda_iit_gn.Common.Int.{ℤ, pos, ◌-ℤ◌}
use bank_of_baroda_iit_gn.Common.Dict.{Dict, insert}
use bank_of_baroda_iit_gn.Float.{Float, zero_float, one_float}

-- What is called of numpy, scikit-learn and the built-in functions.
pub record Numerics (W : Type 0) : Type 0 where
  -- `roc_curve(y, s)`: the rates of false and of true positives, and the thresholds.
  pub roc_curve : List ℕ → List W → List W × List W × List W
  -- `np.searchsorted(a, v, side="right")`
  pub searchsorted_right : List W → W → ℕ
  -- `round(x, n)`, and `int(round(x))`, which raises at NaN and the infinities.
  pub round_to : W → ℕ → W
  pub round_int : W → Option ℤ
  -- `f"stepup_{t*100:g}pct".replace(".", "_")` and `f"fpr_{int(t*100)}pct"`
  pub stepup_label : W → String
  pub fpr_label : W → String

-- The number of labels equal to `v`: `(y == v).sum()`.
unfoldable pub count : ℕ → List ℕ → ℕ
count v [] = 0
count v (y ∷ ys) = let rest = count v ys in if y == v then suc rest else rest

unfoldable pub zip_with : {A B C : Type 0} → (A → B → C) → List A → List B → List C
zip_with g (a ∷ as') (b ∷ bs) = g a b ∷ zip_with g as' bs
zip_with g _ _ = []

-- One point of the curves.
pub record Point (W : Type 0) : Type 0 where
  pub fpr : W
  pub recall : W
  pub precision : W
  pub threshold : W

-- What `_roc_pack` returns.
pub record Pack (W : Type 0) : Type 0 where
  pub fpr : List W
  pub tpr : List W
  pub thr : List W
  pub precision : List W
  pub positives : W
  pub negatives : W

pub record Confusion : Type 0 where
  pub tp : ℤ
  pub fn : ℤ
  pub fp : ℤ
  pub tn : ℤ

-- One entry of what `operating_points` returns.
pub record Operating (W : Type 0) : Type 0 where
  pub step_up_rate_genuine : W
  pub recall : W
  pub precision : W
  pub f1 : W
  pub f2 : W
  pub specificity : W
  pub lift_over_base_rate : Option W
  pub threshold : W
  pub confusion : Confusion

abbrev all_four : Option ℤ → Option ℤ → Option ℤ → Option ℤ → Option Confusion
all_four (some tp) (some fn) (some fp) (some tn) =
    some (record { tp = tp; fn = fn; fp = fp; tn = tn })
all_four _ _ _ _ = none

module _ {W : Type 0} ⦃f : Float W⦄ (np : Numerics W) where
  open f use {lit, of_int, add, sub, mul, div, lt, eq}
  open np use {roc_curve, searchsorted_right, round_to, round_int, stepup_label, fpr_label}

  abbrev of_count : ℕ → W
  of_count n = of_int (pos n)

  -- `sample_weights`: 1 for each label but 0, whose weight is 1 / neg_rate unless that is 1.
  unfoldable pub sample_weights : List ℕ → W → List W
  sample_weights y neg_rate =
      if eq neg_rate one_float
      then map (λ v. one_float) y
      else map (λ v. if v == 0 then div one_float neg_rate else one_float) y

  -- `np.where(tp + fp_full > 0, tp / (tp + fp_full), 1.0)` at one threshold.
  abbrev precision_at : W → W → W
  precision_at tp fp = if lt zero_float (add tp fp) then div tp (add tp fp) else one_float

  -- `_roc_pack`
  unfoldable pub roc_pack : List ℕ → List W → W → Pack W
  unfolding zip_with count
  roc_pack y s neg_rate =
      let (fpr, tpr, thr) = roc_curve y s in
      let p = of_count (count 1 y) in
      let n = div (of_count (count 0 y)) neg_rate in
      record {
        fpr = fpr;
        tpr = tpr;
        thr = thr;
        precision = zip_with precision_at (map (λ r. mul r p) tpr) (map (λ r. mul r n) fpr);
        positives = p;
        negatives = n;
      }

  -- `max(int(searchsorted(…) - 1), 0)`: the difference of natural numbers stops at 0.
  unfoldable pub budget_index : List W → W → ℕ
  budget_index fpr target = searchsorted_right fpr target - 1

  abbrev point : Option W → Option W → Option W → Option W → Option (Point W)
  point (some a) (some r) (some p) (some t) =
      some (record { fpr = a; recall = r; precision = p; threshold = t })
  point _ _ _ _ = none

  -- `_op_at_fpr`; `none` where an index is out of range.
  unfoldable pub op_at_fpr : List W → List W → List W → List W → W → ℕ × Option (Point W)
  unfolding budget_index
  op_at_fpr fpr tpr thr precision target =
      let i = budget_index fpr target in
      (i, point (get_elem? fpr i) (get_elem? tpr i) (get_elem? precision i) (get_elem? thr i))

  -- `_recall_at` of eval_full.py
  unfoldable pub recall_at : List W → List W → W → Option W
  unfolding budget_index
  recall_at fpr tpr t = get_elem? tpr (budget_index fpr t)

  -- `_recall_at` of seed_sweep.py
  unfoldable pub recall_of_scores : List ℕ → List W → W → Option W
  unfolding budget_index
  recall_of_scores y s t = let (fpr, tpr, thr) = roc_curve y s in get_elem? tpr (budget_index fpr t)

  -- (1 + b²) · p · r / (b² · p + r), or 0.0 where the denominator is not above 0.
  abbrev f_score : W → W → W → W → W
  f_score weight rest p r =
      if lt zero_float (add (mul rest p) r)
      then div (mul (mul weight p) r) (add (mul rest p) r)
      else zero_float

  abbrev f1_score : W → W → W
  f1_score p r =
      if lt zero_float (add p r) then div (mul (mul (lit 2 0) p) r) (add p r) else zero_float

  abbrev operating_of : Pack W → Point W → Confusion → Operating W
  operating_of pack o c =
      let base_rate = div pack.positives (add pack.positives pack.negatives) in
      record {
        step_up_rate_genuine = round_to o.fpr 5;
        recall = round_to o.recall 4;
        precision = round_to o.precision 6;
        f1 = round_to (f1_score o.precision o.recall) 4;
        f2 = round_to (f_score (lit 5 0) (lit 4 0) o.precision o.recall) 4;
        specificity = round_to (sub one_float o.fpr) 5;
        lift_over_base_rate =
            if lt zero_float base_rate then some (round_to (div o.precision base_rate) 1) else none;
        threshold = round_to o.threshold 6;
        confusion = c;
      }

  abbrev full_confusion : Pack W → Point W → Option Confusion
  full_confusion pack o =
      let tp = mul o.recall pack.positives in
      let fp = mul o.fpr pack.negatives in
      all_four (round_int tp) (round_int (sub pack.positives tp)) (round_int fp)
        (round_int (sub pack.negatives fp))

  abbrev entry_at : Pack W → Option (Point W) → Option (Operating W)
  entry_at pack none = none
  entry_at pack (some o) = elim (full_confusion pack o) [
    | none ↦ none
    | some c ↦ some (operating_of pack o c)
  ]

  abbrev add_entry :
      String → Option (Operating W) → Option (Dict (Operating W)) → Option (Dict (Operating W))
  add_entry label (some o) (some out) = some (insert label o out)
  add_entry label _ _ = none

  -- The loop of `operating_points` over the targets; `none` where it raises.
  unfoldable pub points_loop :
      Pack W → List W → Option (Dict (Operating W)) → Option (Dict (Operating W))
  unfolding op_at_fpr
  points_loop pack [] out = out
  points_loop pack (t ∷ ts) out = points_loop pack ts (
      add_entry (stepup_label t)
        (entry_at pack (op_at_fpr pack.fpr pack.tpr pack.thr pack.precision t).1) out)

  -- `operating_points`: the entries and the base rate.
  unfoldable pub operating_points : List ℕ → List W → W → List W → Option (Dict (Operating W)) × W
  unfolding roc_pack points_loop
  operating_points y s neg_rate targets =
      let pack = roc_pack y s neg_rate in
      (points_loop pack targets (some []), div pack.positives (add pack.positives pack.negatives))

  -- `_curves` and `_at_fpr` of pramaan_eval.py
  unfoldable pub curves : List ℕ → List W → W → List W × List W × List W × List W
  unfolding zip_with count
  curves y s neg_sample_rate =
      let (fpr, tpr, thr) = roc_curve y s in
      let p = of_count (count 1 y) in
      let n_full = div (of_count (count 0 y)) neg_sample_rate in
      (fpr, tpr, thr, zip_with precision_at (map (λ r. mul r p) tpr) (map (λ r. mul r n_full) fpr))

  unfoldable pub at_fpr : List W → List W → List W → List W → W → Option (Point W)
  unfolding budget_index
  at_fpr fpr tpr thr precision target_fpr =
      let i = budget_index fpr target_fpr in
      point (get_elem? fpr i) (get_elem? tpr i) (get_elem? precision i) (get_elem? thr i)

  abbrev sampled : ℕ → ℕ → Option ℤ → Option ℤ → Option Confusion
  sampled p n (some tp) (some fp) =
      some (record { tp = tp; fn = pos p -ℤ tp; fp = fp; tn = pos n -ℤ fp })
  sampled p n _ _ = none

  abbrev confusion_at : ℕ → ℕ → Option (Point W) → Option Confusion
  confusion_at p n none = none
  confusion_at p n (some op) =
      sampled p n (round_int (mul op.recall (of_count p))) (round_int (mul op.fpr (of_count n)))

  -- The confusion matrix at the operating point in `evaluate` of pramaan_eval.py.
  unfoldable pub evaluate_confusion : List ℕ → List W → W → W → Option Confusion
  unfolding curves at_fpr count
  evaluate_confusion y s neg_sample_rate op_fpr =
      let (fpr, tpr, thr, precision) = curves y s neg_sample_rate in
      confusion_at (count 1 y) (count 0 y) (at_fpr fpr tpr thr precision op_fpr)
