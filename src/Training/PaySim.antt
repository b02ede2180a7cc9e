-- ===== src/Training/PaySim.antt =====
-- `paysim_features` and `paysim_fit` of src/train.py: the features of the payments, the split by time
-- and the scores of the two models. The table is a list of rows in the order of the file, every row
-- with both names; reading and writing it are I/O. What is called of pandas, numpy and scikit-learn is
-- a parameter.
pub mod Leakage
use Prim.Native.Char.{code}
use bank_of_baroda_iit_gn.Common.{
  ℕ, ◌%◌, String, Bool, true, false, ◌&&◌, Option, none, some, List, [], ◌∷◌, ◌++◌, map, ltb, leb,
  ◌==◌, if◌then◌else◌,
}
use bank_of_baroda_iit_gn.Float.{Float, zero_float, one_float}
use bank_of_baroda_iit_gn.Training.UserDays.{filter_if}

-- A row of paysim.csv.
pub record Payment (W : Type 0) : Type 0 where
  pub step : ℕ
  pub kind : String
  pub amount : W
  pub name_orig : String
  pub old_balance_orig : W
  pub new_balance_orig : W
  pub name_dest : String
  pub old_balance_dest : W
  pub new_balance_dest : W
  pub is_fraud : ℕ
  pub is_flagged_fraud : ℕ

-- The columns of `BEHAV_COLS`.
pub record Behaviour (W : Type 0) : Type 0 where
  pub hour : ℕ
  pub log_amount : W
  pub amount : W
  pub kind : String
  pub orig_txn_idx : ℕ
  pub dest_in_deg : ℕ
  pub dest_is_merchant : Bool

-- The columns of `BALANCE_COLS`.
pub record Balances (W : Type 0) : Type 0 where
  pub old_balance_orig : W
  pub new_balance_orig : W
  pub old_balance_dest : W
  pub new_balance_dest : W
  pub err_orig : W
  pub err_dest : W
  pub orig_emptied : Bool
  pub dest_zero_before : Bool
  pub amt_ratio : W
  pub frac_orig_moved : W
  pub amount_eq_oldorig : Bool

-- A row of the table of features.
pub record Featured (W : Type 0) : Type 0 where
  pub step : ℕ
  pub is_fraud : ℕ
  pub is_flagged_fraud : ℕ
  pub behaviour : Behaviour W
  pub balances : Balances W

pub record Tools (W : Type 0) : Type 1 where
  -- `df.groupby(column, sort=False).cumcount()`
  pub cumcount : List String → List ℕ
  -- `np.log1p(x)`, `x.astype("float32")`, `x.clip(0, 5)` and `np.isclose(x, y)` of one cell.
  pub log1p : W → W
  pub float32 : W → W
  pub clip_0_5 : W → W
  pub is_close : W → W → Bool
  -- `df.sample(n, random_state=42)`; `none` where it raises, as on fewer than `n` rows.
  pub sample : ℕ → List (Featured W) → Option (List (Featured W))
  -- `hgb(…).fit(tr[cols], tr.isFraud)` and `predict_proba(test[cols])[:, 1]`
  pub fit_predict : {A : Type 0} → List (A × ℕ) → List A → List W

-- The table of scores, by columns.
pub record ScoreTable (W : Type 0) : Type 0 where
  pub y : List ℕ
  pub flagged_baseline : List ℕ
  pub score_full : List W
  pub score_behavioral_only : List W

-- `.str.startswith("M")`
unfoldable pub is_merchant : String → Bool
is_merchant String.[] = false
is_merchant (String.◌∷◌ c s) = code c == 77

-- `BEHAV_COLS + BALANCE_COLS`
abbrev pub all_columns : {W : Type 0} → Featured W → Behaviour W × Balances W
all_columns r = (r.behaviour, r.balances)

abbrev pub is_test : {W : Type 0} → Featured W → Bool
is_test r = ltb 600 r.step

abbrev pub is_train : {W : Type 0} → Featured W → Bool
is_train r = leb r.step 600

module _ {W : Type 0} ⦃f : Float W⦄ (tools : Tools W) where
  open f use {add, sub, div, lt, eq}
  open tools use {cumcount, log1p, float32, clip_0_5, is_close, sample, fit_predict}

  unfoldable pub behaviour_of : Payment W → ℕ → ℕ → Behaviour W
  unfolding is_merchant
  behaviour_of p earlier_from earlier_to = record {
    hour = p.step % 24;
    log_amount = float32 (log1p p.amount);
    amount = p.amount;
    kind = p.kind;
    orig_txn_idx = earlier_from;
    dest_in_deg = earlier_to;
    dest_is_merchant = is_merchant p.name_dest;
  }

  unfoldable pub balances_of : Payment W → Balances W
  balances_of p = record {
    old_balance_orig = float32 p.old_balance_orig;
    new_balance_orig = float32 p.new_balance_orig;
    old_balance_dest = float32 p.old_balance_dest;
    new_balance_dest = float32 p.new_balance_dest;
    err_orig = float32 (sub (sub p.old_balance_orig p.amount) p.new_balance_orig);
    err_dest = float32 (sub (add p.old_balance_dest p.amount) p.new_balance_dest);
    orig_emptied = eq p.new_balance_orig zero_float && lt zero_float p.old_balance_orig;
    dest_zero_before = eq p.old_balance_dest zero_float;
    amt_ratio = float32 (div p.amount (add p.old_balance_orig one_float));
    frac_orig_moved = float32 (clip_0_5 (div p.amount (add p.old_balance_orig one_float)));
    amount_eq_oldorig = is_close p.amount p.old_balance_orig;
  }

  unfoldable pub featured : Payment W → ℕ → ℕ → Featured W
  unfolding behaviour_of balances_of
  featured p earlier_from earlier_to = record {
    step = p.step;
    is_fraud = p.is_fraud;
    is_flagged_fraud = p.is_flagged_fraud;
    behaviour = behaviour_of p earlier_from earlier_to;
    balances = balances_of p;
  }

  -- The columns put beside each other.
  unfoldable pub with_columns : List (Payment W) → List ℕ → List ℕ → List (Featured W)
  unfolding featured
  with_columns (p ∷ ps) (i ∷ is) (j ∷ js) = featured p i j ∷ with_columns ps is js
  with_columns _ _ _ = []

  -- `paysim_features`
  unfoldable pub paysim_features : List (Payment W) → List (Featured W)
  unfolding with_columns
  paysim_features ps =
      with_columns ps (cumcount (map (λ p. p.name_orig) ps)) (cumcount (map (λ p. p.name_dest) ps))

  abbrev joined : List (Featured W) → Option (List (Featured W)) → Option (List (Featured W))
  joined frauds none = none
  joined frauds (some genuine) = some (frauds ++ genuine)

  -- `tr`: all frauds up to step 600, and two million other rows of that time.
  unfoldable pub training_set : List (Featured W) → Option (List (Featured W))
  unfolding filter_if
  training_set df =
      let train = filter_if is_train df in
      joined (filter_if (λ r. r.is_fraud == 1) train)
        (sample 2000000 (filter_if (λ r. r.is_fraud == 0) train))

  -- One model: fitted on some columns of `tr`, its scores on those columns of the test rows.
  unfoldable pub model_score :
      {A : Type 0} → (Featured W → A) → List (Featured W) → List (Featured W) → List W
  model_score cols train test = fit_predict (map (λ r. (cols r, r.is_fraud)) train) (map cols test)

  abbrev pub score_table : List (Featured W) → Option (List (Featured W)) → Option (ScoreTable W)
  unfolding model_score
  score_table test none = none
  score_table test (some train) = some (record {
    y = map (λ r. r.is_fraud) test;
    flagged_baseline = map (λ r. r.is_flagged_fraud) test;
    score_full = model_score all_columns train test;
    score_behavioral_only = model_score (λ r. r.behaviour) train test;
  })

  -- `paysim_fit`: the table of scores, or `none` where sampling raises.
  unfoldable pub paysim_fit : List (Featured W) → Option (ScoreTable W)
  unfolding training_set model_score filter_if
  paysim_fit df = score_table (filter_if is_test df) (training_set df)
