-- ===== src/Headline.antt =====
-- scripts/check_headline.py: the gate that compares the published numbers with the files of metrics.
-- Reading and parsing a file is a parameter. Messages are data; what is printed is left out.
pub mod Gate
use bank_of_baroda_iit_gn.Common.{
  ℕ, String, Bool, true, false, ◌&&◌, Option, none, some, List, [], ◌∷◌, ◌++◌, is_empty, str_eq,
  if◌then◌else◌,
}
use bank_of_baroda_iit_gn.Common.Dict.{Dict, lookup}
use bank_of_baroda_iit_gn.Explain.{text_lt}
use bank_of_baroda_iit_gn.Float.{Float, le, zero_float, one_float}

-- A parsed JSON text.
mutual
  pub data Json (W : Type 0) : Type 0 where
    null : Json W
    num : W → Json W
    boolean : Bool → Json W
    text : String → Json W
    array : Items W → Json W
    obj : Fields W → Json W

  pub data Items (W : Type 0) : Type 0 where
    no_items : Items W
    item : Json W → Items W → Items W

  pub data Fields (W : Type 0) : Type 0 where
    end : Fields W
    field : String → Json W → Fields W → Fields W

-- `float(text)`, and `<` of two lists; `none` where they raise.
pub record Python (W : Type 0) : Type 0 where
  pub float_of : String → Option W
  pub list_lt : Items W → Items W → Option Bool

pub record Check (W : Type 0) : Type 0 where
  pub name : String
  pub rel : String
  pub path : List String
  pub expected : W
  pub tol : W

pub data Complaint (W : Type 0) : Type 0 where
  missing unreadable : String → Complaint W
  drifted : String → W → Complaint W
  not_earlier : Json W → Json W → Complaint W

abbrev pub low_and_slow : String
low_and_slow = "results/adversarial/low_and_slow.json"

-- The files below the root: `none` where there is none; `some none` where the text is not JSON.
abbrev pub Files : Type 0 → Type 0
Files W = String → Option (Option (Json W))

module _ {W : Type 0} where
  abbrev field_of : String → Fields W → Option (Json W)
  field_of k end = none
  field_of k (field j v fs) = let rest = field_of k fs in if str_eq j k then some v else rest

  abbrev member : String → Json W → Option (Json W)
  member k (obj fs) = field_of k fs
  member k _ = none

  -- `_dig`; `none` where it raises.
  unfoldable pub dig : List String → Json W → Option (Json W)
  dig [] j = some j
  dig (k ∷ path) j = elim (member k j) [ none ↦ none | some v ↦ dig path v ]

  -- `d.get(key)`
  abbrev pub get_or_null : String → Fields W → Json W
  get_or_null k fs = elim (field_of k fs) [ none ↦ null | some v ↦ v ]

module _ {W : Type 0} ⦃f : Float W⦄ where
  open f use {sub, abs}

  -- `ok = abs(got - expected) <= tol`
  unfoldable pub within : Check W → W → Bool
  within c got = le (abs (sub got c.expected)) c.tol

  abbrev compare_number : Check W → Option W → List (Complaint W)
  unfolding within
  compare_number c none = unreadable c.name ∷ []
  compare_number c (some got) = if within c got then [] else drifted c.name got ∷ []

  abbrev exit_code : List (Complaint W) → ℕ
  exit_code [] = 0
  exit_code (c ∷ cs) = 1

  -- `CHECKS`
  abbrev pub checks : List (Check W)
  checks =
      record {
        name = "CMU keystroke mean EER";
        rel = "results/cmu_keystroke/metrics.json";
        path = "mean_eer" ∷ [];
        expected = f.lit 955 4;
        tol = f.lit 5 3;
      }
      ∷ record {
        name = "PaySim ROC-AUC";
        rel = "results/paysim_full/metrics.json";
        path = "roc_auc" ∷ [];
        expected = f.lit 100 2;
        tol = f.lit 1 2;
      }
      ∷ record {
        name = "PaySim PR-AUC";
        rel = "results/paysim_full/metrics.json";
        path = "pr_auc" ∷ [];
        expected = f.lit 100 2;
        tol = f.lit 2 2;
      }
      ∷ record {
        name = "RBA full ROC-AUC (no IP)";
        rel = "results/evaluation/rba_full_noip/metrics_full.json";
        path = "threshold_free" ∷ "roc_auc" ∷ [];
        expected = f.lit 9934 4;
        tol = f.lit 1 2;
      }
      ∷ record {
        name = "RBA full recall @1% step-up";
        rel = "results/evaluation/rba_full_noip/metrics_full.json";
        path = "operating_points" ∷ "stepup_1pct" ∷ "recall" ∷ [];
        expected = f.lit 875 3;
        tol = f.lit 4 2;
      }
      ∷ record {
        name = "DP export epsilon";
        rel = "results/privacy_budget.json";
        path = "epsilon" ∷ [];
        expected = f.lit 11126 4;
        tol = f.lit 25 2;
      }
      ∷ record {
        name = "Cold-start shipped step-up rate";
        rel = "results/coldstart/report.json";
        path = "shipped_real_model_with_prior" ∷ [];
        expected = f.lit 0 1;
        tol = f.lit 5 2;
      }
      ∷ []

module _ {W : Type 0} ⦃f : Float W⦄ (py : Python W) where
  -- `float(…)`; `none` where it raises.
  abbrev number_of : Option (Json W) → Option W
  number_of (some (num x)) = some x
  number_of (some (boolean b)) = some (if b then one_float else zero_float)
  number_of (some (text t)) = py.float_of t
  number_of _ = none

  abbrev pub number_in : Check W → Option (Json W) → Option W
  unfolding dig
  number_in c none = none
  number_in c (some j) = number_of (dig c.path j)

  abbrev check_file : Check W → Option (Option (Json W)) → List (Complaint W)
  unfolding dig within
  check_file c none = missing c.name ∷ []
  check_file c (some content) = compare_number c (number_in c content)

  -- The loop over `CHECKS`.
  unfoldable pub check_all : Files W → List (Check W) → List (Complaint W)
  unfolding dig within
  check_all files [] = []
  check_all files (c ∷ cs) = check_file c (files c.rel) ++ check_all files cs

  -- The number that a value is in a comparison; `True` is 1.
  abbrev pub as_number : Json W → Option W
  as_number (num x) = some x
  as_number (boolean b) = some (if b then one_float else zero_float)
  as_number _ = none

  abbrev number_lt : Option W → Option W → Option Bool
  number_lt (some a) (some b) = some (f.lt a b)
  number_lt _ _ = none

  -- `a < b`; `none` where it raises.
  abbrev pub less : Json W → Json W → Option Bool
  unfolding text_lt
  less (text s) (text t) = some (text_lt s t)
  less (array s) (array t) = py.list_lt s t
  less a b = number_lt (as_number a) (as_number b)

  abbrev pub is_null : Json W → Bool
  is_null null = true
  is_null _ = false

  -- `new is not None and (old is None or new < old)`; `none` where it raises.
  unfoldable pub earlier : Json W → Json W → Option Bool
  unfolding text_lt
  earlier new old =
      if is_null new then some false else if is_null old then some true else less new old

  abbrev pub new_session : Fields W → Json W
  new_session d = get_or_null "new_first_caught_session" d

  abbrev pub old_session : Fields W → Json W
  old_session d = get_or_null "old_first_caught_session" d

  abbrev compare_sessions : Fields W → Option Bool → Option (List (Complaint W))
  compare_sessions d none = none
  compare_sessions d (some true) = some []
  compare_sessions d (some false) = some (not_earlier (new_session d) (old_session d) ∷ [])

  -- The comparison of the two engines, where its file is there.
  abbrev check_sessions : Option (Option (Json W)) → Option (List (Complaint W))
  unfolding earlier
  check_sessions none = some []
  check_sessions (some (some (obj d))) =
      compare_sessions d (earlier (new_session d) (old_session d))
  check_sessions (some _) = none

  abbrev exit_of : List (Complaint W) → Option (List (Complaint W)) → Option ℕ
  exit_of failures none = none
  exit_of failures (some more) = some (exit_code (failures ++ more))

  -- `main` after the regeneration: the exit code, or `none` where it raises.
  unfoldable pub gate : Files W → List (Check W) → Option ℕ
  unfolding check_all earlier
  gate files checks = exit_of (check_all files checks) (check_sessions (files low_and_slow))
