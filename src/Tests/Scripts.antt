-- ===== src/Tests/Scripts.antt =====
-- The theorems on the scripts at concrete data.
use mathlib.Core.List.{List}
use mathlib.Core.Path.{subst}
use bank_of_baroda_iit_gn.Common.{
  ℕ, zero, suc, ◌≤◌, ◌<◌, String, ◌≡◌, ◌↔◌, refl, Bool, true, false, false≢true, ◌&&◌, Option, none,
  some, [], ◌∷◌, All, arith, length, take, get_elem?, is_ok, str_eq, sym, ◌∙◌, Bool-cases, inl, inr,
  if◌then◌else◌, ap, not,
}
use bank_of_baroda_iit_gn.Common.Int.{pos}
use bank_of_baroda_iit_gn.Common.Dict.{Dict, lookup, insert}
use bank_of_baroda_iit_gn.Float.{le, zero_float}
use bank_of_baroda_iit_gn.Float.Fixed.{Fixed, fixed_float}
use bank_of_baroda_iit_gn.Float.Fixed.Laws.{Fixed-IsClip, Fixed-IsFloat, fixed_libs}
use bank_of_baroda_iit_gn.Offline.{Row, new_store}
use bank_of_baroda_iit_gn.Offline.DpExport.{
  Draws, compute_cohort_means, exported, group, identity_totals,
}
use bank_of_baroda_iit_gn.Offline.Suppression.{IsReleased, export_is_guarded}
use bank_of_baroda_iit_gn.Training.{
  Login, Pandas, RawLogin, collect, filter_rows, is_after, is_positive, pass_b_collect,
}
use bank_of_baroda_iit_gn.Training.NoLookAhead.{IsSample, all_pass, no_look_ahead}
use bank_of_baroda_iit_gn.Metrics.{Numerics}
use bank_of_baroda_iit_gn.Metrics.Budget.{IsNumerics, IsAscending}
use bank_of_baroda_iit_gn.Headline.{Files, Json, Fields, Python, checks, gate, low_and_slow}
use bank_of_baroda_iit_gn.Headline.Gate.{all_confirmed, gate_exact, sessions_confirmed}
use bank_of_baroda_iit_gn.Datasets.{
  Outside, Source, Spec, download, get_file, get_files, get_one, verify,
}
use bank_of_baroda_iit_gn.Datasets.Verified.{IsFetched, get_one-IsFetched}
use bank_of_baroda_iit_gn.Training.UserDays.{Access, count_if, user_days}
use bank_of_baroda_iit_gn.Training.UserDays.Conserved.{column, user_days-conserve}
use bank_of_baroda_iit_gn.Tests.Data.{get_ok, get_ok_lem}

-- Noise that lifts a cohort of one over the margin.
abbrev draws : Draws Fixed
draws = record {
  laplace = λ i scale. fixed_float.lit 40 0;
  normal = λ i deviation. fixed_float.lit 1 0 ∷ [];
}

abbrev row : Row
row = record {
  user = "7";
  device_type = "mobile";
  browser = "Chrome 90";
  os = "Android 9";
  country = "NO";
  ts = some 1000;
  hod = 10;
  succ = true;
  ato = false;
}

exported_ok : is_ok (exported fixed_libs draws (fixed_float.lit 4 0) (row ∷ [])) ≡ true
unfolding exported compute_cohort_means
exported_ok = refl

abbrev published : Dict (List Fixed)
published = get_ok (exported fixed_libs draws (fixed_float.lit 4 0) (row ∷ [])) exported_ok

export_is_guarded_example :
    (le (fixed_float.lit 4 0) zero_float ≡ false)
    × All
        (IsReleased Fixed-IsFloat fixed_libs Fixed-IsClip draws
          (fixed_float.lit 4 0)
          (group fixed_libs (identity_totals fixed_libs new_store (row ∷ []) []) [])
          0)
        published
export_is_guarded_example =
    export_is_guarded Fixed-IsFloat fixed_libs Fixed-IsClip draws (fixed_float.lit 4 0) (row ∷ [])
      (get_ok_lem (exported fixed_libs draws (fixed_float.lit 4 0) (row ∷ [])) exported_ok)

-- A sampler that takes the first rows.
abbrev pandas : Pandas Fixed
pandas = record {
  to_datetime = λ cell. if str_eq cell "late" then some 9 else some 3;
  hour_of = λ t. 0;
  log_rtt = λ cell. fixed_float.lit 1 0;
  quantile = λ ts. some 5;
  sample = take;
}

all_pass-take :
    (p : Login Fixed → Bool) (n : ℕ) (rows : List (Login Fixed))
    → all_pass p rows ≡ true
    → all_pass p (take n rows) ≡ true
unfolding all_pass
all_pass-take p zero rows h = refl
all_pass-take p (suc n) [] h = refl
all_pass-take p (suc n) (r ∷ rows) h = ground (arith, all_pass-take p n rows)

length-take : (n : ℕ) (rows : List (Login Fixed)) → n ≤ length rows → length (take n rows) ≡ n
length-take zero rows h = refl
length-take (suc n) [] h = absurd (omega (arith, h))
length-take (suc n) (r ∷ rows) h = ap suc (length-take n rows (omega (arith, h)))

pandas-IsSample : IsSample pandas
pandas-IsSample = record { sample_pass = all_pass-take; sample_length = length-take }

abbrev cells : String → String → RawLogin
cells timestamp takeover = record {
  timestamp = timestamp;
  rtt_ms = "10";
  country = "NO";
  asn = "1";
  browser = "Chrome 90";
  os = "Android 9";
  device_type = none;
  successful = "True";
  attack_ip = "False";
  takeover = takeover;
}

abbrev chunks : List (List RawLogin)
chunks =
    (cells "early" "False" ∷ cells "late" "True" ∷ [])
    ∷ (cells "early" "True" ∷ cells "early" "False" ∷ [])
    ∷ []

no_look_ahead_example :
    let (train, test) = pass_b_collect pandas (some 5) 1 chunks in
    (all_pass (λ r. not (is_after (some 5) r.ts)) train ≡ true)
    × (all_pass (λ r. is_after (some 5) r.ts) test ≡ true)
    × (filter_rows is_positive train ≡ filter_rows is_positive (collect pandas (some 5) chunks).0)
no_look_ahead_example = no_look_ahead pandas pandas-IsSample (some 5) 1 chunks

-- A search from the left, and curves with two points.
scan : List Fixed → Fixed → ℕ
scan [] v = 0
scan (x ∷ xs) v = let rest = scan xs v in if le x v then suc rest else 0

abbrev numerics : Numerics Fixed
numerics = record {
  roc_curve = λ y s. (
    zero_float ∷ fixed_float.lit 1 0 ∷ [],
    fixed_float.lit 5 1 ∷ fixed_float.lit 1 0 ∷ [],
    fixed_float.lit 9 1 ∷ fixed_float.lit 1 1 ∷ [],
  );
  searchsorted_right = scan;
  round_to = λ x n. x;
  round_int = λ x. some (pos 1);
  stepup_label = λ t. "t";
  fpr_label = λ t. "t";
}

le_fixed_trans : (a b c : Fixed) → le a b ≡ true → le b c ≡ true → le a c ≡ true
le_fixed_trans (Fixed.num a) (Fixed.num b) (Fixed.num c) h k = ground arith
le_fixed_trans (Fixed.num a) (Fixed.num b) Fixed.nan h k = cc (k)
le_fixed_trans (Fixed.num a) Fixed.nan c h k = cc (h)
le_fixed_trans Fixed.nan b c h k = cc (h)

search_length : (a : List Fixed) (v : Fixed) → IsAscending a → scan a v ≤ length a
unfolding scan
search_length [] v h = omega arith
search_length (x ∷ []) v h = ground arith
search_length (x ∷ y ∷ a) v h = ground (arith, search_length (y ∷ a) v h.1)

search_below :
    (a : List Fixed) (v x : Fixed) (i : ℕ)
    → IsAscending a
    → i < scan a v
    → get_elem? a i ≡ some x
    → le x v ≡ true
unfolding scan
search_below [] v x i asc h at_i = absurd (omega (arith, h))
search_below (b ∷ []) v x zero asc h at_i = ground (arith, at_i)
search_below (b ∷ []) v x (suc i) asc h at_i = cc (at_i)
search_below (b ∷ c ∷ a) v x zero asc h at_i = ground (arith, at_i)
search_below (b ∷ c ∷ a) v x (suc i) asc h at_i =
    search_below (c ∷ a) v x i asc.1 (ground (arith, h)) at_i

le-head :
    (a : List Fixed) (b x : Fixed) (i : ℕ)
    → IsAscending (b ∷ a)
    → get_elem? a i ≡ some x
    → le b x ≡ true
le-head [] b x i asc at_i = cc (at_i)
le-head (c ∷ a) b x zero asc at_i =
    let same : c ≡ x = cc (at_i) in subst (λ t. le b t ≡ true) same asc.0
le-head (c ∷ a) b x (suc i) asc at_i = le_fixed_trans b c x asc.0 (le-head a c x i asc.1 at_i)

search_above :
    (a : List Fixed) (v x : Fixed) (i : ℕ)
    → IsAscending a
    → scan a v ≤ i
    → get_elem? a i ≡ some x
    → le x v ≡ false
unfolding scan
search_above [] v x i asc h at_i = cc (at_i)
search_above (b ∷ []) v x zero asc h at_i = ground (arith, at_i)
search_above (b ∷ []) v x (suc i) asc h at_i = cc (at_i)
search_above (b ∷ c ∷ a) v x zero asc h at_i = ground (arith, at_i)
search_above (b ∷ c ∷ a) v x (suc i) asc h at_i = elim (Bool-cases (le b v)) [
  | inl e ↦ search_above (c ∷ a) v x i asc.1 (ground (arith, e, h)) at_i
  | inr e ↦ elim (Bool-cases (le x v)) [
    | inl k ↦
        let low = le_fixed_trans b x v (le-head (c ∷ a) b x i asc at_i) k in
        absurd (false≢true (sym e ∙ low))
    | inr k ↦ k
  ]
]

numerics-IsNumerics : IsNumerics numerics
numerics-IsNumerics = record {
  search_length = search_length;
  search_below = search_below;
  search_above = search_above;
  roc_ascending = λ y s neg pos. (refl, tt);
  roc_start = λ y s neg pos. refl;
  roc_length-tpr = λ y s. refl;
  roc_length-thr = λ y s. refl;
}

-- One file of metrics that holds its number, and no file of the engines.
abbrev files : Files Fixed
files rel =
    if str_eq rel "results/cmu_keystroke/metrics.json"
    then some
        (some (Json.obj (Fields.field "mean_eer" (Json.num (fixed_float.lit 96 3)) Fields.end)))
    else none

abbrev python : Python Fixed
python = record { float_of = λ t. none; list_lt = λ s t. none }

gate_exact_example : (gate python files (take 1 checks) ≡ some 0) ↔ (
    (all_confirmed python files (take 1 checks) && sessions_confirmed python (files low_and_slow))
    ≡ true)
gate_exact_example = gate_exact python files (take 1 checks)

abbrev outside : Outside
outside = record {
  fetch = λ url. some (1 ∷ []);
  kaggle = λ competition folder. none;
  sha256 = λ body. "digest";
}

abbrev source : Source
source = record { url = "https://host/logon.csv"; rel = "logon.csv"; sha = some "digest" }

get_one-IsFetched_example :
    IsFetched outside (Spec.several (source ∷ [])) (("logon.csv", 1 ∷ []) ∷ [])
unfolding get_one get_files get_file download verify lookup insert
get_one-IsFetched_example =
    get_one-IsFetched outside (Spec.several (source ∷ [])) [] (("logon.csv", 1 ∷ []) ∷ []) refl

abbrev mondays : List Access
mondays =
    record { user = "u1"; pc = "p1"; activity = "Logon"; day = 1; hour = 9 }
    ∷ record { user = "u1"; pc = "p2"; activity = "Logon"; day = 1; hour = 21 }
    ∷ record { user = "u1"; pc = "p1"; activity = "Logoff"; day = 1; hour = 22 }
    ∷ record { user = "u2"; pc = "p3"; activity = "Logon"; day = 8; hour = 10 }
    ∷ []

abbrev sticks : List Access
sticks = record { user = "u3"; pc = "p1"; activity = "Connect"; day = 1; hour = 3 } ∷ []

abbrev first_pc : List String → Option String
first_pc [] = none
first_pc (pc ∷ pcs) = some pc

user_days-conserve_example :
    let ud = user_days first_pc mondays sticks sticks [] in
    (column (λ u. u.logons.n_logon) ud ≡ count_if (λ r. str_eq r.activity "Logon") mondays)
    × (column (λ u. u.usb.n) ud ≡ count_if (λ r. str_eq r.activity "Connect") sticks)
    × (column (λ u. u.file.n) ud ≡ length sticks)
user_days-conserve_example = user_days-conserve first_pc mondays sticks sticks []
