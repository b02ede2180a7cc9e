-- ===== src/Training/UserDays.antt =====
-- `cert_features` of src/train.py: what each user did on each day, and whether an insider did it. The
-- tables are lists of rows; reading them, parsing their dates, the mode and the medians are calls of
-- pandas. Every row has a user, a day and an
-- identifier. The order of the rows that a merge makes is not modelled.
pub mod Conserved
pub mod Deviations
use bank_of_baroda_iit_gn.Common.{
  ℕ, zero, suc, ◌+◌, String, Bool, true, false, ◌&&◌, ◌||◌, not, Option, none, some, List, [], ◌∷◌,
  ◌++◌, map, length, ltb, leb, ◌==◌, str_eq, if◌then◌else◌,
}
use bank_of_baroda_iit_gn.Common.Dict.{Dict, lookup, insert, add}
use bank_of_baroda_iit_gn.Common.Int.{pos}
use bank_of_baroda_iit_gn.Float.{Float, zero_float}

-- A row of logon.csv, device.csv or file.csv, with the day and the hour of its date.
pub record Access : Type 0 where
  pub user : String
  pub pc : String
  pub activity : String
  pub day : ℕ
  pub hour : ℕ

-- `off`: before six or from twenty o'clock on.
abbrev pub is_off : Access → Bool
is_off r = ltb r.hour 6 || leb 20 r.hour

abbrev pub Key : Type 0
Key = String × ℕ

abbrev pub day_key : Access → Key
day_key r = (r.user, r.day)

abbrev pub key_eq : Key → Key → Bool
key_eq (u, d) (v, e) = str_eq u v && (d == e)

unfoldable pub key_in : Key → List Key → Bool
key_in k [] = false
key_in k (j ∷ ks) = key_eq j k || key_in k ks

-- The groups of `groupby(["user", "day"])`, each once.
unfoldable pub distinct_keys : List Key → List Key
unfolding key_in
distinct_keys [] = []
distinct_keys (k ∷ ks) = let rest = distinct_keys ks in if key_in k rest then rest else k ∷ rest

unfoldable pub count_if : {A : Type 0} → (A → Bool) → List A → ℕ
count_if test [] = 0
count_if test (x ∷ xs) = let rest = count_if test xs in if test x then suc rest else rest

unfoldable pub filter_if : {A : Type 0} → (A → Bool) → List A → List A
filter_if test [] = []
filter_if test (x ∷ xs) = let rest = filter_if test xs in if test x then x ∷ rest else rest

-- The rows of one group.
unfoldable pub rows_at : Key → List Access → List Access
unfolding filter_if
rows_at k rows = filter_if (λ r. key_eq (day_key r) k) rows

unfoldable pub grouped : {A : Type 0} → (List Access → A) → List Access → List (Key × A)
unfolding distinct_keys rows_at
grouped agg rows = map (λ k. (k, agg (rows_at k rows))) (distinct_keys (map day_key rows))

unfoldable pub find_key : {A : Type 0} → Key → List (Key × A) → Option A
find_key k [] = none
find_key k ((j, a) ∷ table) = if key_eq j k then some a else find_key k table

pub record Logons : Type 0 where
  pub n_logon : ℕ
  pub n_off_logon : ℕ
  pub n_pcs : ℕ
  pub n_other_pc : ℕ

-- The aggregates of device.csv and of file.csv: a count, and how many of it were off hours.
pub record Uses : Type 0 where
  pub n : ℕ
  pub n_off : ℕ

unfoldable pub distinct_texts : List String → List String
unfolding add
distinct_texts [] = []
distinct_texts (x ∷ xs) = add x (distinct_texts xs)

-- `lo.pc.ne(lo.user.map(modal_pc))`: no machine equals a missing one.
abbrev is_other : Option String → String → Bool
is_other none pc = true
is_other (some modal) pc = not (str_eq pc modal)

unfoldable pub logons_of : Dict String → List Access → Logons
unfolding count_if lookup distinct_texts
logons_of modal_pc rows = record {
  n_logon = length rows;
  n_off_logon = count_if is_off rows;
  n_pcs = length (distinct_texts (map (λ r. r.pc) rows));
  n_other_pc = count_if (λ r. is_other (lookup r.user modal_pc) r.pc) rows;
}

unfoldable pub uses_of : List Access → Uses
unfolding count_if
uses_of rows = record { n = length rows; n_off = count_if is_off rows }

-- `modal_pc`: the most frequent machine of each user; `mode` is that of pandas.
unfoldable pub modal_pcs : (List String → Option String) → List Access → List Access → Dict String
unfolding filter_if insert lookup
modal_pcs mode logon [] = []
modal_pcs mode logon (r ∷ rows) =
    let rest = modal_pcs mode logon rows in
    let pcs = map (λ q. q.pc) (filter_if (λ q. str_eq q.user r.user) logon) in
    elim (mode pcs) [ none ↦ rest | some pc ↦ insert r.user pc rest ]

-- A row of `ud`; its label `y` says whether the day lies in the window of an insider.
pub record UserDay : Type 0 where
  pub key : Key
  pub logons : Logons
  pub usb : Uses
  pub file : Uses
  pub y : Bool

-- `fillna(0)`
abbrev pub logons_or_zero : Option Logons → Logons
logons_or_zero none = record { n_logon = 0; n_off_logon = 0; n_pcs = 0; n_other_pc = 0 }
logons_or_zero (some l) = l

abbrev pub uses_or_zero : Option Uses → Uses
uses_or_zero none = record { n = 0; n_off = 0 }
uses_or_zero (some u) = u

-- `lab`, with the first and the last day of each insider.
abbrev pub in_days : ℕ → Option (ℕ × ℕ) → Bool
in_days day none = false
in_days day (some (first, last)) = leb first day && leb day last

-- `win`: a later row of insiders.csv replaces an earlier one of the same user.
unfoldable pub windows : List (String × String × ℕ × ℕ) → Dict (ℕ × ℕ) → Dict (ℕ × ℕ)
unfolding insert
windows [] win = win
windows ((dataset, user, first, last) ∷ rows) win =
    windows rows (if str_eq dataset "4.2" then insert user (first, last) win else win)

abbrev pub keys_in : {A : Type 0} → List (Key × A) → List Key
keys_in [] = []
keys_in ((k, a) ∷ table) = k ∷ keys_in table

-- A row of the merged tables, with its label.
abbrev pub user_day :
    List (Key × Logons) → List (Key × Uses) → List (Key × Uses) → Dict (ℕ × ℕ) → Key → UserDay
user_day f1 f2 f3 win k = record {
  key = k;
  logons = logons_or_zero (find_key k f1);
  usb = uses_or_zero (find_key k f2);
  file = uses_or_zero (find_key k f3);
  y = in_days k.1 (lookup k.0 win);
}

-- The outer merges on user and day.
abbrev pub merge :
    List (Key × Logons) → List (Key × Uses) → List (Key × Uses) → Dict (ℕ × ℕ) → List UserDay
merge f1 f2 f3 win =
    map (user_day f1 f2 f3 win) (distinct_keys (keys_in f1 ++ keys_in f2 ++ keys_in f3))

-- `cert_features` up to the labels.
unfoldable pub user_days :
    (List String → Option String)
    → List Access
    → List Access
    → List Access
    → List (String × String × ℕ × ℕ)
    → List UserDay
user_days mode lo dv fl insiders =
    let logon = filter_if (λ r. str_eq r.activity "Logon") lo in
    let conn = filter_if (λ r. str_eq r.activity "Connect") dv in
    merge (grouped (logons_of (modal_pcs mode logon logon)) logon) (grouped uses_of conn)
      (grouped uses_of fl) (windows insiders [])

-- `base`
abbrev pub base_columns : List (UserDay → ℕ)
base_columns =
    (λ u. u.logons.n_logon)
    ∷ (λ u. u.logons.n_off_logon)
    ∷ (λ u. u.logons.n_pcs)
    ∷ (λ u. u.logons.n_other_pc)
    ∷ (λ u. u.usb.n)
    ∷ (λ u. u.usb.n_off)
    ∷ (λ u. u.file.n)
    ∷ (λ u. u.file.n_off)
    ∷ []

-- `float32` is the rounding of `astype("float32")`.
module _ {W : Type 0} ⦃f : Float W⦄ (median : List W → W) (float32 : W → W) where
  open f use {abs, div, eq, lit, lt, mul, of_int, sub}

  -- One robust z value: only deviations above the median count, and a spread of 0 gives none.
  unfoldable pub deviation : W → W → W → W
  deviation med mad x =
      let z = div (sub x med) (mul (lit 14826 4) mad) in
      if eq mad zero_float then zero_float else if lt zero_float z then z else zero_float

  -- A column for the days of one user.
  abbrev pub own_values : (UserDay → ℕ) → String → List UserDay → List W
  unfolding filter_if
  own_values g user ud = map (λ u. of_int (pos (g u))) (filter_if (λ u. str_eq u.key.0 user) ud)

  unfoldable pub dev_of : List UserDay → UserDay → (UserDay → ℕ) → W
  unfolding deviation
  dev_of ud u g =
      let values = own_values g u.key.0 ud in
      let med = median values in
      float32 (deviation med (median (map (λ x. abs (sub x med)) values)) (of_int (pos (g u))))

  -- The features `dev_…` of one row.
  unfoldable pub dev_features : List UserDay → UserDay → List W
  unfolding dev_of
  dev_features ud u = map (dev_of ud u) base_columns

  -- `score_zsum` of `cert_fit`
  unfoldable pub score_zsum : List UserDay → UserDay → W
  unfolding dev_of
  score_zsum ud u = f.sum (
      dev_of ud u (λ d. d.logons.n_off_logon)
      ∷ dev_of ud u (λ d. d.logons.n_other_pc)
      ∷ dev_of ud u (λ d. d.usb.n_off)
      ∷ dev_of ud u (λ d. d.file.n_off)
      ∷ dev_of ud u (λ d. d.usb.n)
      ∷ dev_of ud u (λ d. d.file.n)
      ∷ [])
