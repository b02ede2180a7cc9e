-- ===== src/Training/UserDays/Conserved.antt =====
-- Every event of the raw tables is counted in exactly one row.
use bank_of_baroda_iit_gn.Common.{
  ℕ, ◌+◌, String, ◌≡◌, ◌∙◌, sym, ap, refl, Bool, true, false, ◌||◌, Option, none, some, List, [],
  ◌∷◌, ◌++◌, map, length, arith, str_eq, str_eq_iff, Bool-cases, inl, inr, All, if◌then◌else◌,
}
use bank_of_baroda_iit_gn.Training.UserDays.{
  Access, Key, Logons, UserDay, Uses, count_if, distinct_keys, filter_if, find_key, grouped, key_eq,
  key_in, day_key, keys_in, logons_of, logons_or_zero, modal_pcs, rows_at, user_day, user_days,
  uses_of, uses_or_zero, windows,
}

key_eq-eq : (j k : Key) → key_eq j k ≡ true → j ≡ k
key_eq-eq (u, d) (v, e) h = ground (arith, h, str_eq_iff u v)

key_eq_refl : (k : Key) → key_eq k k ≡ true
key_eq_refl (u, d) = ground (arith, str_eq_iff u u)

key_eq_comm : (j k : Key) → key_eq j k ≡ key_eq k j
key_eq_comm (u, d) (v, e) = ground (arith, str_eq_iff u v, str_eq_iff v u)

key_in-distinct_keys : (k : Key) (ks : List Key) → key_in k (distinct_keys ks) ≡ key_in k ks
unfolding distinct_keys key_in
key_in-distinct_keys k [] = refl
key_in-distinct_keys k (j ∷ ks) = elim (Bool-cases (key_in j (distinct_keys ks))) [
  | inl old ↦ elim (Bool-cases (key_eq j k)) [
    | inl same ↦
        let here : key_in k (distinct_keys ks) ≡ true =
          ap (λ i. key_in i (distinct_keys ks)) (sym (key_eq-eq j k same)) ∙ old in
        rw (old, same) here
    | inr other ↦ rw (old, other) (key_in-distinct_keys k ks)
  ]
  | inr new ↦ rw new (ap (λ b. key_eq j k || b) (key_in-distinct_keys k ks))
]

-- No key stands twice.
abbrev IsDistinct : List Key → Type 0
IsDistinct [] = Unit {0}
IsDistinct (k ∷ ks) = (key_in k ks ≡ false) × IsDistinct ks

distinct_keys-IsDistinct : (ks : List Key) → IsDistinct (distinct_keys ks)
unfolding distinct_keys
distinct_keys-IsDistinct [] = tt
distinct_keys-IsDistinct (k ∷ ks) = elim (Bool-cases (key_in k (distinct_keys ks))) [
  | inl old ↦ rw old (distinct_keys-IsDistinct ks)
  | inr new ↦ rw new (new, distinct_keys-IsDistinct ks)
]

sum_over : (Key → ℕ) → List Key → ℕ
sum_over g [] = 0
sum_over g (k ∷ ks) = g k + sum_over g ks

sum_over-add :
    (g h : Key → ℕ) (ks : List Key) → sum_over (λ k. g k + h k) ks ≡ sum_over g ks + sum_over h ks
unfolding sum_over
sum_over-add g h [] = refl
sum_over-add g h (k ∷ ks) = omega (arith, sum_over-add g h ks)

sum_over-eq :
    (g h : Key → ℕ) → ((k : Key) → g k ≡ h k) → (ks : List Key) → sum_over g ks ≡ sum_over h ks
unfolding sum_over
sum_over-eq g h same [] = refl
sum_over-eq g h same (k ∷ ks) = omega (arith, same k, sum_over-eq g h same ks)

abbrev hit : Key → Key → ℕ
hit j k = if key_eq j k then 1 else 0

sum_over-hit :
    (j : Key) (ks : List Key) → IsDistinct ks → sum_over (hit j) ks ≡ (if key_in j ks then 1 else 0)
unfolding sum_over key_in
sum_over-hit j [] h = refl
sum_over-hit j (k ∷ ks) h = elim (Bool-cases (key_eq k j)) [
  | inl same ↦
      let missing : key_in j ks ≡ false = ap (λ i. key_in i ks) (sym (key_eq-eq k j same)) ∙ h.0 in
      ground (arith, same, key_eq_comm j k, missing, sum_over-hit j ks h.1)
  | inr other ↦ ground (arith, other, key_eq_comm j k, sum_over-hit j ks h.1)
]

sum_over-zero : (ks : List Key) → sum_over (λ k. 0) ks ≡ 0
unfolding sum_over
sum_over-zero [] = refl
sum_over-zero (k ∷ ks) = omega (arith, sum_over-zero ks)

-- Each row stands in one grouped of some keys, if these are distinct and hold the keys of the rows.
sum_over-rows_at :
    (rows : List Access) (ks : List Key)
    → IsDistinct ks
    → All (λ r. key_in (day_key r) ks ≡ true) rows
    → sum_over (λ k. length (rows_at k rows)) ks ≡ length rows
unfolding rows_at filter_if
sum_over-rows_at [] ks h all = sum_over-zero ks
sum_over-rows_at (r ∷ rows) ks h (found, all) =
    sum_over-eq (λ k. length (rows_at k (r ∷ rows)))
      (λ k. hit (day_key r) k + length (rows_at k rows)) (λ k. ground arith) ks
    ∙ sum_over-add (hit (day_key r)) (λ k. length (rows_at k rows)) ks
    ∙ omega (
      arith,
      sum_over-rows_at rows ks h all,
      sum_over-hit (day_key r) ks h ∙ ap (λ b. if b then 1 else 0) found,
    )

find_key-map :
    {A : Type 0} (g : Key → A) (k : Key) (ks : List Key)
    → find_key k (map (λ j. (j, g j)) ks) ≡ (if key_in k ks then some (g k) else none)
unfolding find_key key_in
find_key-map g k [] = refl
find_key-map g k (j ∷ ks) = elim (Bool-cases (key_eq j k)) [
  | inl same ↦ rw same (ap (λ i. some (g i)) (key_eq-eq j k same))
  | inr other ↦ rw other (find_key-map g k ks)
]

rows_at-none :
    (k : Key) (rows : List Access) → key_in k (map day_key rows) ≡ false → rows_at k rows ≡ []
unfolding rows_at filter_if key_in
rows_at-none k [] h = refl
rows_at-none k (r ∷ rows) h = ground (arith, h, rows_at-none k rows)

-- What a merge holds of a grouped counts its rows, also where the grouped is not there.
merged :
    {A : Type 0} (agg : List Access → A) (size : Option A → ℕ) (k : Key) (rows : List Access)
    → ((rs : List Access) → size (some (agg rs)) ≡ length rs)
    → size none ≡ 0
    → size (find_key k (grouped agg rows)) ≡ length (rows_at k rows)
unfolding grouped
merged agg size k rows counts nothing =
    let there = key_in-distinct_keys k (map day_key rows) in
    let found = find_key-map (λ j. agg (rows_at j rows)) k (distinct_keys (map day_key rows)) in
    elim (Bool-cases (key_in k (map day_key rows))) [
      | inl e ↦ rw (found, there, e) (counts (rows_at k rows))
      | inr e ↦ rw (found, there, e) (nothing ∙ sym (ap length (rows_at-none k rows e)))
    ]

keys_in-map : {A : Type 0} (g : Key → A) (ks : List Key) → keys_in (map (λ k. (k, g k)) ks) ≡ ks
keys_in-map g [] = refl
keys_in-map g (k ∷ ks) = ap (λ js. k ∷ js) (keys_in-map g ks)

key_in-keys_in :
    {A : Type 0} (agg : List Access → A) (k : Key) (rows : List Access)
    → key_in k (keys_in (grouped agg rows)) ≡ key_in k (map day_key rows)
unfolding grouped
key_in-keys_in agg k rows =
    ap (λ ks. key_in k ks)
      (keys_in-map (λ j. agg (rows_at j rows)) (distinct_keys (map day_key rows)))
    ∙ key_in-distinct_keys k (map day_key rows)

key_in-append : (k : Key) (js ks : List Key) → key_in k (js ++ ks) ≡ (key_in k js || key_in k ks)
unfolding key_in
key_in-append k [] ks = refl
key_in-append k (j ∷ js) ks = ground (arith, key_in-append k js ks)

own_keys :
    (rows : List Access) (ks : List Key)
    → ((k : Key) → key_in k (map day_key rows) ≡ true → key_in k ks ≡ true)
    → All (λ r. key_in (day_key r) ks ≡ true) rows
unfolding key_in
own_keys [] ks h = tt
own_keys (r ∷ rows) ks h = (
  h (day_key r) (ground (arith, key_eq_refl (day_key r))),
  own_keys rows ks (λ k e. h k (ground (arith, e))),
)

length-filter_if :
    {A : Type 0} (t : A → Bool) (xs : List A) → length (filter_if t xs) ≡ count_if t xs
unfolding filter_if count_if
length-filter_if t [] = refl
length-filter_if t (x ∷ xs) = ground (arith, length-filter_if t xs)

-- The sum of a column.
pub column : (UserDay → ℕ) → List UserDay → ℕ
column g [] = 0
column g (u ∷ us) = g u + column g us

column-map :
    (g : UserDay → ℕ) (row : Key → UserDay) (ks : List Key)
    → column g (map row ks) ≡ sum_over (λ k. g (row k)) ks
unfolding column sum_over
column-map g row [] = refl
column-map g row (k ∷ ks) = omega (arith, column-map g row ks)

-- A column that counts the rows of one of the merged tables sums up to all of them.
column-merge :
    {A : Type 0} (agg : List Access → A) (size : Option A → ℕ) (g : UserDay → ℕ)
    (row : Key → UserDay) (rows : List Access) (ks : List Key)
    → ((rs : List Access) → size (some (agg rs)) ≡ length rs)
    → size none ≡ 0
    → ((k : Key) → g (row k) ≡ size (find_key k (grouped agg rows)))
    → ((k : Key) → key_in k (keys_in (grouped agg rows)) ≡ true → key_in k ks ≡ true)
    → column g (map row (distinct_keys ks)) ≡ length rows
column-merge agg size g row rows ks counts nothing reads among =
    column-map g row (distinct_keys ks)
    ∙ sum_over-eq (λ k. g (row k)) (λ k. length (rows_at k rows))
        (λ k. reads k ∙ merged agg size k rows counts nothing) (distinct_keys ks)
    ∙ sum_over-rows_at rows (distinct_keys ks) (distinct_keys-IsDistinct ks) (
        own_keys rows (distinct_keys ks)
          (λ k e. key_in-distinct_keys k ks ∙ among k (key_in-keys_in agg k rows ∙ e)))

logon_size : Option Logons → ℕ
logon_size l = (logons_or_zero l).n_logon

use_size : Option Uses → ℕ
use_size u = (uses_or_zero u).n

-- Summed over all users and days, the counts of logons, of connected devices and of files are the
-- numbers of such events in the raw tables.
pub user_days-conserve :
    (mode : List String → Option String) (lo dv fl : List Access)
    (insiders : List (String × String × ℕ × ℕ))
    → let ud = user_days mode lo dv fl insiders in
      (column (λ u. u.logons.n_logon) ud ≡ count_if (λ r. str_eq r.activity "Logon") lo)
      × (column (λ u. u.usb.n) ud ≡ count_if (λ r. str_eq r.activity "Connect") dv)
      × (column (λ u. u.file.n) ud ≡ length fl)
unfolding user_days logons_of uses_of logon_size use_size
user_days-conserve mode lo dv fl insiders =
    let logon = filter_if (λ r. str_eq r.activity "Logon") lo in
    let conn = filter_if (λ r. str_eq r.activity "Connect") dv in
    let modal = modal_pcs mode logon logon in
    let f1 = grouped (logons_of modal) logon in
    let f2 = grouped uses_of conn in
    let f3 = grouped uses_of fl in
    let row = user_day f1 f2 f3 (windows insiders []) in
    let ks = keys_in f1 ++ keys_in f2 ++ keys_in f3 in
    let in_all : (k : Key)
        → key_in k ks
          ≡ ((key_in k (keys_in f1) || key_in k (keys_in f2)) || key_in k (keys_in f3)) =
      λ k. ground (
        arith,
        key_in-append k (keys_in f1 ++ keys_in f2) (keys_in f3),
        key_in-append k (keys_in f1) (keys_in f2),
      ) in
    (
      column-merge (logons_of modal) logon_size (λ u. u.logons.n_logon) row logon ks (λ rs. refl)
            refl (λ k. refl) (λ k e. in_all k ∙ ground (arith, e))
          ∙ length-filter_if (λ r. str_eq r.activity "Logon") lo,
      column-merge uses_of use_size (λ u. u.usb.n) row conn ks (λ rs. refl) refl (λ k. refl)
            (λ k e. in_all k ∙ ground (arith, e))
          ∙ length-filter_if (λ r. str_eq r.activity "Connect") dv,
      column-merge uses_of use_size (λ u. u.file.n) row fl ks (λ rs. refl) refl (λ k. refl)
          (λ k e. in_all k ∙ ground (arith, e)),
    )
