-- ===== src/Training.antt =====
-- How the training scripts split the logins by time: src/train_rba_full.py, which streams the file
-- in chunks, and the splits of src/tune.py and src/seed_sweep.py. The cells of a row are texts;
-- pandas' parsing of times and numbers, its quantile and its sampling are parameters.
pub mod NoLookAhead
pub mod UserDays
pub mod PaySim
use Prim.Native.Char.{code}
use bank_of_baroda_iit_gn.Common.{
  ℕ, zero, suc, ◌+◌, String, Bool, true, false, ◌&&◌, ◌||◌, not, Option, none, some, List, [], ◌∷◌,
  ◌++◌, map, length, ltb, leb, ◌==◌, is_empty, if◌then◌else◌,
}
use bank_of_baroda_iit_gn.Float.{Float, zero_float}
use bank_of_baroda_iit_gn.Offline.{first_word}

pub record RawLogin : Type 0 where
  pub timestamp : String
  pub rtt_ms : String
  pub country : String
  pub asn : String
  pub browser : String
  pub os : String
  pub device_type : Option String
  pub successful : String
  pub attack_ip : String
  pub takeover : String

-- A row of what `_prep_chunk` returns; `rtt` is NaN where the cell is no number.
pub record Login (W : Type 0) : Type 0 where
  pub ts : ℕ
  pub y : Bool
  pub attack_ip : Bool
  pub hour : ℕ
  pub rtt : W
  pub device_type : String
  pub browser : Option String
  pub os : Option String
  pub country : String
  pub asn : String

pub record Pandas (W : Type 0) : Type 0 where
  -- `pd.to_datetime(…, errors="coerce")` in milliseconds, and the hour of a time.
  pub to_datetime : String → Option ℕ
  pub hour_of : ℕ → ℕ
  -- `np.log1p(pd.to_numeric(…, errors="coerce"))`
  pub log_rtt : String → W
  -- `ts.quantile(q)` of times; `none` is NaT, for no times.
  pub quantile : List ℕ → Option ℕ
  -- `df.sample(n, random_state=42)`
  pub sample : ℕ → List (Login W) → List (Login W)

-- `.str.lower().eq("true")`: no other letter than an ASCII capital turns into one of these.
abbrev is_letter : ℕ → ℕ → Bool
is_letter c small = (c == small) || (c + 32 == small)

unfoldable pub spells : List ℕ → String → Bool
spells [] String.[] = true
spells (l ∷ ls) (String.◌∷◌ c s) = is_letter (code c) l && spells ls s
spells _ _ = false

unfoldable pub is_true : String → Bool
unfolding spells
is_true cell = spells (b't' ∷ b'r' ∷ b'u' ∷ b'e' ∷ []) cell

unfoldable pub filter_rows : {A : Type 0} → (A → Bool) → List A → List A
filter_rows p [] = []
filter_rows p (x ∷ xs) = let rest = filter_rows p xs in if p x then x ∷ rest else rest

abbrev device_or_unknown : Option String → String
device_or_unknown none = "unknown"
device_or_unknown (some d) = d

-- `ts > cut`: false where the cut is NaT.
abbrev pub is_after : Option ℕ → ℕ → Bool
is_after none ts = false
is_after (some cut) ts = ltb cut ts

abbrev pub is_positive : {W : Type 0} → Login W → Bool
is_positive r = r.y

module _ {W : Type 0} (pd : Pandas W) where
  open pd use {to_datetime, hour_of, log_rtt, quantile, sample}

  abbrev login_at : RawLogin → ℕ → Login W
  unfolding is_true first_word
  login_at r ts = record {
    ts = ts;
    y = is_true r.takeover;
    attack_ip = is_true r.attack_ip;
    hour = hour_of ts;
    rtt = log_rtt r.rtt_ms;
    device_type = device_or_unknown r.device_type;
    browser = first_word r.browser;
    os = first_word r.os;
    country = r.country;
    asn = r.asn;
  }

  abbrev add_login : RawLogin → Option ℕ → List (Login W) → List (Login W)
  unfolding is_true first_word
  add_login r none rest = rest
  add_login r (some ts) rest = login_at r ts ∷ rest

  -- `_prep_chunk`: the successful logins whose time can be read.
  unfoldable pub prep_chunk : List RawLogin → List (Login W)
  unfolding is_true first_word
  prep_chunk [] = []
  prep_chunk (r ∷ rows) =
      let rest = prep_chunk rows in
      if is_true r.successful then add_login r (to_datetime r.timestamp) rest else rest

  abbrev add_time : Option ℕ → List ℕ → List ℕ
  add_time none ts = ts
  add_time (some t) ts = t ∷ ts

  -- The times of the takeovers among the successful logins of a chunk; unreadable ones are NaT,
  -- which `quantile` skips.
  unfoldable pub takeover_times : List RawLogin → List ℕ
  unfolding is_true
  takeover_times [] = []
  takeover_times (r ∷ rows) =
      let rest = takeover_times rows in
      if is_true r.successful && is_true r.takeover
      then add_time (to_datetime r.timestamp) rest
      else rest

  unfoldable pub all_takeover_times : List (List RawLogin) → List ℕ
  unfolding takeover_times
  all_takeover_times [] = []
  all_takeover_times (ch ∷ chunks) = takeover_times ch ++ all_takeover_times chunks

  -- `pass_a_cut`
  unfoldable pub pass_a_cut : List (List RawLogin) → Option ℕ
  unfolding all_takeover_times
  pass_a_cut chunks = quantile (all_takeover_times chunks)

  -- The loop of `pass_b_collect`: the concatenated train and test parts.
  unfoldable pub collect : Option ℕ → List (List RawLogin) → List (Login W) × List (Login W)
  unfolding prep_chunk filter_rows
  collect cut [] = ([], [])
  collect cut (ch ∷ chunks) =
      let d = prep_chunk ch in
      let (train, test) = collect cut chunks in
      (
        filter_rows (λ r. not (is_after cut r.ts)) d ++ train,
        filter_rows (λ r. is_after cut r.ts) d ++ test,
      )

  abbrev capped : ℕ → List (Login W) → List (Login W)
  capped limit neg = if ltb limit (length neg) then sample limit neg else neg

  -- `pass_b_collect`: train, its negatives capped, and test.
  unfoldable pub pass_b_collect :
      Option ℕ → ℕ → List (List RawLogin) → List (Login W) × List (Login W)
  unfolding collect filter_rows
  pass_b_collect cut train_neg_cap chunks =
      let (train, test) = collect cut chunks in
      (
        filter_rows is_positive train
            ++ capped train_neg_cap (filter_rows (λ r. not (is_positive r)) train),
        test,
      )

-- `ieee_splits` of tune.py, on the times alone: train and validation are cut from what is not after
-- the test's cut. `_ieee_data` of seed_sweep.py makes the first cut only.
pub record Splits (A : Type 0) : Type 0 where
  pub tr : List A
  pub val : List A
  pub train_all : List A
  pub test : List A

module _ {A : Type 0} (time : A → ℕ) (quantile : List ℕ → ℕ) where
  unfoldable pub ieee_data : List A → List A × List A
  unfolding filter_rows
  ieee_data rows =
      let cut = quantile (map time rows) in
      (filter_rows (λ r. leb (time r) cut) rows, filter_rows (λ r. ltb cut (time r)) rows)

  unfoldable pub ieee_splits : List A → Splits A
  unfolding filter_rows
  ieee_splits rows =
      let cut = quantile (map time rows) in
      let train_all = filter_rows (λ r. leb (time r) cut) rows in
      let vcut = quantile (map time train_all) in
      record {
        tr = filter_rows (λ r. leb (time r) vcut) train_all;
        val = filter_rows (λ r. ltb vcut (time r)) train_all;
        train_all = train_all;
        test = filter_rows (λ r. ltb cut (time r)) rows;
      }
