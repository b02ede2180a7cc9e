-- ===== src/State/Json.antt =====
-- `to_json` and `from_json` of `IdentityState` in backend/app/state_store.py. The text of JSON is a
-- parameter: here a state is the dictionary that `json.dumps` is given and that `json.loads` returns.
pub mod RoundTrip
use bank_of_baroda_iit_gn.Common.{
  ℕ, String, Bool, true, false, ◌&&◌, Option, none, some, List, [], ◌∷◌, map, Result, ok, err,
  ◌>>=◌, ◌>>◌, guard, if◌then◌else◌,
}
use bank_of_baroda_iit_gn.Common.Int.{ℤ, pos, negsuc}
use bank_of_baroda_iit_gn.Common.Dict.{Dict, lookup, contains, add}
use bank_of_baroda_iit_gn.Float.{Float}
use bank_of_baroda_iit_gn.State.{IdentityState, new_state}
use bank_of_baroda_iit_gn.Explain.{sort_desc, text_lt}

pub data Scalar (W : Type 0) : Type 0 where
  integer : ℤ → Scalar W
  real : W → Scalar W
  boolean : Bool → Scalar W
  text : String → Scalar W
  null : Scalar W

-- `nested` is an object, or an array that holds an array or an object.
pub data Value (W : Type 0) : Type 0 where
  scalar : Scalar W → Value W
  array : List (Scalar W) → Value W
  nested : Value W

abbrev pub StateDict : Type 0 → Type 0
StateDict W = Dict (Value W)

-- `from_json` raises, or a value is not of its field's type. Python keeps such a value as it is, or
-- raises where it is to be a set: the model's states do not hold it.
pub data Unread : Type 0 where
  raises other_type : Unread

-- `sorted` of a set of texts.
unfoldable pub sorted : List String → List String
unfolding sort_desc text_lt
sorted xs = sort_desc (λ a b. text_lt b a) xs

-- `set` of a list, and of the characters of a text.
unfoldable pub set_of : List String → List String
unfolding add
set_of [] = []
set_of (x ∷ xs) = add x (set_of xs)

abbrev characters : String → List String
characters String.[] = []
characters (String.◌∷◌ c s) = String.◌∷◌ c String.[] ∷ characters s

module _ {W : Type 0} where
  -- The dictionary that `to_json` hands to `json.dumps`.
  unfoldable pub to_dict : IdentityState W → StateDict W
  unfolding sorted
  to_dict s =
      ("trust", scalar (integer s.trust))
      ∷ ("devices", array (map text (sorted s.devices)))
      ∷ ("geos", array (map text (sorted s.geos)))
      ∷ ("hours", array (map (λ h. integer (pos h)) s.hours))
      ∷ ("amounts", array (map real s.amounts))
      ∷ ("event_count", scalar (integer (pos s.event_count)))
      ∷ ("burst", scalar (real s.burst))
      ∷ ("last_event_ts", scalar (real s.last_event_ts))
      ∷ ("recovered_in_window", scalar (integer s.recovered_in_window))
      ∷ ("recovery_window_start", scalar (real s.recovery_window_start))
      ∷ ("risk_window", array (map real s.risk_window))
      ∷ ("risk_ewma", scalar (real s.risk_ewma))
      ∷ ("cusum", scalar (real s.cusum))
      ∷ ("under_review", scalar (boolean s.under_review))
      ∷ ("cold_prior_used", scalar (boolean s.cold_prior_used))
      ∷ ("last_geo", scalar (text s.last_geo))
      ∷ ("last_geo_ts", scalar (real s.last_geo_ts))
      ∷ ("version", scalar (integer (pos s.version)))
      ∷ []

  -- The values of the types that the fields have.
  abbrev an_integer : Scalar W → Result Unread ℤ
  an_integer (integer z) = ok z
  an_integer _ = err other_type

  abbrev pub a_natural : Scalar W → Result Unread ℕ
  a_natural (integer (pos n)) = ok n
  a_natural _ = err other_type

  abbrev pub a_real : Scalar W → Result Unread W
  a_real (real x) = ok x
  a_real _ = err other_type

  abbrev a_boolean : Scalar W → Result Unread Bool
  a_boolean (boolean b) = ok b
  a_boolean _ = err other_type

  abbrev pub a_text : Scalar W → Result Unread String
  a_text (text s) = ok s
  a_text _ = err other_type

  abbrev pub each :
      {A : Type 0} → (Scalar W → Result Unread A) → List (Scalar W) → Result Unread (List A)
  each read [] = ok []
  each read (v ∷ vs) = read v >>= λ a. each read vs >>= λ more. ok (a ∷ more)

  -- A field: its default where the key is missing.
  abbrev one : {A : Type 0} → (Scalar W → Result Unread A) → A → Option (Value W) → Result Unread A
  one read default none = ok default
  one read default (some (scalar v)) = read v
  one read default (some _) = err other_type

  abbrev many :
      {A : Type 0} → (Scalar W → Result Unread A) → Option (Value W) → Result Unread (List A)
  many read none = ok []
  many read (some (array vs)) = each read vs
  many read (some _) = err other_type

  -- `set(d.get(key, []))`, which raises at a value that is not iterable.
  abbrev a_set : Option (Value W) → Result Unread (List String)
  unfolding set_of
  a_set none = ok []
  a_set (some (array vs)) = each a_text vs >>= λ xs. ok (set_of xs)
  a_set (some (scalar (text s))) = ok (set_of (characters s))
  a_set (some (scalar _)) = err raises
  a_set (some nested) = err other_type

-- The fields of `IdentityState`.
abbrev field_names : List String
field_names =
    "trust" ∷ "devices" ∷ "geos" ∷ "hours" ∷ "amounts" ∷ "event_count" ∷ "burst" ∷ "last_event_ts"
    ∷ "recovered_in_window" ∷ "recovery_window_start" ∷ "risk_window" ∷ "risk_ewma" ∷ "cusum"
    ∷ "under_review" ∷ "cold_prior_used" ∷ "last_geo" ∷ "last_geo_ts" ∷ "version" ∷ []

-- Whether `cls(**d)` knows every keyword.
abbrev all_known : {V : Type 0} → Dict V → Bool
unfolding contains
all_known [] = true
all_known ((k, v) ∷ d) = contains k field_names && all_known d

module _ {W : Type 0} ⦃f : Float W⦄ where
  abbrev blank : IdentityState W
  blank = new_state

  -- `from_json`, from the dictionary that `json.loads` returned.
  unfoldable pub from_dict : StateDict W → Result Unread (IdentityState W)
  unfolding lookup contains set_of
  from_dict d = do
    guard (all_known d) raises
    devices ← a_set (lookup "devices" d)
    geos ← a_set (lookup "geos" d)
    trust ← one an_integer blank.trust (lookup "trust" d)
    hours ← many a_natural (lookup "hours" d)
    amounts ← many a_real (lookup "amounts" d)
    event_count ← one a_natural 0 (lookup "event_count" d)
    burst ← one a_real blank.burst (lookup "burst" d)
    last_event_ts ← one a_real blank.last_event_ts (lookup "last_event_ts" d)
    recovered ← one an_integer (pos 0) (lookup "recovered_in_window" d)
    started ← one a_real blank.recovery_window_start (lookup "recovery_window_start" d)
    risk_window ← many a_real (lookup "risk_window" d)
    risk_ewma ← one a_real blank.risk_ewma (lookup "risk_ewma" d)
    cusum ← one a_real blank.cusum (lookup "cusum" d)
    under_review ← one a_boolean false (lookup "under_review" d)
    cold_prior_used ← one a_boolean false (lookup "cold_prior_used" d)
    last_geo ← one a_text "" (lookup "last_geo" d)
    last_geo_ts ← one a_real blank.last_geo_ts (lookup "last_geo_ts" d)
    version ← one a_natural 0 (lookup "version" d)
    ok (record {
      trust = trust;
      devices = devices;
      geos = geos;
      hours = hours;
      amounts = amounts;
      event_count = event_count;
      burst = burst;
      last_event_ts = last_event_ts;
      recovered_in_window = recovered;
      recovery_window_start = started;
      risk_window = risk_window;
      risk_ewma = risk_ewma;
      cusum = cusum;
      under_review = under_review;
      cold_prior_used = cold_prior_used;
      last_geo = last_geo;
      last_geo_ts = last_geo_ts;
      version = version;
    })
