-- ===== src/Offline.antt =====
-- The replay of recorded logins through the features of the service: src/export_models.py, and what
-- src/dp_export.py, src/fairness_audit.py and src/coldstart_metric.py share with it. A row holds the
-- cells of the CSV file as `str(…)` shows them; pandas' reading and sorting are parameters.
pub mod Replay
pub mod DpExport
pub mod Suppression
pub mod Friction
use Prim.Native.String.{◌++◌ as append_text}
use Prim.Native.Char.{code}
use bank_of_baroda_iit_gn.Common.{
  ℕ, zero, suc, ◌+◌, String, Bool, true, false, ◌&&◌, ◌||◌, not, Option, none, some, List, [], ◌∷◌,
  ◌++◌, map, take, ltb, leb, ◌==◌, if◌then◌else◌,
}
use bank_of_baroda_iit_gn.Float.{Float}
use bank_of_baroda_iit_gn.Schemas.{Channel, EventType, IdentityEvent}
use bank_of_baroda_iit_gn.State.{IdentityState, StateStore, commit, device_add, load}
use bank_of_baroda_iit_gn.Features.{commit_features, compute_features}

pub record Row : Type 0 where
  pub user : String
  pub device_type : String
  pub browser : String
  pub os : String
  pub country : String
  -- The time of the login in seconds, if it can be read, and its hour of day.
  pub ts : Option ℕ
  pub hod : ℕ
  pub succ : Bool
  pub ato : Bool

-- The white space at which `str.split()` cuts.
unfoldable pub is_space : ℕ → Bool
is_space c =
    (leb 9 c && leb c 13)
    || (leb 28 c && leb c 32)
    || (c == 133)
    || (c == 160)
    || (c == 5760)
    || (leb 8192 c && leb c 8202)
    || (leb 8232 c && leb c 8233)
    || (c == 8239)
    || (c == 8287)
    || (c == 12288)

-- `split()[0]` from the first character of a word, and from anywhere.
unfoldable pub word : String → String
unfolding is_space
word String.[] = ""
word (String.◌∷◌ c s) = let rest = word s in if is_space (code c) then "" else String.◌∷◌ c rest

unfoldable pub first_word : String → Option String
unfolding is_space word
first_word String.[] = none
first_word (String.◌∷◌ c s) =
    let rest = first_word s in if is_space (code c) then rest else some (word (String.◌∷◌ c s))

-- `_fam`
unfoldable pub fam : String → String
unfolding first_word
fam value = elim (first_word value) [ none ↦ "unknown" | some w ↦ w ]

-- `_row_to_event`
unfoldable pub row_to_event : {W : Type 0} → Row → IdentityEvent W
unfolding fam
row_to_event r = record {
  identity_id = r.user;
  event_type = EventType.login;
  channel = Channel.internet_banking;
  device_id =
      append_text r.device_type
        (append_text "|" (append_text (fam r.browser) (append_text "|" (fam r.os))));
  geo = r.country;
  hour_of_day = r.hod;
  amount = none;
  is_new_beneficiary = false;
  recovery_contact_changed = false;
  privileged_scope = none;
  device_attestation = none;
  behavior_assertion = none;
  idempotency_key = none;
}

abbrev has_time : Option ℕ → Bool
has_time none = false
has_time (some t) = true

-- `dropna(subset=["_ts"])` and `df["_succ"] & ~df["_ato"]`
unfoldable pub is_genuine : Row → Bool
is_genuine r = has_time r.ts && r.succ && not r.ato

unfoldable pub keep : (Row → Bool) → List Row → List Row
keep p [] = []
keep p (r ∷ rs) = let rest = keep p rs in if p r then r ∷ rest else rest

-- `if limit: g = g.head(limit)`
abbrev pub head_of : {A : Type 0} → Option ℕ → List A → List A
head_of none rows = rows
head_of (some zero) rows = rows
head_of (some (suc n)) rows = take (suc n) rows

-- The genuine logins in the order of `sort_values(["User ID", "_ts"])`, cut to the limit.
unfoldable pub genuine_logins : (List Row → List Row) → Option ℕ → List Row → List Row
unfolding keep is_genuine
genuine_logins sort_values limit rows = head_of limit (sort_values (keep is_genuine rows))

module _ {W : Type 0} ⦃f : Float W⦄ where
  -- One login under the store's lock: its vector, and the store with the login folded in.
  unfoldable pub replay_login : StateStore W → Row → List W × StateStore W
  unfolding row_to_event
  replay_login store r =
      let e : IdentityEvent W = row_to_event r in
      let state = load store e.identity_id in
      let (dev, seen) = device_add store e.device_id e.identity_id in
      let (vec, counted) = compute_features e state dev none in
      let folded = commit_features counted e in
      (vec, (commit seen e.identity_id folded folded.version).1)

  -- The loop of `build_serving_vectors`.
  unfoldable pub replay : StateStore W → List Row → List (List W) × StateStore W
  unfolding replay_login
  replay store [] = ([], store)
  replay store (r ∷ rows) =
      let (vec, after) = replay_login store r in
      let (vectors, final) = replay after rows in (vec ∷ vectors, final)

  abbrev pub new_store : StateStore W
  new_store = record { records = []; device_ids = [] }

  unfoldable pub build_serving_vectors : (List Row → List Row) → Option ℕ → List Row → List (List W)
  unfolding genuine_logins replay
  build_serving_vectors sort_values limit rows =
      (replay new_store (genuine_logins sort_values limit rows)).0
