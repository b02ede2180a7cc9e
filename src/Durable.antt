-- ===== src/Durable.antt =====
-- backend/app/stores.py: the vault and the sink of decisions as tables of Postgres. A call is one
-- transaction. A table is a dictionary by its primary key.
pub mod Refines
pub mod Races
pub mod Redis
pub mod AuditTable
pub mod Chained
use bank_of_baroda_iit_gn.Common.{
  String, Bool, true, false, Option, none, some, List, Result, ok, err, ◌>>=◌, or_raise, is_empty,
  is_some, if◌then◌else◌,
}
use bank_of_baroda_iit_gn.Common.Dict.{Dict, lookup, insert}
use bank_of_baroda_iit_gn.Verifier.{Bytes}
use bank_of_baroda_iit_gn.Keystore.{Failure, Vault}

-- A row of `pii_vault`; `none` is NULL.
pub record Row : Type 0 where
  pub ciphertext : Option Bytes
  pub fkey : Option Bytes
  pub tombstoned : Bool

abbrev set_key : Option Bytes → Option Bytes
set_key none = none
set_key (some k) = if is_empty k then none else some k

-- The key of a selected row that is there and not empty, its flag, and its ciphertext.
abbrev pub key_at : Option Row → Option Bytes
key_at none = none
key_at (some r) = set_key r.fkey

abbrev pub tombstoned_at : Option Row → Bool
tombstoned_at none = false
tombstoned_at (some r) = r.tombstoned

abbrev pub ciphertext_at : Option Row → Option Bytes
ciphertext_at none = none
ciphertext_at (some r) = r.ciphertext

-- `fkey IS NOT NULL`
abbrev pub has_key : Option Row → Bool
has_key none = false
has_key (some r) = is_some r.fkey

abbrev pub or_generated : Option Bytes → Bytes → Bytes
or_generated none generated = generated
or_generated (some k) generated = k

module _ {M : Type 0} (vault : Vault M) where
  open vault use {encrypt, decrypt, dumps, loads, ref_of}

  -- `INSERT … ON CONFLICT DO UPDATE` of ciphertext and key; a new row is not tombstoned.
  abbrev write_row : String → M → Bytes → Dict Row → Result Failure String × Dict Row
  write_row identity_id material key rows =
      let token = encrypt key (dumps material) in
      (
        ok (ref_of token),
        insert identity_id
            (record {
              ciphertext = some token;
              fkey = some key;
              tombstoned = tombstoned_at (lookup identity_id rows);
            })
            rows,
      )

  -- `PostgresPiiVault.put`
  unfoldable pub put_row : String → M → Bytes → Dict Row → Result Failure String × Dict Row
  put_row identity_id material generated rows =
      let row = lookup identity_id rows in
      if tombstoned_at row
      then (err Failure.erased, rows)
      else write_row identity_id material (or_generated (key_at row) generated) rows

  -- `PostgresPiiVault.get`; `bytes(None)` raises where there is no ciphertext.
  unfoldable pub get_row : String → Dict Row → Result Failure M
  get_row identity_id rows = do
    let row = lookup identity_id rows
    key ← or_raise (key_at row) Failure.erased
    token ← or_raise (ciphertext_at row) Failure.key_error
    plain ← or_raise (decrypt key token) Failure.unreadable
    or_raise (loads plain) Failure.unreadable

-- `PostgresPiiVault.erase` and `is_erased`
unfoldable pub erase_row : String → Dict Row → Bool × Dict Row
erase_row identity_id rows =
    let row = lookup identity_id rows in
    (
      has_key row,
      insert identity_id (record { ciphertext = ciphertext_at row; fkey = none; tombstoned = true })
          rows,
    )

unfoldable pub is_erased_row : String → Dict Row → Bool
is_erased_row identity_id rows = tombstoned_at (lookup identity_id rows)

-- `PostgresDecisionStore`: the first decision of an event stays.
pub record DecisionRow (B W : Type 0) : Type 0 where
  pub identity_id : String
  pub decision : String
  pub body : B
  pub ts : W

module _ {B W : Type 0} where
  unfoldable pub put_decision :
      String → String → String → B → W → Dict (DecisionRow B W) → Dict (DecisionRow B W)
  put_decision event_id identity_id decision body now rows =
      if is_some (lookup event_id rows)
      then rows
      else insert event_id
          (record { identity_id = identity_id; decision = decision; body = body; ts = now }) rows

  abbrev body_of : Option (DecisionRow B W) → Option B
  body_of none = none
  body_of (some r) = some r.body

  unfoldable pub get_decision : String → Dict (DecisionRow B W) → Option B
  get_decision event_id rows = body_of (lookup event_id rows)
