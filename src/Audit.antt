-- ===== src/Audit.antt =====
-- backend/app/audit.py: the hash chain of the audit trail. SHA-256, HMAC, `json.dumps` and the
-- decimal digits of a number are parameters. A record holds all keys of the source's dictionary;
-- `hmac` is absent where no key was set.
pub mod Chain
use Prim.Native.String.{◌++◌}
use bank_of_baroda_iit_gn.Common.{
  ℕ, ◌+◌, String, Bool, true, false, ◌&&◌, not, Option, none, some, List, [], ◌∷◌, ◌==◌, str_eq,
  zero, suc, length, drop, last_n, if◌then◌else◌,
}
use bank_of_baroda_iit_gn.Common.Int.{ℤ, pos, negsuc}
use mathlib.Core.List.{◌++◌ as append_list}
use bank_of_baroda_iit_gn.Verifier.{Bytes}

-- What is hashed: the record without `hash` and `hmac`.
pub record Body (P W : Type 0) : Type 0 where
  pub seq : ℕ
  pub ts : W
  pub payload : P
  pub prev_hash : String

pub record AuditRecord (P W : Type 0) : Type 0 where
  pub body : Body P W
  pub hash : String
  pub hmac : Option String

pub record Crypto (P W : Type 0) : Type 0 where
  -- `json.dumps(body, sort_keys=True, default=str).encode()`
  pub dumps : Body P W → Bytes
  -- `hexdigest` of SHA-256, and of HMAC-SHA256 under a key.
  pub sha256 : Bytes → String
  pub hmac_sha256 : Bytes → Bytes → String
  pub encode : String → Bytes
  -- The digits of a number in an f-string.
  pub digits : ℕ → String

pub record AuditLog (P W : Type 0) : Type 0 where
  pub records : List (AuditRecord P W)
  pub key : Option Bytes

abbrev pub genesis : String
genesis = "0000000000000000000000000000000000000000000000000000000000000000"

module _ {P W : Type 0} (crypto : Crypto P W) where
  open crypto use {dumps, sha256, hmac_sha256, encode, digits}

  -- `_hash` and `_mac`
  unfoldable pub hash_of : Body P W → String
  hash_of body = sha256 (dumps body)

  unfoldable pub mac_of : Bytes → String → String
  mac_of key record_hash = hmac_sha256 key (encode record_hash)

  -- The `hmac` that is set on a record.
  abbrev mac_or_none : Option Bytes → String → Option String
  unfolding mac_of
  mac_or_none none record_hash = none
  mac_or_none (some key) record_hash = some (mac_of key record_hash)

  -- `self.records[-1]["hash"] if self.records else self.GENESIS`, from the hash before the records.
  abbrev pub head_from : String → List (AuditRecord P W) → String
  head_from prev [] = prev
  head_from prev (r ∷ rs) = head_from r.hash rs

  -- The record that `append` adds at the time `now`.
  unfoldable pub new_record : AuditLog P W → P → W → AuditRecord P W
  unfolding hash_of mac_of
  new_record log payload now =
      let body : Body P W = record {
        seq = length log.records;
        ts = now;
        payload = payload;
        prev_hash = head_from genesis log.records;
      } in
      record { body = body; hash = hash_of body; hmac = mac_or_none log.key (hash_of body) }

  unfoldable pub append : AuditLog P W → P → W → AuditRecord P W × AuditLog P W
  unfolding new_record
  append log payload now =
      let r = new_record log payload now in
      (r, record log { records = append_list log.records (r ∷ []) })

  -- `r.get("hmac", "")`
  abbrev pub text_or_empty : Option String → String
  text_or_empty none = ""
  text_or_empty (some t) = t

  abbrev mac_fits : Option Bytes → AuditRecord P W → Bool
  unfolding mac_of
  mac_fits none r = true
  mac_fits (some key) r = str_eq (mac_of key r.hash) (text_or_empty r.hmac)

  -- The checks of one turn of the loop of `verify_chain`.
  unfoldable pub fits : Option Bytes → ℕ → String → AuditRecord P W → Bool
  unfolding hash_of mac_of
  fits key idx prev r =
      (r.body.seq == idx)
      && str_eq r.body.prev_hash prev
      && str_eq (hash_of r.body) r.hash
      && mac_fits key r

  -- The loop of `verify_chain` from an index and a previous hash.
  unfoldable pub verify_from : Option Bytes → ℕ → String → List (AuditRecord P W) → Bool
  unfolding fits
  verify_from key idx prev [] = true
  verify_from key idx prev (r ∷ rs) = fits key idx prev r && verify_from key (idx + 1) r.hash rs

  unfoldable pub verify_chain : AuditLog P W → Bool
  unfolding verify_from
  verify_chain log = verify_from log.key 0 genesis log.records

  abbrev signed_checkpoint : Option Bytes → String → String
  signed_checkpoint none body = body
  signed_checkpoint (some key) body = body ++ "|" ++ hmac_sha256 key (encode body)

  unfoldable pub head_checkpoint : AuditLog P W → String
  head_checkpoint log =
      signed_checkpoint log.key
        (digits (length log.records) ++ "|" ++ head_from genesis log.records)

  unfoldable pub verify_against_checkpoint : AuditLog P W → String → Bool
  unfolding verify_chain head_checkpoint
  verify_against_checkpoint log expected = verify_chain log && str_eq (head_checkpoint log) expected

-- `tail`: the slice `records[-n:]`, which is everything at 0, and drops from the front below 0.
unfoldable pub tail : {P W : Type 0} → AuditLog P W → ℤ → List (AuditRecord P W)
tail log (pos zero) = log.records
tail log (pos n) = last_n n log.records
tail log (negsuc n) = drop (suc n) log.records
