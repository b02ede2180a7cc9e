-- ===== src/Durable/AuditTable.antt =====
-- `PostgresAuditStore` of backend/app/stores.py: the audit chain as a table, its rows in the order
-- of `seq`. A call is one transaction, and no other client appends meanwhile. The column of the
-- payloads has the type JSONB, which need not give back the JSON that was written.
use Prim.Native.String.{◌++◌}
use mathlib.Core.List.{◌++◌ as append_list}
use bank_of_baroda_iit_gn.Common.{
  ℕ, ◌+◌, String, Bool, true, false, ◌||◌, not, Option, none, some, List, [], ◌∷◌, length, last_n,
  get_last?, ◌==◌, str_eq, if◌then◌else◌,
}
use bank_of_baroda_iit_gn.Verifier.{Bytes}
use bank_of_baroda_iit_gn.Audit.{AuditRecord, Body, Crypto, genesis, hash_of, mac_of}

-- The signing key, and the payload that is read from the column after one was written to it: Postgres
-- writes -0.0 as 0.0, for example, and keeps the last of two equal keys.
pub record Table (P : Type 0) : Type 0 where
  pub key : Bytes
  pub jsonb : P → P

module _ {P W : Type 0} (crypto : Crypto P W) (table : Table P) where
  -- `(row[0] + 1) if row else 0` and `row[1] if row else GENESIS`
  abbrev pub next_seq : Option (AuditRecord P W) → ℕ
  next_seq none = 0
  next_seq (some r) = r.body.seq + 1

  abbrev pub last_hash : Option (AuditRecord P W) → String
  last_hash none = genesis
  last_hash (some r) = r.hash

  -- The row as the table holds it.
  abbrev pub stored : AuditRecord P W → AuditRecord P W
  stored r = record r { body = record r.body { payload = table.jsonb r.body.payload } }

  -- `append`: what it returns, and the rows after it.
  unfoldable pub append_row :
      P → W → List (AuditRecord P W) → AuditRecord P W × List (AuditRecord P W)
  append_row payload now rows =
      let body : Body P W = record {
        seq = next_seq (get_last? rows);
        ts = now;
        payload = payload;
        prev_hash = last_hash (get_last? rows);
      } in
      let h = hash_of crypto body in
      let r : AuditRecord P W = record {
        body = body;
        hash = h;
        hmac = some (mac_of crypto table.key h);
      } in
      (r, append_list rows (stored r ∷ []))

  abbrev tag_of : Option String → String
  tag_of none = ""
  tag_of (some t) = t

  -- The loop of `verify_chain`, which hashes the rows as it reads them.
  unfoldable pub verify_rows_from : ℕ → String → List (AuditRecord P W) → Bool
  verify_rows_from idx prev [] = true
  verify_rows_from idx prev (r ∷ rows) =
      let rest = verify_rows_from (idx + 1) r.hash rows in
      if not (r.body.seq == idx) || not (str_eq r.body.prev_hash prev)
      then false
      else if not (str_eq (hash_of crypto r.body) r.hash)
          || not (str_eq (mac_of crypto table.key r.hash) (tag_of r.hmac))
      then false
      else rest

  -- `verify_chain`
  unfoldable pub verify_rows : List (AuditRecord P W) → Bool
  unfolding verify_rows_from
  verify_rows rows = verify_rows_from 0 genesis rows

  unfoldable pub checkpoint_rows : List (AuditRecord P W) → String
  checkpoint_rows rows =
      let body = crypto.digits (length rows) ++ "|" ++ last_hash (get_last? rows) in
      body ++ "|" ++ crypto.hmac_sha256 table.key (crypto.encode body)

-- `tail` and `count`
unfoldable pub tail_rows : {P W : Type 0} → ℕ → List (AuditRecord P W) → List (AuditRecord P W)
tail_rows n rows = last_n n rows

abbrev pub count_rows : {P W : Type 0} → List (AuditRecord P W) → ℕ
count_rows rows = length rows
