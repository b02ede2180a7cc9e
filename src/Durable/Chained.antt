-- ===== src/Durable/Chained.antt =====
-- The audit table of backend/app/stores.py does what the chain in memory of backend/app/audit.py
-- does, as long as it is intact and its column gives back the payloads.
use bank_of_baroda_iit_gn.Common.{
  ℕ, ◌+◌, String, ◌≡◌, ◌∙◌, sym, ap, refl, true, some, List, [], ◌∷◌, arith, length, get_last?,
}
use bank_of_baroda_iit_gn.Audit.{
  AuditLog, AuditRecord, Crypto, append, fits, genesis, head_checkpoint, head_from, new_record,
  verify_chain, verify_from,
}
use bank_of_baroda_iit_gn.Audit.Chain.{append_keeps_verdict}
use bank_of_baroda_iit_gn.Durable.AuditTable.{
  Table, append_row, checkpoint_rows, last_hash, next_seq, verify_rows, verify_rows_from,
}

module _ {P W : Type 0} (crypto : Crypto P W) (table : Table P) where
  -- The table as a chain in memory.
  abbrev pub log_of : List (AuditRecord P W) → AuditLog P W
  log_of rows = record { records = rows; key = some table.key }

  last_hash-lem :
      (prev : String) (r : AuditRecord P W) (rows : List (AuditRecord P W))
      → last_hash crypto table (get_last? (r ∷ rows)) ≡ head_from crypto prev (r ∷ rows)
  last_hash-lem prev r [] = refl
  last_hash-lem prev r (q ∷ rows) = last_hash-lem r.hash q rows

  next_seq-lem :
      (idx : ℕ) (prev : String) (r : AuditRecord P W) (rows : List (AuditRecord P W))
      → verify_from crypto (some table.key) idx prev (r ∷ rows) ≡ true
      → next_seq crypto table (get_last? (r ∷ rows)) ≡ idx + length (r ∷ rows)
  unfolding verify_from fits
  next_seq-lem idx prev r [] h = ground arith
  next_seq-lem idx prev r (q ∷ rows) h = ground (arith, next_seq-lem (idx + 1) r.hash q rows)

  rows_verdict :
      (idx : ℕ) (prev : String) (rows : List (AuditRecord P W))
      → verify_rows_from crypto table idx prev rows
        ≡ verify_from crypto (some table.key) idx prev rows
  unfolding verify_rows_from verify_from fits
  rows_verdict idx prev [] = refl
  rows_verdict idx prev (r ∷ rows) = ground (arith, rows_verdict (idx + 1) r.hash rows)

  -- The verdict on the table is that on the chain in memory that holds the rows as they are read.
  pub verdict :
      (rows : List (AuditRecord P W))
      → verify_rows crypto table rows ≡ verify_chain crypto (log_of rows)
  unfolding verify_rows verify_chain
  verdict rows = rows_verdict 0 genesis rows

  appended :
      (rows : List (AuditRecord P W)) (payload : P) (now : W)
      → table.jsonb payload ≡ payload
      → verify_chain crypto (log_of rows) ≡ true
      → append_row crypto table payload now rows ≡ (
        (append crypto (log_of rows) payload now).0,
        (append crypto (log_of rows) payload now).1.records,
      )
  unfolding append_row append new_record verify_chain
  appended [] payload now kept h = rw kept
  appended (r ∷ rows) payload now kept h =
      let seq : next_seq crypto table (get_last? (r ∷ rows)) ≡ length (r ∷ rows) =
        omega (arith, next_seq-lem 0 genesis r rows h) in
      rw (last_hash-lem genesis r rows, seq, kept)

  checkpointed :
      (rows : List (AuditRecord P W))
      → checkpoint_rows crypto table rows ≡ head_checkpoint crypto (log_of rows)
  unfolding checkpoint_rows head_checkpoint
  checkpointed [] = refl
  checkpointed (r ∷ rows) = rw (last_hash-lem genesis r rows)

  -- On an intact table, and if the column gives back the payload, append adds the very record that
  -- the chain in memory would add, and leaves the table intact; verdict and checkpoint are those of
  -- the chain in memory of the rows as they are read.
  pub table_refines_log :
      (rows : List (AuditRecord P W)) (payload : P) (now : W)
      → table.jsonb payload ≡ payload
      → verify_rows crypto table rows ≡ true
      → (append_row crypto table payload now rows ≡ (
        (append crypto (log_of rows) payload now).0,
        (append crypto (log_of rows) payload now).1.records,
      ))
        × (verify_rows crypto table (append_row crypto table payload now rows).1 ≡ true)
        × (verify_rows crypto table rows ≡ verify_chain crypto (log_of rows))
        × (checkpoint_rows crypto table rows ≡ head_checkpoint crypto (log_of rows))
  unfolding append
  table_refines_log rows payload now kept h =
      let valid = sym (verdict rows) ∙ h in
      let same = appended rows payload now kept valid in
      (
        same,
        verdict (append_row crypto table payload now rows).1
            ∙ ap
                (λ (p : AuditRecord P W × List (AuditRecord P W)). verify_chain crypto (log_of p.1))
                same
            ∙ append_keeps_verdict crypto (log_of rows) payload now
            ∙ valid,
        verdict rows,
        checkpointed rows,
      )
