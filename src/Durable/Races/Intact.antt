-- ===== src/Durable/Races/Intact.antt =====
-- Appends that race on the audit table leave it one intact chain.
use mathlib.Core.List.{◌++◌ as append_list, append_assoc, append-nil}
use bank_of_baroda_iit_gn.Common.{
  ℕ, ◌+◌, ◌≤◌, ◌<◌, String, ◌≡◌, ◌∙◌, sym, ap, refl, true, none, some, List, [], ◌∷◌, ◌⊎◌, length,
  length-append, arith, All, ◌==◌, Bool-cases, inl, inr, Option-cases,
}
use bank_of_baroda_iit_gn.Audit.{
  AuditRecord, Crypto, append, fits, genesis, new_record, verify_chain, verify_from,
}
use bank_of_baroda_iit_gn.Durable.AuditTable.{Table, append_row, stored, verify_rows}
use bank_of_baroda_iit_gn.Durable.Chained.{table_refines_log, verdict}
use bank_of_baroda_iit_gn.Durable.Races.{
  RaceMove, Racing, build, has_seq, insert, insert_by_seq, insert_row, race, race_step,
}

module _ {P W : Type 0} (crypto : Crypto P W) (table : Table P) where
  insert_by_seq-last :
      (idx : ℕ) (prev : String) (r : AuditRecord P W) (rows : List (AuditRecord P W))
      → verify_from crypto (some table.key) idx prev rows ≡ true
      → idx + length rows ≤ r.body.seq
      → insert_by_seq r rows ≡ append_list rows (r ∷ [])
  unfolding insert_by_seq verify_from fits
  insert_by_seq-last idx prev r [] h late = refl
  insert_by_seq-last idx prev r (q ∷ rows) h late =
      ground (arith, h, late, insert_by_seq-last (idx + 1) q.hash r rows)

  has_seq-present :
      (idx n : ℕ) (prev : String) (rows : List (AuditRecord P W))
      → verify_from crypto (some table.key) idx prev rows ≡ true
      → idx ≤ n
      → n < idx + length rows
      → has_seq n rows ≡ true
  unfolding has_seq verify_from fits
  has_seq-present idx n prev [] h low high = absurd (omega arith)
  has_seq-present idx n prev (q ∷ rows) h low high =
      ground (arith, h, low, high, has_seq-present (idx + 1) n q.hash rows)

  valid :
      (rows : List (AuditRecord P W))
      → verify_rows crypto table rows ≡ true
      → verify_from crypto (some table.key) 0 genesis rows ≡ true
  unfolding verify_chain
  valid rows h = sym (verdict crypto table rows) ∙ h

  -- A row that was built from the table or a shorter one: it continues the table, if its number is
  -- the next one.
  record IsBuilt (r : AuditRecord P W) (rows : List (AuditRecord P W)) : Type 0 where
    number : r.body.seq ≤ length rows
    continues :
        r.body.seq ≡ length rows → verify_rows crypto table (append_list rows (r ∷ [])) ≡ true

  insert_row-cases :
      (r : AuditRecord P W) (rows : List (AuditRecord P W))
      → verify_rows crypto table rows ≡ true
      → IsBuilt r rows
      → ((insert_row r rows).1 ≡ rows)
        ⊎ (((insert_row r rows).1 ≡ append_list rows (r ∷ []))
            × (verify_rows crypto table (append_list rows (r ∷ [])) ≡ true))
  unfolding insert_row
  insert_row-cases r rows h b = elim (Bool-cases (has_seq r.body.seq rows)) [
    | inl there ↦ inl (rw there refl)
    | inr absent ↦
        let last : r.body.seq ≡ length rows =
          ground
            (arith, b.number, absent, has_seq-present 0 r.body.seq genesis rows (valid rows h)) in
        inr (
          rw absent (insert_by_seq-last 0 genesis r rows (valid rows h) (omega (arith, last))),
          b.continues last,
        )
  ]

  append_row-IsBuilt :
      (payload : P) (now : W) (rows : List (AuditRecord P W))
      → table.jsonb payload ≡ payload
      → verify_rows crypto table rows ≡ true
      → IsBuilt (stored crypto table (append_row crypto table payload now rows).0) rows
  unfolding append new_record
  append_row-IsBuilt payload now rows kept h =
      let (same, intact, _, _) = table_refines_log crypto table rows payload now kept h in
      let seq : (append_row crypto table payload now rows).0.body.seq ≡ length rows =
        ap (λ (p : AuditRecord P W × List (AuditRecord P W)). p.0.body.seq) same in
      record { number = omega (arith, seq); continues = λ e. unfold append_row in intact }

  -- The table is intact and begins with the first rows, and what is built was built from it.
  record IsSerial (first : List (AuditRecord P W)) (s : Racing P W) : Type 0 where
    intact : verify_rows crypto table s.rows ≡ true
    more : List (AuditRecord P W)
    grown : s.rows ≡ append_list first more
    pending :
        (c : ℕ) (r : AuditRecord P W) → s.built c ≡ some r → IsBuilt (stored crypto table r) s.rows

  IsBuilt-grown :
      (r q : AuditRecord P W) (rows : List (AuditRecord P W))
      → IsBuilt r rows
      → IsBuilt r (append_list rows (q ∷ []))
  IsBuilt-grown r q rows b =
      let longer = length-append rows (q ∷ []) in
      record {
        number = omega (arith, b.number, longer);
        continues = λ e. absurd (omega (arith, b.number, longer, e));
      }

  insert-IsSerial :
      (first : List (AuditRecord P W)) (s : Racing P W) (r : AuditRecord P W)
      → IsBuilt r s.rows
      → IsSerial first s
      → IsSerial first (record s { rows = (insert_row r s.rows).1 })
  insert-IsSerial first s r b inv = elim (insert_row-cases r s.rows inv.intact b) [
    | inl refused ↦ rw refused inv
    | inr (added, still) ↦ rw added (record {
      intact = still;
      more = append_list inv.more (r ∷ []);
      grown =
          ap (λ rows. append_list rows (r ∷ [])) inv.grown ∙ append_assoc first inv.more (r ∷ []);
      pending = λ d q e. IsBuilt-grown (stored crypto table q) r s.rows (inv.pending d q e);
    })
  ]

  -- The column gives back the payload of a row that is built.
  abbrev pub IsKept : RaceMove P W → Type 0
  IsKept (build c payload now) = table.jsonb payload ≡ payload
  IsKept (insert c) = Unit

  race_step-IsSerial :
      (first : List (AuditRecord P W)) (s : Racing P W) (m : RaceMove P W)
      → IsKept m
      → IsSerial first s
      → IsSerial first (race_step crypto table s m)
  race_step-IsSerial first s (build c payload now) kept inv = record {
    intact = inv.intact;
    more = inv.more;
    grown = inv.grown;
    pending = λ d q e. elim (Bool-cases (c == d)) [
      | inl same ↦
          let mine : some (append_row crypto table payload now s.rows).0 ≡ some q = rw same at e in
          ground (arith, mine, append_row-IsBuilt payload now s.rows kept inv.intact)
      | inr other ↦ let old : s.built d ≡ some q = rw other at e in inv.pending d q old
    ];
  }
  race_step-IsSerial first s (insert c) kept inv = elim (Option-cases (s.built c)) [
    | inl nothing ↦ rw nothing inv
    | inr (r, found) ↦
        rw found (insert-IsSerial first s (stored crypto table r) (inv.pending c r found) inv)
  ]

  race-IsSerial :
      (first : List (AuditRecord P W)) (s : Racing P W) (ms : List (RaceMove P W))
      → All IsKept ms
      → IsSerial first s
      → IsSerial first (race crypto table s ms)
  unfolding race
  race-IsSerial first s [] kept inv = inv
  race-IsSerial first s (m ∷ ms) (kept, all) inv =
      race-IsSerial first (race_step crypto table s m) ms all
        (race_step-IsSerial first s m kept inv)

  -- From an intact table, whatever appends race on it and in whatever order their reads and inserts
  -- come, the table stays intact, and keeps the rows it had, in front of the new ones, if the column
  -- gives back the payloads that are appended.
  pub race_keeps_chain :
      (s : Racing P W) (ms : List (RaceMove P W))
      → All IsKept ms
      → verify_rows crypto table s.rows ≡ true
      → ((c : ℕ) → s.built c ≡ none)
      → (verify_rows crypto table (race crypto table s ms).rows ≡ true)
        × ((more : List (AuditRecord P W)) × ((race crypto table s ms).rows
              ≡ append_list s.rows more))
  race_keeps_chain s ms kept h quiet =
      let start : IsSerial s.rows s = record {
        intact = h;
        more = [];
        grown = sym (append-nil s.rows);
        pending = λ c r e. cc (quiet c, e);
      } in
      let after = race-IsSerial s.rows s ms kept start in (after.intact, (after.more, after.grown))
