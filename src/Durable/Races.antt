-- ===== src/Durable/Races.antt =====
-- Clients of the audit table of backend/app/stores.py that append at once: each reads the last row and
-- builds its own, and inserts it later. The primary key of the table refuses a number that is there.
pub mod Intact
use bank_of_baroda_iit_gn.Common.{
  ℕ, Bool, true, false, ◌||◌, Option, none, some, List, [], ◌∷◌, ◌==◌, ltb, if◌then◌else◌,
}
use bank_of_baroda_iit_gn.Audit.{AuditRecord, Crypto}
use bank_of_baroda_iit_gn.Durable.AuditTable.{Table, append_row, stored}

module _ {P W : Type 0} where
  -- Whether a row with this number is there.
  unfoldable pub has_seq : ℕ → List (AuditRecord P W) → Bool
  has_seq n [] = false
  has_seq n (r ∷ rows) = (r.body.seq == n) || has_seq n rows

  -- A row at its place in the order of the numbers.
  unfoldable pub insert_by_seq : AuditRecord P W → List (AuditRecord P W) → List (AuditRecord P W)
  insert_by_seq r [] = r ∷ []
  insert_by_seq r (q ∷ rows) =
      let rest = insert_by_seq r rows in
      if ltb r.body.seq q.body.seq then r ∷ q ∷ rows else q ∷ rest

  -- The INSERT of `append`: whether it succeeds, and the rows after it.
  unfoldable pub insert_row :
      AuditRecord P W → List (AuditRecord P W) → Bool × List (AuditRecord P W)
  unfolding has_seq insert_by_seq
  insert_row r rows =
      if has_seq r.body.seq rows then (false, rows) else (true, insert_by_seq r rows)

pub record Racing (P W : Type 0) : Type 0 where
  pub rows : List (AuditRecord P W)
  -- The row that a client has built, from its SELECT on.
  pub built : ℕ → Option (AuditRecord P W)

-- A client reads the last row and builds its own, or inserts what it has built.
pub data RaceMove (P W : Type 0) : Type 0 where
  build : ℕ → P → W → RaceMove P W
  insert : ℕ → RaceMove P W

module _ {P W : Type 0} (crypto : Crypto P W) (table : Table P) where
  abbrev pub inserted : Option (AuditRecord P W) → List (AuditRecord P W) → List (AuditRecord P W)
  inserted none rows = rows
  inserted (some r) rows = (insert_row (stored crypto table r) rows).1

  abbrev pub race_step : Racing P W → RaceMove P W → Racing P W
  race_step s (build c payload now) = record s {
    built = λ d. if c == d then some (append_row crypto table payload now s.rows).0 else s.built d;
  }
  race_step s (insert c) = record s { rows = inserted (s.built c) s.rows }

  unfoldable pub race : Racing P W → List (RaceMove P W) → Racing P W
  race s [] = s
  race s (m ∷ ms) = race (race_step s m) ms
