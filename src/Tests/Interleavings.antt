-- ===== src/Tests/Interleavings.antt =====
-- Clients that interleave: on the locks of the store, and on the audit table.
use mathlib.Core.List.{◌++◌ as append_list}
use bank_of_baroda_iit_gn.Common.{ℕ, ◌≡◌, refl, true, none, List, [], ◌∷◌}
use bank_of_baroda_iit_gn.Common.Int.{pos}
use bank_of_baroda_iit_gn.Common.Dict.{insert, lookup}
use bank_of_baroda_iit_gn.Float.Fixed.{Fixed, fixed_float}
use bank_of_baroda_iit_gn.State.{StateStore, commit, load}
use bank_of_baroda_iit_gn.State.Locks.{
  LockedWorld, Reach, acquire, enter, key_lock, later, read, start,
}
use bank_of_baroda_iit_gn.State.Locks.Exclusion.{locked_commit_succeeds}
use bank_of_baroda_iit_gn.Audit.{AuditRecord, Crypto}
use bank_of_baroda_iit_gn.Durable.AuditTable.{Table, verify_rows}
use bank_of_baroda_iit_gn.Durable.Races.{RaceMove, Racing, race}
use bank_of_baroda_iit_gn.Durable.Races.Intact.{race_keeps_chain}
use bank_of_baroda_iit_gn.Tests.Data.{known_state}

abbrev store : StateStore Fixed
store = record { records = ("asha", known_state) ∷ []; device_ids = [] }

-- A client has loaded the state of asha while another is in the body for ravi.
contended : (w : LockedWorld Fixed) × Reach store w
unfolding acquire key_lock lookup insert
contended = (
  _,
  later (later (later start (enter 1 "asha" _ refl refl)) (enter 2 "ravi" _ refl refl))
      (read 1 "asha" refl),
)

locked_commit_succeeds_example :
    (◌≡◌ {A = ℕ} 1 1)
    × (known_state ≡ load contended.0.store "asha")
    × ((commit contended.0.store "asha" (record known_state { trust = pos 300 }) 2).0 ≡ true)
unfolding contended acquire key_lock load lookup insert
locked_commit_succeeds_example =
    locked_commit_succeeds contended.1 1 1 "asha" known_state
      (record known_state { trust = pos 300 }) refl refl

abbrev crypto : Crypto ℕ ℕ
crypto = record {
  dumps = λ body. body.seq ∷ [];
  sha256 = λ bytes. "h";
  hmac_sha256 = λ k bytes. "m";
  encode = λ s. [];
  digits = λ n. "1";
}

abbrev table : Table ℕ
table = record { key = 1 ∷ []; jsonb = λ payload. payload }

abbrev quiet : Racing ℕ ℕ
quiet = record { rows = []; built = λ c. none }

-- Two pods build on the same row; the second one's insert is refused, and it builds again.
abbrev moves : List (RaceMove ℕ ℕ)
moves =
    RaceMove.build 1 5 100
    ∷ RaceMove.build 2 6 101
    ∷ RaceMove.insert 1
    ∷ RaceMove.insert 2
    ∷ RaceMove.build 2 6 102
    ∷ RaceMove.insert 2
    ∷ []

race_keeps_chain_example :
    (verify_rows crypto table (race crypto table quiet moves).rows ≡ true)
    × ((more : List (AuditRecord ℕ ℕ)) × ((race crypto table quiet moves).rows
          ≡ append_list [] more))
race_keeps_chain_example =
    race_keeps_chain crypto table quiet moves (refl, (refl, (tt, (tt, (refl, (tt, tt))))))
      (unfold verify_rows in refl) (λ c. refl)
