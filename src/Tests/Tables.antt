-- ===== src/Tests/Tables.antt =====
-- The refinement of the vault, from an empty table.
use bank_of_baroda_iit_gn.Common.{String, ◌≡◌, refl, some, [], ◌∷◌}
use bank_of_baroda_iit_gn.Common.Dict.{lookup, contains}
use bank_of_baroda_iit_gn.Verifier.{Bytes}
use bank_of_baroda_iit_gn.Keystore.{Vault, empty_vault, get, is_erased, put, shred}
use bank_of_baroda_iit_gn.Durable.{erase_row, get_row, is_erased_row, put_row}
use bank_of_baroda_iit_gn.Durable.Refines.{Agree, table_refines_vault}

abbrev plain_vault : Vault Bytes
plain_vault = record {
  encrypt = λ key bytes. 0 ∷ bytes;
  decrypt = λ key bytes. some bytes;
  dumps = λ m. m;
  loads = λ bytes. some bytes;
  ref_of = λ token. "ref";
}

empty_agrees : (j : String) → Agree empty_vault [] j
unfolding lookup contains
empty_agrees j = (refl, refl, refl, refl)

table_refines_vault_example :
    (((put_row plain_vault "asha" (1 ∷ []) (9 ∷ []) []).0
        ≡ (put plain_vault "asha" (1 ∷ []) (9 ∷ []) empty_vault).0)
      × ((j : String)
          → Agree
              (put plain_vault "asha" (1 ∷ []) (9 ∷ []) empty_vault).1
              (put_row plain_vault "asha" (1 ∷ []) (9 ∷ []) []).1
              j))
    × (((erase_row "asha" []).0 ≡ (shred "asha" empty_vault).0)
        × ((j : String) → Agree (shred "asha" empty_vault).1 (erase_row "asha" []).1 j))
    × (get_row plain_vault "asha" [] ≡ get plain_vault "asha" empty_vault)
    × (is_erased_row "asha" [] ≡ is_erased "asha" empty_vault)
table_refines_vault_example =
    table_refines_vault plain_vault "asha" (1 ∷ []) (9 ∷ []) empty_vault [] refl empty_agrees
