-- ===== src/Tests/Vaults.antt =====
-- The theorems on the audit chain, the vault and the API keys at concrete values.
use bank_of_baroda_iit_gn.Common.{
  ℕ, String, ◌≡◌, ◌↔◌, refl, true, none, some, [], ◌∷◌, List, Option, ok, err, map, length,
  if◌then◌else◌, get_elem?, ◌==◌,
}
use bank_of_baroda_iit_gn.Common.Dict.{Dict, lookup, contains}
use bank_of_baroda_iit_gn.Verifier.{Bytes}
use bank_of_baroda_iit_gn.Audit.{
  AuditLog, AuditRecord, Crypto, verify_chain, verify_from, fits, hash_of, mac_of, genesis,
}
use bank_of_baroda_iit_gn.Audit.Chain.{fixed_part, head_fixes_history}
use bank_of_baroda_iit_gn.Keystore.{Vault, Failure, PiiStore, put, get, shred, is_erased}
use bank_of_baroda_iit_gn.Keystore.Erasure.{Operation, perform_all, erasure_is_durable}
use bank_of_baroda_iit_gn.Auth.{Refusal, require, is_ascii}
use bank_of_baroda_iit_gn.Auth.Scopes.{IsKeyTable, require_exact}

-- Payloads and times are numbers; a record is hashed by its payload.
abbrev crypto : Crypto ℕ ℕ
crypto = record {
  dumps = λ body. body.payload ∷ [];
  sha256 = λ bytes. if length bytes == 1 then "h" else "g";
  hmac_sha256 = λ key bytes. "m";
  encode = λ s. [];
  digits = λ n. "2";
}

abbrev log : AuditLog ℕ ℕ
log = record {
  records =
      record {
        body = record { seq = 0; ts = 5; payload = 9; prev_hash = genesis };
        hash = "h";
        hmac = some "m";
      }
      ∷ record {
        body = record { seq = 1; ts = 6; payload = 8; prev_hash = "h" };
        hash = "h";
        hmac = some "m";
      }
      ∷ [];
  key = some (1 ∷ []);
}

log_valid : verify_chain crypto log ≡ true
unfolding verify_chain verify_from fits hash_of mac_of
log_valid = refl

same_bodies_here :
    (i : ℕ) (x y : AuditRecord ℕ ℕ)
    → get_elem? log.records i ≡ some x
    → get_elem? log.records i ≡ some y
    → hash_of crypto x.body ≡ hash_of crypto y.body
    → x.body ≡ y.body
same_bodies_here i x y a b h = cc (a, b)

head_fixes_history_example :
    map (fixed_part crypto log.key) log.records ≡ map (fixed_part crypto log.key) log.records
head_fixes_history_example =
    head_fixes_history crypto log log same_bodies_here refl log_valid log_valid refl refl

-- Encryption puts the key's first byte in front; the material is its own text of bytes.
abbrev unlock : Bytes → Bytes → Option Bytes
unlock key [] = none
unlock key (b ∷ bytes) = some bytes

abbrev vault : Vault Bytes
vault = record {
  encrypt = λ key bytes. 0 ∷ bytes;
  decrypt = unlock;
  dumps = λ m. m;
  loads = λ bytes. some bytes;
  ref_of = λ token. "ref";
}

abbrev two_people : PiiStore
two_people = record {
  keys = ("asha", 4 ∷ []) ∷ ("ravi", 5 ∷ []) ∷ [];
  ct = ("asha", 0 ∷ 1 ∷ []) ∷ ("ravi", 0 ∷ 2 ∷ []) ∷ [];
  tombstoned = [];
}

abbrev later : List (Operation Bytes)
later = Operation.gather "asha" (7 ∷ []) (8 ∷ []) ∷ Operation.consent "ravi" ∷ []

erasure_is_durable_example :
    let after = perform_all vault later (shred "asha" two_people).1 in
    (is_erased "asha" after ≡ true)
    × (get vault "asha" after ≡ err Failure.erased)
    × (put vault "asha" (1 ∷ []) (2 ∷ []) after ≡ (err Failure.erased, after))
erasure_is_durable_example =
    erasure_is_durable vault "asha" two_people later (1 ∷ []) (2 ∷ []) (refl, (refl, tt))

abbrev api_keys : Dict (List String)
api_keys = ("k1", "audit:read" ∷ []) ∷ ("k2", "events:write" ∷ []) ∷ []

table : IsKeyTable api_keys
unfolding is_ascii lookup
table = (refl, refl, (refl, refl, tt))

require_exact_example :
    ((require api_keys "events:write" (some "k2")
        ≡ ok (record { client_id = "k2"; scopes = "events:write" ∷ [] }))
      ↔ ((lookup "k2" api_keys ≡ some ("events:write" ∷ []))
          × (◌≡◌ {A = String} "k2" "k2")
          × (contains "events:write" ("events:write" ∷ []) ≡ true)))
    × ((require api_keys "events:write" (some "k2") ≡ err Refusal.invalid_key)
        ↔ (lookup "k2" api_keys ≡ none))
unfolding is_ascii
require_exact_example =
    require_exact api_keys "events:write" "k2"
      (record { client_id = "k2"; scopes = "events:write" ∷ [] }) table refl refl
