-- ===== src/Auth/Scopes.antt =====
-- A request passes exactly with a listed key that has the scope.
use bank_of_baroda_iit_gn.Common.{
  String, ◌≡◌, ◌↔◌, refl, true, false, Option, none, some, List, [], ◌∷◌, ok, err, arith, str_eq,
  str_eq_iff,
}
use bank_of_baroda_iit_gn.Common.Dict.{Dict, lookup, contains}
use bank_of_baroda_iit_gn.Auth.{
  AuthContext, Refusal, authenticate, compare_digest, is_ascii, match_keys, require,
}

abbrev context_of : String → Option (List String) → Option AuthContext → Option AuthContext
context_of k none matched = matched
context_of k (some scopes) matched = some (record { client_id = k; scopes = scopes })

-- Every key is ASCII, and no key is listed twice.
abbrev pub IsKeyTable : Dict (List String) → Type 0
IsKeyTable [] = Unit
IsKeyTable ((key, scopes) ∷ api_keys) =
    (is_ascii key ≡ true) × (lookup key api_keys ≡ none) × IsKeyTable api_keys

match_keys_lem :
    (api_keys : Dict (List String)) (k : String) (matched : Option AuthContext)
    → IsKeyTable api_keys
    → is_ascii k ≡ true
    → match_keys api_keys k matched ≡ ok (context_of k (lookup k api_keys) matched)
unfolding match_keys compare_digest lookup
match_keys_lem [] k matched table ascii = refl
match_keys_lem ((key, scopes) ∷ api_keys) k matched table ascii = ground (
  arith,
  table,
  ascii,
  str_eq_iff key k,
  match_keys_lem api_keys k matched table.2 ascii,
  match_keys_lem api_keys k (some (record { client_id = key; scopes = scopes })) table.2 ascii,
)

-- With a table of ASCII keys and an ASCII header that is not empty, a request passes with the
-- listed scopes exactly if the key is listed and has the scope; it is refused as unauthenticated
-- exactly if the key is not listed.
pub require_exact :
    (api_keys : Dict (List String)) (scope k : String) (ctx : AuthContext)
    → IsKeyTable api_keys
    → is_ascii k ≡ true
    → str_eq k "" ≡ false
    → ((require api_keys scope (some k) ≡ ok ctx) ↔ (
        (lookup k api_keys ≡ some ctx.scopes)
        × (ctx.client_id ≡ k)
        × (contains scope ctx.scopes ≡ true)))
      × ((require api_keys scope (some k) ≡ err Refusal.invalid_key) ↔ (lookup k api_keys ≡ none))
unfolding require authenticate
require_exact api_keys scope k ctx table ascii given =
    ground (arith, given, match_keys_lem api_keys k none table ascii)
