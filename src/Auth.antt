-- ===== src/Auth.antt =====
-- backend/app/auth.py: API keys and their scopes.
pub mod Scopes
use Prim.Native.Char.{code}
use bank_of_baroda_iit_gn.Common.{
  ℕ, String, Bool, true, false, ◌&&◌, Option, none, some, List, [], ◌∷◌, Result, ok, err, ◌>>=◌,
  ◌>>◌, or_raise, guard, ltb, str_eq, if◌then◌else◌,
}
use bank_of_baroda_iit_gn.Common.Dict.{Dict, contains}

pub record AuthContext : Type 0 where
  pub client_id : String
  pub scopes : List String

-- `HTTPException` with its status and detail, and the `TypeError` of `compare_digest`.
pub data Refusal : Type 0 where
  missing_key invalid_key : Refusal
  missing_scope : String → Refusal
  type_error : Refusal

-- `hmac.compare_digest` of two texts raises unless both are ASCII.
unfoldable pub is_ascii : String → Bool
is_ascii String.[] = true
is_ascii (String.◌∷◌ c s) = ltb (code c) 128 && is_ascii s

unfoldable pub compare_digest : String → String → Result Refusal Bool
unfolding is_ascii
compare_digest a b = if is_ascii a && is_ascii b then ok (str_eq a b) else err Refusal.type_error

abbrev matched_with : String → List String → Bool → Option AuthContext → Option AuthContext
matched_with key scopes equal matched =
    if equal then some (record { client_id = key; scopes = scopes }) else matched

-- The loop of `authenticate` over all keys: the last match stays.
unfoldable pub match_keys :
    Dict (List String) → String → Option AuthContext → Result Refusal (Option AuthContext)
unfolding compare_digest
match_keys [] x_api_key matched = ok matched
match_keys ((key, scopes) ∷ api_keys) x_api_key matched = do
  equal ← compare_digest key x_api_key
  match_keys api_keys x_api_key (matched_with key scopes equal matched)

-- `if not x_api_key`
abbrev given_key : Option String → Option String
given_key none = none
given_key (some k) = if str_eq k "" then none else some k

unfoldable pub authenticate : Dict (List String) → Option String → Result Refusal AuthContext
unfolding match_keys
authenticate api_keys x_api_key = do
  k ← or_raise (given_key x_api_key) Refusal.missing_key
  matched ← match_keys api_keys k none
  or_raise matched Refusal.invalid_key

-- The dependency that `require` returns.
unfoldable pub require : Dict (List String) → String → Option String → Result Refusal AuthContext
unfolding authenticate contains
require api_keys scope x_api_key = do
  ctx ← authenticate api_keys x_api_key
  guard (contains scope ctx.scopes) (Refusal.missing_scope scope)
  ok ctx
