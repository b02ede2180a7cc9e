-- ===== src/State/Json/RoundTrip.antt =====
-- A state that was written as JSON is read back as the same state.
use bank_of_baroda_iit_gn.Common.{
  String, Bool, ◌≡◌, ◌∙◌, sym, refl, ◌||◌, List, [], ◌∷◌, map, Result, ok, arith, str_eq,
}
use bank_of_baroda_iit_gn.Common.Dict.{contains, contains-add, lookup}
use bank_of_baroda_iit_gn.Float.{Float}
use bank_of_baroda_iit_gn.State.{IdentityState}
use bank_of_baroda_iit_gn.State.Same.{SameState, members}
use bank_of_baroda_iit_gn.Common.Int.{pos}
use mathlib.Core.Path.{fun_ext}
use bank_of_baroda_iit_gn.State.Json.{
  Scalar, Unread, a_natural, a_real, a_text, each, integer, real, text, from_dict, set_of, sorted,
  to_dict,
}
use bank_of_baroda_iit_gn.Explain.{insert_desc, sort_desc, text_lt}

contains-insert_desc :
    (less : String → String → Bool) (x y : String) (xs : List String)
    → contains y (insert_desc less x xs) ≡ (str_eq x y || contains y xs)
unfolding insert_desc contains
contains-insert_desc less x y [] = refl
contains-insert_desc less x y (z ∷ xs) = ground (arith, contains-insert_desc less x y xs)

contains-sort_desc :
    (less : String → String → Bool) (y : String) (xs : List String)
    → contains y (sort_desc less xs) ≡ contains y xs
unfolding sort_desc contains
contains-sort_desc less y [] = refl
contains-sort_desc less y (x ∷ xs) =
    ground (arith, contains-insert_desc less x y (sort_desc less xs), contains-sort_desc less y xs)

contains-set_of : (y : String) (xs : List String) → contains y (set_of xs) ≡ contains y xs
unfolding set_of contains
contains-set_of y [] = refl
contains-set_of y (x ∷ xs) = ground (arith, contains-add x y (set_of xs), contains-set_of y xs)

each-map :
    {W A : Type 0} (read : Scalar W → Result Unread A) (write : A → Scalar W)
    → ((a : A) → read (write a) ≡ ok a)
    → (xs : List A) → each read (map write xs) ≡ ok xs
each-map read write back [] = refl
each-map read write back (x ∷ xs) = rw (back x, each-map read write back xs)

members-set_of-sorted : (xs : List String) → members (set_of (sorted xs)) ≡ members xs
unfolding sorted
members-set_of-sorted xs =
    fun_ext (λ y. contains-set_of y (sorted xs) ∙ contains-sort_desc (λ a b. text_lt b a) y xs)

module _ {W : Type 0} ⦃f : Float W⦄ where
  -- The state that from_json reads from what to_json hands to JSON.
  abbrev pub reread : IdentityState W → IdentityState W
  reread s = record s { devices = set_of (sorted s.devices); geos = set_of (sorted s.geos) }

  -- from_json reads from the dictionary that to_json makes the same state, with the same devices and
  -- locations as sets.
  pub from_dict-to_dict :
      (s : IdentityState W) → (from_dict (to_dict s) ≡ ok (reread s)) × SameState s (reread s)
  unfolding from_dict to_dict lookup contains
  from_dict-to_dict s = (
    rw
        (
          each-map a_text text (λ x. refl) (sorted s.devices),
          each-map a_text text (λ x. refl) (sorted s.geos),
          each-map a_natural (λ h. integer (pos h)) (λ n. refl) s.hours,
          each-map a_real real (λ x. refl) s.amounts,
          each-map a_real real (λ x. refl) s.risk_window,
        )
        refl,
    record {
      rest = refl;
      devices = sym (members-set_of-sorted s.devices);
      geos = sym (members-set_of-sorted s.geos);
    },
  )
