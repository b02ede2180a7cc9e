-- ===== src/Api/Cache.antt =====
-- The bounded cache of responses, and the counting of recent step-ups.
pub mod Held
use bank_of_baroda_iit_gn.Common.{
  ℕ, zero, suc, ◌≤◌, ◌-◌, ◌≡◌, String, Bool, true, ◌&&◌, Option, none, some, List, [], ◌∷◌, ◌++◌,
  last_n, drop, length, is_empty, str_eq, str_eq_iff, arith, length-append, Bool-cases, inl, inr,
  if◌then◌else◌,
}
use bank_of_baroda_iit_gn.Common.Dict.{Dict, lookup, insert, erase}
use bank_of_baroda_iit_gn.Float.{Float}

abbrev pub idem_max : ℕ
idem_max = 10000

abbrev pub same_key : String × String → String × String → Bool
same_key (a, b) (c, d) = str_eq a c && str_eq b d

same_key_self : (k : String × String) → same_key k k ≡ true
same_key_self (a, b) = ground (arith, str_eq_iff a a, str_eq_iff b b)

module _ {V : Type 0} where
  -- `_idem_cache.get(cache_key)`
  unfoldable pub idem_get : String × String → List ((String × String) × V) → Option V
  idem_get k [] = none
  idem_get k ((j, v) ∷ cache) = if same_key j k then some v else idem_get k cache

  unfoldable pub idem_remove :
      String × String → List ((String × String) × V) → List ((String × String) × V)
  idem_remove k [] = []
  idem_remove k ((j, v) ∷ cache) =
      let rest = idem_remove k cache in if same_key j k then rest else (j, v) ∷ rest

  -- `_idem_cache[k] = v` and `move_to_end(k)`
  unfoldable pub idem_last :
      String × String → V → List ((String × String) × V) → List ((String × String) × V)
  unfolding idem_remove
  idem_last k v cache = idem_remove k cache ++ (k, v) ∷ []

  -- The same, then `popitem(last=False)` while there are more than `_IDEM_MAX`.
  unfoldable pub idem_store :
      String × String → V → List ((String × String) × V) → List ((String × String) × V)
  unfolding idem_last last_n
  idem_store k v cache = last_n idem_max (idem_last k v cache)

  get-remove :
      (k : String × String) (v : V) (n : ℕ) (cache : List ((String × String) × V))
      → n ≤ length (idem_remove k cache)
      → idem_get k (drop n (idem_remove k cache ++ (k, v) ∷ [])) ≡ some v
  unfolding idem_get idem_remove
  get-remove k v zero [] h = rw (same_key_self k)
  get-remove k v (suc n) [] h = absurd (omega (arith, h))
  get-remove k v zero ((j, w) ∷ cache) h = elim (Bool-cases (same_key j k)) [
    | inl e ↦ rw e (get-remove k v zero cache (omega arith))
    | inr e ↦ rw (e, e) (get-remove k v zero cache (omega arith))
  ]
  get-remove k v (suc n) ((j, w) ∷ cache) h = elim (Bool-cases (same_key j k)) [
    | inl e ↦ rw e (get-remove k v (suc n) cache (rw e at h))
    | inr e ↦ rw e (get-remove k v n cache (omega (arith, (rw e at h))))
  ]

  pub get-last :
      (k : String × String) (v : V) (cache : List ((String × String) × V))
      → idem_get k (idem_last k v cache) ≡ some v
  unfolding idem_last
  get-last k v cache = get-remove k v 0 cache (omega arith)

  -- The response that was stored is found.
  pub get-store :
      (k : String × String) (v : V) (cache : List ((String × String) × V))
      → idem_get k (idem_store k v cache) ≡ some v
  unfolding idem_store idem_last last_n
  get-store k v cache =
      get-remove k v (length (idem_remove k cache ++ (k, v) ∷ []) - idem_max) cache
        (omega (arith, length-append (idem_remove k cache) ((k, v) ∷ [])))

module _ {W : Type 0} ⦃f : Float W⦄ where
  open f use {lit, lt, sub}

  unfoldable pub recent : W → List W → List W
  recent now [] = []
  recent now (t ∷ q) =
      let rest = recent now q in if lt (sub now t) (lit 300 0) then t ∷ rest else rest

  abbrev counted : Dict (List W) → String → W → Option (List W) → ℕ × Dict (List W)
  unfolding recent insert erase
  counted bucket identity_id now none = (0, bucket)
  counted bucket identity_id now (some q) =
      let kept = recent now q in
      if is_empty kept
      then (0, erase identity_id bucket)
      else (length kept, insert identity_id kept bucket)

  -- `_rate_count`: the number of recent entries, and the pruned bucket.
  unfoldable pub rate_count : Dict (List W) → String → W → ℕ × Dict (List W)
  unfolding recent lookup insert erase
  rate_count bucket identity_id now = counted bucket identity_id now (lookup identity_id bucket)

  abbrev times_or_empty : Option (List W) → List W
  times_or_empty none = []
  times_or_empty (some q) = q

  -- `bucket.setdefault(identity_id, []).append(now)`
  unfoldable pub note : Dict (List W) → String → W → Dict (List W)
  unfolding lookup insert
  note bucket identity_id now =
      insert identity_id (times_or_empty (lookup identity_id bucket) ++ now ∷ []) bucket
