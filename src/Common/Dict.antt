-- ===== src/Common/Dict.antt =====
-- Python's `dict` and `set` with text keys, in insertion order.
use mathlib.Core.Path.{subst}
use bank_of_baroda_iit_gn.Common.{
  String, ◌≡◌, refl, inl, inr, Bool-cases, Bool, true, false, ◌||◌, Option, none, some, List, [],
  ◌∷◌, arith, str_eq, str_eq_iff, if◌then◌else◌,
}

abbrev pub Dict {ℓ} : Type ℓ → Type ℓ
Dict V = List (String × V)

module _ {ℓ} {V : Type ℓ} where
  -- `d.get(k)`
  unfoldable pub lookup : String → Dict V → Option V
  lookup k [] = none
  lookup k ((j, v) ∷ d) = if str_eq j k then some v else lookup k d

  -- `d[k] = v`
  unfoldable pub insert : String → V → Dict V → Dict V
  insert k v [] = (k, v) ∷ []
  insert k v ((j, w) ∷ d) = if str_eq j k then (k, v) ∷ d else (j, w) ∷ insert k v d

  -- `d.pop(k, None)`
  unfoldable pub erase : String → Dict V → Dict V
  erase k [] = []
  erase k ((j, w) ∷ d) = let rest = erase k d in if str_eq j k then rest else (j, w) ∷ rest

  pub lookup-insert :
      (k j : String) (v : V) (d : Dict V)
      → lookup j (insert k v d) ≡ (if str_eq k j then some v else lookup j d)
  unfolding lookup insert
  lookup-insert k j v [] = refl
  lookup-insert k j v ((i, w) ∷ d) =
      ground (arith, str_eq_iff k j, str_eq_iff i k, str_eq_iff i j, lookup-insert k j v d)

  pub lookup-erase :
      (k j : String) (d : Dict V) → lookup j (erase k d) ≡ (if str_eq k j then none else lookup j d)
  unfolding lookup erase
  lookup-erase k j [] = ground arith
  lookup-erase k j ((i, w) ∷ d) =
      ground (arith, str_eq_iff k j, str_eq_iff i k, str_eq_iff i j, lookup-erase k j d)

-- `k in s`
unfoldable pub contains : String → List String → Bool
contains k [] = false
contains k (x ∷ s) = str_eq x k || contains k s

-- `s.add(k)`
unfoldable pub add : String → List String → List String
unfolding contains
add k s = if contains k s then s else k ∷ s

-- `s.discard(k)`
unfoldable pub discard : String → List String → List String
discard k [] = []
discard k (x ∷ s) = let rest = discard k s in if str_eq x k then rest else x ∷ rest

contains_same :
    (k j : String) (s : List String) → str_eq k j ≡ true → contains k s ≡ true → contains j s ≡ true
contains_same k j s e h = subst (λ x. contains x s ≡ true) ((str_eq_iff k j).0 e) h

pub contains-add :
    (k j : String) (s : List String) → contains j (add k s) ≡ (str_eq k j || contains j s)
unfolding add
contains-add k j s = elim (Bool-cases (contains k s)) [
  | inl old ↦ elim (Bool-cases (str_eq k j)) [
    | inl e ↦ rw (old, e) (contains_same k j s e old)
    | inr e ↦ rw (old, e)
  ]
  | inr new ↦ rw new (unfold contains in refl)
]

pub contains-discard :
    (k j : String) (s : List String)
    → contains j (discard k s) ≡ (if str_eq k j then false else contains j s)
unfolding discard contains
contains-discard k j [] = ground arith
contains-discard k j (x ∷ s) =
    ground (arith, str_eq_iff k j, str_eq_iff x k, str_eq_iff x j, contains-discard k j s)
