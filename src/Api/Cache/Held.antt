-- ===== src/Api/Cache/Held.antt =====
-- A cached response stays while fewer other entries are written after it than the bound.
use mathlib.Core.List.{append_assoc}
use bank_of_baroda_iit_gn.Common.{
  ℕ, zero, suc, ◌-◌, ◌≤◌, ◌<◌, ◌≡◌, ◌∙◌, ap, refl, String, true, false, none, some, List, [], ◌∷◌,
  ◌++◌, drop, last_n, length, length-append, str_eq_iff, arith, Bool-cases, inl, inr,
}
use bank_of_baroda_iit_gn.Api.Cache.{
  idem_get, idem_last, idem_max, idem_remove, idem_store, same_key,
}

pub same_key-eq : (j k : String × String) → same_key j k ≡ true → j ≡ k
same_key-eq (a, b) (c, d) h = ground (arith, h, str_eq_iff a c, str_eq_iff b d)

same_key_refl : (k : String × String) → same_key k k ≡ true
same_key_refl (a, b) = ground (arith, str_eq_iff a a, str_eq_iff b b)

abbrev CacheKey : Type 0
CacheKey = String × String

module _ {V : Type 0} where
  get-behind :
      (k : CacheKey) (v : V) (before after : List (CacheKey × V))
      → idem_get k before ≡ none
      → idem_get k (before ++ (k, v) ∷ after) ≡ some v
  unfolding idem_get
  get-behind k v [] after h = rw (same_key_refl k)
  get-behind k v ((j, w) ∷ before) after h = elim (Bool-cases (same_key j k)) [
    | inl e ↦ let hit : some w ≡ none = rw e at h in cc (hit)
    | inr e ↦
        let rest : idem_get k before ≡ none = rw e at h in rw e (get-behind k v before after rest)
  ]

  remove-append :
      (j : CacheKey) (xs ys : List (CacheKey × V))
      → idem_remove j (xs ++ ys) ≡ idem_remove j xs ++ idem_remove j ys
  unfolding idem_remove
  remove-append j [] ys = refl
  remove-append j ((i, w) ∷ xs) ys = elim (Bool-cases (same_key i j)) [
    | inl e ↦ rw e (remove-append j xs ys)
    | inr e ↦ rw e (ap ((i, w) ∷◌) (remove-append j xs ys))
  ]

  length-remove : (j : CacheKey) (xs : List (CacheKey × V)) → length (idem_remove j xs) ≤ length xs
  unfolding idem_remove
  length-remove j [] = omega arith
  length-remove j ((i, w) ∷ xs) = ground (arith, length-remove j xs)

  get-remove_other :
      (j k : CacheKey) (xs : List (CacheKey × V))
      → idem_get k xs ≡ none
      → idem_get k (idem_remove j xs) ≡ none
  unfolding idem_get idem_remove
  get-remove_other j k [] h = refl
  get-remove_other j k ((i, w) ∷ xs) h = elim (Bool-cases (same_key i k)) [
    | inl e ↦ let hit : some w ≡ none = rw e at h in cc (hit)
    | inr e ↦
        let rest : idem_get k xs ≡ none = rw e at h in
        elim (Bool-cases (same_key i j)) [
          | inl g ↦ rw g (get-remove_other j k xs rest)
          | inr g ↦ rw (g, e) (get-remove_other j k xs rest)
        ]
  ]

  get-removed : (k : CacheKey) (xs : List (CacheKey × V)) → idem_get k (idem_remove k xs) ≡ none
  unfolding idem_get idem_remove
  get-removed k [] = refl
  get-removed k ((i, w) ∷ xs) = elim (Bool-cases (same_key i k)) [
    | inl e ↦ rw e (get-removed k xs)
    | inr e ↦ rw (e, e) (get-removed k xs)
  ]

  get-drop :
      (n : ℕ) (k : CacheKey) (xs : List (CacheKey × V))
      → idem_get k xs ≡ none
      → idem_get k (drop n xs) ≡ none
  unfolding idem_get
  get-drop zero k xs h = h
  get-drop (suc n) k [] h = refl
  get-drop (suc n) k ((i, w) ∷ xs) h = elim (Bool-cases (same_key i k)) [
    | inl e ↦ let hit : some w ≡ none = rw e at h in cc (hit)
    | inr e ↦ let rest : idem_get k xs ≡ none = rw e at h in get-drop n k xs rest
  ]

  drop-append :
      (n : ℕ) (xs ys : List (CacheKey × V)) → n ≤ length xs → drop n (xs ++ ys) ≡ drop n xs ++ ys
  drop-append zero xs ys h = refl
  drop-append (suc n) [] ys h = absurd (omega (arith, h))
  drop-append (suc n) (x ∷ xs) ys h = drop-append n xs ys (omega (arith, h))

  -- The response is found, and at most `n` entries were written after it.
  pub record Held (n : ℕ) (k : CacheKey) (v : V) (cache : List (CacheKey × V)) : Type 0 where
    pub before : List (CacheKey × V)
    pub after : List (CacheKey × V)
    pub split : cache ≡ before ++ (k, v) ∷ after
    pub absent : idem_get k before ≡ none
    pub behind : length after ≤ n

  pub Held-get :
      (n : ℕ) (k : CacheKey) (v : V) (cache : List (CacheKey × V))
      → Held n k v cache
      → idem_get k cache ≡ some v
  Held-get n k v cache h = ap (idem_get k) h.split ∙ get-behind k v h.before h.after h.absent

  pub Held-weaker :
      (n : ℕ) (k : CacheKey) (v : V) (cache : List (CacheKey × V))
      → Held n k v cache
      → Held (suc n) k v cache
  Held-weaker n k v cache h = record {
    before = h.before;
    after = h.after;
    split = h.split;
    absent = h.absent;
    behind = omega (arith, h.behind);
  }

  pub Held-last :
      (n : ℕ) (k : CacheKey) (v : V) (cache : List (CacheKey × V))
      → Held n k v (idem_last k v cache)
  unfolding idem_last
  Held-last n k v cache = record {
    before = idem_remove k cache;
    after = [];
    split = refl;
    absent = get-removed k cache;
    behind = omega arith;
  }

  Held-drop :
      (n m : ℕ) (k : CacheKey) (v : V) (cache : List (CacheKey × V)) (h : Held n k v cache)
      → m ≤ length h.before
      → Held n k v (drop m cache)
  Held-drop n m k v cache h room = record {
    before = drop m h.before;
    after = h.after;
    split = ap (drop m) h.split ∙ drop-append m h.before ((k, v) ∷ h.after) room;
    absent = get-drop m k h.before h.absent;
    behind = h.behind;
  }

  last-split :
      (j k : CacheKey) (v w : V) (before after : List (CacheKey × V))
      → same_key k j ≡ false
      → idem_last j w (before ++ (k, v) ∷ after)
        ≡ idem_remove j before ++ (k, v) ∷ (idem_remove j after ++ (j, w) ∷ [])
  unfolding idem_last idem_remove
  last-split j k v w before after apart =
      ap (λ (xs : List (CacheKey × V)). xs ++ (j, w) ∷ []) (remove-append j before ((k, v) ∷ after))
      ∙ rw apart (append_assoc (idem_remove j before) ((k, v) ∷ idem_remove j after) ((j, w) ∷ []))

  pub Held-other :
      (n : ℕ) (j k : CacheKey) (v w : V) (cache : List (CacheKey × V))
      → same_key k j ≡ false
      → Held n k v cache
      → Held (suc n) k v (idem_last j w cache)
  Held-other n j k v w cache apart h = record {
    before = idem_remove j h.before;
    after = idem_remove j h.after ++ (j, w) ∷ [];
    split = ap (idem_last j w) h.split ∙ last-split j k v w h.before h.after apart;
    absent = get-remove_other j k h.before h.absent;
    behind = omega (
      arith,
      h.behind,
      length-remove j h.after,
      length-append (idem_remove j h.after) ((j, w) ∷ []),
    );
  }

  cut-Held :
      (n : ℕ) (k : CacheKey) (v : V) (cache : List (CacheKey × V))
      → n < idem_max
      → Held n k v cache
      → Held n k v (last_n idem_max cache)
  unfolding last_n
  cut-Held n k v cache room h =
      Held-drop n (length cache - idem_max) k v cache h (
        omega (arith, room, h.behind, ap length h.split, length-append h.before ((k, v) ∷ h.after)))

  -- Storing another response keeps it, while there is room for both.
  pub Held-store :
      (n : ℕ) (j k : CacheKey) (v w : V) (cache : List (CacheKey × V))
      → same_key k j ≡ false
      → suc n < idem_max
      → Held n k v cache
      → Held (suc n) k v (idem_store j w cache)
  unfolding idem_store
  Held-store n j k v w cache apart room h =
      cut-Held (suc n) k v (idem_last j w cache) room (Held-other n j k v w cache apart h)

  pub Held-stored :
      (k : CacheKey) (v : V) (cache : List (CacheKey × V)) → Held 0 k v (idem_store k v cache)
  unfolding idem_store
  Held-stored k v cache = cut-Held 0 k v (idem_last k v cache) (omega arith) (Held-last 0 k v cache)
