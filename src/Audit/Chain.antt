-- ===== src/Audit/Chain.antt =====
-- The chain stays valid under `append`, and a head hash fixes the whole history.
use bank_of_baroda_iit_gn.Common.{
  get_elem?, ℕ, suc, ◌+◌, String, ◌≡◌, refl, true, ◌&&◌, Option, none, some, List, [], ◌∷◌, ◌++◌,
  map, ap, arith, length, str_eq_iff,
}
use bank_of_baroda_iit_gn.Verifier.{Bytes}
use bank_of_baroda_iit_gn.Audit.{
  AuditLog, AuditRecord, Body, Crypto, append, fits, genesis, hash_of, head_from, mac_of,
  new_record, text_or_empty, verify_chain, verify_from,
}

module _ {P W : Type 0} (crypto : Crypto P W) where
  verify_from-append :
      (key : Option Bytes) (idx : ℕ) (prev : String) (xs ys : List (AuditRecord P W))
      → verify_from crypto key idx prev (xs ++ ys) ≡ (
          verify_from crypto key idx prev xs
          && verify_from crypto key (idx + length xs) (head_from crypto prev xs) ys)
  unfolding verify_from
  verify_from-append key idx prev [] ys = ground arith
  verify_from-append key idx prev (x ∷ xs) ys =
      ground (arith, verify_from-append key (idx + 1) x.hash xs ys)

  new_record-fits :
      (records : List (AuditRecord P W)) (key : Option Bytes) (payload : P) (now : W)
      → fits crypto key
          (length records)
          (head_from crypto genesis records)
          (new_record crypto (record { records = records; key = key }) payload now)
        ≡ true
  unfolding fits new_record
  new_record-fits records none payload now =
      let prev = head_from crypto genesis records in
      let hash = (new_record crypto (record { records = records; key = none }) payload now).hash in
      ground (arith, str_eq_iff prev prev, str_eq_iff hash hash)
  new_record-fits records (some k) payload now =
      let prev = head_from crypto genesis records in
      let hash =
        (new_record crypto (record { records = records; key = some k }) payload now).hash in
      let mac = mac_of crypto k hash in
      ground (arith, str_eq_iff prev prev, str_eq_iff hash hash, str_eq_iff mac mac)

  last_verdict :
      (key : Option Bytes) (idx : ℕ) (prev : String) (r : AuditRecord P W)
      → verify_from crypto key idx prev (r ∷ []) ≡ fits crypto key idx prev r
  unfolding verify_from
  last_verdict key idx prev r = ground arith

  -- Appending keeps the verdict of `verify_chain`: a valid chain stays valid, with or without a
  -- key, and a broken one stays broken.
  pub append_keeps_verdict :
      (log : AuditLog P W) (payload : P) (now : W)
      → verify_chain crypto (append crypto log payload now).1 ≡ verify_chain crypto log
  unfolding verify_chain append
  append_keeps_verdict log payload now =
      let new = new_record crypto log payload now in
      ground (
        arith,
        verify_from-append log.key 0 genesis log.records (new ∷ []),
        last_verdict log.key (length log.records) (head_from crypto genesis log.records) new,
        new_record-fits log.records log.key payload now,
      )

  -- What the chain fixes of a record: its body and hash, and with a key the text of its tag.
  abbrev pub fixed_part : Option Bytes → AuditRecord P W → Body P W × String × String
  fixed_part none r = (r.body, r.hash, "")
  fixed_part (some key) r = (r.body, r.hash, text_or_empty crypto r.hmac)

  fixed_part-same :
      (key : Option Bytes) (idx : ℕ) (p q : String) (x y : AuditRecord P W)
      → x.body ≡ y.body
      → x.hash ≡ y.hash
      → fits crypto key idx p x ≡ true
      → fits crypto key idx q y ≡ true
      → fixed_part key x ≡ fixed_part key y
  unfolding fits
  fixed_part-same none idx p q x y body hash a b = cc (body, hash)
  fixed_part-same (some key) idx p q x y body hash a b =
      let tx = str_eq_iff (mac_of crypto key x.hash) (text_or_empty crypto x.hmac) in
      let ty = str_eq_iff (mac_of crypto key y.hash) (text_or_empty crypto y.hmac) in
      let mac = ap (mac_of crypto key) hash in ground (arith, body, hash, mac, tx, ty)

  same_bodies :
      (key : Option Bytes) (idx : ℕ) (p q : String) (xs ys : List (AuditRecord P W))
      → ((i : ℕ) (x y : AuditRecord P W)
          → get_elem? xs i ≡ some x
          → get_elem? ys i ≡ some y
          → hash_of crypto x.body ≡ hash_of crypto y.body
          → x.body ≡ y.body)
      → length xs ≡ length ys
      → verify_from crypto key idx p xs ≡ true
      → verify_from crypto key idx q ys ≡ true
      → head_from crypto p xs ≡ head_from crypto q ys
      → (map (fixed_part key) xs ≡ map (fixed_part key) ys) × (p ≡ q)
  unfolding verify_from fits
  same_bodies key idx p q [] [] free len a b h = (refl, h)
  same_bodies key idx p q [] (y ∷ ys) free len a b h = absurd (omega (arith, len))
  same_bodies key idx p q (x ∷ xs) [] free len a b h = absurd (omega (arith, len))
  same_bodies key idx p q (x ∷ xs) (y ∷ ys) free len a b h =
      let rest =
        same_bodies key (idx + 1) x.hash y.hash xs ys (λ i. free (suc i)) (omega (arith, len))
          (ground arith) (ground arith) h in
      let hx : hash_of crypto x.body ≡ x.hash =
        ground (arith, str_eq_iff (hash_of crypto x.body) x.hash) in
      let hy : hash_of crypto y.body ≡ y.hash =
        ground (arith, str_eq_iff (hash_of crypto y.body) y.hash) in
      let px : x.body.prev_hash ≡ p = ground (arith, str_eq_iff x.body.prev_hash p) in
      let qy : y.body.prev_hash ≡ q = ground (arith, str_eq_iff y.body.prev_hash q) in
      let body = free 0 x y refl refl (cc (hx, hy, rest.1)) in
      let here = fixed_part-same key idx p q x y body rest.1 (ground arith) (ground arith) in
      (ground (arith, rest.0, here), ground (arith, px, qy, body))

  -- Two valid audit logs of the same key, length and head hash hold the same bodies and hashes, and
  -- the same tags if there is a key, unless two records at one position collide under the hash.
  pub head_fixes_history :
      (a b : AuditLog P W)
      → ((i : ℕ) (x y : AuditRecord P W)
          → get_elem? a.records i ≡ some x
          → get_elem? b.records i ≡ some y
          → hash_of crypto x.body ≡ hash_of crypto y.body
          → x.body ≡ y.body)
      → a.key ≡ b.key
      → verify_chain crypto a ≡ true
      → verify_chain crypto b ≡ true
      → length a.records ≡ length b.records
      → head_from crypto genesis a.records ≡ head_from crypto genesis b.records
      → map (fixed_part a.key) a.records ≡ map (fixed_part a.key) b.records
  unfolding verify_chain
  head_fixes_history a b free keys va vb len heads =
      (same_bodies a.key 0 genesis genesis a.records b.records free len va (rw keys vb) heads).0
