-- ===== src/Datasets/Verified.antt =====
-- A run that ends well has checked every file.
use bank_of_baroda_iit_gn.Common.{
  String, ◌≡◌, ◌⊎◌, Bool, true, false, Option, none, some, List, [], ◌∷◌, ok, All, arith, is_some,
  str_eq_iff, Bool-cases, Option-cases, >>=-eq-ok, inl, inr, if◌then◌else◌,
}
use mathlib.Core.Path.{subst}
use bank_of_baroda_iit_gn.Common.Dict.{lookup, insert, lookup-insert}
use bank_of_baroda_iit_gn.Verifier.{Bytes}
use bank_of_baroda_iit_gn.Datasets.{
  Files, Outside, Source, digest_fits, download, Spec, competition, competition_archive,
  verify_present, get_competition, get_file, get_files, get_one, several, single, verify,
}

module _ (out : Outside) where
  -- The file is there, with the pinned digest if there is one.
  abbrev fits_at : Option String → Option Bytes → Bool
  fits_at sha none = false
  fits_at sha (some body) = digest_fits out body sha

  abbrev pub IsVerified : Files → Source → Type 0
  IsVerified files s = fits_at s.sha (lookup s.rel files) ≡ true

  -- What was there stays as it is.
  verify_ok :
      (path : String) (sha : Option String) (files : Files) (u : Unit {0})
      → verify out path sha files ≡ ok u
      → fits_at sha (lookup path files) ≡ true
  unfolding verify
  verify_ok path sha files u h = ground (arith, h)

  -- Every file of the first is in the second, unchanged.
  abbrev pub Keeps : Files → Files → Type 0
  Keeps files after =
      (j : String) (body : Bytes) → lookup j files ≡ some body → lookup j after ≡ some body

  download_keeps :
      (url dest : String) (files after : Files) (j : String) (body : Bytes)
      → is_some (lookup dest files) ≡ false
      → download out url dest files ≡ ok after
      → lookup j files ≡ some body
      → lookup j after ≡ some body
  unfolding download
  download_keeps url dest files after j body absent h at_j = elim (Option-cases (out.fetch url)) [
    | inl e ↦ ground (arith, e, h)
    | inr (got, e) ↦
        let same : insert dest got files ≡ after = ground (arith, e, h) in
        rw (← same)
          (ground (arith, absent, at_j, str_eq_iff dest j, lookup-insert dest j got files))
  ]

  fetched_keeps :
      (s : Source) (files after : Files) (j : String) (body : Bytes)
      → (if is_some (lookup s.rel files) then ok files else download out s.url s.rel files)
        ≡ ok after
      → lookup j files ≡ some body
      → lookup j after ≡ some body
  fetched_keeps s files after j body h at_j = elim (Bool-cases (is_some (lookup s.rel files))) [
    | inl e ↦ ground (arith, e, h, at_j)
    | inr e ↦ download_keeps s.url s.rel files after j body e (ground (arith, e, h)) at_j
  ]

  get_file-lem :
      (s : Source) (files after : Files)
      → get_file out s files ≡ ok after
      → IsVerified after s × Keeps files after
  unfolding get_file
  get_file-lem s files after h =
      let (mid, fetched, rest) =
        >>=-eq-ok
          (if is_some (lookup s.rel files) then ok files else download out s.url s.rel files) _ h in
      let (u, checked, last) = >>=-eq-ok (verify out s.rel s.sha mid) _ rest in
      let same : mid ≡ after = cc (last) in
      (
        subst (λ x. IsVerified x s) same (verify_ok s.rel s.sha mid u checked),
        λ j body at_j.
            subst (λ x. lookup j x ≡ some body) same
              (fetched_keeps s files mid j body fetched at_j),
      )

  IsVerified-Keeps :
      (s : Source) (files after : Files)
      → Keeps files after
      → IsVerified files s
      → IsVerified after s
  IsVerified-Keeps s files after keeps h = elim (Option-cases (lookup s.rel files)) [
    | inl e ↦ ground (arith, e, h)
    | inr (body, e) ↦ ground (arith, e, h, keeps s.rel body e)
  ]

  get_files-lem :
      (ss : List Source) (files after : Files)
      → get_files out ss files ≡ ok after
      → All (IsVerified after) ss × Keeps files after
  unfolding get_files
  get_files-lem [] files after h =
      let same : files ≡ after = cc (h) in
      (tt, λ j body at_j. subst (λ x. lookup j x ≡ some body) same at_j)
  get_files-lem (s ∷ ss) files after h =
      let (mid, first, rest) = >>=-eq-ok (get_file out s files) _ h in
      let (checked, keeps) = get_file-lem s files mid first in
      let (all, later) = get_files-lem ss mid after rest in
      (
        (IsVerified-Keeps s mid after later checked, all),
        λ j body at_j. later j body (keeps j body at_j),
      )

  -- Every file of a dataset is there and fits its digest; an archive of a competition may be
  -- missing.
  abbrev pub IsFetched : Spec → Files → Type 0
  IsFetched (several ss) files = All (IsVerified files) ss
  IsFetched (single s) files = IsVerified files s
  IsFetched (competition comp cand path sha) files =
      (is_some (lookup path files) ≡ false) ⊎ (fits_at sha (lookup path files) ≡ true)

  present_ok :
      (path : String) (sha : Option String) (files : Files) (u : Unit {0})
      → verify_present out path sha files ≡ ok u
      → (is_some (lookup path files) ≡ false) ⊎ (fits_at sha (lookup path files) ≡ true)
  unfolding verify_present
  present_ok path sha files u h = elim (Bool-cases (is_some (lookup path files))) [
    | inl e ↦ inr (verify_ok path sha files u (ground (arith, e, h)))
    | inr e ↦ inl e
  ]

  -- If fetching a dataset ends without an exit, all its files are there and have their pinned
  -- digests, also those that were there before; only the archive of a competition may be missing.
  pub get_one-IsFetched :
      (spec : Spec) (files after : Files) → get_one out spec files ≡ ok after → IsFetched spec after
  unfolding get_one get_competition
  get_one-IsFetched (several ss) files after h = (get_files-lem ss files after h).0
  get_one-IsFetched (single s) files after h = (get_file-lem s files after h).0
  get_one-IsFetched (competition comp cand path sha) files after h =
      let (mid, fetched, rest) = >>=-eq-ok (competition_archive out comp cand path files) _ h in
      let (u, checked, last) = >>=-eq-ok (verify_present out path sha mid) _ rest in
      let same : mid ≡ after = cc (last) in
      subst (λ x. IsFetched (competition comp cand path sha) x) same
        (present_ok path sha mid u checked)
