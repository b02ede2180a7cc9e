-- ===== src/Datasets.antt =====
-- src/download_data.py: fetching the datasets and checking them against their pinned digests. What a
-- URL or the Kaggle client delivers, and SHA-256, are parameters; a download that fails raises and
-- leaves at most a `.part` file, which is left out. Unpacking an archive changes no file here.
pub mod Verified
use Prim.Native.String.{◌++◌}
use bank_of_baroda_iit_gn.Common.{
  ℕ, String, Bool, true, false, not, Option, none, some, List, [], ◌∷◌, Result, ok, err, ◌>>=◌,
  ◌>>◌, guard, or_raise, is_empty, is_some, str_eq, if◌then◌else◌,
}
use bank_of_baroda_iit_gn.Common.Dict.{Dict, lookup, insert, erase}
use bank_of_baroda_iit_gn.Verifier.{Bytes}

-- The ways in which a run ends early: `SystemExit` with its cause, and an exception of a download.
pub data Exit : Type 0 where
  mismatch unknown_dataset : String → Exit
  no_kaggle download_failed : Exit

-- A file of a dataset: where it comes from, where it goes, and its digest if it is pinned.
pub record Source : Type 0 where
  pub url : String
  pub rel : String
  pub sha : Option String

-- An entry of `DATASETS`: some files; one file; or one archive of a Kaggle competition.
pub data Spec : Type 0 where
  several : List Source → Spec
  single : Source → Spec
  competition : String → String → String → Option String → Spec

-- The files below `data/raw`.
abbrev pub Files : Type 0
Files = Dict Bytes

-- What the outside delivers: the body of a URL, and the folder as the Kaggle client leaves it, `none`
-- where it fails.
pub record Outside : Type 0 where
  pub fetch : String → Option Bytes
  pub kaggle : String → Files → Option Files
  pub sha256 : Bytes → String

module _ (out : Outside) where
  open out use {fetch, kaggle, sha256}

  -- `download`, which moves the file into place when it is whole.
  unfoldable pub download : String → String → Files → Result Exit Files
  download url dest files = do
    body ← or_raise (fetch url) Exit.download_failed
    ok (insert dest body files)

  abbrev digest_fits : Bytes → Option String → Bool
  digest_fits body none = true
  digest_fits body (some sha) = str_eq (sha256 body) sha

  abbrev check_body : String → Option String → Option Bytes → Result Exit (Unit {0})
  check_body name sha none = err Exit.download_failed
  check_body name sha (some body) = guard (digest_fits body sha) (Exit.mismatch name)

  -- `verify`, which raises also where the file cannot be read.
  unfoldable pub verify : String → Option String → Files → Result Exit (Unit {0})
  verify path sha files = check_body path sha (lookup path files)

  -- One turn of the loop over the files of a dataset.
  unfoldable pub get_file : Source → Files → Result Exit Files
  unfolding download verify
  get_file s files = do
    after ← if is_some (lookup s.rel files) then ok files else download s.url s.rel files
    verify s.rel s.sha after
    ok after

  unfoldable pub get_files : List Source → Files → Result Exit Files
  unfolding get_file
  get_files [] files = ok files
  get_files (s ∷ ss) files = do after ← get_file s files; get_files ss after

  -- `fetch_kaggle`: the client downloads the competition into the folder, under a name of its own.
  unfoldable pub fetch_kaggle : String → Files → Result Exit Files
  fetch_kaggle comp files = or_raise (kaggle comp files) Exit.no_kaggle

  -- `if cand.exists(): cand.replace(out)`
  abbrev moved : String → String → Files → Files
  moved cand path files = elim (lookup cand files) [
    | none ↦ files
    | some body ↦ insert path body (erase cand files)
  ]

  -- The branches of `get_one` for an archive that is there, and for one to fetch.
  unfoldable pub competition_archive : String → String → String → Files → Result Exit Files
  unfolding fetch_kaggle
  competition_archive comp cand path files =
      if is_some (lookup path files)
      then ok files
      else (fetch_kaggle comp files >>= λ fetched. ok (moved cand path fetched))

  -- `if out.exists(): verify(…)`
  unfoldable pub verify_present : String → Option String → Files → Result Exit (Unit {0})
  unfolding verify
  verify_present path sha files =
      if is_some (lookup path files) then verify path sha files else ok tt

  unfoldable pub get_competition :
      String → String → String → Option String → Files → Result Exit Files
  unfolding competition_archive verify_present
  get_competition comp cand path sha files = do
    after ← competition_archive comp cand path files
    verify_present path sha after
    ok after

  -- `get_one`
  unfoldable pub get_one : Spec → Files → Result Exit Files
  unfolding get_files get_file get_competition
  get_one (several ss) files = get_files ss files
  get_one (single s) files = get_file s files
  get_one (competition comp cand path sha) files = get_competition comp cand path sha files

  -- The loop of `main` over the names; `datasets` is `DATASETS`.
  unfoldable pub fetch_all : Dict Spec → List String → Files → Result Exit Files
  unfolding get_one
  fetch_all datasets [] files = ok files
  fetch_all datasets (n ∷ names) files = do
    spec ← or_raise (lookup n datasets) (Exit.unknown_dataset n)
    after ← get_one spec files
    fetch_all datasets names after
