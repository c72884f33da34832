-- ===== src/Extract/Zip.antt =====
-- `Unzip` and `unzipFile` (vcsutils/utils.go).
pub mod Safe
use froggit_go.Base.{
  String, Bool, true, false, Option, none, some, List, [], ◌∷◌, ◌<>◌, Result, ok, err, Error,
  if◌then◌else◌,
}
use froggit_go.Base.Text.{split, join}
use froggit_go.Extract.Path.{clean, sanitize_extraction_path}
use froggit_go.Extract.Io.{
  mkdir_all, open_file, close_file, open_entry, close_entry, Os, Io, perform, pure, lift, ◌>>=◌,
  ◌>>◌, as_result, deferred,
}
use froggit_go.Extract.Copy.{Source, safe_copy}

-- The parts of a path but the last.
init : List String → List String
init [] = []
init (p ∷ []) = []
init (p ∷ q ∷ ps) = p ∷ init (q ∷ ps)

-- `filepath.Dir`: what stands before the last slash and the slash itself, made clean.
unfoldable pub dir : String → String
unfolding clean split join init
dir path = elim (init (split "/" path)) [ [] ↦ "." | p ∷ ps ↦ clean (join "/" (p ∷ ps) <> "/") ]

pub record File : Type 0 where
  pub name : String
  pub is_dir : Bool
  pub content : Source

-- What is read of the archive: whether `zip.NewReader` takes it, and its files.
pub record Archive : Type 0 where
  pub zip_error : Option Error
  pub files : List File

module _ (os : Os) (destination : String) where
  -- The part of `unzipFile` behind the check of the path.
  write_file : File → String → Io (Unit {0})
  unfolding dir safe_copy
  write_file f full_path =
      if f.is_dir
      then perform os (mkdir_all full_path)
      else perform os (mkdir_all (dir full_path))
        >> (perform os (open_file (clean full_path))
            >> deferred (perform os (close_file full_path)) (
                perform os (open_entry f.name)
                >> deferred (perform os (close_entry f.name)) (safe_copy os full_path f.content)))

  unfoldable pub unzip_file : File → Io (Unit {0})
  unfolding write_file sanitize_extraction_path
  unzip_file f = do
    full_path ← lift (sanitize_extraction_path f.name destination)
    write_file f full_path

  -- The loop over the files of the archive: the first error ends it.
  unzip_loop : List File → Io (Unit {0})
  unfolding unzip_file
  unzip_loop [] = pure tt
  unzip_loop (f ∷ rest) = unzip_file f >> unzip_loop rest

-- `abs` is `filepath.Abs`, which knows the working directory.
unfoldable pub unzip : Os → (String → Result String) → Archive → String → Io (Unit {0})
unfolding unzip_loop
unzip os abs a destination = do
  lift (as_result a.zip_error)
  destination ← lift (abs destination)
  unzip_loop os destination a.files
