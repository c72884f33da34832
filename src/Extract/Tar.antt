-- ===== src/Extract/Tar.antt =====
-- `Untar` (vcsutils/utils.go).
pub mod Safe
use froggit_go.Base.{
  String, Bool, Option, none, some, List, [], ◌∷◌, err, Error, ◌==◌, if◌then◌else◌,
}
use froggit_go.Extract.Path.{clean, sanitize_extraction_path, remove_base_dir}
use froggit_go.Extract.Io.{
  Op, stat, mkdir_all, open_file, close_file, close_reader, Os, Io, perform, pure, lift, ◌>>=◌,
  ◌>>◌, as_result, deferred,
}
use froggit_go.Extract.Copy.{Source, safe_copy}

-- The type flag of a header: the code tells directories and regular files from the rest.
pub data TypeFlag : Type 0 where
  type_dir type_reg type_other : TypeFlag

pub record Header : Type 0 where
  pub name : String
  pub typeflag : TypeFlag
  pub content : Source

-- A stream: whether `gzip.NewReader` takes it, the entries that `Next` gives, and how `Next` ends,
-- at `io.EOF` or at another error.
pub record Archive : Type 0 where
  pub gzip_error : Option Error
  pub entries : List Header
  pub reader_error : Option Error

-- `makeDirIfMissing`: the directory is made if `Stat` says that it does not exist, and any other
-- error of `Stat` is returned.
abbrev missing : Os → String → Option Error → Io (Unit {0})
missing os dir none = pure tt
missing os dir (some e) = if os.is_not_exist e then perform os (mkdir_all dir) else lift (err e)

unfoldable pub make_dir_if_missing : Os → String → Io (Unit {0})
make_dir_if_missing os dir log = missing os dir (os.answer log (stat dir)) (stat dir ∷ log)

-- The `switch` on the type of an entry.
extract_entry : Os → TypeFlag → Source → String → Io (Unit {0})
unfolding make_dir_if_missing safe_copy
extract_entry os type_dir content target = make_dir_if_missing os target
extract_entry os type_reg content target = do
  perform os (open_file (clean target))
  safe_copy os target content
  perform os (close_file target)
extract_entry os type_other content target = pure tt

-- The loop is left with no error when `Next` gives `io.EOF`, and also when it gives another error:
-- the `return` there gives the named result `err`, which is nil.
stop : Option Error → Io (Unit {0})
stop none = pure tt
stop (some reader_error) = pure tt

module _ (os : Os) (dest_dir : String) (should_remove_base_dir : Bool) where
  abbrev entry_path : Header → String
  entry_path h = if should_remove_base_dir then remove_base_dir h.name else h.name

  -- One entry, and the rounds after it. An entry with an empty path is skipped.
  untar_round : Header → Io (Unit {0}) → Io (Unit {0})
  unfolding extract_entry
  untar_round h others =
      if entry_path h == ""
      then others
      else lift (sanitize_extraction_path (entry_path h) dest_dir) >>= λ target.
          extract_entry os h.typeflag h.content target >> others

  untar_loop : Option Error → List Header → Io (Unit {0})
  unfolding untar_round stop
  untar_loop end [] = stop end
  untar_loop end (h ∷ rest) = untar_round h (untar_loop end rest)

  unfoldable pub untar : Archive → Io (Unit {0})
  unfolding untar_loop
  untar a = do
    lift (as_result a.gzip_error)
    deferred (perform os close_reader)
        (do make_dir_if_missing os dest_dir; untar_loop a.reader_error a.entries)
