-- ===== src/Extract/Tar/Safe.antt =====
-- What `Untar` touches, and what it says of an archive that cannot be read.
use froggit_go.Base.{
  String, Bool, ◌≡◌, refl, ◌⊎◌, inl, inr, List, [], ◌∷◌, Option, none, some, Error,
}
use froggit_go.Extract.Path.{clean}
use froggit_go.Extract.Path.Inside.{IsInside, IsAnchored, sanitize_extraction_path-IsInside}
use froggit_go.Extract.Io.{
  Op, stat, mkdir_all, open_file, close_file, copy, close_reader, Os, Io, Makes, Makes-lift-bind,
  Makes-bind, Makes-if, Makes-lift, Makes-pure, Makes-perform, Makes-deferred,
}
use froggit_go.Extract.Copy.{Source, safe_copy-Makes}
use froggit_go.Extract.Tar.{
  Header, Archive, type_dir, type_reg, type_other, missing, make_dir_if_missing, TypeFlag,
  extract_entry, untar_round, untar_loop, untar,
}

-- The path is the destination, or lies below it.
abbrev pub IsWithin : String → String → Type 0
IsWithin dest path = (path ≡ dest) ⊎ IsInside dest path

-- What is made, opened or written is the destination or lies below it. A file is opened at the
-- clean form of a path below it.
abbrev pub IsAllowed : String → Op → Type 0
IsAllowed dest (stat p) = IsWithin dest p
IsAllowed dest (mkdir_all p) = IsWithin dest p
IsAllowed dest (open_file p) = (target : String) × (p ≡ clean target) × IsInside dest target
IsAllowed dest (copy p n) = IsInside dest p
IsAllowed dest (close_file p) = IsInside dest p
IsAllowed dest close_reader = Unit
IsAllowed dest _ = ⊥

module _ (os : Os) (dest : String) where
  missing-IsAllowed :
      (p : String) (answer : Option Error)
      → IsWithin dest p
      → Makes (IsAllowed dest) (missing os p answer)
  missing-IsAllowed p none h = Makes-pure tt
  missing-IsAllowed p (some e) h = Makes-if _ _ _ (Makes-perform os (mkdir_all p) h) (Makes-lift _)

  make_dir-IsAllowed :
      (p : String) → IsWithin dest p → Makes (IsAllowed dest) (make_dir_if_missing os p)
  unfolding make_dir_if_missing
  make_dir-IsAllowed p h = record {
    keeps = λ log l. (missing-IsAllowed p _ h).keeps (stat p ∷ log) (h, l);
  }

  extract_entry-IsAllowed :
      (flag : TypeFlag) (content : Source) (target : String)
      → IsInside dest target
      → Makes (IsAllowed dest) (extract_entry os flag content target)
  unfolding extract_entry
  extract_entry-IsAllowed type_dir content target i = make_dir-IsAllowed target (inr i)
  extract_entry-IsAllowed type_reg content target i =
      Makes-bind _ _ (Makes-perform os (open_file (clean target)) (target, refl, i)) λ _.
        Makes-bind _ _ (safe_copy-Makes (IsAllowed dest) os target (λ n. i) content)
          λ _. Makes-perform os (close_file target) i
  extract_entry-IsAllowed type_other content target i = Makes-pure tt

module _ (os : Os) (dest : String) (anchored : IsAnchored dest) (remove_base : Bool) where
  untar_round-IsAllowed :
      (h : Header) (others : Io (Unit {0}))
      → Makes (IsAllowed dest) others
      → Makes (IsAllowed dest) (untar_round os dest remove_base h others)
  unfolding untar_round
  untar_round-IsAllowed h others k = Makes-if _ _ _ k (
      Makes-lift-bind _ _ λ target checked.
        Makes-bind _ _
          (extract_entry-IsAllowed os dest h.typeflag h.content target
            (sanitize_extraction_path-IsInside _ dest anchored checked))
          λ _. k)

  untar_loop-IsAllowed :
      (end : Option Error) (entries : List Header)
      → Makes (IsAllowed dest) (untar_loop os dest remove_base end entries)
  unfolding untar_loop
  untar_loop-IsAllowed none [] = Makes-pure tt
  untar_loop-IsAllowed (some e) [] = Makes-pure tt
  untar_loop-IsAllowed end (h ∷ rest) = untar_round-IsAllowed h _ (untar_loop-IsAllowed end rest)

  -- Whatever the archive holds and the operating system answers, `Untar` makes directories, opens
  -- files and writes only at the destination and below it, if the clean destination is not made of
  -- `.` and `..` alone.
  pub untar-IsAllowed : (a : Archive) → Makes (IsAllowed dest) (untar os dest remove_base a)
  unfolding untar
  untar-IsAllowed a = Makes-bind _ _ (Makes-lift _) λ _.
      Makes-deferred _ _ (Makes-perform os close_reader tt) (
        Makes-bind _ _ (make_dir-IsAllowed os dest dest (inl refl))
          λ _. untar_loop-IsAllowed a.reader_error a.entries)

module _ (os : Os) (dest : String) (remove_base : Bool) where
  untar_loop-reader_error :
      (e : Error) (entries : List Header)
      → untar_loop os dest remove_base (some e) entries
        ≡ untar_loop os dest remove_base none entries
  unfolding untar_loop
  untar_loop-reader_error e [] = refl
  untar_loop-reader_error e (h ∷ rest) = rw (untar_loop-reader_error e rest)

  -- An archive that breaks off with a read error is unpacked as if it had ended there: the result is
  -- the same, and the error is not in it.
  pub untar-reader_error :
      (a : Archive) (e : Error)
      → untar os dest remove_base (record a { reader_error = some e })
        ≡ untar os dest remove_base (record a { reader_error = none })
  unfolding untar
  untar-reader_error a e = rw (untar_loop-reader_error e a.entries)
