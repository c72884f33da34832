-- ===== src/Extract/Zip/Safe.antt =====
-- What `Unzip` touches.
use froggit_go.Base.{String, ◌≡◌, refl, ◌⊎◌, inl, inr, List, [], ◌∷◌, Result, ok, true, sym, ◌∙◌}
use mathlib.Core.Path.{subst}
use froggit_go.Base.Text.{has_prefix}
use froggit_go.Extract.Path.{clean}
use froggit_go.Extract.Path.Inside.{
  IsInside, IsAnchored, rooted-IsAnchored, sanitize_extraction_path-IsInside,
}
use froggit_go.Extract.Io.{
  Op, mkdir_all, open_file, close_file, copy, open_entry, close_entry, Os, Makes, Makes-lift-bind,
  Makes-bind, Makes-if, Makes-lift, Makes-pure, Makes-perform, Makes-deferred,
}
use froggit_go.Extract.Copy.{safe_copy-Makes}
use froggit_go.Extract.Zip.{File, Archive, dir, write_file, unzip_loop, unzip}

-- Files are opened, written and closed below the destination, and a directory is made there or is
-- the parent of a path there. An entry of the archive is only read.
abbrev pub IsAllowed : String → Op → Type 0
IsAllowed dest (mkdir_all p) =
    IsInside dest p ⊎ ((target : String) × (p ≡ dir target) × IsInside dest target)
IsAllowed dest (open_file p) = (target : String) × (p ≡ clean target) × IsInside dest target
IsAllowed dest (copy p n) = IsInside dest p
IsAllowed dest (close_file p) = IsInside dest p
IsAllowed dest (open_entry name) = Unit
IsAllowed dest (close_entry name) = Unit
IsAllowed dest _ = ⊥

ok-injective : {s t : String} → ok s ≡ ok t → s ≡ t
ok-injective h = cc

module _ (os : Os) (dest : String) (anchored : IsAnchored dest) where
  write_file-IsAllowed :
      (f : File) (target : String)
      → IsInside dest target
      → Makes (IsAllowed dest) (write_file os dest f target)
  unfolding write_file
  write_file-IsAllowed f target i =
      Makes-if f.is_dir _ _ (Makes-perform os (mkdir_all target) (inl i)) (
        Makes-bind _ _ (Makes-perform os (mkdir_all (dir target)) (inr (target, refl, i))) λ _.
          Makes-bind _ _ (Makes-perform os (open_file (clean target)) (target, refl, i)) λ _.
            Makes-deferred _ _ (Makes-perform os (close_file target) i) (
              Makes-bind _ _ (Makes-perform os (open_entry f.name) tt) λ _.
                Makes-deferred _ _ (Makes-perform os (close_entry f.name) tt)
                  (safe_copy-Makes (IsAllowed dest) os target (λ n. i) f.content)))

  unzip_loop-IsAllowed : (files : List File) → Makes (IsAllowed dest) (unzip_loop os dest files)
  unfolding unzip_loop
  unzip_loop-IsAllowed [] = Makes-pure tt
  unzip_loop-IsAllowed (f ∷ rest) =
      Makes-bind _ _
        (Makes-lift-bind _ _ λ target checked.
          write_file-IsAllowed f target
            (sanitize_extraction_path-IsInside f.name dest anchored checked))
        λ _. unzip_loop-IsAllowed rest

-- Whatever the archive holds and the operating system answers, `Unzip` opens, writes and closes
-- files only below the absolute form of the destination, and makes directories only there and at
-- the parents of paths there. `filepath.Abs` is assumed to give a path that begins with a slash.
pub unzip-IsAllowed :
    (os : Os) (abs : String → Result String) (a : Archive) (destination dest : String)
    → abs destination ≡ ok dest
    → has_prefix dest "/" ≡ true
    → Makes (IsAllowed dest) (unzip os abs a destination)
unfolding unzip
unzip-IsAllowed os abs a destination dest found rooted = Makes-bind _ _ (Makes-lift _) λ _.
    Makes-lift-bind (abs destination) _ λ d e.
      subst (λ x. Makes (IsAllowed dest) (unzip_loop os x a.files)) (ok-injective (sym found ∙ e))
        (unzip_loop-IsAllowed os dest (rooted-IsAnchored dest rooted) a.files)
