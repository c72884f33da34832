-- ===== src/Tests/Extract.antt =====
-- Archives that are unpacked below `/out`, and one that is not.
use froggit_go.Base.{
  String, ◌<>◌, ◌≡◌, ◌≢◌, refl, true, false, none, Option, [], ◌∷◌, ok, err, Error, errorf, arith,
  eq_iff,
}
use froggit_go.Base.Text.{has_prefix}
use froggit_go.Extract.Path.{clean, sanitize_extraction_path, remove_base_dir}
use froggit_go.Extract.Path.Inside.{
  IsInside, IsAnchored, rooted-IsAnchored, sanitize_extraction_path-IsInside,
}
use froggit_go.Extract.Path.Limits.{sanitize_extraction_path-escapes}
use froggit_go.Extract.Io.{Os, Makes, ◌>>=◌, perform, lift}
use froggit_go.Extract.Copy.{
  Source, copied, IsReturned, safe_copy, safe_copy-copied, safe_copy-returns,
}
use froggit_go.Extract.Tar
use froggit_go.Extract.Tar.{untar}
use froggit_go.Extract.Tar.Safe.{untar-IsAllowed, untar-reader_error}
use froggit_go.Extract.Zip
use froggit_go.Extract.Zip.{unzip}
use froggit_go.Extract.Zip.Safe.{unzip-IsAllowed}

abbrev os : Os
os = record { answer = λ log op. none; is_not_exist = λ e. true }

abbrev large : Source
large = record { size = 2500; failure = none }

abbrev tar : Tar.Archive
tar = record {
  gzip_error = none;
  entries =
      record { name = "app/src/a.txt"; typeflag = Tar.type_reg; content = large }
      ∷ record { name = "app/../../b.txt"; typeflag = Tar.type_reg; content = large }
      ∷ [];
  reader_error = none;
}

abbrev zip : Zip.Archive
zip = record {
  zip_error = none;
  files = record { name = "src/a.txt"; is_dir = false; content = large } ∷ [];
}

anchored : IsAnchored "/out"
unfolding clean
anchored = refl

below : sanitize_extraction_path "src/../a.txt" "/out/x" ≡ ok "/out/x/a.txt"
unfolding sanitize_extraction_path
below = refl

outside : sanitize_extraction_path "../a.txt" "/out/x" ≡ err (errorf "../a.txt: illegal file path")
unfolding sanitize_extraction_path
outside = refl

base : remove_base_dir "app/src/a.txt" ≡ "src/a.txt"
unfolding remove_base_dir
base = refl

sanitize_extraction_path-IsInside_example : IsInside "/out/x" "/out/x/a.txt"
sanitize_extraction_path-IsInside_example =
    sanitize_extraction_path-IsInside "src/../a.txt" "/out/x"
      (rooted-IsAnchored "/out/x" (unfold has_prefix in refl)) below

untar-IsAllowed_example : Makes (Tar.Safe.IsAllowed "/out") (untar os "/out" true tar)
untar-IsAllowed_example = untar-IsAllowed os "/out" anchored true tar

unzip-IsAllowed_example :
    Makes (Zip.Safe.IsAllowed "/out") (unzip os (λ p. ok ("/" <> p)) zip "out")
unzip-IsAllowed_example =
    unzip-IsAllowed os (λ p. ok ("/" <> p)) zip "out" "/out" refl (unfold has_prefix in refl)

copy_ok : (safe_copy os "/out/a" large []).0 ≡ ok tt
unfolding safe_copy ◌>>=◌ perform lift
copy_ok = refl

safe_copy-copied_example :
    (◌≡◌ {A = Option Error} none none) × (copied (safe_copy os "/out/a" large []).1 ≡ 2500)
safe_copy-copied_example = safe_copy-copied os "/out/a" large [] copy_ok

safe_copy-returns_example : IsReturned (safe_copy os "/out/a" large []).0
safe_copy-returns_example = safe_copy-returns os "/out/a" large []

root : clean "/." ≡ "/"
unfolding clean
root = refl

is_name : ◌≢◌ {A = String} "a" "" × ◌≢◌ {A = String} "a" "." × ◌≢◌ {A = String} "a" ".."
is_name = ground (arith, eq_iff "a" "", eq_iff "a" ".", eq_iff "a" "..")

sanitize_extraction_path-escapes_example :
    (sanitize_extraction_path "../a" ".." ≡ ok "../../a") × (¬ IsInside ".." "../../a")
sanitize_extraction_path-escapes_example = sanitize_extraction_path-escapes "a" is_name (refl, tt)
