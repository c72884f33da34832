-- ===== src/Extract/Path.antt =====
-- `filepath.Clean` and `filepath.Join` on Unix, and the two functions of vcsutils/utils.go that
-- check the path of an entry. A path is taken apart at its slashes.
pub mod Normal
pub mod Inside
pub mod Limits
use froggit_go.Base.{
  String, ◌<>◌, Bool, true, false, ◌&&◌, ◌||◌, not, List, [], ◌∷◌, Result, ok, err, errorf, ◌==◌,
  if◌then◌else◌,
}
use froggit_go.Base.Text.{split, join, has_prefix}

-- One part of a path, on the stack of the parts before it: the last one stands first. An empty part
-- and `.` are dropped, and `..` removes the part before it, if that is a name.
push_part : Bool → List String → String → List String
push_part rooted [] p =
    if p == "" || p == "." then [] else if p == ".." && rooted then [] else p ∷ []
push_part rooted (q ∷ out) p =
    if p == "" || p == "."
    then q ∷ out
    else if p == ".." && not (q == "..")
    then out
    else if p == ".." && rooted
    then q ∷ out
    else p ∷ q ∷ out

push_parts : Bool → List String → List String → List String
unfolding push_part
push_parts rooted out [] = out
push_parts rooted out (p ∷ ps) = push_parts rooted (push_part rooted out p) ps

-- The text of a stack.
render : List String → String
render [] = ""
render (p ∷ []) = p
render (p ∷ q ∷ out) = render (q ∷ out) <> String.◌∷◌ "/" p

clean_stack : Bool → List String → String
unfolding render
clean_stack true out = String.◌∷◌ "/" (render out)
clean_stack false [] = "."
clean_stack false (p ∷ out) = render (p ∷ out)

-- `filepath.Clean`
unfoldable pub clean : String → String
unfolding has_prefix split push_parts clean_stack
clean path =
    let rooted = has_prefix path "/" in clean_stack rooted (push_parts rooted [] (split "/" path))

-- `filepath.Join`: empty elements in front are skipped.
unfoldable pub join_path : List String → String
unfolding clean join
join_path [] = ""
join_path (e ∷ es) = let rest = join_path es in if e == "" then rest else clean (join "/" (e ∷ es))

-- `sanitizeExtractionPath`
unfoldable pub sanitize_extraction_path : String → String → Result String
unfolding join_path
sanitize_extraction_path path destination =
    let target = join_path (destination ∷ clean path ∷ []) in
    if not (has_prefix target (clean destination <> "/"))
    then err (errorf (path <> ": illegal file path"))
    else ok target

-- `removeBaseDir`: the path without its first part, and the empty text if there is no other.
unfoldable pub remove_base_dir : String → String
unfolding join_path
remove_base_dir path = elim (split "/" (clean path)) [ [] ↦ "" | first ∷ others ↦ join_path others ]
