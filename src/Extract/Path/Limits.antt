-- ===== src/Extract/Path/Limits.antt =====
-- Destinations for which the check of an entry's path does not do what it is there for.
use froggit_go.Base.{
  String, ◌<>◌, ◌≡◌, refl, sym, ◌∙◌, ap, true, false, not, [], ◌∷◌, ◌++◌, List, All, ok, err,
  errorf, arith, eq_iff, ◌⊎◌, inl, inr, if◌then◌else◌, Bool-cases,
}
use text.Mathlib.TextLemmas.{append_assoc, cons-append, nil-append, cons≢nil, tail-eq_of_cons-eq}
use froggit_go.Base.Text.{
  split, has_prefix, Lacks, split-append, split-Lacks, strip-clash, split-sep, has_prefix-append,
}
use froggit_go.Extract.Path.{clean, join_path, sanitize_extraction_path, push_parts, clean_stack}
use froggit_go.Extract.Path.Normal.{IsName, clean-IsSettled}
use froggit_go.Extract.Path.Inside.{IsInside, sanitize-ok, join_path-clean}

refused_or_ok :
    (path destination : String)
    → (sanitize_extraction_path path destination ≡ err (errorf (path <> ": illegal file path")))
      ⊎ ((target : String) × (sanitize_extraction_path path destination ≡ ok target))
unfolding sanitize_extraction_path
refused_or_ok path destination =
    let target = join_path (destination ∷ clean path ∷ []) in
    elim (Bool-cases (has_prefix target (clean destination <> "/"))) [
      | inl e ↦ inr (target, rw (e, if◌then◌else◌))
      | inr e ↦ inl (rw e)
    ]

two_slashes : (rest : String) → ("/" <> "/") <> rest ≡ String.◌∷◌ "/" (String.◌∷◌ "/" rest)
two_slashes rest =
    cons-append "/" "/" rest
    ∙ ap (String.◌∷◌ "/") (cons-append "/" "" rest ∙ ap (String.◌∷◌ "/") (nil-append rest))

-- No clean path begins with two slashes.
clean-one_slash : (x rest : String) → clean x ≡ String.◌∷◌ "/" (String.◌∷◌ "/" rest) → ⊥
clean-one_slash x rest e = elim (clean-IsSettled x) [
  | inl root ↦ cons≢nil (tail-eq_of_cons-eq (sym e ∙ root))
  | inr settled ↦
      let names =
        (rw (e, split-sep "/" (String.◌∷◌ "/" rest), split-sep "/" rest) at settled).0 refl in
      names.0.0 refl
]

-- No entry can be unpacked into the root: every path is refused as illegal.
pub sanitize_extraction_path-root :
    (path destination : String)
    → clean destination ≡ "/"
    → sanitize_extraction_path path destination ≡ err (errorf (path <> ": illegal file path"))
sanitize_extraction_path-root path destination root = elim (refused_or_ok path destination) [
  | inl e ↦ e
  | inr (target, e) ↦
      let (joined, (rest, below)) = sanitize-ok path destination e in
      let (x, clean_x) = join_path-clean destination path in
      absurd (
        clean-one_slash x rest
          (sym clean_x ∙ sym joined ∙ below ∙ ap (λ d. (d <> "/") <> rest) root ∙ two_slashes rest))
]

clean_lem :
    (path : String)
    → clean path
      ≡ clean_stack (has_prefix path "/") (push_parts (has_prefix path "/") [] (split "/" path))
unfolding clean
clean_lem path = refl

relative : (rest : String) → has_prefix (".." <> rest) "/" ≡ false
unfolding has_prefix
relative rest = rw (has_prefix, strip-clash "/" ".." rest refl refl)

sanitize_extraction_path_lem :
    (path destination : String)
    → let target = join_path (destination ∷ clean path ∷ []) in
      sanitize_extraction_path path destination ≡ (
        if not (has_prefix target (clean destination <> "/"))
        then err (errorf (path <> ": illegal file path"))
        else ok target)
unfolding sanitize_extraction_path
sanitize_extraction_path_lem path destination = refl

join_path_lem : (b : String) → join_path (".." ∷ b ∷ []) ≡ clean (".." <> String.◌∷◌ "/" b)
unfolding join_path
join_path_lem b =
    ap (λ t. clean (".." <> t)) (cons-append "/" "" b ∙ ap (String.◌∷◌ "/") (nil-append b))

clean-dots : clean ".." ≡ ".."
unfolding clean
clean-dots = refl

module _ (name : String) (is_name : IsName name) (one_part : Lacks "/" name) where
  abbrev up : String
  up = ".." <> String.◌∷◌ "/" name

  up_parts : split "/" up ≡ ".." ∷ name ∷ []
  unfolding split
  up_parts = rw (split-append "/" ".." name, split-Lacks "/" name one_part)

  push_parts-up : push_parts false [] (".." ∷ name ∷ []) ≡ name ∷ ".." ∷ []
  unfolding push_parts
  push_parts-up = ground (arith, eq_iff name "", eq_iff name ".", eq_iff name "..")

  push_parts-up_up : push_parts false [] (".." ∷ ".." ∷ name ∷ []) ≡ name ∷ ".." ∷ ".." ∷ []
  unfolding push_parts
  push_parts-up_up = ground (arith, eq_iff name "", eq_iff name ".", eq_iff name "..")

  clean-up : clean up ≡ up
  unfolding clean_stack
  clean-up = rw (clean_lem up, relative (String.◌∷◌ "/" name)) (rw (up_parts, push_parts-up))

  passes : has_prefix ("../.." <> String.◌∷◌ "/" name) "../" ≡ true
  passes = rw (append_assoc "../" ".." (String.◌∷◌ "/" name)) (has_prefix-append "../" _)

  abbrev up_up : String
  up_up = ".." <> String.◌∷◌ "/" up

  up_up_parts : split "/" up_up ≡ ".." ∷ ".." ∷ name ∷ []
  unfolding split
  up_up_parts = rw (split-append "/" ".." up, up_parts)

  clean-up_up : clean up_up ≡ (".." <> "/..") <> String.◌∷◌ "/" name
  unfolding clean_stack
  clean-up_up =
      rw (clean_lem up_up, relative (String.◌∷◌ "/" up)) (rw (up_up_parts, push_parts-up_up))

  target_parts : split "/" ("../.." <> String.◌∷◌ "/" name) ≡ ".." ∷ ".." ∷ name ∷ []
  unfolding split
  target_parts = rw (split-append "/" "../.." name, split-Lacks "/" name one_part)

  -- `..` is no name.
  outside : (below : List String) → ".." ∷ ".." ∷ name ∷ [] ≡ ".." ∷ below → ¬ All IsName below
  outside below e names =
      let rest : below ≡ ".." ∷ name ∷ [] = cc in
      let (not_dots, is_name) : All IsName (".." ∷ name ∷ []) = rw rest at names in not_dots.2 refl

  target-IsOutside : ¬ IsInside ".." ("../.." <> String.◌∷◌ "/" name)
  unfolding split
  target-IsOutside (below, parts, some_below, names) =
      outside below (sym target_parts ∙ parts ∙ ap (λ d. split "/" d ++ below) clean-dots) names

  -- An entry `../name` that is unpacked into `..` passes the check, and its target `../../name` does
  -- not lie in `..`. The name has no slash, and is not empty, `.` or `..`.
  pub sanitize_extraction_path-escapes :
      (sanitize_extraction_path (".." <> String.◌∷◌ "/" name) ".."
        ≡ ok ("../.." <> String.◌∷◌ "/" name))
      × (¬ IsInside ".." ("../.." <> String.◌∷◌ "/" name))
  sanitize_extraction_path-escapes = (
    rw (
      sanitize_extraction_path_lem up "..",
      clean-up,
      join_path_lem up,
      clean-up_up,
      clean-dots,
      passes,
    ),
    target-IsOutside,
  )
