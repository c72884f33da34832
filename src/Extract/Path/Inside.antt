-- ===== src/Extract/Path/Inside.antt =====
-- Where a checked entry lies.
use froggit_go.Base.{
  String, ◌<>◌, ◌≡◌, ◌≢◌, refl, sym, ap, ◌∙◌, true, false, List, [], ◌∷◌, ◌++◌, ok, All, arith, inl,
  inr, Bool-cases, ◌==◌, eq_iff, Option-cases,
}
use text.Mathlib.TextLemmas.{
  append_assoc, cons-append, nil-append, cons-ne-nil, append-ne-nil_of_right_ne-nil,
  tail-eq_of_cons-eq,
}
use froggit_go.Base.Text.{split, strip, strip-eq-some, has_prefix, split-append}
use froggit_go.Extract.Path.{clean, join_path, sanitize_extraction_path}
use froggit_go.Extract.Path.Normal.{IsName, IsSettled, all_dots, clean-IsSettled, clean-ne-nil}

-- The parts of the target are those of the clean destination and then names: none of them is empty,
-- `.` or `..`, so the target lies below the destination.
abbrev pub IsInside : String → String → Type 0
IsInside destination target =
    (below : List String) × (split "/" target ≡ split "/" (clean destination) ++ below)
    × (below ≢ [])
    × All IsName below

-- The clean destination is not made of `.` and `..` alone.
abbrev pub IsAnchored : String → Type 0
IsAnchored destination = all_dots (split "/" (clean destination)) ≡ false

-- A path from the root is anchored.
pub rooted-IsAnchored : (path : String) → has_prefix path "/" ≡ true → IsAnchored path
unfolding clean split
rooted-IsAnchored path h = rw h refl

All-append_right {ℓ κ} :
    {A : Type ℓ} (P : A → Type κ) (xs ys : List A) → All P (xs ++ ys) → All P ys
All-append_right P [] ys h = h
All-append_right P (x ∷ xs) ys h = All-append_right P xs ys h.1

IsSettled-append :
    (xs ys : List String) → IsSettled (xs ++ ys) → all_dots xs ≡ false → All IsName ys
IsSettled-append [] ys s h = cc
IsSettled-append (x ∷ xs) ys s h = elim (Bool-cases (all_dots xs)) [
  | inl dots ↦ All-append_right IsName xs ys (s.0 (ground arith))
  | inr more ↦ IsSettled-append xs ys s.1 more
]

-- `Join` of a path and a clean one gives a clean path.
pub join_path-clean : (a b : String) → (x : String) × (join_path (a ∷ clean b ∷ []) ≡ clean x)
unfolding join_path
join_path-clean a b = elim (Bool-cases (a == "")) [
  | inl e ↦ (clean b, rw e (ground (arith, eq_iff (clean b) "", clean-ne-nil b)))
  | inr n ↦ (a <> ("/" <> clean b), rw n)
]

pub sanitize-ok :
    (path destination : String) {target : String}
    → sanitize_extraction_path path destination ≡ ok target
    → (target ≡ join_path (destination ∷ clean path ∷ []))
      × ((rest : String) × (target ≡ (clean destination <> "/") <> rest))
unfolding sanitize_extraction_path
sanitize-ok path destination {target} h =
    let joined = join_path (destination ∷ clean path ∷ []) in
    let prefix = clean destination <> "/" in
    elim (Option-cases (strip prefix joined)) [
      | inl e ↦ absurd (ground arith)
      | inr (rest, e) ↦ (ground arith, (rest, ground (arith, strip-eq-some prefix joined e)))
    ]

-- The root has nothing around its slash.
slash-append : (s r : String) → "/" ≡ s <> String.◌∷◌ "/" r → s ≡ ""
slash-append String.[] r h = refl
slash-append (String.◌∷◌ c s) r h = absurd (
    append-ne-nil_of_right_ne-nil s (cons-ne-nil "/" r)
      (sym (tail-eq_of_cons-eq (h ∙ cons-append c s (String.◌∷◌ "/" r)))))

split-ne-nil : (s : String) → split "/" s ≢ []
unfolding split
split-ne-nil s = ground arith

pub below_slash : (s r : String) → (s <> "/") <> r ≡ s <> String.◌∷◌ "/" r
below_slash s r =
    append_assoc s "/" r
    ∙ ap (λ t. s <> t) (cons-append "/" "" r ∙ ap (String.◌∷◌ "/") (nil-append r))

-- A clean text that goes on behind an anchored destination goes on with names.
clean_below :
    (x destination rest : String)
    → IsAnchored destination
    → clean x ≡ clean destination <> String.◌∷◌ "/" rest
    → All IsName (split "/" rest)
clean_below x destination rest a e = elim (clean-IsSettled x) [
  | inl root ↦
      absurd (clean-ne-nil destination (slash-append (clean destination) rest (sym root ∙ e)))
  | inr settled ↦
      IsSettled-append (split "/" (clean destination)) (split "/" rest)
        (rw (e, split-append "/" (clean destination) rest) at settled) a
]

-- An entry whose path passes the check is below the destination, if the clean destination is not
-- made of `.` and `..` alone: the parts of the target are those of the destination and then at
-- least one more, none of them empty, `.` or `..`.
pub sanitize_extraction_path-IsInside :
    (path destination : String) {target : String}
    → IsAnchored destination
    → sanitize_extraction_path path destination ≡ ok target
    → IsInside destination target
sanitize_extraction_path-IsInside path destination a h =
    let (joined, (rest, e)) = sanitize-ok path destination h in
    let (x, clean_x) = join_path-clean destination path in
    let e' = e ∙ below_slash (clean destination) rest in
    (
      split "/" rest,
      rw e' (split-append "/" (clean destination) rest),
      split-ne-nil rest,
      clean_below x destination rest a (sym clean_x ∙ sym joined ∙ e'),
    )
