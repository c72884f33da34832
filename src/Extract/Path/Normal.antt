-- ===== src/Extract/Path/Normal.antt =====
-- The parts of a clean path.
use froggit_go.Base.{
  String, ◌≡◌, ◌≢◌, refl, Bool, true, false, ◌&&◌, ◌||◌, List, [], ◌∷◌, ◌++◌, All, arith, ◌==◌,
  eq_iff, ◌⊎◌, inl, inr,
}
use text.Mathlib.TextLemmas.{cons-ne-nil, append-ne-nil_of_right_ne-nil}
use froggit_go.Base.Text.{split, Lacks, split-append, split-Lacks, split-sep, All-split}
use froggit_go.Extract.Path.{push_part, push_parts, render, clean_stack, clean}

abbrev pub IsName : String → Type 0
IsName p = (p ≢ "") × (p ≢ ".") × (p ≢ "..")

abbrev is_dots : String → Bool
is_dots p = p == "." || p == ".."

-- Every part is `.` or `..`.
abbrev pub all_dots : List String → Bool
all_dots [] = true
all_dots (p ∷ ps) = is_dots p && all_dots ps

-- Behind a part that is not `.` or `..` there are names only.
abbrev pub IsSettled : List String → Type 0
IsSettled [] = Unit
IsSettled (p ∷ ps) = (is_dots p ≡ false → All IsName ps) × IsSettled ps

-- The stack of a path: `..` is on it only above other `..`, and never in a rooted path.
abbrev IsStack : Bool → List String → Type 0
IsStack rooted [] = Unit
IsStack rooted (p ∷ out) =
    Lacks "/" p
    × (p ≢ "")
    × (p ≢ ".")
    × (p ≡ ".." → (rooted ≡ false) × All (λ q. q ≡ "..") out)
    × IsStack rooted out

push_part-IsStack :
    (rooted : Bool) (out : List String) (p : String)
    → IsStack rooted out
    → Lacks "/" p
    → IsStack rooted (push_part rooted out p)
unfolding push_part
push_part-IsStack rooted [] p s l = ground (arith, eq_iff p "", eq_iff p ".", eq_iff p "..")
push_part-IsStack rooted (q ∷ out) p s l =
    ground (arith, eq_iff p "", eq_iff p ".", eq_iff p "..", eq_iff q "..")

push_parts-IsStack :
    (rooted : Bool) (ps out : List String)
    → IsStack rooted out
    → All (Lacks "/") ps
    → IsStack rooted (push_parts rooted out ps)
unfolding push_parts
push_parts-IsStack rooted [] out s l = s
push_parts-IsStack rooted (p ∷ ps) out s l =
    push_parts-IsStack rooted ps (push_part rooted out p) (push_part-IsStack rooted out p s l.0) l.1

-- The stack from the bottom up.
unstack : List String → List String
unstack [] = []
unstack (p ∷ out) = unstack out ++ p ∷ []

split-render :
    (rooted : Bool) (p : String) (out : List String)
    → IsStack rooted (p ∷ out)
    → split "/" (render (p ∷ out)) ≡ unstack (p ∷ out)
unfolding render unstack
split-render rooted p [] s = split-Lacks "/" p s.0
split-render rooted p (q ∷ out) s =
    rw (split-append "/" (render (q ∷ out)) p, split-Lacks "/" p s.0, split-render rooted q out s.4)

All-snoc {ℓ κ} :
    {A : Type ℓ} (P : A → Type κ) (xs : List A) (x : A) → All P xs → P x → All P (xs ++ x ∷ [])
All-snoc P [] x h p = (p, tt)
All-snoc P (y ∷ xs) x h p = (h.0, All-snoc P xs x h.1 p)

all_dots-snoc :
    (ps : List String) (p : String) → all_dots ps ≡ true → p ≡ ".." → all_dots (ps ++ p ∷ []) ≡ true
all_dots-snoc [] p h e = ground (arith, eq_iff p "..")
all_dots-snoc (q ∷ ps) p h e = ground (arith, all_dots-snoc ps p)

all_dots-unstack : (out : List String) → All (λ q. q ≡ "..") out → all_dots (unstack out) ≡ true
unfolding unstack
all_dots-unstack [] h = refl
all_dots-unstack (p ∷ out) h = all_dots-snoc (unstack out) p (all_dots-unstack out h.1) h.0

IsSettled-snoc :
    (ps : List String) (p : String)
    → IsSettled ps
    → (all_dots ps ≡ false → IsName p)
    → IsSettled (ps ++ p ∷ [])
IsSettled-snoc [] p s h = (λ _. tt, tt)
IsSettled-snoc (q ∷ ps) p s h =
    (λ k. All-snoc IsName ps p (s.0 k) (h (rw k)), IsSettled-snoc ps p s.1 (λ k. h (ground arith)))

top-IsName :
    (rooted : Bool) (p : String) (out : List String)
    → IsStack rooted (p ∷ out)
    → all_dots (unstack out) ≡ false
    → IsName p
top-IsName rooted p out s k = (s.1, s.2, λ e. cc (all_dots-unstack out (s.3 e).1))

unstack-IsSettled :
    (rooted : Bool) (out : List String) → IsStack rooted out → IsSettled (unstack out)
unfolding unstack
unstack-IsSettled rooted [] s = tt
unstack-IsSettled rooted (p ∷ out) s =
    IsSettled-snoc (unstack out) p (unstack-IsSettled rooted out s.4) (top-IsName rooted p out s)

unstack-names : (out : List String) → IsStack true out → All IsName (unstack out)
unfolding unstack
unstack-names [] s = tt
unstack-names (p ∷ out) s =
    All-snoc IsName (unstack out) p (unstack-names out s.4) (s.1, s.2, λ e. cc (s.3 e).0)

clean_stack-IsSettled :
    (rooted : Bool) (out : List String)
    → IsStack rooted out
    → (clean_stack rooted out ≡ "/") ⊎ IsSettled (split "/" (clean_stack rooted out))
unfolding clean_stack
clean_stack-IsSettled true [] s = inl refl
clean_stack-IsSettled true (p ∷ out) s = inr (
    rw (split-sep "/" (render (p ∷ out)), split-render true p out s)
      (λ _. unstack-names (p ∷ out) s, unstack-IsSettled true (p ∷ out) s))
clean_stack-IsSettled false [] s = inr (unfold split in (λ _. tt, tt))
clean_stack-IsSettled false (p ∷ out) s =
    inr (rw (split-render false p out s) (unstack-IsSettled false (p ∷ out) s))

-- A clean path is the root, or has names only behind its first part that is not `.` or `..`.
pub clean-IsSettled : (path : String) → (clean path ≡ "/") ⊎ IsSettled (split "/" (clean path))
unfolding clean
clean-IsSettled path =
    clean_stack-IsSettled _ _ (push_parts-IsStack _ (split "/" path) [] tt (All-split "/" path))

clean_stack-ne-nil :
    (rooted : Bool) (out : List String) → IsStack rooted out → clean_stack rooted out ≢ ""
unfolding clean_stack
clean_stack-ne-nil true out s = cons-ne-nil "/" (render out)
clean_stack-ne-nil false [] s = cons-ne-nil "." ""
clean_stack-ne-nil false (p ∷ []) s = s.1
clean_stack-ne-nil false (p ∷ q ∷ out) s =
    append-ne-nil_of_right_ne-nil (render (q ∷ out)) (cons-ne-nil "/" p)

pub clean-ne-nil : (path : String) → clean path ≢ ""
unfolding clean
clean-ne-nil path =
    clean_stack-ne-nil _ _ (push_parts-IsStack _ (split "/" path) [] tt (All-split "/" path))
