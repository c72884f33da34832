-- ===== src/Client/Shared/Owners.antt =====
-- The map from owners to repositories that the listings fill.
use mathlib.Core.List.{append_assoc, append-nil}
use froggit_go.Base.{
  ℕ, zero, suc, String, ◌≡◌, refl, sym, ap, ◌∙◌, List, [], ◌∷◌, ◌++◌, arith, ◌==◌, eq_iff,
  if◌then◌else◌, Bool-cases, inl, inr,
}
use froggit_go.Client.Shared.{append_to}

-- The entries of an owner in a map, and in a list of pairs of an owner and a name.
abbrev pub paths_at : String → List (String × List String) → List String
paths_at o [] = []
paths_at o ((q, paths) ∷ rest) = if q == o then paths else paths_at o rest

abbrev pub names_of_owner : String → List (String × String) → List String
names_of_owner o [] = []
names_of_owner o ((q, name) ∷ ps) =
    if q == o then name ∷ names_of_owner o ps else names_of_owner o ps

-- The pairs, one after the other.
abbrev pub append_all :
    List (String × String) → List (String × List String) → List (String × List String)
append_all [] r = r
append_all ((o, name) ∷ ps) r = append_all ps (append_to o name r)

pub paths_at-append_to :
    (o q path : String) (r : List (String × List String))
    → paths_at o (append_to q path r) ≡ paths_at o r ++ (if q == o then path ∷ [] else [])
unfolding append_to
paths_at-append_to o q path [] = refl
paths_at-append_to o q path ((k, paths) ∷ rest) = ground (
  arith,
  eq_iff k q,
  eq_iff k o,
  eq_iff q o,
  append-nil paths,
  append-nil (paths_at o rest),
  paths_at-append_to o q path rest,
)

pub paths_at-append_all :
    (o : String) (ps : List (String × String)) (r : List (String × List String))
    → paths_at o (append_all ps r) ≡ paths_at o r ++ names_of_owner o ps
paths_at-append_all o [] r = sym (append-nil (paths_at o r))
paths_at-append_all o ((q, name) ∷ ps) r =
    let step = paths_at-append_to o q name r in
    paths_at-append_all o ps (append_to q name r)
    ∙ ap (λ xs. xs ++ names_of_owner o ps) step
    ∙ elim (Bool-cases (q == o)) [
      | inl e ↦ rw e (append_assoc (paths_at o r) (name ∷ []) (names_of_owner o ps))
      | inr e ↦ rw e (ap (λ ys. ys ++ names_of_owner o ps) (append-nil (paths_at o r)))
    ]

pub append_all-append :
    (ps qs : List (String × String)) (r : List (String × List String))
    → append_all (ps ++ qs) r ≡ append_all qs (append_all ps r)
append_all-append [] qs r = refl
append_all-append ((o, name) ∷ ps) qs r = append_all-append ps qs (append_to o name r)

-- So many pages from page `k` on.
abbrev pub pages_from {ℓ} : {A : Type ℓ} → (ℕ → List A) → ℕ → ℕ → List A
pages_from pages k zero = []
pages_from pages k (suc n) = pages k ++ pages_from pages (suc k) n

-- A page, and the pages behind it.
pub append_all-page :
    (pages : ℕ → List (String × String)) (k n : ℕ) (r : List (String × List String))
    → append_all (pages_from pages (suc k) n) (append_all (pages k) r)
      ≡ append_all (pages_from pages k (suc n)) r
append_all-page pages k n r = sym (append_all-append (pages k) (pages_from pages (suc k) n) r)
