-- ===== src/Client/Sorting.antt =====
-- `sort.Strings` of Go, and sets of texts (the package `datastructures` of jfrog/gofrog).
use Prim.Native.Char.{code}
use froggit_go.Base.{
  String, ◌≡◌, ◌≢◌, ◌↔◌, ◌⊎◌, inl, inr, refl, sym, Bool, true, false, List, [], ◌∷◌, ltb, nat_eq,
  if◌then◌else◌, arith, Bool-cases,
}

-- The order of the bytes of two texts, which is that of their code points.
unfoldable pub text_leq : String → String → Bool
text_leq String.[] t = true
text_leq (String.◌∷◌ c s) String.[] = false
text_leq (String.◌∷◌ c s) (String.◌∷◌ d t) =
    let rest = text_leq s t in
    if ltb (code c) (code d) then true else if nat_eq (code c) (code d) then rest else false

insert : String → List String → List String
unfolding text_leq
insert x [] = x ∷ []
insert x (y ∷ ys) = let rest = insert x ys in if text_leq x y then x ∷ y ∷ ys else y ∷ rest

-- Every sort of a list of texts gives the same list: this one is by insertion.
unfoldable pub sort_strings : List String → List String
unfolding insert
sort_strings [] = []
sort_strings (x ∷ xs) = insert x (sort_strings xs)

abbrev pub Occurs : String → List String → Type 0
Occurs x [] = ⊥
Occurs x (y ∷ ys) = (x ≡ y) ⊎ Occurs x ys

abbrev pub IsDistinct : List String → Type 0
IsDistinct [] = Unit
IsDistinct (x ∷ xs) = ¬ Occurs x xs × IsDistinct xs

abbrev pub StartsFrom : String → List String → Type 0
StartsFrom x [] = Unit
StartsFrom x (y ∷ ys) = text_leq x y ≡ true

-- Each text is at most the next one.
abbrev pub IsSorted : List String → Type 0
IsSorted [] = Unit
IsSorted (x ∷ xs) = StartsFrom x xs × IsSorted xs

text_leq-total : (x y : String) → text_leq x y ≡ false → text_leq y x ≡ true
unfolding text_leq
text_leq-total String.[] y h = absurd (ground arith)
text_leq-total (String.◌∷◌ c s) String.[] h = refl
text_leq-total (String.◌∷◌ c s) (String.◌∷◌ d t) h = ground (arith, text_leq-total s t)

insert-StartsFrom :
    (z x : String) (ys : List String)
    → text_leq z x ≡ true
    → StartsFrom z ys
    → StartsFrom z (insert x ys)
unfolding insert
insert-StartsFrom z x [] h s = h
insert-StartsFrom z x (y ∷ ys) h s = elim (Bool-cases (text_leq x y)) [
  | inl e ↦ rw e h
  | inr e ↦ rw e s
]

insert-IsSorted : (x : String) (ys : List String) → IsSorted ys → IsSorted (insert x ys)
unfolding insert
insert-IsSorted x [] s = (tt, tt)
insert-IsSorted x (y ∷ ys) s = elim (Bool-cases (text_leq x y)) [
  | inl e ↦ rw e (e, s)
  | inr e ↦ rw e (insert-StartsFrom y x ys (text_leq-total x y e) s.0, insert-IsSorted x ys s.1)
]

pub sort_strings-IsSorted : (xs : List String) → IsSorted (sort_strings xs)
unfolding sort_strings
sort_strings-IsSorted [] = tt
sort_strings-IsSorted (x ∷ xs) = insert-IsSorted x (sort_strings xs) (sort_strings-IsSorted xs)

insert-Occurs : (t x : String) (ys : List String) → Occurs t (insert x ys) ↔ ((t ≡ x) ⊎ Occurs t ys)
unfolding insert
insert-Occurs t x [] = ground arith
insert-Occurs t x (y ∷ ys) = ground (arith, insert-Occurs t x ys)

pub sort_strings-Occurs : (t : String) (xs : List String) → Occurs t (sort_strings xs) ↔ Occurs t xs
unfolding sort_strings
sort_strings-Occurs t [] = ground arith
sort_strings-Occurs t (x ∷ xs) =
    ground (arith, insert-Occurs t x (sort_strings xs), sort_strings-Occurs t xs)

insert-IsDistinct :
    (x : String) (ys : List String) → ¬ Occurs x ys → IsDistinct ys → IsDistinct (insert x ys)
unfolding insert
insert-IsDistinct x [] n d = (n, tt)
insert-IsDistinct x (y ∷ ys) n d = elim (Bool-cases (text_leq x y)) [
  | inl e ↦ rw e (n, d)
  | inr e ↦ rw e (
    (λ o. elim ((insert-Occurs y x ys).0 o) [ inl same ↦ n (inl (sym same)) | inr old ↦ d.0 old ]),
    insert-IsDistinct x ys (λ o. n (inr o)) d.1,
  )
]

pub sort_strings-IsDistinct : (xs : List String) → IsDistinct xs → IsDistinct (sort_strings xs)
unfolding sort_strings
sort_strings-IsDistinct [] d = tt
sort_strings-IsDistinct (x ∷ xs) d =
    insert-IsDistinct x (sort_strings xs) (λ o. d.0 ((sort_strings-Occurs x xs).0 o))
      (sort_strings-IsDistinct xs d.1)

-- The operations of a set of texts. An error of `Remove` is not looked at.
pub record SetApi : Type 1 where
  pub Set : Type 0
  pub make : Set
  pub add : Set → String → Set
  pub remove : Set → String → Set
  pub to_slice : Set → List String

-- What the code relies on: the slice has every element once, in some order.
pub record SetLaws (x : SetApi) : Type 0 where
  pub slice-IsDistinct : (s : x.Set) → IsDistinct (x.to_slice s)
  pub make_empty : (t : String) → ¬ Occurs t (x.to_slice x.make)
  pub add_iff :
      (s : x.Set) (u t : String)
      → Occurs t (x.to_slice (x.add s u)) ↔ ((t ≡ u) ⊎ Occurs t (x.to_slice s))
  pub remove_iff :
      (s : x.Set) (u t : String)
      → Occurs t (x.to_slice (x.remove s u)) ↔ ((t ≢ u) × Occurs t (x.to_slice s))
