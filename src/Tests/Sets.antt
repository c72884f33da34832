-- ===== src/Tests/Sets.antt =====
-- Sets as lists without repetitions keep the laws.
use froggit_go.Base.{
  String, ◌≡◌, ◌≢◌, ◌↔◌, ◌⊎◌, Bool, true, false, ◌||◌, List, [], ◌∷◌, ◌==◌, eq_iff, if◌then◌else◌,
  arith, Bool-cases, inl, inr,
}
use froggit_go.Client.Sorting.{SetApi, SetLaws, Occurs, IsDistinct}

elem : String → List String → Bool
elem t [] = false
elem t (u ∷ us) = t == u || elem t us

elem-Occurs : (t : String) (us : List String) → (elem t us ≡ true) ↔ Occurs t us
unfolding elem
elem-Occurs t [] = ground arith
elem-Occurs t (u ∷ us) = ground (arith, eq_iff t u, elem-Occurs t us)

pub without : String → List String → List String
without t [] = []
without t (u ∷ us) = let rest = without t us in if t == u then rest else u ∷ rest

without-Occurs :
    (u t : String) (us : List String) → Occurs t (without u us) ↔ ((t ≢ u) × Occurs t us)
unfolding without
without-Occurs u t [] = ground arith
without-Occurs u t (v ∷ us) = ground (arith, eq_iff u v, without-Occurs u t us)

pub with_one : String → List String → List String
unfolding elem
with_one t us = if elem t us then us else t ∷ us

abbrev SliceSet : Type 0
SliceSet = (us : List String) × IsDistinct us

pub without-IsDistinct : (u : String) (us : List String) → IsDistinct us → IsDistinct (without u us)
unfolding without
without-IsDistinct u [] d = tt
without-IsDistinct u (v ∷ us) d = ground (arith, without-IsDistinct u us d.1, without-Occurs u v us)

pub with_one-IsDistinct :
    (u : String) (us : List String) → IsDistinct us → IsDistinct (with_one u us)
unfolding with_one
with_one-IsDistinct u us d = ground (arith, elem-Occurs u us)

with_one-Occurs :
    (u t : String) (us : List String) → Occurs t (with_one u us) ↔ ((t ≡ u) ⊎ Occurs t us)
unfolding with_one
with_one-Occurs u t us = elim (Bool-cases (elem u us)) [
  | inl e ↦ rw e (ground (arith, elem-Occurs u us))
  | inr e ↦ rw e (ground (arith, elem-Occurs u us))
]

abbrev pub slices : SetApi
slices = record {
  Set = SliceSet;
  make = ([], tt);
  add = λ s u. (with_one u s.0, with_one-IsDistinct u s.0 s.1);
  remove = λ s u. (without u s.0, without-IsDistinct u s.0 s.1);
  to_slice = λ s. s.0;
}

pub slices-Laws : SetLaws slices
slices-Laws = record {
  slice-IsDistinct = λ s. s.1;
  make_empty = λ t o. o;
  add_iff = λ s u t. with_one-Occurs u t s.0;
  remove_iff = λ s u t. without-Occurs u t s.0;
}
