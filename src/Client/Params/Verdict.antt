-- ===== src/Client/Params/Verdict.antt =====
-- The verdict on the parameters does not depend on the order in which Go ranges over them.
use mathlib.Core.List.{Memᴰ}
use mathlib.Core.Path.{subst}
use froggit_go.Base.{◌≡◌, ◌↔◌, sym, refl, false, [], ◌∷◌, none, All, String, arith}
use froggit_go.Client.Params.{
  Params, Order, IsOrder, is_blank, missing, complaint, validate_parameters_not_blank,
}

abbrev pub NotBlank : String × String → Type 0
NotBlank p = is_blank p.1 ≡ false

All-of_Memᴰ : (ps : Params) → ((p : String × String) → Memᴰ p ps → NotBlank p) → All NotBlank ps
All-of_Memᴰ [] h = tt
All-of_Memᴰ (p ∷ ps) h = (h p (Memᴰ.head refl), All-of_Memᴰ ps λ q m. h q (Memᴰ.tail m))

Memᴰ-All : (ps : Params) → All NotBlank ps → (p : String × String) → Memᴰ p ps → NotBlank p
Memᴰ-All [] h p m = elim m [ ]
Memᴰ-All (q ∷ ps) h p (Memᴰ.head e) = subst NotBlank (sym e) h.0
Memᴰ-All (q ∷ ps) h p (Memᴰ.tail m) = Memᴰ-All ps h.1 p m

missing-none_iff : (ps : Params) → (complaint (missing ps) ≡ none) ↔ All NotBlank ps
unfolding missing
missing-none_iff [] = (λ _. tt, λ _. refl)
missing-none_iff (p ∷ ps) = ground (arith, missing-none_iff ps)

-- The parameters pass exactly when none of them is blank, in whatever order they are looked at.
pub validate_parameters_not_blank-passes_iff :
    (order : Order) (params : Params)
    → IsOrder order
    → (validate_parameters_not_blank order params ≡ none) ↔ All NotBlank params
unfolding validate_parameters_not_blank
validate_parameters_not_blank-passes_iff order params o = (
  λ h.
      All-of_Memᴰ params
        λ p m. Memᴰ-All (order params) ((missing-none_iff (order params)).0 h) p ((o params p).1 m),
  λ h.
      (missing-none_iff (order params)).1
        (All-of_Memᴰ (order params) λ p m. Memᴰ-All params h p ((o params p).0 m)),
)
