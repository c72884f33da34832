-- ===== src/Client/Shared/Guards.antt =====
-- What an operation does when the owner or the repository is blank, which it validates first.
use froggit_go.Base.{
  String, ◌≡◌, refl, ◌⊎◌, inl, inr, true, ◌∷◌, none, err, Error, Option-cases, arith, List, All, ap,
}
use froggit_go.Calls.{Calls, as_result, ◌>>=◌, lift, >>=-lift}
use froggit_go.Client.Params.{Order, Params, IsOrder, is_blank, validate_parameters_not_blank}
use froggit_go.Client.Params.Verdict.{NotBlank, validate_parameters_not_blank-passes_iff}
use froggit_go.Client.Shared.{validated}

-- The operation gives an error and sends no request.
abbrev pub IsRefused : {C A : Type 0} → Calls C A → Type 0
IsRefused {C} m = (log : List C) → (e : Error) × (m log ≡ (err e, log))

module _ (order : Order) (is_order : IsOrder order) (owner repository : String)
    (blank : (is_blank owner ≡ true) ⊎ (is_blank repository ≡ true)) where
  not_passed :
      (rest : Params)
      → validate_parameters_not_blank order (("owner", owner) ∷ ("repository", repository) ∷ rest)
        ≡ none
      → ⊥
  not_passed rest h =
      let all =
        (validate_parameters_not_blank-passes_iff order
            (("owner", owner) ∷ ("repository", repository) ∷ rest) is_order).0
          h in
      ground arith

  pub validated-IsRefused :
      {C A : Type 0} (rest : Params) (k : Unit {0} → Calls C A)
      → IsRefused (validated order (("owner", owner) ∷ ("repository", repository) ∷ rest) >>= k)
  unfolding validated ◌>>=◌ lift
  validated-IsRefused rest k log =
      elim (Option-cases (
        validate_parameters_not_blank order
          (("owner", owner) ∷ ("repository", repository) ∷ rest))) [
            | inl passed ↦ absurd (not_passed rest passed)
            | inr (e, complaint) ↦ (e, rw complaint refl)
          ]

-- Parameters of which none is blank are let through.
pub validated-passes :
    {C A : Type 0} (order : Order) (ps : Params) (k : Unit {0} → Calls C A) (log : List C)
    → IsOrder order
    → All NotBlank ps
    → (validated order ps >>= k) log ≡ k tt log
unfolding validated
validated-passes order ps k log o n =
    >>=-lift _ k log (ap as_result ((validate_parameters_not_blank-passes_iff order ps o).1 n))
