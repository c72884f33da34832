-- ===== src/Client/Params.antt =====
-- `validateParametersNotBlank` (vcsclient/vcsclient.go). The parameters stand in a map, over which
-- Go ranges in any order: `Order` says in which.
pub mod Verdict
use Prim.Native.Char.{code}
use mathlib.Core.List.{Memᴰ}
use froggit_go.Base.{
  ℕ, String, ◌<>◌, ◌≡◌, ◌≢◌, ◌↔◌, refl, Bool, true, false, ◌&&◌, ◌||◌, List, [], ◌∷◌, Option, none,
  some, Error, errorf, leb, nat_eq, All, if◌then◌else◌, arith,
}
use froggit_go.Base.Text.{join}

-- `unicode.IsSpace`
is_space : ℕ → Bool
is_space c =
    (leb 9 c && leb c 13)
    || (nat_eq c 32
        || (nat_eq c 0x85
            || (nat_eq c 0xA0
                || (nat_eq c 0x1680
                    || ((leb 0x2000 c && leb c 0x200A)
                        || (nat_eq c 0x2028
                            || (nat_eq c 0x2029
                                || (nat_eq c 0x202F || (nat_eq c 0x205F || nat_eq c 0x3000)))))))))

-- `strings.TrimSpace(v) == ""`
unfoldable pub is_blank : String → Bool
unfolding is_space
is_blank String.[] = true
is_blank (String.◌∷◌ c s) = is_space (code c) && is_blank s

abbrev pub Params : Type 0
Params = List (String × String)

abbrev pub Order : Type 0
Order = Params → Params

unfoldable pub missing : Params → List String
unfolding is_blank
missing [] = []
missing ((k, v) ∷ ps) =
    let rest = missing ps in
    if is_blank v then ("required parameter '" <> (k <> "' is missing")) ∷ rest else rest

abbrev pub complaint : List String → Option Error
complaint [] = none
complaint (m ∷ ms) = some (errorf ("validation failed: " <> join ", " (m ∷ ms)))

unfoldable pub validate_parameters_not_blank : Order → Params → Option Error
unfolding missing join
validate_parameters_not_blank order params = complaint (missing (order params))

-- The order leaves out no parameter and adds none.
abbrev pub IsOrder : Order → Type 0
IsOrder order =
    (ps : Params) (p : String × String)
    → (Memᴰ p (order ps) → Memᴰ p ps) × (Memᴰ p ps → Memᴰ p (order ps))
