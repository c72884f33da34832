-- ===== src/Base/Text.antt =====
-- The functions of Go's package `strings` that the program calls, over native texts. A text stands
-- for a valid UTF-8 string; the program cuts texts only at ASCII characters.
use Prim.Native.Char.{Char, code}
use Prim.Native.String.{String, ◌++◌ as ◌<>◌}
use mathlib.Core.Path.{◌≡◌, refl}
use mathlib.Core.Bool.{Bool, true, false}
use mathlib.Core.Option.{Option, none, some}
use mathlib.Core.List.{List, [], ◌∷◌, ◌++◌}
use native.Mathlib.Omega.{arith}
use text.Mathlib.TextEquality.{Char-path}
use text.Mathlib.TextLemmas.{nil-append, cons-append}
use text.Mathlib.Text.{◌==◌}
use mathlib.Core.Logic.{inl, inr}
use froggit_go.Base.Tests.{nat_eq, if◌then◌else◌, Bool-cases, All}

abbrev pub char_eq : Char → Char → Bool
char_eq c d = nat_eq (code c) (code d)

pub char_eq_refl : (c : Char) → char_eq c c ≡ true
char_eq_refl c = ground arith

pub char_eq_sound : (c d : Char) → char_eq c d ≡ true → c ≡ d
char_eq_sound c d h = Char-path c d (ground arith)

-- The rest of the text behind a prefix, if it has that prefix.
unfoldable pub strip : String → String → Option String
strip String.[] s = some s
strip (String.◌∷◌ c p) String.[] = none
strip (String.◌∷◌ c p) (String.◌∷◌ d s) = if char_eq c d then strip p s else none

-- `strings.HasPrefix(s, prefix)`
unfoldable pub has_prefix : String → String → Bool
unfolding strip
has_prefix s prefix = elim (strip prefix s) [ none ↦ false | some rest ↦ true ]

-- `strings.TrimPrefix(s, prefix)`
unfoldable pub trim_prefix : String → String → String
unfolding strip
trim_prefix s prefix = elim (strip prefix s) [ none ↦ s | some rest ↦ rest ]

pub strip-append : (p s : String) → strip p (p <> s) ≡ some s
unfolding strip
strip-append String.[] s = rw nil-append
strip-append (String.◌∷◌ c p) s = rw cons-append (ground (arith, char_eq_refl c, strip-append p s))

pub strip-eq-some : (p s : String) {r : String} → strip p s ≡ some r → s ≡ p <> r
unfolding strip
strip-eq-some String.[] s h = rw nil-append (ground arith)
strip-eq-some (String.◌∷◌ c p) String.[] h = cc
strip-eq-some (String.◌∷◌ c p) (String.◌∷◌ d s) {r} h = elim (Bool-cases (char_eq c d)) [
  | inl e ↦ rw cons-append (cc (char_eq_sound c d e, strip-eq-some p s (rw e at h)))
  | inr e ↦ cc (rw e at h)
]

-- Of two texts neither of which is a prefix of the other, no continuation of one has the other as
-- a prefix.
pub strip-clash : (p q s : String) → strip p q ≡ none → strip q p ≡ none → strip p (q <> s) ≡ none
unfolding strip
strip-clash String.[] q s a b = cc
strip-clash (String.◌∷◌ c p) String.[] s a b = cc
strip-clash (String.◌∷◌ c p) (String.◌∷◌ d q) s a b =
    rw cons-append (ground (arith, strip-clash p q s))

pub trim_prefix-append : (p s : String) → trim_prefix (p <> s) p ≡ s
unfolding trim_prefix
trim_prefix-append p s = rw (trim_prefix, strip-append p s)

pub has_prefix-append : (p s : String) → has_prefix (p <> s) p ≡ true
unfolding has_prefix
has_prefix-append p s = rw (has_prefix, strip-append p s)

-- `strings.Replace(s, old, new, 1)` for an `old` that is not empty.
unfoldable pub replace_first : String → String → String → String
unfolding strip
replace_first String.[] old new = String.[]
replace_first (String.◌∷◌ c s) old new =
    let rest = replace_first s old new in
    elim (strip old (String.◌∷◌ c s)) [ some tail ↦ new <> tail | none ↦ String.◌∷◌ c rest ]

-- `strings.TrimSuffix(s, suffix)` for a suffix of one character.
unfoldable pub trim_last : Char → String → String
trim_last c String.[] = String.[]
trim_last c (String.◌∷◌ d s) =
    let rest = trim_last c s in
    elim s [
      | String.[] ↦ if char_eq d c then String.[] else String.◌∷◌ d String.[]
      | String.◌∷◌ _ _ ↦ String.◌∷◌ d rest
    ]

-- `strings.Split(s, sep)` for a separator of one character. The first part is what stands before
-- the first separator, and the list of the parts behind it may be empty.
pub record Parts : Type 0 where
  pub first : String
  pub others : List String

cut : Char → Char → Parts → Parts
cut sep c p =
    if char_eq c sep
    then record { first = String.[]; others = p.first ∷ p.others }
    else record { first = String.◌∷◌ c p.first; others = p.others }

unfoldable pub split_parts : Char → String → Parts
unfolding cut
split_parts sep String.[] = record { first = String.[]; others = [] }
split_parts sep (String.◌∷◌ c s) = cut sep c (split_parts sep s)

unfoldable pub split : Char → String → List String
unfolding split_parts
split sep s = let p = split_parts sep s in p.first ∷ p.others

-- `strings.Join(parts, sep)`
unfoldable pub join : String → List String → String
join sep [] = ""
join sep (p ∷ []) = p
join sep (p ∷ q ∷ r) = p <> (sep <> join sep (q ∷ r))

-- No character of the text is `sep`.
abbrev pub Lacks : Char → String → Type 0
Lacks sep String.[] = Unit
Lacks sep (String.◌∷◌ c s) = (char_eq c sep ≡ false) × Lacks sep s

pub split_parts-Lacks :
    (sep : Char) (s : String) → Lacks sep s → split_parts sep s ≡ record { first = s; others = [] }
unfolding split_parts
split_parts-Lacks sep String.[] h = refl
split_parts-Lacks sep (String.◌∷◌ c s) h = rw (h.0, split_parts-Lacks sep s h.1, cut)

pub split_parts-append :
    (sep : Char) (s t : String)
    → Lacks sep s
    → split_parts sep (s <> String.◌∷◌ sep t) ≡ record { first = s; others = split sep t }
unfolding split split_parts
split_parts-append sep String.[] t h = rw (nil-append, char_eq_refl sep)
split_parts-append sep (String.◌∷◌ c s) t h = rw (cons-append, split_parts-append sep s t h.1, h.0)

-- A text with one separator has two parts.
pub split_parts-pair :
    (sep : Char) (s t : String)
    → Lacks sep s
    → Lacks sep t
    → split_parts sep (s <> String.◌∷◌ sep t) ≡ record { first = s; others = t ∷ [] }
unfolding split
split_parts-pair sep s t hs ht =
    ground (arith, split_parts-append sep s t hs, split_parts-Lacks sep t ht)

-- A separator between two texts splits the parts.
pub split-append :
    (sep : Char) (s t : String) → split sep (s <> String.◌∷◌ sep t) ≡ split sep s ++ split sep t
unfolding split
split-append sep String.[] t = rw (nil-append, char_eq_refl sep)
split-append sep (String.◌∷◌ c s) t = rw cons-append (ground (arith, split-append sep s t))

pub split-Lacks : (sep : Char) (s : String) → Lacks sep s → split sep s ≡ s ∷ []
unfolding split
split-Lacks sep s h = ground (arith, split_parts-Lacks sep s h)

-- No part has the separator in it.
pub All-split : (sep : Char) (s : String) → All (Lacks sep) (split sep s)
unfolding split
All-split sep String.[] = (tt, tt)
All-split sep (String.◌∷◌ c s) = elim (Bool-cases (char_eq c sep)) [
  | inl e ↦ rw e (tt, All-split sep s)
  | inr n ↦ let h = All-split sep s in rw n ((n, h.0), h.1)
]

-- A separator in front is an empty first part.
pub split-sep : (sep : Char) (s : String) → split sep (String.◌∷◌ sep s) ≡ "" ∷ split sep s
unfolding split
split-sep sep s = rw (char_eq_refl sep)

-- `strings.Contains(s, t)`
unfoldable pub contains_text : String → String → Bool
unfolding has_prefix
contains_text String.[] t = has_prefix String.[] t
contains_text (String.◌∷◌ c s) t =
    let rest = contains_text s t in
    elim (has_prefix (String.◌∷◌ c s) t) [ true ↦ true | false ↦ rest ]

-- `strings.HasSuffix(s, t)`
unfoldable pub has_suffix : String → String → Bool
has_suffix String.[] t = t == ""
has_suffix (String.◌∷◌ c s) t =
    let rest = has_suffix s t in if String.◌∷◌ c s == t then true else rest

-- `strings.TrimSuffix(s, t)`
unfoldable pub trim_suffix : String → String → String
trim_suffix String.[] t = ""
trim_suffix (String.◌∷◌ c s) t =
    let rest = trim_suffix s t in if String.◌∷◌ c s == t then "" else String.◌∷◌ c rest
