-- ===== src/Extract/Copy.antt =====
-- `safeCopy` (vcsutils/utils.go): a source is copied in pieces of 1024 bytes.
use froggit_go.Base.{
  ℕ, zero, suc, ◌+◌, ◌-◌, ◌<◌, ◌/◌, String, ◌≡◌, Option, none, List, [], ◌∷◌, Result, ok, panic,
  Error, ltb, arith, if◌then◌else◌,
}
use froggit_go.Extract.Io.{
  Op, copy, Os, Io, perform, lift, ◌>>=◌, ◌>>◌, Makes, Makes-lift, Makes-if, Makes-bind,
  Makes-perform, io_rules, as_result,
}

-- What can be read: its length, and how it ends, at `io.EOF` or at another error.
pub record Source : Type 0 where
  pub size : ℕ
  pub failure : Option Error

abbrev piece : ℕ
piece = 1024

-- A round writes what is left, if anything, or a whole piece and goes on. `io.CopyN` gives `io.EOF`
-- if fewer than 1024 bytes were left.
copy_round : Os → String → Option Error → ℕ → Io (Unit {0}) → Io (Unit {0})
copy_round os path failure left more =
    if ltb left piece
    then (if ltb 0 left
        then perform os (copy path left) >> lift (as_result failure)
        else lift (as_result failure))
    else perform os (copy path piece) >> more

-- The fuel bounds the rounds.
copy_loop : Os → String → Option Error → ℕ → ℕ → Io (Unit {0})
unfolding copy_round
copy_loop os path failure zero left = lift (panic "out of fuel")
copy_loop os path failure (suc fuel) left =
    copy_round os path failure left (copy_loop os path failure fuel (left - piece))

-- The loop ends when the source does, after `size / 1024 + 1` rounds.
unfoldable pub safe_copy : Os → String → Source → Io (Unit {0})
unfolding copy_loop
safe_copy os path s = copy_loop os path s.failure (suc (s.size / piece)) s.size

-- The bytes that a log copies to a path.
abbrev pub copied : List Op → ℕ
copied [] = 0
copied (copy path n ∷ log) = n + copied log
copied (op ∷ log) = copied log

-- A result that is no panic.
abbrev pub IsReturned : Result (Unit {0}) → Type 0
IsReturned (panic m) = ⊥
IsReturned r = Unit

copy_loop-returns :
    (os : Os) (path : String) (failure : Option Error) (fuel left : ℕ) (log : List Op)
    → left / piece < fuel
    → IsReturned (copy_loop os path failure fuel left log).0
unfolding copy_loop ◌>>=◌ perform lift
copy_loop-returns os path failure zero left log h = absurd (omega arith)
copy_loop-returns os path failure (suc fuel) left log h =
    ground (arith, copy_loop-returns os path failure fuel (left - piece) (copy path piece ∷ log))

-- `safeCopy` comes to an end within its rounds, whatever the operating system answers.
pub safe_copy-returns :
    (os : Os) (path : String) (s : Source) (log : List Op) → IsReturned (safe_copy os path s log).0
unfolding safe_copy
safe_copy-returns os path s log =
    copy_loop-returns os path s.failure (suc (s.size / piece)) s.size log (omega arith)

copy_loop-copied :
    (os : Os) (path : String) (failure : Option Error) (fuel left : ℕ) (log : List Op)
    → (copy_loop os path failure fuel left log).0 ≡ ok tt
    → (failure ≡ none) × (copied (copy_loop os path failure fuel left log).1 ≡ left + copied log)
unfolding copy_loop ◌>>=◌ perform lift
copy_loop-copied os path failure zero left log h = absurd (ground arith)
copy_loop-copied os path failure (suc fuel) left log h =
    ground (arith, copy_loop-copied os path failure fuel (left - piece) (copy path piece ∷ log))

-- If `safeCopy` returns no error, the source ended at its end, and all of its bytes were copied,
-- none of them twice.
pub safe_copy-copied :
    (os : Os) (path : String) (s : Source) (log : List Op)
    → (safe_copy os path s log).0 ≡ ok tt
    → (s.failure ≡ none) × (copied (safe_copy os path s log).1 ≡ s.size + copied log)
unfolding safe_copy
safe_copy-copied os path s log h =
    copy_loop-copied os path s.failure (suc (s.size / piece)) s.size log h

-- A copy makes no call but copies to its path.
module _ (P : Op → Type 0) (os : Os) (path : String) (allowed : (n : ℕ) → P (copy path n)) where
  copy_round-Makes :
      (failure : Option Error) (left : ℕ) (more : Io (Unit {0}))
      → Makes P more
      → Makes P (copy_round os path failure left more)
  unfolding copy_round
  copy_round-Makes failure left more h =
      Makes-if (ltb left piece) _ _
        (Makes-if (ltb 0 left) (perform os (copy path left) >> lift (as_result failure)) _
          (search (io_rules, allowed)) (Makes-lift (as_result failure)))
        (Makes-bind (perform os (copy path piece)) _ (Makes-perform os _ (allowed piece)) (λ _. h))

  copy_loop-Makes :
      (failure : Option Error) (fuel left : ℕ) → Makes P (copy_loop os path failure fuel left)
  unfolding copy_loop
  copy_loop-Makes failure zero left = Makes-lift (panic "out of fuel")
  copy_loop-Makes failure (suc fuel) left =
      copy_round-Makes failure left (copy_loop os path failure fuel (left - piece))
        (copy_loop-Makes failure fuel (left - piece))

  pub safe_copy-Makes : (s : Source) → Makes P (safe_copy os path s)
  unfolding safe_copy
  safe_copy-Makes s = copy_loop-Makes s.failure (suc (s.size / piece)) s.size
