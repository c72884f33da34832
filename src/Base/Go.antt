-- ===== src/Base/Go.antt =====
-- What a Go call comes to: a value, a non-nil error, or a panic. Signed integers.
use Prim.Native.Nat.{ℕ}
use Prim.Native.String.{String, ◌++◌ as ◌<>◌}
use mathlib.Core.Path.{◌≡◌, refl}
use mathlib.Core.Option.{Option, none, some}
use native.Mathlib.Omega.{arith}

-- `negsuc n` is -(n + 1).
pub data ℤ : Type 0 where
  pos : ℕ → ℤ
  negsuc : ℕ → ℤ

-- An `error` value. `errorf` is made by the code from a text, `foreign` comes from a call that
-- leaves the repository, `joined` is what `errors.Join` makes of two errors, and `retry_timeout` is
-- a `RetryExecutorTimeoutError`, and `wrapping` is an error in which `%w` keeps another.
pub data Error : Type 0 where
  errorf : String → Error
  foreign : String → Error
  joined : Error → Error → Error
  retry_timeout : String → Error
  wrapping : String → Error → Error

-- `err.Error()`
unfoldable pub error_text : Error → String
error_text (errorf t) = t
error_text (foreign t) = t
error_text (joined d e) = error_text d <> ("\n" <> error_text e)
error_text (retry_timeout t) = t
error_text (wrapping t e) = t <> error_text e

-- `errors.Join` of two results, either of which may be nil.
unfoldable pub join_errors : Option Error → Option Error → Option Error
join_errors none e = e
join_errors (some d) none = some d
join_errors (some d) (some e) = some (joined d e)

pub data Result {ℓ} (A : Type ℓ) : Type ℓ where
  ok : A → Result A
  err : Error → Result A
  panic : String → Result A

-- An error and a panic end a chain of calls.
module _ {ℓ κ} {A : Type ℓ} {B : Type κ} where
  infixl 5 ◌>>=◌
  abbrev pub ◌>>=◌ : Result A → (A → Result B) → Result B
  panic m >>= next = panic m
  err e >>= next = err e
  ok value >>= next = next value

  -- What a chain gives, its first call gave a value for.
  pub >>=-eq-ok :
      (call : Result A) (next : A → Result B) {b : B}
      → (call >>= next) ≡ ok b
      → (value : A) × (call ≡ ok value) × (next value ≡ ok b)
  >>=-eq-ok (panic m) next h = ground arith
  >>=-eq-ok (err e) next h = ground arith
  >>=-eq-ok (ok value) next h = (value, refl, h)

-- `*p` for a pointer that may be nil.
abbrev pub deref {ℓ} : {A : Type ℓ} → Option A → Result A
deref none = panic "nil pointer dereference"
deref (some a) = ok a
