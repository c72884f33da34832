-- ===== src/Vcs/Values.antt =====
-- Zero values and pointers that may be nil (vcsutils/utils.go). Go gives every type a zero value:
-- here a type has it by an instance.
use froggit_go.Base.{
  String, ℤ, pos, negsuc, Bool, false, Option, none, some, nat_eq, ◌==◌, if◌then◌else◌,
}

pub record Zero {ℓ} (A : Type ℓ) : Type ℓ where
  pub value : A

instance abbrev pub string_zero : Zero String
string_zero = record { value = "" }

instance abbrev pub int_zero : Zero ℤ
int_zero = record { value = pos 0 }

instance abbrev pub bool_zero : Zero Bool
bool_zero = record { value = false }

instance abbrev pub pointer_zero {ℓ} : {A : Type ℓ} → Zero (Option A)
pointer_zero = record { value = none }

-- `==` on the types at which the program compares with the zero value.
pub record Comparable {ℓ} (A : Type ℓ) : Type ℓ where
  pub equal : A → A → Bool

instance abbrev pub string_comparable : Comparable String
string_comparable = record { equal = ◌==◌ }

abbrev int_equal : ℤ → ℤ → Bool
int_equal (pos m) (pos n) = nat_eq m n
int_equal (negsuc m) (negsuc n) = nat_eq m n
int_equal _ _ = false

instance abbrev pub int_comparable : Comparable ℤ
int_comparable = record { equal = int_equal }

module _ {ℓ} {A : Type ℓ} ⦃z : Zero A⦄ where
  -- `GetZeroValue`
  abbrev pub get_zero_value : A
  get_zero_value = z.value

  -- `DefaultIfNotNil`
  abbrev pub default_if_not_nil : Option A → A
  default_if_not_nil none = get_zero_value
  default_if_not_nil (some a) = a

module _ {ℓ} {A : Type ℓ} ⦃z : Zero A⦄ ⦃c : Comparable A⦄ where
  -- `isZeroValue`
  abbrev is_zero_value : A → Bool
  is_zero_value a = c.equal z.value a

  -- `GetNilIfZeroVal`
  unfoldable pub get_nil_if_zero_val : A → Option A
  get_nil_if_zero_val a = if is_zero_value a then none else some a
