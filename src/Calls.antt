-- ===== src/Calls.antt =====
-- Code that calls a system outside the program. A run has the log of its calls, the last one first,
-- and what a call gives may depend on all the calls before it.
use froggit_go.Base.{
  Bool, true, false, List, ◌∷◌, Option, none, some, Result, ok, err, panic, Error, All, ◌≡◌, refl,
  ap, if◌then◌else◌,
}

-- `C` is the type of the calls.
abbrev pub Calls : Type 0 → Type 0 → Type 0
Calls C A = List C → Result A × List C

module _ {C A B : Type 0} where
  abbrev pub continue : Result A → (A → Calls C B) → Calls C B
  continue (ok a) f log = f a log
  continue (err e) f log = (err e, log)
  continue (panic m) f log = (panic m, log)

  infixl 5 ◌>>=◌ ◌>>◌
  unfoldable pub ◌>>=◌ : Calls C A → (A → Calls C B) → Calls C B
  ◌>>=◌ m f log = let (r, log') = m log in continue r f log'

  abbrev pub ◌>>◌ : Calls C A → Calls C B → Calls C B
  m >> k = m >>= λ _. k

module _ {C A : Type 0} where
  unfoldable pub pure : A → Calls C A
  pure a log = (ok a, log)

  unfoldable pub lift : Result A → Calls C A
  lift r log = (r, log)

  -- A call whose answer is given by the calls so far and the call itself.
  unfoldable pub send : (List C → C → Result A) → C → Calls C A
  send answer c log = (answer log c, c ∷ log)

abbrev pub as_result : Option Error → Result (Unit {0})
as_result none = ok tt
as_result (some e) = err e

module _ {C A B : Type 0} where
  -- A call that gives a value, and what follows it.
  pub >>=-ok :
      (m : Calls C A) (f : A → Calls C B) {a : A} (log : List C) {log' : List C}
      → m log ≡ (ok a, log')
      → (m >>= f) log ≡ f a log'
  unfolding ◌>>=◌
  >>=-ok m f log h = ap (λ r. continue r.0 f r.1) h

  pub >>=-lift :
      (r : Result A) (f : A → Calls C B) {a : A} (log : List C)
      → r ≡ ok a
      → (lift r >>= f) log ≡ f a log
  unfolding ◌>>=◌ lift
  >>=-lift r f log h = ap (λ x. continue x f log) h

-- Every call that an action adds to the log has the property.
pub record Makes {C A : Type 0} (P : C → Type 0) (m : Calls C A) : Type 0 where
  pub keeps : (log : List C) → All P log → All P (m log).1

module _ {C A : Type 0} {P : C → Type 0} where
  pub Makes-pure : (a : A) → Makes P (pure a)
  unfolding pure
  Makes-pure a = record { keeps = λ log l. l }

  pub Makes-lift : (r : Result A) → Makes P (lift r)
  unfolding lift
  Makes-lift r = record { keeps = λ log l. l }

  pub Makes-send : (answer : List C → C → Result A) (c : C) → P c → Makes P (send answer c)
  unfolding send
  Makes-send answer c h = record { keeps = λ log l. (h, l) }

  pub Makes-if : (b : Bool) (m n : Calls C A) → Makes P m → Makes P n → Makes P (if b then m else n)
  Makes-if true m n km kn = km
  Makes-if false m n km kn = kn

module _ {C A B : Type 0} {P : C → Type 0} where
  continue-keeps :
      (f : A → Calls C B)
      → ((a : A) → Makes P (f a))
      → (r : Result A) (log : List C) → All P log
      → All P (continue r f log).1
  continue-keeps f k (ok a) log l = (k a).keeps log l
  continue-keeps f k (err e) log l = l
  continue-keeps f k (panic m) log l = l

  pub Makes-bind :
      (m : Calls C A) (f : A → Calls C B)
      → Makes P m
      → ((a : A) → Makes P (f a))
      → Makes P (m >>= f)
  unfolding ◌>>=◌
  Makes-bind m f km kf = record {
    keeps = λ log l. continue-keeps f kf (m log).0 (m log).1 (km.keeps log l);
  }

  -- The continuation of a result is run only at its value.
  pub Makes-lift-bind :
      (r : Result A) (f : A → Calls C B)
      → ((a : A) → r ≡ ok a → Makes P (f a))
      → Makes P (lift r >>= f)
  unfolding ◌>>=◌ lift
  Makes-lift-bind (ok a) f k = record { keeps = λ log l. (k a refl).keeps log l }
  Makes-lift-bind (err e) f k = record { keeps = λ log l. l }
  Makes-lift-bind (panic m) f k = record { keeps = λ log l. l }

pub ruleset makes_rules = (Makes-send, Makes-pure, Makes-lift, Makes-if, Makes-bind)
