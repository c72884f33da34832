-- ===== src/Extract/Io.antt =====
-- The calls on the file system that unpacking makes. The operating system decides what each call
-- gives, from all the calls before it.
use froggit_go.Base.{ℕ, String, Bool, Option, List, Result, ok, err, panic, Error}
unfoldable pub use froggit_go.Calls.{◌>>=◌, pure, lift, send}
pub use froggit_go.Calls.{
  Calls, ◌>>◌, as_result, Makes, Makes-pure, Makes-lift, Makes-if, Makes-bind, Makes-lift-bind,
  Makes-send, makes_rules,
}

pub data Op : Type 0 where
  stat mkdir_all open_file close_file open_entry close_entry : String → Op
  copy : String → ℕ → Op
  close_reader : Op

pub record Os : Type 0 where
  pub answer : List Op → Op → Option Error
  pub is_not_exist : Error → Bool

abbrev pub Io : Type 0 → Type 0
Io A = Calls Op A

-- A call of the operating system.
unfoldable pub perform : Os → Op → Io (Unit {0})
unfolding send
perform os op = send (λ log c. as_result (os.answer log c)) op

-- What is left of two errors that are joined. A panic unwinds past both.
abbrev pub join_results : Result (Unit {0}) → Result (Unit {0}) → Result (Unit {0})
join_results (ok _) r = r
join_results (err d) (ok _) = err d
join_results (err d) (err e) = err (Error.joined d e)
join_results (err d) (panic m) = panic m
join_results (panic m) _ = panic m

-- `defer func() { err = errors.Join(err, close()) }()` around the rest of a function.
unfoldable pub deferred : Io (Unit {0}) → Io (Unit {0}) → Io (Unit {0})
deferred close body log =
    let (r, log') = body log in let (c, log'') = close log' in (join_results r c, log'')

module _ {P : Op → Type 0} where
  pub Makes-perform : (os : Os) (op : Op) → P op → Makes P (perform os op)
  unfolding perform
  Makes-perform os op h = Makes-send (λ log c. as_result (os.answer log c)) op h

  pub Makes-deferred :
      (close body : Io (Unit {0})) → Makes P close → Makes P body → Makes P (deferred close body)
  unfolding deferred
  Makes-deferred close body c b = record { keeps = λ log l. c.keeps (body log).1 (b.keeps log l) }

pub ruleset io_rules = (makes_rules, Makes-perform, Makes-deferred)
