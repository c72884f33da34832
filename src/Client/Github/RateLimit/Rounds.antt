-- ===== src/Client/Github/RateLimit/Rounds.antt =====
-- What the retries of a request come to.
use froggit_go.Base.{
  ℕ, zero, suc, ◌+◌, ◌-◌, ◌≤◌, ◌≡◌, refl, sym, ap, ◌∙◌, true, false, none, some, Option, List, [],
  ◌∷◌, Error, arith, length, if◌then◌else◌, Bool-cases, inl, inr,
}
use froggit_go.Retry.{attempt_loop, execute, rounds, finish, check_cancelled, RetryExecutor, Event}
use froggit_go.Retry.Attempts.{calls, round-result, round-calls, Retries, round-ends, exhausted}
use froggit_go.Client.Github.Api.{Call, Server}
use froggit_go.Client.Github.RateLimit.{
  Outcome, returned, crashed, Attempt, verdict, log_at, set_error, executor, max_retries,
  run_with_rate_limit_retries,
}

set_error_same : {A : Type 0} (s : Server) (o : Outcome A) → set_error (verdict s o).1 o ≡ o
unfolding set_error verdict
set_error_same s (returned r e a) = refl
set_error_same s (crashed m) = refl

module _ (s : Server) {A : Type 0} (attempt : Attempt A) where
  -- The error when every round is used up.
  abbrev timeout : Option Error → Option Error
  timeout = exhausted s.is_canceled (executor s attempt [])

  -- An attempt, and so many more as long as they are asked for.
  abbrev pub retried : ℕ → Attempt A
  retried zero log =
      let (o, log') = attempt log in
      (if (verdict s o).0 then set_error (timeout (verdict s o).1) o else o, log')
  retried (suc left) log =
      let (o, log') = attempt log in if (verdict s o).0 then retried left log' else (o, log')

  retried_stops :
      (left : ℕ) (log : List Call)
      → (verdict s (attempt log).0).0 ≡ false
      → retried left log ≡ attempt log
  retried_stops zero log stop = rw stop refl
  retried_stops (suc left) log stop = rw stop refl

  module _ (log : List Call) where
    abbrev r : RetryExecutor
    r = executor s attempt log

    abbrev outcome : ℕ → Outcome A
    outcome i = (attempt (log_at attempt log i)).0

    -- The run from attempt `i` on, given what the executor did.
    abbrev settled : ℕ → Option Error × List Event → Outcome A × List Call
    settled i run =
        let made = length (calls run.1) in
        (set_error run.0 (outcome ((i + made) - 1)), log_at attempt log (i + made))

    settled_at :
        (i k : ℕ) (e : Option Error) (run : Option Error × List Event)
        → run.0 ≡ e
        → i + length (calls run.1) ≡ suc k
        → settled i run ≡ (set_error e (outcome k), log_at attempt log (suc k))
    settled_at i k e run same made =
        let before : suc k - 1 ≡ k = omega arith in rw (same, made, before) refl

    -- One attempt more in front.
    settled_next :
        (i : ℕ) (run next : Option Error × List Event)
        → run.0 ≡ next.0
        → calls run.1 ≡ i ∷ calls next.1
        → settled i run ≡ settled (suc i) next
    settled_next i run next same more =
        let made : i + length (calls run.1) ≡ suc i + length (calls next.1) =
          ap (λ c. i + length c) more ∙ omega arith in
        rw (same, made) refl

    settled_last :
        (i : ℕ) (e : Option Error) (run : Option Error × List Event)
        → run.0 ≡ e
        → calls run.1 ≡ i ∷ []
        → settled i run ≡ (set_error e (outcome i), log_at attempt log (suc i))
    settled_last i e run same once =
        settled_at i i e run same (ap (λ c. i + length c) once ∙ omega arith)

    Retries-always : (i : ℕ) → (verdict s (outcome i)).0 ≡ true → Retries s.is_canceled r i
    unfolding executor check_cancelled
    Retries-always i h = (h, refl)

    -- An attempt that asks for no other.
    loop_stops :
        (left i : ℕ) (last : Option Error)
        → (verdict s (outcome i)).0 ≡ false
        → settled i (attempt_loop s.is_canceled r (suc left) i last)
          ≡ retried left (log_at attempt log i)
    unfolding log_at executor
    loop_stops left i last stop =
        let run = attempt_loop s.is_canceled r (suc left) i last in
        let e = (verdict s (outcome i)).1 in
        let (same, once) = round-ends s.is_canceled r left i last e (inl (stop, refl)) in
        settled_last i e run same once
        ∙ ap (λ o. (o, (attempt (log_at attempt log i)).1)) (set_error_same s (outcome i))
        ∙ sym (retried_stops left (log_at attempt log i) stop)

    finish_exhausted :
        (e : Option Error)
        → ((finish s.is_canceled r e).0 ≡ timeout e) × (calls (finish s.is_canceled r e).1 ≡ [])
    unfolding finish executor
    finish_exhausted none = (refl, refl)
    finish_exhausted (some e) = (refl, refl)

    -- The last attempt.
    loop_exhausts :
        (i : ℕ) (last : Option Error)
        → (verdict s (outcome i)).0 ≡ true
        → settled i (attempt_loop s.is_canceled r 1 i last) ≡ retried 0 (log_at attempt log i)
    unfolding log_at executor attempt_loop
    loop_exhausts i last again =
        let e = (verdict s (outcome i)).1 in
        let run = attempt_loop s.is_canceled r 1 i last in
        let retries = Retries-always i again in
        let (done, none_left) = finish_exhausted e in
        settled_last i (timeout e) run (round-result s.is_canceled r 0 i last retries ∙ done)
          (round-calls s.is_canceled r 0 i last retries ∙ ap (λ t. i ∷ t) none_left)
        ∙ rw again refl

    loop-retried :
        (left i : ℕ) (last : Option Error)
        → settled i (attempt_loop s.is_canceled r (suc left) i last)
          ≡ retried left (log_at attempt log i)
    unfolding log_at executor
    loop-retried zero i last = elim (Bool-cases (verdict s (outcome i)).0) [
      | inl again ↦ loop_exhausts i last again
      | inr stop ↦ loop_stops zero i last stop
    ]
    loop-retried (suc left) i last = elim (Bool-cases (verdict s (outcome i)).0) [
      | inl again ↦
          let retries = Retries-always i again in
          settled_next i (attempt_loop s.is_canceled r (suc (suc left)) i last)
            (attempt_loop s.is_canceled r (suc left) (suc i) (verdict s (outcome i)).1)
            (round-result s.is_canceled r (suc left) i last retries)
            (round-calls s.is_canceled r (suc left) i last retries)
          ∙ loop-retried left (suc i) (verdict s (outcome i)).1
          ∙ rw again refl
      | inr stop ↦ loop_stops (suc left) i last stop
    ]

  -- The executor with the handler of the client does what a plain loop does: an attempt, and as long
  -- as the rate limit is exceeded up to `maxRetries` more. It leaves the outcome of the last attempt,
  -- whose error is a timeout if it is nil and the rounds are used up, and the requests of all attempts.
  pub run_with_rate_limit_retries-retried :
      (log : List Call) → run_with_rate_limit_retries s attempt log ≡ retried max_retries log
  unfolding run_with_rate_limit_retries execute rounds executor log_at
  run_with_rate_limit_retries-retried log =
      let run = execute s.is_canceled (executor s attempt log) in
      let made : 0 + length (calls run.1) ≡ length (calls run.1) = omega arith in
      ap (λ m. (set_error run.0 (outcome log (m - 1)), log_at attempt log m)) (sym made)
      ∙ loop-retried log max_retries 0 none

  -- So many attempts, one after the other, find that the rate limit is exceeded.
  abbrev pub AllLimited : ℕ → List Call → Type 0
  AllLimited zero log = Unit
  AllLimited (suc k) log = ((verdict s (attempt log).0).0 ≡ true) × AllLimited k (attempt log).1

  -- The log after so many attempts.
  abbrev pub log_after : ℕ → List Call → List Call
  log_after zero log = log
  log_after (suc k) log = log_after k (attempt log).1

  retried_succeeds :
      (left k : ℕ) (log : List Call)
      → k ≤ left
      → AllLimited k log
      → (verdict s (attempt (log_after k log)).0).0 ≡ false
      → retried left log ≡ attempt (log_after k log)
  retried_succeeds left zero log le before stop = retried_stops left log stop
  retried_succeeds zero (suc k) log le before stop = absurd (omega arith)
  retried_succeeds (suc left) (suc k) log le before stop =
      rw before.0 (retried_succeeds left k (attempt log).1 (omega arith) before.1 stop)

  -- If the rate limit is exceeded at so many attempts, at most `maxRetries`, and not at the next one,
  -- then the outcome is that of this one: its value, or its error, and no request is sent after it.
  pub run_with_rate_limit_retries_gets_through :
      (k : ℕ) (log : List Call)
      → k ≤ max_retries
      → AllLimited k log
      → (verdict s (attempt (log_after k log)).0).0 ≡ false
      → run_with_rate_limit_retries s attempt log ≡ attempt (log_after k log)
  run_with_rate_limit_retries_gets_through k log le before stop =
      run_with_rate_limit_retries-retried log ∙ retried_succeeds max_retries k log le before stop

  -- An attempt sends one request at most.
  abbrev pub SendsOne : Type 0
  SendsOne = (log : List Call) → length (attempt log).1 ≤ suc (length log)

  retried-length :
      (left : ℕ) (log : List Call) → SendsOne → length (retried left log).1 ≤ suc left + length log
  retried-length zero log one = let here = one log in omega arith
  retried-length (suc left) log one = elim (Bool-cases (verdict s (attempt log).0).0) [
    | inl again ↦
        let here = one log in
        let more = retried-length left (attempt log).1 one in rw again (omega arith)
    | inr stop ↦ let here = one log in rw stop (omega arith)
  ]

  -- A handler that sends one request at most sends no more than `maxRetries + 1`, whatever comes back.
  pub run_with_rate_limit_retries-length :
      (log : List Call)
      → SendsOne
      → length (run_with_rate_limit_retries s attempt log).1 ≤ suc max_retries + length log
  run_with_rate_limit_retries-length log one =
      rw (run_with_rate_limit_retries-retried log) (retried-length max_retries log one)
