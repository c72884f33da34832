-- ===== src/Retry/Attempts.antt =====
-- How often the handler is called, and what comes of it.
use froggit_go.Base.{
  ℕ, zero, suc, ◌+◌, ◌≤◌, ◌<◌, ℤ, pos, negsuc, ◌≡◌, ◌≢◌, refl, sym, ◌⊎◌, inl, inr, ap, ◌∙◌, Bool,
  true, false, Option, none, some, List, [], ◌∷◌, ◌++◌, Error, retry_timeout, arith,
}
use mathlib.Core.Path.{subst}
use froggit_go.Retry.{
  RetryExecutor, Event, call, check_cancelled, canceled_error, wait, retry_round, attempt_loop,
  rounds, execute, log_retry, get_timeout_error_msg,
}

-- The attempts of a trace, in order.
abbrev pub calls : List Event → List ℕ
calls [] = []
calls (call i ∷ t) = i ∷ calls t
calls (e ∷ t) = calls t

-- The numbers from `i` on, so many of them.
abbrev pub count_from : ℕ → ℕ → List ℕ
count_from i zero = []
count_from i (suc n) = i ∷ count_from (suc i) n

module _ (is_canceled : Error → Bool) (r : RetryExecutor) where
  -- After attempt `i` the context is found cancelled, with this error.
  abbrev pub IsCanceledAt : ℕ → Error → Type 0
  IsCanceledAt i e =
      (context_err : ℕ → Option Error) × (r.context ≡ some context_err)
      × (context_err i ≡ some e)
      × (is_canceled e ≡ true)

  -- There is no context, or it has no error, or its error is not that of a cancellation.
  abbrev pub IsLiveAt : ℕ → Type 0
  IsLiveAt i =
      (r.context ≡ none)
      ⊎ ((context_err : ℕ → Option Error) × (r.context ≡ some context_err)
          × ((context_err i ≡ none)
              ⊎ ((e : Error) × (context_err i ≡ some e) × (is_canceled e ≡ false))))

  check_cancelled-some :
      (i : ℕ) (e : Error) → IsCanceledAt i e → check_cancelled is_canceled r i ≡ some e
  unfolding check_cancelled
  check_cancelled-some i e (context_err, c, f, k) = rw (c, f, canceled_error, k) refl

  check_cancelled-none : (i : ℕ) → IsLiveAt i → check_cancelled is_canceled r i ≡ none
  unfolding check_cancelled
  check_cancelled-none i (inl c) = rw c refl
  check_cancelled-none i (inr (context_err, c, inl f)) = rw (c, f, canceled_error) refl
  check_cancelled-none i (inr (context_err, c, inr (e, f, k))) = rw (c, f, canceled_error, k) refl

  -- The handler asks for a retry, and the context is not cancelled.
  abbrev pub Proceeds : ℕ → Type 0
  Proceeds i = ((r.execution_handler i).0 ≡ true) × IsLiveAt i

  -- So many attempts from `i` on are followed by another.
  abbrev pub AllProceed : ℕ → ℕ → Type 0
  AllProceed i zero = Unit
  AllProceed i (suc k) = Proceeds i × AllProceed (suc i) k

  -- The handler, or the context, ends the loop at attempt `m`, with this error.
  abbrev pub IsEnd : ℕ → Option Error → Type 0
  IsEnd m e =
      (((r.execution_handler m).0 ≡ false) × (e ≡ (r.execution_handler m).1))
      ⊎ (((r.execution_handler m).0 ≡ true) × ((c : Error) × IsCanceledAt m c × (e ≡ some c)))

  abbrev pub Retries : ℕ → Type 0
  Retries i = ((r.execution_handler i).0 ≡ true) × (check_cancelled is_canceled r i ≡ none)

  calls-wait :
      (ms : ℤ) (left : ℕ) (t : List Event) → calls (wait is_canceled r ms left ++ t) ≡ calls t
  unfolding wait
  calls-wait (pos (suc ms)) (suc left) t = refl
  calls-wait (pos (suc ms)) zero t = refl
  calls-wait (pos zero) left t = refl
  calls-wait (negsuc n) left t = refl

  calls-log_retry :
      (i : ℕ) (e : Option Error) (t : List Event) → calls (log_retry r i e ∷ t) ≡ calls t
  unfolding log_retry
  calls-log_retry i e t = ground arith

  -- So many attempts from `i` on ask for a retry.
  abbrev AllRetry : ℕ → ℕ → Type 0
  AllRetry i zero = Unit
  AllRetry i (suc k) = Retries i × AllRetry (suc i) k

  pub round-result :
      (left i : ℕ) (last : Option Error)
      → Retries i
      → (attempt_loop is_canceled r (suc left) i last).0
        ≡ (attempt_loop is_canceled r left (suc i) (r.execution_handler i).1).0
  unfolding attempt_loop
  round-result left i last h = rw (h.0, h.1, retry_round)

  pub round-calls :
      (left i : ℕ) (last : Option Error)
      → Retries i
      → calls (attempt_loop is_canceled r (suc left) i last).1
        ≡ i ∷ calls (attempt_loop is_canceled r left (suc i) (r.execution_handler i).1).1
  unfolding attempt_loop
  round-calls left i last h =
      rw (h.0, h.1, retry_round)
        (ap (λ t. i ∷ t)
          (rw (calls-log_retry i) (
            calls-wait r.retries_interval_milli_secs left
              (attempt_loop is_canceled r left (suc i) (r.execution_handler i).1).1)))

  AllProceed-AllRetry : (k i : ℕ) → AllProceed i k → AllRetry i k
  AllProceed-AllRetry zero i h = tt
  AllProceed-AllRetry (suc k) i h =
      ((h.0.0, check_cancelled-none i h.0.1), AllProceed-AllRetry k (suc i) h.1)

  -- The same in terms of the code's check.
  abbrev pub EndsAt : ℕ → Option Error → Type 0
  EndsAt m e =
      (((r.execution_handler m).0 ≡ false) × (e ≡ (r.execution_handler m).1))
      ⊎ (((r.execution_handler m).0 ≡ true) × (e ≢ none) × (check_cancelled is_canceled r m ≡ e))

  IsEnd-EndsAt : (m : ℕ) (e : Option Error) → IsEnd m e → EndsAt m e
  IsEnd-EndsAt m e (inl stop) = inl stop
  IsEnd-EndsAt m e (inr (more, (c, canceled, same))) =
      inr (more, (λ n. absurd (ground arith)), check_cancelled-some m c canceled ∙ sym same)

  pub round-ends :
      (left m : ℕ) (last e : Option Error)
      → EndsAt m e
      → ((attempt_loop is_canceled r (suc left) m last).0 ≡ e)
        × (calls (attempt_loop is_canceled r (suc left) m last).1 ≡ m ∷ [])
  unfolding attempt_loop
  round-ends left m last e (inl (stop, e')) = rw (stop, e') (refl, refl)
  round-ends left m last none (inr (more, some_e, c)) = absurd (some_e refl)
  round-ends left m last (some e) (inr (more, some_e, c)) = rw (more, c, retry_round) (refl, refl)

  attempt_loop-ends :
      (k left i m : ℕ) (last e : Option Error)
      → k < left
      → m ≡ i + k
      → AllRetry i k
      → EndsAt m e
      → ((attempt_loop is_canceled r left i last).0 ≡ e)
        × (calls (attempt_loop is_canceled r left i last).1 ≡ count_from i (suc k))
  attempt_loop-ends k zero i m last e h at before ends = absurd (omega arith)
  attempt_loop-ends zero (suc left) i m last e h at before ends =
      let same : m ≡ i = omega arith in round-ends left i last e (subst (λ x. EndsAt x e) same ends)
  attempt_loop-ends (suc k) (suc left) i m last e h at before ends =
      let ih =
        attempt_loop-ends k left (suc i) m (r.execution_handler i).1 e (omega arith) (omega arith)
          before.1 ends in
      (
        round-result left i last before.0 ∙ ih.0,
        round-calls left i last before.0 ∙ ap (λ t. i ∷ t) ih.1,
      )

  -- If the handler asks for a retry at the attempts before `m`, and at attempt `m` it asks for none
  -- or the context is found cancelled, and `m` is not above `MaxRetries`, then `Execute` returns the
  -- handler's error, or that of the context, and has called the handler `m + 1` times, in order.
  pub execute-ends :
      (n m : ℕ) (e : Option Error)
      → r.max_retries ≡ pos n
      → m ≤ n
      → AllProceed 0 m
      → IsEnd m e
      → ((execute is_canceled r).0 ≡ e) × (calls (execute is_canceled r).1 ≡ count_from 0 (suc m))
  unfolding execute rounds
  execute-ends n m e max h before ends =
      subst
        (λ k.
          ((attempt_loop is_canceled r k 0 none).0 ≡ e)
          × (calls (attempt_loop is_canceled r k 0 none).1 ≡ count_from 0 (suc m)))
        (sym (ap (rounds is_canceled r) max))
        (attempt_loop-ends m (suc n) 0 m none e (omega arith) (omega arith)
          (AllProceed-AllRetry m 0 before) (IsEnd-EndsAt m e ends))

  -- What `Execute` returns when the rounds are used up: the last error, or a timeout.
  abbrev pub exhausted : Option Error → Option Error
  exhausted (some e) = some e
  exhausted none = some (retry_timeout (get_timeout_error_msg r))

  abbrev last_error : ℕ → ℕ → Option Error → Option Error
  last_error i zero last = last
  last_error i (suc k) last = last_error (suc i) k (r.execution_handler i).1

  last_error_lem :
      (k i m : ℕ) (last : Option Error)
      → m ≡ i + k
      → last_error i (suc k) last ≡ (r.execution_handler m).1
  last_error_lem zero i m last e =
      let same : m ≡ i = omega arith in ap (λ x. (r.execution_handler x).1) (sym same)
  last_error_lem (suc k) i m last e =
      last_error_lem k (suc i) m (r.execution_handler i).1 (omega arith)

  attempt_loop-exhausts :
      (left i : ℕ) (last : Option Error)
      → AllRetry i left
      → ((attempt_loop is_canceled r left i last).0 ≡ exhausted (last_error i left last))
        × (calls (attempt_loop is_canceled r left i last).1 ≡ count_from i left)
  attempt_loop-exhausts zero i none h = unfold attempt_loop in (refl, refl)
  attempt_loop-exhausts zero i (some e) h = unfold attempt_loop in (refl, refl)
  attempt_loop-exhausts (suc left) i last h =
      let ih = attempt_loop-exhausts left (suc i) (r.execution_handler i).1 h.1 in
      (round-result left i last h.0 ∙ ih.0, round-calls left i last h.0 ∙ ap (λ t. i ∷ t) ih.1)

  -- If the handler asks for a retry at every attempt and the context is not cancelled, `Execute`
  -- calls it `MaxRetries + 1` times and returns its last error, or a timeout if that is nil.
  pub execute-exhausts :
      (n : ℕ)
      → r.max_retries ≡ pos n
      → AllProceed 0 (suc n)
      → ((execute is_canceled r).0 ≡ exhausted (r.execution_handler n).1)
        × (calls (execute is_canceled r).1 ≡ count_from 0 (suc n))
  unfolding execute rounds
  execute-exhausts n max h =
      subst
        (λ k.
          ((attempt_loop is_canceled r k 0 none).0 ≡ exhausted (r.execution_handler n).1)
          × (calls (attempt_loop is_canceled r k 0 none).1 ≡ count_from 0 (suc n)))
        (sym (ap (rounds is_canceled r) max))
        (rw (← last_error_lem n 0 n none (omega arith))
          (attempt_loop-exhausts (suc n) 0 none (AllProceed-AllRetry (suc n) 0 h)))
