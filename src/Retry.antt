-- ===== src/Retry.antt =====
-- The retry executor (vcsutils/retryexecutor.go). What the handler and the context do is given by
-- the number of the attempt; a run has its result and the trace of what it did.
pub mod Attempts
use froggit_go.Base.{
  ℕ, zero, suc, ◌+◌, ℤ, pos, negsuc, String, ◌<>◌, Bool, true, false, ◌||◌, not, Option, none, some,
  List, [], ◌∷◌, ◌++◌, Error, retry_timeout, error_text, ltb, ◌==◌, if◌then◌else◌,
}
use froggit_go.Base.Decimal.{decimal, decimal_int}

pub record RetryExecutor : Type 0 where
  pub context : Option (ℕ → Option Error)
  pub max_retries : ℤ
  pub retries_interval_milli_secs : ℤ
  pub error_message : String
  pub log_msg_prefix : String
  pub execution_handler : ℕ → Bool × Option Error

pub data Event : Type 0 where
  call : ℕ → Event
  sleep : ℕ → Event
  log_debug log_info log_warn log_error : String → Event

-- `getTimeoutErrorMsg`
unfoldable pub get_timeout_error_msg : RetryExecutor → String
unfolding decimal_int
get_timeout_error_msg r =
    (if r.log_msg_prefix == "" then "" else r.log_msg_prefix <> " ")
    <> ("executor timeout after "
        <> (decimal_int r.max_retries
            <> (" attempts with "
                <> (decimal_int r.retries_interval_milli_secs <> " milliseconds wait intervals"))))

-- `LogRetry`: a warning if there is something to say, and else a debug message.
unfoldable pub log_retry : RetryExecutor → ℕ → Option Error → Event
unfolding decimal error_text
log_retry r attempt e =
    let attempts = r.log_msg_prefix <> ("(Attempt " <> (decimal (attempt + 1) <> ")")) in
    let message =
      if r.error_message == "" then attempts else attempts <> (" - " <> r.error_message) in
    elim e [
      | some cause ↦ log_warn (message <> (": " <> error_text cause))
      | none ↦ if not (r.error_message == "") then log_warn message else log_debug message
    ]

-- `is_canceled` is `errors.Is(err, context.Canceled)`.
module _ (is_canceled : Error → Bool) (r : RetryExecutor) where
  canceled_error : Option Error → Option Error
  canceled_error none = none
  canceled_error (some e) = if is_canceled e then some e else none

  -- `checkCancelled`, after an attempt.
  unfoldable pub check_cancelled : ℕ → Option Error
  unfolding canceled_error
  check_cancelled i = elim r.context [
    | none ↦ none
    | some context_err ↦ canceled_error (context_err i)
  ]

  -- The wait between attempts: there is none behind the last one.
  wait : ℤ → ℕ → List Event
  wait (pos (suc ms)) (suc left) = sleep (suc ms) ∷ []
  wait _ _ = []

  -- What follows the loop, given the error of the last attempt.
  unfoldable pub finish : Option Error → Option Error × List Event
  unfolding get_timeout_error_msg
  finish (some e) = (some e, log_error (get_timeout_error_msg r) ∷ [])
  finish none = (some (retry_timeout (get_timeout_error_msg r)), [])

  -- An attempt that asks for a retry, and the attempts after it.
  retry_round :
      ℕ → ℕ → Option Error → Option Error → Option Error × List Event → Option Error × List Event
  unfolding wait log_retry
  retry_round i left e (some canceled) rest =
      (some canceled, call i ∷ log_info "Retry executor was cancelled" ∷ [])
  retry_round i left e none rest =
      (rest.0, call i ∷ log_retry r i e ∷ (wait r.retries_interval_milli_secs left ++ rest.1))

  -- The loop from attempt `i` on, with so many rounds left.
  unfoldable pub attempt_loop : ℕ → ℕ → Option Error → Option Error × List Event
  unfolding check_cancelled finish retry_round
  attempt_loop zero i last = finish last
  attempt_loop (suc left) i last =
      let rest = attempt_loop left (suc i) (r.execution_handler i).1 in
      if (r.execution_handler i).0
      then retry_round i left (r.execution_handler i).1 (check_cancelled i) rest
      else ((r.execution_handler i).1, call i ∷ [])

  -- The rounds of `for i := 0; i <= MaxRetries; i++`.
  unfoldable pub rounds : ℤ → ℕ
  rounds (pos n) = suc n
  rounds (negsuc n) = zero

  -- `Execute`
  unfoldable pub execute : Option Error × List Event
  unfolding attempt_loop rounds
  execute = attempt_loop (rounds r.max_retries) 0 none
