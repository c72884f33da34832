-- ===== src/Client/Github/RateLimit.antt =====
-- The requests to GitHub that are sent again when the rate limit is exceeded: the retry executor
-- with the handler of the client.
pub mod Rounds
pub mod Success
use froggit_go.Base.{
  ℕ, zero, suc, ◌-◌, pos, String, Bool, true, false, not, Option, none, some, List, [], ◌∷◌, Result,
  ok, err, panic, Error, wrapping, joined, ◌||◌, deref, length, if◌then◌else◌, ◌>>=◌,
}
use froggit_go.Base.Text.{contains_text}
use froggit_go.Calls.{Calls}
use froggit_go.Vcs.Responses.{Response, contains}
use froggit_go.Retry.{RetryExecutor, execute}
use froggit_go.Retry.Attempts.{calls}
use froggit_go.Client.Github.Api.{GithubResponse, Call, Answer, Server, Rest}

abbrev pub max_retries : ℕ
max_retries = 5

abbrev pub retries_interval_milli_secs : ℕ
retries_interval_milli_secs = 60000

abbrev pub rate_limit_retry_statuses : List ℕ
rate_limit_retry_statuses = 403 ∷ 429 ∷ []

-- What a handler leaves behind: the response and the error that it returns, and the variables that
-- it sets. A panic goes through the executor.
pub data Outcome (A : Type 0) : Type 0 where
  returned : Option GithubResponse → Option Error → A → Outcome A
  crashed : String → Outcome A

-- A run of the handler, after the requests of a log.
abbrev pub Attempt : Type 0 → Type 0
Attempt A = List Call → Outcome A × List Call

module _ (s : Server) where
  -- `isRateLimitAbuseError`: `errors.As` also looks at the errors inside an error.
  is_rate_limit_abuse_error : Error → Bool
  is_rate_limit_abuse_error (wrapping t e) = is_rate_limit_abuse_error e
  is_rate_limit_abuse_error (joined d e) =
      is_rate_limit_abuse_error d || is_rate_limit_abuse_error e
  is_rate_limit_abuse_error e = s.is_abuse_type e

  is_abuse : Option Error → Bool
  unfolding is_rate_limit_abuse_error
  is_abuse none = false
  is_abuse (some e) = is_rate_limit_abuse_error e

  -- The checks behind those for nil.
  retry_on : Response → Option Error → Bool
  unfolding contains contains_text is_abuse
  retry_on r e =
      if not (contains rate_limit_retry_statuses r.status_code)
      then false
      else if is_abuse e
      then false
      else elim r.body [
        | ok body ↦ contains_text body "rate limit"
        | err read_err ↦ false
        | panic m ↦ false
      ]

  unfoldable pub should_retry_if_rate_limit_exceeded : Option GithubResponse → Option Error → Bool
  unfolding retry_on
  should_retry_if_rate_limit_exceeded none e = false
  should_retry_if_rate_limit_exceeded (some r) e = elim r.http [
    | none ↦ false
    | some h ↦ retry_on h e
  ]

module _ (s : Server) {A : Type 0} where
  -- The handler of the executor. A panic ends the run.
  unfoldable pub verdict : Outcome A → Bool × Option Error
  unfolding should_retry_if_rate_limit_exceeded
  verdict (returned r e a) = (should_retry_if_rate_limit_exceeded s r e, e)
  verdict (crashed m) = (false, none)

-- The log before attempt `i`, if there is one.
unfoldable pub log_at : {A : Type 0} → Attempt A → List Call → ℕ → List Call
log_at attempt log zero = log
log_at attempt log (suc i) = (attempt (log_at attempt log i)).1

-- What the executor returns takes the place of the handler's error.
unfoldable pub set_error : {A : Type 0} → Option Error → Outcome A → Outcome A
set_error e (returned r e' a) = returned r e a
set_error e (crashed m) = crashed m

module _ (s : Server) {A : Type 0} where
  -- `GitHubRateLimitRetryExecutor`, as `NewGitHubClient` makes it and `Execute` completes it.
  unfoldable pub executor : Attempt A → List Call → RetryExecutor
  unfolding verdict log_at
  executor attempt log = record {
    context = none;
    max_retries = pos max_retries;
    retries_interval_milli_secs = pos retries_interval_milli_secs;
    error_message = "";
    log_msg_prefix = "";
    execution_handler = λ i. verdict s (attempt (log_at attempt log i)).0;
  }

  -- The attempts are those that `Execute` makes, and the variables are those of the last one.
  unfoldable pub run_with_rate_limit_retries : Attempt A → Attempt A
  unfolding execute executor set_error
  run_with_rate_limit_retries attempt log =
      let run = execute s.is_canceled (executor attempt log) in
      let made = length (calls run.1) in
      (set_error run.0 (attempt (log_at attempt log (made - 1))).0, log_at attempt log made)

module _ {A : Type 0} where
  abbrev answered : Option GithubResponse → Result A → Outcome (Option A)
  answered r (ok a) = returned r none (some a)
  answered r (err e) = returned r (some e) none
  answered r (panic m) = crashed m

  -- A request whose reply is kept as it is.
  unfoldable pub request : Answer A → Call → Attempt (Option A)
  request answer c log = (answered (answer log c).0 (answer log c).1, c ∷ log)

  -- What an operation returns: the error, or the value of the variable that the handler has set.
  abbrev pub to_result : Outcome (Option A) → Result A
  to_result (returned r (some e) a) = err e
  to_result (returned r none a) = deref a
  to_result (crashed m) = panic m

  -- The same with the response.
  abbrev pub to_result_with : Outcome (Option A) → Result (A × Option GithubResponse)
  to_result_with (returned r (some e) a) = err e
  to_result_with (returned r none a) = deref a >>= λ v. ok (v, r)
  to_result_with (crashed m) = panic m

module _ {A B : Type 0} where
  abbrev mapped : (Option GithubResponse → A → Result B) → Outcome (Option A) → Outcome (Option B)
  mapped f (returned r none (some a)) = answered r (f r a)
  mapped f (returned r none none) = returned r none none
  mapped f (returned r (some e) a) = returned r (some e) none
  mapped f (crashed m) = crashed m

  -- What the handler makes of a value and the response, within the attempt.
  unfoldable pub reading_with :
      Attempt (Option A) → (Option GithubResponse → A → Result B) → Attempt (Option B)
  reading_with m f log = let (o, log') = m log in (mapped f o, log')

  -- The same for a value only.
  abbrev pub reading : Attempt (Option A) → (A → Result B) → Attempt (Option B)
  reading m f = reading_with m (λ r a. f a)

module _ (s : Server) {A : Type 0} where
  unfoldable pub limited : Attempt (Option A) → Rest A
  unfolding run_with_rate_limit_retries
  limited attempt log =
      let (o, log') = run_with_rate_limit_retries s attempt log in (to_result o, log')

  unfoldable pub limited_with_response : Attempt (Option A) → Rest (A × Option GithubResponse)
  unfolding run_with_rate_limit_retries
  limited_with_response attempt log =
      let (o, log') = run_with_rate_limit_retries s attempt log in (to_result_with o, log')

  -- A request, sent again when the rate limit is exceeded.
  unfoldable pub ask : Answer A → Call → Rest A
  unfolding limited request
  ask answer c = limited (request answer c)
