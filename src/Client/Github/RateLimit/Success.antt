-- ===== src/Client/Github/RateLimit/Success.antt =====
-- Requests to GitHub that succeed at once.
use froggit_go.Base.{
  ℕ, String, ◌≢◌, false, ◌≡◌, refl, ap, ◌∙◌, ℤ, Result, ok, none, some, Option, ◌∷◌, List, arith,
}
use froggit_go.Vcs.Responses.{contains}
use froggit_go.Client.Github.Api.{GithubResponse, Call, Answer, Server}
use froggit_go.Client.Github.RateLimit.{
  returned, verdict, should_retry_if_rate_limit_exceeded, run_with_rate_limit_retries, request,
  reading_with, limited, limited_with_response, ask, to_result, to_result_with,
}
use froggit_go.Client.Github.RateLimit.Rounds.{run_with_rate_limit_retries_gets_through}

-- A response with the status `OK`, on which a request is not sent again.
abbrev pub ok_response : ℤ → GithubResponse
ok_response last = record {
  http = some (record { status = "200 OK"; status_code = 200; body = ok "" });
  last_page = last;
}

module _ (s : Server) {A : Type 0} (answer : Answer A) (c : Call) (a : A) (last : ℤ)
    (log : List Call) (given : answer log c ≡ (some (ok_response last), ok a)) where
  run_succeeds :
      run_with_rate_limit_retries s (request answer c) log
      ≡ (returned (some (ok_response last)) none (some a), c ∷ log)
  unfolding request verdict
  run_succeeds =
      run_with_rate_limit_retries_gets_through s (request answer c) 0 log (omega arith) tt
        (rw given refl)
      ∙ rw given refl

  -- A request that succeeds is sent once.
  pub limited_with_response_succeeds :
      limited_with_response s (request answer c) log ≡ (ok (a, some (ok_response last)), c ∷ log)
  unfolding limited_with_response
  limited_with_response_succeeds = ap (λ o. (to_result_with o.0, o.1)) run_succeeds

  pub ask_succeeds : ask s answer c log ≡ (ok a, c ∷ log)
  unfolding ask limited
  ask_succeeds = ap (λ o. (to_result o.0, o.1)) run_succeeds

  -- The same with what the handler makes of the value, if this gives no error.
  pub reading_with_succeeds :
      {B : Type 0} (f : Option GithubResponse → A → Result B) (b : B)
      → f (some (ok_response last)) a ≡ ok b
      → limited s (reading_with (request answer c) f) log ≡ (ok b, c ∷ log)
  unfolding reading_with request limited verdict
  reading_with_succeeds f b h =
      let once : reading_with (request answer c) f log
          ≡ (returned (some (ok_response last)) none (some b), c ∷ log) =
        rw (given, h) refl in
      ap (λ o. (to_result o.0, o.1))
        (run_with_rate_limit_retries_gets_through s (reading_with (request answer c) f) 0 log
            (omega arith) tt (rw (given, h) refl)
          ∙ once)

-- A response with another status on which a request is not sent again.
abbrev pub final_response : String → ℕ → ℤ → GithubResponse
final_response status status_code last = record {
  http = some (record { status = status; status_code = status_code; body = ok "" });
  last_page = last;
}

module _ (s : Server) {A : Type 0} (answer : Answer A) (c : Call) (a : A) (status : String)
    (code : ℕ) (last : ℤ) (log : List Call) (no_abuse : code ≢ 403) (not_too_many : code ≢ 429)
    (given : answer log c ≡ (some (final_response status code last), ok a)) where
  final :
      should_retry_if_rate_limit_exceeded s (some (final_response status code last)) none ≡ false
  unfolding should_retry_if_rate_limit_exceeded contains
  final = ground arith

  -- A request whose response has no status of the rate limit is sent once.
  pub ask_final : ask s answer c log ≡ (ok a, c ∷ log)
  unfolding ask limited request verdict
  ask_final =
      let run : run_with_rate_limit_retries s (request answer c) log
          ≡ (returned (some (final_response status code last)) none (some a), c ∷ log) =
        run_with_rate_limit_retries_gets_through s (request answer c) 0 log (omega arith) tt
          (rw given final)
        ∙ rw given refl in
      ap (λ o. (to_result o.0, o.1)) run
