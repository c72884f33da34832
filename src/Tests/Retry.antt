-- ===== src/Tests/Retry.antt =====
-- An executor whose handler succeeds at its second attempt, and one whose handler never does.
use froggit_go.Base.{
  Bool, pos, ◌≡◌, refl, true, false, none, some, [], ◌∷◌, inl, Error, foreign, ltb, arith,
}
use froggit_go.Retry.{RetryExecutor, call, log_debug, sleep, execute}
use froggit_go.Retry.Attempts.{calls, count_from, execute-ends, execute-exhausts}

abbrev never : Error → Bool
never e = false

abbrev second : RetryExecutor
second = record {
  context = none;
  max_retries = pos 3;
  retries_interval_milli_secs = pos 10;
  error_message = "";
  log_msg_prefix = "";
  execution_handler = λ i. (ltb i 1, none);
}

abbrev failing : RetryExecutor
failing = record second {
  max_retries = pos 1;
  execution_handler = λ i. (true, some (foreign "down"));
}

-- The trace of the first: two calls, a message and a wait between them.
trace : execute never second ≡ (none, call 0 ∷ log_debug "(Attempt 1)" ∷ sleep 10 ∷ call 1 ∷ [])
unfolding execute
trace = refl

execute-ends_example :
    ((execute never second).0 ≡ none) × (calls (execute never second).1 ≡ count_from 0 2)
execute-ends_example =
    execute-ends never second 3 1 none refl (omega arith) ((refl, inl refl), tt) (inl (refl, refl))

execute-exhausts_example :
    ((execute never failing).0 ≡ some (foreign "down"))
    × (calls (execute never failing).1 ≡ count_from 0 2)
execute-exhausts_example =
    execute-exhausts never failing 1 refl ((refl, inl refl), ((refl, inl refl), tt))
