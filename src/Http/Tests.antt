-- ===== src/Http/Tests.antt =====
-- The witnesses of the properties of retries, with whole seconds as the floats and a counter of the
-- calls as the world.
use agent_connector_sdk.Base.{
  ℕ, ◌+◌, ◌*◌, ◌/◌, ◌^◌, ◌<◌, min, max, leb, ◌≡◌, ◌≢◌, refl, true, false, ◌||◌, none, some, [], ◌∷◌,
  err, ◌⊎◌, contains, arith,
}
use agent_connector_sdk.Http.Retry.{
  Floats, Failure, RetryPolicy, includes, is_instance, not_sent, is_tls_verification_failure,
  parse_retry_after, backoff, delay_after_response, delay_after_error, idempotent_methods,
}
use agent_connector_sdk.Http.Retry.Delays.{delay_after_response-eq-some, delay_after_error-eq-some}
use agent_connector_sdk.Http.Resilience.{
  refused, exhausted, Operation, is_retryable, validate, plan, wait_before, attempt, run_calls,
  run_with_resilience_sync,
}
use agent_connector_sdk.Http.Resilience.Attempts.{
  as_run, Ending, run_with_resilience_sync-unsafe, run_with_resilience_sync-raised,
  run_with_resilience_sync-answers,
}

abbrev floats : Floats ℕ ℕ
floats = record {
  zero = 0;
  one = 1;
  minimum = min;
  maximum = max;
  times = ◌*◌;
  power = ◌^◌;
  half = λ n. n / 2;
  le = leb;
  is_finite = λ n. true;
  uniform = λ low high w. (low, w);
  strip = λ t. t;
  is_digits = λ t. contains t ("7" ∷ []);
  of_digits = λ t. 7;
  seconds_until = λ t w. none;
}

abbrev policy : RetryPolicy ℕ
policy = record {
  max_attempts = 3;
  backoff_base = 1;
  backoff_factor = 2;
  max_backoff = 30;
  max_retry_after = 120;
  jitter = false;
  retry_statuses = 429 ∷ 503 ∷ [];
  retry_methods = idempotent_methods;
}

delay_after_response-eq-some_example :
    (1 < policy.max_attempts)
    × (contains "GET" policy.retry_methods ≡ true)
    × (includes 503 policy.retry_statuses ≡ true)
    × (((parse_retry_after floats (some "7") 0 ≡ some 7)
          × (leb 7 policy.max_retry_after ≡ true)
          × (◌≡◌ {A = ℕ} 0 0))
        ⊎ ((parse_retry_after floats (some "7") 0 ≡ none) × (backoff floats policy 1 0 ≡ (7, 0))))
unfolding delay_after_response parse_retry_after
delay_after_response-eq-some_example =
    delay_after_response-eq-some floats policy "GET" 503 (some "7") 1 0 0 7 refl

abbrev dropped : Failure
dropped = record {
  classes = "ConnectError" ∷ "TransportError" ∷ [];
  path = record { id = 1; is_certificate_error = false; has_marker = false } ∷ [];
}

delay_after_error-eq-some_example :
    (2 < policy.max_attempts)
    × (is_tls_verification_failure dropped ≡ false)
    × ((is_instance dropped not_sent || contains "POST" policy.retry_methods) ≡ true)
    × (backoff floats policy 2 0 ≡ (2, 0))
unfolding delay_after_error backoff is_tls_verification_failure
delay_after_error-eq-some_example =
    delay_after_error-eq-some floats policy "POST" dropped 2 0 0 2 refl

abbrev sleep : ℕ → ℕ → ℕ
sleep delay calls = calls

-- An operation that fails each time, and counts its calls.
abbrev failing : Operation ℕ ℕ
failing calls = (err dropped, calls + 1)

run_with_resilience_sync-unsafe_example :
    let run =
      run_with_resilience_sync floats sleep failing
        (some ("ConnectError" ∷ []))
        false
        policy
        none
        []
        0 in
    (run ≡ (err refused, 0)) ⊎ (run ≡ as_run (failing 0))
run_with_resilience_sync-unsafe_example =
    run_with_resilience_sync-unsafe floats sleep failing (some ("ConnectError" ∷ [])) policy none []
      0 (omega arith)

run_with_resilience_sync-raised_example :
    Ending floats sleep ("ConnectError" ∷ []) (plan failing [] policy) dropped 3
unfolding run_with_resilience_sync run_calls validate plan wait_before attempt is_retryable backoff
    is_tls_verification_failure
run_with_resilience_sync-raised_example =
    run_with_resilience_sync-raised floats sleep failing ("ConnectError" ∷ []) true policy [] 0 3
      dropped refl

run_with_resilience_sync-answers_example :
    (run_with_resilience_sync floats sleep failing
      (some ("ConnectError" ∷ []))
      true
      policy
      none
      []
      0).0
    ≢ err exhausted
run_with_resilience_sync-answers_example =
    run_with_resilience_sync-answers floats sleep failing (some ("ConnectError" ∷ [])) true policy
      none [] 0 (omega arith)
