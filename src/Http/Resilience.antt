-- ===== src/Http/Resilience.antt =====
-- scion_sdk/resilience.py: calls that are repeated, or replaced by fallbacks, under a policy. A call
-- reads and changes the world `W`, and returns a value or raises an exception.
pub mod Attempts
use agent_connector_sdk.Base.{
  ℕ, zero, suc, ◌+◌, String, Bool, true, false, not, ◌&&◌, ◌||◌, Option, none, some, List, [], ◌∷◌,
  ◌++◌, length, ltb, ◌==◌, leb, contains, if◌then◌else◌, Result, ok, err, bind, require,
}
use agent_connector_sdk.Http.Retry.{
  Floats, Failure, RetryPolicy, is_instance, is_tls_verification_failure, backoff,
}

-- ValueError before any call, an exception of a call, RuntimeError after the last.
pub data RunError : Type 0 where
  refused exhausted : RunError
  raised : Failure → RunError

abbrev pub Operation : Type 0 → Type 0 → Type 0
Operation W T = W → Result Failure T × W

-- `retry_on`: `none` unless it is a tuple of exception types, none of which is Exception.
abbrev pub RetryOn : Type 0
RetryOn = Option (List String)

-- The built-in errors that are never retried; TimeoutError is the one of a timed call too.
abbrev pub never_retried : List String
never_retried = "TimeoutError" ∷ "PermissionError" ∷ "TypeError" ∷ "ValueError" ∷ []

-- `_retryable`
unfoldable pub is_retryable : Failure → List String → Bool
is_retryable error retry_on =
    if is_instance error never_retried
    then false
    else is_instance error retry_on && not (is_tls_verification_failure error)

abbrev is_nonzero : ℕ → Bool
is_nonzero n = not (n == 0)

-- `_validate`; it gives the exception types.
unfoldable pub validate :
    {F : Type 0} → RetryPolicy F → RetryOn → Bool → ℕ → Result RunError (List String)
validate policy retry_on retry_safe fallback_count =
    bind
      (require (not ((ltb 1 policy.max_attempts || is_nonzero fallback_count) && not retry_safe))
        refused)
      λ _.
        bind (require (leb fallback_count 10) refused)
          λ _. elim retry_on [ none ↦ err refused | some names ↦ ok names ]

repeated : {A : Type 0} → ℕ → A → List A
repeated zero x = []
repeated (suc n) x = x ∷ repeated n x

-- `_plan`
unfoldable pub plan :
    {W T F : Type 0} → Operation W T → List (Operation W T) → RetryPolicy F → List (Operation W T)
unfolding repeated
plan primary fallbacks policy = repeated policy.max_attempts primary ++ fallbacks

module _ {W T : Type 0} where
  -- `_attempt_sync` and the rest of its loop: a value, an exception that is raised again, or `rest`.
  unfoldable pub attempt :
      List String
      → (last : Bool) → Result Failure T × W
      → (W → Result RunError T × W)
      → Result RunError T × W
  attempt retry_on last (ok value, w) rest = (ok value, w)
  attempt retry_on last (err error, w) rest =
      let others = rest w in
      if last || not (is_retryable error retry_on) then (err (raised error), w) else others

  abbrev pub is_empty : List (Operation W T) → Bool
  is_empty [] = true
  is_empty (call ∷ calls) = false

module _ {W F : Type 0} (floats : Floats W F) (sleep : F → W → W) where
  sleep_for : F × W → W
  sleep_for (delay, w) = sleep delay w

  -- The wait before a call that is neither the first nor a fallback.
  unfoldable pub wait_before : RetryPolicy F → ℕ → W → W
  unfolding sleep_for
  wait_before policy index w =
      if ltb 0 index && ltb index policy.max_attempts
      then sleep_for (backoff floats policy index w)
      else w

  -- `_validate_timeout`, for a timeout that is a number.
  unfoldable pub validate_timeout : Option F → Result RunError (Unit {0})
  validate_timeout none = ok tt
  validate_timeout (some seconds) =
      require (floats.is_finite seconds && not (floats.le seconds floats.zero)) refused

module _ {W F T : Type 0} (floats : Floats W F) (sleep : F → W → W) where
  unfoldable pub run_calls :
      RetryPolicy F → List String → ℕ → List (Operation W T) → W → Result RunError T × W
  unfolding attempt wait_before
  run_calls policy retry_on index [] w = (err exhausted, w)
  run_calls policy retry_on index (call ∷ calls) w =
      attempt retry_on (is_empty calls) (call (wait_before floats sleep policy index w))
        (run_calls policy retry_on (suc index) calls)

  unfoldable pub run_with_resilience_sync :
      Operation W T
      → RetryOn
      → (retry_safe : Bool) → RetryPolicy F
      → (timeout_seconds : Option F) → List (Operation W T)
      → W
      → Result RunError T × W
  unfolding run_calls
  run_with_resilience_sync primary retry_on retry_safe policy timeout_seconds fallbacks w =
      elim (validate policy retry_on retry_safe (length fallbacks)) [
        | err error ↦ (err error, w)
        | ok names ↦ elim timeout_seconds [
          | some _ ↦ (err refused, w)
          | none ↦ run_calls policy names 0 (plan primary fallbacks policy) w
        ]
      ]

  -- `fail_after` is `anyio.fail_after`: the call, or TimeoutError at its deadline.
  module _ (fail_after : F → Operation W T → Operation W T) where
    -- `_timed`
    unfoldable pub timed : Option F → Operation W T → Operation W T
    timed none call = call
    timed (some seconds) call = fail_after seconds call

    all_timed : Option F → List (Operation W T) → List (Operation W T)
    unfolding timed
    all_timed timeout [] = []
    all_timed timeout (call ∷ calls) = timed timeout call ∷ all_timed timeout calls

    unfoldable pub run_with_resilience :
        Operation W T
        → RetryOn
        → (retry_safe : Bool) → RetryPolicy F
        → Option F
        → List (Operation W T)
        → W
        → Result RunError T × W
    unfolding run_calls all_timed
    run_with_resilience primary retry_on retry_safe policy timeout_seconds fallbacks w =
        elim (bind (validate policy retry_on retry_safe (length fallbacks))
          λ names. bind (validate_timeout floats sleep timeout_seconds) λ _. ok names) [
            | err error ↦ (err error, w)
            | ok names ↦
                run_calls policy names 0 (all_timed timeout_seconds (plan primary fallbacks policy))
                  w
          ]
