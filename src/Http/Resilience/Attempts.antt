-- ===== src/Http/Resilience/Attempts.antt =====
-- How often an operation is called, and which exception a run ends with.
use agent_connector_sdk.Base.{
  ℕ, zero, suc, ◌≤◌, String, Bool, true, false, not, ◌&&◌, ◌||◌, Option, none, some, List, [], ◌∷◌,
  ◌++◌, length, ltb, leb, ◌==◌, ◌≡◌, ◌≢◌, refl, subst, arith, Result, ok, err, ◌⊎◌, inl, inr,
  Bool-cases,
}
use agent_connector_sdk.Http.Retry.{Floats, Failure, RetryPolicy}
use agent_connector_sdk.Http.Resilience.{
  RunError, refused, exhausted, raised, Operation, RetryOn, is_retryable, validate, is_nonzero,
  repeated, plan, wait_before, attempt, is_empty, run_calls, run_with_resilience_sync,
}

-- What a run makes of the outcome of its only call.
abbrev pub as_run : {W T : Type 0} → Result Failure T × W → Result RunError T × W
as_run (ok value, w) = (ok value, w)
as_run (err error, w) = (err (raised error), w)

validate_unsafe :
    {F : Type 0} (policy : RetryPolicy F) (retry_on : RetryOn) (count : ℕ)
    → (validate policy retry_on false count ≡ err refused)
      ⊎ ((names : List String) × (validate policy retry_on false count ≡ ok names)
          × (policy.max_attempts ≤ 1)
          × (count ≡ 0))
unfolding validate
validate_unsafe policy none count = inl (ground arith)
validate_unsafe policy (some names) count = elim (Bool-cases (ltb 1 policy.max_attempts)) [
  | inl e ↦ inl (ground arith)
  | inr e ↦ elim (Bool-cases (count == 0)) [
    | inl none_left ↦ inr (names, ground arith, ground arith, ground arith)
    | inr more ↦ inl (ground arith)
  ]
]

validate-cases :
    {F : Type 0} (policy : RetryPolicy F) (retry_on : RetryOn) (retry_safe : Bool) (count : ℕ)
    → (validate policy retry_on retry_safe count ≡ err refused)
      ⊎ ((names : List String) × (validate policy retry_on retry_safe count ≡ ok names))
unfolding validate
validate-cases policy none retry_safe count = inl (ground arith)
validate-cases policy (some names) retry_safe count =
    elim (Bool-cases ((ltb 1 policy.max_attempts || is_nonzero count) && not retry_safe)) [
      | inl e ↦ inl (ground arith)
      | inr e ↦ elim (Bool-cases (leb count 10)) [
        | inl few ↦ inr (names, ground arith)
        | inr many ↦ inl (ground arith)
      ]
    ]

module _ {W F T : Type 0} (floats : Floats W F) (sleep : F → W → W) where
  attempt_last :
      (names : List String) (outcome : Result Failure T × W) (rest : W → Result RunError T × W)
      → attempt names true outcome rest ≡ as_run outcome
  unfolding attempt
  attempt_last names (ok value, w) rest = refl
  attempt_last names (err error, w) rest = refl

  run_calls_single :
      (policy : RetryPolicy F) (names : List String) (call : Operation W T) (w : W)
      → run_calls floats sleep policy names 0 (call ∷ []) w ≡ as_run (call w)
  unfolding run_calls wait_before
  run_calls_single policy names call w = attempt_last names (call w) _

  plan_single :
      (primary : Operation W T) (fallbacks : List (Operation W T)) (policy : RetryPolicy F)
      → policy.max_attempts ≡ 1
      → length fallbacks ≡ 0
      → plan primary fallbacks policy ≡ primary ∷ []
  unfolding plan repeated
  plan_single primary [] policy h e = rw h refl
  plan_single primary (f ∷ fs) policy h e = absurd (omega arith)

  -- With a policy that allows an attempt, an operation that is not declared safe to repeat is called
  -- once or not at all: the run is refused and changes nothing, or it is the outcome of one call.
  pub run_with_resilience_sync-unsafe :
      (primary : Operation W T) (retry_on : RetryOn) (policy : RetryPolicy F) (timeout : Option F)
      (fallbacks : List (Operation W T)) (w : W)
      → 1 ≤ policy.max_attempts
      → let run =
          run_with_resilience_sync floats sleep primary retry_on false policy timeout fallbacks w in
        (run ≡ (err refused, w)) ⊎ (run ≡ as_run (primary w))
  unfolding run_with_resilience_sync
  run_with_resilience_sync-unsafe primary retry_on policy (some t) fallbacks w h =
      inl (elim (validate_unsafe policy retry_on (length fallbacks)) [
        | inl barred ↦ rw (barred, run_with_resilience_sync) refl
        | inr (names, allowed, most, none_left) ↦ rw (allowed, run_with_resilience_sync) refl
      ])
  run_with_resilience_sync-unsafe primary retry_on policy none fallbacks w h =
      elim (validate_unsafe policy retry_on (length fallbacks)) [
        | inl barred ↦ inl (rw (barred, run_with_resilience_sync) refl)
        | inr (names, allowed, most, none_left) ↦ inr (
            rw
              (
                allowed,
                run_with_resilience_sync,
                plan_single primary fallbacks policy (omega arith) none_left,
              )
              (run_calls_single policy names primary w))
      ]

  -- What a run that ends with an exception has done last: a call that raised it.
  pub record Ending (names : List String) (calls : List (Operation W T)) (error : Failure) (w' : W)
      : Type 0 where
    pub earlier : List (Operation W T)
    pub call : Operation W T
    pub later : List (Operation W T)
    pub before : W
    pub planned : calls ≡ earlier ++ (call ∷ later)
    pub outcome : call before ≡ (err error, w')
    pub final : (is_empty later || not (is_retryable error names)) ≡ true

  later-Ending :
      (names : List String) (call : Operation W T) (calls : List (Operation W T)) (error : Failure)
      (w' : W)
      → Ending names calls error w'
      → Ending names (call ∷ calls) error w'
  later-Ending names call calls error w' ending = record {
    earlier = call ∷ ending.earlier;
    call = ending.call;
    later = ending.later;
    before = ending.before;
    planned = rw ending.planned refl;
    outcome = ending.outcome;
    final = ending.final;
  }

  attempt-raised :
      (names : List String) (call : Operation W T) (calls : List (Operation W T)) (before w' : W)
      (error : Failure) (outcome : Result Failure T × W) (rest : W → Result RunError T × W)
      → call before ≡ outcome
      → ((w : W) → rest w ≡ (err (raised error), w') → Ending names calls error w')
      → attempt names (is_empty calls) outcome rest ≡ (err (raised error), w')
      → Ending names (call ∷ calls) error w'
  unfolding attempt
  attempt-raised names call calls before w' error (ok v, w) rest eq go h = absurd (ground arith)
  attempt-raised names call calls before w' error (err e, w) rest eq go h =
      elim (Bool-cases (is_empty calls || not (is_retryable e names))) [
        | inl stop ↦ record {
          earlier = [];
          call = call;
          later = calls;
          before = before;
          planned = refl;
          outcome = ground arith;
          final = ground arith;
        }
        | inr more ↦ later-Ending names call calls error w' (go w (ground arith))
      ]

  run_calls-raised :
      (policy : RetryPolicy F) (names : List String) (index : ℕ) (calls : List (Operation W T))
      (w w' : W) (error : Failure)
      → run_calls floats sleep policy names index calls w ≡ (err (raised error), w')
      → Ending names calls error w'
  unfolding run_calls
  run_calls-raised policy names index [] w w' error h = absurd (ground arith)
  run_calls-raised policy names index (call ∷ calls) w w' error h =
      attempt-raised names call calls _ w' error _ _ refl
        (λ w. run_calls-raised policy names (suc index) calls w w' error) h

  -- A run that ends with an exception got it from a call of its plan, the last call it made; and
  -- either that was the end of the plan, or the exception is not one to retry on.
  pub run_with_resilience_sync-raised :
      (primary : Operation W T) (names : List String) (retry_safe : Bool) (policy : RetryPolicy F)
      (fallbacks : List (Operation W T)) (w w' : W) (error : Failure)
      → run_with_resilience_sync floats sleep primary
          (some names)
          retry_safe
          policy
          none
          fallbacks
          w
        ≡ (err (raised error), w')
      → Ending names (plan primary fallbacks policy) error w'
  unfolding run_with_resilience_sync validate
  run_with_resilience_sync-raised primary names retry_safe policy fallbacks w w' error h =
      run_calls-raised policy names 0 (plan primary fallbacks policy) w w' error (ground arith)

  attempt-answers :
      (names : List String) (last : Bool) (outcome : Result Failure T × W)
      (rest : W → Result RunError T × W)
      → (last ≡ false → (w : W) → (rest w).0 ≢ err exhausted)
      → (attempt names last outcome rest).0 ≢ err exhausted
  unfolding attempt
  attempt-answers names last (ok value, w) rest go h = absurd cc
  attempt-answers names true (err error, w) rest go h = absurd cc
  attempt-answers names false (err error, w) rest go h =
      elim (Bool-cases (is_retryable error names)) [
        | inl e ↦ go refl w (ground arith)
        | inr e ↦ absurd (ground arith)
      ]

  run_calls-answers :
      (policy : RetryPolicy F) (names : List String) (index : ℕ) (call : Operation W T)
      (calls : List (Operation W T)) (w : W)
      → (run_calls floats sleep policy names index (call ∷ calls) w).0 ≢ err exhausted
  unfolding run_calls
  run_calls-answers policy names index call [] w = attempt-answers names true _ _ λ e. absurd cc
  run_calls-answers policy names index call (next ∷ calls) w =
      attempt-answers names false _ _ λ e w. run_calls-answers policy names (suc index) next calls w

  plan_nonempty :
      (primary : Operation W T) (fallbacks : List (Operation W T)) (policy : RetryPolicy F)
      → 1 ≤ policy.max_attempts
      → (calls : List (Operation W T)) × (plan primary fallbacks policy ≡ primary ∷ calls)
  unfolding plan repeated
  plan_nonempty primary fallbacks policy h = repeats policy.max_attempts h
    where
      repeats :
          (n : ℕ)
          → 1 ≤ n
          → (calls : List (Operation W T)) × (repeated n primary ++ fallbacks ≡ primary ∷ calls)
      repeats zero h = absurd (omega arith)
      repeats (suc n) h = (repeated n primary ++ fallbacks, refl)

  -- A run never falls through its plan: with a policy that allows an attempt, its result is a value,
  -- a refusal or the exception of a call.
  pub run_with_resilience_sync-answers :
      (primary : Operation W T) (retry_on : RetryOn) (retry_safe : Bool) (policy : RetryPolicy F)
      (timeout : Option F) (fallbacks : List (Operation W T)) (w : W)
      → 1 ≤ policy.max_attempts
      → (run_with_resilience_sync floats sleep primary retry_on retry_safe policy timeout fallbacks
          w).0
        ≢ err exhausted
  unfolding run_with_resilience_sync
  run_with_resilience_sync-answers primary retry_on retry_safe policy (some t) fallbacks w h eq =
      elim (validate-cases policy retry_on retry_safe (length fallbacks)) [
        | inl barred ↦ absurd (ground arith)
        | inr (names, allowed) ↦ absurd (ground arith)
      ]
  run_with_resilience_sync-answers primary retry_on retry_safe policy none fallbacks w h eq =
      elim (validate-cases policy retry_on retry_safe (length fallbacks)) [
        | inl barred ↦ absurd (ground arith)
        | inr (names, allowed) ↦
            let (calls, planned) = plan_nonempty primary fallbacks policy h in
            run_calls-answers policy names 0 primary calls w (
              subst (λ p. (run_calls floats sleep policy names 0 p w).0 ≡ err exhausted) planned
                (simp (allowed, run_with_resilience_sync) at eq))
      ]
