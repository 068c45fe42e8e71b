-- ===== src/Http/Retry/Delays.antt =====
-- What must hold for a request to be sent again.
use agent_connector_sdk.Base.{
  ℕ, ◌<◌, String, true, false, ◌||◌, Option, none, some, ◌≡◌, refl, arith, contains, ◌⊎◌, inl, inr,
}
use agent_connector_sdk.Http.Retry.{
  Floats, Failure, RetryPolicy, includes, is_instance, not_sent, is_tls_verification_failure,
  parse_retry_after, some_delay, wait_or_back_off, delay_after_response, delay_after_error, backoff,
}

module _ {W F : Type 0} (floats : Floats W F) (policy : RetryPolicy F) where
  wait_or_back_off-eq-some :
      (attempt : ℕ) (w w' : W) (found : Option F) (delay : F)
      → wait_or_back_off floats policy attempt w found ≡ (some delay, w')
      → ((found ≡ some delay) × (floats.le delay policy.max_retry_after ≡ true) × (w' ≡ w))
        ⊎ ((found ≡ none) × (backoff floats policy attempt w ≡ (delay, w')))
  unfolding wait_or_back_off some_delay
  wait_or_back_off-eq-some attempt w w' none delay h = inr (refl, ground arith)
  wait_or_back_off-eq-some attempt w w' (some retry_after) delay h =
      inl (ground arith, ground arith, ground arith)

  -- A response is retried only below the limit of attempts, for a method and a status of the
  -- policy; and the wait is the server's own, if that is short enough, or else the back-off of an
  -- answer that names none.
  pub delay_after_response-eq-some :
      (method : String) (status : ℕ) (retry_after : Option String) (attempt : ℕ) (w w' : W)
      (delay : F)
      → delay_after_response floats policy method status retry_after attempt w ≡ (some delay, w')
      → (attempt < policy.max_attempts)
        × (contains method policy.retry_methods ≡ true)
        × (includes status policy.retry_statuses ≡ true)
        × (((parse_retry_after floats retry_after w ≡ some delay)
              × (floats.le delay policy.max_retry_after ≡ true)
              × (w' ≡ w))
            ⊎ ((parse_retry_after floats retry_after w ≡ none)
                × (backoff floats policy attempt w ≡ (delay, w'))))
  unfolding delay_after_response
  delay_after_response-eq-some method status retry_after attempt w w' delay h = (
    ground arith,
    ground arith,
    ground arith,
    wait_or_back_off-eq-some attempt w w' (parse_retry_after floats retry_after w) delay
        (ground arith),
  )

  -- A failure is retried only below the limit of attempts, never for a certificate that was
  -- refused, and only if the request was not sent or its method is one of the policy's; the wait is
  -- the back-off.
  pub delay_after_error-eq-some :
      (method : String) (error : Failure) (attempt : ℕ) (w w' : W) (delay : F)
      → delay_after_error floats policy method error attempt w ≡ (some delay, w')
      → (attempt < policy.max_attempts)
        × (is_tls_verification_failure error ≡ false)
        × ((is_instance error not_sent || contains method policy.retry_methods) ≡ true)
        × (backoff floats policy attempt w ≡ (delay, w'))
  unfolding delay_after_error some_delay
  delay_after_error-eq-some method error attempt w w' delay h = ground arith
