-- ===== src/Http/Retry.antt =====
-- scion_sdk/http/retry.py: the retry policy. `F` is the type of Python floats, and `W` is the world
-- that holds the random source and the clock.
pub mod Delays
use agent_connector_sdk.Base.{
  ℕ, ◌-◌, String, Bool, true, false, not, ◌&&◌, ◌||◌, Option, none, some, List, [], ◌∷◌, ltb, leb,
  ◌==◌, contains, subset, if◌then◌else◌, Result, require, map,
}

-- Floats, texts of headers, the clock and the random source, as far as the policy uses them.
pub record Floats (W F : Type 0) : Type 0 where
  pub zero : F
  pub one : F
  pub minimum : F → F → F
  pub maximum : F → F → F
  pub times : F → F → F
  pub power : F → ℕ → F
  pub half : F → F
  pub le : F → F → Bool
  pub is_finite : F → Bool
  pub uniform : F → F → W → F × W
  pub strip : String → String
  -- `isascii() and isdecimal()`
  pub is_digits : String → Bool
  pub of_digits : String → F
  -- The seconds from now to an HTTP date; `none` if it is malformed or has no time zone.
  pub seconds_until : String → W → Option F

-- An exception on the path of `__cause__ or __context__`: its identity, whether it is a certificate
-- verification error, and whether its text has the marker of one.
pub record Link : Type 0 where
  pub id : ℕ
  pub is_certificate_error : Bool
  pub has_marker : Bool

-- A raised exception: the classes that it is an instance of, and the path from it. A path that
-- comes back to an exception goes on past its first repetition.
pub record Failure : Type 0 where
  pub classes : List String
  pub path : List Link

abbrev pub includes : ℕ → List ℕ → Bool
includes n [] = false
includes n (m ∷ ms) = n == m || includes n ms

is_tls_link : List ℕ → List Link → Bool
is_tls_link seen [] = false
is_tls_link seen (link ∷ path) =
    if includes link.id seen
    then false
    else if link.is_certificate_error || link.has_marker
    then true
    else is_tls_link (link.id ∷ seen) path

unfoldable pub is_tls_verification_failure : Failure → Bool
unfolding is_tls_link
is_tls_verification_failure error = is_tls_link [] error.path

-- `isinstance(error, classes)`
abbrev pub is_instance : Failure → List String → Bool
is_instance error [] = false
is_instance error (name ∷ classes) = contains name error.classes || is_instance error classes

-- `_NOT_SENT`
abbrev pub not_sent : List String
not_sent = "ConnectError" ∷ "ConnectTimeout" ∷ "PoolTimeout" ∷ []

abbrev pub idempotent_methods : List String
idempotent_methods = "GET" ∷ "HEAD" ∷ "OPTIONS" ∷ "PUT" ∷ "DELETE" ∷ "TRACE" ∷ []

pub record RetryPolicy (F : Type 0) : Type 0 where
  pub max_attempts : ℕ
  pub backoff_base : F
  pub backoff_factor : F
  pub max_backoff : F
  pub max_retry_after : F
  pub jitter : Bool
  pub retry_statuses : List ℕ
  pub retry_methods : List String

pub data PolicyError : Type 0 where
  invalid_policy : PolicyError

module _ {W F : Type 0} (floats : Floats W F) where
  open floats use {
    zero, one, minimum, maximum, times, power, half, le, is_finite, uniform, strip, is_digits,
    of_digits, seconds_until,
  }

  all_sound : List F → Bool
  all_sound [] = true
  all_sound (number ∷ numbers) = is_finite number && le zero number && all_sound numbers

  -- `RetryPolicy.__post_init__`, for values of the declared types.
  unfoldable pub check_policy : RetryPolicy F → Result PolicyError (Unit {0})
  unfolding all_sound
  check_policy policy =
      let numbers : List F =
        policy.backoff_base ∷ policy.backoff_factor ∷ policy.max_backoff ∷ policy.max_retry_after
        ∷ [] in
      require
        (leb 1 policy.max_attempts
          && leb policy.max_attempts 10
          && all_sound numbers
          && le one policy.backoff_factor
          && subset policy.retry_methods idempotent_methods)
        invalid_policy

  -- A date in the past is no wait.
  from_date : Option F → Option F
  from_date none = none
  from_date (some seconds) = some (maximum zero seconds)

  unfoldable pub parse_retry_after : Option String → W → Option F
  unfolding from_date
  parse_retry_after value w =
      let rendered = strip (elim value [ none ↦ "" | some text ↦ text ]) in
      if is_digits rendered then some (of_digits rendered) else from_date (seconds_until rendered w)

  unfoldable pub backoff : RetryPolicy F → ℕ → W → F × W
  backoff policy attempt w =
      let delay =
        minimum policy.max_backoff
          (times policy.backoff_base (power policy.backoff_factor (attempt - 1))) in
      if policy.jitter then uniform (half delay) delay w else (delay, w)

  some_delay : F × W → Option F × W
  some_delay (delay, w) = (some delay, w)

  -- A longer wait than the policy's is left to the caller.
  wait_or_back_off : RetryPolicy F → ℕ → W → Option F → Option F × W
  unfolding some_delay
  wait_or_back_off policy attempt w none = some_delay (backoff policy attempt w)
  wait_or_back_off policy attempt w (some retry_after) =
      (if le retry_after policy.max_retry_after then some retry_after else none, w)

  unfoldable pub delay_after_response :
      RetryPolicy F
      → (method : String) → (status : ℕ) → (retry_after : Option String) → ℕ
      → W
      → Option F × W
  unfolding wait_or_back_off
  delay_after_response policy method status retry_after attempt w =
      if ltb attempt policy.max_attempts
        && contains method policy.retry_methods
        && includes status policy.retry_statuses
      then wait_or_back_off policy attempt w (parse_retry_after retry_after w)
      else (none, w)

  unfoldable pub delay_after_error :
      RetryPolicy F → (method : String) → Failure → ℕ → W → Option F × W
  unfolding some_delay
  delay_after_error policy method error attempt w =
      if leb policy.max_attempts attempt || is_tls_verification_failure error
      then (none, w)
      else if is_instance error not_sent || contains method policy.retry_methods
      then some_delay (backoff policy attempt w)
      else (none, w)
