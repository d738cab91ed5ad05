-- ===== src/Retry.antt =====
-- core/retry_utils.py: which errors are worth another attempt, and the attempts with their waits.
-- Times count units of 10 ms. The action, the tests and the error of an abort are parameters; the
-- `n`-th call of `should_abort` answers `should_abort n`, and an action is a function of its attempt.
pub mod Sleeps
pub mod Laws
mod Tests
use hyper_loader.Prelude.{
  ℕ, zero, suc, ◌+◌, ◌-◌, min, max, ◌==◌, if◌then◌else◌, Bool, true, false, ◌||◌, Option, none,
  some, List, [], ◌∷◌, ◌++◌, length, Text, codes, lower, strip, contains, or_text, text_eq, Result,
  ok, raise, Error, elem,
}

-- `RETRYABLE_TEXT_TOKENS`
abbrev pub retryable_text_tokens : List Text
retryable_text_tokens =
    codes "timed out"
    ∷ codes "timeout"
    ∷ codes "time out"
    ∷ codes "429"
    ∷ codes "too many requests"
    ∷ codes "rate limit"
    ∷ codes "tempor"
    ∷ codes "try again"
    ∷ codes "connection reset"
    ∷ codes "connection aborted"
    ∷ codes "network is unreachable"
    ∷ codes "remote end closed"
    ∷ codes "refused"
    ∷ codes "unreachable"
    ∷ codes "tls"
    ∷ codes "ssl"
    ∷ codes "handshake"
    ∷ codes "read timed out"
    ∷ []

-- `any(token in normalized for token in tokens)`
unfoldable pub has_token : Text → List Text → Bool
unfolding contains
has_token s [] = false
has_token s (token ∷ tokens) = contains s token || has_token s tokens

unfoldable pub is_retryable_error_text : Text → List Text → Bool
unfolding has_token strip lower text_eq
is_retryable_error_text t extra_tokens =
    let normalized = lower (strip t) in
    if text_eq normalized []
    then false
    else has_token normalized (retryable_text_tokens ++ extra_tokens)

-- the attribute `reason` of a `URLError`
pub data Reason : Type 0 where
  absent os_reason : Reason
  text_reason : Text → Reason

-- the classes that `isinstance` tells apart, with `str(exc)` where it is read
pub data Exception : Type 0 where
  http_error : ℕ → Exception
  url_error : Reason → Text → Exception
  os_error : Exception
  other_error : Text → Exception

-- `retryable_http_statuses or {…}`
unfoldable pub http_statuses : List ℕ → List ℕ
http_statuses [] = 408 ∷ 425 ∷ 429 ∷ 500 ∷ 502 ∷ 503 ∷ 504 ∷ []
http_statuses (s ∷ ss) = s ∷ ss

-- what `timeout_checker` answers on the exception, and on its reason; none if it is not callable
pub record TimeoutChecker : Type 0 where
  pub on_exception : Exception → Bool
  pub on_reason : Reason → Bool

abbrev asks {ℓ} : {A : Type ℓ} → Option TimeoutChecker → (TimeoutChecker → A → Bool) → A → Bool
asks none f x = false
asks (some checker) f x = f checker x

unfoldable pub is_retryable_reason : Reason → Text → Bool
unfolding is_retryable_error_text
is_retryable_reason absent shown = is_retryable_error_text shown []
is_retryable_reason os_reason shown = true
is_retryable_reason (text_reason t) shown = is_retryable_error_text (or_text t shown) []

-- the tests after the one of the timeout
unfoldable pub classify : Option TimeoutChecker → List ℕ → Exception → Bool
unfolding http_statuses is_retryable_reason is_retryable_error_text
classify checker statuses (http_error code) = elem code (http_statuses statuses)
classify checker statuses (url_error reason shown) =
    asks checker (λ c. c.on_reason) reason || is_retryable_reason reason shown
classify checker statuses os_error = true
classify checker statuses (other_error shown) = is_retryable_error_text shown []

unfoldable pub is_retryable_exception : Option Exception → Option TimeoutChecker → List ℕ → Bool
unfolding classify
is_retryable_exception none checker statuses = false
is_retryable_exception (some exc) checker statuses =
    asks checker (λ c. c.on_exception) exc || classify checker statuses exc

-- the parameters of `run_with_retries`
pub record Operation {ℓ} (A : Type ℓ) : Type ℓ where
  pub action : ℕ → ℕ → Result A
  pub should_retry : Error → Bool
  pub should_abort : Option (ℕ → Bool)
  pub abort_error : Error
  pub sleep_quantum : ℕ

pub data Event : Type 0 where
  called : ℕ → ℕ → Event
  slept : ℕ → Event

-- what happened, the number of calls of `should_abort`, and the result
pub record Run {ℓ} (A : Type ℓ) : Type ℓ where
  pub events : List Event
  pub polls : ℕ
  pub result : A

unfoldable pub quantum_of : ℕ → ℕ
quantum_of q = max 1 (if q == 0 then 10 else q)

-- the loop of `_sleep_with_abort`, and the test after it; each round takes one unit of fuel
unfoldable pub sleep_loop : (ℕ → Bool) → ℕ → ℕ → ℕ → ℕ → Run Bool
sleep_loop abort quantum zero remaining p = record { events = []; polls = p + 1; result = abort p }
sleep_loop abort quantum (suc fuel) remaining p =
    let step = min quantum remaining in
    let rest = sleep_loop abort quantum fuel (remaining - step) (p + 1) in
    if remaining == 0 || abort p
    then record { events = []; polls = p + 1; result = abort p }
    else record rest { events = slept step ∷ rest.events }

-- whether the sleep was aborted
unfoldable pub sleep_with_abort : Option (ℕ → Bool) → ℕ → ℕ → ℕ → Run Bool
unfolding sleep_loop quantum_of
sleep_with_abort none q wait p = record { events = slept wait ∷ []; polls = p; result = false }
sleep_with_abort (some abort) q wait p = sleep_loop abort (quantum_of q) wait wait p

-- `callable(should_abort) and should_abort()`
abbrev pub is_aborted : Option (ℕ → Bool) → ℕ → Bool
is_aborted none p = false
is_aborted (some abort) p = abort p

abbrev pub polled : Option (ℕ → Bool) → ℕ → ℕ
polled none p = p
polled (some abort) p = p + 1

module _ {ℓ} {A : Type ℓ} (op : Operation A) (total : ℕ) where
  abbrev pub prepend : List Event → Run (Result A) → Run (Result A)
  prepend before r = record r { events = before ++ r.events }

  -- `_raise_abort`
  abbrev pub raise_abort : List Event → ℕ → Run (Result A)
  raise_abort events p = record { events = events; polls = p; result = raise op.abort_error }

  -- the attempt alone, as `action(attempt_index + 1, total_attempts)` ends it
  abbrev pub one_attempt : ℕ → ℕ → Run (Result A)
  one_attempt i p = record { events = called i total ∷ []; polls = p; result = op.action i total }

  unfoldable pub after_wait : Run Bool → Run (Result A) → Run (Result A)
  after_wait waited rest =
      if waited.result then raise_abort waited.events waited.polls else prepend waited.events rest

  -- what follows an attempt that is not the last
  unfoldable pub after_attempt : Result A → Run (Result A) → Run (Result A) → Run (Result A)
  after_attempt (ok v) stopped next = stopped
  after_attempt (raise e) stopped next =
      if op.should_retry e then prepend stopped.events next else stopped

  -- the attempts from the `i`-th on, with the delays that are left
  unfoldable pub attempt_from : ℕ → List ℕ → ℕ → Run (Result A)
  unfolding sleep_with_abort after_wait after_attempt
  attempt_from i [] p =
      let p' = polled op.should_abort p in
      if is_aborted op.should_abort p then raise_abort [] p' else one_attempt i p'
  attempt_from i (delay ∷ delays) p =
      let p' = polled op.should_abort p in
      let waited = sleep_with_abort op.should_abort op.sleep_quantum delay p' in
      let rest = attempt_from (suc i) delays waited.polls in
      let next = after_wait waited rest in
      if is_aborted op.should_abort p
      then raise_abort [] p'
      else after_attempt (op.action i total) (one_attempt i p') next

unfoldable pub run_with_retries {ℓ} : {A : Type ℓ} → Operation A → List ℕ → Run (Result A)
unfolding attempt_from
run_with_retries op delays = attempt_from op (length delays + 1) 1 delays 0
