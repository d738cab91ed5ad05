-- ===== src/Retry/Laws.antt =====
-- core/retry_utils.py: how often an operation is called, how long it waits, and what it returns.
use hyper_loader.Prelude.{
  Result, Bool, Bool-cases, List, Option, [], arith, false, inl, inr, length, none, ok, raise, refl,
  suc, true, zero, ℕ, ◌+◌, ◌∷◌, ◌≡◌, ◌≤◌, ◌⊎◌, take, ◌<◌, ap, sym, ◌∙◌,
}
use hyper_loader.Retry.{
  Operation, called, slept, Run, sleep_with_abort, attempt_from, run_with_retries, is_aborted,
  polled, prepend, after_wait, after_attempt, one_attempt,
}
use hyper_loader.Retry.Sleeps.{
  calls, time_slept, sum, calls-append, time_slept-append, sleep_with_abort_lem,
}

-- whether another attempt follows this outcome
abbrev pub is_retried {ℓ} : {A : Type ℓ} → Operation A → Result A → Bool
is_retried op (ok v) = false
is_retried op (raise e) = op.should_retry e

module _ {ℓ} {A : Type ℓ} (op : Operation A) where
  -- the calls and the waits from an attempt on
  abbrev pub IsWithin : List ℕ → Run (Result A) → Type 0
  IsWithin delays r = (calls r.events ≤ length delays + 1) × (time_slept r.events ≤ sum delays)

  after_wait-IsWithin :
      (total : ℕ) (waited : Run Bool) (delay : ℕ) (delays : List ℕ) (rest : Run (Result A))
      → calls waited.events ≡ 0
      → time_slept waited.events ≤ delay
      → IsWithin delays rest
      → (calls (after_wait op total waited rest).events ≤ length delays + 1)
        × (time_slept (after_wait op total waited rest).events ≤ delay + sum delays)
  unfolding after_wait
  after_wait-IsWithin total waited delay delays rest h k b =
      ground
        (arith, calls-append waited.events rest.events, time_slept-append waited.events rest.events)

  after_attempt-IsWithin :
      (total i p : ℕ) (o : Result A) (next : Run (Result A)) (n wait : ℕ)
      → (calls next.events ≤ n) × (time_slept next.events ≤ wait)
      → (let r = after_attempt op total o (one_attempt op total i p) next in
          (calls r.events ≤ n + 1) × (time_slept r.events ≤ wait))
  unfolding after_attempt
  after_attempt-IsWithin total i p (ok v) next n wait b = (omega arith, omega arith)
  after_attempt-IsWithin total i p (raise e) next n wait b = elim (Bool-cases (op.should_retry e)) [
    | inl again ↦ rw again (omega arith, omega arith)
    | inr ends ↦ rw ends (omega arith, omega arith)
  ]

  attempt_from-IsWithin :
      (total i : ℕ) (delays : List ℕ) (p : ℕ) → IsWithin delays (attempt_from op total i delays p)
  unfolding attempt_from
  attempt_from-IsWithin total i [] p = elim (Bool-cases (is_aborted op.should_abort p)) [
    | inl a ↦ rw a (omega arith, omega arith)
    | inr a ↦ rw a (omega arith, omega arith)
  ]
  attempt_from-IsWithin total i (delay ∷ delays) p =
      let p' = polled op.should_abort p in
      let waited = sleep_with_abort op.should_abort op.sleep_quantum delay p' in
      let rest = attempt_from op total (suc i) delays waited.polls in
      let sleep = sleep_with_abort_lem op.should_abort op.sleep_quantum delay p' in
      let later = attempt_from-IsWithin total (suc i) delays waited.polls in
      let next = after_wait-IsWithin total waited delay delays rest sleep.0 sleep.1 later in
      let whole =
        after_attempt-IsWithin total i p' (op.action i total) (after_wait op total waited rest) _ _
          next in
      elim (Bool-cases (is_aborted op.should_abort p)) [
        | inl a ↦ rw a (omega arith, omega arith)
        | inr a ↦ rw a (omega (arith, whole.0), whole.1)
      ]

  -- The operation is called at most once more than there are delays, and the waits together are at
  -- most the sum of the delays, whatever raises and whenever it is aborted.
  pub run-IsWithin : (delays : List ℕ) → IsWithin delays (run_with_retries op delays)
  unfolding run_with_retries
  run-IsWithin delays = attempt_from-IsWithin (length delays + 1) 1 delays 0

  after_attempt-final :
      (total : ℕ) (o : Result A) (stopped next : Run (Result A))
      → is_retried op o ≡ false
      → after_attempt op total o stopped next ≡ stopped
  unfolding after_attempt
  after_attempt-final total (ok v) stopped next h = refl
  after_attempt-final total (raise e) stopped next h = rw h refl

  after_attempt-again :
      (total : ℕ) (o : Result A) (stopped next : Run (Result A))
      → is_retried op o ≡ true
      → after_attempt op total o stopped next ≡ prepend op total stopped.events next
  unfolding after_attempt
  after_attempt-again total (ok v) stopped next h = absurd (ground arith)
  after_attempt-again total (raise e) stopped next h = rw h refl

  -- the run of an attempt that is followed by another
  abbrev retried : ℕ → ℕ → ℕ → Run (Result A) → Run (Result A)
  retried total i delay rest = prepend op total (called i total ∷ slept delay ∷ []) rest

  polls_after : ℕ → ℕ → ℕ
  polls_after delay p =
      (sleep_with_abort op.should_abort op.sleep_quantum delay (polled op.should_abort p)).polls

  after_wait-slept :
      (total delay p : ℕ) (rest : Run (Result A))
      → op.should_abort ≡ none
      → after_wait op total (sleep_with_abort op.should_abort op.sleep_quantum delay p) rest
        ≡ prepend op total (slept delay ∷ []) rest
  unfolding after_wait sleep_with_abort
  after_wait-slept total delay p rest h =
      ap
        (λ (o : Option (ℕ → Bool)).
          after_wait op total (sleep_with_abort o op.sleep_quantum delay p) rest)
        h

  attempt_from-final :
      (total i : ℕ) (delays : List ℕ) (p : ℕ)
      → op.should_abort ≡ none
      → (is_retried op (op.action i total) ≡ false) ⊎ (0 ≡ length delays)
      → attempt_from op total i delays p ≡ one_attempt op total i (polled op.should_abort p)
  unfolding attempt_from
  attempt_from-final total i [] p h ends =
      let runs = ap (λ (o : Option (ℕ → Bool)). is_aborted o p) h in rw runs refl
  attempt_from-final total i (delay ∷ delays) p h ends =
      let runs = ap (λ (o : Option (ℕ → Bool)). is_aborted o p) h in
      elim ends [
        | inl final ↦ rw runs (
            after_attempt-final total (op.action i total)
              (one_attempt op total i (polled op.should_abort p)) _ final)
        | inr short ↦ absurd (omega arith)
      ]

  attempt_from-again :
      (total i delay : ℕ) (delays : List ℕ) (p : ℕ)
      → op.should_abort ≡ none
      → is_retried op (op.action i total) ≡ true
      → attempt_from op total i (delay ∷ delays) p
        ≡ retried total i delay (attempt_from op total (suc i) delays (polls_after delay p))
  unfolding attempt_from polls_after
  attempt_from-again total i delay delays p h again =
      let runs = ap (λ (o : Option (ℕ → Bool)). is_aborted o p) h in
      let rest = attempt_from op total (suc i) delays (polls_after delay p) in
      rw runs (
        after_attempt-again total (op.action i total)
          (one_attempt op total i (polled op.should_abort p)) _ again
        ∙ ap (prepend op total (called i total ∷ []))
            (after_wait-slept total delay (polled op.should_abort p) rest h))

  -- the attempts from one of them on, up to the one that ends them
  attempt_from_ends :
      (total i : ℕ) (delays : List ℕ) (p k : ℕ)
      → op.should_abort ≡ none
      → ((j : ℕ) → j < k → is_retried op (op.action (i + j) total) ≡ true)
      → (is_retried op (op.action (i + k) total) ≡ false) ⊎ (k ≡ length delays)
      → k ≤ length delays
      → (let run = attempt_from op total i delays p in
          (run.result ≡ op.action (i + k) total)
          × (calls run.events ≡ k + 1)
          × (time_slept run.events ≡ sum (take k delays)))
  attempt_from_ends total i [] p zero h again ends le =
      let e : i + 0 ≡ i = omega arith in
      rw (attempt_from-final total i [] p h (inr refl), e) (refl, refl, refl)
  attempt_from_ends total i [] p (suc k) h again ends le = absurd (omega arith)
  attempt_from_ends total i (delay ∷ delays) p zero h again ends le =
      let e : i + 0 ≡ i = omega arith in
      rw (attempt_from-final total i (delay ∷ delays) p h (rw e at ends), e) (refl, refl, refl)
  attempt_from_ends total i (delay ∷ delays) p (suc k) h again ends le =
      let e : i + 0 ≡ i = omega arith in
      let step : (j : ℕ) → suc i + j ≡ i + suc j = λ j. omega arith in
      let (result, count, time) =
        attempt_from_ends total (suc i) delays (polls_after delay p) k h
          (λ j lt. rw (step j) (again (suc j) (omega arith)))
          (elim ends [ inl final ↦ inl (rw (step k) final) | inr last ↦ inr (omega arith) ])
          (omega arith) in
      rw
        (
          attempt_from-again total i delay delays p h (rw e at (again 0 (omega arith))),
          sym (step k),
        )
        (result, omega arith, omega arith)

  -- An operation that cannot be aborted ends with its first outcome that is not retried, or with that
  -- of its last attempt; until then it is called once for each attempt, and waits for the delays.
  pub run_ends :
      (delays : List ℕ) (k : ℕ)
      → op.should_abort ≡ none
      → ((j : ℕ) → j < k → is_retried op (op.action (1 + j) (length delays + 1)) ≡ true)
      → (is_retried op (op.action (1 + k) (length delays + 1)) ≡ false) ⊎ (k ≡ length delays)
      → k ≤ length delays
      → (let run = run_with_retries op delays in
          (run.result ≡ op.action (1 + k) (length delays + 1))
          × (calls run.events ≡ k + 1)
          × (time_slept run.events ≡ sum (take k delays)))
  unfolding run_with_retries
  run_ends delays k = attempt_from_ends (length delays + 1) 1 delays 0 k
