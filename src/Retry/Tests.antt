-- ===== src/Retry/Tests.antt =====
-- Attempts at concrete inputs.
use hyper_loader.Prelude.{
  List, Result, [], arith, codes, if◌then◌else◌, inl, interrupted, leb, none, ok, raise, refl,
  runtime_error, true, ℕ, ◌+◌, ◌<◌, ◌∷◌, ◌≡◌,
}
use hyper_loader.Retry.{Operation, called, slept, run_with_retries, is_retryable_error_text}
use hyper_loader.Retry.Sleeps.{calls, time_slept}
use hyper_loader.Retry.Laws.{is_retried, IsWithin, run-IsWithin, run_ends}

-- fails twice, then returns 7
abbrev attempts : ℕ → ℕ → Result ℕ
attempts n total = if leb n 2 then raise interrupted else ok 7

abbrev op : Operation ℕ
op = record {
  action = attempts;
  should_retry = λ e. true;
  should_abort = none;
  abort_error = runtime_error;
  sleep_quantum = 0;
}

abbrev delays : List ℕ
delays = 50 ∷ 100 ∷ 200 ∷ []

run_events :
    (run_with_retries op delays).events
    ≡ called 1 4 ∷ slept 50 ∷ called 2 4 ∷ slept 100 ∷ called 3 4 ∷ []
unfolding run_with_retries
run_events = refl

text_run : is_retryable_error_text (codes " Connection RESET by peer") [] ≡ true
unfolding is_retryable_error_text
text_run = refl

run-IsWithin_example : IsWithin op delays (run_with_retries op delays)
run-IsWithin_example = run-IsWithin op delays

failing : (j : ℕ) → j < 2 → is_retried op (attempts (1 + j) 4) ≡ true
failing j h = let e : leb (1 + j) 2 ≡ true = ground arith in rw e refl

run_ends_example :
    (let run = run_with_retries op delays in
      (run.result ≡ ok 7) × (calls run.events ≡ 3) × (time_slept run.events ≡ 150))
run_ends_example = run_ends op delays 2 refl failing (inl refl) (omega arith)
