-- ===== src/Trial/Tests.antt =====
-- A trial at concrete times.
use hyper_loader.Prelude.{ℕ, none, refl, some, true, ◌*◌, ◌≡◌, ◌≤◌}
use hyper_loader.Trial.{TrialManager, resolve_state}
use hyper_loader.Trial.Laws.{resolve_state_decreasing}

abbrev days : ℕ → ℕ
days n = n * 86400000000

abbrev week : TrialManager
week = record { enabled = true; total_days = 7; shadow = some (days 10, days 12) }

-- Five days are left; a clock that goes back and a later start give no more.
five_left : (resolve_state true (days 12) none none week).1.days_remaining ≡ 5
unfolding resolve_state
five_left = refl

resolve_state_decreasing_example :
    (let first = resolve_state true (days 13) none none week in
      (resolve_state true (days 1) (some (days 15)) none first.0).1.days_remaining
      ≤ first.1.days_remaining)
resolve_state_decreasing_example =
    resolve_state_decreasing true (days 13) (days 1) none (some (days 15)) none week refl
