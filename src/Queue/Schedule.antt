-- ===== src/Queue/Schedule.antt =====
-- core/queue_manager.py: `_check_scheduled_tasks`, which the timer calls every 30 seconds.
pub mod Laws
pub mod Edits
use hyper_loader.Prelude.{
  Bool, List, Option, [], cons_if, false, if◌then◌else◌, leb, ltb, none, some, true, ℕ, ◌&&◌, ◌||◌,
  ◌∷◌,
}
use hyper_loader.Task.{Task, read_or_zero}
use hyper_loader.Queue.{Queue, Signal, scheduled_tasks_due}
use hyper_loader.Queue.Plan.{sooner}

-- the value of the loop's variable `scheduled_at_value`
abbrev pub time_of : Task → ℕ
time_of t = read_or_zero t.scheduled_at

unfoldable pub is_due : ℕ → Task → Bool
unfolding read_or_zero
is_due now t = ltb 0 (time_of t) && leb (time_of t) now

abbrev pub note_time : ℕ → Option ℕ → Option ℕ
note_time t next = if ltb 0 t then sooner (some t) next else next

-- the loop, which stops at the first due task: whether there is one, and the next time
unfoldable pub scan_due : ℕ → List Task → Option ℕ → Bool × Option ℕ
unfolding is_due sooner
scan_due now [] next = (false, next)
scan_due now (t ∷ ts) next =
    let next' = note_time (time_of t) next in
    let rest = scan_due now ts next' in if is_due now t then (true, next') else rest

abbrev pub is_hinted_after : ℕ → Option ℕ → Bool
is_hinted_after now none = false
is_hinted_after now (some hint) = ltb now hint

unfoldable pub check_scheduled_tasks : ℕ → Queue → Queue × List Signal
unfolding scan_due
check_scheduled_tasks now q =
    if q.is_running || q.is_paused || is_hinted_after now q.next_scheduled_at_hint
    then (q, [])
    else let (has_due, next) = scan_due now q.items none in
      (record q { next_scheduled_at_hint = next }, cons_if has_due scheduled_tasks_due [])
