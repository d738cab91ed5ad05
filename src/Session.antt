-- ===== src/Session.antt =====
-- core/session_service.py: when a requested save of the session happens, and which parts it writes.
-- Times are milliseconds; the payloads, the signatures and the tables are parameters. A Qt application
-- runs, so that each start and stop of the timer is queued for its main thread; the callback that builds
-- a payload is set, each call is one step, and no step stops the service.
pub mod Write
pub mod Laws
pub mod Waits
mod Tests
use hyper_loader.Prelude.{
  List, Bool, Option, false, if◌then◌else◌, leb, ltb, max, none, some, true, ℕ, ◌+◌, ◌-◌, [], ◌++◌,
  ◌∷◌,
}

-- what the main thread has still to do to the timer
pub data TimerCall : Type 0 where
  stop_timer : TimerCall
  start_timer : ℕ → TimerCall

-- the request and the timer, which is active while it has a deadline, with the time and the number of
-- payloads that were handed to the thread that writes
pub record Timing : Type 0 where
  pub now : ℕ
  pub save_requested : Bool
  pub save_first_request_ts : Option ℕ
  pub deadline : Option ℕ
  pub queued : List TimerCall
  pub handed_over : ℕ

abbrev pub save_debounce_ms : ℕ
save_debounce_ms = 180

abbrev pub save_max_deferral_ms : ℕ
save_max_deferral_ms = 1200

abbrev pub fresh_timing : ℕ → Timing
fresh_timing now = record {
  now = now;
  save_requested = false;
  save_first_request_ts = none;
  deadline = none;
  queued = [];
  handed_over = 0;
}

abbrev pub first_or : Option ℕ → ℕ → ℕ
first_or none now = now
first_or (some first) now = first

abbrev pub timer_is_active : Option ℕ → Bool
timer_is_active none = false
timer_is_active (some deadline) = true

-- what a request queues, from the time, that of the first request, and whether the timer is active
abbrev pub calls_for : ℕ → ℕ → Bool → List TimerCall
calls_for now first true =
    if ltb (now - first) (max save_debounce_ms save_max_deferral_ms) then [] else start_timer 0 ∷ []
calls_for now first false = start_timer save_debounce_ms ∷ []

-- `save_session` without `sync`
unfoldable pub request_save : Timing → Timing
request_save s =
    let first = first_or s.save_first_request_ts s.now in
    record s {
      save_requested = true;
      save_first_request_ts = some first;
      queued = s.queued ++ calls_for s.now first (timer_is_active s.deadline);
    }

-- `save_session` with `sync`, which writes at once
unfoldable pub save_now : Timing → Timing
save_now s = record s {
  save_requested = false;
  save_first_request_ts = none;
  queued = s.queued ++ stop_timer ∷ [];
}

-- the main thread runs the first of the queued calls
abbrev pub run_call : TimerCall → List TimerCall → Timing → Timing
run_call stop_timer rest s = record s { deadline = none; queued = rest }
run_call (start_timer delay) rest s = record s { deadline = some (s.now + delay); queued = rest }

abbrev pub run_first : List TimerCall → Timing → Timing
run_first [] s = s
run_first (c ∷ rest) s = run_call c rest s

-- `_flush_pending_save_request`: a requested save is handed to the thread that writes
unfoldable pub flush_pending_save_request : Timing → Timing
flush_pending_save_request s =
    if s.save_requested
    then record s {
      save_requested = false;
      save_first_request_ts = none;
      handed_over = s.handed_over + 1;
    }
    else s

-- the timer fires once, when it is due
abbrev pub fire_at : Option ℕ → Timing → Timing
fire_at none s = s
fire_at (some deadline) s =
    if leb deadline s.now then flush_pending_save_request (record s { deadline = none }) else s

-- time passes, a call is made, the main thread runs a queued call, or the timer fires
pub data Event : Type 0 where
  wait : ℕ → Event
  request sync_save main_thread fire : Event

unfoldable pub step : Event → Timing → Timing
unfolding request_save save_now flush_pending_save_request
step (wait n) s = record s { now = s.now + n }
step request s = request_save s
step sync_save s = save_now s
step main_thread s = run_first s.queued s
step fire s = fire_at s.deadline s

unfoldable pub run : List Event → Timing → Timing
unfolding step
run [] s = s
run (e ∷ es) s = run es (step e s)
