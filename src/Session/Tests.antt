-- ===== src/Session/Tests.antt =====
-- core/session_service.py: the cases of the laws, and runs.
use hyper_loader.Prelude.{
  List, Option, Text, [], false, none, refl, runtime_error, some, true, value_error, ℕ, ◌∷◌, ◌≡◌,
  if◌then◌else◌, ◌==◌,
}
use hyper_loader.Session.{
  Event, wait, request, sync_save, main_thread, fire, fresh_timing, step, run, timer_is_active,
}
use hyper_loader.Session.Waits.{HandedOver, is_timely, drained, run-flushed}
use hyper_loader.Session.Write.{Saver, build_session_payload, write_session_payload}
use hyper_loader.Session.Laws.{WriteCall, fresh_saver}

-- a request, a save made at once, and a request after its stop has run
abbrev busy : List Event
busy = request ∷ wait 3 ∷ main_thread ∷ sync_save ∷ main_thread ∷ wait 4 ∷ request ∷ []

busy_asks : (run busy (fresh_timing 5)).save_requested ≡ true
unfolding run
busy_asks = refl

busy_timely : is_timely busy (fresh_timing 5) ≡ true
unfolding step
busy_timely = refl

run-flushed_example :
    (let s = run busy (fresh_timing 5) in
      HandedOver s (step fire (step (wait 180) (drained s.queued s))))
run-flushed_example = run-flushed busy 5 busy_timely

-- A request right after a save made at once: it finds the timer active, and the queued stop then leaves
-- it without one.
abbrev lost : List Event
lost = request ∷ main_thread ∷ sync_save ∷ request ∷ main_thread ∷ []

request_lost :
    ((run lost (fresh_timing 5)).save_requested ≡ true)
    × (timer_is_active (run lost (fresh_timing 5)).deadline ≡ false)
    × ((run lost (fresh_timing 5)).queued ≡ [])
unfolding run
request_lost = (refl, refl, refl)

-- the digests of numbers; 9 cannot be written as JSON
abbrev digest : ℕ → Option Text
digest n = if n == 9 then none else some (n ∷ [])

-- the save of the settings fails first, then they cannot be written as JSON
abbrev writes : List (WriteCall ℕ ℕ)
writes =
    record {
      fails_items = none;
      fails_settings = some runtime_error;
      revision = none;
      items = 10;
      settings = 7;
    }
    ∷ record {
      fails_items = some value_error;
      fails_settings = none;
      revision = some 2;
      items = 20;
      settings = 9;
    }
    ∷ []

-- with a token the builder gives no items, and none are saved
token_saves_nothing :
    (write_session_payload digest digest none none
      (build_session_payload (some 3) 30 8)
      (fresh_saver 10 7)).1.stored_items
    ≡ 10
unfolding write_session_payload
token_saves_nothing = refl

-- settings that are written with a token
abbrev write : ℕ → Saver ℕ ℕ → Saver ℕ ℕ
write n s =
    (write_session_payload digest digest none none (build_session_payload (some 1) 30 n) s).1

-- a payload that waited for the worker while a later one was written at once replaces its settings
older_last : (write 7 (write 8 (fresh_saver 0 0))).stored_settings ≡ 7
unfolding write_session_payload
older_last = refl
