-- ===== src/Playlists/Tests.antt =====
-- core/playlist_sync_service.py and core/playlist_sync_scheduler.py: the cases of the laws, and runs.
use hyper_loader.Prelude.{
  List, Error, Option, Text, [], codes, false, if◌then◌else◌, none, ok, one_of, raise, refl,
  runtime_error, some, starts_with, true, ◌∷◌, ◌≡◌, strip, text_eq,
}
use hyper_loader.Playlists.{acquire_from, failing, poll_once, Call, acquire, release, poll}
use hyper_loader.Playlists.Metadata.{SyncState, should_defer_sync}
use hyper_loader.Playlists.Laws.{
  TakesFirst, acquire_from-TakesFirst, PollOutcome, poll_once-PollOutcome,
}
use hyper_loader.Playlists.Held.{Held, run_calls, run_calls-Held}

abbrev scheme_of : Text → Option Text
scheme_of url = if starts_with url (codes "https:") then some (codes "HTTPS") else none

abbrev due_rows : List Text
due_rows = codes " " ∷ codes "file:x" ∷ codes "https:a" ∷ codes "https:b " ∷ []

-- the first one is in flight, so the second one is taken
second_taken :
    acquire_from scheme_of (codes "https:a" ∷ []) due_rows
    ≡ (codes "https:b", codes "https:b" ∷ codes "https:a" ∷ [])
unfolding acquire_from starts_with
second_taken = refl

acquire_from-TakesFirst_example :
    TakesFirst scheme_of due_rows
      (codes "https:a" ∷ [])
      (acquire_from scheme_of (codes "https:a" ∷ []) due_rows)
acquire_from-TakesFirst_example = acquire_from-TakesFirst scheme_of (codes "https:a" ∷ []) due_rows

abbrev refusing : Text → Option Error
refusing url = some runtime_error

poll_refused :
    poll_once scheme_of (ok false) (ok due_rows) refusing [] ≡ ([], failing runtime_error)
unfolding poll_once starts_with
poll_refused = refl

poll_once-PollOutcome_example :
    PollOutcome scheme_of refusing [] (poll_once scheme_of (ok false) (ok due_rows) refusing [])
poll_once-PollOutcome_example = poll_once-PollOutcome scheme_of (ok false) (ok due_rows) refusing []

abbrev calls : List Call
calls =
    acquire (ok due_rows)
    ∷ release (codes "https:b")
    ∷ poll (ok false) (ok due_rows) refusing
    ∷ acquire (raise runtime_error)
    ∷ acquire (ok due_rows)
    ∷ []

second_twice :
    run_calls scheme_of calls (codes "https:a" ∷ [])
    ≡ (codes "https:b" ∷ codes "https:a" ∷ [], codes "https:b" ∷ codes "https:b" ∷ [])
unfolding run_calls starts_with
second_twice = refl

run_calls-Held_example : Held (codes "https:a") (run_calls scheme_of calls (codes "https:a" ∷ []))
unfolding one_of strip text_eq
run_calls-Held_example =
    run_calls-Held scheme_of (codes "https:a") calls (codes "https:a" ∷ []) refl
      (refl, (refl, (refl, (refl, (refl, tt)))))

-- a playlist that backs off is put off only while there are cached ids and no one insists
abbrev backing_off : SyncState
backing_off = record {
  etag = [];
  last_modified = [];
  snapshot_id = [];
  sync_cursor = [];
  next_sync_after = 100;
  consecutive_failures = 2;
}

put_off : should_defer_sync backing_off true false 40 ≡ true
unfolding should_defer_sync
put_off = refl

insisted : should_defer_sync backing_off true true 40 ≡ false
unfolding should_defer_sync
insisted = refl
