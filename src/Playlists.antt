-- ===== src/Playlists.antt =====
-- core/playlist_sync_service.py and core/playlist_sync_scheduler.py: which playlists are being
-- synchronised, the poll that starts a synchronisation, and what is written about one. The scheme of an
-- address, the database, the digest and the callbacks are parameters; numbers are not negative.
pub mod Metadata
pub mod Laws
pub mod Held
mod Tests
use hyper_loader.Prelude.{
  List, Bool, Error, Option, Result, Text, [], codes, false, if◌then◌else◌, is_empty, keep_if,
  lower, none, not, ok, one_of, raise, some, strip, text_eq, value_error, ◌&&◌, ◌||◌, ◌∷◌,
}

abbrev pub web_schemes : List Text
web_schemes = codes "http" ∷ codes "https" ∷ codes "ftp" ∷ codes "ftps" ∷ []

abbrev pub is_safe_scheme : Option Text → Bool
is_safe_scheme none = false
is_safe_scheme (some scheme) = one_of (lower scheme) web_schemes

-- `_is_safe_playlist_url`, with the parser of addresses
unfoldable pub is_safe_playlist_url : (Text → Option Text) → Text → Bool
unfolding strip lower one_of
is_safe_playlist_url scheme url =
    let target = strip url in not (is_empty target) && is_safe_scheme (scheme target)

abbrev pub has_inflight_syncs : List Text → Bool
has_inflight_syncs inflight = not (is_empty inflight)

-- the tests of the loop over the rows
unfoldable pub is_skipped : (Text → Option Text) → List Text → Text → Bool
unfolding is_safe_playlist_url one_of
is_skipped scheme inflight url =
    is_empty url || not (is_safe_playlist_url scheme url) || one_of url inflight

-- the loop over the addresses of the rows
unfoldable pub acquire_from : (Text → Option Text) → List Text → List Text → Text × List Text
unfolding strip is_skipped
acquire_from scheme inflight [] = ([], inflight)
acquire_from scheme inflight (row ∷ rows) =
    let rest = acquire_from scheme inflight rows in
    if is_skipped scheme inflight (strip row) then rest else (strip row, strip row ∷ inflight)

abbrev pub discard : Text → List Text → List Text
discard target = keep_if (λ v. not (text_eq v target))

unfoldable pub has_inflight_sync : (Text → Option Text) → Text → List Text → Result Bool
unfolding strip is_safe_playlist_url one_of
has_inflight_sync scheme url inflight =
    let target = strip url in
    if is_empty target
    then ok false
    else if is_safe_playlist_url scheme target
    then ok (one_of target inflight)
    else raise value_error

unfoldable pub release_inflight_sync : (Text → Option Text) → Text → List Text → Result (List Text)
unfolding strip is_safe_playlist_url text_eq
release_inflight_sync scheme url inflight =
    let target = strip url in
    if is_empty target
    then ok inflight
    else if is_safe_playlist_url scheme target
    then ok (discard target inflight)
    else raise value_error

-- `acquire_due_playlist_for_sync`, with the rows that are due or the exception of their query
unfoldable pub acquire_due_playlist_for_sync :
    (Text → Option Text) → Result (List Text) → List Text → Result (Text × List Text)
unfolding acquire_from
acquire_due_playlist_for_sync scheme (raise e) inflight = raise e
acquire_due_playlist_for_sync scheme (ok rows) inflight = ok (acquire_from scheme inflight rows)

-- what a poll does: nothing, a start, or an exception
pub data Polled : Type 0 where
  idle : Polled
  started : Text → Polled
  failing : Error → Polled

-- the release in the handler of the callback
abbrev pub after_release : Error → List Text → Result (List Text) → List Text × Polled
after_release e inflight (ok left) = (left, failing e)
after_release e inflight (raise other) = (inflight, failing other)

abbrev pub after_callback :
    (Text → Option Text) → Text → Option Error → List Text → List Text × Polled
after_callback scheme url none inflight = (inflight, started url)
after_callback scheme url (some e) inflight =
    after_release e inflight (release_inflight_sync scheme url inflight)

abbrev pub after_acquire :
    (Text → Option Text)
    → (Text → Option Error)
    → List Text
    → Result (Text × List Text)
    → List Text × Polled
after_acquire scheme callback inflight (raise e) = (inflight, idle)
after_acquire scheme callback inflight (ok (url, taken)) =
    if is_empty url then (taken, idle) else after_callback scheme url (callback url) taken

-- `PlaylistSyncScheduler._poll_once`
unfoldable pub poll_once :
    (Text → Option Text)
    → Result Bool
    → Result (List Text)
    → (Text → Option Error)
    → List Text
    → List Text × Polled
unfolding acquire_due_playlist_for_sync release_inflight_sync
poll_once scheme (raise e) due callback inflight = (inflight, idle)
poll_once scheme (ok is_active) due callback inflight =
    if is_active || has_inflight_syncs inflight
    then (inflight, idle)
    else after_acquire scheme callback inflight (acquire_due_playlist_for_sync scheme due inflight)

-- the calls of the service and of its scheduler
pub data Call : Type 0 where
  acquire : Result (List Text) → Call
  release : Text → Call
  poll : Result Bool → Result (List Text) → (Text → Option Error) → Call
