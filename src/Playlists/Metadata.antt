-- ===== src/Playlists/Metadata.antt =====
-- core/playlist_sync_service.py: what is written about a synchronisation.
use hyper_loader.Prelude.{
  Bool, Option, Result, Text, [], codes, if◌then◌else◌, is_empty, ltb, none, not, ok, or_text,
  raise, some, strip, value_error, ℕ, ◌&&◌, ◌-◌,
}
use hyper_loader.Playlists.{is_safe_playlist_url}

-- the fields of a payload, empty where there is none
pub record Payload : Type 0 where
  pub url : Text
  pub webpage_url : Text
  pub snapshot_id : Text
  pub etag : Text
  pub last_modified : Text
  pub sync_status : Text
  pub channel_id : Text
  pub channel : Text
  pub playlist_title : Text
  pub title : Text
  pub sync_cursor : Text
  pub kind : Text

pub record Metadata : Type 0 where
  pub etag : Text
  pub last_modified : Text
  pub snapshot_id : Text
  pub sync_status : Text
  pub channel_id : Text
  pub playlist_title : Text
  pub sync_cursor : Text

-- the stored state of a playlist
pub record SyncState : Type 0 where
  pub etag : Text
  pub last_modified : Text
  pub snapshot_id : Text
  pub sync_cursor : Text
  pub next_sync_after : ℕ
  pub consecutive_failures : ℕ

-- what is written of the state
pub record SyncUpdate : Type 0 where
  pub playlist_url : Text
  pub metadata : Metadata
  pub metadata_json : Text
  pub last_error : Text

unfoldable pub extract_playlist_url : Payload → Text → Text
unfolding strip
extract_playlist_url payload fallback_url =
    strip (or_text payload.url (or_text payload.webpage_url fallback_url))

-- the digest, of an address, a number of entries and the time
unfoldable pub extract_sync_metadata : (Text → ℕ → Text) → ℕ → Payload → Metadata
unfolding strip
extract_sync_metadata build_snapshot_id entry_count info =
    let playlist_url = strip (or_text info.url info.webpage_url) in
    record {
      etag = strip info.etag;
      last_modified = strip info.last_modified;
      snapshot_id = or_text (strip info.snapshot_id) (build_snapshot_id playlist_url entry_count);
      sync_status = strip (or_text info.sync_status (codes "syncing"));
      channel_id = strip (or_text info.channel_id info.channel);
      playlist_title = strip (or_text info.playlist_title info.title);
      sync_cursor = strip info.sync_cursor;
    }

-- the fields that `_metadata_json` writes
pub record Compact : Type 0 where
  pub playlist_url : Text
  pub entry_count : ℕ
  pub kind : Text
  pub title : Text
  pub channel_id : Text
  pub last_error : Text

unfoldable pub metadata_of : Text → ℕ → Payload → Text → Compact
unfolding strip
metadata_of playlist_url entry_count info last_error = record {
  playlist_url = strip playlist_url;
  entry_count = entry_count;
  kind = strip info.kind;
  title = strip (or_text info.playlist_title info.title);
  channel_id = strip (or_text info.channel_id info.channel);
  last_error = strip last_error;
}

module _ (scheme : Text → Option Text) (build_snapshot_id : Text → ℕ → Text)
    (dumps : Compact → Text) where
  -- the two marks, with the status and the error that they write
  unfoldable pub mark_sync : Text → Text → Text → Payload → Result (Option SyncUpdate)
  unfolding extract_playlist_url extract_sync_metadata metadata_of is_safe_playlist_url strip
  mark_sync status last_error playlist_url payload =
      let url = strip (or_text playlist_url (extract_playlist_url payload [])) in
      let metadata = extract_sync_metadata build_snapshot_id 0 payload in
      if is_empty url
      then ok none
      else if is_safe_playlist_url scheme url
      then ok (
          some (record {
            playlist_url = url;
            metadata = record metadata { sync_status = status };
            metadata_json = dumps (metadata_of url 0 payload last_error);
            last_error = last_error;
          }))
      else raise value_error

  unfoldable pub mark_sync_started : Text → Payload → Result (Option SyncUpdate)
  unfolding mark_sync
  mark_sync_started = mark_sync (codes "syncing") []

  unfoldable pub mark_sync_failed : Text → Text → Payload → Result (Option SyncUpdate)
  unfolding mark_sync strip
  mark_sync_failed playlist_url error_message payload =
      mark_sync (codes "failed") (strip error_message) playlist_url payload

  -- what `sync_snapshot` gives to the database
  unfoldable pub snapshot_metadata : SyncState → ℕ → Payload → Metadata
  unfolding extract_sync_metadata
  snapshot_metadata current entry_count payload =
      let metadata = extract_sync_metadata build_snapshot_id entry_count payload in
      record metadata {
        etag = or_text metadata.etag current.etag;
        last_modified = or_text metadata.last_modified current.last_modified;
        snapshot_id = or_text metadata.snapshot_id current.snapshot_id;
        sync_cursor = or_text metadata.sync_cursor current.sync_cursor;
      }

  unfoldable pub sync_snapshot : Text → (Text → SyncState) → ℕ → Payload → Result Metadata
  unfolding snapshot_metadata is_safe_playlist_url
  sync_snapshot playlist_url state_of entry_count payload =
      if is_safe_playlist_url scheme playlist_url
      then ok (snapshot_metadata (state_of playlist_url) entry_count payload)
      else raise value_error

-- `get_backoff_info`, without the failures
pub record Backoff : Type 0 where
  pub is_active : Bool
  pub remaining_seconds : ℕ
  pub next_sync_after : ℕ
  pub consecutive_failures : ℕ

unfoldable pub get_backoff_info : SyncState → ℕ → Backoff
get_backoff_info state now =
    let remaining = state.next_sync_after - now in
    record {
      is_active = ltb 0 remaining;
      remaining_seconds = remaining;
      next_sync_after = state.next_sync_after;
      consecutive_failures = state.consecutive_failures;
    }

unfoldable pub should_defer_sync : SyncState → Bool → Bool → ℕ → Bool
unfolding get_backoff_info
should_defer_sync state has_cached_ids force now =
    (get_backoff_info state now).is_active && has_cached_ids && not force
