-- ===== src/Queue.antt =====
-- core/queue_manager.py: the state of `QueueManager`, its signals, and the helpers of its methods.
-- A method returns the new state, the signals in the order in which it emits them, and its result;
-- what runs under `self._lock` is one step of the state. The items are `DownloadTask` values, as
-- every operation of the class stores them.
pub mod Domains
pub mod Plan
pub mod Choose
pub mod Dispatch
pub mod Add
pub mod Edit
pub mod Schedule
pub mod View
pub mod ViewCache
pub mod Commands
mod Tests
use hyper_loader.Prelude.{
  ℕ, ◌+◌, Text, codes, one_of, lower, or_text, ℤ, negsuc, Bool, false, Option, none, List, [], ◌∷◌,
}
use hyper_loader.Task.{Task, Num}
use hyper_loader.Task.Status.{
  value, pending, queued, running, downloading, processing, merging, paused,
}

-- one dictionary of "entries": the task, with "queue_index" and its status for the view
pub record Entry : Type 0 where
  pub task : Task
  pub queue_index : ℕ

-- the result of `get_download_entries_page`
pub record Page : Type 0 where
  pub entries : List Entry
  pub total_matches : ℕ
  pub total_pages : ℕ
  pub page : ℕ
  pub page_size : ℕ
  pub all_count : ℕ
  pub video_count : ℕ
  pub audio_count : ℕ

-- the tuple of `_build_db_page_cache_key`
pub record PageKey : Type 0 where
  pub view : Text
  pub state_filter : Text
  pub media_filter : Text
  pub query : Text
  pub page_num : ℕ
  pub per_page : ℕ
  pub now_bucket : ℕ

pub record CachedPage : Type 0 where
  pub expires_at : ℕ
  pub payload : Page

-- `drawn` counts the calls of `uuid4`.
pub record Queue : Type 0 where
  pub items : List Task
  pub change_token : ℕ
  pub page_cache : List (PageKey × CachedPage)
  pub next_scheduled_at_hint : Option ℕ
  pub is_running : Bool
  pub is_paused : Bool
  pub current_index : ℤ
  pub drawn : ℕ

pub data Signal : Type 0 where
  queue_changed queue_started queue_stopped queue_paused queue_resumed scheduled_tasks_due : Signal
  queue_limit_exceeded : ℕ → Signal
  progress_updated : ℕ → Num → Text → Text → Signal
  start_worker_requested : Task → ℕ → Signal
  prevent_sleep allow_sleep : Signal

-- `__init__`; the timer calls `check_scheduled_tasks` every 30 seconds
abbrev pub init : Queue
init = record {
  items = [];
  change_token = 0;
  page_cache = [];
  next_scheduled_at_hint = none;
  is_running = false;
  is_paused = false;
  current_index = negsuc 0;
  drawn = 0;
}

-- `_bump_change_token`, with `_invalidate_db_page_cache_locked`
unfoldable pub bump_change_token : Queue → Queue
bump_change_token q = record q {
  change_token = q.change_token + 1;
  page_cache = [];
  next_scheduled_at_hint = none;
}

-- `str(item.get("status", "pending") or "pending").lower()`
unfoldable pub status_of : Task → Text
status_of t = lower (or_text t.status (value pending))

unfoldable pub is_active_status : Text → Bool
is_active_status s =
    one_of s (value downloading ∷ value processing ∷ value merging ∷ value running ∷ [])

unfoldable pub is_pending_status : Text → Bool
is_pending_status s = one_of s (value pending ∷ value queued ∷ codes "" ∷ [])

unfoldable pub is_queued_view_status : Text → Bool
is_queued_view_status s =
    one_of s (value pending ∷ value paused ∷ value queued ∷ codes "waiting" ∷ [])
