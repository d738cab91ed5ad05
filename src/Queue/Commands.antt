-- ===== src/Queue/Commands.antt =====
-- core/window_controllers/queue_optimization_controller.py: the retry of all failed items, as calls of the
-- queue. What the windows show, and the save of the session, are not in the state.
pub mod Laws
mod Tests
use hyper_loader.Prelude.{
  List, Bool, Text, [], false, if◌then◌else◌, lower, ltb, one_of, pos, some, true, ℕ, ◌+◌, ◌||◌,
  ◌∷◌, not, ◌&&◌, ◌++◌, ◌==◌,
}
use hyper_loader.Task.{Task, Field, num}
use hyper_loader.Task.Status.{value, pending, failed, cancelled, paused}
use hyper_loader.Queue.{Queue, Signal, queue_changed}
use hyper_loader.Queue.Edit.{update_task_fields, clear_queue}
use hyper_loader.Queue.Add.{add_tasks}
use hyper_loader.Queue.Dispatch.{set_runtime_state}

abbrev retried_statuses : List Text
retried_statuses = value failed ∷ value cancelled ∷ value paused ∷ []

unfoldable pub is_retried : Task → Bool
unfolding lower one_of
is_retried item = one_of (lower item.status) retried_statuses

abbrev pub retry_fields : List Field
retry_fields =
    Field.status (value pending) ∷ Field.retry_count (num 0) ∷ Field.next_retry_at (num 0) ∷ []

-- the loop over the snapshot, with `changed`
unfoldable pub retry_from : ℕ → List Task → Queue → Bool → Queue × Bool
unfolding is_retried update_task_fields
retry_from index [] q changed = (q, changed)
retry_from index (item ∷ items) q changed =
    let (after, signals, is_updated) =
      if is_retried item
      then update_task_fields (pos index) retry_fields false q
      else (q, [], false) in
    retry_from (index + 1) items after (changed || is_updated)

-- the end of the handler
abbrev pub after_retries : Queue × Bool → Queue × List Signal × Bool
after_retries (q, false) = (q, [], false)
after_retries (q, true) = (set_runtime_state (some true) (some false) q, queue_changed ∷ [], true)

-- `retry_all_failed_queue_items`: the state, the signals, and whether the queue is then processed
unfoldable pub retry_all_failed_queue_items : ℕ → Queue → Queue × List Signal × Bool
unfolding retry_from set_runtime_state
retry_all_failed_queue_items active_workers q =
    if q.is_running || ltb 0 active_workers
    then (q, [], false)
    else after_retries (retry_from 0 q.items q false)
