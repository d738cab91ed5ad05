-- ===== src/Queue/Edit.antt =====
-- core/queue_manager.py: the methods that read or edit the items by their index, that move or clear
-- them, and `restore_stale_running_tasks`.
pub mod Laws
pub mod Moves
use hyper_loader.Prelude.{
  Bool, List, Option, Text, [], cons_if, count_if, elem, erase_at, false, get_elem?, if◌then◌else◌,
  insert_at, length, lower, ltb, min, negsuc, none, not, pos, some, suc, text_eq, true, zero, ℕ, ℤ,
  ◌&&◌, ◌++◌, ◌==◌, ◌∷◌,
}
use hyper_loader.Task.{Task, Field, Num, num, update}
use hyper_loader.Task.Status.{value, pending, running}
use hyper_loader.Queue.{
  Queue, Signal, queue_changed, progress_updated, bump_change_token, status_of,
  is_queued_view_status,
}
use hyper_loader.Queue.Plan.{normalize_ids}
use hyper_loader.Queue.Dispatch.{stop_queue}

-- `0 <= index < len(self.items)`, with the index
unfoldable pub valid_index : ℤ → List Task → Option ℕ
valid_index (pos i) items = if ltb i (length items) then some i else none
valid_index (negsuc i) items = none

-- the index that the guard accepts
abbrev pub opt_index : Option ℤ → List Task → Option ℕ
opt_index none items = none
opt_index (some i) items = valid_index i items

unfoldable pub get_task : Option ℤ → Queue → Option Task
unfolding valid_index
get_task none q = none
get_task (some index) q = elim (valid_index index q.items) [
  | none ↦ none
  | some i ↦ get_elem? q.items i
]

-- `self.items[i] = f(self.items[i])`, where the index is valid
unfoldable pub modify : ℕ → (Task → Task) → List Task → List Task
modify i f [] = []
modify zero f (t ∷ ts) = f t ∷ ts
modify (suc i) f (t ∷ ts) = t ∷ modify i f ts

unfoldable pub set_task_status : Option ℤ → Text → Queue → Queue × List Signal
unfolding valid_index modify bump_change_token
set_task_status none status q = (q, [])
set_task_status (some index) status q = elim (valid_index index q.items) [
  | none ↦ (q, [])
  | some i ↦ (
    bump_change_token (record q { items = modify i (λ t. record t { status = status }) q.items }),
    queue_changed ∷ [],
  )
]

abbrev is_none_given : List Field → Bool
is_none_given [] = true
is_none_given (f ∷ fs) = false

unfoldable pub update_task_fields : ℤ → List Field → Bool → Queue → Queue × List Signal × Bool
unfolding valid_index modify bump_change_token update
update_task_fields index fields emit_changed q =
    if is_none_given fields then (q, [], false) else elim (valid_index index q.items) [
      | none ↦ (q, [], false)
      | some i ↦ (
        bump_change_token (record q { items = modify i (λ t. update t fields) q.items }),
        cons_if emit_changed queue_changed [],
        true,
      )
    ]

unfoldable pub set_task_progress : ℤ → Num → Text → Text → Queue → Queue × List Signal
unfolding valid_index modify
set_task_progress index progress speed eta q = elim (valid_index index q.items) [
  | none ↦ (q, [])
  | some i ↦ (
    record q {
      items = modify i (λ t. record t { progress = progress; speed = speed; eta = eta }) q.items;
      page_cache = [];
    },
    progress_updated i progress speed eta ∷ [],
  )
]

-- `max(-1, min(index, count - 1))`
unfoldable pub clamp_index : ℤ → ℕ → ℤ
clamp_index (pos i) zero = negsuc 0
clamp_index (pos i) (suc n) = pos (min i n)
clamp_index (negsuc i) count = negsuc 0

-- `items.insert(to, items.pop(from))`
unfoldable pub move_item : ℕ → ℕ → List Task → List Task
move_item from to items = elim (get_elem? items from) [
  | none ↦ items
  | some t ↦ insert_at to t (erase_at from items)
]

-- what `move_task` does under the lock, at valid indices
unfoldable pub moved : ℕ → ℕ → Queue → Queue
unfolding move_item clamp_index bump_change_token
moved from to q =
    let items = move_item from to q.items in
    let index =
      if q.is_running && q.is_paused
      then clamp_index q.current_index (length items)
      else q.current_index in
    bump_change_token (record q { items = items; current_index = index })

unfoldable pub move_task : ℤ → ℤ → Queue → Queue × List Signal × Bool
unfolding valid_index moved
move_task from_index to_index q =
    if q.is_running && not q.is_paused
    then (q, [], false)
    else elim (valid_index from_index q.items) [
      | none ↦ (q, [], false)
      | some from ↦ elim (valid_index to_index q.items) [
        | none ↦ (q, [], false)
        | some to ↦
            if from == to then (q, [], false) else (moved from to q, queue_changed ∷ [], true)
      ]
    ]

unfoldable pub clear_queue : Queue → Queue × List Signal
unfolding stop_queue bump_change_token
clear_queue q =
    let (q', signals) = stop_queue (bump_change_token (record q { items = [] })) in
    (q', signals ++ queue_changed ∷ [])

-- whether the loop of `restore_stale_running_tasks` resets the item
unfoldable pub is_stale : List ℕ → ℕ → Task → Bool
unfolding text_eq status_of value
is_stale ids idx t = text_eq (status_of t) (value running) && not (elem idx ids)

abbrev pub reset : Task → Task
reset t = record t { status = value pending; next_retry_at = num 0 }

unfoldable pub restore_from : List ℕ → ℕ → List Task → List Task × ℕ
unfolding is_stale
restore_from ids idx [] = ([], 0)
restore_from ids idx (t ∷ ts) =
    let (rest, restored) = restore_from ids (suc idx) ts in
    if is_stale ids idx t then (reset t ∷ rest, suc restored) else (t ∷ rest, restored)

unfoldable pub restore_stale_running_tasks : List ℤ → Queue → Queue × List Signal × ℕ
unfolding restore_from normalize_ids bump_change_token
restore_stale_running_tasks active_worker_ids q =
    let (items, restored) = restore_from (normalize_ids active_worker_ids) 0 q.items in
    if ltb 0 restored
    then (bump_change_token (record q { items = items }), queue_changed ∷ [], restored)
    else (record q { items = items }, [], restored)

-- `get_dashboard_queue_counts`: active and queued
unfoldable pub get_dashboard_queue_counts : Queue → ℕ × ℕ
unfolding text_eq lower value is_queued_view_status
get_dashboard_queue_counts q = (
  count_if (λ t. text_eq (lower t.status) (value running)) q.items,
  count_if (λ t. is_queued_view_status (lower t.status)) q.items,
)
