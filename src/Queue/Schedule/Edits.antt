-- ===== src/Queue/Schedule/Edits.antt =====
-- core/queue_manager.py: what the hint of `_check_scheduled_tasks` is worth after sequences of checks and
-- of the methods that change the items or the flags.
use hyper_loader.Prelude.{Bool, List, Option, Text, [], none, true, ℕ, ℤ, ◌+◌, ◌∷◌, ◌≡◌, ◌⊎◌}
use hyper_loader.Task.{Task, Field, Num}
use hyper_loader.Queue.{Queue}
use hyper_loader.Queue.Add.{add_tasks}
use hyper_loader.Queue.Plan.{Plan, Request}
use hyper_loader.Queue.Dispatch.{dispatch_parallel_ready_tasks}
use hyper_loader.Queue.Dispatch.Runtime.{Call, call}
use hyper_loader.Queue.Edit.{
  set_task_status, update_task_fields, set_task_progress, move_task, clear_queue,
  restore_stale_running_tasks,
}
use hyper_loader.Queue.Schedule.{check_scheduled_tasks}
use hyper_loader.Queue.Schedule.Laws.{any_due}

-- no item becomes due
abbrev NoMoreDue : List Task → List Task → Type 0
NoMoreDue before after = (now : ℕ) → any_due now after ≡ true → any_due now before ≡ true

-- there is no hint any more, or it is the old one and no item has become due
abbrev KeepsHint : Queue → Queue → Type 0
KeepsHint q q' =
    (q'.next_scheduled_at_hint ≡ none)
    ⊎ ((q'.next_scheduled_at_hint ≡ q.next_scheduled_at_hint) × NoMoreDue q.items q'.items)

-- the methods of the queue
pub data Method : Type 0 where
  flags : Call → Method
  dispatch : Request → Method
  set_status : Option ℤ → Text → Method
  update_fields : ℤ → List Field → Bool → Method
  set_progress : ℤ → Num → Text → Text → Method
  move : ℤ → ℤ → Method
  add : ℕ → List (List Field) → Method
  restore : List ℤ → Method
  clear : Method

unfoldable pub apply : (ℕ → Text) → Method → Queue → Queue
unfolding call dispatch_parallel_ready_tasks set_task_status update_task_fields set_task_progress
    move_task add_tasks restore_stale_running_tasks clear_queue
apply uuid4 (flags c) q = call c q
apply uuid4 (dispatch r) q = (dispatch_parallel_ready_tasks r q).0
apply uuid4 (set_status index status) q = (set_task_status index status q).0
apply uuid4 (update_fields index fields emit) q = (update_task_fields index fields emit q).0
apply uuid4 (set_progress index progress speed eta) q =
    (set_task_progress index progress speed eta q).0
apply uuid4 (move from to) q = (move_task from to q).0
apply uuid4 (add capacity tasks) q = (add_tasks uuid4 capacity tasks q).0
apply uuid4 (restore ids) q = (restore_stale_running_tasks ids q).0
apply uuid4 clear q = (clear_queue q).0

-- a check after some time, or a call of a method
pub data Event : Type 0 where
  check_after : ℕ → Event
  method : Method → Event

-- the time and the queue after the events
unfoldable pub run : (ℕ → Text) → List Event → ℕ → Queue → ℕ × Queue
unfolding check_scheduled_tasks apply
run uuid4 [] now q = (now, q)
run uuid4 (check_after wait ∷ es) now q =
    run uuid4 es (now + wait) (check_scheduled_tasks (now + wait) q).0
run uuid4 (method m ∷ es) now q = run uuid4 es now (apply uuid4 m q)
