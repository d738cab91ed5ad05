-- ===== src/Queue/Dispatch.antt =====
-- core/queue_manager.py: `dispatch_parallel_ready_tasks`, which reserves the planned items, and the
-- methods that start, stop, pause and resume the queue.
pub mod Handout
pub mod Laws
pub mod Runtime
use hyper_loader.Prelude.{
  ℕ, negsuc, Bool, true, false, not, ◌||◌, ltb, if◌then◌else◌, Option, none, some, List, [], ◌∷◌,
  map, get_elem?, set, Error, Result, ok, raise, ◌>>=◌,
}
use hyper_loader.Task.{Task, num, read}
use hyper_loader.Task.Status.{value, running}
use hyper_loader.Queue.{
  Queue, Signal, queue_changed, queue_started, queue_stopped, queue_paused, queue_resumed,
  start_worker_requested, prevent_sleep, allow_sleep, bump_change_token, status_of,
  is_pending_status,
}
use hyper_loader.Queue.Plan.{Request, Plan, smart}
use hyper_loader.Queue.Choose.{plan_parallel_start}

-- the task as it is handed over; a time that is not a number raises before anything is written
unfoldable pub mark_running : Task → Result Task
unfolding read
mark_running t = do
  scheduled ← read t.scheduled_at
  let t' = record t { status = value running }
  ok (if ltb 0 scheduled then record t' { scheduled_at = num 0 } else t')

-- the items, the tasks to emit, and whether the loop ran to its end
pub record Reserved : Type 0 where
  pub items : List Task
  pub to_emit : List (Task × ℕ)
  pub failure : Option Error

pub data Claim : Type 0 where
  skip : Claim
  take : Task → Claim
  fail : Error → Claim

-- one round: whether the item at the index is there and still pending
unfoldable pub claim : List Task → ℕ → Claim
unfolding mark_running
claim items idx = elim (get_elem? items idx) [
  | none ↦ skip
  | some t ↦
      if is_pending_status (status_of t)
      then elim (mark_running t) [ ok t' ↦ take t' | raise e ↦ fail e ]
      else skip
]

-- the loop under the lock
unfoldable pub reserve : List ℕ → List Task → Reserved
unfolding claim
reserve [] items = record { items = items; to_emit = []; failure = none }
reserve (idx ∷ idxs) items = elim (claim items idx) [
  | skip ↦ reserve idxs items
  | take t ↦
      let rest = reserve idxs (set items idx t) in record rest { to_emit = (t, idx) ∷ rest.to_emit }
  | fail e ↦ record { items = items; to_emit = []; failure = some e }
]

abbrev emissions : List (Task × ℕ) → List Signal
emissions = map (λ e. start_worker_requested e.0 e.1)

pub record Dispatched : Type 0 where
  pub plan : Plan
  pub dispatched_indices : List ℕ

abbrev pub Emits : Type 0 → Type 0
Emits A = Queue × List Signal × A

-- what follows the loop; where the loop raised, its writes stay and nothing else happens
conclude : Option Error → Queue → Result Dispatched → List (Task × ℕ) → Emits (Result Dispatched)
conclude (some e) q' done out = (q', [], raise e)
conclude none q' done [] = (q', [], done)
conclude none q' done (o ∷ out) = (bump_change_token q', queue_changed ∷ emissions (o ∷ out), done)

finish : Plan → Queue → Reserved → Emits (Result Dispatched)
unfolding conclude
finish p q r =
    let q' = record q { items = r.items } in
    let indices = map (λ (e : Task × ℕ). e.1) r.to_emit in
    conclude r.failure q' (ok (record { plan = p; dispatched_indices = indices })) r.to_emit

-- the second part of the method, on the state that it finds when it takes the lock again
unfoldable pub commit : Plan → Queue → Emits (Result Dispatched)
unfolding reserve finish
commit p q = finish p q (reserve p.pending_indices q.items)

unfoldable pub dispatch_parallel_ready_tasks : Request → Queue → Emits (Result Dispatched)
unfolding plan_parallel_start commit
dispatch_parallel_ready_tasks r q = elim (plan_parallel_start r q) [
  | ok p ↦ commit p q
  | raise e ↦ (q, [], raise e)
]

-- the arguments of the first dispatch
abbrev pub initial_request : ℕ → Request
initial_request now = record {
  max_tasks = 1;
  active_worker_ids = none;
  priority = smart;
  task_size_getter = none;
  now = now;
  include_queue_items = false;
}

abbrev pub is_empty {ℓ} : {A : Type ℓ} → List A → Bool
is_empty [] = true
is_empty (x ∷ xs) = false

-- `_dispatch_initial_ready_task`: an exception is logged and dropped
unfoldable pub dispatch_initial_ready_task : ℕ → Queue → Queue × List Signal
unfolding dispatch_parallel_ready_tasks
dispatch_initial_ready_task now q =
    let (q', signals, _) = dispatch_parallel_ready_tasks (initial_request now) q in (q', signals)

unfoldable pub start_queue : ℕ → Queue → Queue × List Signal
unfolding dispatch_initial_ready_task
start_queue now q =
    if q.is_running || is_empty q.items
    then (q, [])
    else let q' = record q { is_running = true; is_paused = false; current_index = negsuc 0 } in
      let (q'', signals) = dispatch_initial_ready_task now q' in
      (q'', prevent_sleep ∷ queue_started ∷ signals)

unfoldable pub stop_queue : Queue → Queue × List Signal
stop_queue q = if not q.is_running then (q, []) else (
  record q { is_running = false; is_paused = false; current_index = negsuc 0 },
  allow_sleep ∷ queue_stopped ∷ [],
)

unfoldable pub pause_queue : Queue → Queue × List Signal
pause_queue q =
    if not q.is_running || q.is_paused
    then (q, [])
    else (record q { is_paused = true }, queue_paused ∷ [])

unfoldable pub resume_queue : ℕ → Queue → Queue × List Signal
unfolding dispatch_initial_ready_task
resume_queue now q =
    if not q.is_running || not q.is_paused
    then (q, [])
    else let (q', signals) = dispatch_initial_ready_task now (record q { is_paused = false }) in
      (q', queue_resumed ∷ signals)

-- the two halves of `set_runtime_state`; an argument left out is `none`
set_running : Option Bool → Queue → Queue
set_running none q = q
set_running (some true) q = record q { is_running = true }
set_running (some false) q = record q { is_running = false; current_index = negsuc 0 }

set_paused : Option Bool → Queue → Queue
set_paused none q = q
set_paused (some b) q = record q { is_paused = if q.is_running then b else false }

unfoldable pub set_runtime_state : Option Bool → Option Bool → Queue → Queue
unfolding set_running set_paused
set_runtime_state running_value paused_value q =
    set_paused paused_value (set_running running_value q)
