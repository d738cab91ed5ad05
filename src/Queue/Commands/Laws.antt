-- ===== src/Queue/Commands/Laws.antt =====
-- core/window_controllers/queue_optimization_controller.py: what a retry of all failed items does to the
-- items.
use hyper_loader.Prelude.{List, Bool, [], false, if◌then◌else◌, map, pos, ◌∷◌, ◌≡◌, ℕ}
use hyper_loader.Network.Names.{any_of}
use hyper_loader.Task.{Task, update}
use hyper_loader.Queue.{Queue, Signal, queue_changed}
use hyper_loader.Queue.Edit.{update_task_fields}
use hyper_loader.Queue.Commands.{is_retried, retry_fields}

-- an item after a retry
abbrev pub retried : Task → Task
retried t = if is_retried t then update t retry_fields else t

-- the body of the loop
abbrev body : Bool → ℕ → Queue → Queue × List Signal × Bool
body b index q = if b then update_task_fields (pos index) retry_fields false q else (q, [], false)

-- what the command leaves: the failed, cancelled and paused items are pending, with no retries and no
-- waiting time, the others as they were, and the queue runs exactly if there was such an item, no
-- longer paused then
abbrev pub IsRetried : Queue → Queue × List Signal × Bool → Type 0
IsRetried q (after, signals, is_processed) =
    (after.items ≡ map retried q.items)
    × (is_processed ≡ any_of is_retried q.items)
    × (signals ≡ (if is_processed then queue_changed ∷ [] else []))
    × (after.is_running ≡ is_processed)
    × (after.is_paused ≡ (if is_processed then false else q.is_paused))
