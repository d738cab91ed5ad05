-- ===== src/Queue/Commands/Tests.antt =====
-- core/window_controllers/queue_optimization_controller.py: the case of the law, and a run.
use hyper_loader.Prelude.{Text, [], codes, map, refl, ◌∷◌, ◌≡◌}
use hyper_loader.Task.{Task, num, defaults}
use hyper_loader.Task.Status.{value}
use hyper_loader.Queue.{Queue, init}
use hyper_loader.Queue.Commands.{retry_all_failed_queue_items}

abbrev item : Text → Task
item status = record (defaults []) { status = status; retry_count = num 3; next_retry_at = num 9 }

abbrev stopped_queue : Queue
stopped_queue = record init {
  items = item (codes "Failed") ∷ item (codes "completed") ∷ item (codes "paused") ∷ [];
}

two_retried :
    map (λ (t : Task). t.status) (retry_all_failed_queue_items 0 stopped_queue).0.items
    ≡ codes "pending" ∷ codes "completed" ∷ codes "pending" ∷ []
unfolding retry_all_failed_queue_items defaults value
two_retried = refl
