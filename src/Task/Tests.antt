-- ===== src/Task/Tests.antt =====
-- Normalised values at concrete inputs.
use hyper_loader.Prelude.{codes, ◌≡◌, refl}
use hyper_loader.Task.Status.{member, pending, normalize_task_status}

trimmed : normalize_task_status (codes " Paused ") (member pending) ≡ codes "paused"
unfolding normalize_task_status
trimmed = refl
