-- ===== src/Queue/Tests/Data.antt =====
-- The queues and requests of the tests.
use hyper_loader.Prelude.{List, Text, [], codes, false, none, true, ◌∷◌}
use hyper_loader.Task.{Task, num, bad}
use hyper_loader.Queue.{Queue, init}
use hyper_loader.Queue.Plan.{Request, fifo, smart}

abbrev pub task : Text → Text → Task
task id url = record {
  task_uuid = id;
  url = url;
  title = [];
  mode = codes "video";
  status = codes "pending";
  scheduled_at = num 0;
  next_retry_at = num 0;
  retry_count = num 0;
  priority_boost = num 0;
  progress = num 0;
  speed = [];
  eta = [];
}

abbrev pub video : Task
video = task (codes "a") (codes "https://youtu.be/x")

abbrev pub page : Task
page = task (codes "b") (codes "http://example.org/y")

abbrev pub later : Task
later = record (task (codes "c") (codes "http://example.org/z")) { scheduled_at = num 50 }

abbrev pub broken : Task
broken = record page { scheduled_at = bad }

abbrev pub busy : Task
busy = record video { status = codes "running" }

-- one running and three pending videos, a page, and a page that waits
abbrev pub items : List Task
items = busy ∷ video ∷ video ∷ page ∷ later ∷ []

abbrev pub queue : Queue
queue = record init { items = items; is_running = true }

abbrev pub light : Request
light = record {
  max_tasks = 3;
  active_worker_ids = none;
  priority = fifo;
  task_size_getter = none;
  now = 10;
  include_queue_items = false;
}

abbrev pub full : Request
full = record light { priority = smart; include_queue_items = true }
