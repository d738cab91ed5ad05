-- ===== src/Queue/Tests/Runs.antt =====
-- Dispatching, and the flags of the queue.
use hyper_loader.Prelude.{List, [], elem, false, ok, refl, some, true, ◌∷◌, ◌≡◌}
use hyper_loader.Queue.{Queue}
use hyper_loader.Queue.Choose.{plan_parallel_start}
use hyper_loader.Queue.Choose.Modes.{lenient_plan, plan_parallel_start-lenient}
use hyper_loader.Queue.Dispatch.{dispatch_parallel_ready_tasks, Dispatched}
use hyper_loader.Queue.Dispatch.Laws.{no_double_dispatch}
use hyper_loader.Queue.Dispatch.Runtime.{Call, start, pause, resume, set_state}
use hyper_loader.Queue.Tests.Data.{queue, light, items, broken, video}
use hyper_loader.Queue.Tests.Plans.{plan, program}

abbrev handed : Dispatched
handed = record { plan = plan; dispatched_indices = 1 ∷ 3 ∷ [] }

runs : Unit {0}
unfolding program dispatch_parallel_ready_tasks
runs = tt

handed_run : (dispatch_parallel_ready_tasks light queue).2 ≡ ok handed
unfolding runs
handed_run = refl

abbrev after : Queue
after = (dispatch_parallel_ready_tasks light queue).0

second_plan : plan_parallel_start light after ≡ ok (lenient_plan light after)
second_plan = plan_parallel_start-lenient light after refl

no_double_dispatch_example : elem 3 (lenient_plan light after).pending_indices ≡ false
no_double_dispatch_example =
    no_double_dispatch light light queue handed (lenient_plan light after) 3 handed_run second_plan
      refl

abbrev damaged : Queue
damaged = record queue { items = broken ∷ video ∷ [] }

damaged_first : (lenient_plan light damaged).pending_indices ≡ 0 ∷ 1 ∷ []
unfolding program
damaged_first = refl

abbrev calls : List Call
calls = start 10 ∷ pause ∷ resume 20 ∷ set_state (some false) (some true) ∷ []
