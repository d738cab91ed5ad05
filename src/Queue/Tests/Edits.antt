-- ===== src/Queue/Tests/Edits.antt =====
-- Adding, editing, scheduling and viewing.
use hyper_loader.Prelude.{
  List, Text, [], arith, codes, cons_if, false, length, ltb, min, ok, pos, refl, strip, take,
  text_eq, none, some, ℕ, ◌++◌, ◌+◌, ◌-◌, ◌∷◌, ◌≡◌, one_of,
}
use hyper_loader.Task.{Field, num}
use hyper_loader.Queue.{Queue, init, queue_limit_exceeded, queue_changed, Page}
use hyper_loader.Queue.Add.{add_tasks, copy_tasks, seen_of, identity}
use hyper_loader.Queue.Add.Identity.{IsSupply, Fresh, Foreign, Named}
use hyper_loader.Queue.Add.Laws.{add_tasks-bounded, named_tasks}
use hyper_loader.Queue.Edit.{move_task}
use hyper_loader.Queue.Edit.Moves.{move_task_running}
use hyper_loader.Queue.Schedule.Edits.{Event, check_after, method, set_progress, run}
use hyper_loader.Queue.View.{PageRequest, memory_page}
use hyper_loader.Queue.View.Laws.{matching, IsPage, memory_page-IsPage}
use hyper_loader.Queue.Tests.Data.{queue, items, page, task}

-- identifiers: code points from 20000 on, one for each draw
abbrev uuid4 : ℕ → Text
uuid4 n = (n + 20000) ∷ []

uuid4-IsSupply : IsSupply uuid4
unfolding strip text_eq
uuid4-IsSupply = record {
  clean = λ m. ground arith;
  filled = λ m. refl;
  apart = λ m k h. ground arith;
}

abbrev given : List (List Field)
given =
    (Field.url (codes "http://a.org") ∷ [])
    ∷ (Field.url (codes "http://b.org") ∷ [])
    ∷ (Field.url (codes "http://c.org") ∷ [])
    ∷ []

abbrev empty : Queue
empty = record init { items = page ∷ [] }

add_tasks-bounded_example :
    (let rejected = 1 + 3 - 3 in
      ((add_tasks uuid4 3 given empty).0.items
        ≡ page ∷ [] ++ take (3 - 1) (named_tasks uuid4 3 given empty))
      × (length (add_tasks uuid4 3 given empty).0.items ≡ min 3 (1 + 3))
      × ((add_tasks uuid4 3 given empty).1
          ≡ cons_if (ltb 0 rejected) (queue_limit_exceeded rejected) (queue_changed ∷ [])))
add_tasks-bounded_example = add_tasks-bounded uuid4 3 given empty (omega arith)

fresh : Fresh uuid4 3 (seen_of empty.items)
unfolding seen_of strip one_of text_eq
fresh m h = ground arith

foreign : Foreign uuid4 3 (copy_tasks uuid4 given 0).0
unfolding copy_tasks identity text_eq
foreign = (λ m h. ground arith, (λ m h. ground arith, (λ m h. ground arith, tt)))

named : Named [] empty.items
unfolding identity one_of
named = (refl, refl, tt)

move_task_running_example : move_task (pos 0) (pos 3) queue ≡ (queue, [], false)
move_task_running_example = move_task_running (pos 0) (pos 3) queue refl refl

abbrev stopped : Queue
stopped = record queue { is_running = false }

-- a task for the time 50, in a queue that does not run
abbrev timed : Queue
timed = record stopped {
  items = record (task (codes "t") (codes "u")) { scheduled_at = num 50 } ∷ [];
  next_scheduled_at_hint = none;
}

-- a check at 5 and a written progress
abbrev watched : List Event
watched = check_after 5 ∷ method (set_progress (pos 0) (num 7) [] []) ∷ []

hint_noted : (run uuid4 watched 0 timed).1.next_scheduled_at_hint ≡ some 50
unfolding run
hint_noted = refl

abbrev asked : PageRequest
asked = record {
  view = codes "queued";
  now_ts = 10;
  clock = 10;
  state_filter = codes "all";
  media_filter = codes "all";
  query = codes "";
  page = 2;
  page_size = 2;
}

-- the two pages of three entries
shown : (p : Page) × (memory_page asked items ≡ ok p)
unfolding memory_page
shown = (_, refl)

memory_page-IsPage_example : IsPage asked (matching asked 0 items) shown.0
memory_page-IsPage_example = memory_page-IsPage asked items shown.0 shown.1
