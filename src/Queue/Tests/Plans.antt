-- ===== src/Queue/Tests/Plans.antt =====
-- Planning and dispatching.
use hyper_loader.Prelude.{
  [], ok, refl, some, ◌∷◌, ◌≡◌, codes, elem, false, get_elem?, length, lower, max, one_of, text_eq,
  true, ℕ, ◌+◌, ◌≤◌, ◌⊎◌, arith,
}
use hyper_loader.Task.{Task}
use hyper_loader.Queue.{Queue, is_pending_status, is_active_status}
use hyper_loader.Queue.Domains.{domain_concurrency_limit, normalized_domain}
use hyper_loader.Queue.Plan.{no_counts, Tally, Plan, active_ids}
use hyper_loader.Queue.Plan.Ready.{wake_at}
use hyper_loader.Queue.Choose.{plan_parallel_start, domain_at, prioritized, is_sorting}
use hyper_loader.Queue.Choose.Planned.{rows_of}
use hyper_loader.Queue.Choose.Throttle.{count_domain}
use hyper_loader.Queue.Choose.Guarantees.{
  IsEligible, active_on, planned-IsEligible, planned-throttle, planned_complete,
}
use hyper_loader.Queue.Choose.Modes.{lenient_plan, plan_parallel_start-lenient}
use hyper_loader.Queue.Tests.Data.{queue, light, full, items, broken, video}
use hyper_loader.Task.Status.{value}

zero_le : (n : ℕ) → 0 ≤ n
zero_le n = omega arith

abbrev pub plan : Plan
plan = lenient_plan light queue

pub is_planned : plan_parallel_start light queue ≡ ok plan
is_planned = plan_parallel_start-lenient light queue refl

unfoldable pub program : Unit {0}
unfolding plan_parallel_start is_pending_status one_of lower value normalized_domain
    domain_concurrency_limit is_active_status
program = tt

-- The second video waits for the first two; the scheduled page waits for its time.
plan_run : (plan.pending_indices ≡ 1 ∷ 3 ∷ []) × (plan.next_retry_ts ≡ some 50)
unfolding program
plan_run = (refl, refl)

planned_video : elem 1 plan.pending_indices ≡ true
unfolding program
planned_video = refl

planned-IsEligible_example : (t : Task) × (get_elem? queue.items 1 ≡ some t) × IsEligible light 1 t
planned-IsEligible_example = planned-IsEligible light queue plan is_planned 1 planned_video

is_named : text_eq (codes "youtube") [] ≡ false
unfolding text_eq
is_named = refl

planned-throttle_example :
    active_on light queue (codes "youtube")
      + count_domain (rows_of queue) (codes "youtube") plan.pending_indices
    ≤ max (active_on light queue (codes "youtube")) (domain_concurrency_limit (codes "youtube"))
planned-throttle_example = planned-throttle light queue plan is_planned (codes "youtube") is_named

left_video : elem 2 plan.pending_indices ≡ false
unfolding program
left_video = refl

video-IsEligible : IsEligible light 2 video
unfolding program
video-IsEligible = record {
  unowned = refl;
  waiting = refl;
  due = zero_le 10;
  retry_due = zero_le 10;
}

planned_complete_example :
    (length plan.pending_indices ≡ 3)
    ⊎ ((text_eq (domain_at (rows_of queue) 2) [] ≡ false)
        × (domain_concurrency_limit (domain_at (rows_of queue) 2)
            ≤ active_on light queue (domain_at (rows_of queue) 2)
              + count_domain (rows_of queue) (domain_at (rows_of queue) 2) plan.pending_indices))
planned_complete_example =
    planned_complete light queue plan is_planned 2 video refl video-IsEligible left_video

later_wakes : wake_at (active_ids light) 10 4 (get_elem? (rows_of queue) 4) ≡ some 50
unfolding program
later_wakes = refl

next_is : plan.next_retry_ts ≡ some 50
unfolding program
next_is = refl

abbrev damaged : Queue
damaged = record queue { items = video ∷ broken ∷ [] }

ordered_run :
    (is_sorting full (3 ∷ 1 ∷ []) ≡ true) × (prioritized full items (3 ∷ 1 ∷ []) ≡ ok (1 ∷ 3 ∷ []))
unfolding program
ordered_run = (refl, refl)

-- the domain that the limits count for
domain_run : normalized_domain (codes "https://www.YouTube.com/watch?v=1") ≡ codes "youtube"
unfolding normalized_domain
domain_run = refl

-- each row is counted under one status
abbrev no_tally : Tally
no_tally = record { status_counts = no_counts; active_count = 0; active_domains = λ d. 0 }
