-- ===== src/Queue/Choose/Modes.antt =====
-- core/queue_manager.py: the two ways in which `plan_parallel_start` reads the queue, by the full
-- snapshot and by the light records, and the order that each gives.
use hyper_loader.Prelude.{
  arith, false, get_elem?, none, ok, some, true, ℕ, ◌≡◌, [], inl, inr, >>=-eq-ok, List, raise, suc,
  traverse, value_error, zero, ◌∷◌, Error, Result-cases, map,
}
use hyper_loader.Task.{Task, bad, read}
use hyper_loader.Queue.{Queue}
use hyper_loader.Queue.Plan.{
  Request, Plan, active_ids, tally, lenient_row, strict_row, source_rows, needs_full_snapshot,
}
use hyper_loader.Queue.Choose.{
  plan_parallel_start, prioritized, is_sorting, sort, sort_key, Keyed, select, next_retry_from,
}
use hyper_loader.Queue.Choose.Planned.{rows_of, ready_of}
use hyper_loader.Queue.Choose.Sort.{indices, IsSorted, sort-IsSorted}

-- In an ordered plan the ready indices are sorted by their keys, which are all read first.
pub prioritized-IsSorted :
    (r : Request) (items : List Task) (ready ordered : List ℕ)
    → is_sorting r ready ≡ true
    → prioritized r items ready ≡ ok ordered
    → (keyed : List Keyed) × (traverse (sort_key r items) ready ≡ ok keyed)
      × (ordered ≡ indices (sort keyed))
      × IsSorted (sort keyed)
unfolding prioritized
prioritized-IsSorted r items ready ordered sorting h =
    let (keyed, each, done) =
      >>=-eq-ok (traverse (sort_key r items) ready) (λ (k : List Keyed). ok (indices (sort k)))
        (rw sorting at h) in
    (keyed, each, cc, sort-IsSorted keyed)

source_rows-lenient :
    (r : Request) (items : List Task)
    → needs_full_snapshot r ≡ false
    → source_rows r items ≡ ok (map lenient_row items)
unfolding source_rows
source_rows-lenient r items h = rw h

prioritized-lenient :
    (r : Request) (items : List Task) (ready : List ℕ)
    → needs_full_snapshot r ≡ false
    → prioritized r items ready ≡ ok ready
unfolding prioritized is_sorting
prioritized-lenient r items ready h = rw h

-- the plan made with no full snapshot
abbrev pub lenient_plan : Request → Queue → Plan
lenient_plan r q = record {
  pending_indices =
      select (rows_of q) r.max_tasks (tally r (rows_of q)).active_domains (ready_of r q);
  next_retry_ts = next_retry_from (active_ids r) r.now 0 (rows_of q) none;
  active_count = (tally r (rows_of q)).active_count;
  status_counts = (tally r (rows_of q)).status_counts;
  queue_items = none;
}

include_of : (r : Request) → needs_full_snapshot r ≡ false → r.include_queue_items ≡ false
include_of r h = ground arith

-- Without the full snapshot a plan is always returned, whatever the items hold, and it selects in
-- the order of the queue, whatever priority was asked for.
pub plan_parallel_start-lenient :
    (r : Request) (q : Queue)
    → needs_full_snapshot r ≡ false
    → plan_parallel_start r q ≡ ok (lenient_plan r q)
unfolding plan_parallel_start
plan_parallel_start-lenient r q h = rw (
  source_rows-lenient r q.items h,
  prioritized-lenient r q.items (ready_of r q) h,
  include_of r h,
)

strict_row-bad : (t : Task) → t.scheduled_at ≡ bad → strict_row t ≡ raise value_error
unfolding strict_row read
strict_row-bad t h = rw h

strict_row-raise : (t : Task) (e : Error) → strict_row t ≡ raise e → e ≡ value_error
unfolding strict_row read
strict_row-raise t e h = ground arith

strict_rows-bad :
    (items : List Task) (i : ℕ) (t : Task)
    → get_elem? items i ≡ some t
    → t.scheduled_at ≡ bad
    → traverse strict_row items ≡ raise value_error
unfolding traverse
strict_rows-bad [] i t h b = absurd (ground arith)
strict_rows-bad (x ∷ items) zero t h b =
    let same : x ≡ t = ground arith in rw (strict_row-bad x (rw same b))
strict_rows-bad (x ∷ items) (suc i) t h b = elim (Result-cases (strict_row x)) [
  | inl (row, e) ↦ rw (e, strict_rows-bad items i t h b)
  | inr (e, p) ↦ rw (p, strict_row-raise x e p)
]

source_rows-strict :
    (r : Request) (items : List Task)
    → needs_full_snapshot r ≡ true
    → source_rows r items ≡ traverse strict_row items
unfolding source_rows
source_rows-strict r items h = rw h

-- With the full snapshot, one item whose scheduled time is not a number makes the planning raise,
-- whatever the item's status is.
pub plan_parallel_start-bad :
    (r : Request) (q : Queue) (i : ℕ) (t : Task)
    → needs_full_snapshot r ≡ true
    → get_elem? q.items i ≡ some t
    → t.scheduled_at ≡ bad
    → plan_parallel_start r q ≡ raise value_error
unfolding plan_parallel_start
plan_parallel_start-bad r q i t h there b =
    rw (source_rows-strict r q.items h, strict_rows-bad q.items i t there b)
