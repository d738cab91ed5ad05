-- ===== src/Queue/Choose/Guarantees.antt =====
-- core/queue_manager.py: the properties of a plan that `plan_parallel_start` returns.
use hyper_loader.Prelude.{
  Distinct, Option, ap, arith, elem, false, get_elem?, get_elem?-map, length, none, ok, opt_map,
  refl, some, sym, true, ℕ, ◌∙◌, ◌≡◌, ◌≤◌, Text, [], inl, inr, max, text_eq, ◌+◌, ◌<◌, ◌⊎◌,
}
use hyper_loader.Task.{Task, read_or_zero}
use hyper_loader.Queue.{Queue, status_of, is_pending_status}
use hyper_loader.Queue.Domains.{domain_concurrency_limit}
use hyper_loader.Queue.Plan.{Request, Plan, active_ids, tally, is_ready, lenient_row}
use hyper_loader.Queue.Plan.Ready.{
  ready_at, wake_at, AtMost, elem-ready_from, next_retry_from-AtMost, next_retry_from-attained,
  wake_at-lt,
}
use hyper_loader.Queue.Plan.Rows.{count_active, active_domains-tally_from}
use hyper_loader.Queue.Choose.{plan_parallel_start, domain_at}
use hyper_loader.Queue.Choose.Planned.{rows_of, ready_of, plan_parallel_start-ok}
use hyper_loader.Queue.Choose.Throttle.{
  count_domain, length-select-le, elem_of_elem-select, select-Distinct, select-throttle,
  select-Blocked,
}

-- the conditions under which an item may start
pub record IsEligible (r : Request) (idx : ℕ) (t : Task) : Type 0 where
  pub unowned : elem idx (active_ids r) ≡ false
  pub waiting : is_pending_status (status_of t) ≡ true
  pub due : read_or_zero t.scheduled_at ≤ r.now
  pub retry_due : read_or_zero t.next_retry_at ≤ r.now

is_ready-IsEligible :
    (r : Request) (i : ℕ) (t : Task)
    → is_ready (active_ids r) r.now i (lenient_row t) ≡ true
    → IsEligible r i t
unfolding is_ready lenient_row
is_ready-IsEligible r i t h = ground arith

IsEligible-is_ready :
    (r : Request) (i : ℕ) (t : Task)
    → IsEligible r i t
    → is_ready (active_ids r) r.now i (lenient_row t) ≡ true
unfolding is_ready lenient_row
IsEligible-is_ready r i t h = ground arith

ready_at-task :
    (r : Request) (i : ℕ) (o : Option Task)
    → ready_at (active_ids r) r.now i (opt_map lenient_row o) ≡ true
    → (t : Task) × (o ≡ some t) × IsEligible r i t
ready_at-task r i none h = cc
ready_at-task r i (some t) h = (t, refl, is_ready-IsEligible r i t h)

zero_add : (i : ℕ) → 0 + i ≡ i
zero_add i = omega arith

elem-ready_of :
    (r : Request) (q : Queue) (i : ℕ)
    → elem i (ready_of r q)
      ≡ ready_at (active_ids r) r.now i (opt_map lenient_row (get_elem? q.items i))
elem-ready_of r q i =
    (rw (zero_add i) at (elem-ready_from (active_ids r) r.now 0 (rows_of q) i))
    ∙ ap (ready_at (active_ids r) r.now i) (get_elem?-map lenient_row q.items i)

-- how many items are active on a domain when the plan is made
abbrev pub active_on : Request → Queue → Text → ℕ
active_on r q d = count_active (active_ids r) 0 (rows_of q) d

active_on-tally :
    (r : Request) (q : Queue) (d : Text)
    → text_eq d [] ≡ false
    → (tally r (rows_of q)).active_domains d ≡ active_on r q d
unfolding tally
active_on-tally r q d h =
    active_domains-tally_from _ (active_ids r) 0 (rows_of q) _ d h ∙ zero_add (active_on r q d)

module _ (r : Request) (q : Queue) (p : Plan) (planned : plan_parallel_start r q ≡ ok p) where
  -- Every planned index is that of an item of the queue whose status is pending, which no given
  -- worker owns, and whose scheduled time and retry time are not after `now`.
  pub planned-IsEligible :
      (i : ℕ)
      → elem i p.pending_indices ≡ true
      → (t : Task) × (get_elem? q.items i ≡ some t) × IsEligible r i t
  planned-IsEligible i h =
      let (ordered, distinct, members, chosen, next) = plan_parallel_start-ok r q p planned in
      let usage = (tally r (rows_of q)).active_domains in
      let listed : elem i ordered ≡ true =
        elem_of_elem-select (rows_of q) r.max_tasks usage ordered i (rw (← chosen) h) in
      ready_at-task r i (get_elem? q.items i) (sym (elem-ready_of r q i) ∙ sym (members i) ∙ listed)

  -- A plan has no index twice and at most `max_tasks` of them.
  pub planned-bounded : Distinct p.pending_indices × (length p.pending_indices ≤ r.max_tasks)
  planned-bounded =
      let (ordered, distinct, members, chosen, next) = plan_parallel_start-ok r q p planned in
      let usage = (tally r (rows_of q)).active_domains in
      (
        rw chosen (select-Distinct (rows_of q) r.max_tasks usage ordered distinct),
        rw chosen (length-select-le (rows_of q) r.max_tasks usage ordered),
      )

  -- On every domain that has a name, the active items and the planned ones together stay within the domain's limit,
  -- or nothing is planned beyond what is already active.
  pub planned-throttle :
      (d : Text)
      → text_eq d [] ≡ false
      → active_on r q d + count_domain (rows_of q) d p.pending_indices
        ≤ max (active_on r q d) (domain_concurrency_limit d)
  planned-throttle d h =
      let (ordered, distinct, members, chosen, next) = plan_parallel_start-ok r q p planned in
      let usage = (tally r (rows_of q)).active_domains in
      rw (← active_on-tally r q d h, chosen)
        (select-throttle (rows_of q) d h r.max_tasks usage ordered)

  -- Nothing eligible is left out without a reason: the plan is full, or the item's domain is at its
  -- limit.
  pub planned_complete :
      (i : ℕ) (t : Task)
      → get_elem? q.items i ≡ some t
      → IsEligible r i t
      → elem i p.pending_indices ≡ false
      → (length p.pending_indices ≡ r.max_tasks)
        ⊎ ((text_eq (domain_at (rows_of q) i) [] ≡ false)
            × (domain_concurrency_limit (domain_at (rows_of q) i)
                ≤ active_on r q (domain_at (rows_of q) i)
                  + count_domain (rows_of q) (domain_at (rows_of q) i) p.pending_indices))
  planned_complete i t there eligible left =
      let (ordered, distinct, members, chosen, next) = plan_parallel_start-ok r q p planned in
      let usage = (tally r (rows_of q)).active_domains in
      let listed : elem i ordered ≡ true =
        members i ∙ elem-ready_of r q i ∙ rw there (IsEligible-is_ready r i t eligible) in
      let blocked =
        select-Blocked (rows_of q) r.max_tasks usage ordered i listed (rw (← chosen) left) in
      rw chosen (elim blocked [
        | inl full ↦ inl full
        | inr (named, limit) ↦
            inr (named, rw (← active_on-tally r q (domain_at (rows_of q) i) named) limit)
      ])

  -- The time at which the plan asks to be called again is after `now`, and it is the waiting time of
  -- some item.
  pub planned-next_retry :
      (t : ℕ)
      → p.next_retry_ts ≡ some t
      → (i : ℕ) × (wake_at (active_ids r) r.now i (get_elem? (rows_of q) i) ≡ some t) × (r.now < t)
  planned-next_retry t e =
      let (ordered, distinct, members, chosen, next) = plan_parallel_start-ok r q p planned in
      let ids = active_ids r in
      elim (next_retry_from-attained ids r.now 0 (rows_of q) none t (rw next at e)) [
        | inl absent ↦ cc
        | inr (i, w) ↦
            let waits = rw (zero_add i) at w in
            (i, waits, wake_at-lt ids r.now i (get_elem? (rows_of q) i) t waits)
      ]

  -- The plan asks to be called again no later than the waiting time of any item.
  pub planned-earliest :
      (i u : ℕ)
      → wake_at (active_ids r) r.now i (get_elem? (rows_of q) i) ≡ some u
      → AtMost p.next_retry_ts u
  planned-earliest i u w =
      let (ordered, distinct, members, chosen, next) = plan_parallel_start-ok r q p planned in
      rw next
        (next_retry_from-AtMost (active_ids r) r.now 0 (rows_of q) none i u (rw (zero_add i) w))
