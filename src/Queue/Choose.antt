-- ===== src/Queue/Choose.antt =====
-- core/queue_manager.py: `_smart_priority_key` and the rest of `plan_parallel_start`: the order of
-- the ready items, and the selection under the limits of the domains. `list.sort` is the stable
-- sort by insertion.
pub mod Throttle
pub mod Planned
pub mod Guarantees
pub mod Modes
pub mod Sort
use hyper_loader.Prelude.{
  ℕ, zero, suc, ◌-◌, Text, text_eq, Bool, true, false, not, ◌&&◌, ltb, leb, ◌==◌, if◌then◌else◌,
  Option, none, some, List, [], ◌∷◌, map, length, get_elem?, Result, ok, ◌>>=◌, traverse, or_else,
  min,
}
use hyper_loader.Task.{Task, read, read_or_zero}
use hyper_loader.Queue.{Queue, status_of, is_pending_status}
use hyper_loader.Queue.Domains.{normalized_domain, domain_concurrency_limit}
use hyper_loader.Queue.Plan.{
  Priority, smallest_first, smart, Request, Row, Usage, Plan, active_ids, needs_full_snapshot,
  source_rows, use_domain, tally, ready_from, next_retry_from,
}

-- tuples of numbers in the order of Python
unfoldable pub lex_leb : List ℕ → List ℕ → Bool
lex_leb [] bs = true
lex_leb (a ∷ ks) [] = false
lex_leb (a ∷ ks) (b ∷ bs) = if a == b then lex_leb ks bs else ltb a b

-- an index with its sort key
abbrev pub Keyed : Type 0
Keyed = List ℕ × ℕ

unfoldable pub insert : Keyed → List Keyed → List Keyed
unfolding lex_leb
insert x [] = x ∷ []
insert x (y ∷ ys) = if lex_leb x.0 y.0 then x ∷ y ∷ ys else y ∷ insert x ys

unfoldable pub sort : List Keyed → List Keyed
unfolding insert
sort [] = []
sort (x ∷ xs) = insert x (sort xs)

-- `int(task_size_getter(dict(item)) or 0)`, 0 where it raises or there is none
unfoldable pub size_of : Option (Task → Result ℕ) → Task → ℕ
size_of none t = 0
size_of (some getter) t = or_else (getter t) 0

-- `_smart_priority_key`, with `10 - priority_boost` for `-priority_boost`
unfoldable pub smart_priority_key : Task → ℕ → Option (Task → Result ℕ) → ℕ → Result (List ℕ)
unfolding read read_or_zero size_of
smart_priority_key t idx getter now = do
  retry_count ← read t.retry_count
  boost ← read t.priority_boost
  let scheduled_at = read_or_zero t.scheduled_at
  let waiting_penalty : ℕ = if is_pending_status (status_of t) then 0 else 1
  let due_now : ℕ = if scheduled_at == 0 then 0 else if leb scheduled_at now then 0 else 1
  let retry_penalty : ℕ = if retry_count == 0 then 0 else 1
  ok (
      waiting_penalty
      ∷ due_now
      ∷ (10 - min 10 boost)
      ∷ retry_penalty
      ∷ retry_count
      ∷ size_of getter t
      ∷ idx
      ∷ [])

unfoldable pub sort_key : Request → List Task → ℕ → Result Keyed
unfolding smart_priority_key
sort_key r items idx = elim (get_elem? items idx) [
  | none ↦ ok (idx ∷ [], idx)
  | some t ↦ elim r.priority [
    | smart ↦ do key ← smart_priority_key t idx r.task_size_getter r.now; ok (key, idx)
    | _ ↦ ok (size_of r.task_size_getter t ∷ idx ∷ [], idx)
  ]
]

-- whether one of the two `ready_indices.sort` calls is reached
abbrev has_order : Priority → Option (Task → Result ℕ) → Bool
has_order smart getter = true
has_order smallest_first (some getter) = true
has_order p getter = false

unfoldable pub is_sorting : Request → List ℕ → Bool
is_sorting r ready =
    needs_full_snapshot r && ltb 1 (length ready) && has_order r.priority r.task_size_getter

unfoldable pub prioritized : Request → List Task → List ℕ → Result (List ℕ)
unfolding is_sorting sort_key sort traverse
prioritized r items ready =
    if is_sorting r ready
    then (do keyed ← traverse (sort_key r items) ready; ok (map (λ k. k.1) (sort keyed)))
    else ok ready

unfoldable pub domain_at : List Row → ℕ → Text
domain_at rows idx = elim (get_elem? rows idx) [ none ↦ [] | some row ↦ normalized_domain row.url ]

-- `domain and domain_usage.get(domain, 0) >= _domain_concurrency_limit(domain)`
unfoldable pub is_saturated : Text → Usage → Bool
is_saturated domain usage =
    not (text_eq domain []) && leb (domain_concurrency_limit domain) (usage domain)

-- the last loop; `room` is `limit - len(pending_indices)`
unfoldable pub select : List Row → ℕ → Usage → List ℕ → List ℕ
unfolding domain_at is_saturated use_domain
select rows room usage [] = []
select rows zero usage (idx ∷ ready) = []
select rows (suc room) usage (idx ∷ ready) =
    let domain = domain_at rows idx in
    let skipped = select rows (suc room) usage ready in
    let taken = idx ∷ select rows room (use_domain domain usage) ready in
    if is_saturated domain usage then skipped else taken

unfoldable pub plan_parallel_start : Request → Queue → Result Plan
unfolding source_rows tally ready_from prioritized select next_retry_from
plan_parallel_start r q = do
  rows ← source_rows r q.items
  let t = tally r rows
  let ids = active_ids r
  ordered ← prioritized r q.items (ready_from ids r.now 0 rows)
  ok (record {
    pending_indices = select rows r.max_tasks t.active_domains ordered;
    next_retry_ts = next_retry_from ids r.now 0 rows none;
    active_count = t.active_count;
    status_counts = t.status_counts;
    queue_items = if r.include_queue_items then some q.items else none;
  })
