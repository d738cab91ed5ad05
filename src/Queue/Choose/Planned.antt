-- ===== src/Queue/Choose/Planned.antt =====
-- core/queue_manager.py: what `plan_parallel_start` promises of its result.
use hyper_loader.Prelude.{
  >>=-eq-ok, Distinct, List, [], arith, elem, ok, traverse, ℕ, ◌∷◌, ◌≡◌, Bool-cases, inl, inr, map,
  none, ◌∙◌,
}
use hyper_loader.Task.{Task}
use hyper_loader.Queue.{Queue}
use hyper_loader.Queue.Plan.{
  Request, Row, Plan, lenient_row, source_rows, active_ids, tally, ready_from, next_retry_from,
}
use hyper_loader.Queue.Plan.Ready.{ready_from-Distinct}
use hyper_loader.Queue.Plan.Rows.{source_rows-ok}
use hyper_loader.Queue.Choose.{
  Keyed, sort, sort_key, prioritized, is_sorting, select, plan_parallel_start,
}
use hyper_loader.Queue.Choose.Sort.{indices, elem-sort, sort-Distinct}

sort_key-index :
    (r : Request) (items : List Task) (i : ℕ) (k : Keyed) → sort_key r items i ≡ ok k → k.1 ≡ i
unfolding sort_key
sort_key-index r items i k h = ground arith

sort_keys-indices :
    (r : Request) (items : List Task) (is : List ℕ) (ks : List Keyed)
    → traverse (sort_key r items) is ≡ ok ks
    → indices ks ≡ is
unfolding traverse
sort_keys-indices r items [] ks h = ground arith
sort_keys-indices r items (i ∷ is) ks h =
    let (k, e, h') = >>=-eq-ok (sort_key r items i) _ h in
    let (rest, e', h'') = >>=-eq-ok (traverse (sort_key r items) is) _ h' in
    cc (sort_key-index r items i k e, sort_keys-indices r items is rest e')

-- The ordered indices are the ready ones.
prioritized-SameIndices :
    (r : Request) (items : List Task) (ready ordered : List ℕ)
    → prioritized r items ready ≡ ok ordered
    → (Distinct ready → Distinct ordered) × ((j : ℕ) → elem j ordered ≡ elem j ready)
unfolding prioritized
prioritized-SameIndices r items ready ordered h = elim (Bool-cases (is_sorting r ready)) [
  | inl e ↦
      let (ks, keyed, sorted) =
        >>=-eq-ok (traverse (sort_key r items) ready) (λ (k : List Keyed). ok (indices (sort k)))
          (rw e at h) in
      let same = sort_keys-indices r items ready ks keyed in
      let is_result : indices (sort ks) ≡ ordered = cc in
      (
        λ d. rw (← is_result) (sort-Distinct ks (rw same d)),
        λ j. rw (← is_result) (elem-sort j ks ∙ rw same),
      )
  | inr e ↦
      let is_result : ready ≡ ordered = ground arith in
      (λ d. rw (← is_result) d, λ j. rw (← is_result))
]

-- the rows that the loops see
abbrev pub rows_of : Queue → List Row
rows_of q = map lenient_row q.items

-- the ready indices, before they are ordered
abbrev pub ready_of : Request → Queue → List ℕ
ready_of r q = ready_from (active_ids r) r.now 0 (rows_of q)

-- A plan that is returned selects from an arrangement of the ready indices.
pub plan_parallel_start-ok :
    (r : Request) (q : Queue) (p : Plan)
    → plan_parallel_start r q ≡ ok p
    → (ordered : List ℕ) × (Distinct ordered)
      × ((j : ℕ) → elem j ordered ≡ elem j (ready_of r q))
      × (p.pending_indices
          ≡ select (rows_of q) r.max_tasks (tally r (rows_of q)).active_domains ordered)
      × (p.next_retry_ts ≡ next_retry_from (active_ids r) r.now 0 (rows_of q) none)
unfolding plan_parallel_start
plan_parallel_start-ok r q p h =
    let (rows, read, h') = >>=-eq-ok (source_rows r q.items) _ h in
    let same = source_rows-ok r q.items rows read in
    let (ordered, arranged, done) =
      >>=-eq-ok (prioritized r q.items (ready_from (active_ids r) r.now 0 rows)) _ h' in
    let (distinct, members) = prioritized-SameIndices r q.items _ ordered arranged in
    (
      ordered,
      distinct (ready_from-Distinct (active_ids r) r.now 0 rows),
      λ j. rw (← same) (members j),
      rw (← same) (ground arith),
      rw (← same) (ground arith),
    )
