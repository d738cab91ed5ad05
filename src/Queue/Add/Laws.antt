-- ===== src/Queue/Add/Laws.antt =====
-- core/queue_manager.py: the capacity of the queue under `add_task` and `add_tasks`.
use mathlib.Core.List.{append-nil}
use hyper_loader.Prelude.{
  List, Text, [], arith, length, refl, ℕ, ◌+◌, ◌∷◌, ◌≡◌, min, sym, take, ◌++◌, ◌-◌, ◌∙◌, ◌≤◌,
  Bool-cases, ap, cons_if, inl, inr, leb, length-append, length-take, ltb, negsuc, pos, ◌⊎◌, ℤ,
}
use hyper_loader.Task.{Task, Field, from_mapping}
use hyper_loader.Queue.Add.{
  identify, copy_tasks, extend, add_tasks, seen_of, accepted_of, add_task,
  ensure_unique_task_identity, place,
}
use hyper_loader.Queue.{Queue, bump_change_token, queue_limit_exceeded, queue_changed, Signal}
use hyper_loader.Queue.Add.Identity.{IsSupply, Fresh, Foreign, Named, Named-add, identify-Named}

length-identify :
    (uuid4 : ℕ → Text) (ts : List Task) (seen : List Text) (n : ℕ)
    → length (identify uuid4 ts seen n).0 ≡ length ts
unfolding identify
length-identify uuid4 [] seen n = refl
length-identify uuid4 (t ∷ ts) seen n = omega (arith, length-identify uuid4 ts _ _)

length-copy_tasks :
    (uuid4 : ℕ → Text) (tasks : List (List Field)) (n : ℕ)
    → length (copy_tasks uuid4 tasks n).0 ≡ length tasks
unfolding copy_tasks
length-copy_tasks uuid4 [] n = refl
length-copy_tasks uuid4 (f ∷ fs) n = omega (arith, length-copy_tasks uuid4 fs (n + 1))

items-extend : (ts : List Task) (q : Queue) → (extend ts q).items ≡ q.items ++ ts
unfolding extend bump_change_token
items-extend [] q = sym (append-nil q.items)
items-extend (t ∷ ts) q = refl

accepted_of-fits :
    (capacity : ℕ) (ts : List Task) (count : ℕ)
    → count ≤ capacity
    → accepted_of capacity ts count ≡ take (capacity - count) ts
unfolding accepted_of
accepted_of-fits capacity ts count h = ground arith

module _ (uuid4 : ℕ → Text) (capacity : ℕ) (tasks : List (List Field)) (q : Queue) where
  -- the given tasks, copied and identified
  abbrev pub named_tasks : List Task
  named_tasks =
      (identify uuid4 (copy_tasks uuid4 tasks q.drawn).0 (seen_of q.items)
        (copy_tasks uuid4 tasks q.drawn).1).0

  -- the state with the identifiers drawn
  abbrev after_draws : Queue
  after_draws = record q {
    drawn =
        (identify uuid4 (copy_tasks uuid4 tasks q.drawn).0 (seen_of q.items)
          (copy_tasks uuid4 tasks q.drawn).1).1;
  }

  length-named_tasks : length named_tasks ≡ length tasks
  length-named_tasks = length-identify uuid4 _ _ _ ∙ length-copy_tasks uuid4 tasks q.drawn

  rejected_count :
      length q.items ≤ capacity
      → length named_tasks - length (accepted_of capacity named_tasks (length q.items))
        ≡ length q.items + length tasks - capacity
  rejected_count h =
      rw (accepted_of-fits capacity named_tasks (length q.items) h)
        (omega (arith, length-take (capacity - length q.items) named_tasks, length-named_tasks))

  items-add_tasks :
      length q.items ≤ capacity
      → (add_tasks uuid4 capacity tasks q).0.items
        ≡ q.items ++ take (capacity - length q.items) named_tasks
  unfolding add_tasks
  items-add_tasks h =
      items-extend (accepted_of capacity named_tasks (length q.items)) after_draws
      ∙ ap (◌++◌ q.items) (accepted_of-fits capacity _ (length q.items) h)

  -- Into a queue within its capacity, `add_tasks` appends as many of the given tasks as fit, in their
  -- order, never passes the capacity, and reports how many it rejected.
  pub add_tasks-bounded :
      length q.items ≤ capacity
      → (let rejected = length q.items + length tasks - capacity in
          ((add_tasks uuid4 capacity tasks q).0.items
            ≡ q.items ++ take (capacity - length q.items) named_tasks)
          × (length (add_tasks uuid4 capacity tasks q).0.items
              ≡ min capacity (length q.items + length tasks))
          × ((add_tasks uuid4 capacity tasks q).1
              ≡ cons_if (ltb 0 rejected) (queue_limit_exceeded rejected) (queue_changed ∷ [])))
  unfolding add_tasks
  add_tasks-bounded h = (
    items-add_tasks h,
    rw (items-add_tasks h) (
        omega (
          arith,
          length-append q.items (take (capacity - length q.items) named_tasks),
          length-take (capacity - length q.items) named_tasks,
          length-named_tasks,
        )),
    ap (λ (n : ℕ). cons_if (ltb 0 n) (queue_limit_exceeded n) (queue_changed ∷ []))
        (rejected_count h),
  )

-- a placed task: where it stands, or that nothing changed
abbrev pub IsPlaced : ℕ → Queue → Queue × List Signal × ℤ → Type 0
IsPlaced capacity q r =
    (length r.0.items ≤ capacity)
    × (((r.2 ≡ pos (length q.items))
          × (length r.0.items ≡ length q.items + 1)
          × (r.0.change_token ≡ q.change_token + 1)
          × (r.1 ≡ queue_changed ∷ []))
        ⊎ ((r.2 ≡ negsuc 0)
            × (length q.items ≡ capacity)
            × (r.0.items ≡ q.items)
            × (r.0.change_token ≡ q.change_token)
            × (r.1 ≡ queue_limit_exceeded 1 ∷ [])))

place-IsPlaced :
    (capacity : ℕ) (t : Task) (q : Queue)
    → length q.items ≤ capacity
    → IsPlaced capacity q (place capacity t q)
unfolding place bump_change_token
place-IsPlaced capacity t q h = elim (Bool-cases (leb capacity (length q.items))) [
  | inl full ↦ rw full (h, inr (refl, ground arith, refl, refl, refl))
  | inr room ↦ rw room (
    ground (arith, length-append q.items (t ∷ [])),
    inl (refl, ground (arith, length-append q.items (t ∷ [])), refl, refl),
  )
]

-- `add_task` keeps the queue within its capacity: it appends one task, returns its index and makes a
-- new token, or the queue is full, and it changes no item and no token, and returns -1.
pub add_task-bounded :
    (uuid4 : ℕ → Text) (capacity : ℕ) (fields : List Field) (q : Queue)
    → length q.items ≤ capacity
    → IsPlaced capacity q (add_task uuid4 capacity fields q)
unfolding add_task
add_task-bounded uuid4 capacity fields q h =
    let own =
      ensure_unique_task_identity uuid4 (from_mapping (uuid4 q.drawn) fields) (seen_of q.items)
        (q.drawn + 1) in
    place-IsPlaced capacity own.task (record q { drawn = own.drawn }) h

-- With identifiers that are new to the queue and to the given tasks, `add_tasks` keeps all items
-- named: each has an identity, and no two have the same.
pub add_tasks-Named :
    (uuid4 : ℕ → Text) (supply : IsSupply uuid4) (capacity : ℕ) (tasks : List (List Field))
    (q : Queue)
    → length q.items ≤ capacity
    → Fresh uuid4 (copy_tasks uuid4 tasks q.drawn).1 (seen_of q.items)
    → Foreign uuid4 (copy_tasks uuid4 tasks q.drawn).1 (copy_tasks uuid4 tasks q.drawn).0
    → Named [] q.items
    → Named [] (add_tasks uuid4 capacity tasks q).0.items
add_tasks-Named uuid4 supply capacity tasks q h fresh foreign named =
    let (copies, n) = copy_tasks uuid4 tasks q.drawn in
    rw (items-add_tasks uuid4 capacity tasks q h) (
      Named-add q.items (named_tasks uuid4 capacity tasks q) (capacity - length q.items) named
        (identify-Named uuid4 supply copies (seen_of q.items) n fresh foreign))
