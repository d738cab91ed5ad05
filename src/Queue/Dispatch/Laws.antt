-- ===== src/Queue/Dispatch/Laws.antt =====
-- core/queue_manager.py: `dispatch_parallel_ready_tasks` as a whole.
use hyper_loader.Prelude.{
  Error, List, Option, Result, [], elem, false, get_elem?, none, refl, some, ℕ, ◌∷◌, ◌≡◌, ok,
  Result-cases, arith, inl, inr, Bool-cases, raise, true, value_error, ◌∙◌,
}
use hyper_loader.Task.{Task, bad}
use hyper_loader.Queue.{Queue, bump_change_token}
use hyper_loader.Queue.Plan.{Request, Plan, needs_full_snapshot}
use hyper_loader.Queue.Choose.{plan_parallel_start}
use hyper_loader.Queue.Choose.Guarantees.{planned-IsEligible, planned-bounded}
use hyper_loader.Queue.Choose.Modes.{lenient_plan, plan_parallel_start-lenient}
use hyper_loader.Queue.Dispatch.{
  reserve, conclude, finish, commit, Dispatched, dispatch_parallel_ready_tasks,
}
use hyper_loader.Queue.Dispatch.Handout.{
  emitted, is_waiting, reserve-fail, claim-bad, reserve-marked, reserve_all,
}

conclude-items :
    (f : Option Error) (q : Queue) (done : Result Dispatched) (out : List (Task × ℕ))
    → (conclude f q done out).0.items ≡ q.items
unfolding conclude bump_change_token
conclude-items (some e) q done out = refl
conclude-items none q done [] = refl
conclude-items none q done (o ∷ out) = refl

items-commit :
    (p : Plan) (q : Queue) → (commit p q).0.items ≡ (reserve p.pending_indices q.items).items
unfolding commit finish
items-commit p q = conclude-items _ _ _ _

conclude-ok :
    (f : Option Error) (q : Queue) (done : Result Dispatched) (d : Dispatched)
    (out : List (Task × ℕ))
    → (conclude f q done out).2 ≡ ok d
    → (f ≡ none) × (done ≡ ok d)
unfolding conclude
conclude-ok (some x) q done d out h = cc
conclude-ok none q done d [] h = (refl, h)
conclude-ok none q done d (o ∷ out) h = (refl, h)

commit-ok :
    (p : Plan) (q : Queue) (d : Dispatched)
    → (commit p q).2 ≡ ok d
    → ((reserve p.pending_indices q.items).failure ≡ none)
      × (d.dispatched_indices ≡ emitted (reserve p.pending_indices q.items))
      × (d.plan ≡ p)
unfolding commit finish emitted
commit-ok p q d h =
    let r = reserve p.pending_indices q.items in
    let (ran, done) = conclude-ok r.failure _ _ d r.to_emit h in (ran, ground arith, ground arith)

dispatch-planned :
    (r : Request) (q : Queue) (p : Plan)
    → plan_parallel_start r q ≡ ok p
    → dispatch_parallel_ready_tasks r q ≡ commit p q
unfolding dispatch_parallel_ready_tasks
dispatch-planned r q p e = rw (e, dispatch_parallel_ready_tasks)

dispatch-raise :
    (r : Request) (q : Queue) (x : Error)
    → plan_parallel_start r q ≡ raise x
    → dispatch_parallel_ready_tasks r q ≡ (q, [], raise x)
unfolding dispatch_parallel_ready_tasks
dispatch-raise r q x e = rw (e, dispatch_parallel_ready_tasks)

dispatch-ok :
    (r : Request) (q : Queue) (d : Dispatched)
    → (dispatch_parallel_ready_tasks r q).2 ≡ ok d
    → (plan_parallel_start r q ≡ ok d.plan)
      × (dispatch_parallel_ready_tasks r q ≡ commit d.plan q)
      × ((reserve d.plan.pending_indices q.items).failure ≡ none)
      × (d.dispatched_indices ≡ emitted (reserve d.plan.pending_indices q.items))
dispatch-ok r q d h = elim (Result-cases (plan_parallel_start r q)) [
  | inl (p, e) ↦
      let (ran, indices, same) = commit-ok p q d (rw (dispatch-planned r q p e) at h) in
      (rw same e, rw same (dispatch-planned r q p e), rw same ran, rw same indices)
  | inr (x, e) ↦ let h' = rw (dispatch-raise r q x e) at h in cc
]

-- a planned item that raises at the head of the loop
commit_malformed :
    (p : Plan) (q : Queue) (i : ℕ) (others : List ℕ) (t : Task)
    → p.pending_indices ≡ i ∷ others
    → get_elem? q.items i ≡ some t
    → t.scheduled_at ≡ bad
    → is_waiting (some t) ≡ true
    → commit p q ≡ (q, [], raise value_error)
unfolding commit finish conclude
commit_malformed p q i others t first there b waits =
    rw (first, reserve-fail i others q.items value_error (claim-bad q.items i t there b waits))

planned_waiting :
    (r : Request) (q : Queue) (p : Plan)
    → plan_parallel_start r q ≡ ok p
    → (j : ℕ) → elem j p.pending_indices ≡ true
    → is_waiting (get_elem? q.items j) ≡ true
planned_waiting r q p planned j h =
    let (t, there, eligible) = planned-IsEligible r q p planned j h in rw there eligible.waiting

-- A dispatch that does not raise hands out exactly the planned items, in the order of the plan.
pub dispatched_all :
    (r : Request) (q : Queue) (d : Dispatched)
    → (dispatch_parallel_ready_tasks r q).2 ≡ ok d
    → (plan_parallel_start r q ≡ ok d.plan) × (d.dispatched_indices ≡ d.plan.pending_indices)
dispatched_all r q d h =
    let (planned, same, ran, indices) = dispatch-ok r q d h in
    (
      planned,
      indices
          ∙ reserve_all d.plan.pending_indices q.items (planned-bounded r q d.plan planned).0
              (planned_waiting r q d.plan planned) ran,
    )

-- An item that a dispatch handed to a worker is in no plan made of the state after it, whatever is
-- asked for.
pub no_double_dispatch :
    (r r' : Request) (q : Queue) (d : Dispatched) (p' : Plan) (i : ℕ)
    → (dispatch_parallel_ready_tasks r q).2 ≡ ok d
    → plan_parallel_start r' (dispatch_parallel_ready_tasks r q).0 ≡ ok p'
    → elem i d.dispatched_indices ≡ true
    → elem i p'.pending_indices ≡ false
no_double_dispatch r r' q d p' i h later out = elim (Bool-cases (elem i p'.pending_indices)) [
  | inl again ↦
      let (planned, same, ran, indices) = dispatch-ok r q d h in
      let waits = planned_waiting r' (dispatch_parallel_ready_tasks r q).0 p' later i again in
      let marked = reserve-marked d.plan.pending_indices q.items i (rw indices at out) in
      let stored : is_waiting (get_elem? (dispatch_parallel_ready_tasks r q).0.items i) ≡ false =
        rw (same, items-commit) marked in
      cc
  | inr fresh ↦ fresh
]

-- With no full snapshot, if the scheduled time of the first planned item is not a number, the dispatch
-- raises, emits nothing and changes nothing.
pub dispatch_malformed :
    (r : Request) (q : Queue) (i : ℕ) (others : List ℕ) (t : Task)
    → needs_full_snapshot r ≡ false
    → (lenient_plan r q).pending_indices ≡ i ∷ others
    → get_elem? q.items i ≡ some t
    → t.scheduled_at ≡ bad
    → dispatch_parallel_ready_tasks r q ≡ (q, [], raise value_error)
dispatch_malformed r q i others t light first there b =
    let p = lenient_plan r q in
    let planned = plan_parallel_start-lenient r q light in
    let listed : elem i p.pending_indices ≡ true = rw first (ground arith) in
    let waits : is_waiting (some t) ≡ true = rw there at (planned_waiting r q p planned i listed) in
    dispatch-planned r q p planned ∙ commit_malformed p q i others t first there b waits
