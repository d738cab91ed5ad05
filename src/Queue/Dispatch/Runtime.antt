-- ===== src/Queue/Dispatch/Runtime.antt =====
-- core/queue_manager.py: the running and paused flags of the queue.
use hyper_loader.Prelude.{
  Bool, Error, List, Option, Result, [], false, inl, inr, negsuc, none, refl, some, true, ℕ, ◌∷◌,
  ◌≡◌, ◌⊎◌,
}
use hyper_loader.Queue.{Queue, bump_change_token}
use hyper_loader.Queue.Plan.{Plan}
use hyper_loader.Queue.Dispatch.{
  Dispatched, reserve, conclude, finish, commit, start_queue, stop_queue, pause_queue, resume_queue,
  set_runtime_state,
}
use hyper_loader.Task.{Task}

-- A paused queue is running, and a queue that does not run has no current item.
pub record IsConsistent (q : Queue) : Type 0 where
  pub paused_runs : (q.is_paused ≡ false) ⊎ (q.is_running ≡ true)
  pub idle_index : (q.is_running ≡ true) ⊎ (q.current_index ≡ negsuc 0)

-- the fields on which the invariant rests
abbrev SameFlags : Queue → Queue → Type 0
SameFlags q q' =
    (q'.is_running ≡ q.is_running)
    × (q'.is_paused ≡ q.is_paused)
    × (q'.current_index ≡ q.current_index)

conclude_hint :
    (f : Option Error) (q : Queue) (done : Result Dispatched) (out : List (Task × ℕ))
    → (let q' = (conclude f q done out).0 in
        (q'.items ≡ q.items)
        × ((q'.next_scheduled_at_hint ≡ none)
            ⊎ (q'.next_scheduled_at_hint ≡ q.next_scheduled_at_hint)))
unfolding conclude bump_change_token
conclude_hint (some e) q done out = (refl, inr refl)
conclude_hint none q done [] = (refl, inr refl)
conclude_hint none q done (o ∷ out) = (refl, inl refl)

pub commit_hint :
    (p : Plan) (q : Queue)
    → (let q' = (commit p q).0 in
        (q'.items ≡ (reserve p.pending_indices q.items).items)
        × ((q'.next_scheduled_at_hint ≡ none)
            ⊎ (q'.next_scheduled_at_hint ≡ q.next_scheduled_at_hint)))
unfolding commit finish
commit_hint p q =
    conclude_hint _ (record q { items = (reserve p.pending_indices q.items).items }) _ _

-- the methods that change the flags
pub data Call : Type 0 where
  start resume : ℕ → Call
  stop pause : Call
  set_state : Option Bool → Option Bool → Call

unfoldable pub call : Call → Queue → Queue
call (start now) q = (start_queue now q).0
call (resume now) q = (resume_queue now q).0
call stop q = (stop_queue q).0
call pause q = (pause_queue q).0
call (set_state running paused) q = set_runtime_state running paused q

-- The callers clear the paused flag whenever they clear the running flag.
abbrev pub IsPaired : Call → Type 0
IsPaired (set_state (some false) none) = ⊥
IsPaired _ = Unit

pub run_calls : List Call → Queue → Queue
unfolding call
run_calls [] q = q
run_calls (c ∷ cs) q = run_calls cs (call c q)
