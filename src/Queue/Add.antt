-- ===== src/Queue/Add.antt =====
-- core/queue_manager.py: `add_task` and `add_tasks`, with the identities of the added tasks.
-- `uuid4 n` is the text of the n-th identifier drawn; `capacity` is `MAX_QUEUE_SIZE`.
pub mod Identity
pub mod Laws
use hyper_loader.Prelude.{
  Bool, List, Text, [], cons_if, false, if◌then◌else◌, leb, length, ltb, max, min, negsuc, not,
  one_of, pos, strip, take, true, ℕ, ℤ, ◌++◌, ◌+◌, ◌-◌, ◌||◌, ◌∷◌,
}
use hyper_loader.Task.{Task, Field, from_mapping}
use hyper_loader.Queue.{Queue, Signal, queue_changed, queue_limit_exceeded, bump_change_token}

-- `MAX_QUEUE_SIZE`, from the number that the environment gives
unfoldable pub max_queue_size : ℕ → ℕ
max_queue_size env = max 1000 (min 1000000 env)

-- `str(task.get("task_uuid", "") or "").strip()`
unfoldable pub identity : Task → Text
unfolding strip
identity t = strip t.task_uuid

abbrev pub is_blank : Text → Bool
is_blank [] = true
is_blank (c ∷ s) = false

-- `seen_task_uuids` of the items
unfoldable pub seen_of : List Task → List Text
unfolding identity
seen_of [] = []
seen_of (t ∷ ts) = cons_if (not (is_blank (identity t))) (identity t) (seen_of ts)

-- a task, the identities seen, and the number of identifiers drawn
pub record Identified : Type 0 where
  pub task : Task
  pub seen : List Text
  pub drawn : ℕ

-- `tasks_copies[:available]`: a negative bound counts from the end
unfoldable pub accepted_of : ℕ → List Task → ℕ → List Task
accepted_of capacity copies count =
    if leb count capacity
    then take (capacity - count) copies
    else take (length copies - (count - capacity)) copies

-- `self.items.extend(accepted)`, and the new token if something was accepted
unfoldable pub extend : List Task → Queue → Queue
unfolding bump_change_token
extend [] q = q
extend (t ∷ ts) q = bump_change_token (record q { items = q.items ++ t ∷ ts })

-- the test of the capacity in `add_task`, and what follows it
unfoldable pub place : ℕ → Task → Queue → Queue × List Signal × ℤ
unfolding bump_change_token
place capacity t q =
    if leb capacity (length q.items) then (q, queue_limit_exceeded 1 ∷ [], negsuc 0) else (
      bump_change_token (record q { items = q.items ++ t ∷ [] }),
      queue_changed ∷ [],
      pos (length q.items),
    )

module _ (uuid4 : ℕ → Text) where
  -- the task's new identifier
  abbrev redraw : Task → ℕ → Task
  redraw t n = record t { task_uuid = uuid4 n }

  -- `_ensure_task_identity`
  unfoldable pub ensure_task_identity : Task → ℕ → Task × ℕ
  unfolding identity
  ensure_task_identity t n = if is_blank (identity t) then (redraw t n, n + 1) else (t, n)

  -- `_ensure_unique_task_identity`, with a set given
  unfoldable pub ensure_unique_task_identity : Task → List Text → ℕ → Identified
  unfolding ensure_task_identity one_of
  ensure_unique_task_identity t seen n =
      let (t', n') = ensure_task_identity t n in
      let own = identity t' in
      if is_blank own || one_of own seen
      then record { task = redraw t' n'; seen = uuid4 n' ∷ seen; drawn = n' + 1 }
      else record { task = t'; seen = own ∷ seen; drawn = n' }

  -- `[DownloadTask.from_mapping(t) for t in tasks]`
  unfoldable pub copy_tasks : List (List Field) → ℕ → List Task × ℕ
  unfolding from_mapping
  copy_tasks [] n = ([], n)
  copy_tasks (fields ∷ rest) n =
      let (copies, n') = copy_tasks rest (n + 1) in (from_mapping (uuid4 n) fields ∷ copies, n')

  -- the loop that makes the identities unique
  unfoldable pub identify : List Task → List Text → ℕ → List Task × ℕ
  unfolding ensure_unique_task_identity
  identify [] seen n = ([], n)
  identify (t ∷ ts) seen n =
      let first = ensure_unique_task_identity t seen n in
      let (rest, n') = identify ts first.seen first.drawn in (first.task ∷ rest, n')

  module _ (capacity : ℕ) where
    unfoldable pub add_task : List Field → Queue → Queue × List Signal × ℤ
    unfolding from_mapping ensure_unique_task_identity seen_of place
    add_task fields q =
        let made = from_mapping (uuid4 q.drawn) fields in
        let own = ensure_unique_task_identity made (seen_of q.items) (q.drawn + 1) in
        place capacity own.task (record q { drawn = own.drawn })

    unfoldable pub add_tasks : List (List Field) → Queue → Queue × List Signal
    unfolding copy_tasks identify seen_of accepted_of extend
    add_tasks tasks q =
        let (copies, n) = copy_tasks tasks q.drawn in
        let (named, n') = identify copies (seen_of q.items) n in
        let accepted = accepted_of capacity named (length q.items) in
        let rejected = length named - length accepted in
        (
          extend accepted (record q { drawn = n' }),
          cons_if (ltb 0 rejected) (queue_limit_exceeded rejected) (queue_changed ∷ []),
        )
