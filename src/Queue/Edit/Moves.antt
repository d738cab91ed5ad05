-- ===== src/Queue/Edit/Moves.antt =====
-- core/queue_manager.py: `move_task` on all its branches, and `restore_stale_running_tasks`.
use hyper_loader.Prelude.{
  Bool, Bool-cases, List, Option-cases, [], arith, false, get_elem?, if◌then◌else◌, inl, inr,
  length, lower, negsuc, not, opt_map, pos, refl, some, suc, text_eq, true, zero, ℕ, ℤ, ◌&&◌, ◌+◌,
  ◌<◌, ◌==◌, ◌∷◌, ◌≡◌, ◌⊎◌, Option, none,
}
use mathlib.Core.List.{Perm}
use hyper_loader.Task.{Task}
use hyper_loader.Task.Status.{value}
use hyper_loader.Queue.{Queue, Signal, queue_changed, bump_change_token, status_of}
use hyper_loader.Queue.Plan.{normalize_ids}
use hyper_loader.Queue.Edit.{
  valid_index, moved, move_task, is_stale, reset, restore_from, restore_stale_running_tasks,
}
use hyper_loader.Queue.Edit.Laws.{move_item-perm, move_item-at}

valid_index-some :
    (z : ℤ) (items : List Task) (i : ℕ)
    → valid_index z items ≡ some i
    → (z ≡ pos i) × (i < length items)
unfolding valid_index
valid_index-some (pos k) items i h = ground arith
valid_index-some (negsuc k) items i h = cc

-- what a successful move does
pub record IsMoved (from_index to_index : ℤ) (q q' : Queue) : Type 0 where
  pub from : ℕ
  pub to : ℕ
  pub from_valid : (from_index ≡ pos from) × (from < length q.items)
  pub to_valid : (to_index ≡ pos to) × (to < length q.items)
  pub placed : get_elem? q'.items to ≡ get_elem? q.items from
  pub rearranged : Perm q'.items q.items
  pub same_length : length q'.items ≡ length q.items
  pub renewed : (q'.change_token ≡ q.change_token + 1) × (q'.page_cache ≡ [])

moved-IsMoved :
    (from_index to_index : ℤ) (q : Queue) (i j : ℕ)
    → valid_index from_index q.items ≡ some i
    → valid_index to_index q.items ≡ some j
    → IsMoved from_index to_index q (moved i j q)
unfolding moved bump_change_token
moved-IsMoved from_index to_index q i j e f =
    let (from_pos, from_lt) = valid_index-some from_index q.items i e in
    let (to_pos, to_lt) = valid_index-some to_index q.items j f in
    let (placed, same) = move_item-at i j q.items from_lt to_lt in
    record {
      from = i;
      to = j;
      from_valid = (from_pos, from_lt);
      to_valid = (to_pos, to_lt);
      placed = placed;
      rearranged = move_item-perm i j q.items;
      same_length = same;
      renewed = (refl, refl);
    }

-- either outcome of a call that may be refused
abbrev pub Outcome : ℤ → ℤ → Queue → Queue × List Signal × Bool → Type 0
Outcome from_index to_index q r =
    ((r.2 ≡ true) × IsMoved from_index to_index q r.0 × (r.1 ≡ queue_changed ∷ []))
    ⊎ (r ≡ (q, [], false))

-- `move_task` either moves the item at the first index to the second, as a rearrangement of the items
-- with a new token, and says so, or it refuses and changes and emits nothing.
pub move_task-Outcome :
    (from_index to_index : ℤ) (q : Queue)
    → Outcome from_index to_index q (move_task from_index to_index q)
unfolding move_task
move_task-Outcome from_index to_index q = elim (Bool-cases (q.is_running && not q.is_paused)) [
  | inl busy ↦ inr (rw (busy, move_task))
  | inr idle ↦ elim (Option-cases (valid_index from_index q.items)) [
    | inl e ↦ inr (rw (idle, move_task, e))
    | inr (i, e) ↦ elim (Option-cases (valid_index to_index q.items)) [
      | inl f ↦ inr (rw (idle, move_task, e, f))
      | inr (j, f) ↦ elim (Bool-cases (i == j)) [
        | inl same ↦ inr (rw (idle, move_task, e, f, same))
        | inr apart ↦
            rw (idle, move_task, e, f, apart)
              (inl (refl, moved-IsMoved from_index to_index q i j e f, refl))
      ]
    ]
  ]
]

-- While the queue runs and is not paused, no item moves.
pub move_task_running :
    (from_index to_index : ℤ) (q : Queue)
    → q.is_running ≡ true
    → q.is_paused ≡ false
    → move_task from_index to_index q ≡ (q, [], false)
unfolding move_task
move_task_running from_index to_index q h k = rw (h, move_task, k)

-- what the loop writes at an index
abbrev pub restored_task : List ℕ → ℕ → Task → Task
restored_task ids idx t = if is_stale ids idx t then reset t else t

get_elem?-restore_from :
    (ids : List ℕ) (idx : ℕ) (items : List Task) (j : ℕ)
    → get_elem? (restore_from ids idx items).0 j
      ≡ opt_map (restored_task ids (idx + j)) (get_elem? items j)
unfolding restore_from
get_elem?-restore_from ids idx [] j = refl
get_elem?-restore_from ids idx (t ∷ ts) zero =
    let e : idx + 0 ≡ idx = omega arith in rw e (ground arith)
get_elem?-restore_from ids idx (t ∷ ts) (suc j) =
    let e : idx + suc j ≡ suc idx + j = omega arith in
    rw e (ground (arith, get_elem?-restore_from ids (suc idx) ts j))

reset-not_stale : (ids : List ℕ) (idx : ℕ) (t : Task) → is_stale ids idx (reset t) ≡ false
unfolding is_stale status_of value text_eq lower
reset-not_stale ids idx t = refl

restored_task-not_stale :
    (ids : List ℕ) (idx : ℕ) (t : Task) → is_stale ids idx (restored_task ids idx t) ≡ false
restored_task-not_stale ids idx t = elim (Bool-cases (is_stale ids idx t)) [
  | inl e ↦ rw e (reset-not_stale ids idx t)
  | inr e ↦ rw e e
]

items-restore :
    (ids : List ℤ) (q : Queue)
    → (restore_stale_running_tasks ids q).0.items ≡ (restore_from (normalize_ids ids) 0 q.items).0
unfolding restore_stale_running_tasks bump_change_token
items-restore ids q = ground arith

get_elem?-restore :
    (ids : List ℤ) (q : Queue) (j : ℕ)
    → get_elem? (restore_stale_running_tasks ids q).0.items j
      ≡ opt_map (restored_task (normalize_ids ids) j) (get_elem? q.items j)
get_elem?-restore ids q j =
    let e : 0 + j ≡ j = omega arith in
    rw (items-restore ids q) (rw e at (get_elem?-restore_from (normalize_ids ids) 0 q.items j))

-- whether there is a stale item at an index
abbrev pub stale_at : List ℕ → ℕ → Option Task → Bool
stale_at ids j none = false
stale_at ids j (some t) = is_stale ids j t

restored-not_stale :
    (ids : List ℕ) (j : ℕ) (o : Option Task)
    → stale_at ids j (opt_map (restored_task ids j) o) ≡ false
restored-not_stale ids j none = refl
restored-not_stale ids j (some t) = restored_task-not_stale ids j t

-- After `restore_stale_running_tasks` no item is running without a worker that owns it; each item that
-- was stale is pending with no retry time, and every other item is as it was.
pub restore_stale_lem :
    (ids : List ℤ) (q : Queue) (j : ℕ)
    → (let items = (restore_stale_running_tasks ids q).0.items in
        (get_elem? items j ≡ opt_map (restored_task (normalize_ids ids) j) (get_elem? q.items j))
        × (stale_at (normalize_ids ids) j (get_elem? items j) ≡ false))
restore_stale_lem ids q j = (
  get_elem?-restore ids q j,
  rw (get_elem?-restore ids q j) (restored-not_stale (normalize_ids ids) j (get_elem? q.items j)),
)
