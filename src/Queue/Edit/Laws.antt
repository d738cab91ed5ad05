-- ===== src/Queue/Edit/Laws.antt =====
-- core/queue_manager.py: what the edits of the queue do on every branch.
use hyper_loader.Prelude.{
  List, Option, Text, [], arith, erase_at, get_elem?, if◌then◌else◌, inl, inr, insert_at, length,
  none, opt_map, refl, some, suc, zero, ℕ, ℤ, ◌+◌, ◌<◌, ◌==◌, ◌∷◌, ◌≡◌, Option-cases, ◌≤◌, Bool,
  cons_if, false, true,
}
use mathlib.Core.List.{Perm}
use mathlib.Core.List.Perm
use hyper_loader.Task.{Task}
use hyper_loader.Queue.{Queue, queue_changed, bump_change_token}
use hyper_loader.Queue.Edit.{modify, set_task_status, move_item, opt_index, valid_index}

get_elem?-modify :
    (i : ℕ) (f : Task → Task) (items : List Task) (j : ℕ)
    → get_elem? (modify i f items) j
      ≡ (if i == j then opt_map f (get_elem? items j) else get_elem? items j)
unfolding modify
get_elem?-modify i f [] j = ground arith
get_elem?-modify zero f (t ∷ ts) zero = refl
get_elem?-modify zero f (t ∷ ts) (suc j) = ground arith
get_elem?-modify (suc i) f (t ∷ ts) zero = ground arith
get_elem?-modify (suc i) f (t ∷ ts) (suc j) = ground (arith, get_elem?-modify i f ts j)

abbrev pub with_status : Text → Task → Task
with_status status t = record t { status = status }

-- whether the edited index is `j`
abbrev pub hits : Option ℕ → ℕ → Bool
hits none j = false
hits (some i) j = i == j

-- whether an item is edited
abbrev pub is_edit : Option ℕ → Bool
is_edit none = false
is_edit (some i) = true

-- `set_task_status` writes the status of the item at an index that its guard accepts and of no other
-- item, and exactly then makes a new token and emits one signal.
pub set_task_status_lem :
    (index : Option ℤ) (status : Text) (q : Queue) (j : ℕ)
    → (let at = opt_index index q.items in
        (get_elem? (set_task_status index status q).0.items j ≡ (
          if hits at j
          then opt_map (with_status status) (get_elem? q.items j)
          else get_elem? q.items j))
        × ((set_task_status index status q).0.change_token
            ≡ (if is_edit at then q.change_token + 1 else q.change_token))
        × ((set_task_status index status q).1 ≡ cons_if (is_edit at) queue_changed []))
unfolding set_task_status bump_change_token
set_task_status_lem none status q j = (refl, refl, refl)
set_task_status_lem (some index) status q j = elim (Option-cases (valid_index index q.items)) [
  | inl e ↦ rw (e, set_task_status) (refl, refl, refl)
  | inr (i, e) ↦
      rw (e, set_task_status) (get_elem?-modify i (with_status status) q.items j, refl, refl)
]

-- moving
insert_at-perm : (i : ℕ) (t : Task) (ts : List Task) → Perm (insert_at i t ts) (t ∷ ts)
insert_at-perm zero t ts = Perm.refl (t ∷ ts)
insert_at-perm (suc i) t [] = Perm.refl (t ∷ [])
insert_at-perm (suc i) t (x ∷ ts) =
    Perm.trans (Perm.cons x (insert_at-perm i t ts)) (Perm.swap t x ts)

erase_at-perm :
    (i : ℕ) (t : Task) (ts : List Task) → get_elem? ts i ≡ some t → Perm (t ∷ erase_at i ts) ts
erase_at-perm i t [] h = absurd (ground arith)
erase_at-perm zero t (x ∷ ts) h = let same : x ≡ t = ground arith in rw same (Perm.refl (t ∷ ts))
erase_at-perm (suc i) t (x ∷ ts) h =
    Perm.trans (Perm.swap x t (erase_at i ts)) (Perm.cons x (erase_at-perm i t ts h))

pub move_item-perm : (from to : ℕ) (items : List Task) → Perm (move_item from to items) items
unfolding move_item
move_item-perm from to items = elim (Option-cases (get_elem? items from)) [
  | inl e ↦ rw (e, move_item) (Perm.refl items)
  | inr (t, e) ↦
      rw (e, move_item)
        (Perm.trans (insert_at-perm to t (erase_at from items)) (erase_at-perm from t items e))
]

length-erase_at : (i : ℕ) (ts : List Task) → i < length ts → length (erase_at i ts) + 1 ≡ length ts
length-erase_at i [] h = absurd (omega arith)
length-erase_at zero (t ∷ ts) h = omega arith
length-erase_at (suc i) (t ∷ ts) h = omega (arith, length-erase_at i ts (omega arith))

get_elem?-insert_at_self :
    (i : ℕ) (t : Task) (ts : List Task) → i ≤ length ts → get_elem? (insert_at i t ts) i ≡ some t
get_elem?-insert_at_self zero t ts h = refl
get_elem?-insert_at_self (suc i) t [] h = absurd (omega arith)
get_elem?-insert_at_self (suc i) t (x ∷ ts) h = get_elem?-insert_at_self i t ts (omega arith)

length-insert_at : (i : ℕ) (t : Task) (ts : List Task) → length (insert_at i t ts) ≡ length ts + 1
length-insert_at zero t ts = omega arith
length-insert_at (suc i) t [] = omega arith
length-insert_at (suc i) t (x ∷ ts) = omega (arith, length-insert_at i t ts)

some_of_lt : (ts : List Task) (i : ℕ) → i < length ts → get_elem? ts i ≡ none → ⊥
some_of_lt [] i h e = absurd (omega arith)
some_of_lt (t ∷ ts) zero h e = cc
some_of_lt (t ∷ ts) (suc i) h e = some_of_lt ts i (omega arith) e

pub move_item-at :
    (from to : ℕ) (items : List Task)
    → from < length items
    → to < length items
    → (get_elem? (move_item from to items) to ≡ get_elem? items from)
      × (length (move_item from to items) ≡ length items)
unfolding move_item
move_item-at from to items h k = elim (Option-cases (get_elem? items from)) [
  | inl e ↦ absurd (some_of_lt items from h e)
  | inr (t, e) ↦
      let n = length-erase_at from items h in
      rw (e, move_item)
        (
          get_elem?-insert_at_self to t (erase_at from items) (omega arith),
          omega (arith, length-insert_at to t (erase_at from items)),
        )
]
