-- ===== src/Queue/Dispatch/Handout.antt =====
-- core/queue_manager.py: the loop of `dispatch_parallel_ready_tasks` that reserves items.
use hyper_loader.Prelude.{
  Bool, List, Option, [], arith, false, get_elem?, map, none, ok, refl, some, true, ℕ, ◌∷◌, ◌≡◌,
  Error, elem, get_elem?-set, if◌then◌else◌, inl, inr, lt-length_of_get, set, ◌==◌, ◌⊎◌, All,
  Distinct, lower, one_of, All-map, ap, Bool-cases, value_error,
}
use hyper_loader.Task.{Task, read, bad}
use hyper_loader.Queue.{status_of, is_pending_status}
use hyper_loader.Task.Status.{value, running}
use hyper_loader.Queue.Dispatch.{Claim, skip, take, fail, claim, Reserved, reserve, mark_running}

unfoldable pub emitted : Reserved → List ℕ
emitted r = map (λ e. e.1) r.to_emit

-- whether a worker may still be started for the item at an index
abbrev pub is_waiting : Option Task → Bool
is_waiting none = false
is_waiting (some t) = is_pending_status (status_of t)

mark_running-running : (t t' : Task) → mark_running t ≡ ok t' → t'.status ≡ value running
unfolding mark_running
mark_running-running t t' h = ground arith

pub running-not_waiting : (t : Task) → t.status ≡ value running → is_waiting (some t) ≡ false
unfolding status_of is_pending_status value one_of lower
running-not_waiting t h = rw h

mark_running-status : (t t' : Task) → mark_running t ≡ ok t' → is_waiting (some t') ≡ false
mark_running-status t t' h = running-not_waiting t' (mark_running-running t t' h)

pub claim-take :
    (items : List Task) (idx : ℕ) (t' : Task)
    → claim items idx ≡ take t'
    → (t : Task) × (get_elem? items idx ≡ some t)
      × (is_waiting (some t) ≡ true)
      × (mark_running t ≡ ok t')
unfolding claim
claim-take items idx t' h = ground arith

pub Claim-cases :
    (c : Claim) → (c ≡ skip) ⊎ ((t : Task) × (c ≡ take t)) ⊎ ((e : Error) × (c ≡ fail e))
Claim-cases skip = inl refl
Claim-cases (take t) = inr (inl (t, refl))
Claim-cases (fail e) = inr (inr (e, refl))

-- what the loop does at its first index
module _ (idx : ℕ) (idxs : List ℕ) (items : List Task) where
  pub reserve-skip : claim items idx ≡ skip → reserve (idx ∷ idxs) items ≡ reserve idxs items
  unfolding reserve
  reserve-skip e = rw (e, reserve)

  pub reserve-take :
      (t : Task)
      → claim items idx ≡ take t
      → reserve (idx ∷ idxs) items ≡ (
          let rest = reserve idxs (set items idx t) in
          record rest { to_emit = (t, idx) ∷ rest.to_emit })
  unfolding reserve
  reserve-take t e = rw (e, reserve)

  pub reserve-fail :
      (x : Error)
      → claim items idx ≡ fail x
      → reserve (idx ∷ idxs) items ≡ record { items = items; to_emit = []; failure = some x }
  unfolding reserve
  reserve-fail x e = rw (e, reserve)

-- the written item, and the others
pub after_take :
    (items : List Task) (idx : ℕ) (t : Task)
    → claim items idx ≡ take t
    → (j : ℕ) → get_elem? (set items idx t) j ≡ (if idx == j then some t else get_elem? items j)
after_take items idx t e j =
    let (old, there, waits, marked) = claim-take items idx t e in
    get_elem?-set items idx j t (lt-length_of_get items idx old there)

-- every reserved item was waiting when the loop began
pub reserve-waiting :
    (idxs : List ℕ) (items : List Task) (j : ℕ)
    → elem j (emitted (reserve idxs items)) ≡ true
    → is_waiting (get_elem? items j) ≡ true
unfolding emitted
reserve-waiting [] items j h = unfold reserve in cc
reserve-waiting (idx ∷ idxs) items j h = elim (Claim-cases (claim items idx)) [
  | inl e ↦ reserve-waiting idxs items j (rw (reserve-skip idx idxs items e) at h)
  | inr (inl (t, e)) ↦
      let (old, there, waits, marked) = claim-take items idx t e in
      let h' = rw (reserve-take idx idxs items t e) at h in
      ground (
        arith,
        reserve-waiting idxs (set items idx t) j,
        after_take items idx t e j,
        mark_running-status old t marked,
      )
  | inr (inr (x, e)) ↦ let h' = rw (reserve-fail idx idxs items x e) at h in cc
]

not_again :
    (idx : ℕ) (idxs : List ℕ) (items : List Task) (t : Task)
    → claim items idx ≡ take t
    → elem idx (emitted (reserve idxs (set items idx t))) ≡ false
not_again idx idxs items t e =
    let (old, there, waits, marked) = claim-take items idx t e in
    ground (
      arith,
      reserve-waiting idxs (set items idx t) idx,
      after_take items idx t e idx,
      mark_running-status old t marked,
    )

-- an item is reserved once
pub reserve-Distinct : (idxs : List ℕ) (items : List Task) → Distinct (emitted (reserve idxs items))
unfolding emitted
reserve-Distinct [] items = unfold reserve in tt
reserve-Distinct (idx ∷ idxs) items = elim (Claim-cases (claim items idx)) [
  | inl e ↦ rw (reserve-skip idx idxs items e) (reserve-Distinct idxs items)
  | inr (inl (t, e)) ↦
      rw (reserve-take idx idxs items t e)
        (not_again idx idxs items t e, reserve-Distinct idxs (set items idx t))
  | inr (inr (x, e)) ↦ rw (reserve-fail idx idxs items x e) tt
]

-- what is not reserved is not written
pub reserve-frame :
    (idxs : List ℕ) (items : List Task) (j : ℕ)
    → elem j (emitted (reserve idxs items)) ≡ false
    → get_elem? (reserve idxs items).items j ≡ get_elem? items j
unfolding emitted
reserve-frame [] items j h = unfold reserve in refl
reserve-frame (idx ∷ idxs) items j h = elim (Claim-cases (claim items idx)) [
  | inl e ↦
      let h' = rw (reserve-skip idx idxs items e) at h in
      rw (reserve-skip idx idxs items e) (reserve-frame idxs items j h')
  | inr (inl (t, e)) ↦
      let h' = rw (reserve-take idx idxs items t e) at h in
      rw (reserve-take idx idxs items t e)
        (ground (arith, reserve-frame idxs (set items idx t) j, after_take items idx t e j))
  | inr (inr (x, e)) ↦ rw (reserve-fail idx idxs items x e)
]

-- how an emitted task comes from the item at its index, and that it stays there
pub record Handed (items : List Task) (final : List Task) (e : Task × ℕ) : Type 0 where
  pub item : Task
  pub found : get_elem? items e.1 ≡ some item
  pub waited : is_waiting (some item) ≡ true
  pub marked : mark_running item ≡ ok e.0
  pub kept : get_elem? final e.1 ≡ some e.0

first_Handed :
    (idx : ℕ) (idxs : List ℕ) (items : List Task) (t : Task)
    → claim items idx ≡ take t
    → Handed items (reserve idxs (set items idx t)).items (t, idx)
first_Handed idx idxs items t e =
    let (old, there, waits, marked) = claim-take items idx t e in
    record {
      item = old;
      found = there;
      waited = waits;
      marked = marked;
      kept = ground (
        arith,
        reserve-frame idxs (set items idx t) idx (not_again idx idxs items t e),
        after_take items idx t e idx,
      );
    }

rest_Handed :
    (idx : ℕ) (idxs : List ℕ) (items : List Task) (t : Task)
    → claim items idx ≡ take t
    → (x : Task × ℕ) → Handed (set items idx t) (reserve idxs (set items idx t)).items x
    → Handed items (reserve idxs (set items idx t)).items x
rest_Handed idx idxs items t e x h =
    let (old, there, waits, marked) = claim-take items idx t e in
    record {
      item = h.item;
      found = ground (
        arith,
        h.found,
        h.waited,
        after_take items idx t e x.1,
        mark_running-status old t marked,
      );
      waited = h.waited;
      marked = h.marked;
      kept = h.kept;
    }

pub reserve-Handed :
    (idxs : List ℕ) (items : List Task)
    → All (Handed items (reserve idxs items).items) (reserve idxs items).to_emit
reserve-Handed [] items = unfold reserve in tt
reserve-Handed (idx ∷ idxs) items = elim (Claim-cases (claim items idx)) [
  | inl e ↦ rw (reserve-skip idx idxs items e) (reserve-Handed idxs items)
  | inr (inl (t, e)) ↦ rw (reserve-take idx idxs items t e) (
    first_Handed idx idxs items t e,
    All-map _ (rest_Handed idx idxs items t e) (reserve-Handed idxs (set items idx t)),
  )
  | inr (inr (x, e)) ↦ rw (reserve-fail idx idxs items x e) tt
]

marked-among :
    (items final : List Task) (l : List (Task × ℕ))
    → All (Handed items final) l
    → (j : ℕ) → elem j (map (λ e. e.1) l) ≡ true
    → is_waiting (get_elem? final j) ≡ false
marked-among items final [] h j m = cc
marked-among items final (e ∷ l) h j m = elim (Bool-cases (j == e.1)) [
  | inl same ↦
      let at : j ≡ e.1 = ground arith in
      rw (at, h.0.kept) (mark_running-status h.0.item e.0 h.0.marked)
  | inr other ↦ marked-among items final l h.1 j (ground arith)
]

claim-skip :
    (items : List Task) (idx : ℕ)
    → claim items idx ≡ skip
    → is_waiting (get_elem? items idx) ≡ false
unfolding claim
claim-skip items idx h = ground arith

-- a loop that runs to its end over waiting items reserves them all, in order
pub reserve_all :
    (idxs : List ℕ) (items : List Task)
    → Distinct idxs
    → ((j : ℕ) → elem j idxs ≡ true → is_waiting (get_elem? items j) ≡ true)
    → (reserve idxs items).failure ≡ none
    → emitted (reserve idxs items) ≡ idxs
unfolding emitted
reserve_all [] items d w h = unfold reserve in refl
reserve_all (idx ∷ idxs) items d w h = elim (Claim-cases (claim items idx)) [
  | inl e ↦ absurd (ground (arith, claim-skip items idx e, w idx))
  | inr (inl (t, e)) ↦
      let h' = rw (reserve-take idx idxs items t e) at h in
      rw (reserve-take idx idxs items t e) (
        ap (◌∷◌ idx) (
          reserve_all idxs (set items idx t) d.1
            (λ j m. ground (arith, after_take items idx t e j, w j, d.0)) h'))
  | inr (inr (x, e)) ↦ let h' = rw (reserve-fail idx idxs items x e) at h in cc
]

-- what is reserved no longer waits
pub reserve-marked :
    (idxs : List ℕ) (items : List Task) (j : ℕ)
    → elem j (emitted (reserve idxs items)) ≡ true
    → is_waiting (get_elem? (reserve idxs items).items j) ≡ false
unfolding emitted
reserve-marked idxs items j h =
    marked-among items (reserve idxs items).items (reserve idxs items).to_emit
      (reserve-Handed idxs items) j h

pub claim-bad :
    (items : List Task) (idx : ℕ) (t : Task)
    → get_elem? items idx ≡ some t
    → t.scheduled_at ≡ bad
    → is_waiting (some t) ≡ true
    → claim items idx ≡ fail value_error
unfolding claim mark_running read
claim-bad items idx t there b waits = rw (there, claim, waits, b)
