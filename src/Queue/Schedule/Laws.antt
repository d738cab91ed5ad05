-- ===== src/Queue/Schedule/Laws.antt =====
-- core/queue_manager.py: when `_check_scheduled_tasks` asks for the queue to be started.
use hyper_loader.Prelude.{
  Bool, List, Option, [], arith, cons_if, false, if◌then◌else◌, none, refl, some, ℕ, ◌||◌, ◌∷◌, ◌≡◌,
  ◌≤◌, Bool-cases, inl, inr, ltb, true, ◌&&◌, ◌+◌, ◌-◌,
}
use hyper_loader.Task.{Task}
use hyper_loader.Queue.{Queue, scheduled_tasks_due}
use hyper_loader.Queue.Schedule.{
  is_due, time_of, note_time, scan_due, check_scheduled_tasks, is_hinted_after,
}
use hyper_loader.Queue.Plan.{sooner}

-- some task is due
abbrev pub any_due : ℕ → List Task → Bool
any_due now [] = false
any_due now (t ∷ ts) = is_due now t || any_due now ts

scan_due-any_due :
    (now : ℕ) (ts : List Task) (next : Option ℕ) → (scan_due now ts next).0 ≡ any_due now ts
unfolding scan_due
scan_due-any_due now [] next = refl
scan_due-any_due now (t ∷ ts) next =
    ground (arith, scan_due-any_due now ts (note_time (time_of t) next))

-- no time is noted, or the noted one is after `now`
abbrev pub is_clear : ℕ → Option ℕ → Bool
is_clear now none = true
is_clear now (some t) = ltb now t

not_due_before :
    (now later : ℕ) (t : Task) (next : Option ℕ)
    → now ≤ later
    → is_clear later (note_time (time_of t) next) ≡ true
    → (is_due later t ≡ false) × (is_due now t ≡ false) × (is_clear later next ≡ true)
unfolding is_due sooner
not_due_before now later t none h c = ground arith
not_due_before now later t (some n) h c = ground arith

scan_due-clear :
    (now later : ℕ) (ts : List Task) (next : Option ℕ)
    → now ≤ later
    → is_clear later (scan_due now ts next).1 ≡ true
    → (any_due later ts ≡ false) × (is_clear later next ≡ true)
unfolding scan_due
scan_due-clear now later [] next h c = (refl, c)
scan_due-clear now later (t ∷ ts) next h c = ground (
  arith,
  not_due_before now later t next h,
  scan_due-clear now later ts (note_time (time_of t) next) h,
)

-- What is relied on of the hint: from the time `since` on, it hides no due task.
abbrev pub SafeHint : ℕ → Queue → Type 0
SafeHint since q =
    (wait : ℕ)
    → is_hinted_after (since + wait) q.next_scheduled_at_hint && any_due (since + wait) q.items
      ≡ false

safe_at :
    (since later : ℕ) (q : Queue)
    → since ≤ later
    → SafeHint since q
    → is_hinted_after later q.next_scheduled_at_hint && any_due later q.items ≡ false
safe_at since later q le safe =
    let e : since + (later - since) ≡ later = omega arith in rw e at (safe (later - since))

hinted-clear :
    (now : ℕ) (next : Option ℕ) → is_hinted_after now next ≡ true → is_clear now next ≡ true
hinted-clear now none h = refl
hinted-clear now (some t) h = h

scan_due-safe :
    (now later : ℕ) (ts : List Task)
    → now ≤ later
    → is_hinted_after later (scan_due now ts none).1 && any_due later ts ≡ false
scan_due-safe now later ts le = elim (Bool-cases (is_hinted_after later (scan_due now ts none).1)) [
  | inl h ↦
      rw
        (h, (scan_due-clear now later ts none le (hinted-clear later (scan_due now ts none).1 h)).0)
        refl
  | inr h ↦ rw h
]

-- whether the check returns at once
abbrev is_passed : ℕ → Queue → Bool
is_passed now q = q.is_running || q.is_paused || is_hinted_after now q.next_scheduled_at_hint

check_passed : (now : ℕ) (q : Queue) → is_passed now q ≡ true → (check_scheduled_tasks now q).0 ≡ q
unfolding check_scheduled_tasks
check_passed now q h = rw h

check_scanned :
    (now : ℕ) (q : Queue)
    → is_passed now q ≡ false
    → (check_scheduled_tasks now q).0
      ≡ record q { next_scheduled_at_hint = (scan_due now q.items none).1 }
unfolding check_scheduled_tasks
check_scanned now q h = rw h

-- A check at a time at which the hint is safe leaves a hint that is safe from that time on.
pub check-SafeHint :
    (since now : ℕ) (q : Queue)
    → since ≤ now
    → SafeHint since q
    → SafeHint now (check_scheduled_tasks now q).0
check-SafeHint since now q le safe wait =
    let later : ℕ = now + wait in
    elim (Bool-cases (is_passed now q)) [
      | inl busy ↦ rw (check_passed now q busy) (safe_at since later q (omega arith) safe)
      | inr idle ↦ rw (check_scanned now q idle) (scan_due-safe now later q.items (omega arith))
    ]

-- The check asks for a start exactly when the queue is idle and some task is due.
pub check_exact :
    (since now : ℕ) (q : Queue)
    → since ≤ now
    → SafeHint since q
    → (check_scheduled_tasks now q).1 ≡ (
        if q.is_running || q.is_paused
        then []
        else cons_if (any_due now q.items) scheduled_tasks_due [])
unfolding check_scheduled_tasks
check_exact since now q le safe =
    ground (arith, scan_due-any_due now q.items none, safe_at since now q le safe)
