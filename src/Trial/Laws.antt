-- ===== src/Trial/Laws.antt =====
-- core/trial_manager.py: a trial is never longer than configured, and no clock or setting extends it.
use hyper_loader.Prelude.{
  ℕ, Bool, Option, arith, negsuc, none, pos, some, ℤ, ◌≡◌, ◌≤◌, Bool-cases, false, inl, inr, ltb,
  max, refl, true, ap, ◌-◌, ◌∙◌,
}
use hyper_loader.Trial.{
  TrialManager, canonical_dt, date, coerce_total_days, ordered, read_shadow_state,
  write_shadow_state, start_of, effective_now, start_and_now, resolve_state,
}

date-canonical_dt : (t : ℕ) → date (canonical_dt t) ≡ date t
unfolding date canonical_dt
date-canonical_dt t = omega arith

canonical_dt-le : (t : ℕ) → canonical_dt t ≤ t
unfolding canonical_dt
canonical_dt-le t = omega arith

date_mono : (s t : ℕ) → s ≤ t → date s ≤ date t
unfolding date
date_mono s t h = omega arith

canonical_dt_mono : (s t : ℕ) → s ≤ t → canonical_dt s ≤ canonical_dt t
unfolding canonical_dt
canonical_dt_mono s t h = omega arith

canonical_dt_twice : (t : ℕ) → canonical_dt (canonical_dt t) ≡ canonical_dt t
unfolding canonical_dt
canonical_dt_twice t = omega arith

coerce_total_days-le :
    (total : ℕ) (days : Option ℤ)
    → 1 ≤ total
    → (coerce_total_days total days ≤ total) × (1 ≤ coerce_total_days total days)
unfolding coerce_total_days
coerce_total_days-le total none h = (omega arith, omega arith)
coerce_total_days-le total (some (pos n)) h = (omega arith, omega arith)
coerce_total_days-le total (some (negsuc n)) h = (omega arith, omega arith)

-- Whatever is given and whatever the file holds, the days that are left are at most the total of the
-- state, which is at most the configured total and at least one day.
pub resolve_state_bounded :
    (written : Bool) (now : ℕ) (given : Option ℕ) (days : Option ℤ) (m : TrialManager)
    → 1 ≤ m.total_days
    → (let s = (resolve_state written now given days m).1 in
        (s.days_remaining ≤ s.total_days) × (s.total_days ≤ m.total_days) × (1 ≤ s.total_days))
unfolding resolve_state
resolve_state_bounded written now given days m h =
    let (le, pos_days) = coerce_total_days-le m.total_days days h in
    elim (Bool-cases m.enabled) [
      | inl e ↦ rw (e, resolve_state) (omega arith, le, pos_days)
      | inr e ↦ rw (e, resolve_state) (omega arith, le, pos_days)
    ]

start_and_now-le :
    (given : Option ℕ) (shadow : Option (ℕ × ℕ)) (now : ℕ)
    → (start_and_now given shadow now).0 ≤ (start_and_now given shadow now).1
unfolding start_and_now
start_and_now-le given shadow now =
    elim (Bool-cases (ltb (effective_now shadow now) (start_of given shadow now))) [
      | inl e ↦ rw e (omega arith)
      | inr e ↦ rw e (ground arith)
    ]

start_and_now-shadow :
    (given : Option ℕ) (s n now : ℕ)
    → s ≤ n
    → ((start_and_now given (some (s, n)) now).0 ≤ s)
      × (n ≤ (start_and_now given (some (s, n)) now).1)
unfolding start_and_now start_of effective_now
start_and_now-shadow none s n now h = ground arith
start_and_now-shadow (some given) s n now h = ground arith

ordered-canonical_dt :
    (s n : ℕ) → s ≤ n → ordered (canonical_dt s) (canonical_dt n) ≡ (canonical_dt s, canonical_dt n)
unfolding ordered
ordered-canonical_dt s n h =
    let le = canonical_dt_mono s n h in
    let kept : ltb (canonical_dt n) (canonical_dt s) ≡ false = ground arith in
    rw (kept, canonical_dt_twice s, canonical_dt_twice n) refl

-- what is read after a write that succeeds
read_after_write :
    (s n : ℕ) (m : TrialManager)
    → s ≤ n
    → read_shadow_state (write_shadow_state true (canonical_dt s) (canonical_dt (max n s)) m).shadow
      ≡ some (canonical_dt s, canonical_dt n)
unfolding read_shadow_state write_shadow_state
read_after_write s n m h =
    let e : max n s ≡ n = omega arith in
    let kept = ordered-canonical_dt s n h in
    let stored : (write_shadow_state true (canonical_dt s) (canonical_dt (max n s)) m).shadow
        ≡ some (canonical_dt s, canonical_dt n) =
      ap some (ap (λ (k : ℕ). ordered (canonical_dt s) (canonical_dt k)) e ∙ kept) in
    ap read_shadow_state stored ∙ ap some kept

module _ (given : Option ℕ) (now : ℕ) (m : TrialManager) where
  -- the start and the time of the call
  abbrev times : ℕ × ℕ
  times = start_and_now given (read_shadow_state m.shadow) now

  days_remaining-enabled :
      (written : Bool) (days : Option ℤ)
      → m.enabled ≡ true
      → (resolve_state written now given days m).1.days_remaining
        ≡ coerce_total_days m.total_days days - (date times.1 - date times.0)
  unfolding resolve_state
  days_remaining-enabled written days on = rw (on, resolve_state) refl

  manager-enabled :
      (written : Bool) (days : Option ℤ)
      → m.enabled ≡ true
      → (resolve_state written now given days m).0
        ≡ write_shadow_state written (canonical_dt times.0) (canonical_dt (max times.1 times.0)) m
  unfolding resolve_state
  manager-enabled written days on = rw (on, resolve_state) refl

-- After a call whose file was written, the next call with the same total has no more days left,
-- whatever the clock says and whatever start is given.
pub resolve_state_decreasing :
    (written : Bool) (now later : ℕ) (given given' : Option ℕ) (days : Option ℤ) (m : TrialManager)
    → m.enabled ≡ true
    → (let first = resolve_state true now given days m in
        (resolve_state written later given' days first.0).1.days_remaining ≤ first.1.days_remaining)
unfolding write_shadow_state
resolve_state_decreasing written now later given given' days m on =
    let (s, n) = start_and_now given (read_shadow_state m.shadow) now in
    let le = start_and_now-le given (read_shadow_state m.shadow) now in
    let m' = write_shadow_state true (canonical_dt s) (canonical_dt (max n s)) m in
    let (start, end) = start_and_now given' (some (canonical_dt s, canonical_dt n)) later in
    let (earlier, after) =
      start_and_now-shadow given' (canonical_dt s) (canonical_dt n) later
        (canonical_dt_mono s n le) in
    let second : (resolve_state written later given' days m').1.days_remaining
        ≡ coerce_total_days m.total_days days - (date end - date start) =
      rw (read_after_write s n m le) at (days_remaining-enabled given' later m' written days on) in
    let first = days_remaining-enabled given now m true days on in
    let stored = manager-enabled given now m true days on in
    rw (stored, second, first)
      (omega (
        arith,
        date_mono start (canonical_dt s) earlier,
        date_mono (canonical_dt n) end after,
        date-canonical_dt s,
        date-canonical_dt n,
      ))
