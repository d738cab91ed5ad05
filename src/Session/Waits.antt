-- ===== src/Session/Waits.antt =====
-- core/session_service.py: that a requested save is made.
use hyper_loader.Prelude.{
  List, All, Bool, Bool-cases, Option, Option-cases, false, inl, inr, none, not, refl, some, sym,
  true, ℕ, ◌+◌, ◌≡◌, ◌≤◌, ap, arith, leb, ltb, max, [], ◌&&◌, ◌++◌, ◌-◌, ◌∙◌, ◌∷◌, ◌||◌,
  if◌then◌else◌,
}
use mathlib.Core.Path.{subst}
use hyper_loader.Session.{
  TimerCall, stop_timer, start_timer, Timing, save_debounce_ms, save_max_deferral_ms, fresh_timing,
  first_or, timer_is_active, calls_for, request_save, save_now, run_first,
  flush_pending_save_request, fire_at, Event, wait, request, sync_save, main_thread, fire, step,
  run,
}

-- whether the timer is active once the queued calls have run
abbrev active_after : List TimerCall → Bool → Bool
active_after [] b = b
active_after (stop_timer ∷ cs) b = active_after cs false
active_after (start_timer delay ∷ cs) b = active_after cs true

-- no stop of the timer is queued
abbrev pub is_unstopped : List TimerCall → Bool
is_unstopped [] = true
is_unstopped (stop_timer ∷ cs) = false
is_unstopped (start_timer delay ∷ cs) = is_unstopped cs

-- a request does not find the timer active with its stop still queued
abbrev pub is_timely_at : Event → Timing → Bool
is_timely_at request s = not (timer_is_active s.deadline) || is_unstopped s.queued
is_timely_at e s = true

abbrev pub is_timely : List Event → Timing → Bool
is_timely [] s = true
is_timely (e ∷ es) s = is_timely_at e s && is_timely es (step e s)

-- a start of at most the short delay
abbrev IsShort : TimerCall → Type 0
IsShort stop_timer = Unit
IsShort (start_timer delay) = delay ≤ 180

-- a requested save will have an active timer, and no delay is longer than the short one
record IsCovered (s : Timing) : Type 0 where
  will_be_active :
      s.save_requested ≡ true → active_after s.queued (timer_is_active s.deadline) ≡ true
  is_near : (d : ℕ) → s.deadline ≡ some d → d ≤ s.now + 180
  short : All IsShort s.queued

active_after-start :
    (cs : List TimerCall) (delay : ℕ) (b : Bool)
    → active_after (cs ++ start_timer delay ∷ []) b ≡ true
active_after-start [] delay b = refl
active_after-start (stop_timer ∷ cs) delay b = active_after-start cs delay false
active_after-start (start_timer d ∷ cs) delay b = active_after-start cs delay true

active_after-unstopped :
    (cs : List TimerCall) → is_unstopped cs ≡ true → active_after (cs ++ []) true ≡ true
active_after-unstopped [] h = refl
active_after-unstopped (stop_timer ∷ cs) h = cc
active_after-unstopped (start_timer d ∷ cs) h = active_after-unstopped cs h

IsShort-append : (cs ds : List TimerCall) → All IsShort cs → All IsShort ds → All IsShort (cs ++ ds)
IsShort-append [] ds h k = k
IsShort-append (c ∷ cs) ds (h, rest) k = (h, IsShort-append cs ds rest k)

calls_for-IsShort : (now first : ℕ) (b : Bool) → All IsShort (calls_for now first b)
calls_for-IsShort now first true =
    elim (Bool-cases (ltb (now - first) (max save_debounce_ms save_max_deferral_ms))) [
      | inl early ↦ rw early tt
      | inr late ↦ rw late (omega arith, tt)
    ]
calls_for-IsShort now first false = (omega arith, tt)

calls_for-active :
    (cs : List TimerCall) (now first : ℕ) (b : Bool)
    → (not b || is_unstopped cs) ≡ true
    → active_after (cs ++ calls_for now first b) b ≡ true
calls_for-active cs now first true timely =
    elim (Bool-cases (ltb (now - first) (max save_debounce_ms save_max_deferral_ms))) [
      | inl early ↦ rw early (active_after-unstopped cs timely)
      | inr late ↦ rw late (active_after-start cs 0 true)
    ]
calls_for-active cs now first false timely = active_after-start cs 180 false

run_first-IsCovered :
    (cs : List TimerCall) (s : Timing) → s.queued ≡ cs → IsCovered s → IsCovered (run_first cs s)
run_first-IsCovered [] s is_cs h = h
run_first-IsCovered (stop_timer ∷ cs) s is_cs h = record {
  will_be_active = λ asked.
      sym (ap (λ q. active_after q (timer_is_active s.deadline)) is_cs) ∙ h.will_be_active asked;
  is_near = λ d is_d. cc;
  short = (subst (All IsShort) is_cs h.short).1;
}
run_first-IsCovered (start_timer delay ∷ cs) s is_cs h =
    let (near, rest) = subst (All IsShort) is_cs h.short in
    record {
      will_be_active = λ asked.
          sym (ap (λ q. active_after q (timer_is_active s.deadline)) is_cs)
          ∙ h.will_be_active asked;
      is_near = λ d is_d. let e : s.now + delay ≡ d = cc in omega (arith, e, near);
      short = rest;
    }

fire-IsCovered :
    (o : Option ℕ) (s : Timing) → s.deadline ≡ o → IsCovered s → IsCovered (fire_at o s)
unfolding flush_pending_save_request
fire-IsCovered none s idle h = h
fire-IsCovered (some d) s is_d h = elim (Bool-cases (leb d s.now)) [
  | inr early ↦ rw early h
  | inl due ↦ elim (Bool-cases s.save_requested) [
    | inl asked ↦
        rw (due, asked)
          (record { will_be_active = λ again. cc; is_near = λ e is_e. cc; short = h.short })
    | inr unasked ↦
        rw (due, unasked)
          (record { will_be_active = λ again. cc; is_near = λ e is_e. cc; short = h.short })
  ]
]

step-IsCovered :
    (e : Event) (s : Timing) → is_timely_at e s ≡ true → IsCovered s → IsCovered (step e s)
unfolding step request_save save_now
step-IsCovered (wait n) s timely h = record {
  will_be_active = h.will_be_active;
  is_near = λ d is_d. let near = h.is_near d is_d in omega (arith, near);
  short = h.short;
}
step-IsCovered request s timely h = record {
  will_be_active = λ asked.
      calls_for-active s.queued s.now (first_or s.save_first_request_ts s.now)
        (timer_is_active s.deadline) timely;
  is_near = h.is_near;
  short =
      IsShort-append s.queued _ h.short (calls_for-IsShort s.now _ (timer_is_active s.deadline));
}
step-IsCovered sync_save s timely h = record {
  will_be_active = λ asked. cc;
  is_near = h.is_near;
  short = IsShort-append s.queued (stop_timer ∷ []) h.short (tt, tt);
}
step-IsCovered main_thread s timely h = run_first-IsCovered s.queued s refl h
step-IsCovered fire s timely h = fire-IsCovered s.deadline s refl h

run-IsCovered :
    (es : List Event) (s : Timing) → is_timely es s ≡ true → IsCovered s → IsCovered (run es s)
unfolding run
run-IsCovered [] s timely h = h
run-IsCovered (e ∷ es) s timely h =
    run-IsCovered es (step e s) (ground (arith, timely))
      (step-IsCovered e s (ground (arith, timely)) h)

-- the main thread runs all queued calls
abbrev pub drained : List TimerCall → Timing → Timing
drained [] s = s
drained (c ∷ cs) s = drained cs (step main_thread s)

queued_first :
    (c : TimerCall) (cs : List TimerCall) (s : Timing) → (run_first (c ∷ cs) s).queued ≡ cs
queued_first stop_timer cs s = refl
queued_first (start_timer delay) cs s = refl

drained-IsCovered :
    (cs : List TimerCall) (s : Timing)
    → s.queued ≡ cs
    → IsCovered s
    → IsCovered (drained cs s) × ((drained cs s).queued ≡ [])
unfolding step
drained-IsCovered [] s is_cs h = (h, is_cs)
drained-IsCovered (c ∷ cs) s is_cs h =
    drained-IsCovered cs (step main_thread s)
      (ap (λ q. (run_first q s).queued) is_cs ∙ queued_first c cs s)
      (run_first-IsCovered s.queued s refl h)

run_first-same :
    (cs : List TimerCall) (s : Timing)
    → ((run_first cs s).save_requested ≡ s.save_requested)
      × ((run_first cs s).handed_over ≡ s.handed_over)
run_first-same [] s = (refl, refl)
run_first-same (stop_timer ∷ cs) s = (refl, refl)
run_first-same (start_timer delay ∷ cs) s = (refl, refl)

drained-same :
    (cs : List TimerCall) (s : Timing)
    → ((drained cs s).save_requested ≡ s.save_requested)
      × ((drained cs s).handed_over ≡ s.handed_over)
unfolding step
drained-same [] s = (refl, refl)
drained-same (c ∷ cs) s =
    let (asked, handed) = drained-same cs (step main_thread s) in
    let (asked', handed') = run_first-same s.queued s in (asked ∙ asked', handed ∙ handed')

-- one payload is handed over if a save was requested, and none is requested any more
abbrev pub HandedOver : Timing → Timing → Type 0
HandedOver s after =
    (after.save_requested ≡ false)
    × (after.handed_over ≡ s.handed_over + (if s.save_requested then 1 else 0))

flushed : (s : Timing) → IsCovered s → s.queued ≡ [] → HandedOver s (step fire (step (wait 180) s))
unfolding step flush_pending_save_request
flushed s h empty = elim (Option-cases s.deadline) [
  | inl idle ↦ elim (Bool-cases s.save_requested) [
    | inr unasked ↦ rw (idle, unasked) (refl, omega arith)
    | inl asked ↦
        let active =
          sym (ap (λ q. active_after q (timer_is_active s.deadline)) empty)
          ∙ h.will_be_active asked in
        let contra : false ≡ true = sym (ap timer_is_active idle) ∙ active in cc
  ]
  | inr (d, is_d) ↦
      let near = h.is_near d is_d in
      let due : leb d (s.now + 180) ≡ true = ground (arith, near) in
      elim (Bool-cases s.save_requested) [
        | inl asked ↦ rw (is_d, due, asked) (refl, refl)
        | inr unasked ↦ rw (is_d, due, unasked) (refl, omega arith)
      ]
]

-- Where no request finds the timer active with its stop still queued, no requested save is lost: after
-- any such sequence of requests, saves made at once, queued calls, firings and waits, once the main
-- thread has run the queued calls and 180 ms have passed, the timer hands one payload to the thread that
-- writes exactly if a save was requested, and none is requested any more.
pub run-flushed :
    (es : List Event) (now : ℕ)
    → is_timely es (fresh_timing now) ≡ true
    → (let s = run es (fresh_timing now) in
        HandedOver s (step fire (step (wait 180) (drained s.queued s))))
run-flushed es now timely =
    let s = run es (fresh_timing now) in
    let fresh : IsCovered (fresh_timing now) = record {
      will_be_active = λ asked. cc;
      is_near = λ d is_d. cc;
      short = tt;
    } in
    let (covered, empty) =
      drained-IsCovered s.queued s refl (run-IsCovered es (fresh_timing now) timely fresh) in
    let (asked, handed) = drained-same s.queued s in
    let (done, count) = flushed (drained s.queued s) covered empty in
    (
      done,
      count
          ∙ ap (λ n. n + (if (drained s.queued s).save_requested then 1 else 0)) handed
          ∙ ap (λ (b : Bool). s.handed_over + (if b then 1 else 0)) asked,
    )
