-- ===== src/Retry/Sleeps.antt =====
-- core/retry_utils.py: `_sleep_with_abort`, and the counts of calls and of waits in a run.
use hyper_loader.Prelude.{
  Bool, Bool-cases, List, Option, [], arith, inl, inr, min, none, refl, some, suc, true, zero, ℕ,
  ◌++◌, ◌+◌, ◌-◌, ◌==◌, ◌∷◌, ◌≡◌, ◌≤◌, ◌⊎◌,
}
use hyper_loader.Retry.{Event, called, slept, sleep_loop, sleep_with_abort, quantum_of}

abbrev pub calls : List Event → ℕ
calls [] = 0
calls (called i total ∷ es) = calls es + 1
calls (slept n ∷ es) = calls es

abbrev pub time_slept : List Event → ℕ
time_slept [] = 0
time_slept (called i total ∷ es) = time_slept es
time_slept (slept n ∷ es) = n + time_slept es

abbrev pub sum : List ℕ → ℕ
sum [] = 0
sum (n ∷ ns) = n + sum ns

pub calls-append : (es fs : List Event) → calls (es ++ fs) ≡ calls es + calls fs
calls-append [] fs = omega arith
calls-append (called i total ∷ es) fs = omega (arith, calls-append es fs)
calls-append (slept n ∷ es) fs = calls-append es fs

pub time_slept-append : (es fs : List Event) → time_slept (es ++ fs) ≡ time_slept es + time_slept fs
time_slept-append [] fs = omega arith
time_slept-append (called i total ∷ es) fs = time_slept-append es fs
time_slept-append (slept n ∷ es) fs = omega (arith, time_slept-append es fs)

-- A sleep that can be aborted waits in steps that never sum up to more than the wait, and exactly to
-- the wait if it is not aborted.
pub sleep_loop_lem :
    (abort : ℕ → Bool) (quantum fuel remaining p : ℕ)
    → 1 ≤ quantum
    → remaining ≤ fuel
    → (let run = sleep_loop abort quantum fuel remaining p in
        (calls run.events ≡ 0)
        × (time_slept run.events ≤ remaining)
        × ((run.result ≡ true) ⊎ (time_slept run.events ≡ remaining)))
unfolding sleep_loop
sleep_loop_lem abort quantum zero remaining p h le = (refl, omega arith, inr (omega arith))
sleep_loop_lem abort quantum (suc fuel) remaining p h le =
    let rest = sleep_loop_lem abort quantum fuel (remaining - min quantum remaining) (p + 1) h in
    elim (Bool-cases (remaining == 0)) [
      | inl e ↦ ground (arith, e)
      | inr e ↦ elim (Bool-cases (abort p)) [
        | inl a ↦ rw (e, a) (refl, omega arith, inl refl)
        | inr a ↦
            let (none_called, within, total) = rest (ground arith) in
            rw (e, a)
              (
                none_called,
                omega arith,
                elim total [ inl stopped ↦ inl stopped | inr all ↦ inr (ground arith) ],
              )
      ]
    ]

pub sleep_with_abort_lem :
    (abort : Option (ℕ → Bool)) (q wait p : ℕ)
    → (let run = sleep_with_abort abort q wait p in
        (calls run.events ≡ 0) × (time_slept run.events ≤ wait))
unfolding sleep_with_abort quantum_of
sleep_with_abort_lem none q wait p = (refl, omega arith)
sleep_with_abort_lem (some abort) q wait p =
    let (none_called, within, total) =
      sleep_loop_lem abort (quantum_of q) wait wait p (omega arith) (omega arith) in
    (none_called, within)
