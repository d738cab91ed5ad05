-- ===== src/Trial.antt =====
-- core/trial_manager.py: the days that are left of a trial.
-- A `datetime` is a number of microseconds; a text stands for what `_parse_dt` makes of it, `none` where
-- it cannot be parsed. The protected file is the pair of times that it holds, and `written` says
-- whether a write of it succeeds. No date has a time zone: the exception on which the comparison of one
-- that has it with one that has none ends is not modelled.
pub mod Laws
mod Tests
use hyper_loader.Prelude.{
  ℕ, Bool, Option, if◌then◌else◌, ltb, max, min, negsuc, none, not, pos, some, ℤ, ◌%◌, ◌-◌, ◌/◌,
  ◌==◌,
}

pub record TrialState : Type 0 where
  pub started_at : Option ℕ
  pub total_days : ℕ
  pub days_remaining : ℕ

-- the manager, with the payload of its file
pub record TrialManager : Type 0 where
  pub enabled : Bool
  pub total_days : ℕ
  pub shadow : Option (ℕ × ℕ)

-- `__init__`, from the number that is given
unfoldable pub new_manager : Bool → ℕ → Option (ℕ × ℕ) → TrialManager
new_manager enabled days shadow = record {
  enabled = enabled;
  total_days = max 1 (if days == 0 then 1 else days);
  shadow = shadow;
}

-- `value.replace(microsecond=0)`
unfoldable pub canonical_dt : ℕ → ℕ
canonical_dt t = t - t % 1000000

-- `value.date()`, as the number of the day
unfoldable pub date : ℕ → ℕ
date t = t / 86400000000

-- `_coerce_total_days`; `none` is a value that `int` does not convert
unfoldable pub coerce_total_days : ℕ → Option ℤ → ℕ
coerce_total_days total none = max 1 (min total total)
coerce_total_days total (some (pos n)) = max 1 (min (if n == 0 then total else n) total)
coerce_total_days total (some (negsuc n)) = 1

-- the last two tests of the reading, and those of the writing
unfoldable pub ordered : ℕ → ℕ → ℕ × ℕ
unfolding canonical_dt
ordered started seen =
    (canonical_dt started, canonical_dt (if ltb seen started then started else seen))

unfoldable pub read_shadow_state : Option (ℕ × ℕ) → Option (ℕ × ℕ)
unfolding ordered
read_shadow_state none = none
read_shadow_state (some (started, seen)) = some (ordered started seen)

unfoldable pub write_shadow_state : Bool → ℕ → ℕ → TrialManager → TrialManager
unfolding ordered
write_shadow_state written started seen m =
    if written then record m { shadow = some (ordered started seen) } else m

-- `min(candidate_starts) if candidate_starts else now_dt`
unfoldable pub start_of : Option ℕ → Option (ℕ × ℕ) → ℕ → ℕ
start_of none none now = now
start_of (some given) none now = given
start_of none (some (started, seen)) now = started
start_of (some given) (some (started, seen)) now = min given started

-- the later of the clock and the time that was seen last
unfoldable pub effective_now : Option (ℕ × ℕ) → ℕ → ℕ
effective_now none now = now
effective_now (some (started, seen)) now = if ltb now seen then seen else now

-- the start and the time of a call
unfoldable pub start_and_now : Option ℕ → Option (ℕ × ℕ) → ℕ → ℕ × ℕ
unfolding start_of effective_now
start_and_now given shadow now =
    let now' = effective_now shadow now in
    let start = start_of given shadow now in ((if ltb now' start then now' else start), now')

unfoldable pub resolve_state :
    Bool → ℕ → Option ℕ → Option ℤ → TrialManager → TrialManager × TrialState
unfolding coerce_total_days read_shadow_state start_and_now date canonical_dt write_shadow_state
resolve_state written now given total_days m =
    let td = coerce_total_days m.total_days total_days in
    let (start, now') = start_and_now given (read_shadow_state m.shadow) now in
    let last_seen = canonical_dt (max now' start) in
    if not m.enabled
    then (m, record { started_at = none; total_days = td; days_remaining = td })
    else (
      write_shadow_state written (canonical_dt start) last_seen m,
      record {
        started_at = some (canonical_dt start);
        total_days = td;
        days_remaining = td - (date now' - date start);
      },
    )

-- `load_state`, with what the settings hold of the start
unfoldable pub load_state : Bool → ℕ → Option ℕ → TrialManager → TrialManager × TrialState
unfolding resolve_state
load_state written now settings m =
    if not m.enabled
    then (m, record { started_at = none; total_days = m.total_days; days_remaining = m.total_days })
    else resolve_state written now settings (some (pos m.total_days)) m
