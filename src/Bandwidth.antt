-- ===== src/Bandwidth.antt =====
-- core/bandwidth_scheduler.py: the limit of the bandwidth by the time of day. A rule that is given is a
-- mapping with texts; a file that cannot be written changes nothing in the state, so `save` is its
-- change of the schedule.
pub mod Clock
pub mod Times
pub mod Laws
mod Tests
use hyper_loader.Prelude.{
  ℕ, Text, Bool, List, Option, Result, [], codes, erase_at, false, if◌then◌else◌, leb, length, ltb,
  map, negsuc, none, not, ok, or_else, pos, raise, set, some, strip, suc, traverse, true,
  value_error, zero, ℤ, ◌%◌, ◌&&◌, ◌*◌, ◌++◌, ◌+◌, ◌-◌, ◌/◌, ◌==◌, ◌>>=◌, ◌||◌, ◌∷◌,
}
use hyper_loader.Task.{Num, num, read}
use hyper_loader.Bandwidth.Clock.{normalize_time_text, parse_time, time_in_range}

pub record Rule : Type 0 where
  pub start : Text
  pub end : Text
  pub limit_kbps : ℕ
  pub label : Text

-- a mapping that is given for a rule; the times may be missing
pub record RuleData : Type 0 where
  pub start : Option Text
  pub end : Option Text
  pub limit_kbps : Num
  pub label : Text

pub record Scheduler : Type 0 where
  pub schedule : List Rule
  pub enabled : Bool

abbrev pub or_midnight : Option Text → Text
or_midnight none = codes "00:00"
or_midnight (some t) = t

-- `label or f"{start} → {end}"`
abbrev label_or : Text → Text → Text → Text
label_or [] start end = start ++ 32 ∷ 0x2192 ∷ 32 ∷ end
label_or (c ∷ label) start end = c ∷ label

-- one round of the loop of `normalize_schedule`
unfoldable pub normalize_rule : RuleData → Result Rule
unfolding normalize_time_text parse_time strip read
normalize_rule d = do
  start ← normalize_time_text (or_midnight d.start)
  end ← normalize_time_text (or_midnight d.end)
  _ ← parse_time start
  _ ← parse_time end
  limit ← read d.limit_kbps
  ok (record {
    start = start;
    end = end;
    limit_kbps = limit;
    label = label_or (strip d.label) start end;
  })

unfoldable pub normalize_schedule : List RuleData → Result (List Rule)
unfolding normalize_rule traverse
normalize_schedule = traverse normalize_rule

-- a rule as the mapping that it is
abbrev pub data_of : Rule → RuleData
data_of r = record {
  start = some r.start;
  end = some r.end;
  limit_kbps = num r.limit_kbps;
  label = r.label;
}

-- whether a rule matches; one that cannot be read is skipped
unfoldable pub matches : ℕ → Rule → Bool
unfolding parse_time time_in_range
matches now r =
    or_else
      (do start ← parse_time r.start; end ← parse_time r.end; ok (time_in_range start end now))
      false

unfoldable pub limit_of : ℕ → List Rule → ℕ
unfolding matches
limit_of now [] = 0
limit_of now (r ∷ rs) = let rest = limit_of now rs in if matches now r then r.limit_kbps else rest

unfoldable pub get_current_limit : ℕ → Scheduler → ℕ
unfolding limit_of
get_current_limit now s =
    if not s.enabled || length s.schedule == 0 then 0 else limit_of now s.schedule

unfoldable pub rule_of : ℕ → List Rule → Option Rule
unfolding matches
rule_of now [] = none
rule_of now (r ∷ rs) = let rest = rule_of now rs in if matches now r then some r else rest

unfoldable pub get_active_rule : ℕ → Scheduler → Option Rule
unfolding rule_of
get_active_rule now s = if not s.enabled then none else rule_of now s.schedule

-- `save` normalises the schedule; a rule that raises leaves it as it is
unfoldable pub save : Scheduler → Scheduler
unfolding normalize_schedule
save s = record s { schedule = or_else (normalize_schedule (map data_of s.schedule)) s.schedule }

unfoldable pub set_enabled : Bool → Scheduler → Scheduler
unfolding save
set_enabled enabled s = save (record s { enabled = enabled })

unfoldable pub set_schedule : List RuleData → Scheduler → Result Scheduler
unfolding save normalize_schedule
set_schedule schedule s = do
  rules ← normalize_schedule schedule
  ok (save (record s { schedule = rules }))

unfoldable pub valid_at : ℤ → List Rule → Option ℕ
valid_at (pos i) rules = if ltb i (length rules) then some i else none
valid_at (negsuc i) rules = none

unfoldable pub update_rule : ℤ → RuleData → Scheduler → Result Scheduler
unfolding save normalize_rule valid_at
update_rule index d s = elim (valid_at index s.schedule) [
  | none ↦ ok s
  | some i ↦ do rule ← normalize_rule d; ok (save (record s { schedule = set s.schedule i rule }))
]

unfoldable pub add_rule : RuleData → Scheduler → Result Scheduler
unfolding save normalize_schedule
add_rule d s = do
  rules ← normalize_schedule (d ∷ [])
  ok (save (record s { schedule = s.schedule ++ rules }))

unfoldable pub removed : Option ℕ → Scheduler → Scheduler
unfolding save
removed none s = s
removed (some i) s = save (record s { schedule = erase_at i s.schedule })

unfoldable pub remove_rule : ℤ → Scheduler → Scheduler
unfolding removed valid_at
remove_rule index s = removed (valid_at index s.schedule) s

-- `DEFAULT_SCHEDULE`
abbrev default_rule : Text → Text → ℕ → Text → RuleData
default_rule start end limit label = record {
  start = some start;
  end = some end;
  limit_kbps = num limit;
  label = label;
}

abbrev pub default_schedule : List RuleData
default_schedule =
    default_rule (codes "00:00") (codes "08:00") 0 (codes "Night (Unlimited)")
    ∷ default_rule (codes "08:00") (codes "12:00") 2048 (codes "Morning (2 MB/s)")
    ∷ default_rule (codes "12:00") (codes "18:00") 1024 (codes "Work Hours (1 MB/s)")
    ∷ default_rule (codes "18:00") (codes "22:00") 0 (codes "Evening (Unlimited)")
    ∷ default_rule (codes "22:00") (codes "24:00") 0 (codes "Late Night (Unlimited)")
    ∷ []

unfoldable pub reset_to_defaults : Scheduler → Result Scheduler
unfolding set_schedule
reset_to_defaults s = set_schedule default_schedule s
