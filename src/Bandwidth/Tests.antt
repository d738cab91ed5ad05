-- ===== src/Bandwidth/Tests.antt =====
-- The bandwidth schedule at concrete times.
use hyper_loader.Prelude.{
  ℕ, All, [], arith, codes, none, ok, or_else, refl, some, true, ◌+◌, ◌≡◌, ◌≢◌,
}
use hyper_loader.Bandwidth.Clock.{clock, time_text, normalize_time_text, parse_time}
use hyper_loader.Bandwidth.{
  RuleData, Scheduler, get_current_limit, get_active_rule, reset_to_defaults,
}
use hyper_loader.Bandwidth.Times.{parse_time-time_text}
use hyper_loader.Bandwidth.Laws.{IsReadable, edit, edit-IsReadable, add}
use hyper_loader.Task.{num}

abbrev empty : Scheduler
empty = record { schedule = []; enabled = true }

abbrev defaults : Scheduler
defaults = or_else (reset_to_defaults empty) empty

-- 2 MB/s in the morning
morning : get_current_limit (clock 9 30 0) defaults ≡ 2048
unfolding get_current_limit reset_to_defaults
morning = refl

-- Half a second before midnight no rule of the default schedule is active.
last_second : get_active_rule (clock 23 59 59 + 500000) defaults ≡ none
unfolding get_active_rule reset_to_defaults
last_second = refl

trimmed : normalize_time_text (codes " 8:5 ") ≡ ok (codes "08:05")
unfolding normalize_time_text
trimmed = refl

parse_time-time_text_example :
    (normalize_time_text (time_text 7 5) ≡ ok (time_text 7 5))
    × (parse_time (time_text 7 5) ≡ ok (clock 7 5 0))
parse_time-time_text_example = parse_time-time_text 7 5 refl

abbrev evening : ℕ
evening = clock 22 0 0

abbrev dawn : ℕ
dawn = clock 6 0 0

apart : evening ≢ dawn
apart h = absurd (omega arith)

abbrev night : RuleData
night = record {
  start = some (codes "22:00");
  end = some (codes "6:00");
  limit_kbps = num 0;
  label = codes "";
}

edit-IsReadable_example : All IsReadable (edit (add night) empty).schedule
edit-IsReadable_example = edit-IsReadable (add night) empty tt
