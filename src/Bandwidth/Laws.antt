-- ===== src/Bandwidth/Laws.antt =====
-- core/bandwidth_scheduler.py: every schedule that is kept can be read, and the limit is that of the
-- active rule.
use hyper_loader.Prelude.{
  ℕ, >>=-eq-ok, All, Bool, Bool-cases, List, Option, Option-cases, Result-cases, [], arith,
  erase_at, inl, inr, map, none, ok, or_else, refl, set, some, suc, traverse, zero, ℤ, ◌++◌, ◌∷◌,
  ◌≡◌, false, if◌then◌else◌, length, not, true, ◌==◌, ◌||◌, ap, sym, ◌∙◌,
}
use hyper_loader.Bandwidth.Clock.{parse_time, normalize_time_text}
use hyper_loader.Bandwidth.{
  removed, Rule, RuleData, Scheduler, normalize_rule, normalize_schedule, data_of, matches,
  limit_of, get_current_limit, rule_of, get_active_rule, save, set_enabled, set_schedule,
  update_rule, add_rule, remove_rule, valid_at, or_midnight,
}
use hyper_loader.Task.{read}

-- the limit of a rule, 0 for none
abbrev pub limit_or_zero : Option Rule → ℕ
limit_or_zero none = 0
limit_or_zero (some r) = r.limit_kbps

limit_of-rule_of : (now : ℕ) (rs : List Rule) → limit_of now rs ≡ limit_or_zero (rule_of now rs)
unfolding limit_of rule_of
limit_of-rule_of now [] = refl
limit_of-rule_of now (r ∷ rs) = elim (Bool-cases (matches now r)) [
  | inl e ↦ rw e refl
  | inr e ↦ rw e (limit_of-rule_of now rs)
]

limit-cases :
    (now : ℕ) (enabled : Bool) (rs : List Rule)
    → (if not enabled || length rs == 0 then 0 else limit_of now rs)
      ≡ limit_or_zero (if not enabled then none else rule_of now rs)
unfolding limit_of
limit-cases now false rs = refl
limit-cases now true [] = limit_of-rule_of now []
limit-cases now true (r ∷ rs) =
    let e : (length (r ∷ rs) == 0) ≡ false = ground arith in rw e (limit_of-rule_of now (r ∷ rs))

-- The current limit is that of the active rule at the same time, and 0 where there is none.
pub get_current_limit-get_active_rule :
    (now : ℕ) (s : Scheduler) → get_current_limit now s ≡ limit_or_zero (get_active_rule now s)
unfolding get_current_limit get_active_rule
get_current_limit-get_active_rule now s = limit-cases now s.enabled s.schedule

-- Both times of a rule can be read.
abbrev pub IsReadable : Rule → Type 0
IsReadable r =
    ((start : ℕ) × (parse_time r.start ≡ ok start)) × ((end : ℕ) × (parse_time r.end ≡ ok end))

normalize_rule-IsReadable : (d : RuleData) (r : Rule) → normalize_rule d ≡ ok r → IsReadable r
unfolding normalize_rule
normalize_rule-IsReadable d r h =
    let (start, e1, h1) = >>=-eq-ok (normalize_time_text (or_midnight d.start)) _ h in
    let (end, e2, h2) = >>=-eq-ok (normalize_time_text (or_midnight d.end)) _ h1 in
    let (t, e3, h3) = >>=-eq-ok (parse_time start) _ h2 in
    let (u, e4, h4) = >>=-eq-ok (parse_time end) _ h3 in
    let (limit, e5, h5) = >>=-eq-ok (read d.limit_kbps) _ h4 in
    let same_start : start ≡ r.start = ground arith in
    let same_end : end ≡ r.end = ground arith in
    ((t, ap parse_time (sym same_start) ∙ e3), (u, ap parse_time (sym same_end) ∙ e4))

normalize_schedule-IsReadable :
    (ds : List RuleData) (rs : List Rule) → normalize_schedule ds ≡ ok rs → All IsReadable rs
unfolding normalize_schedule traverse
normalize_schedule-IsReadable [] [] h = tt
normalize_schedule-IsReadable [] (r ∷ rs) h = cc
normalize_schedule-IsReadable (d ∷ ds) rs h =
    let (first, e1, h1) = >>=-eq-ok _ _ h in
    let (rest, e2, h2) = >>=-eq-ok _ _ h1 in
    let same : first ∷ rest ≡ rs = ground arith in
    rw (← same) (normalize_rule-IsReadable d first e1, normalize_schedule-IsReadable ds rest e2)

or_else-IsReadable :
    (ds : List RuleData) (old : List Rule)
    → All IsReadable old
    → All IsReadable (or_else (normalize_schedule ds) old)
or_else-IsReadable ds old h = elim (Result-cases (normalize_schedule ds)) [
  | inl (rs, e) ↦ rw e (normalize_schedule-IsReadable ds rs e)
  | inr (x, e) ↦ rw e h
]

save-IsReadable : (s : Scheduler) → All IsReadable s.schedule → All IsReadable (save s).schedule
unfolding save
save-IsReadable s h = or_else-IsReadable (map data_of s.schedule) s.schedule h

All-append : (rs ss : List Rule) → All IsReadable rs → All IsReadable ss → All IsReadable (rs ++ ss)
All-append [] ss h k = k
All-append (r ∷ rs) ss h k = (h.0, All-append rs ss h.1 k)

All-erase_at : (i : ℕ) (rs : List Rule) → All IsReadable rs → All IsReadable (erase_at i rs)
All-erase_at i [] h = tt
All-erase_at zero (r ∷ rs) h = h.1
All-erase_at (suc i) (r ∷ rs) h = (h.0, All-erase_at i rs h.1)

All-set :
    (rs : List Rule) (i : ℕ) (r : Rule)
    → All IsReadable rs
    → IsReadable r
    → All IsReadable (set rs i r)
All-set [] i r h k = tt
All-set (x ∷ rs) zero r h k = (k, h.1)
All-set (x ∷ rs) (suc i) r h k = (h.0, All-set rs i r h.1 k)

removed-IsReadable :
    (o : Option ℕ) (s : Scheduler)
    → All IsReadable s.schedule
    → All IsReadable (removed o s).schedule
unfolding removed
removed-IsReadable none s h = h
removed-IsReadable (some i) s h =
    save-IsReadable (record s { schedule = erase_at i s.schedule }) (All-erase_at i s.schedule h)

-- the methods that change the schedule
pub data Edit : Type 0 where
  enable : Bool → Edit
  replace : List RuleData → Edit
  update : ℤ → RuleData → Edit
  add : RuleData → Edit
  remove : ℤ → Edit

-- a method that raises leaves the state as it was
pub edit : Edit → Scheduler → Scheduler
edit (enable b) s = set_enabled b s
edit (replace ds) s = or_else (set_schedule ds s) s
edit (update i d) s = or_else (update_rule i d s) s
edit (add d) s = or_else (add_rule d s) s
edit (remove i) s = remove_rule i s

-- From a schedule whose rules can all be read, every method leaves such a schedule, whatever it is
-- given.
pub edit-IsReadable :
    (e : Edit) (s : Scheduler) → All IsReadable s.schedule → All IsReadable (edit e s).schedule
unfolding edit set_enabled set_schedule update_rule add_rule remove_rule
edit-IsReadable (enable b) s h = save-IsReadable (record s { enabled = b }) h
edit-IsReadable (replace ds) s h = elim (Result-cases (normalize_schedule ds)) [
  | inl (rs, e) ↦
      rw e (save-IsReadable (record s { schedule = rs }) (normalize_schedule-IsReadable ds rs e))
  | inr (x, e) ↦ rw e h
]
edit-IsReadable (update i d) s h = elim (Option-cases (valid_at i s.schedule)) [
  | inl e ↦ rw (e, update_rule) h
  | inr (k, e) ↦ elim (Result-cases (normalize_rule d)) [
    | inl (r, f) ↦
        rw (e, update_rule, f)
          (save-IsReadable (record s { schedule = set s.schedule k r })
            (All-set s.schedule k r h (normalize_rule-IsReadable d r f)))
    | inr (x, f) ↦ rw (e, update_rule, f) h
  ]
]
edit-IsReadable (add d) s h = elim (Result-cases (normalize_schedule (d ∷ []))) [
  | inl (rs, e) ↦ rw e (
      save-IsReadable (record s { schedule = s.schedule ++ rs })
        (All-append s.schedule rs h (normalize_schedule-IsReadable (d ∷ []) rs e)))
  | inr (x, e) ↦ rw e h
]
edit-IsReadable (remove i) s h = removed-IsReadable (valid_at i s.schedule) s h
