-- ===== src/Proxy/Tests.antt =====
-- Two proxies, one of which fails.
use hyper_loader.Prelude.{
  Text, [], ap, arith, codes, false, if◌then◌else◌, inl, inr, leb, not, one_of, refl, some, strip,
  sym, text_eq, text_eq_iff, true, ℕ, ◌&&◌, ◌+◌, ◌∙◌, ◌∷◌, ◌≡◌, is_empty, one_of-cases,
}
use hyper_loader.Proxy.{ProxyManager, sanitize_runtime_state, threshold, is_rested, others}
use hyper_loader.Proxy.Members.{IsClean}
use hyper_loader.Proxy.Picked.{IsValid}
use hyper_loader.Proxy.Calls.{rotate, on_failure, add_proxy}
use hyper_loader.Proxy.Laws.{rotate-ready}
use hyper_loader.Proxy.KillSwitch.{on_failure-enabled}
use hyper_loader.Proxy.Runs.{
  add_call, failure_call, enable_call, rotate_call, run_all, run_all-IsValid,
}

abbrev first : Text
first = codes "a"

abbrev second : Text
second = codes "b"

abbrev at : ℕ → ℕ → ℕ
at now k = now

abbrev drawn : ℕ → ℕ
drawn k = 0

-- the second one is cooling down until 500
abbrev pair : ProxyManager
pair = record {
  enabled = true;
  proxies = first ∷ second ∷ [];
  current_index = 0;
  auto_rotate_on_fail = true;
  rotate_interval = 0;
  failure_threshold = 2;
  cooldown = 180000;
  kill_switch_enabled = true;
  fail_counts = λ p. 0;
  last_failure_ts = λ p. 0;
  disabled_until = λ p. if text_eq p second then 500 else 0;
  last_rotate_time = 0;
}

abbrev timed : ProxyManager
timed = record pair { rotate_interval = 60 }

pair-IsClean : IsClean (first ∷ second ∷ [])
unfolding strip one_of
pair-IsClean p h = elim (one_of-cases p first (second ∷ []) h) [
  | inl same ↦ (ap strip same ∙ sym same, ap is_empty same)
  | inr later ↦ elim (one_of-cases p second [] later) [
    | inl same ↦ (ap strip same ∙ sym same, ap is_empty same)
    | inr none_left ↦ cc
  ]
]

pair-IsValid : IsValid pair
pair-IsValid = record { clean = pair-IsClean; in_range = inl refl }

timed-IsValid : IsValid timed
timed-IsValid = record { clean = pair-IsClean; in_range = inl refl }

-- A proxy is added once, and an unknown scheme is refused.
added : (add_proxy (codes " ftp://x ") (add_proxy (codes "a ") pair)).proxies ≡ first ∷ second ∷ []
unfolding add_proxy
added = refl

rotate-ready_example :
    (p : Text) × ((rotate (at 900) 0 true pair).0 ≡ some p)
    × (one_of p pair.proxies ≡ true)
    × (text_eq p first ≡ false)
    × (is_rested 900 pair p ≡ true)
unfolding one_of
rotate-ready_example =
    rotate-ready (at 900) pair pair-IsValid first refl 0 true second refl refl refl

second_cooling :
    (p : Text)
    → one_of p timed.proxies ≡ true
    → text_eq p first ≡ false
    → is_rested 100 timed p ≡ false
unfolding one_of
second_cooling p there other =
    let same : p ≡ second = (text_eq_iff p second).0 (ground (arith, there, other)) in
    ap (λ x. leb (if text_eq x second then 500 else 0) 100) same

on_failure-enabled_example : (on_failure (at 100) drawn (codes "a ") pair).enabled ≡ (
    pair.enabled
    && not (
        leb (threshold pair) ((sanitize_runtime_state pair).fail_counts (strip (codes "a ")) + 1)
        && pair.kill_switch_enabled
        && is_empty (others (strip (codes "a ") ∷ []) pair)))
unfolding strip
on_failure-enabled_example = on_failure-enabled (at 100) drawn (codes "a ") pair refl

run_all-IsValid_example : IsValid (
    run_all
      (add_call (codes "c")
        ∷ failure_call (at 100) drawn first
        ∷ rotate_call (at 200) 1 false
        ∷ enable_call false
        ∷ [])
      pair)
run_all-IsValid_example =
    run_all-IsValid
      (add_call (codes "c")
        ∷ failure_call (at 100) drawn first
        ∷ rotate_call (at 200) 1 false
        ∷ enable_call false
        ∷ [])
      pair pair-IsValid
