-- ===== src/Proxy/KillSwitch.antt =====
-- core/proxy_manager.py: when a failure turns the proxies off.
use hyper_loader.Prelude.{
  Bool, Bool-cases, List, Option, Text, [], ap, arith, false, inl, inr, keep_if, leb, none, not,
  one_of, refl, some, strip, true, ℕ, ◌&&◌, ◌+◌, ◌∙◌, ◌∷◌, ◌≡◌, text_eq_refl, strip-strip, is_empty,
}
use hyper_loader.Proxy.{
  ProxyManager, or_list, sanitize_runtime_state, threshold, set_current_proxy, current, is_rested,
  available_rotation_candidates, others, ready_others,
}
use hyper_loader.Proxy.Members.{IsClean}
use hyper_loader.Proxy.Candidates.{IsClean-one, candidates_eq}
use hyper_loader.Proxy.Pick.{pick_next_proxy}
use hyper_loader.Proxy.Calls.{
  rotation_candidates, rotated_to, rotate_from, rotate, record_failure, after_failure, fail_proxy,
  on_failure, fail_named,
}

is_empty-keep_both :
    (f g : Text → Bool) (ps : List Text)
    → is_empty (keep_if f ps) ≡ true
    → is_empty (keep_if (λ p. f p && g p) ps) ≡ true
is_empty-keep_both f g [] h = h
is_empty-keep_both f g (p ∷ ps) h = elim (Bool-cases (f p)) [
  | inl kept ↦ let no = rw kept at h in cc
  | inr dropped ↦ rw dropped (is_empty-keep_both f g ps (rw dropped at h))
]

is_empty-or_both :
    (xs ys : List Text)
    → (is_empty ys ≡ true → is_empty xs ≡ true)
    → is_empty (or_list xs ys) ≡ is_empty ys
is_empty-or_both [] ys h = refl
is_empty-or_both (x ∷ xs) [] h = let no = h refl in cc
is_empty-or_both (x ∷ xs) (y ∷ ys) h = refl

-- there are candidates exactly if there is another proxy
is_empty-candidates_eq :
    (ex : List Text) (now : ℕ) (m : ProxyManager)
    → IsClean ex
    → is_empty (available_rotation_candidates ex now m) ≡ is_empty (others ex m)
is_empty-candidates_eq ex now m clean =
    ap is_empty (candidates_eq ex now m clean)
    ∙ is_empty-or_both (ready_others ex now m) (others ex m)
        (is_empty-keep_both (λ p. not (one_of p ex)) (is_rested now m) m.proxies)

set_current_proxy-enabled :
    (p : Text) (m : ProxyManager) → (set_current_proxy p m).enabled ≡ m.enabled
unfolding set_current_proxy
set_current_proxy-enabled p m = elim (Bool-cases (one_of p m.proxies)) [
  | inl there ↦ rw there refl
  | inr other ↦ rw other refl
]

rotated_to-enabled :
    (now : ℕ) (m : ProxyManager) (o : Option Text) → (rotated_to now m o).1.enabled ≡ m.enabled
rotated_to-enabled now m none = refl
rotated_to-enabled now m (some q) = set_current_proxy-enabled q m

rotate_from-enabled :
    (clock : ℕ → ℕ) (r : ℕ) (m : ProxyManager) (o : Option Text)
    → (rotate_from clock r true m o).1.enabled ≡ m.enabled
unfolding rotate_from sanitize_runtime_state
rotate_from-enabled clock r m none = refl
rotate_from-enabled clock r m (some cur) =
    let s = sanitize_runtime_state m in
    rotated_to-enabled (clock 2) s (pick_next_proxy (rotation_candidates clock cur s) cur true r s)

rotate-enabled :
    (clock : ℕ → ℕ) (r : ℕ) (m : ProxyManager) → (rotate clock r true m).1.enabled ≡ m.enabled
unfolding rotate
rotate-enabled clock r m = rotate_from-enabled clock r m (current m)

-- whether the kill switch engages, for a failure that is counted
abbrev engages : Text → ProxyManager → Bool
engages p m =
    leb (threshold m) (m.fail_counts p) && m.kill_switch_enabled && is_empty (others (p ∷ []) m)

after_failure-enabled :
    (clock : ℕ → ℕ) (r : ℕ) (p : Text) (m : ProxyManager)
    → IsClean (p ∷ [])
    → (after_failure clock r p m).enabled ≡ (m.enabled && not (engages p m))
unfolding after_failure
after_failure-enabled clock r p m clean = ground (
  arith,
  is_empty-candidates_eq (p ∷ []) (clock 7) m clean,
  rotate-enabled (λ k. clock (k + 8)) r m,
)

fail_named-filled :
    (clock : ℕ → ℕ) (r : ℕ → ℕ) (p : Text) (m : ProxyManager)
    → is_empty p ≡ false
    → fail_named clock r p m ≡ after_failure clock (r 2) p (record_failure clock p m)
unfolding fail_named fail_proxy
fail_named-filled clock r [] m filled = cc
fail_named-filled clock r (c ∷ p) m filled = refl

engages-record_failure :
    (clock : ℕ → ℕ) (p : Text) (m : ProxyManager)
    → engages p (record_failure clock p m) ≡ (
        leb (threshold m) (m.fail_counts p + 1)
        && m.kill_switch_enabled
        && is_empty (others (p ∷ []) m))
unfolding record_failure threshold
engages-record_failure clock p m = rw (text_eq_refl p) refl

record_failure-enabled :
    (clock : ℕ → ℕ) (p : Text) (m : ProxyManager) → (record_failure clock p m).enabled ≡ m.enabled
unfolding record_failure
record_failure-enabled clock p m = refl

sanitize-engages :
    (n : ℕ) (p : Text) (m : ProxyManager)
    → (let s = sanitize_runtime_state m in
        (s.enabled
          && not (leb (threshold s) n && s.kill_switch_enabled && is_empty (others (p ∷ []) s)))
        ≡ (m.enabled
            && not (leb (threshold m) n && m.kill_switch_enabled && is_empty (others (p ∷ []) m))))
unfolding sanitize_runtime_state threshold
sanitize-engages n p m = refl

-- A failure of a named proxy turns the proxies off exactly when its failures reach the threshold, the kill
-- switch is on, and no other proxy is listed; whether the others are cooling down does not count.
pub on_failure-enabled :
    (clock : ℕ → ℕ) (r : ℕ → ℕ) (proxy : Text) (m : ProxyManager)
    → is_empty (strip proxy) ≡ false
    → (on_failure clock r proxy m).enabled ≡ (
        m.enabled
        && not (
            leb (threshold m) ((sanitize_runtime_state m).fail_counts (strip proxy) + 1)
            && m.kill_switch_enabled
            && is_empty (others (strip proxy ∷ []) m)))
unfolding on_failure
on_failure-enabled clock r proxy m filled =
    let s = sanitize_runtime_state m in
    let p = strip proxy in
    let failed = record_failure clock p s in
    ap (λ (x : ProxyManager). x.enabled) (fail_named-filled clock r p s filled)
    ∙ after_failure-enabled clock (r 2) p failed (IsClean-one p (strip-strip proxy) filled)
    ∙ ap (λ b. failed.enabled && not b) (engages-record_failure clock p s)
    ∙ ap
        (λ b.
          b
          && not (
              leb (threshold s) (s.fail_counts p + 1)
              && s.kill_switch_enabled
              && is_empty (others (p ∷ []) s)))
        (record_failure-enabled clock p s)
    ∙ sanitize-engages (s.fail_counts p + 1) p m
