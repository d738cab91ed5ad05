-- ===== src/Proxy/Calls.antt =====
-- core/proxy_manager.py: the calls of `ProxyManager` that the downloads and the settings make. Saving the
-- configuration is left out.
use hyper_loader.Prelude.{
  Bool, List, Option, Text, [], codes, contains, false, if◌then◌else◌, keep_if, leb, length, lower,
  ltb, none, not, one_of, some, strip, text_eq, true, ℕ, ◌&&◌, ◌++◌, ◌+◌, ◌==◌, ◌||◌, ◌∷◌, is_empty,
}
use hyper_loader.Proxy.{
  ProxyManager, or_list, sanitize_runtime_state, threshold, set_current_proxy, current, is_rested,
  available_rotation_candidates,
}
use hyper_loader.Proxy.Pick.{pick_next_proxy}

unfoldable pub is_enabled : ProxyManager → Bool
is_enabled m = m.enabled && not (is_empty m.proxies)

-- whether a proxy other than the current one is ready
abbrev pub has_ready_alternative : ℕ → ProxyManager → Option Text → Bool
has_ready_alternative now m none = false
has_ready_alternative now m (some cur) =
    not (is_empty (keep_if (λ p. not (text_eq p cur) && is_rested now m p) m.proxies))

unfoldable pub can_rotate : ℕ → ProxyManager → Bool × ProxyManager
unfolding sanitize_runtime_state text_eq
can_rotate now m =
    let s = sanitize_runtime_state m in
    if not m.enabled || leb (length m.proxies) 1
    then (false, m)
    else (has_ready_alternative now s (current s), s)

-- a proxy that is used from now on, if one was picked
abbrev pub replaced : Text → ProxyManager → Option Text → Text × ProxyManager
replaced p m none = (p, m)
replaced p m (some q) = (q, set_current_proxy q m)

unfoldable pub leave_disabled : (ℕ → ℕ) → ℕ → Text → ProxyManager → Text × ProxyManager
unfolding set_current_proxy pick_next_proxy available_rotation_candidates
leave_disabled clock r p m =
    if ltb (clock 0) (m.disabled_until p)
    then replaced p m
        (pick_next_proxy (available_rotation_candidates (p ∷ []) (clock 1) m) p true r m)
    else (p, m)

-- `should_rotate_interval`
unfoldable pub is_rotation_due : ℕ → ProxyManager → Bool
is_rotation_due now m =
    ltb 0 m.rotate_interval
    && ltb 1 (length m.proxies)
    && leb (m.last_rotate_time + m.rotate_interval) now

abbrev pub rotated : ℕ → Text → ProxyManager → Option Text → Text × ProxyManager
rotated now p m none = (p, m)
rotated now p m (some q) = (q, record (set_current_proxy q m) { last_rotate_time = now })

unfoldable pub rotate_if_due : (ℕ → ℕ) → ℕ → Text → ProxyManager → Text × ProxyManager
unfolding is_rotation_due set_current_proxy pick_next_proxy available_rotation_candidates
rotate_if_due clock r p m =
    if is_rotation_due (clock 2) m
    then rotated (clock 4) p m
        (pick_next_proxy (available_rotation_candidates (p ∷ []) (clock 3) m) p true r m)
    else (p, m)

-- `get_current_proxy` behind its guards
unfoldable pub use_proxy : (ℕ → ℕ) → (ℕ → ℕ) → Text → ProxyManager → Option Text × ProxyManager
unfolding leave_disabled rotate_if_due
use_proxy clock r p m =
    let (q, m1) = leave_disabled clock (r 0) p m in
    let (q2, m2) = rotate_if_due clock (r 1) q m1 in (some q2, m2)

-- with the proxy at the current index
abbrev pub get_proxy : (ℕ → ℕ) → (ℕ → ℕ) → ProxyManager → Option Text → Option Text × ProxyManager
get_proxy clock r m none = (none, m)
get_proxy clock r m (some p) = use_proxy clock r p (sanitize_runtime_state m)

unfoldable pub get_current_proxy : (ℕ → ℕ) → (ℕ → ℕ) → ProxyManager → Option Text × ProxyManager
unfolding use_proxy sanitize_runtime_state
get_current_proxy clock r m = if not m.enabled then (none, m) else get_proxy clock r m (current m)

-- the candidates of `rotate`
unfoldable pub rotation_candidates : (ℕ → ℕ) → Text → ProxyManager → List Text
unfolding available_rotation_candidates
rotation_candidates clock cur m =
    or_list
      (available_rotation_candidates (if ltb 1 (length m.proxies) then cur ∷ [] else []) (clock 0)
        m)
      (available_rotation_candidates [] (clock 1) m)

abbrev pub rotated_to : ℕ → ProxyManager → Option Text → Option Text × ProxyManager
rotated_to now m none = (none, m)
rotated_to now m (some q) = (some q, record (set_current_proxy q m) { last_rotate_time = now })

-- with the proxy at the current index
unfoldable pub rotate_from :
    (ℕ → ℕ) → ℕ → Bool → ProxyManager → Option Text → Option Text × ProxyManager
unfolding rotation_candidates pick_next_proxy sanitize_runtime_state set_current_proxy
rotate_from clock r randomize m none = (none, m)
rotate_from clock r randomize m (some cur) =
    let s = sanitize_runtime_state m in
    rotated_to (clock 2) s (pick_next_proxy (rotation_candidates clock cur s) cur randomize r s)

unfoldable pub rotate : (ℕ → ℕ) → ℕ → Bool → ProxyManager → Option Text × ProxyManager
unfolding rotate_from
rotate clock r randomize m = rotate_from clock r randomize m (current m)

abbrev pub assign : Text → ℕ → (Text → ℕ) → Text → ℕ
assign p v f q = if text_eq p q then v else f q

-- the counts after a failure, and the cooldown
unfoldable pub record_failure : (ℕ → ℕ) → Text → ProxyManager → ProxyManager
unfolding text_eq threshold
record_failure clock p m =
    let failures = m.fail_counts p + 1 in
    record m {
      fail_counts = assign p failures m.fail_counts;
      last_failure_ts = assign p (clock 5) m.last_failure_ts;
      disabled_until =
          if leb (threshold m) failures && ltb 0 m.cooldown
          then assign p (clock 6 + m.cooldown) m.disabled_until
          else m.disabled_until;
    }

-- the state once the failure is counted, and whether to rotate
unfoldable pub after_failure : (ℕ → ℕ) → ℕ → Text → ProxyManager → ProxyManager
unfolding threshold available_rotation_candidates rotate
after_failure clock r p m =
    let alternatives = available_rotation_candidates (p ∷ []) (clock 7) m in
    if leb (threshold m) (m.fail_counts p) && m.kill_switch_enabled && is_empty alternatives
    then record m { enabled = false }
    else if m.auto_rotate_on_fail && ltb 1 (length m.proxies) && not (is_empty alternatives)
    then (rotate (λ k. clock (k + 8)) r true m).1
    else m

-- a failure of a named proxy
unfoldable pub fail_proxy : (ℕ → ℕ) → ℕ → Text → ProxyManager → ProxyManager
unfolding record_failure after_failure
fail_proxy clock r p m =
    if is_empty p then m else after_failure clock r p (record_failure clock p m)

abbrev pub text_or_empty : Option Text → Text
text_or_empty none = []
text_or_empty (some p) = strip p

-- the failure of the proxy that is named, or of the current one
unfoldable pub fail_named : (ℕ → ℕ) → (ℕ → ℕ) → Text → ProxyManager → ProxyManager
unfolding get_current_proxy fail_proxy strip
fail_named clock r p m =
    let (found, m1) = get_current_proxy clock r m in
    if is_empty p
    then fail_proxy clock (r 2) (text_or_empty found) m1
    else fail_proxy clock (r 2) p m

unfoldable pub on_failure : (ℕ → ℕ) → (ℕ → ℕ) → Text → ProxyManager → ProxyManager
unfolding strip sanitize_runtime_state fail_named
on_failure clock r proxy m = fail_named clock r (strip proxy) (sanitize_runtime_state m)

abbrev pub schemes : List Text
schemes =
    codes "http"
    ∷ codes "https"
    ∷ codes "socks5"
    ∷ codes "socks5h"
    ∷ codes "socks4"
    ∷ codes "socks4a"
    ∷ []

-- the text before the first colon
unfoldable pub before_colon : Text → Text
before_colon [] = []
before_colon (c ∷ s) = let rest = before_colon s in if c == b':' then [] else c ∷ rest

-- the scheme that `urlsplit` finds, which is "http" where there is none
unfoldable pub scheme_of : Text → Text
unfolding contains lower before_colon
scheme_of url = if contains url (codes "://") then lower (before_colon url) else codes "http"

unfoldable pub add_proxy : Text → ProxyManager → ProxyManager
unfolding strip one_of scheme_of sanitize_runtime_state
add_proxy proxy_url m =
    let url = strip proxy_url in
    if not (is_empty url) && not (one_of url m.proxies) && one_of (scheme_of url) schemes
    then sanitize_runtime_state (record m { proxies = m.proxies ++ url ∷ [] })
    else m

-- `list.remove`
unfoldable pub remove_first : Text → List Text → List Text
unfolding text_eq
remove_first p [] = []
remove_first p (q ∷ qs) = if text_eq p q then qs else q ∷ remove_first p qs

unfoldable pub remove_proxy : Text → ProxyManager → ProxyManager
unfolding one_of remove_first sanitize_runtime_state
remove_proxy url m =
    if one_of url m.proxies
    then record (sanitize_runtime_state (record m { proxies = remove_first url m.proxies })) {
      current_index = 0;
    }
    else m

unfoldable pub set_enabled : Bool → ProxyManager → ProxyManager
set_enabled on m = record m {
  enabled = on;
  disabled_until = if on then (λ p. 0) else m.disabled_until;
}
