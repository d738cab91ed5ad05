-- ===== src/Proxy.antt =====
-- core/proxy_manager.py: `ProxyManager`, the list of proxies that downloads use in turn, with a cooldown
-- for those that fail and a kill switch. The dictionaries are functions, with 0 for a missing key;
-- times count milliseconds. `clock k` is what the `k`-th call of `time.time` in the text of an operation
-- reads, and `r k` is the index that its `k`-th `random.choice` draws.
pub mod Members
pub mod Pick
pub mod Candidates
pub mod Picked
pub mod Calls
pub mod Steps
pub mod Laws
pub mod KillSwitch
pub mod Keeps
pub mod Runs
mod Tests
use hyper_loader.Prelude.{
  Bool, List, Option, Text, [], cons_if, false, get_elem?, if◌then◌else◌, keep_if, leb, length, not,
  one_of, strip, suc, text_eq, true, ℕ, ◌%◌, ◌&&◌, ◌==◌, ◌∷◌, is_empty,
}

-- the keys of `config` that the rotation reads, and the state that is not saved
pub record ProxyManager : Type 0 where
  pub enabled : Bool
  pub proxies : List Text
  pub current_index : ℕ
  pub auto_rotate_on_fail : Bool
  pub rotate_interval : ℕ
  pub failure_threshold : ℕ
  pub cooldown : ℕ
  pub kill_switch_enabled : Bool
  pub fail_counts : Text → ℕ
  pub last_failure_ts : Text → ℕ
  pub disabled_until : Text → ℕ
  pub last_rotate_time : ℕ

-- `xs or ys`
abbrev pub or_list {ℓ} : {A : Type ℓ} → List A → List A → List A
or_list [] ys = ys
or_list (x ∷ xs) ys = x ∷ xs

-- `_normalize_proxy_list`
unfoldable pub normalize_proxy_list : List Text → List Text
unfolding strip
normalize_proxy_list [] = []
normalize_proxy_list (p ∷ ps) =
    cons_if (not (is_empty (strip p))) (strip p) (normalize_proxy_list ps)

-- the entries of a dictionary whose keys are listed
abbrev pub only_keys : List Text → (Text → ℕ) → Text → ℕ
only_keys ps f p = if one_of p ps then f p else 0

-- `_sanitize_runtime_state_locked`
unfoldable pub sanitize_runtime_state : ProxyManager → ProxyManager
unfolding normalize_proxy_list one_of
sanitize_runtime_state m =
    let ps = normalize_proxy_list m.proxies in
    record m {
      fail_counts = only_keys ps m.fail_counts;
      last_failure_ts = only_keys ps m.last_failure_ts;
      disabled_until = only_keys ps m.disabled_until;
    }

-- `_failure_threshold_locked`, where 0 is read as 2
unfoldable pub threshold : ProxyManager → ℕ
threshold m = if m.failure_threshold == 0 then 2 else m.failure_threshold

-- `list.index`
unfoldable pub index_of : Text → List Text → ℕ
unfolding text_eq
index_of p [] = 0
index_of p (q ∷ qs) = if text_eq q p then 0 else suc (index_of p qs)

-- `_set_current_proxy_locked`
unfoldable pub set_current_proxy : Text → ProxyManager → ProxyManager
unfolding one_of index_of
set_current_proxy p m =
    if one_of p m.proxies then record m { current_index = index_of p m.proxies } else m

-- `proxies[current_index % len(proxies)]`, or `none` where the list is empty
abbrev pub current : ProxyManager → Option Text
current m = get_elem? m.proxies (m.current_index % length m.proxies)

abbrev pub is_rested : ℕ → ProxyManager → Text → Bool
is_rested now m p = leb (m.disabled_until p) now

-- the proxies that are not excluded, and those of them that are ready
abbrev pub others : List Text → ProxyManager → List Text
others ex m = keep_if (λ p. not (one_of p ex)) m.proxies

abbrev pub ready_others : List Text → ℕ → ProxyManager → List Text
ready_others ex now m = keep_if (λ p. not (one_of p ex) && is_rested now m p) m.proxies

-- `_available_rotation_candidates_locked`
unfoldable pub available_rotation_candidates : List Text → ℕ → ProxyManager → List Text
unfolding normalize_proxy_list one_of
available_rotation_candidates exclude now m =
    let ex = normalize_proxy_list exclude in or_list (ready_others ex now m) (others ex m)
