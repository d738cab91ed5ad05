-- ===== src/Proxy/Steps.antt =====
-- core/proxy_manager.py: the steps of `get_current_proxy`.
use hyper_loader.Prelude.{
  Text, arith, false, inl, inr, length, one_of, true, ℕ, ◌≡◌, Bool-cases, [], refl, ◌∷◌, Option,
  ltb, none, some, ◌%◌,
}
use hyper_loader.Proxy.{
  ProxyManager, sanitize_runtime_state, set_current_proxy, current, is_rested,
  available_rotation_candidates,
}
use hyper_loader.Proxy.Members.{get_elem?-one_of}
use hyper_loader.Proxy.Picked.{IsValid}
use hyper_loader.Proxy.Pick.{pick_next_proxy}
use hyper_loader.Proxy.Calls.{replaced, leave_disabled, is_rotation_due, rotate_if_due}

pub sanitize-IsValid : (m : ProxyManager) → IsValid m → IsValid (sanitize_runtime_state m)
unfolding sanitize_runtime_state
sanitize-IsValid m valid = record { clean = valid.clean; in_range = valid.in_range }

pub sanitize-proxies : (m : ProxyManager) → (sanitize_runtime_state m).proxies ≡ m.proxies
unfolding sanitize_runtime_state
sanitize-proxies m = refl

pub current-one_of :
    (m : ProxyManager) (cur : Text) → current m ≡ some cur → one_of cur m.proxies ≡ true
current-one_of m cur h = get_elem?-one_of m.proxies (m.current_index % length m.proxies) cur h

pub set_current_proxy-interval :
    (p : Text) (m : ProxyManager) → (set_current_proxy p m).rotate_interval ≡ m.rotate_interval
unfolding set_current_proxy
set_current_proxy-interval p m = elim (Bool-cases (one_of p m.proxies)) [
  | inl there ↦ rw there refl
  | inr other ↦ rw other refl
]

pub moved-interval :
    (p : Text) (m : ProxyManager) (o : Option Text)
    → (replaced p m o).1.rotate_interval ≡ m.rotate_interval
moved-interval p m none = refl
moved-interval p m (some q) = set_current_proxy-interval q m

pub leave_disabled-interval :
    (clock : ℕ → ℕ) (r : ℕ) (p : Text) (m : ProxyManager)
    → (leave_disabled clock r p m).1.rotate_interval ≡ m.rotate_interval
unfolding leave_disabled
leave_disabled-interval clock r p m = elim (Bool-cases (ltb (clock 0) (m.disabled_until p))) [
  | inl cooling ↦ rw cooling (
      moved-interval p m
        (pick_next_proxy (available_rotation_candidates (p ∷ []) (clock 1) m) p true r m))
  | inr ready ↦ rw ready refl
]

pub rotate_if_due-never :
    (clock : ℕ → ℕ) (r : ℕ) (p : Text) (m : ProxyManager)
    → m.rotate_interval ≡ 0
    → rotate_if_due clock r p m ≡ (p, m)
unfolding rotate_if_due is_rotation_due
rotate_if_due-never clock r p m off = rw off refl

pub stays :
    (clock : ℕ → ℕ) (r : ℕ) (p : Text) (m : ProxyManager)
    → is_rested (clock 0) m p ≡ true
    → leave_disabled clock r p m ≡ (p, m)
unfolding leave_disabled
stays clock r p m ready =
    let still : ltb (clock 0) (m.disabled_until p) ≡ false = ground (arith, ready) in rw still refl

pub due_turn :
    (clock : ℕ → ℕ) (r : ℕ) (p : Text) (m : ProxyManager) (q : Text)
    → is_rotation_due (clock 2) m ≡ true
    → pick_next_proxy (available_rotation_candidates (p ∷ []) (clock 3) m) p true r m ≡ some q
    → rotate_if_due clock r p m ≡ (q, record (set_current_proxy q m) { last_rotate_time = clock 4 })
unfolding rotate_if_due
due_turn clock r p m q due pick = rw (due, pick) refl

pub is_rotation_due-sanitize :
    (now : ℕ) (m : ProxyManager)
    → is_rotation_due now (sanitize_runtime_state m) ≡ is_rotation_due now m
unfolding is_rotation_due sanitize_runtime_state
is_rotation_due-sanitize now m = refl
