-- ===== src/Proxy/Keeps.antt =====
-- core/proxy_manager.py: the calls that leave the list of proxies as it is.
use hyper_loader.Prelude.{
  Bool, Text, [], arith, if◌then◌else◌, inl, inr, length, refl, ℕ, ◌<◌, ◌∙◌, ◌∷◌, ◌≡◌, ◌⊎◌,
  Bool-cases, Option, false, ltb, none, not, one_of, some, strip, true, ◌+◌, leb, ◌&&◌, ◌||◌,
  is_empty,
}
use hyper_loader.Proxy.{
  ProxyManager, threshold, sanitize_runtime_state, set_current_proxy, current,
  available_rotation_candidates,
}
use hyper_loader.Proxy.Members.{index_of-lt}
use hyper_loader.Proxy.Pick.{pick_next_proxy}
use hyper_loader.Proxy.Picked.{IsValid}
use hyper_loader.Proxy.Calls.{
  can_rotate, has_ready_alternative, replaced, leave_disabled, is_rotation_due, rotated,
  rotate_if_due, use_proxy, get_proxy, get_current_proxy, rotation_candidates, rotated_to,
  rotate_from, rotate, record_failure, after_failure, fail_proxy, on_failure, set_enabled,
  text_or_empty, fail_named,
}

-- what most calls do to the list and the index
pub record Keeps (m n : ProxyManager) : Type 0 where
  pub same : n.proxies ≡ m.proxies
  pub in_list : (n.current_index ≡ m.current_index) ⊎ (n.current_index < length m.proxies)

pub Keeps-refl : (m : ProxyManager) → Keeps m m
Keeps-refl m = record { same = refl; in_list = inl refl }

pub Keeps-trans : (m n o : ProxyManager) → Keeps m n → Keeps n o → Keeps m o
Keeps-trans m n o first second = record {
  same = second.same ∙ first.same;
  in_list = elim second.in_list [
    | inr low ↦ inr (rw first.same at low)
    | inl same ↦ elim first.in_list [ inl same' ↦ inl (same ∙ same') | inr low ↦ inr (omega arith) ]
  ];
}

pub Keeps-IsValid : (m n : ProxyManager) → Keeps m n → IsValid m → IsValid n
Keeps-IsValid m n kept valid = record {
  clean = rw kept.same valid.clean;
  in_range = rw kept.same (elim kept.in_list [
    | inr low ↦ inr low
    | inl same ↦ elim valid.in_range [
      | inl zeroth ↦ inl (same ∙ zeroth)
      | inr low ↦ inr (omega arith)
    ]
  ]);
}

pub ite_Keeps :
    (b : Bool) (m x y : ProxyManager) → Keeps m x → Keeps m y → Keeps m (if b then x else y)
ite_Keeps true m x y h k = h
ite_Keeps false m x y h k = k

pub ite_Keeps_result :
    (b : Bool) (m : ProxyManager) (x y : Option Text × ProxyManager)
    → Keeps m x.1
    → Keeps m y.1
    → Keeps m (if b then x else y).1
ite_Keeps_result true m x y h k = h
ite_Keeps_result false m x y h k = k

pub ite_Keeps_checked :
    (b : Bool) (m : ProxyManager) (x y : Bool × ProxyManager)
    → Keeps m x.1
    → Keeps m y.1
    → Keeps m (if b then x else y).1
ite_Keeps_checked true m x y h k = h
ite_Keeps_checked false m x y h k = k

pub sanitize-Keeps : (m : ProxyManager) → Keeps m (sanitize_runtime_state m)
unfolding sanitize_runtime_state
sanitize-Keeps m = record { same = refl; in_list = inl refl }

pub set_current_proxy-Keeps : (p : Text) (m : ProxyManager) → Keeps m (set_current_proxy p m)
unfolding set_current_proxy
set_current_proxy-Keeps p m = elim (Bool-cases (one_of p m.proxies)) [
  | inl there ↦ rw there (record { same = refl; in_list = inr (index_of-lt p m.proxies there) })
  | inr other ↦ rw other (Keeps-refl m)
]

pub timed-Keeps :
    (now : ℕ) (p : Text) (m : ProxyManager)
    → Keeps m (record (set_current_proxy p m) { last_rotate_time = now })
timed-Keeps now p m =
    let kept = set_current_proxy-Keeps p m in record { same = kept.same; in_list = kept.in_list }

pub moved-Keeps : (p : Text) (m : ProxyManager) (o : Option Text) → Keeps m (replaced p m o).1
moved-Keeps p m none = Keeps-refl m
moved-Keeps p m (some q) = set_current_proxy-Keeps q m

pub rotated-Keeps :
    (now : ℕ) (p : Text) (m : ProxyManager) (o : Option Text) → Keeps m (rotated now p m o).1
rotated-Keeps now p m none = Keeps-refl m
rotated-Keeps now p m (some q) = timed-Keeps now q m

pub rotated_to-Keeps :
    (now : ℕ) (m : ProxyManager) (o : Option Text) → Keeps m (rotated_to now m o).1
rotated_to-Keeps now m none = Keeps-refl m
rotated_to-Keeps now m (some q) = timed-Keeps now q m

pub leave_disabled-Keeps :
    (clock : ℕ → ℕ) (r : ℕ) (p : Text) (m : ProxyManager) → Keeps m (leave_disabled clock r p m).1
unfolding leave_disabled
leave_disabled-Keeps clock r p m = elim (Bool-cases (ltb (clock 0) (m.disabled_until p))) [
  | inl cooling ↦ rw cooling (
      moved-Keeps p m
        (pick_next_proxy (available_rotation_candidates (p ∷ []) (clock 1) m) p true r m))
  | inr ready ↦ rw ready (Keeps-refl m)
]

pub rotate_if_due-Keeps :
    (clock : ℕ → ℕ) (r : ℕ) (p : Text) (m : ProxyManager) → Keeps m (rotate_if_due clock r p m).1
unfolding rotate_if_due
rotate_if_due-Keeps clock r p m = elim (Bool-cases (is_rotation_due (clock 2) m)) [
  | inl due ↦ rw due (
      rotated-Keeps (clock 4) p m
        (pick_next_proxy (available_rotation_candidates (p ∷ []) (clock 3) m) p true r m))
  | inr early ↦ rw early (Keeps-refl m)
]

pub use_proxy-Keeps :
    (clock r : ℕ → ℕ) (p : Text) (m : ProxyManager) → Keeps m (use_proxy clock r p m).1
unfolding use_proxy
use_proxy-Keeps clock r p m =
    let left = leave_disabled clock (r 0) p m in
    Keeps-trans m left.1 (rotate_if_due clock (r 1) left.0 left.1).1
      (leave_disabled-Keeps clock (r 0) p m) (rotate_if_due-Keeps clock (r 1) left.0 left.1)

pub get_proxy-Keeps :
    (clock r : ℕ → ℕ) (m : ProxyManager) (o : Option Text) → Keeps m (get_proxy clock r m o).1
get_proxy-Keeps clock r m none = Keeps-refl m
get_proxy-Keeps clock r m (some p) =
    Keeps-trans m (sanitize_runtime_state m) (use_proxy clock r p (sanitize_runtime_state m)).1
      (sanitize-Keeps m) (use_proxy-Keeps clock r p (sanitize_runtime_state m))

pub get_current_proxy-Keeps :
    (clock r : ℕ → ℕ) (m : ProxyManager) → Keeps m (get_current_proxy clock r m).1
unfolding get_current_proxy
get_current_proxy-Keeps clock r m =
    ite_Keeps_result (not m.enabled) m (none, m) (get_proxy clock r m (current m)) (Keeps-refl m)
      (get_proxy-Keeps clock r m (current m))

pub rotate_from-Keeps :
    (clock : ℕ → ℕ) (r : ℕ) (randomize : Bool) (m : ProxyManager) (o : Option Text)
    → Keeps m (rotate_from clock r randomize m o).1
unfolding rotate_from
rotate_from-Keeps clock r randomize m none = Keeps-refl m
rotate_from-Keeps clock r randomize m (some cur) =
    let s = sanitize_runtime_state m in
    let picked = pick_next_proxy (rotation_candidates clock cur s) cur randomize r s in
    Keeps-trans m s (rotated_to (clock 2) s picked).1 (sanitize-Keeps m)
      (rotated_to-Keeps (clock 2) s picked)

pub rotate-Keeps :
    (clock : ℕ → ℕ) (r : ℕ) (randomize : Bool) (m : ProxyManager)
    → Keeps m (rotate clock r randomize m).1
unfolding rotate
rotate-Keeps clock r randomize m = rotate_from-Keeps clock r randomize m (current m)

pub record_failure-Keeps :
    (clock : ℕ → ℕ) (p : Text) (m : ProxyManager) → Keeps m (record_failure clock p m)
unfolding record_failure
record_failure-Keeps clock p m = record { same = refl; in_list = inl refl }

pub after_failure-Keeps :
    (clock : ℕ → ℕ) (r : ℕ) (p : Text) (m : ProxyManager) → Keeps m (after_failure clock r p m)
unfolding after_failure
after_failure-Keeps clock r p m =
    let alternatives = available_rotation_candidates (p ∷ []) (clock 7) m in
    let turned = (rotate (λ k. clock (k + 8)) r true m).1 in
    let turns = m.auto_rotate_on_fail && ltb 1 (length m.proxies) && not (is_empty alternatives) in
    ite_Keeps
      (leb (threshold m) (m.fail_counts p) && m.kill_switch_enabled && is_empty alternatives) m
      (record m { enabled = false }) (if turns then turned else m)
      (record { same = refl; in_list = inl refl })
      (ite_Keeps turns m turned m (rotate-Keeps (λ k. clock (k + 8)) r true m) (Keeps-refl m))

pub fail_proxy-Keeps :
    (clock : ℕ → ℕ) (r : ℕ) (p : Text) (m : ProxyManager) → Keeps m (fail_proxy clock r p m)
unfolding fail_proxy
fail_proxy-Keeps clock r [] m = Keeps-refl m
fail_proxy-Keeps clock r (c ∷ p) m =
    let failed = record_failure clock (c ∷ p) m in
    Keeps-trans m failed (after_failure clock r (c ∷ p) failed)
      (record_failure-Keeps clock (c ∷ p) m) (after_failure-Keeps clock r (c ∷ p) failed)

pub fail_named-Keeps :
    (clock r : ℕ → ℕ) (p : Text) (m : ProxyManager) → Keeps m (fail_named clock r p m)
unfolding fail_named
fail_named-Keeps clock r [] m =
    let found = get_current_proxy clock r m in
    Keeps-trans m found.1 (fail_proxy clock (r 2) (text_or_empty found.0) found.1)
      (get_current_proxy-Keeps clock r m)
      (fail_proxy-Keeps clock (r 2) (text_or_empty found.0) found.1)
fail_named-Keeps clock r (c ∷ p) m = fail_proxy-Keeps clock (r 2) (c ∷ p) m

pub on_failure-Keeps :
    (clock r : ℕ → ℕ) (p : Text) (m : ProxyManager) → Keeps m (on_failure clock r p m)
unfolding on_failure
on_failure-Keeps clock r p m =
    let s = sanitize_runtime_state m in
    Keeps-trans m s (fail_named clock r (strip p) s) (sanitize-Keeps m)
      (fail_named-Keeps clock r (strip p) s)

pub can_rotate-Keeps : (now : ℕ) (m : ProxyManager) → Keeps m (can_rotate now m).1
unfolding can_rotate
can_rotate-Keeps now m =
    let s = sanitize_runtime_state m in
    ite_Keeps_checked (not m.enabled || leb (length m.proxies) 1) m (false, m)
      (has_ready_alternative now s (current s), s) (Keeps-refl m) (sanitize-Keeps m)

pub set_enabled-Keeps : (on : Bool) (m : ProxyManager) → Keeps m (set_enabled on m)
unfolding set_enabled
set_enabled-Keeps on m = record { same = refl; in_list = inl refl }
