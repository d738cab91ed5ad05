-- ===== src/Proxy/Runs.antt =====
-- core/proxy_manager.py: any sequence of calls.
use hyper_loader.Prelude.{
  Bool, List, Text, [], arith, inl, inr, refl, ℕ, ◌∙◌, ◌∷◌, ◌≡◌, Bool-cases, false, not, one_of,
  strip, true, ◌&&◌, ap, length-append, strip-strip, sym, text_eq, ◌++◌, is_empty, is_empty-one_of,
  one_of-cases, one_of-head, one_of-tail,
}
use hyper_loader.Proxy.{ProxyManager, sanitize_runtime_state}
use hyper_loader.Proxy.Members.{IsClean, tail-IsClean}
use hyper_loader.Proxy.Picked.{IsValid}
use hyper_loader.Proxy.Calls.{
  can_rotate, scheme_of, schemes, get_current_proxy, rotate, on_failure, add_proxy, remove_first,
  remove_proxy, set_enabled,
}
use hyper_loader.Proxy.Keeps.{
  Keeps-IsValid, get_current_proxy-Keeps, rotate-Keeps, on_failure-Keeps, can_rotate-Keeps,
  set_enabled-Keeps,
}

-- the calls of a manager
pub data Call : Type 0 where
  check_call : ℕ → Call
  current_call : (ℕ → ℕ) → (ℕ → ℕ) → Call
  rotate_call : (ℕ → ℕ) → ℕ → Bool → Call
  failure_call : (ℕ → ℕ) → (ℕ → ℕ) → Text → Call
  add_call remove_call : Text → Call
  enable_call : Bool → Call

unfoldable pub run : Call → ProxyManager → ProxyManager
unfolding can_rotate get_current_proxy rotate on_failure add_proxy remove_proxy set_enabled
run (check_call now) m = (can_rotate now m).1
run (current_call clock r) m = (get_current_proxy clock r m).1
run (rotate_call clock r randomize) m = (rotate clock r randomize m).1
run (failure_call clock r p) m = on_failure clock r p m
run (add_call url) m = add_proxy url m
run (remove_call url) m = remove_proxy url m
run (enable_call on) m = set_enabled on m

unfoldable pub run_all : List Call → ProxyManager → ProxyManager
unfolding run
run_all [] m = m
run_all (c ∷ cs) m = run_all cs (run c m)

append-IsClean :
    (ps : List Text) (url : Text)
    → IsClean ps
    → is_empty (strip url) ≡ false
    → IsClean (ps ++ strip url ∷ [])
append-IsClean [] url clean filled p h = elim (one_of-cases p (strip url) [] h) [
  | inl same ↦ (ap strip same ∙ strip-strip url ∙ sym same, ap is_empty same ∙ filled)
  | inr none_left ↦ absurd (ground (arith, is_empty-one_of p [] none_left))
]
append-IsClean (q ∷ ps) url clean filled p h = elim (one_of-cases p q (ps ++ strip url ∷ []) h) [
  | inl same ↦ clean p (ap (λ x. one_of x (q ∷ ps)) same ∙ one_of-head q ps)
  | inr later ↦ append-IsClean ps url (tail-IsClean q ps clean) filled p later
]

add_proxy-IsValid : (url : Text) (m : ProxyManager) → IsValid m → IsValid (add_proxy url m)
unfolding add_proxy sanitize_runtime_state
add_proxy-IsValid url m valid =
    elim (Bool-cases (
      not (is_empty (strip url))
      && not (one_of (strip url) m.proxies)
      && one_of (scheme_of (strip url)) schemes)) [
        | inl added ↦ rw added (record {
          clean = append-IsClean m.proxies url valid.clean (ground (arith, added));
          in_range = elim valid.in_range [
            | inl zeroth ↦ inl zeroth
            | inr low ↦ inr (omega (arith, length-append m.proxies (strip url ∷ [])))
          ];
        })
        | inr refused ↦ rw refused valid
      ]

one_of-remove_first :
    (url p : Text) (ps : List Text) → one_of p (remove_first url ps) ≡ true → one_of p ps ≡ true
unfolding remove_first
one_of-remove_first url p [] h = h
one_of-remove_first url p (q ∷ ps) h = elim (Bool-cases (text_eq url q)) [
  | inl same ↦ one_of-tail p q ps (rw same at h)
  | inr other ↦ elim (one_of-cases p q (remove_first url ps) (rw other at h)) [
    | inl first ↦ ap (λ x. one_of x (q ∷ ps)) first ∙ one_of-head q ps
    | inr later ↦ one_of-tail p q ps (one_of-remove_first url p ps later)
  ]
]

remove_proxy-IsValid : (url : Text) (m : ProxyManager) → IsValid m → IsValid (remove_proxy url m)
unfolding remove_proxy sanitize_runtime_state
remove_proxy-IsValid url m valid = elim (Bool-cases (one_of url m.proxies)) [
  | inl there ↦ rw there (record {
    clean = λ p h. valid.clean p (one_of-remove_first url p m.proxies h);
    in_range = inl refl;
  })
  | inr missing ↦ rw missing valid
]

run-IsValid : (c : Call) (m : ProxyManager) → IsValid m → IsValid (run c m)
unfolding run
run-IsValid (check_call now) m valid =
    Keeps-IsValid m (can_rotate now m).1 (can_rotate-Keeps now m) valid
run-IsValid (current_call clock r) m valid =
    Keeps-IsValid m (get_current_proxy clock r m).1 (get_current_proxy-Keeps clock r m) valid
run-IsValid (rotate_call clock r randomize) m valid =
    Keeps-IsValid m (rotate clock r randomize m).1 (rotate-Keeps clock r randomize m) valid
run-IsValid (failure_call clock r p) m valid =
    Keeps-IsValid m (on_failure clock r p m) (on_failure-Keeps clock r p m) valid
run-IsValid (add_call url) m valid = add_proxy-IsValid url m valid
run-IsValid (remove_call url) m valid = remove_proxy-IsValid url m valid
run-IsValid (enable_call on) m valid =
    Keeps-IsValid m (set_enabled on m) (set_enabled-Keeps on m) valid

-- After any sequence of calls on a manager whose proxies are stripped and not empty and whose index
-- is in range, its proxies are stripped and not empty and its index is in range.
pub run_all-IsValid : (cs : List Call) (m : ProxyManager) → IsValid m → IsValid (run_all cs m)
unfolding run_all
run_all-IsValid [] m valid = valid
run_all-IsValid (c ∷ cs) m valid = run_all-IsValid cs (run c m) (run-IsValid c m valid)
