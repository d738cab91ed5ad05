-- ===== src/Proxy/Picked.antt =====
-- core/proxy_manager.py: the proxy that is picked in place of the current one.
use hyper_loader.Prelude.{
  List, Text, arith, false, length, one_of, true, ℕ, ◌<◌, ◌≡◌, ◌⊎◌, [], refl, sym, ◌∙◌, ◌∷◌, Bool,
  some, text_eq, text_eq_iff, is_empty-one_of,
}
use hyper_loader.Proxy.{
  ProxyManager, sanitize_runtime_state, is_rested, available_rotation_candidates,
}
use hyper_loader.Proxy.Members.{IsClean, normalize_proxy_list-IsClean}
use hyper_loader.Proxy.Candidates.{
  IsClean-one, candidates-one_of, candidates-IsClean, is_empty-candidates, candidates-ready,
}
use hyper_loader.Proxy.Pick.{pick_next_proxy}
use hyper_loader.Proxy.Pick.Laws.{pick_next_proxy-one_of, pick_next_proxy-some}

-- The proxies are stripped and not empty, and the index is that of one of them, or 0.
pub record IsValid (m : ProxyManager) : Type 0 where
  pub clean : IsClean m.proxies
  pub in_range : (m.current_index ≡ 0) ⊎ (m.current_index < length m.proxies)

-- sanitising keeps what is recorded of a listed proxy
pub sanitize-ready :
    (m : ProxyManager) (now : ℕ) (p : Text)
    → IsClean m.proxies
    → one_of p m.proxies ≡ true
    → is_rested now (sanitize_runtime_state m) p ≡ is_rested now m p
unfolding sanitize_runtime_state
sanitize-ready m now p clean there = rw (normalize_proxy_list-IsClean m.proxies clean, there) refl

pub one_of-other : (p q : Text) → one_of q (p ∷ []) ≡ text_eq q p
unfolding one_of
one_of-other p q = ground arith

same_member : (x p : Text) → one_of p (x ∷ []) ≡ true → p ≡ x
same_member x p h = (text_eq_iff p x).0 (sym (one_of-other x p) ∙ h)

pub two_members :
    (ps : List Text) (p q : Text)
    → one_of p ps ≡ true
    → one_of q ps ≡ true
    → text_eq q p ≡ false
    → 1 < length ps
two_members [] p q hp hq h = absurd (ground (arith, is_empty-one_of p [] hp))
two_members (x ∷ []) p q hp hq h =
    let same : q ≡ p = same_member x q hq ∙ sym (same_member x p hp) in
    absurd (ground (arith, (text_eq_iff q p).1 same, h))
two_members (x ∷ y ∷ ps) p q hp hq h = omega arith

module _ (m : ProxyManager) (valid : IsValid m) (cur : Text) (now : ℕ) (randomize : Bool) (r : ℕ)
    (listed : one_of cur m.proxies ≡ true) where
  pub cur-IsClean : IsClean (cur ∷ [])
  cur-IsClean = let (stripped, filled) = valid.clean cur listed in IsClean-one cur stripped filled

  pub listed-IsClean : IsClean (available_rotation_candidates (cur ∷ []) now m)
  listed-IsClean = candidates-IsClean (cur ∷ []) now m cur-IsClean valid.clean

  -- what is picked in place of the current proxy is another one of the list
  pub picked :
      (p : Text)
      → pick_next_proxy (available_rotation_candidates (cur ∷ []) now m) cur randomize r m ≡ some p
      → (one_of p m.proxies ≡ true) × (text_eq p cur ≡ false)
  picked p h =
      let (there, free) = candidates-one_of (cur ∷ []) now m cur-IsClean p (
        pick_next_proxy-one_of (available_rotation_candidates (cur ∷ []) now m) listed-IsClean cur
          randomize r m p h) in
      (there, sym (one_of-other cur p) ∙ free)

  module _ (q : Text) (there : one_of q m.proxies ≡ true) (other : text_eq q cur ≡ false) where
    pub picks :
        (p : Text) × (pick_next_proxy
            (available_rotation_candidates (cur ∷ []) now m)
            cur
            randomize
            r
            m
          ≡ some p)
    picks =
        pick_next_proxy-some (available_rotation_candidates (cur ∷ []) now m) listed-IsClean cur
          randomize r m
          (is_empty-candidates (cur ∷ []) now m cur-IsClean q there (one_of-other cur q ∙ other))

    -- and it is ready if any of the others is
    pub picked-ready :
        (p : Text)
        → is_rested now m q ≡ true
        → pick_next_proxy (available_rotation_candidates (cur ∷ []) now m) cur randomize r m
          ≡ some p
        → is_rested now m p ≡ true
    picked-ready p ready h =
        candidates-ready (cur ∷ []) now m cur-IsClean q there (one_of-other cur q ∙ other) p ready (
          pick_next_proxy-one_of (available_rotation_candidates (cur ∷ []) now m) listed-IsClean cur
            randomize r m p h)
