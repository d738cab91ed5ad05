-- ===== src/Proxy/Candidates.antt =====
-- core/proxy_manager.py: what `_available_rotation_candidates_locked` gives.
use hyper_loader.Prelude.{
  List, Text, arith, false, inl, inr, not, one_of, true, ℕ, ◌&&◌, ◌≡◌, Bool-cases, [], ap, refl,
  strip, sym, ◌∙◌, ◌∷◌, is_empty, is_empty-one_of, keep_if-one_of, one_of-cases, one_of-keep_if,
}
use hyper_loader.Proxy.{
  ProxyManager, or_list, is_rested, available_rotation_candidates, others, ready_others,
}
use hyper_loader.Proxy.Members.{IsClean, one_of-or_list, normalize_proxy_list-IsClean}
use hyper_loader.Proxy.Pick.Laws.{is_empty-or_list}

pub IsClean-one : (p : Text) → strip p ≡ p → is_empty p ≡ false → IsClean (p ∷ [])
unfolding one_of
IsClean-one p stripped filled q h = elim (one_of-cases q p [] h) [
  | inl same ↦ (ap strip same ∙ stripped ∙ sym same, ap is_empty same ∙ filled)
  | inr other ↦ cc
]

pub or_list-first {ℓ} : {A : Type ℓ} (xs ys : List A) → is_empty xs ≡ false → or_list xs ys ≡ xs
or_list-first [] ys h = cc
or_list-first (x ∷ xs) ys h = refl

module _ (ex : List Text) (now : ℕ) (m : ProxyManager) (clean : IsClean ex) where
  pub candidates_eq :
      available_rotation_candidates ex now m ≡ or_list (ready_others ex now m) (others ex m)
  unfolding available_rotation_candidates
  candidates_eq = rw (normalize_proxy_list-IsClean ex clean) refl

  pub candidates-one_of :
      (p : Text)
      → one_of p (available_rotation_candidates ex now m) ≡ true
      → (one_of p m.proxies ≡ true) × (one_of p ex ≡ false)
  candidates-one_of p h =
      elim (one_of-or_list p (ready_others ex now m) (others ex m) (rw candidates_eq at h)) [
        | inl ready ↦
            let (there, passes) =
              one_of-keep_if (λ q. not (one_of q ex) && is_rested now m q) p m.proxies ready in
            (there, ground (arith, passes))
        | inr other ↦
            let (there, passes) = one_of-keep_if (λ q. not (one_of q ex)) p m.proxies other in
            (there, ground (arith, passes))
      ]

  pub candidates-IsClean : IsClean m.proxies → IsClean (available_rotation_candidates ex now m)
  candidates-IsClean clean_all p h = clean_all p (candidates-one_of p h).0

  module _ (p : Text) (there : one_of p m.proxies ≡ true) (free : one_of p ex ≡ false) where
    pub is_empty-candidates : is_empty (available_rotation_candidates ex now m) ≡ false
    is_empty-candidates = elim (Bool-cases (is_empty (ready_others ex now m))) [
      | inr some_ready ↦
          ap is_empty
            (candidates_eq ∙ or_list-first (ready_others ex now m) (others ex m) some_ready)
          ∙ some_ready
      | inl none_ready ↦ rw candidates_eq (
          is_empty-or_list (ready_others ex now m) (others ex m) (
            is_empty-one_of p (others ex m)
              (keep_if-one_of (λ q. not (one_of q ex)) p m.proxies there (ground (arith, free)))))
    ]

    -- where a proxy that is not excluded is ready, all candidates are
    pub candidates-ready :
        (q : Text)
        → is_rested now m p ≡ true
        → one_of q (available_rotation_candidates ex now m) ≡ true
        → is_rested now m q ≡ true
    candidates-ready q ready h =
        let in_ready =
          keep_if-one_of (λ x. not (one_of x ex) && is_rested now m x) p m.proxies there
            (ground (arith, free, ready)) in
        let only =
          candidates_eq
          ∙ or_list-first (ready_others ex now m) (others ex m)
              (is_empty-one_of p (ready_others ex now m) in_ready) in
        ground (
          arith,
          (one_of-keep_if (λ x. not (one_of x ex) && is_rested now m x) q m.proxies
              (rw only at h)).1,
        )
