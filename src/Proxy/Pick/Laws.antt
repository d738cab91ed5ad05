-- ===== src/Proxy/Pick/Laws.antt =====
-- core/proxy_manager.py: that `_pick_next_proxy_locked` picks a candidate, if there is one.
use hyper_loader.Prelude.{
  Bool, Bool-cases, List, Text, [], arith, false, inl, inr, keep_if, length, not, one_of, refl,
  some, sym, text_eq, true, ℕ, ◌%◌, ◌∙◌, ◌∷◌, ◌≡◌, ap, is_empty, is_empty-one_of, keep_if-one_of,
  one_of-head, one_of-keep_if, one_of-sorted_texts, one_of-tail, sorted_texts,
}
use hyper_loader.Proxy.{ProxyManager, or_list}
use hyper_loader.Proxy.Members.{
  IsClean, one_of-or_list, get_elem?-one_of, get_elem?-lt, normalize_proxy_list-IsClean,
}
use hyper_loader.Proxy.Pick.{
  score, score_le, score_eq, least, best, random_choice, first_of, in_turn, pick_among,
  pick_next_proxy,
}

score_eq_refl : (x : ℕ × ℕ) → score_eq x x ≡ true
score_eq_refl (a, b) = ground arith

-- the least score is that of a candidate
least_attained :
    (m : ProxyManager) (p : Text) (ps : List Text)
    → (q : Text) × (one_of q (p ∷ ps) ≡ true) × (score_eq (score m q) (least m p ps) ≡ true)
unfolding least
least_attained m p [] = (p, one_of-head p [], score_eq_refl (score m p))
least_attained m p (q ∷ qs) = elim (Bool-cases (score_le (score m p) (least m q qs))) [
  | inl less ↦ (p, one_of-head p (q ∷ qs), rw less (score_eq_refl (score m p)))
  | inr more ↦
      let (x, there, same) = least_attained m q qs in
      (x, one_of-tail x p (q ∷ qs) there, rw more same)
]

best-one_of :
    (m : ProxyManager) (p : Text) (ps : List Text) (q : Text)
    → one_of q (best m p ps) ≡ true
    → one_of q (p ∷ ps) ≡ true
unfolding best
best-one_of m p ps q h =
    (one_of-keep_if (λ x. score_eq (score m x) (least m p ps)) q (p ∷ ps)
      (sym (one_of-sorted_texts q (keep_if (λ x. score_eq (score m x) (least m p ps)) (p ∷ ps)))
        ∙ h)).0

is_empty-best : (m : ProxyManager) (p : Text) (ps : List Text) → is_empty (best m p ps) ≡ false
unfolding best
is_empty-best m p ps =
    let (q, there, same) = least_attained m p ps in
    let kept = keep_if (λ x. score_eq (score m x) (least m p ps)) (p ∷ ps) in
    is_empty-one_of q (sorted_texts kept) (
      one_of-sorted_texts q kept
      ∙ keep_if-one_of (λ x. score_eq (score m x) (least m p ps)) q (p ∷ ps) there same)

random_choice-some {ℓ} :
    {A : Type ℓ} (r : ℕ) (xs : List A)
    → is_empty xs ≡ false
    → (x : A) × (random_choice r xs ≡ some x)
random_choice-some r [] h = cc
random_choice-some r (x ∷ xs) h = get_elem?-lt (x ∷ xs) (r % length (x ∷ xs)) (omega arith)

pub is_empty-or_list {ℓ} :
    {A : Type ℓ} (xs ys : List A) → is_empty ys ≡ false → is_empty (or_list xs ys) ≡ false
is_empty-or_list [] ys h = h
is_empty-or_list (x ∷ xs) ys h = refl

first_of-one_of :
    (ps among : List Text) (d : Text)
    → one_of d among ≡ true
    → one_of (first_of ps among d) among ≡ true
unfolding first_of
first_of-one_of [] among d h = h
first_of-one_of (p ∷ ps) among d h = elim (Bool-cases (one_of p among)) [
  | inl there ↦ rw there there
  | inr other ↦ rw other (first_of-one_of ps among d h)
]

pick_among-one_of :
    (ps : List Text) (cur : Text) (randomize : Bool) (r : ℕ) (m : ProxyManager) (q : Text)
    → pick_among ps cur randomize r m ≡ some q
    → one_of q ps ≡ true
unfolding pick_among
pick_among-one_of [] cur randomize r m q h = cc
pick_among-one_of (p ∷ ps) cur false r m q h =
    let same : first_of (in_turn cur m.proxies) (p ∷ ps) p ≡ q = cc in
    sym (ap (λ x. one_of x (p ∷ ps)) same)
    ∙ first_of-one_of (in_turn cur m.proxies) (p ∷ ps) p (one_of-head p ps)
pick_among-one_of (p ∷ ps) cur true r m q h =
    let movable = keep_if (λ x. not (text_eq x cur)) (best m p ps) in
    let pool = or_list movable (best m p ps) in
    best-one_of m p ps q
      (elim (one_of-or_list q movable (best m p ps) (get_elem?-one_of pool (r % length pool) q h)) [
        | inl there ↦ (one_of-keep_if (λ x. not (text_eq x cur)) q (best m p ps) there).0
        | inr there ↦ there
      ])

pick_among-some :
    (ps : List Text) (cur : Text) (randomize : Bool) (r : ℕ) (m : ProxyManager)
    → is_empty ps ≡ false
    → (q : Text) × (pick_among ps cur randomize r m ≡ some q)
unfolding pick_among
pick_among-some [] cur randomize r m h = cc
pick_among-some (p ∷ ps) cur false r m h = (first_of (in_turn cur m.proxies) (p ∷ ps) p, refl)
pick_among-some (p ∷ ps) cur true r m h =
    random_choice-some r (or_list (keep_if (λ x. not (text_eq x cur)) (best m p ps)) (best m p ps))
      (is_empty-or_list (keep_if (λ x. not (text_eq x cur)) (best m p ps)) (best m p ps)
        (is_empty-best m p ps))

module _ (ps : List Text) (clean : IsClean ps) (cur : Text) (randomize : Bool) (r : ℕ)
    (m : ProxyManager) where
  pub pick_next_proxy-one_of :
      (q : Text) → pick_next_proxy ps cur randomize r m ≡ some q → one_of q ps ≡ true
  unfolding pick_next_proxy
  pick_next_proxy-one_of q h =
      pick_among-one_of ps cur randomize r m q (rw (normalize_proxy_list-IsClean ps clean) at h)

  pub pick_next_proxy-some :
      is_empty ps ≡ false → (q : Text) × (pick_next_proxy ps cur randomize r m ≡ some q)
  unfolding pick_next_proxy
  pick_next_proxy-some h =
      rw (normalize_proxy_list-IsClean ps clean) (pick_among-some ps cur randomize r m h)
