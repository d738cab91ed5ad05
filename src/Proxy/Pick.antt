-- ===== src/Proxy/Pick.antt =====
-- core/proxy_manager.py: `_pick_next_proxy_locked`, in the order of the list or at random among the
-- proxies that failed least.
pub mod Laws
use hyper_loader.Prelude.{
  Bool, List, Option, Text, [], drop, false, get_elem?, if◌then◌else◌, keep_if, leb, length, ltb,
  none, not, one_of, some, take, text_eq, true, ℕ, ◌%◌, ◌&&◌, ◌++◌, ◌+◌, ◌==◌, ◌||◌, ◌∷◌,
  sorted_texts,
}
use hyper_loader.Proxy.{ProxyManager, or_list, normalize_proxy_list, index_of}

-- `(failures, time of the last one)`
abbrev pub score : ProxyManager → Text → ℕ × ℕ
score m p = (m.fail_counts p, m.last_failure_ts p)

abbrev pub score_le : ℕ × ℕ → ℕ × ℕ → Bool
score_le (a, b) (c, d) = ltb a c || a == c && leb b d

abbrev pub score_eq : ℕ × ℕ → ℕ × ℕ → Bool
score_eq (a, b) (c, d) = a == c && b == d

-- `min` of the scores
unfoldable pub least : ProxyManager → Text → List Text → ℕ × ℕ
least m p [] = score m p
least m p (q ∷ qs) =
    let rest = least m q qs in if score_le (score m p) rest then score m p else rest

-- the proxies with the least score
unfoldable pub best : ProxyManager → Text → List Text → List Text
unfolding least sorted_texts
best m p ps = sorted_texts (keep_if (λ q. score_eq (score m q) (least m p ps)) (p ∷ ps))

-- `random.choice`, with the index that is drawn
abbrev pub random_choice {ℓ} : {A : Type ℓ} → ℕ → List A → Option A
random_choice r xs = get_elem? xs (r % length xs)

-- the list from the place after the current proxy on
unfoldable pub in_turn : Text → List Text → List Text
unfolding one_of index_of
in_turn cur ps =
    if one_of cur ps then drop (index_of cur ps + 1) ps ++ take (index_of cur ps + 1) ps else ps

-- the first that is among the others, or a fallback
unfoldable pub first_of : List Text → List Text → Text → Text
unfolding one_of
first_of [] among d = d
first_of (p ∷ ps) among d = let rest = first_of ps among d in if one_of p among then p else rest

-- for candidates that are stripped
unfoldable pub pick_among : List Text → Text → Bool → ℕ → ProxyManager → Option Text
unfolding best in_turn first_of
pick_among [] cur randomize r m = none
pick_among (p ∷ ps) cur false r m = some (first_of (in_turn cur m.proxies) (p ∷ ps) p)
pick_among (p ∷ ps) cur true r m =
    random_choice r (or_list (keep_if (λ q. not (text_eq q cur)) (best m p ps)) (best m p ps))

unfoldable pub pick_next_proxy : List Text → Text → Bool → ℕ → ProxyManager → Option Text
unfolding pick_among normalize_proxy_list
pick_next_proxy candidates cur randomize r m =
    pick_among (normalize_proxy_list candidates) cur randomize r m
