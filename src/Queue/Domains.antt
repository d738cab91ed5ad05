-- ===== src/Queue/Domains.antt =====
-- core/queue_manager.py: the domain of a URL and its limit of concurrent downloads.
-- `netloc` is what `urllib.parse.urlparse(url).netloc` computes, less its checks of the address
-- inside brackets and of Unicode normalisation.
use hyper_loader.Prelude.{
  ℕ, Text, codes, text_eq, one_of, strip, lower, starts_with, contains, drop, keep_if, ◌==◌, leb,
  if◌then◌else◌, not, ◌&&◌, ◌||◌, Bool, [], ◌∷◌, Result, ok, raise, value_error, ◌>>=◌, or_else,
}

abbrev is_alpha : ℕ → Bool
is_alpha c = leb b'a' c && leb c b'z' || leb b'A' c && leb c b'Z'

abbrev is_scheme_char : ℕ → Bool
is_scheme_char c = is_alpha c || leb b'0' c && leb c b'9' || c == b'+' || c == b'-' || c == b'.'

-- control characters and spaces in front
skip_controls : Text → Text
skip_controls [] = []
skip_controls (c ∷ s) = let rest = skip_controls s in if leb c 32 then rest else c ∷ s

after_colon : Text → Text → Text
after_colon [] whole = whole
after_colon (c ∷ s) whole =
    let rest = after_colon s whole in
    if c == b':' then s else if is_scheme_char c then rest else whole

without_scheme : Text → Text
without_scheme [] = []
without_scheme (c ∷ s) = if is_alpha c then after_colon s (c ∷ s) else c ∷ s

-- up to the first of `/?#`
authority : Text → Text
authority [] = []
authority (c ∷ s) =
    let rest = authority s in if c == b'/' || c == b'?' || c == b'#' then [] else c ∷ rest

has_char : ℕ → Text → Bool
has_char d s = contains s (d ∷ [])

unfoldable pub netloc : Text → Result Text
unfolding skip_controls after_colon without_scheme authority has_char starts_with contains
netloc url =
    let kept = keep_if (λ c. not (c == 9 || c == 10 || c == 13)) (skip_controls url) in
    let rest = without_scheme kept in
    let loc = if starts_with rest (codes "//") then authority (drop 2 rest) else [] in
    let opens = has_char 91 loc in
    let closes = has_char 93 loc in
    if opens && not closes || closes && not opens then raise value_error else ok loc

-- the result after `www.` and the names of YouTube
domain_name : Text → Text
unfolding one_of starts_with
domain_name loc =
    let domain = if starts_with loc (codes "www.") then drop 4 loc else loc in
    if one_of domain (
      codes "youtu.be"
      ∷ codes "youtube.com"
      ∷ codes "m.youtube.com"
      ∷ codes "music.youtube.com"
      ∷ [])
    then codes "youtube"
    else domain

unfoldable pub normalized_domain : Text → Text
unfolding netloc domain_name strip lower
normalized_domain url = or_else (do loc ← netloc url; ok (domain_name (strip (lower loc)))) []

unfoldable pub domain_concurrency_limit : Text → ℕ
unfolding lower contains text_eq
domain_concurrency_limit domain =
    let normalized = lower domain in
    if text_eq normalized (codes "youtube")
      || contains normalized (codes "youtube.com")
      || contains normalized (codes "youtu.be")
    then 2
    else 4
