-- ===== src/Segments/Ranges.antt =====
-- core/download_providers_oop/segmented_provider.py: `_validate_chunk_response`, which tests the status
-- and the header `Content-Range`. Digits are the ASCII ones.
use hyper_loader.Prelude.{
  ℕ, Bool, Option, Text, [], codes, drop, false, if◌then◌else◌, is_space, leb, lower, none, some,
  strip, strip_left, take, text_eq, ◌&&◌, ◌*◌, ◌+◌, ◌-◌, ◌==◌, ◌∷◌,
}
use hyper_loader.Segments.Chunks.{Chunk}

abbrev is_digit : ℕ → Bool
is_digit c = leb b'0' c && leb c b'9'

-- the digits in front of a text, as a number, and what follows them
unfoldable pub digits_from : ℕ → Text → ℕ × Text
digits_from acc [] = (acc, [])
digits_from acc (c ∷ s) =
    let rest = digits_from (acc * 10 + (c - b'0')) s in if is_digit c then rest else (acc, c ∷ s)

-- `\d+`
unfoldable pub number : Text → Option (ℕ × Text)
unfolding digits_from
number [] = none
number (c ∷ s) = if is_digit c then some (digits_from 0 (c ∷ s)) else none

-- one character, and what follows it
unfoldable pub after_char : ℕ → Text → Option Text
after_char d [] = none
after_char d (c ∷ s) = if c == d then some s else none

-- `\s+`
unfoldable pub after_spaces : Text → Option Text
unfolding is_space strip_left
after_spaces [] = none
after_spaces (c ∷ s) = if is_space c then some (strip_left s) else none

-- `(\d+|\*)$`
unfoldable pub ends_with_total : Text → Bool
unfolding number
ends_with_total s = elim (number s) [
  | some (n, rest) ↦ text_eq rest []
  | none ↦ text_eq s (codes "*")
]

infixl 5 ◌>>?◌
abbrev ◌>>?◌ {ℓ κ} : {A : Type ℓ} {B : Type κ} → Option A → (A → Option B) → Option B
none >>? f = none
some a >>? f = f a

-- the match of `^bytes\s+(\d+)-(\d+)/(\d+|\*)$` with the case ignored: the two first numbers
unfoldable pub parse_content_range : Text → Option (ℕ × ℕ)
unfolding strip lower text_eq after_spaces number after_char ends_with_total
parse_content_range header =
    let s = strip header in
    let parsed = after_spaces (drop 5 s) >>? λ s1. number s1 >>? λ start.
    after_char b'-' start.1 >>? λ s2. number s2 >>? λ end.
    after_char b'/' end.1 >>? λ s3. if ends_with_total s3 then some (start.0, end.0) else none in
    if text_eq (lower (take 5 s)) (codes "bytes") then parsed else none

unfoldable pub is_range : Chunk → Option (ℕ × ℕ) → Bool
is_range c none = false
is_range c (some (start, end)) = start == c.start && end == c.end

-- whether no `_SegmentedRangeError` is raised
unfoldable pub validate_chunk_response : Chunk → ℕ → Text → Bool
unfolding parse_content_range is_range
validate_chunk_response c status header = status == 206 && is_range c (parse_content_range header)
