-- ===== src/Network/Names.antt =====
-- core/network_safety.py: `is_basic_hostname`, and the cutting of names.
use hyper_loader.Prelude.{
  Bool, List, Text, [], codes, contains, drop, false, if◌then◌else◌, is_empty, leb, length, lower,
  not, starts_with, strip, true, ℕ, ◌&&◌, ◌==◌, ◌||◌, ◌∷◌,
}
use mathlib.Core.List.{reverse}

unfoldable pub ends_with : Text → Text → Bool
unfolding starts_with
ends_with s suffix = starts_with (reverse s) (reverse suffix)

-- `all(test(x) for x in xs)`
abbrev pub all_of {ℓ} : {A : Type ℓ} → (A → Bool) → List A → Bool
all_of test [] = true
all_of test (x ∷ xs) = test x && all_of test xs

-- `any`
abbrev pub any_of {ℓ} : {A : Type ℓ} → (A → Bool) → List A → Bool
any_of test [] = false
any_of test (x ∷ xs) = test x || any_of test xs

-- a character in front of the first part
abbrev pub cons_first : ℕ → List Text → List Text
cons_first c [] = (c ∷ []) ∷ []
cons_first c (s ∷ ss) = (c ∷ s) ∷ ss

-- `s.split(d)`
unfoldable pub split : ℕ → Text → List Text
split d [] = [] ∷ []
split d (c ∷ s) = let rest = split d s in if c == d then [] ∷ rest else cons_first c rest

-- the letters, the digits, "-" and "."
abbrev pub is_allowed : ℕ → Bool
is_allowed c = leb b'a' c && leb c b'z' || leb b'0' c && leb c b'9' || c == b'-' || c == b'.'

unfoldable pub is_label : Text → Bool
unfolding starts_with ends_with
is_label label =
    not (is_empty label)
    && leb (length label) 63
    && not (starts_with label (codes "-") || ends_with label (codes "-"))

-- for a name that is stripped and in lower case
unfoldable pub is_plain_name : Text → Bool
unfolding starts_with ends_with contains split is_label
is_plain_name name =
    not (is_empty name)
    && leb (length name) 253
    && all_of is_allowed name
    && not
        (starts_with name (codes ".") || ends_with name (codes ".") || contains name (codes ".."))
    && all_of is_label (split b'.' name)

unfoldable pub is_basic_hostname : Text → Bool
unfolding is_plain_name lower strip
is_basic_hostname host = is_plain_name (lower (strip host))

abbrev pub drop_last : Text → Text
drop_last s = reverse (drop 1 (reverse s))

-- the brackets around an address taken off
unfoldable pub without_brackets : Text → Text
unfolding starts_with ends_with strip
without_brackets s =
    if starts_with s (codes "[") && ends_with s (codes "]") then strip (drop_last (drop 1 s)) else s

unfoldable pub normalize_host : Text → Text
unfolding without_brackets lower strip
normalize_host host = without_brackets (lower (strip host))
