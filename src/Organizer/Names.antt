-- ===== src/Organizer/Names.antt =====
-- core/download_organizer.py: the folders that a strategy asks for, and the names of files.
use hyper_loader.Prelude.{
  Bool, List, Option, Text, [], codes, drop, if◌then◌else◌, keep_if, leb, lower, ltb, map, none,
  not, one_of, or_text, some, starts_with, strip, suc, take, text_eq, ℕ, ◌%◌, ◌&&◌, ◌++◌, ◌+◌, ◌-◌,
  ◌/◌, ◌==◌, ◌||◌, ◌∷◌,
}
use hyper_loader.Network.Names.{any_of, ends_with}

pub data Strategy : Type 0 where
  off by_mode by_extension by_both : Strategy

-- the dictionary `mapping`
abbrev mode_words : List Text
mode_words = codes "mode" ∷ codes "by_mode" ∷ codes "type" ∷ []

abbrev extension_words : List Text
extension_words = codes "extension" ∷ codes "ext" ∷ codes "by_extension" ∷ []

abbrev both_words : List Text
both_words = codes "mode_then_extension" ∷ codes "mode+extension" ∷ codes "both" ∷ []

unfoldable pub normalize_auto_categorize_mode : Text → Strategy
unfolding one_of lower strip
normalize_auto_categorize_mode value =
    let raw = lower (strip value) in
    if one_of raw mode_words
    then by_mode
    else if one_of raw extension_words
    then by_extension
    else if one_of raw both_words
    then by_both
    else off

-- `s.rfind(".")`
unfoldable pub last_dot : Text → Option ℕ
last_dot [] = none
last_dot (c ∷ s) = elim (last_dot s) [
  | some i ↦ some (suc i)
  | none ↦ if c == b'.' then some 0 else none
]

-- `os.path.splitext` of a name, whose leading dots are no extension
unfoldable pub split_ext : Text → Text × Text
unfolding last_dot
split_ext s = elim (last_dot s) [
  | none ↦ (s, [])
  | some i ↦ if any_of (λ c. not (c == b'.')) (take i s) then (take i s, drop i s) else (s, [])
]

abbrev upper_code : ℕ → ℕ
upper_code c = if leb b'a' c && leb c b'z' then c - 32 else c

abbrev is_alnum : ℕ → Bool
is_alnum c = leb b'A' c && leb c b'Z' || leb b'0' c && leb c b'9' || leb b'a' c && leb c b'z'

-- `_safe_extension_folder`
unfoldable pub safe_extension_folder : Text → Text
unfolding split_ext lower strip
safe_extension_folder name =
    or_text (keep_if is_alnum (map upper_code (lower (strip (split_ext name).1)))) (codes "Other")

-- `_mode_folder`
unfoldable pub mode_folder : Text → Text
unfolding text_eq lower strip
mode_folder mode =
    let m = lower (strip mode) in
    if text_eq m (codes "video")
    then codes "Videos"
    else if text_eq m (codes "audio")
    then codes "Audio"
    else codes "Other"

-- `_target_parts`
unfoldable pub target_parts : Text → Strategy → Text → List Text
unfolding safe_extension_folder mode_folder
target_parts name off mode = []
target_parts name by_mode mode = mode_folder mode ∷ []
target_parts name by_extension mode = safe_extension_folder name ∷ []
target_parts name by_both mode = mode_folder mode ∷ safe_extension_folder name ∷ []

-- `_KNOWN_SIDECAR_SUFFIXES`
abbrev pub known_sidecar_suffixes : List Text
known_sidecar_suffixes =
    codes ".info.json"
    ∷ codes ".description"
    ∷ codes ".srt"
    ∷ codes ".vtt"
    ∷ codes ".ass"
    ∷ codes ".ssa"
    ∷ codes ".lrc"
    ∷ codes ".nfo"
    ∷ codes ".jpg"
    ∷ codes ".jpeg"
    ∷ codes ".png"
    ∷ codes ".webp"
    ∷ codes ".txt"
    ∷ []

-- the tests of `_iter_related_sidecars`, for the name of the source and that of an entry
unfoldable pub is_sidecar : Text → Text → Bool
unfolding lower text_eq starts_with ends_with split_ext
is_sidecar base name =
    not (text_eq (lower name) (lower base))
    && starts_with (lower name) (lower (split_ext base).0 ++ codes ".")
    && any_of (ends_with (lower name)) known_sidecar_suffixes

abbrev digit : ℕ → ℕ
digit n = b'0' + n

-- `str` of a number below 10000
unfoldable pub number_text : ℕ → Text
number_text n =
    if ltb n 10
    then digit n ∷ []
    else if ltb n 100
    then digit (n / 10) ∷ digit (n % 10) ∷ []
    else if ltb n 1000
    then digit (n / 100) ∷ digit (n / 10 % 10) ∷ digit (n % 10) ∷ []
    else digit (n / 1000) ∷ digit (n / 100 % 10) ∷ digit (n / 10 % 10) ∷ digit (n % 10) ∷ []
