-- ===== src/Duplicates.antt =====
-- core/duplicate_finder.py: the search of a folder for files with the same content. The fingerprint and
-- the full hash of a file are parameters, `none` where it cannot be read; the files come in the order of
-- `os.walk`, as paths, which are not empty.
pub mod Laws
mod Tests
use hyper_loader.Prelude.{
  List, Option, Text, [], if◌then◌else◌, is_empty, none, some, text_eq, ◌++◌, ◌∷◌,
}

-- the group of each fingerprint, the hashes known so far, and the pairs found
pub record Scan : Type 0 where
  pub candidate_groups : Text → List Text
  pub full_hash_cache : Text → Option Text
  pub duplicates : List (Text × Text)

abbrev pub assign {ℓ} : {A : Type ℓ} → Text → A → (Text → A) → Text → A
assign key value table k = if text_eq k key then value else table k

-- a hash that was computed, which is stored if there is one
abbrev pub store_hash :
    Text → (Text → Option Text) → Option Text → Option Text × (Text → Option Text)
store_hash path cache none = (none, cache)
store_hash path cache (some []) = (none, cache)
store_hash path cache (some (c ∷ s)) = (some (c ∷ s), assign path (some (c ∷ s)) cache)

abbrev pub or_compute :
    Option Text → Text → (Text → Option Text) → Option Text → Option Text × (Text → Option Text)
or_compute hash path cache (some known) = (some known, cache)
or_compute hash path cache none = store_hash path cache hash

-- the cached hash of a file, or a new one
unfoldable pub full_hash :
    (Text → Option Text) → Text → (Text → Option Text) → Option Text × (Text → Option Text)
unfolding text_eq
full_hash get_file_hash path cache = or_compute (get_file_hash path) path cache (cache path)

-- one round of the loop over the group, with what the rest comes to
abbrev pub match_or :
    Option Text
    → Text
    → Text
    → (Text → Option Text)
    → Option Text × (Text → Option Text)
    → Option Text × (Text → Option Text)
match_or none current other cache rest = rest
match_or (some hash) current other cache rest =
    if text_eq hash current then (some other, cache) else rest

unfoldable pub match_in :
    (Text → Option Text)
    → Text
    → List Text
    → (Text → Option Text)
    → Option Text × (Text → Option Text)
unfolding full_hash text_eq
match_in get_file_hash current [] cache = (none, cache)
match_in get_file_hash current (other ∷ group) cache =
    let (hash, after) = full_hash get_file_hash other cache in
    match_or hash current other after (match_in get_file_hash current group after)

abbrev pub pair_of : Text → Option Text → List (Text × Text)
pair_of path none = []
pair_of path (some matched) = (path, matched) ∷ []

-- a file whose group has others already, with its hash
abbrev pub compare_with :
    (Text → Option Text)
    → Text
    → Text
    → List Text
    → Scan
    → Option Text × (Text → Option Text)
    → Scan
compare_with get_file_hash path fingerprint group s (none, cache) = record s {
  full_hash_cache = cache;
}
compare_with get_file_hash path fingerprint group s (some current, cache) =
    let (matched, after) = match_in get_file_hash current group cache in
    record {
      candidate_groups = assign fingerprint (group ++ path ∷ []) s.candidate_groups;
      full_hash_cache = after;
      duplicates = s.duplicates ++ pair_of path matched;
    }

abbrev pub visit_in : (Text → Option Text) → Text → Text → List Text → Scan → Scan
visit_in get_file_hash path fingerprint [] s = record s {
  candidate_groups = assign fingerprint (path ∷ []) s.candidate_groups;
}
visit_in get_file_hash path fingerprint (other ∷ group) s =
    compare_with get_file_hash path fingerprint (other ∷ group) s
      (full_hash get_file_hash path s.full_hash_cache)

-- the body of the loop over the files
abbrev pub visit : (Text → Option Text) → Text → Option Text → Scan → Scan
visit get_file_hash path none s = s
visit get_file_hash path (some fingerprint) s =
    if is_empty fingerprint
    then s
    else visit_in get_file_hash path fingerprint (s.candidate_groups fingerprint) s

unfoldable pub scan_files : (Text → Option Text) → (Text → Option Text) → List Text → Scan → Scan
unfolding match_in text_eq
scan_files fingerprint_of get_file_hash [] s = s
scan_files fingerprint_of get_file_hash (path ∷ paths) s =
    scan_files fingerprint_of get_file_hash paths (visit get_file_hash path (fingerprint_of path) s)

-- `scan_directory_for_duplicates`
unfoldable pub scan_directory_for_duplicates :
    (Text → Option Text) → (Text → Option Text) → List Text → List (Text × Text)
unfolding scan_files
scan_directory_for_duplicates fingerprint_of get_file_hash paths =
    (scan_files fingerprint_of get_file_hash paths (record {
      candidate_groups = λ fingerprint. [];
      full_hash_cache = λ path. none;
      duplicates = [];
    })).duplicates
