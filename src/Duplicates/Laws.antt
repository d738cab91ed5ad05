-- ===== src/Duplicates/Laws.antt =====
-- core/duplicate_finder.py: the search with groups and cached hashes, beside the comparison of
-- every file with all earlier ones.
use mathlib.Core.List.{append-nil, append_assoc}
use hyper_loader.Prelude.{
  List, Bool, Bool-cases, Option, Text, [], ap, false, if◌then◌else◌, inl, inr, is_empty, none,
  refl, some, sym, text_eq, text_eq_iff, ◌++◌, ◌∷◌, ◌≡◌, ◌⊎◌, keep_if, true, ◌∙◌, text_eq_comm,
}
use hyper_loader.Duplicates.{
  assign, full_hash, store_hash, match_in, pair_of, Scan, scan_files, scan_directory_for_duplicates,
  visit_in,
}

-- the first text of a list that passes
abbrev pub find_first : (Text → Bool) → List Text → Option Text
find_first f [] = none
find_first f (v ∷ vs) = let rest = find_first f vs in if f v then some v else rest

-- every file with the first earlier one of the same hash
abbrev pub pairs_after : (Text → Text) → List Text → List Text → List (Text × Text)
pairs_after hash before [] = []
pairs_after hash before (p ∷ ps) =
    pair_of p (find_first (λ o. text_eq (hash o) (hash p)) before)
    ++ pairs_after hash (before ++ p ∷ []) ps

-- the cache has right hashes
abbrev pub IsRight : (Text → Text) → (Text → Option Text) → Type 0
IsRight hash cache = (p : Text) → (cache p ≡ none) ⊎ (cache p ≡ some (hash p))

module _ (hash : Text → Text) (filled : (p : Text) → is_empty (hash p) ≡ false) where
  abbrev get_hash : Text → Option Text
  get_hash p = some (hash p)

  store_hash-full :
      (p : Text) (cache : Text → Option Text) (h : Text)
      → is_empty h ≡ false
      → store_hash p cache (some h) ≡ (some h, assign p (some h) cache)
  store_hash-full p cache [] full = cc
  store_hash-full p cache (c ∷ s) full = refl

  assign-IsRight :
      (p : Text) (cache : Text → Option Text)
      → IsRight hash cache
      → IsRight hash (assign p (some (hash p)) cache)
  assign-IsRight p cache right q = elim (Bool-cases (text_eq q p)) [
    | inl same ↦ inr (rw same (ap (λ x. some (hash x)) (sym ((text_eq_iff q p).0 same))))
    | inr other ↦ rw other (right q)
  ]

  -- a hash that is asked for is the file's, and the cache stays right
  full_hash-IsRight :
      (p : Text) (cache : Text → Option Text)
      → IsRight hash cache
      → ((full_hash get_hash p cache).0 ≡ some (hash p))
        × IsRight hash (full_hash get_hash p cache).1
  unfolding full_hash
  full_hash-IsRight p cache right = elim (right p) [
    | inr known ↦ rw known (refl, right)
    | inl unknown ↦
        rw (unknown, store_hash-full p cache (hash p) (filled p))
          (refl, assign-IsRight p cache right)
  ]

  match_in-IsRight :
      (current : Text) (group : List Text) (cache : Text → Option Text)
      → IsRight hash cache
      → ((match_in get_hash current group cache).0
          ≡ find_first (λ o. text_eq (hash o) current) group)
        × IsRight hash (match_in get_hash current group cache).1
  unfolding match_in
  match_in-IsRight current [] cache right = (refl, right)
  match_in-IsRight current (other ∷ group) cache right =
      let (is_hash, after) = full_hash-IsRight other cache right in
      let (is_rest, later) =
        match_in-IsRight current group (full_hash get_hash other cache).1 after in
      elim (Bool-cases (text_eq (hash other) current)) [
        | inl same ↦ rw (is_hash, same) (refl, after)
        | inr apart ↦ rw (is_hash, apart) (is_rest, later)
      ]

-- the groups are those of the files that were visited
abbrev pub Grouped : (Text → Text) → List Text → (Text → List Text) → Type 0
Grouped fingerprint before groups =
    (g : Text) → groups g ≡ keep_if (λ o. text_eq (fingerprint o) g) before

find_first-keep_if :
    (f g : Text → Bool) (vs : List Text)
    → ((v : Text) → f v ≡ true → g v ≡ true)
    → find_first f (keep_if g vs) ≡ find_first f vs
find_first-keep_if f g [] passes = refl
find_first-keep_if f g (v ∷ vs) passes = elim (Bool-cases (g v)) [
  | inl kept ↦
      rw kept (
        ap (λ (rest : Option Text). if f v then some v else rest)
          (find_first-keep_if f g vs passes))
  | inr dropped ↦
      let fails : f v ≡ false = elim (Bool-cases (f v)) [
        | inl e ↦ let k = sym (passes v e) ∙ dropped in cc
        | inr e ↦ e
      ] in
      rw (dropped, fails) (find_first-keep_if f g vs passes)
]

keep_if-append :
    (g : Text → Bool) (vs ws : List Text) → keep_if g (vs ++ ws) ≡ keep_if g vs ++ keep_if g ws
keep_if-append g [] ws = refl
keep_if-append g (v ∷ vs) ws = elim (Bool-cases (g v)) [
  | inl e ↦ rw e (ap (◌∷◌ v) (keep_if-append g vs ws))
  | inr e ↦ rw e (keep_if-append g vs ws)
]

-- a file joins the group of its fingerprint
append-Grouped :
    (fingerprint : Text → Text) (before : List Text) (p : Text) (group : List Text)
    (groups : Text → List Text)
    → groups (fingerprint p) ≡ group
    → Grouped fingerprint before groups
    → Grouped fingerprint (before ++ p ∷ []) (assign (fingerprint p) (group ++ p ∷ []) groups)
append-Grouped fingerprint before p group groups is_group grouped g =
    let parts = keep_if-append (λ o. text_eq (fingerprint o) g) before (p ∷ []) in
    elim (Bool-cases (text_eq g (fingerprint p))) [
      | inl same ↦
          let swapped : text_eq (fingerprint p) g ≡ true = text_eq_comm (fingerprint p) g ∙ same in
          let at_g : group ≡ keep_if (λ o. text_eq (fingerprint o) g) before =
            sym is_group ∙ ap groups (sym ((text_eq_iff g (fingerprint p)).0 same)) ∙ grouped g in
          rw (same, parts, swapped) (ap (λ x. x ++ p ∷ []) at_g)
      | inr other ↦
          let swapped : text_eq (fingerprint p) g ≡ false =
            text_eq_comm (fingerprint p) g ∙ other in
          rw (other, parts, swapped)
            (grouped g ∙ sym (append-nil (keep_if (λ o. text_eq (fingerprint o) g) before)))
    ]

module _ (fingerprint hash : Text → Text) (named : (p : Text) → is_empty (fingerprint p) ≡ false)
    (filled : (p : Text) → is_empty (hash p) ≡ false)
    (same_content : (p q : Text)
      → text_eq (hash p) (hash q) ≡ true
      → text_eq (fingerprint p) (fingerprint q) ≡ true) where
  first_equal : Text → List Text → Option Text
  first_equal p before = find_first (λ o. text_eq (hash o) (hash p)) before

  -- the state after some files
  abbrev Visited : List Text → Scan → Type 0
  Visited before s = IsRight hash s.full_hash_cache × Grouped fingerprint before s.candidate_groups

  -- the state after one more
  abbrev Step : Text → List Text → Scan → Scan → Type 0
  Step p before s r =
      Visited (before ++ p ∷ []) r
      × (r.duplicates ≡ s.duplicates ++ pair_of p (first_equal p before))

  first_equal-group :
      (p : Text) (before group : List Text) (groups : Text → List Text)
      → groups (fingerprint p) ≡ group
      → Grouped fingerprint before groups
      → find_first (λ o. text_eq (hash o) (hash p)) group ≡ first_equal p before
  unfolding first_equal
  first_equal-group p before group groups is_group grouped =
      ap (find_first (λ o. text_eq (hash o) (hash p))) (sym is_group ∙ grouped (fingerprint p))
      ∙ find_first-keep_if (λ o. text_eq (hash o) (hash p))
          (λ o. text_eq (fingerprint o) (fingerprint p)) before (λ o same. same_content o p same)

  visit_in-Step :
      (p : Text) (before group : List Text) (s : Scan)
      → s.candidate_groups (fingerprint p) ≡ group
      → Visited before s
      → Step p before s (visit_in (λ q. some (hash q)) p (fingerprint p) group s)
  visit_in-Step p before [] s is_group (right, grouped) =
      let alone = first_equal-group p before [] s.candidate_groups is_group grouped in
      (
        (right, append-Grouped fingerprint before p [] s.candidate_groups is_group grouped),
        sym (append-nil s.duplicates) ∙ ap (λ m. s.duplicates ++ pair_of p m) alone,
      )
  visit_in-Step p before (other ∷ group) s is_group (right, grouped) =
      let (is_hash, after) = full_hash-IsRight hash filled p s.full_hash_cache right in
      let cache = (full_hash (λ q. some (hash q)) p s.full_hash_cache).1 in
      let (is_match, later) = match_in-IsRight hash filled (hash p) (other ∷ group) cache after in
      let found = first_equal-group p before (other ∷ group) s.candidate_groups is_group grouped in
      rw is_hash (
        (
          later,
          append-Grouped fingerprint before p (other ∷ group) s.candidate_groups is_group grouped,
        ),
        ap (λ m. s.duplicates ++ pair_of p m) (is_match ∙ found),
      )

  scan_files-pairs_after :
      (before paths : List Text) (s : Scan)
      → Visited before s
      → (scan_files (λ q. some (fingerprint q)) (λ q. some (hash q)) paths s).duplicates
        ≡ s.duplicates ++ pairs_after hash before paths
  unfolding scan_files first_equal
  scan_files-pairs_after before [] s visited = sym (append-nil s.duplicates)
  scan_files-pairs_after before (p ∷ ps) s visited =
      let step = visit_in-Step p before (s.candidate_groups (fingerprint p)) s refl visited in
      let r =
        visit_in (λ q. some (hash q)) p (fingerprint p) (s.candidate_groups (fingerprint p)) s in
      ap
        (λ (b : Bool).
          (scan_files (λ q. some (fingerprint q)) (λ q. some (hash q)) ps
            (if b then s else r)).duplicates)
        (named p)
      ∙ scan_files-pairs_after (before ++ p ∷ []) ps r step.0
      ∙ ap (λ d. d ++ pairs_after hash (before ++ p ∷ []) ps) step.1
      ∙ append_assoc s.duplicates (pair_of p (first_equal p before))
          (pairs_after hash (before ++ p ∷ []) ps)

  -- Where every file can be read and equal hashes mean equal fingerprints, the pairs are those of
  -- every file with the first earlier one of the same hash.
  pub scan_directory_for_duplicates-pairs_after :
      (paths : List Text)
      → scan_directory_for_duplicates (λ q. some (fingerprint q)) (λ q. some (hash q)) paths
        ≡ pairs_after hash [] paths
  unfolding scan_directory_for_duplicates
  scan_directory_for_duplicates-pairs_after paths =
      scan_files-pairs_after [] paths
        (record {
          candidate_groups = λ fingerprint. [];
          full_hash_cache = λ path. none;
          duplicates = [];
        })
        (λ p. inl refl, λ g. refl)
