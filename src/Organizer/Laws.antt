-- ===== src/Organizer/Laws.antt =====
-- core/download_organizer.py: what `organize_download_output` guarantees of the file system.
use hyper_loader.Prelude.{
  Bool, List, Text, none, some, ℕ, ◌≡◌, false, refl, text_eq, true, Option, arith, if◌then◌else◌,
  is_empty, not, ◌||◌, ◌⊎◌, ◌≢◌, ◌∙◌, inl, inr, sym,
}
use hyper_loader.Organizer.{
  Content, FilePath, FileSystem, is_file, unique_destination, Outcome, unmoved, failed, organized,
  move_all, organize_download_output, joined, Move, moved, folder, or_folder, with_folders,
}
use hyper_loader.Organizer.Names.{normalize_auto_categorize_mode, target_parts}
use hyper_loader.Organizer.Moves.{unique_destination-FreeIn}
use hyper_loader.Organizer.Undo.{Kept, Rest}
use hyper_loader.Organizer.Calls.{Found, Placed, move_all-Kept, move_all-failed, move_all-Organized}

-- what is at a path after `os.makedirs`
or_folder-cases :
    (b : Bool) (e : Option Content)
    → (or_folder b e ≡ e) ⊎ ((b ≡ true) × (e ≡ none) × (or_folder b e ≡ some folder))
or_folder-cases true none = inr (refl, refl, refl)
or_folder-cases true (some e) = inl refl
or_folder-cases false e = inl refl

with_folders-at :
    (made : FilePath → Bool) (fs : FileSystem) (p : FilePath)
    → (with_folders made fs p ≡ fs p)
      ⊎ ((made p ≡ true) × (fs p ≡ none) × (with_folders made fs p ≡ some folder))
with_folders-at made fs p = or_folder-cases (made p) (fs p)

with_folders-some :
    (made : FilePath → Bool) (fs : FileSystem) (p : FilePath) (e : Content)
    → fs p ≡ some e
    → with_folders made fs p ≡ some e
with_folders-some made fs p e here = elim (with_folders-at made fs p) [
  | inl same ↦ same ∙ here
  | inr (is_made, gone, there) ↦ let c : none ≡ some e = sym gone ∙ here in cc
]

with_folders-none :
    (made : FilePath → Bool) (fs : FileSystem) (p : FilePath)
    → with_folders made fs p ≡ none
    → fs p ≡ none
with_folders-none made fs p gone = elim (with_folders-at made fs p) [
  | inl same ↦ sym same ∙ gone
  | inr (is_made, free, there) ↦ free
]

-- the early returns
guard-Kept :
    (g : Bool) (fs : FileSystem) (r : FileSystem × Outcome)
    → Kept fs r.0
    → Kept fs (if g then (fs, unmoved) else r).0
guard-Kept true fs r here p e at_p = (p, at_p)
guard-Kept false fs r here p e at_p = here p e at_p

guard-goes :
    (g : Bool) (fs : FileSystem) (r : FileSystem × Outcome) (o : Outcome) (R : FileSystem → Type 0)
    → o ≢ unmoved
    → (g ≡ false → r.1 ≡ o → R r.0)
    → (if g then (fs, unmoved) else r).1 ≡ o
    → R (if g then (fs, unmoved) else r).0
guard-goes true fs r o R other here h = absurd (other (sym h))
guard-goes false fs r o R other here h = here refl h

file_there :
    (c : Option Content) (a b : Bool)
    → (a || not (is_file c) || b) ≡ false
    → ((e : Content) × (c ≡ some e)) × (b ≡ false)
file_there none a b h = let e : not false ≡ false = ground arith in cc
file_there (some e) a b h = ((e, refl), ground arith)

-- the folder of a call
abbrev pub target_dir : FilePath → Text → Text → Text
target_dir src strategy mode =
    joined src.dir (target_parts src.name (normalize_auto_categorize_mode strategy) mode)

unique_destination-Found :
    (target : Text) (src : FilePath) (fs : FileSystem)
    → Found fs target (unique_destination (record { dir = target; name = src.name }) fs)
unique_destination-Found target src fs =
    unique_destination-FreeIn (record { dir = target; name = src.name }) fs

-- a path that has a folder of `os.makedirs`
abbrev pub MadeFolder : (FilePath → Bool) → FileSystem → FileSystem → FilePath → Type 0
MadeFolder made before after p = (made p ≡ true) × (before p ≡ none) × (after p ≡ some folder)

-- what a call that raises leaves: every path has what it had, save folders that were made, and paths in
-- the folder of the strategy that had nothing
abbrev pub PutBack : (FilePath → Bool) → Text → FileSystem → FileSystem → Type 0
PutBack made target before after =
    (p : FilePath)
    → (after p ≡ before p) ⊎ MadeFolder made before after p ⊎ ((before p ≡ none) × (p.dir ≡ target))

-- the file is at a path that was free, in the folder, and else only the two folders have changed, and
-- the folders that were made
abbrev pub Organized :
    (FilePath → Bool) → FilePath → Text → FilePath → FileSystem → FileSystem → Type 0
Organized made src target dst before after =
    (dst.dir ≡ target)
    × (before dst ≡ none)
    × (after dst ≡ before src)
    × (after src ≡ none)
    × ((p : FilePath)
        → text_eq p.dir src.dir ≡ false
        → text_eq p.dir target ≡ false
        → (after p ≡ before p) ⊎ MadeFolder made before after p)

Rest-PutBack :
    (made : FilePath → Bool) (target : Text) (fs after : FileSystem)
    → Rest target (with_folders made fs) after
    → PutBack made target fs after
Rest-PutBack made target fs after rest p = elim (rest p) [
  | inr (gone, inside) ↦ inr (inr (with_folders-none made fs p gone, inside))
  | inl same ↦ elim (with_folders-at made fs p) [
    | inl as_before ↦ inl (same ∙ as_before)
    | inr (is_made, gone, there) ↦ inr (inl (is_made, gone, same ∙ there))
  ]
]

Placed-Organized :
    (made : FilePath → Bool) (src : FilePath) (target : Text) (dst : FilePath)
    (fs after : FileSystem) (e : Content)
    → fs src ≡ some e
    → Placed src target dst (with_folders made fs) after
    → Organized made src target dst fs after
Placed-Organized made src target dst fs after e at_src (inside, free, at_dst, gone, frame) = (
  inside,
  with_folders-none made fs dst free,
  at_dst ∙ with_folders-some made fs src e at_src ∙ sym at_src,
  gone,
  λ p off_dir off_target. elim (with_folders-at made fs p) [
    | inl as_before ↦ inl (frame p off_dir off_target ∙ as_before)
    | inr (is_made, nothing, there) ↦ inr (is_made, nothing, frame p off_dir off_target ∙ there)
  ],
)

-- a call inside the section has made its folders
module _ (made : FilePath → Bool) (does does_back : ℕ → Move) (listing : List Text)
    (strategy mode : Text) (src : FilePath) (fs : FileSystem) where
  abbrev parts : List Text
  parts = target_parts src.name (normalize_auto_categorize_mode strategy) mode

  abbrev ready : FileSystem
  ready = with_folders made fs

  abbrev found : Option FilePath
  found = unique_destination (record { dir = joined src.dir parts; name = src.name }) ready

  abbrev after_makedirs : Bool → FileSystem × Outcome
  after_makedirs is_made =
      if is_made
      then move_all does does_back listing src (joined src.dir parts) found ready
      else (ready, failed)

  after_makedirs-Kept : (is_made : Bool) → Kept fs (after_makedirs is_made).0
  after_makedirs-Kept true p e at_p =
      move_all-Kept does does_back listing src (joined src.dir parts) found ready
        (unique_destination-Found (joined src.dir parts) src ready) p e
        (with_folders-some made fs p e at_p)
  after_makedirs-Kept false p e at_p = (p, with_folders-some made fs p e at_p)

  after_makedirs-PutBack :
      (is_made : Bool)
      → text_eq (joined src.dir parts) src.dir ≡ false
      → ((k : ℕ) → does_back k ≡ moved)
      → (after_makedirs is_made).1 ≡ failed
      → PutBack made (joined src.dir parts) fs (after_makedirs is_made).0
  after_makedirs-PutBack true apart well h =
      Rest-PutBack made (joined src.dir parts) fs (after_makedirs true).0 (
        move_all-failed does does_back listing src (joined src.dir parts) found ready
          (unique_destination-Found (joined src.dir parts) src ready) apart well h)
  after_makedirs-PutBack false apart well h =
      Rest-PutBack made (joined src.dir parts) fs ready (λ p. inl refl)

  after_makedirs-Organized :
      (is_made : Bool) (e : Content) (dst : FilePath) (paths : List FilePath)
      → fs src ≡ some e
      → text_eq (joined src.dir parts) src.dir ≡ false
      → (after_makedirs is_made).1 ≡ organized dst paths
      → Organized made src (joined src.dir parts) dst fs (after_makedirs is_made).0
  after_makedirs-Organized false e dst paths at_src apart h = cc
  after_makedirs-Organized true e dst paths at_src apart h =
      Placed-Organized made src (joined src.dir parts) dst fs (after_makedirs true).0 e at_src (
        move_all-Organized does does_back listing src (joined src.dir parts) found ready e dst paths
          (unique_destination-Found (joined src.dir parts) src ready)
          (with_folders-some made fs src e at_src) apart h)

  -- the test of the early returns
  abbrev returns_early : Bool
  returns_early = is_empty parts || not (is_file (fs src)) || text_eq (joined src.dir parts) src.dir

  -- Whatever fails, also while folders are made and while files are moved back, what stood at some
  -- path stands at some path after the call.
  pub organize_download_output-Kept :
      (is_made : Bool)
      → Kept fs
          (organize_download_output made is_made does does_back listing strategy mode src fs).0
  unfolding organize_download_output
  organize_download_output-Kept is_made =
      guard-Kept returns_early fs (after_makedirs is_made) (after_makedirs-Kept is_made)

  -- Where the call raises and every move back moves its file, every path has what it had before, save
  -- that the folders that were made stay, and that a move that raised may have left something at a
  -- path of the strategy's folder that had been free.
  pub organize_download_output-PutBack :
      (is_made : Bool)
      → ((k : ℕ) → does_back k ≡ moved)
      → (organize_download_output made is_made does does_back listing strategy mode src fs).1
        ≡ failed
      → PutBack made
          (target_dir src strategy mode)
          fs
          (organize_download_output made is_made does does_back listing strategy mode src fs).0
  unfolding organize_download_output
  organize_download_output-PutBack is_made well =
      guard-goes returns_early fs (after_makedirs is_made) failed
        (PutBack made (joined src.dir parts) fs) (λ e. cc)
        (λ went_on.
          after_makedirs-PutBack is_made
            (file_there (fs src) (is_empty parts) (text_eq (joined src.dir parts) src.dir)
              went_on).1
            well)

  -- Where the call reports a target, that path is in the folder of the strategy and had been free,
  -- the file now stands there and no longer at the source, and no path outside the two folders has
  -- changed, save that folders were made where nothing stood.
  pub organize_download_output-Organized :
      (is_made : Bool) (dst : FilePath) (paths : List FilePath)
      → (organize_download_output made is_made does does_back listing strategy mode src fs).1
        ≡ organized dst paths
      → Organized made src
          (target_dir src strategy mode)
          dst
          fs
          (organize_download_output made is_made does does_back listing strategy mode src fs).0
  unfolding organize_download_output
  organize_download_output-Organized is_made dst paths =
      guard-goes returns_early fs (after_makedirs is_made) (organized dst paths)
        (Organized made src (joined src.dir parts) dst fs) (λ e. cc)
        (λ went_on.
          let ((e, at_src), apart) =
            file_there (fs src) (is_empty parts) (text_eq (joined src.dir parts) src.dir) went_on in
          after_makedirs-Organized is_made e dst paths at_src apart)
