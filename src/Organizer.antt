-- ===== src/Organizer.antt =====
-- core/download_organizer.py: a finished download and the files beside it are moved into a folder by
-- their kind, and moved back if that does. A file system says what stands at a path. `made` says at
-- which paths `os.makedirs` makes a folder where nothing stands, `is_made` whether it returns; `does k`
-- says what the `k`-th move does, and `does_back k` what the `k`-th move back does: it moves the file,
-- or raises, and may then have left something at its target. Letters and digits are the ASCII ones.
pub mod Names
pub mod Moves
pub mod Undo
pub mod Arrival
pub mod Calls
pub mod Laws
mod Tests
use hyper_loader.Prelude.{
  Bool, List, Option, Text, [], codes, drop, false, if◌then◌else◌, is_empty, keep_if, length, map,
  none, not, some, suc, text_eq, true, zero, ℕ, ◌&&◌, ◌++◌, ◌+◌, ◌||◌, ◌∷◌,
}
use mathlib.Core.List.{reverse}
use hyper_loader.Organizer.Names.{
  Strategy, off, normalize_auto_categorize_mode, split_ext, target_parts, is_sidecar, number_text,
}

pub data Content : Type 0 where
  file : ℕ → Content
  folder : Content

-- the folder, and the name in it
pub record FilePath : Type 0 where
  pub dir : Text
  pub name : Text

abbrev pub FileSystem : Type 0
FileSystem = FilePath → Option Content

abbrev pub same_path : FilePath → FilePath → Bool
same_path p q = text_eq p.dir q.dir && text_eq p.name q.name

abbrev pub is_there : Option Content → Bool
is_there none = false
is_there (some e) = true

abbrev pub is_file : Option Content → Bool
is_file (some (file n)) = true
is_file e = false

-- `shutil.move` of a file, where nothing stands at the target
abbrev pub move : FilePath → FilePath → FileSystem → FileSystem
move src dst fs q = if same_path q dst then fs src else if same_path q src then none else fs q

-- what a call of `shutil.move` does
pub data Move : Type 0 where
  moved raised : Move
  raised_leaving : Content → Move

-- what a move that raises has left at its target
abbrev pub leave : FilePath → Content → FileSystem → FileSystem
leave dst c fs q = if same_path q dst then some c else fs q

abbrev pub or_folder : Bool → Option Content → Option Content
or_folder true none = some folder
or_folder b e = e

-- what `os.makedirs` leaves
abbrev pub with_folders : (FilePath → Bool) → FileSystem → FileSystem
with_folders made fs q = or_folder (made q) (fs q)

-- `os.path.join` of a folder and a name
abbrev pub join : Text → Text → Text
join [] part = part
join (c ∷ s) part = (c ∷ s) ++ codes "/" ++ part

abbrev pub joined : Text → List Text → Text
joined dir [] = dir
joined dir (part ∷ parts) = joined (join dir part) parts

-- a path that is free, or what is found later
abbrev pub free_or : Option FilePath → FilePath → FileSystem → Option FilePath
free_or later p fs = if is_there (fs p) then later else some p

abbrev pub candidate : ℕ → FilePath → FilePath
candidate k p =
    let (root, ext) = split_ext p.name in
    record { dir = p.dir; name = root ++ codes " (" ++ number_text k ++ codes ")" ++ ext }

-- the loop from a counter on, with the rounds that are left
unfoldable pub numbered : ℕ → ℕ → FilePath → FileSystem → Option FilePath
unfolding split_ext number_text text_eq
numbered zero k p fs = none
numbered (suc left) k p fs = free_or (numbered left (k + 1) p fs) (candidate k p) fs

-- `_unique_destination`; `none` is the `RuntimeError`
unfoldable pub unique_destination : FilePath → FileSystem → Option FilePath
unfolding numbered
unique_destination p fs = free_or (numbered 9999 1 p fs) p fs

-- the pairs of a target and its source, the last one first
abbrev pub Moves : Type 0
Moves = List (FilePath × FilePath)

-- the files, the moves that were made, the number of tries, and whether all went well
pub record Progress : Type 0 where
  pub fs : FileSystem
  pub moves : Moves
  pub tries : ℕ
  pub is_good : Bool

-- a move of a file that is there to a free path, with what comes after it
abbrev pub move_or_raise :
    Move → FilePath → FilePath → FileSystem → Moves → ℕ → (Progress → Progress) → Progress
move_or_raise moved src dst fs moves k next =
    next (record { fs = move src dst fs; moves = (dst, src) ∷ moves; tries = k; is_good = true })
move_or_raise raised src dst fs moves k next = record {
  fs = fs;
  moves = moves;
  tries = k;
  is_good = false;
}
move_or_raise (raised_leaving c) src dst fs moves k next = record {
  fs = leave dst c fs;
  moves = moves;
  tries = k;
  is_good = false;
}

-- one move inside `try`, with what comes after it
abbrev pub try_move :
    (ℕ → Move)
    → FilePath
    → Option FilePath
    → FileSystem
    → Moves
    → ℕ
    → (Progress → Progress)
    → Progress
try_move does src none fs moves k next = record {
  fs = fs;
  moves = moves;
  tries = k;
  is_good = false;
}
try_move does src (some dst) fs moves k next =
    if is_there (fs src)
    then move_or_raise (does k) src dst fs moves (k + 1) next
    else record { fs = fs; moves = moves; tries = k + 1; is_good = false }

-- the loop over the files beside the source
unfoldable pub move_sidecars :
    (ℕ → Move) → Text → Text → Text → Text → List Text → Progress → Progress
unfolding unique_destination text_eq
move_sidecars does dir stem target new_stem [] s = s
move_sidecars does dir stem target new_stem (name ∷ names) s =
    let dst : FilePath = record { dir = target; name = new_stem ++ drop (length stem) name } in
    try_move does (record { dir = dir; name = name }) (unique_destination dst s.fs) s.fs s.moves
      s.tries (move_sidecars does dir stem target new_stem names)

-- one move back
abbrev pub move_back : Move → FilePath → FilePath → FileSystem → FileSystem
move_back moved dst src fs = move dst src fs
move_back raised dst src fs = fs
move_back (raised_leaving c) dst src fs = leave src c fs

-- the loop of the handler, which tries to undo each move
unfoldable pub roll_back : (ℕ → Move) → Moves → ℕ → FileSystem → FileSystem
unfolding text_eq
roll_back does_back [] k fs = fs
roll_back does_back ((dst, src) ∷ moves) k fs =
    if is_there (fs dst) && not (is_there (fs src))
    then roll_back does_back moves (k + 1) (move_back (does_back k) dst src fs)
    else roll_back does_back moves k fs

pub data Outcome : Type 0 where
  unmoved failed : Outcome
  organized : FilePath → List FilePath → Outcome

-- the end of `try`, or the handler
abbrev pub end_of_try : (ℕ → Move) → FilePath → Progress → FileSystem × Outcome
end_of_try does_back target s =
    if s.is_good
    then (s.fs, organized target (reverse (map (λ (m : FilePath × FilePath). m.0) s.moves)))
    else (roll_back does_back s.moves 0 s.fs, failed)

-- from the first move on, to the target that was found
abbrev pub move_all :
    (ℕ → Move)
    → (ℕ → Move)
    → List Text
    → FilePath
    → Text
    → Option FilePath
    → FileSystem
    → FileSystem × Outcome
move_all does does_back listing src target none fs = (fs, failed)
move_all does does_back listing src target (some dst) fs = end_of_try does_back dst (
    try_move does src (some dst) fs [] 0 (
      move_sidecars does src.dir (split_ext src.name).0 target (split_ext dst.name).0
        (keep_if (is_sidecar src.name) listing)))

-- `organize_download_output`; `listing` is what `os.scandir` finds of files after the first move
unfoldable pub organize_download_output :
    (FilePath → Bool)
    → Bool
    → (ℕ → Move)
    → (ℕ → Move)
    → List Text
    → Text
    → Text
    → FilePath
    → FileSystem
    → FileSystem × Outcome
unfolding normalize_auto_categorize_mode target_parts is_sidecar move_sidecars roll_back text_eq
organize_download_output made is_made does does_back listing strategy mode src fs =
    let parts = target_parts src.name (normalize_auto_categorize_mode strategy) mode in
    let target = joined src.dir parts in
    if is_empty parts || not (is_file (fs src)) || text_eq target src.dir
    then (fs, unmoved)
    else let ready = with_folders made fs in
      if is_made
      then move_all does does_back listing src target
          (unique_destination (record { dir = target; name = src.name }) ready) ready
      else (ready, failed)
