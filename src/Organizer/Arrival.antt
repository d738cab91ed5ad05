-- ===== src/Organizer/Arrival.antt =====
-- core/download_organizer.py: where the moved file stands while the files beside it are moved, and
-- what the moves leave alone.
use hyper_loader.Prelude.{
  Bool-cases, Text, ap, false, inl, inr, none, refl, some, sym, text_eq, ◌∙◌, ◌≡◌, true,
  text_eq_comm,
}
use hyper_loader.Organizer.{Content, FilePath, FileSystem, same_path, is_there, Moves}
use hyper_loader.Organizer.Moves.{same_path_eq, differ, move-other}
use hyper_loader.Organizer.Undo.{Stable, leave-other}

other_folder :
    (p q : FilePath) (dir : Text) → text_eq p.dir dir ≡ false → q.dir ≡ dir → same_path p q ≡ false
other_folder p q dir apart inside =
    let e : text_eq p.dir q.dir ≡ false = ap (text_eq p.dir) inside ∙ apart in rw e refl

-- a path that has nothing and one that has something differ
not_at :
    (fs : FileSystem) (p q : FilePath)
    → is_there (fs q) ≡ true
    → fs p ≡ none
    → same_path p q ≡ false
not_at fs p q there free = elim (Bool-cases (same_path p q)) [
  | inl same ↦
      let e : is_there none ≡ true =
        sym (ap is_there (sym (ap fs (same_path_eq p q same)) ∙ free)) ∙ there in
      cc
  | inr other ↦ other
]

-- the file stands at its new place and no longer at the old one
abbrev pub Arrived : FilePath → FilePath → Content → Moves → FileSystem → Type 0
Arrived src dst e ms fs = (fs dst ≡ some e) × (fs src ≡ none)

pub Arrived-Stable :
    (src dst : FilePath) (e : Content) (target : Text)
    → dst.dir ≡ target
    → text_eq target src.dir ≡ false
    → Stable src.dir target (Arrived src dst e)
Arrived-Stable src dst e target inside apart = record {
  moves = λ from to fs ms from_dir to_dir there free (at_dst, at_src).
      let away = ap (λ d. text_eq d src.dir) inside ∙ apart in
      let dst_from = other_folder dst from src.dir away from_dir in
      let dst_to = differ fs dst to (ap is_there at_dst) free in
      let src_from = not_at fs src from there at_src in
      let src_to = other_folder src to target (text_eq_comm src.dir target ∙ apart) to_dir in
      (
        move-other from to fs dst dst_to dst_from ∙ at_dst,
        move-other from to fs src src_to src_from ∙ at_src,
      );
  leaves = λ to c fs ms to_dir free (at_dst, at_src).
      let src_to = other_folder src to target (text_eq_comm src.dir target ∙ apart) to_dir in
      (
        leave-other to c fs dst (differ fs dst to (ap is_there at_dst) free) ∙ at_dst,
        leave-other to c fs src src_to ∙ at_src,
      );
}

-- a path in neither folder
abbrev pub Elsewhere : Text → Text → FileSystem → Moves → FileSystem → Type 0
Elsewhere dir target before ms fs =
    (p : FilePath) → text_eq p.dir dir ≡ false → text_eq p.dir target ≡ false → fs p ≡ before p

pub Elsewhere-Stable :
    (dir target : Text) (before : FileSystem) → Stable dir target (Elsewhere dir target before)
Elsewhere-Stable dir target before = record {
  moves = λ src dst fs ms from_dir to_target there free here p off_dir off_target.
      move-other src dst fs p (other_folder p dst target off_target to_target)
        (other_folder p src dir off_dir from_dir)
      ∙ here p off_dir off_target;
  leaves = λ dst c fs ms to_target free here p off_dir off_target.
      leave-other dst c fs p (other_folder p dst target off_target to_target)
      ∙ here p off_dir off_target;
}
