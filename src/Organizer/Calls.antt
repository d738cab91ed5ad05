-- ===== src/Organizer/Calls.antt =====
-- core/download_organizer.py: what the moves of a call do, once its target is found.
use hyper_loader.Prelude.{
  List, Text, [], keep_if, none, some, ℕ, ◌≡◌, Bool-cases, ap, false, inl, inr, refl, text_eq, true,
  ◌∙◌, ◌∷◌, Option, sym, ◌⊎◌,
}
use mathlib.Core.Path.{subst}
use hyper_loader.Organizer.{
  Content, FilePath, FileSystem, is_there, move, Moves, Progress, try_move, move_sidecars,
  roll_back, Move, moved, raised, raised_leaving, move_or_raise, failed, organized, end_of_try,
  move_all,
}
use hyper_loader.Organizer.Names.{split_ext, is_sidecar}
use hyper_loader.Organizer.Moves.{differ, move-target, move-source, FreeIn}
use hyper_loader.Organizer.Undo.{
  Stable, try_move-Holds, move_sidecars-Holds, Undone, Undone-Stable, Rest, Kept, Kept-Stable,
  roll_back-Kept,
}
use hyper_loader.Organizer.Arrival.{Arrived, Arrived-Stable, Elsewhere, Elsewhere-Stable}

-- the moves of a call whose target was found
abbrev all_moves : (ℕ → Move) → List Text → FilePath → Text → FilePath → FileSystem → Progress
all_moves does listing src target dst fs = try_move does src (some dst) fs [] 0 (
    move_sidecars does src.dir (split_ext src.name).0 target (split_ext dst.name).0
      (keep_if (is_sidecar src.name) listing))

all_moves-Holds :
    (R : Moves → FileSystem → Type 0) (does : ℕ → Move) (listing : List Text) (src : FilePath)
    (target : Text) (dst : FilePath) (fs : FileSystem)
    → Stable src.dir target R
    → FreeIn fs target dst
    → R [] fs
    → (let s = all_moves does listing src target dst fs in R s.moves s.fs)
all_moves-Holds R does listing src target dst fs stable (free, inside) here =
    try_move-Holds R does src (some dst) fs [] 0
      (move_sidecars does src.dir (split_ext src.name).0 target (split_ext dst.name).0
        (keep_if (is_sidecar src.name) listing))
      here
      (λ found c same.
        let e : found ≡ dst = cc in
        stable.leaves found c fs [] (ap (λ (p : FilePath). p.dir) e ∙ inside) (ap fs e ∙ free) here)
      λ found same there.
        let e : found ≡ dst = cc in
        move_sidecars-Holds R does src.dir (split_ext src.name).0 target (split_ext dst.name).0
          (keep_if (is_sidecar src.name) listing)
          (record { fs = move src found fs; moves = (found, src) ∷ []; tries = 1; is_good = true })
          stable
          (stable.moves src found fs [] refl (ap (λ (p : FilePath). p.dir) e ∙ inside) there
            (ap fs e ∙ free) here)

-- a move moves, or ends the moves
Move-cases :
    (m : Move)
    → (m ≡ moved)
      ⊎ ((src dst : FilePath) (fs : FileSystem) (ms : Moves) (k : ℕ) (next : Progress → Progress)
          → (move_or_raise m src dst fs ms k next).is_good ≡ false)
Move-cases moved = inl refl
Move-cases raised = inr (λ src dst fs ms k next. refl)
Move-cases (raised_leaving c) = inr (λ src dst fs ms k next. refl)

-- where all went well, the file is at its new place
all_moves-Arrived :
    (does : ℕ → Move) (listing : List Text) (src : FilePath) (target : Text) (dst : FilePath)
    (fs : FileSystem) (e : Content)
    → fs src ≡ some e
    → FreeIn fs target dst
    → text_eq target src.dir ≡ false
    → (all_moves does listing src target dst fs).is_good ≡ true
    → (let s = all_moves does listing src target dst fs in Arrived src dst e s.moves s.fs)
all_moves-Arrived does listing src target dst fs e at_src (free, inside) apart good =
    let there = ap is_there at_src in
    let rest =
      move_sidecars does src.dir (split_ext src.name).0 target (split_ext dst.name).0
        (keep_if (is_sidecar src.name) listing) in
    elim (Move-cases (does 0)) [
      | inr bad ↦
          let e = rw there at good in
          let contra : false ≡ true = sym (bad src dst fs [] 1 rest) ∙ e in cc
      | inl well ↦
          rw (there, well)
            (move_sidecars-Holds (Arrived src dst e) does src.dir (split_ext src.name).0 target
              (split_ext dst.name).0 (keep_if (is_sidecar src.name) listing)
              (record { fs = move src dst fs; moves = (dst, src) ∷ []; tries = 1; is_good = true })
              (Arrived-Stable src dst e target inside apart)
              (
                move-target src dst fs ∙ at_src,
                move-source src dst fs (differ fs src dst there free),
              ))
    ]

end_of_try-Kept :
    (does_back : ℕ → Move) (dst : FilePath) (before : FileSystem) (s : Progress)
    → Kept before s.fs
    → Kept before (end_of_try does_back dst s).0
end_of_try-Kept does_back dst before s here = elim (Bool-cases s.is_good) [
  | inl good ↦ rw good here
  | inr bad ↦ rw bad (roll_back-Kept does_back before s.moves 0 s.fs here)
]

end_of_try-failed :
    (does_back : ℕ → Move) (target : Text) (dst : FilePath) (before : FileSystem) (s : Progress)
    → Undone does_back target before s.moves s.fs
    → (end_of_try does_back dst s).1 ≡ failed
    → Rest target before (end_of_try does_back dst s).0
end_of_try-failed does_back target dst before s undone h = elim (Bool-cases s.is_good) [
  | inl good ↦ let e = rw good at h in cc
  | inr bad ↦ rw bad (undone 0 s.fs (λ p. inl refl))
]

end_of_try-organized :
    (does_back : ℕ → Move) (dst found : FilePath) (paths : List FilePath) (s : Progress)
    → (end_of_try does_back dst s).1 ≡ organized found paths
    → (s.is_good ≡ true) × (dst ≡ found) × ((end_of_try does_back dst s).0 ≡ s.fs)
end_of_try-organized does_back dst found paths s h = elim (Bool-cases s.is_good) [
  | inl good ↦ let e = rw good at h in (good, cc, rw good refl)
  | inr bad ↦ let e = rw bad at h in cc
]

-- a found target is free, and in the folder
abbrev pub Found : FileSystem → Text → Option FilePath → Type 0
Found fs target found = (dst : FilePath) → found ≡ some dst → FreeIn fs target dst

pub move_all-Kept :
    (does does_back : ℕ → Move) (listing : List Text) (src : FilePath) (target : Text)
    (found : Option FilePath) (fs : FileSystem)
    → Found fs target found
    → Kept fs (move_all does does_back listing src target found fs).0
move_all-Kept does does_back listing src target none fs free = λ p e at_p. (p, at_p)
move_all-Kept does does_back listing src target (some dst) fs free =
    end_of_try-Kept does_back dst fs (all_moves does listing src target dst fs) (
      all_moves-Holds (λ ms after. Kept fs after) does listing src target dst fs
        (Kept-Stable fs src.dir target) (free dst refl) (λ p e at_p. (p, at_p)))

pub move_all-failed :
    (does does_back : ℕ → Move) (listing : List Text) (src : FilePath) (target : Text)
    (found : Option FilePath) (fs : FileSystem)
    → Found fs target found
    → text_eq target src.dir ≡ false
    → ((k : ℕ) → does_back k ≡ moved)
    → (move_all does does_back listing src target found fs).1 ≡ failed
    → Rest target fs (move_all does does_back listing src target found fs).0
unfolding roll_back
move_all-failed does does_back listing src target none fs free apart well h = λ p. inl refl
move_all-failed does does_back listing src target (some dst) fs free apart well h =
    end_of_try-failed does_back target dst fs (all_moves does listing src target dst fs)
      (all_moves-Holds (Undone does_back target fs) does listing src target dst fs
        (Undone-Stable does_back fs src.dir target apart well) (free dst refl) (λ k fs' rest. rest))
      h

-- the file is at a path that was free, in the folder, and only the two folders have changed
abbrev pub Placed : FilePath → Text → FilePath → FileSystem → FileSystem → Type 0
Placed src target dst before after =
    (dst.dir ≡ target)
    × (before dst ≡ none)
    × (after dst ≡ before src)
    × (after src ≡ none)
    × ((p : FilePath)
        → text_eq p.dir src.dir ≡ false
        → text_eq p.dir target ≡ false
        → after p ≡ before p)

all_moves-Organized :
    (does : ℕ → Move) (listing : List Text) (src : FilePath) (target : Text) (dst : FilePath)
    (fs : FileSystem) (e : Content)
    → fs src ≡ some e
    → FreeIn fs target dst
    → text_eq target src.dir ≡ false
    → (all_moves does listing src target dst fs).is_good ≡ true
    → Placed src target dst fs (all_moves does listing src target dst fs).fs
all_moves-Organized does listing src target dst fs e at_src free apart good =
    let (at_dst, gone) =
      all_moves-Arrived does listing src target dst fs e at_src free apart good in
    (
      free.1,
      free.0,
      at_dst ∙ sym at_src,
      gone,
      all_moves-Holds (Elsewhere src.dir target fs) does listing src target dst fs
          (Elsewhere-Stable src.dir target fs) free (λ p off_dir off_target. refl),
    )

pub move_all-Organized :
    (does does_back : ℕ → Move) (listing : List Text) (src : FilePath) (target : Text)
    (found : Option FilePath) (fs : FileSystem) (e : Content) (dst : FilePath)
    (paths : List FilePath)
    → Found fs target found
    → fs src ≡ some e
    → text_eq target src.dir ≡ false
    → (move_all does does_back listing src target found fs).1 ≡ organized dst paths
    → Placed src target dst fs (move_all does does_back listing src target found fs).0
move_all-Organized does does_back listing src target none fs e dst paths free at_src apart h = cc
move_all-Organized does does_back listing src target (some d) fs e dst paths free at_src apart h =
    let s = all_moves does listing src target d fs in
    let end = end_of_try does_back d s in
    let (good, same, left) = end_of_try-organized does_back d dst paths s h in
    let done = all_moves-Organized does listing src target d fs e at_src (free d refl) apart good in
    subst (λ (d : FilePath). Placed src target d fs end.0) same
      (subst (Placed src target d fs) (sym left) done)
