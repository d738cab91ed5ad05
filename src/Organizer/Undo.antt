-- ===== src/Organizer/Undo.antt =====
-- core/download_organizer.py: what the loop over the files beside the source keeps, and the loop of
-- the handler.
use hyper_loader.Prelude.{
  Bool-cases, List, Option, Text, [], ap, drop, false, inl, inr, length, none, refl, some, sym,
  text_eq, text_eq_refl, true, ℕ, ◌++◌, ◌+◌, ◌∙◌, ◌∷◌, ◌≡◌, ◌⊎◌,
}
use hyper_loader.Organizer.{
  Content, FilePath, FileSystem, Move, moved, raised, raised_leaving, leave, move_or_raise,
  move_back, same_path, is_there, move, unique_destination, Moves, Progress, try_move,
  move_sidecars, roll_back,
}
use hyper_loader.Organizer.Moves.{
  not_there, differ, same_path_eq, move-other, move-target, move-source, move-Keeps,
  unique_destination-FreeIn,
}

-- A property of the moves so far and the files is kept by each move to a free path in the folder, and
-- by what such a move leaves if it raises.
pub record Stable (dir target : Text) (R : Moves → FileSystem → Type 0) : Type 0 where
  pub moves :
      (src dst : FilePath) (fs : FileSystem) (ms : Moves)
      → src.dir ≡ dir
      → dst.dir ≡ target
      → is_there (fs src) ≡ true
      → fs dst ≡ none
      → R ms fs
      → R ((dst, src) ∷ ms) (move src dst fs)
  pub leaves :
      (dst : FilePath) (c : Content) (fs : FileSystem) (ms : Moves)
      → dst.dir ≡ target
      → fs dst ≡ none
      → R ms fs
      → R ms (leave dst c fs)

pub leave-other :
    (dst : FilePath) (c : Content) (fs : FileSystem) (q : FilePath)
    → same_path q dst ≡ false
    → leave dst c fs q ≡ fs q
leave-other dst c fs q other = rw other refl

move_or_raise-Holds :
    (R : Moves → FileSystem → Type 0) (m : Move) (src dst : FilePath) (fs : FileSystem) (ms : Moves)
    (k : ℕ) (next : Progress → Progress)
    → R ms fs
    → ((c : Content) → R ms (leave dst c fs))
    → (let s =
          next
            (record { fs = move src dst fs; moves = (dst, src) ∷ ms; tries = k; is_good = true }) in
        R s.moves s.fs)
    → (let s = move_or_raise m src dst fs ms k next in R s.moves s.fs)
move_or_raise-Holds R moved src dst fs ms k next here left later = later
move_or_raise-Holds R raised src dst fs ms k next here left later = here
move_or_raise-Holds R (raised_leaving c) src dst fs ms k next here left later = left c

-- one move inside `try`
pub try_move-Holds :
    (R : Moves → FileSystem → Type 0) (does : ℕ → Move) (src : FilePath) (found : Option FilePath)
    (fs : FileSystem) (ms : Moves) (k : ℕ) (next : Progress → Progress)
    → R ms fs
    → ((dst : FilePath) (c : Content) → found ≡ some dst → R ms (leave dst c fs))
    → ((dst : FilePath)
        → found ≡ some dst
        → is_there (fs src) ≡ true
        → (let s = next (record {
          fs = move src dst fs;
          moves = (dst, src) ∷ ms;
          tries = k + 1;
          is_good = true;
        }) in
            R s.moves s.fs))
    → (let s = try_move does src found fs ms k next in R s.moves s.fs)
try_move-Holds R does src none fs ms k next here left later = here
try_move-Holds R does src (some dst) fs ms k next here left later =
    elim (Bool-cases (is_there (fs src))) [
      | inr gone ↦ rw gone here
      | inl there ↦ rw there (
          move_or_raise-Holds R (does k) src dst fs ms (k + 1) next here (λ c. left dst c refl)
            (later dst refl there))
    ]

pub move_sidecars-Holds :
    (R : Moves → FileSystem → Type 0) (does : ℕ → Move) (dir stem target new_stem : Text)
    (names : List Text) (s : Progress)
    → Stable dir target R
    → R s.moves s.fs
    → (let after = move_sidecars does dir stem target new_stem names s in R after.moves after.fs)
unfolding move_sidecars
move_sidecars-Holds R does dir stem target new_stem [] s stable here = here
move_sidecars-Holds R does dir stem target new_stem (name ∷ names) s stable here =
    let src : FilePath = record { dir = dir; name = name } in
    let asked : FilePath = record { dir = target; name = new_stem ++ drop (length stem) name } in
    try_move-Holds R does src (unique_destination asked s.fs) s.fs s.moves s.tries
      (move_sidecars does dir stem target new_stem names) here
      (λ dst c found.
        let (free, inside) = unique_destination-FreeIn asked s.fs dst found in
        stable.leaves dst c s.fs s.moves inside free here)
      λ dst found there.
        let (free, inside) = unique_destination-FreeIn asked s.fs dst found in
        move_sidecars-Holds R does dir stem target new_stem names
          (record {
            fs = move src dst s.fs;
            moves = (dst, src) ∷ s.moves;
            tries = s.tries + 1;
            is_good = true;
          })
          stable (stable.moves src dst s.fs s.moves refl inside there free here)

-- the same files, save at paths of the folder where there was nothing
abbrev pub Rest : Text → FileSystem → FileSystem → Type 0
Rest target fs fs' = (p : FilePath) → (fs' p ≡ fs p) ⊎ ((fs p ≡ none) × (p.dir ≡ target))

-- the handler's loop gives the files back as they were, whatever else lies in the folder
abbrev pub Undone : (ℕ → Move) → Text → FileSystem → Moves → FileSystem → Type 0
Undone does_back target before ms fs =
    (k : ℕ) (fs' : FileSystem)
    → Rest target fs fs'
    → Rest target before (roll_back does_back ms k fs')

-- a path that differs from both
Rest-back :
    (target : Text) (src dst : FilePath) (fs fs' : FileSystem)
    → is_there (fs src) ≡ true
    → fs dst ≡ none
    → Rest target (move src dst fs) fs'
    → fs' dst ≡ fs src
    → Rest target fs (move dst src fs')
Rest-back target src dst fs fs' there free rest at_dst p = elim (Bool-cases (same_path p src)) [
  | inl same ↦ inl (rw same (at_dst ∙ ap fs (sym (same_path_eq p src same))))
  | inr other ↦ elim (Bool-cases (same_path p dst)) [
    | inl at ↦ inl (rw (other, at) (sym (ap fs (same_path_eq p dst at) ∙ free)))
    | inr off ↦
        let left = move-other src dst fs p off other in
        elim (rest p) [
          | inl e ↦ inl (rw (other, off) (e ∙ left))
          | inr (gone, inside) ↦ inr (sym left ∙ gone, inside)
        ]
  ]
]

moved_there :
    (target : Text) (src dst : FilePath) (fs fs' : FileSystem)
    → is_there (fs src) ≡ true
    → Rest target (move src dst fs) fs'
    → fs' dst ≡ fs src
moved_there target src dst fs fs' there rest = elim (rest dst) [
  | inl e ↦ e ∙ move-target src dst fs
  | inr (gone, inside) ↦
      let e : is_there none ≡ true =
        sym (ap is_there (sym (move-target src dst fs) ∙ gone)) ∙ there in
      cc
]

moved_away :
    (target : Text) (src dst : FilePath) (fs fs' : FileSystem)
    → text_eq target src.dir ≡ false
    → same_path src dst ≡ false
    → Rest target (move src dst fs) fs'
    → fs' src ≡ none
moved_away target src dst fs fs' apart other rest = elim (rest src) [
  | inl e ↦ e ∙ move-source src dst fs other
  | inr (gone, inside) ↦
      let e : true ≡ false = sym (text_eq_refl target) ∙ ap (text_eq target) (sym inside) ∙ apart in
      cc
]

pub Undone-Stable :
    (does_back : ℕ → Move) (before : FileSystem) (dir target : Text)
    → text_eq target dir ≡ false
    → ((k : ℕ) → does_back k ≡ moved)
    → Stable dir target (Undone does_back target before)
unfolding roll_back
Undone-Stable does_back before dir target apart well = record {
  moves = λ src dst fs ms from_dir to_target there free here k fs' rest.
      let at_dst = moved_there target src dst fs fs' there rest in
      let away = ap (text_eq target) from_dir ∙ apart in
      let at_src = moved_away target src dst fs fs' away (differ fs src dst there free) rest in
      let is_at_dst : is_there (fs' dst) ≡ true = ap is_there at_dst ∙ there in
      let is_free : is_there (fs' src) ≡ false = ap is_there at_src in
      rw (is_at_dst, is_free, well k)
        (here (k + 1) (move dst src fs') (Rest-back target src dst fs fs' there free rest at_dst));
  leaves = λ dst c fs ms to_target free here k fs' rest. here k fs' (λ p.
      elim (Bool-cases (same_path p dst)) [
        | inl at ↦ inr (
          ap fs (same_path_eq p dst at) ∙ free,
          ap (λ (q : FilePath). q.dir) (same_path_eq p dst at) ∙ to_target,
        )
        | inr off ↦
            let same = leave-other dst c fs p off in
            elim (rest p) [
              | inl e ↦ inl (e ∙ same)
              | inr (gone, inside) ↦ inr (sym same ∙ gone, inside)
            ]
      ]);
}

-- what was somewhere is somewhere
abbrev pub Kept : FileSystem → FileSystem → Type 0
Kept before fs = (p : FilePath) (e : Content) → before p ≡ some e → (q : FilePath) × (fs q ≡ some e)

leave-Kept :
    (dst : FilePath) (c : Content) (before fs : FileSystem)
    → fs dst ≡ none
    → Kept before fs
    → Kept before (leave dst c fs)
leave-Kept dst c before fs free here p e found =
    let (q, at_q) = here p e found in
    elim (Bool-cases (same_path q dst)) [
      | inl at ↦ let e : none ≡ some e = sym free ∙ ap fs (sym (same_path_eq q dst at)) ∙ at_q in cc
      | inr off ↦ (q, leave-other dst c fs q off ∙ at_q)
    ]

pub Kept-Stable :
    (before : FileSystem) (dir target : Text) → Stable dir target (λ ms fs. Kept before fs)
Kept-Stable before dir target = record {
  moves = λ src dst fs ms from_dir to_target there free here p e found.
      let (q, at_q) = here p e found in move-Keeps src dst fs free q e at_q;
  leaves = λ dst c fs ms to_target free here. leave-Kept dst c before fs free here;
}

back-Kept :
    (m : Move) (src dst : FilePath) (before fs : FileSystem)
    → fs dst ≡ none
    → Kept before fs
    → Kept before (move_back m src dst fs)
back-Kept raised src dst before fs free here p e found = here p e found
back-Kept (raised_leaving c) src dst before fs free here p e found =
    leave-Kept dst c before fs free here p e found
back-Kept moved src dst before fs free here p e found =
    let (q, at_q) = here p e found in move-Keeps src dst fs free q e at_q

pub roll_back-Kept :
    (does_back : ℕ → Move) (before : FileSystem) (ms : Moves) (k : ℕ) (fs : FileSystem)
    → Kept before fs
    → Kept before (roll_back does_back ms k fs)
unfolding roll_back
roll_back-Kept does_back before [] k fs here = here
roll_back-Kept does_back before ((dst, src) ∷ ms) k fs here =
    elim (Bool-cases (is_there (fs dst))) [
      | inr gone ↦ rw gone (roll_back-Kept does_back before ms k fs here)
      | inl there ↦ elim (Bool-cases (is_there (fs src))) [
        | inl taken ↦ rw (there, taken) (roll_back-Kept does_back before ms k fs here)
        | inr free ↦
            rw (there, free)
              (roll_back-Kept does_back before ms (k + 1) (move_back (does_back k) dst src fs)
                (back-Kept (does_back k) dst src before fs (not_there (fs src) free) here))
      ]
    ]
