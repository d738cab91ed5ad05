-- ===== src/Organizer/Moves.antt =====
-- core/download_organizer.py: what one move does to a file system, and the free target it is given.
use hyper_loader.Prelude.{
  Bool-cases, Option, Text, ap, false, inl, inr, none, refl, some, suc, sym, text_eq, text_eq_iff,
  text_eq_refl, true, zero, ℕ, ◌∙◌, ◌≡◌, arith, ◌+◌,
}
use hyper_loader.Organizer.{
  Content, FilePath, FileSystem, same_path, is_there, move, free_or, candidate, numbered,
  unique_destination,
}

pub same_path_refl : (p : FilePath) → same_path p p ≡ true
same_path_refl p = rw (text_eq_refl p.dir, text_eq_refl p.name) refl

same_parts : (p q : FilePath) → p.dir ≡ q.dir → p.name ≡ q.name → p ≡ q
same_parts p q d n = λ i. record { dir = d i; name = n i }

pub same_path_eq : (p q : FilePath) → same_path p q ≡ true → p ≡ q
same_path_eq p q h =
    let d : text_eq p.dir q.dir ≡ true = ground arith in
    let n : text_eq p.name q.name ≡ true = ground arith in
    same_parts p q ((text_eq_iff p.dir q.dir).0 d) ((text_eq_iff p.name q.name).0 n)

pub not_there : (c : Option Content) → is_there c ≡ false → c ≡ none
not_there none h = refl
not_there (some c) h = cc

pub is_there-cases : (c : Option Content) → is_there c ≡ true → (e : Content) × (c ≡ some e)
is_there-cases none h = cc
is_there-cases (some e) h = (e, refl)

-- a path that has something and one that has nothing differ
pub differ :
    (fs : FileSystem) (src dst : FilePath)
    → is_there (fs src) ≡ true
    → fs dst ≡ none
    → same_path src dst ≡ false
differ fs src dst there free = elim (Bool-cases (same_path src dst)) [
  | inl same ↦
      let e : is_there none ≡ true =
        sym (ap is_there (ap fs (same_path_eq src dst same) ∙ free)) ∙ there in
      cc
  | inr other ↦ other
]

pub move-target : (src dst : FilePath) (fs : FileSystem) → move src dst fs dst ≡ fs src
move-target src dst fs = rw (same_path_refl dst) refl

pub move-source :
    (src dst : FilePath) (fs : FileSystem) → same_path src dst ≡ false → move src dst fs src ≡ none
move-source src dst fs other = rw (other, same_path_refl src) refl

pub move-other :
    (src dst : FilePath) (fs : FileSystem) (q : FilePath)
    → same_path q dst ≡ false
    → same_path q src ≡ false
    → move src dst fs q ≡ fs q
move-other src dst fs q other_dst other_src = rw (other_dst, other_src) refl

-- a move to a free target keeps what there is, where the moved file has a new place
pub move-Keeps :
    (src dst : FilePath) (fs : FileSystem)
    → fs dst ≡ none
    → (p : FilePath) (e : Content) → fs p ≡ some e
    → (q : FilePath) × (move src dst fs q ≡ some e)
move-Keeps src dst fs free p e found = elim (Bool-cases (same_path p src)) [
  | inl same ↦ (dst, move-target src dst fs ∙ ap fs (sym (same_path_eq p src same)) ∙ found)
  | inr other ↦ elim (Bool-cases (same_path p dst)) [
    | inl at_dst ↦
        let e : none ≡ some e = sym free ∙ ap fs (sym (same_path_eq p dst at_dst)) ∙ found in cc
    | inr off_dst ↦ (p, move-other src dst fs p off_dst other ∙ found)
  ]
]

-- the target that was found is free and in the folder that was asked for
abbrev pub FreeIn : FileSystem → Text → FilePath → Type 0
FreeIn fs dir dst = (fs dst ≡ none) × (dst.dir ≡ dir)

free_or-FreeIn :
    (fs : FileSystem) (p : FilePath) (rest : Option FilePath) (dst : FilePath)
    → (rest ≡ some dst → FreeIn fs p.dir dst)
    → free_or rest p fs ≡ some dst
    → FreeIn fs p.dir dst
free_or-FreeIn fs p rest dst later h = elim (Bool-cases (is_there (fs p))) [
  | inl taken ↦ let e = rw taken at h in later e
  | inr free ↦
      let e : p ≡ dst = let same = rw free at h in cc in
      (ap fs (sym e) ∙ not_there (fs p) free, ap (λ (q : FilePath). q.dir) (sym e))
]

numbered-FreeIn :
    (left k : ℕ) (p : FilePath) (fs : FileSystem) (dst : FilePath)
    → numbered left k p fs ≡ some dst
    → FreeIn fs p.dir dst
unfolding numbered
numbered-FreeIn zero k p fs dst h = cc
numbered-FreeIn (suc left) k p fs dst h =
    free_or-FreeIn fs (candidate k p) (numbered left (k + 1) p fs) dst
      (numbered-FreeIn left (k + 1) p fs dst) h

pub unique_destination-FreeIn :
    (p : FilePath) (fs : FileSystem) (dst : FilePath)
    → unique_destination p fs ≡ some dst
    → FreeIn fs p.dir dst
unfolding unique_destination
unique_destination-FreeIn p fs dst h =
    free_or-FreeIn fs p (numbered 9999 1 p fs) dst (numbered-FreeIn 9999 1 p fs dst) h
