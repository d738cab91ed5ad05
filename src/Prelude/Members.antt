-- ===== src/Prelude/Members.antt =====
-- Texts in lists: `in`, and `sorted`.
use mathlib.Core.Path.{◌≡◌, refl, sym, ap, ◌∙◌}
use mathlib.Core.Logic.{◌⊎◌, inl, inr}
use mathlib.Core.List.{List, [], ◌∷◌, ◌++◌}
use mathlib.Core.Bool.{Bool, true, false, ◌&&◌, ◌||◌}
use native.Mathlib.Omega.{arith}
use hyper_loader.Prelude.Tests.{◌==◌, ltb, if◌then◌else◌, Bool-cases}
use hyper_loader.Prelude.Lists.{keep_if, is_empty}
use hyper_loader.Prelude.Strings.{Text, text_eq, text_eq_iff, text_eq_refl, text_eq_comm, one_of}

-- the order of texts
unfoldable pub text_le : Text → Text → Bool
text_le [] t = true
text_le (c ∷ s) [] = false
text_le (c ∷ s) (d ∷ t) = ltb c d || c == d && text_le s t

unfoldable pub insert_text : Text → List Text → List Text
unfolding text_le
insert_text p [] = p ∷ []
insert_text p (q ∷ qs) = if text_le p q then p ∷ q ∷ qs else q ∷ insert_text p qs

-- `sorted`
unfoldable pub sorted_texts : List Text → List Text
unfolding insert_text
sorted_texts [] = []
sorted_texts (p ∷ ps) = insert_text p (sorted_texts ps)

pub one_of-head : (p : Text) (ps : List Text) → one_of p (p ∷ ps) ≡ true
unfolding one_of
one_of-head p ps = rw (text_eq_refl p) refl

pub one_of-tail : (p q : Text) (ps : List Text) → one_of p ps ≡ true → one_of p (q ∷ ps) ≡ true
unfolding one_of
one_of-tail p q ps h = ground arith

-- a listed text is the first one or stands in the rest
pub one_of-cases :
    (p q : Text) (ps : List Text) → one_of p (q ∷ ps) ≡ true → (p ≡ q) ⊎ (one_of p ps ≡ true)
unfolding one_of
one_of-cases p q ps h = elim (Bool-cases (text_eq p q)) [
  | inl same ↦ inl ((text_eq_iff p q).0 same)
  | inr other ↦ inr (ground arith)
]

pub one_of-keep_if :
    (f : Text → Bool) (p : Text) (ps : List Text)
    → one_of p (keep_if f ps) ≡ true
    → (one_of p ps ≡ true) × (f p ≡ true)
unfolding one_of
one_of-keep_if f p [] h = cc
one_of-keep_if f p (q ∷ ps) h = elim (Bool-cases (f q)) [
  | inl kept ↦ elim (one_of-cases p q (keep_if f ps) (rw kept at h)) [
    | inl same ↦ (ap (λ x. one_of x (q ∷ ps)) same ∙ one_of-head q ps, ap f same ∙ kept)
    | inr rest ↦
        let (there, passes) = one_of-keep_if f p ps rest in (one_of-tail p q ps there, passes)
  ]
  | inr dropped ↦
      let (there, passes) = one_of-keep_if f p ps (rw dropped at h) in
      (one_of-tail p q ps there, passes)
]

pub keep_if-one_of :
    (f : Text → Bool) (p : Text) (ps : List Text)
    → one_of p ps ≡ true
    → f p ≡ true
    → one_of p (keep_if f ps) ≡ true
unfolding one_of
keep_if-one_of f p [] h passes = h
keep_if-one_of f p (q ∷ ps) h passes = elim (one_of-cases p q ps h) [
  | inl same ↦ rw (sym same, passes) (one_of-head p (keep_if f ps))
  | inr rest ↦ elim (Bool-cases (f q)) [
    | inl kept ↦ rw kept (one_of-tail p q (keep_if f ps) (keep_if-one_of f p ps rest passes))
    | inr dropped ↦ rw dropped (keep_if-one_of f p ps rest passes)
  ]
]

pub is_empty-one_of : (p : Text) (ps : List Text) → one_of p ps ≡ true → is_empty ps ≡ false
unfolding one_of
is_empty-one_of p [] h = cc
is_empty-one_of p (q ∷ ps) h = refl

one_of-insert_text :
    (p q : Text) (qs : List Text) → one_of p (insert_text q qs) ≡ (text_eq p q || one_of p qs)
unfolding insert_text one_of
one_of-insert_text p q [] = refl
one_of-insert_text p q (x ∷ xs) = ground (arith, one_of-insert_text p q xs)

pub one_of-sorted_texts : (p : Text) (ps : List Text) → one_of p (sorted_texts ps) ≡ one_of p ps
unfolding sorted_texts one_of
one_of-sorted_texts p [] = refl
one_of-sorted_texts p (q ∷ qs) =
    ground (arith, one_of-insert_text p q (sorted_texts qs), one_of-sorted_texts p qs)

-- no text stands twice
abbrev pub AllDistinct : List Text → Type 0
AllDistinct [] = Unit
AllDistinct (v ∷ vs) = (one_of v vs ≡ false) × AllDistinct vs

pub one_of-append_last :
    (v w : Text) (vs : List Text) → one_of v (vs ++ w ∷ []) ≡ (one_of v vs || text_eq v w)
unfolding one_of
one_of-append_last v w [] = ground arith
one_of-append_last v w (x ∷ xs) = ground (arith, one_of-append_last v w xs)

pub append_last-AllDistinct :
    (w : Text) (vs : List Text) → one_of w vs ≡ false → AllDistinct vs → AllDistinct (vs ++ w ∷ [])
unfolding one_of
append_last-AllDistinct w [] fresh h = (refl, tt)
append_last-AllDistinct w (v ∷ vs) fresh (alone, rest) =
    let apart : text_eq w v ≡ false = ground arith in
    let e : one_of v (vs ++ w ∷ []) ≡ false =
      one_of-append_last v w vs ∙ (rw (alone, text_eq_comm v w, apart) refl) in
    (e, append_last-AllDistinct w vs (ground arith) rest)
