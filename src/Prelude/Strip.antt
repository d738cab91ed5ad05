-- ===== src/Prelude/Strip.antt =====
-- Stripping twice is stripping once.
use Prim.Native.Nat.{ℕ}
use mathlib.Core.Path.{◌≡◌, refl, sym, ap, ◌∙◌}
use mathlib.Core.Logic.{inl, inr}
use mathlib.Core.List.{[], ◌∷◌, ◌++◌, reverse, reverse-cons, reverse-append, reverse-reverse}
use mathlib.Core.Bool.{true, false}
use hyper_loader.Prelude.Tests.{Bool-cases}
use hyper_loader.Prelude.Strings.{Text, is_space, strip_left, strip}

strip_left-strip_left : (s : Text) → strip_left (strip_left s) ≡ strip_left s
unfolding strip_left
strip_left-strip_left [] = refl
strip_left-strip_left (c ∷ s) = elim (Bool-cases (is_space c)) [
  | inl space ↦ rw space (strip_left-strip_left s)
  | inr solid ↦ rw (solid, solid) refl
]

-- a character that is no space stays at the end
strip_left-snoc :
    (s : Text) (c : ℕ) → is_space c ≡ false → strip_left (s ++ c ∷ []) ≡ strip_left s ++ c ∷ []
unfolding strip_left
strip_left-snoc [] c solid = rw solid refl
strip_left-snoc (d ∷ s) c solid = elim (Bool-cases (is_space d)) [
  | inl space ↦ rw space (strip_left-snoc s c solid)
  | inr other ↦ rw other refl
]

strip_left-cons : (c : ℕ) (s : Text) → is_space c ≡ false → strip_left (c ∷ s) ≡ c ∷ s
unfolding strip_left
strip_left-cons c s solid = rw solid refl

-- once the front is stripped
strip-cons :
    (c : ℕ) (s : Text) → is_space c ≡ false → strip (c ∷ s) ≡ c ∷ reverse (strip_left (reverse s))
unfolding strip
strip-cons c s solid =
    ap (λ x. reverse (strip_left (reverse x))) (strip_left-cons c s solid)
    ∙ ap (λ x. reverse (strip_left x)) (reverse-cons c s)
    ∙ ap reverse (strip_left-snoc (reverse s) c solid)
    ∙ reverse-append (strip_left (reverse s)) (c ∷ [])

strip-space : (c : ℕ) (s : Text) → is_space c ≡ true → strip (c ∷ s) ≡ strip s
unfolding strip strip_left
strip-space c s space = rw space refl

stripped_nothing : strip (strip []) ≡ strip []
unfolding strip
stripped_nothing = refl

pub strip-strip : (s : Text) → strip (strip s) ≡ strip s
strip-strip [] = stripped_nothing
strip-strip (c ∷ s) = elim (Bool-cases (is_space c)) [
  | inl space ↦ ap strip (strip-space c s space) ∙ strip-strip s ∙ sym (strip-space c s space)
  | inr solid ↦
      let back = strip_left (reverse s) in
      ap strip (strip-cons c s solid)
      ∙ strip-cons c (reverse back) solid
      ∙ ap (λ x. c ∷ reverse (strip_left x)) (reverse-reverse back)
      ∙ ap (λ x. c ∷ reverse x) (strip_left-strip_left (reverse s))
      ∙ sym (strip-cons c s solid)
]
