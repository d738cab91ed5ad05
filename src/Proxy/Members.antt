-- ===== src/Proxy/Members.antt =====
-- core/proxy_manager.py: which texts stand in the lists that the rotation builds.
use hyper_loader.Prelude.{
  Bool-cases, List, Text, [], arith, false, get_elem?, inl, inr, length, one_of, refl, some, strip,
  suc, sym, text_eq, text_eq_iff, true, zero, ℕ, ◌<◌, ◌∷◌, ◌≡◌, ◌⊎◌, is_empty, one_of-cases,
  one_of-head, one_of-tail,
}
use hyper_loader.Proxy.{normalize_proxy_list, or_list, index_of}

-- the listed texts are stripped, and none is empty
abbrev pub IsClean : List Text → Type 0
IsClean ps = (p : Text) → one_of p ps ≡ true → (strip p ≡ p) × (is_empty p ≡ false)

pub tail-IsClean : (q : Text) (ps : List Text) → IsClean (q ∷ ps) → IsClean ps
tail-IsClean q ps clean p h = clean p (one_of-tail p q ps h)

pub normalize_proxy_list-IsClean : (ps : List Text) → IsClean ps → normalize_proxy_list ps ≡ ps
unfolding normalize_proxy_list
normalize_proxy_list-IsClean [] clean = refl
normalize_proxy_list-IsClean (p ∷ ps) clean =
    let (stripped, filled) = clean p (one_of-head p ps) in
    rw (stripped, filled, normalize_proxy_list-IsClean ps (tail-IsClean p ps clean)) refl

pub one_of-or_list :
    (p : Text) (xs ys : List Text)
    → one_of p (or_list xs ys) ≡ true
    → (one_of p xs ≡ true) ⊎ (one_of p ys ≡ true)
one_of-or_list p [] ys h = inr h
one_of-or_list p (x ∷ xs) ys h = inl h

pub get_elem?-one_of :
    (ps : List Text) (i : ℕ) (p : Text) → get_elem? ps i ≡ some p → one_of p ps ≡ true
get_elem?-one_of [] i p h = cc
get_elem?-one_of (q ∷ ps) zero p h = let same : q ≡ p = cc in rw same (one_of-head p ps)
get_elem?-one_of (q ∷ ps) (suc i) p h = one_of-tail p q ps (get_elem?-one_of ps i p h)

pub get_elem?-lt {ℓ} :
    {A : Type ℓ} (xs : List A) (i : ℕ) → i < length xs → (x : A) × (get_elem? xs i ≡ some x)
get_elem?-lt [] i lt = absurd (omega arith)
get_elem?-lt (x ∷ xs) zero lt = (x, refl)
get_elem?-lt (x ∷ xs) (suc i) lt = get_elem?-lt xs i (omega arith)

pub index_of-lt : (p : Text) (ps : List Text) → one_of p ps ≡ true → index_of p ps < length ps
unfolding index_of one_of
index_of-lt p [] h = cc
index_of-lt p (q ∷ ps) h = elim (Bool-cases (text_eq q p)) [
  | inl same ↦ rw same (omega arith)
  | inr other ↦ elim (one_of-cases p q ps h) [
    | inl same ↦ absurd (ground (arith, (text_eq_iff q p).1 (sym same), other))
    | inr rest ↦ let lt = index_of-lt p ps rest in rw other (omega arith)
  ]
]
