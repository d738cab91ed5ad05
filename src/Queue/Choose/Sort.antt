-- ===== src/Queue/Choose/Sort.antt =====
-- core/queue_manager.py: the calls of `list.sort` keep the listed indices, and order them.
use hyper_loader.Queue.Choose.{Keyed, lex_leb, insert, sort, List, ℕ}
use hyper_loader.Prelude.{
  List, ℕ, map, ◌∷◌, All, Distinct, ◌≡◌, elem, ◌==◌, true, arith, Bool-cases, false, ◌∙◌, ◌||◌, [],
  inl, inr, refl,
}

abbrev pub indices : List Keyed → List ℕ
indices = map (λ k. k.1)

pub elem-insert :
    (j : ℕ) (x : Keyed) (xs : List Keyed)
    → elem j (indices (insert x xs)) ≡ (j == x.1 || elem j (indices xs))
unfolding insert
elem-insert j x [] = refl
elem-insert j x (y ∷ ys) = ground (arith, elem-insert j x ys)

pub elem-sort : (j : ℕ) (xs : List Keyed) → elem j (indices (sort xs)) ≡ elem j (indices xs)
unfolding sort
elem-sort j [] = refl
elem-sort j (x ∷ xs) = ground (arith, elem-insert j x (sort xs), elem-sort j xs)

insert-Distinct :
    (x : Keyed) (xs : List Keyed)
    → elem x.1 (indices xs) ≡ false
    → Distinct (indices xs)
    → Distinct (indices (insert x xs))
unfolding insert
insert-Distinct x [] h d = (refl, tt)
insert-Distinct x (y ∷ ys) h d = ground (arith, elem-insert y.1 x ys, insert-Distinct x ys)

pub sort-Distinct : (xs : List Keyed) → Distinct (indices xs) → Distinct (indices (sort xs))
unfolding sort
sort-Distinct [] d = tt
sort-Distinct (x ∷ xs) d =
    insert-Distinct x (sort xs) (elem-sort x.1 xs ∙ d.0) (sort-Distinct xs d.1)

lex_leb_total : (a b : List ℕ) → lex_leb a b ≡ false → lex_leb b a ≡ true
unfolding lex_leb
lex_leb_total [] b h = cc
lex_leb_total (x ∷ a) [] h = refl
lex_leb_total (x ∷ a) (y ∷ b) h = ground (arith, lex_leb_total a b)

pub lex_leb_trans : (a b c : List ℕ) → lex_leb a b ≡ true → lex_leb b c ≡ true → lex_leb a c ≡ true
unfolding lex_leb
lex_leb_trans [] b c h k = refl
lex_leb_trans (x ∷ a) [] c h k = cc
lex_leb_trans (x ∷ a) (y ∷ b) [] h k = cc
lex_leb_trans (x ∷ a) (y ∷ b) (z ∷ c) h k = ground (arith, lex_leb_trans a b c)

-- no element has a smaller key than one before it
abbrev pub Below : List ℕ → List Keyed → Type 0
Below k = All (λ y. lex_leb k y.0 ≡ true)

abbrev pub IsSorted : List Keyed → Type 0
IsSorted [] = Unit
IsSorted (x ∷ xs) = Below x.0 xs × IsSorted xs

Below-mono : (a b : List ℕ) (xs : List Keyed) → lex_leb a b ≡ true → Below b xs → Below a xs
Below-mono a b [] h k = tt
Below-mono a b (x ∷ xs) h k = (lex_leb_trans a b x.0 h k.0, Below-mono a b xs h k.1)

Below-insert :
    (k : List ℕ) (x : Keyed) (xs : List Keyed)
    → lex_leb k x.0 ≡ true
    → Below k xs
    → Below k (insert x xs)
unfolding insert
Below-insert k x [] h b = (h, tt)
Below-insert k x (y ∷ ys) h b = ground (arith, Below-insert k x ys)

insert-IsSorted : (x : Keyed) (xs : List Keyed) → IsSorted xs → IsSorted (insert x xs)
unfolding insert
insert-IsSorted x [] s = (tt, tt)
insert-IsSorted x (y ∷ ys) s = elim (Bool-cases (lex_leb x.0 y.0)) [
  | inl e ↦ rw e ((e, Below-mono x.0 y.0 ys e s.0), s)
  | inr e ↦ rw e (Below-insert y.0 x ys (lex_leb_total x.0 y.0 e) s.0, insert-IsSorted x ys s.1)
]

-- the result of `list.sort` is in the order of its keys
pub sort-IsSorted : (xs : List Keyed) → IsSorted (sort xs)
unfolding sort
sort-IsSorted [] = tt
sort-IsSorted (x ∷ xs) = insert-IsSorted x (sort xs) (sort-IsSorted xs)
