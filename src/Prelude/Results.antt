-- ===== src/Prelude/Results.antt =====
-- Code that may raise. The exceptions of the modelled code are told apart by `Error`.
use mathlib.Core.Path.{◌≡◌, refl}
use mathlib.Core.Logic.{◌⊎◌, inl, inr}
use mathlib.Core.List.{List, [], ◌∷◌}

pub data Error : Type 0 where
  value_error type_error key_error interrupted runtime_error : Error

pub data Result {ℓ} (A : Type ℓ) : Type ℓ where
  ok : A → Result A
  raise : Error → Result A

infixl 5 ◌>>=◌
abbrev pub ◌>>=◌ {ℓ κ} : {A : Type ℓ} {B : Type κ} → Result A → (A → Result B) → Result B
ok a >>= f = f a
raise e >>= f = raise e

module _ {ℓ κ} {A : Type ℓ} {B : Type κ} where
  -- a comprehension whose body may raise
  unfoldable pub traverse : (A → Result B) → List A → Result (List B)
  traverse f [] = ok []
  traverse f (x ∷ xs) = do y ← f x; ys ← traverse f xs; ok (y ∷ ys)

  -- both parts of a run that did not raise
  pub >>=-eq-ok :
      {y : B} (ran : Result A) (next : A → Result B)
      → (ran >>= next) ≡ ok y
      → (x : A) × (ran ≡ ok x) × (next x ≡ ok y)
  >>=-eq-ok (raise e) next done = cc
  >>=-eq-ok (ok x) next done = (x, refl, done)

-- `try: … except: default`
abbrev pub or_else {ℓ} : {A : Type ℓ} → Result A → A → A
or_else (ok a) d = a
or_else (raise e) d = d

pub Result-cases {ℓ} :
    {A : Type ℓ} (r : Result A) → ((a : A) × (r ≡ ok a)) ⊎ ((e : Error) × (r ≡ raise e))
Result-cases (ok a) = inl (a, refl)
Result-cases (raise e) = inr (e, refl)
