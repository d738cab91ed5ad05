-- ===== src/Queue/Add/Identity.antt =====
-- core/queue_manager.py: the identities that `add_task` and `add_tasks` give are unique, as long as
-- the drawn identifiers are new.
use hyper_loader.Prelude.{
  All, Bool-cases, List, Text, [], arith, false, inl, inr, one_of, strip, text_eq, text_eq_iff, ℕ,
  ◌+◌, ◌<◌, ◌∷◌, ◌≡◌, ◌≤◌, All-map, refl, true, Bool, suc, sym, take, zero, ◌++◌, ◌||◌, ◌∙◌,
}
use hyper_loader.Task.{Task}
use hyper_loader.Queue.Add.{
  identity, is_blank, Identified, ensure_task_identity, ensure_unique_task_identity, identify,
  seen_of,
}

-- Each task has an identity, and none is `seen` or that of a task before it.
abbrev pub Named : List Text → List Task → Type 0
Named seen [] = Unit
Named seen (t ∷ ts) =
    (is_blank (identity t) ≡ false)
    × (one_of (identity t) seen ≡ false)
    × Named (identity t ∷ seen) ts

-- The identifiers from the `n`-th on are not `seen`.
abbrev pub Fresh : (ℕ → Text) → ℕ → List Text → Type 0
Fresh uuid4 n seen = (m : ℕ) → n ≤ m → one_of (uuid4 m) seen ≡ false

-- what is relied on of `uuid4`: its texts have no spaces around them, and no two are equal
pub record IsSupply (uuid4 : ℕ → Text) : Type 0 where
  pub clean : (m : ℕ) → strip (uuid4 m) ≡ uuid4 m
  pub filled : (m : ℕ) → is_blank (uuid4 m) ≡ false
  pub apart : (m k : ℕ) → m < k → text_eq (uuid4 m) (uuid4 k) ≡ false

-- no task brings an identifier that is drawn later
abbrev pub Foreign : (ℕ → Text) → ℕ → List Task → Type 0
Foreign uuid4 n = All (λ t. (m : ℕ) → n ≤ m → text_eq (uuid4 m) (identity t) ≡ false)

module _ (uuid4 : ℕ → Text) (supply : IsSupply uuid4) where
  apart_of : (m k : ℕ) → k < m → text_eq (uuid4 m) (uuid4 k) ≡ false
  apart_of m k h =
      ground (
        arith,
        text_eq_iff (uuid4 m) (uuid4 k),
        text_eq_iff (uuid4 k) (uuid4 m),
        supply.apart k m h,
      )

  Fresh-drawn :
      (n : ℕ) (seen : List Text) → Fresh uuid4 n seen → Fresh uuid4 (n + 1) (uuid4 n ∷ seen)
  unfolding one_of
  Fresh-drawn n seen h m le = ground (arith, h m, apart_of m n)

  Fresh-kept :
      (n : ℕ) (seen : List Text) (own : Text)
      → Fresh uuid4 n seen
      → ((m : ℕ) → n ≤ m → text_eq (uuid4 m) own ≡ false)
      → Fresh uuid4 n (own ∷ seen)
  unfolding one_of
  Fresh-kept n seen own h f m le = ground (arith, h m le, f m le)

  identity-redraw : (t : Task) (n : ℕ) → identity (record t { task_uuid = uuid4 n }) ≡ uuid4 n
  unfolding identity
  identity-redraw t n = supply.clean n

  -- what one step of the loop promises
  abbrev Step : Task → List Text → ℕ → Identified → Type 0
  Step t seen n r =
      (is_blank (identity r.task) ≡ false)
      × (one_of (identity r.task) seen ≡ false)
      × (r.seen ≡ identity r.task ∷ seen)
      × (n ≤ r.drawn)
      × Fresh uuid4 r.drawn r.seen

  -- a step that draws
  abbrev redrawn : Task → List Text → ℕ → Identified
  redrawn t seen n = record {
    task = record t { task_uuid = uuid4 n };
    seen = uuid4 n ∷ seen;
    drawn = n + 1;
  }

  redrawn-Step :
      (t : Task) (seen : List Text) (n : ℕ) → Fresh uuid4 n seen → Step t seen n (redrawn t seen n)
  redrawn-Step t seen n h =
      rw (identity-redraw t n)
        (supply.filled n, h n (omega arith), refl, omega arith, Fresh-drawn n seen h)

  ensure_unique-blank :
      (t : Task) (seen : List Text) (n : ℕ)
      → Fresh uuid4 n seen
      → is_blank (identity t) ≡ true
      → ensure_unique_task_identity uuid4 t seen n ≡ redrawn t seen n
  unfolding ensure_unique_task_identity ensure_task_identity
  ensure_unique-blank t seen n h blank =
      ground (arith, blank, identity-redraw t n, supply.filled n, h n (omega arith))

  ensure_unique-taken :
      (t : Task) (seen : List Text) (n : ℕ)
      → is_blank (identity t) ≡ false
      → one_of (identity t) seen ≡ true
      → ensure_unique_task_identity uuid4 t seen n ≡ redrawn t seen n
  unfolding ensure_unique_task_identity ensure_task_identity
  ensure_unique-taken t seen n filled taken = ground (arith, filled, taken)

  ensure_unique-free :
      (t : Task) (seen : List Text) (n : ℕ)
      → is_blank (identity t) ≡ false
      → one_of (identity t) seen ≡ false
      → ensure_unique_task_identity uuid4 t seen n
        ≡ record { task = t; seen = identity t ∷ seen; drawn = n }
  unfolding ensure_unique_task_identity ensure_task_identity
  ensure_unique-free t seen n filled free = ground (arith, filled, free)

  pub ensure_unique-Step :
      (t : Task) (seen : List Text) (n : ℕ)
      → Fresh uuid4 n seen
      → ((m : ℕ) → n ≤ m → text_eq (uuid4 m) (identity t) ≡ false)
      → Step t seen n (ensure_unique_task_identity uuid4 t seen n)
  ensure_unique-Step t seen n h f = elim (Bool-cases (is_blank (identity t))) [
    | inl blank ↦ rw (ensure_unique-blank t seen n h blank) (redrawn-Step t seen n h)
    | inr filled ↦ elim (Bool-cases (one_of (identity t) seen)) [
      | inl taken ↦ rw (ensure_unique-taken t seen n filled taken) (redrawn-Step t seen n h)
      | inr free ↦
          rw (ensure_unique-free t seen n filled free)
            (filled, free, refl, omega arith, Fresh-kept n seen (identity t) h f)
    ]
  ]

  Foreign-later : (n k : ℕ) (ts : List Task) → n ≤ k → Foreign uuid4 n ts → Foreign uuid4 k ts
  Foreign-later n k ts le = All-map ts (λ t h m later. h m (omega arith))

  -- The tasks that the loop identifies have identities, all different and none seen before.
  pub identify-Named :
      (ts : List Task) (seen : List Text) (n : ℕ)
      → Fresh uuid4 n seen
      → Foreign uuid4 n ts
      → Named seen (identify uuid4 ts seen n).0
  unfolding identify
  identify-Named [] seen n h f = tt
  identify-Named (t ∷ ts) seen n h f =
      let r = ensure_unique_task_identity uuid4 t seen n in
      let (filled, unseen, same, later, fresh) = ensure_unique-Step t seen n h f.0 in
      (
        filled,
        unseen,
        rw (← same) (identify-Named ts r.seen r.drawn fresh (Foreign-later n r.drawn ts later f.1)),
      )

-- the identities seen after some tasks
abbrev seen_after : List Text → List Task → List Text
seen_after seen [] = seen
seen_after seen (t ∷ ts) = seen_after (identity t ∷ seen) ts

Named-append :
    (seen : List Text) (xs ys : List Task)
    → Named seen xs
    → Named (seen_after seen xs) ys
    → Named seen (xs ++ ys)
Named-append seen [] ys h k = k
Named-append seen (x ∷ xs) ys h k = (h.0, h.1, Named-append (identity x ∷ seen) xs ys h.2 k)

Named-weaken :
    (a b : List Text) (ts : List Task)
    → ((s : Text) → one_of s a ≡ true → one_of s b ≡ true)
    → Named b ts
    → Named a ts
unfolding one_of
Named-weaken a b [] sub h = tt
Named-weaken a b (t ∷ ts) sub h = (
  h.0,
  ground (arith, sub (identity t), h.1),
  Named-weaken (identity t ∷ a) (identity t ∷ b) ts (λ s m. ground (arith, sub s)) h.2,
)

Named-take : (seen : List Text) (n : ℕ) (ts : List Task) → Named seen ts → Named seen (take n ts)
Named-take seen zero ts h = tt
Named-take seen (suc n) [] h = tt
Named-take seen (suc n) (t ∷ ts) h = (h.0, h.1, Named-take (identity t ∷ seen) n ts h.2)

-- what is seen after named tasks is what was seen before and their identities
seen_after-one_of :
    (seen : List Text) (ts : List Task) (s : Text)
    → Named seen ts
    → one_of s (seen_after seen ts) ≡ true
    → (one_of s (seen_of ts) || one_of s seen) ≡ true
unfolding seen_of one_of
seen_after-one_of seen [] s h m = m
seen_after-one_of seen (t ∷ ts) s h m =
    ground (arith, h.0, seen_after-one_of (identity t ∷ seen) ts s h.2 m)

or_false : (b : Bool) → (b || false) ≡ b
or_false b = ground arith

-- New named tasks behind named ones leave all of them named.
pub Named-add :
    (items added : List Task) (n : ℕ)
    → Named [] items
    → Named (seen_of items) added
    → Named [] (items ++ take n added)
unfolding one_of
Named-add items added n h k = Named-append [] items (take n added) h (
    Named-weaken (seen_after [] items) (seen_of items) (take n added)
      (λ s m. sym (or_false (one_of s (seen_of items))) ∙ seen_after-one_of [] items s h m)
      (Named-take (seen_of items) n added k))
