-- ===== src/Queue/Plan/Ready.antt =====
-- core/queue_manager.py: what the second loop of `plan_parallel_start` finds ready, and the time at
-- which it asks to be called again.
use hyper_loader.Prelude.{
  ℕ, zero, suc, ◌+◌, ◌≤◌, ◌≡◌, refl, Bool, true, false, Option, none, some, List, [], ◌∷◌,
  get_elem?, elem, Distinct, arith, ◌⊎◌, inl, inr, ◌<◌,
}
use hyper_loader.Queue.Plan.{Row, is_ready, ready_from, wake_time, next_retry_from, sooner}

-- the test of the element at an index
abbrev pub ready_at : List ℕ → ℕ → ℕ → Option Row → Bool
ready_at ids now idx none = false
ready_at ids now idx (some row) = is_ready ids now idx row

module _ (ids : List ℕ) (now : ℕ) where
  pub ready_from-ge :
      (idx : ℕ) (rows : List Row) (j : ℕ) → elem j (ready_from ids now idx rows) ≡ true → idx ≤ j
  unfolding ready_from
  ready_from-ge idx [] j h = ground arith
  ready_from-ge idx (row ∷ rows) j h = ground (arith, ready_from-ge (suc idx) rows j)

  not-elem-ready_from :
      (idx : ℕ) (rows : List Row) → elem idx (ready_from ids now (suc idx) rows) ≡ false
  not-elem-ready_from idx rows = ground (arith, ready_from-ge (suc idx) rows idx)

  -- an index is listed exactly when its row passes the tests
  pub elem-ready_from :
      (idx : ℕ) (rows : List Row) (i : ℕ)
      → elem (idx + i) (ready_from ids now idx rows) ≡ ready_at ids now (idx + i) (get_elem? rows i)
  unfolding ready_from
  elem-ready_from idx [] i = refl
  elem-ready_from idx (row ∷ rows) zero =
      let e : idx + 0 ≡ idx = omega arith in rw e (ground (arith, not-elem-ready_from idx rows))
  elem-ready_from idx (row ∷ rows) (suc i) =
      let e : idx + suc i ≡ suc idx + i = omega arith in
      rw e (ground (arith, elem-ready_from (suc idx) rows i))

  pub ready_from-Distinct : (idx : ℕ) (rows : List Row) → Distinct (ready_from ids now idx rows)
  unfolding ready_from
  ready_from-Distinct idx [] = tt
  ready_from-Distinct idx (row ∷ rows) =
      ground (arith, not-elem-ready_from idx rows, ready_from-Distinct (suc idx) rows)

-- the time for which the element at an index waits
abbrev pub wake_at : List ℕ → ℕ → ℕ → Option Row → Option ℕ
wake_at ids now idx none = none
wake_at ids now idx (some row) = wake_time ids now idx row

-- at most the bound, if there is one
abbrev pub AtMost : Option ℕ → ℕ → Type 0
AtMost none u = ⊥
AtMost (some t) u = t ≤ u

sooner-AtMost_left : (a b : Option ℕ) (u : ℕ) → AtMost a u → AtMost (sooner a b) u
unfolding sooner
sooner-AtMost_left none b u h = absurd h
sooner-AtMost_left (some t) none u h = h
sooner-AtMost_left (some t) (some n) u h = ground arith

sooner-AtMost_right : (a b : Option ℕ) (u : ℕ) → AtMost b u → AtMost (sooner a b) u
unfolding sooner
sooner-AtMost_right none b u h = h
sooner-AtMost_right (some t) none u h = absurd h
sooner-AtMost_right (some t) (some n) u h = ground arith

sooner-either : (a b : Option ℕ) (t : ℕ) → sooner a b ≡ some t → (a ≡ some t) ⊎ (b ≡ some t)
unfolding sooner
sooner-either none b t h = inr h
sooner-either (some n) none t h = inl h
sooner-either (some n) (some m) t h = ground arith

at_zero : (idx : ℕ) → idx + 0 ≡ idx
at_zero idx = omega arith

shift : (idx i : ℕ) → idx + suc i ≡ suc idx + i
shift idx i = omega arith

module _ (ids : List ℕ) (now : ℕ) where
  next_retry_from-AtMost_acc :
      (idx : ℕ) (rows : List Row) (acc : Option ℕ) (u : ℕ)
      → AtMost acc u
      → AtMost (next_retry_from ids now idx rows acc) u
  unfolding next_retry_from
  next_retry_from-AtMost_acc idx [] acc u h = h
  next_retry_from-AtMost_acc idx (row ∷ rows) acc u h =
      next_retry_from-AtMost_acc (suc idx) rows _ u
        (sooner-AtMost_right (wake_time ids now idx row) acc u h)

  -- no candidate wakes before the reported time
  pub next_retry_from-AtMost :
      (idx : ℕ) (rows : List Row) (acc : Option ℕ) (i u : ℕ)
      → wake_at ids now (idx + i) (get_elem? rows i) ≡ some u
      → AtMost (next_retry_from ids now idx rows acc) u
  unfolding next_retry_from
  next_retry_from-AtMost idx [] acc i u h = absurd (ground arith)
  next_retry_from-AtMost idx (row ∷ rows) acc zero u h =
      let e : idx + 0 ≡ idx = omega arith in
      let w : wake_time ids now idx row ≡ some u = rw e at h in
      next_retry_from-AtMost_acc (suc idx) rows _ u
        (sooner-AtMost_left (wake_time ids now idx row) acc u (rw w (omega arith)))
  next_retry_from-AtMost idx (row ∷ rows) acc (suc i) u h =
      let e : idx + suc i ≡ suc idx + i = omega arith in
      next_retry_from-AtMost (suc idx) rows _ i u (rw e at h)

  -- the reported time is a candidate's
  pub next_retry_from-attained :
      (idx : ℕ) (rows : List Row) (acc : Option ℕ) (t : ℕ)
      → next_retry_from ids now idx rows acc ≡ some t
      → (acc ≡ some t) ⊎ ((i : ℕ) × (wake_at ids now (idx + i) (get_elem? rows i) ≡ some t))
  unfolding next_retry_from
  next_retry_from-attained idx [] acc t h = inl h
  next_retry_from-attained idx (row ∷ rows) acc t h =
      elim (next_retry_from-attained (suc idx) rows (sooner (wake_time ids now idx row) acc) t h) [
        | inl e ↦ elim (sooner-either (wake_time ids now idx row) acc t e) [
          | inl w ↦ inr (0, rw (at_zero idx) w)
          | inr a ↦ inl a
        ]
        | inr (i, w) ↦ inr (suc i, rw (shift idx i) w)
      ]

pub wake_at-lt :
    (ids : List ℕ) (now idx : ℕ) (o : Option Row) (t : ℕ) → wake_at ids now idx o ≡ some t → now < t
unfolding wake_time
wake_at-lt ids now idx none t h = absurd (ground arith)
wake_at-lt ids now idx (some row) t h = ground arith
