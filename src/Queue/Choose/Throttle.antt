-- ===== src/Queue/Choose/Throttle.antt =====
-- core/queue_manager.py: the last loop of `plan_parallel_start`.
use hyper_loader.Prelude.{
  ℕ, zero, suc, ◌+◌, ◌≤◌, max, ◌≡◌, Text, text_eq, text_eq_iff, true, false, if◌then◌else◌, List,
  [], ◌∷◌, elem, Distinct, count_if, length, arith, inl, ◌⊎◌, refl,
}
use hyper_loader.Queue.Domains.{domain_concurrency_limit}
use hyper_loader.Queue.Plan.{Row, Usage, use_domain, bump}
use hyper_loader.Queue.Choose.{domain_at, is_saturated, select}

module _ (rows : List Row) where
  -- how many of the indices are of a domain
  abbrev pub count_domain : Text → List ℕ → ℕ
  count_domain d = count_if (λ i. text_eq (domain_at rows i) d)

  pub length-select-le :
      (room : ℕ) (u : Usage) (is : List ℕ) → length (select rows room u is) ≤ room
  unfolding select
  length-select-le room u [] = omega arith
  length-select-le zero u (i ∷ is) = omega arith
  length-select-le (suc room) u (i ∷ is) = ground (
    arith,
    length-select-le (suc room) u is,
    length-select-le room (use_domain (domain_at rows i) u) is,
  )

  -- only listed indices are selected
  pub elem_of_elem-select :
      (room : ℕ) (u : Usage) (is : List ℕ) (j : ℕ)
      → elem j (select rows room u is) ≡ true
      → elem j is ≡ true
  unfolding select
  elem_of_elem-select room u [] j h = h
  elem_of_elem-select zero u (i ∷ is) j h = ground arith
  elem_of_elem-select (suc room) u (i ∷ is) j h = ground (
    arith,
    elem_of_elem-select (suc room) u is j,
    elem_of_elem-select room (use_domain (domain_at rows i) u) is j,
  )

  not-elem-select :
      (room : ℕ) (u : Usage) (is : List ℕ) (j : ℕ)
      → elem j is ≡ false
      → elem j (select rows room u is) ≡ false
  not-elem-select room u is j h = ground (arith, elem_of_elem-select room u is j)

  pub select-Distinct :
      (room : ℕ) (u : Usage) (is : List ℕ) → Distinct is → Distinct (select rows room u is)
  unfolding select
  select-Distinct room u [] h = tt
  select-Distinct zero u (i ∷ is) h = tt
  select-Distinct (suc room) u (i ∷ is) h = ground (
    arith,
    not-elem-select room (use_domain (domain_at rows i) u) is i,
    select-Distinct (suc room) u is,
    select-Distinct room (use_domain (domain_at rows i) u) is,
  )

  use_domain-at :
      (e d : Text) (u : Usage)
      → text_eq d [] ≡ false
      → use_domain e u d ≡ (if text_eq e d then u d + 1 else u d)
  unfolding use_domain bump
  use_domain-at e d u h = ground (arith, text_eq_iff e d, text_eq_iff e [], text_eq_iff d [])

  -- no domain passes its limit by what is selected
  pub select-throttle :
      (d : Text)
      → text_eq d [] ≡ false
      → (room : ℕ) (u : Usage) (is : List ℕ)
      → u d + count_domain d (select rows room u is) ≤ max (u d) (domain_concurrency_limit d)
  unfolding select is_saturated
  select-throttle d h room u [] = omega arith
  select-throttle d h zero u (i ∷ is) = omega arith
  select-throttle d h (suc room) u (i ∷ is) = ground (
    arith,
    text_eq_iff (domain_at rows i) d,
    use_domain-at (domain_at rows i) d u h,
    select-throttle d h (suc room) u is,
    select-throttle d h room (use_domain (domain_at rows i) u) is,
  )

module _ (rows : List Row) where
  -- The domain of a listed index is at its limit, or the room is used up.
  abbrev pub Blocked : ℕ → Usage → List ℕ → ℕ → Type 0
  Blocked room u chosen j =
      (length chosen ≡ room)
      ⊎ ((text_eq (domain_at rows j) [] ≡ false)
          × (domain_concurrency_limit (domain_at rows j)
              ≤ u (domain_at rows j) + count_domain rows (domain_at rows j) chosen))

  -- what is passed over is blocked
  pub select-Blocked :
      (room : ℕ) (u : Usage) (is : List ℕ) (j : ℕ)
      → elem j is ≡ true
      → elem j (select rows room u is) ≡ false
      → Blocked room u (select rows room u is) j
  unfolding select is_saturated
  select-Blocked room u [] j h k = cc
  select-Blocked zero u (i ∷ is) j h k = inl refl
  select-Blocked (suc room) u (i ∷ is) j h k = ground (
    arith,
    select-Blocked (suc room) u is j,
    select-Blocked room (use_domain (domain_at rows i) u) is j,
    use_domain-at rows (domain_at rows i) (domain_at rows j) u,
  )
