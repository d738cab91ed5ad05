-- ===== src/Optimizer/Laws.antt =====
-- core/queue_ai.py: which items an optimised queue has, and in which order.
use hyper_loader.Prelude.{
  All, Bool, Bool-cases, List, [], arith, count_if, false, inl, inr, map, ok, refl, traverse, true,
  ℕ, ◌++◌, ◌∙◌, ◌∷◌, ◌≡◌, >>=-eq-ok, ap, keep_if, ◌>>=◌,
}
use hyper_loader.Optimizer.{
  QueueItem, Score, Scored, score_leb, scored, calculate_priority_score, insert_scored, sort_scored,
  has_status, active_statuses, pending_statuses, completed_statuses, optimize_queue,
}

-- the items of a ranking
abbrev pub items_of : List Scored → List QueueItem
items_of = map (λ x. x.1)

-- the ranking in which no item has a greater score than one before it
abbrev pub IsRanked : List Scored → Type 0
IsRanked [] = Unit
IsRanked (x ∷ xs) = All (λ (y : Scored). score_leb y.0 x.0 ≡ true) xs × IsRanked xs

score_leb_total : (a b : Score) → score_leb a b ≡ false → score_leb b a ≡ true
unfolding score_leb
score_leb_total a b h = ground (arith, h)

score_leb_trans :
    (a b c : Score) → score_leb a b ≡ true → score_leb b c ≡ true → score_leb a c ≡ true
unfolding score_leb
score_leb_trans a b c h k = ground (arith, h, k)

-- no score of a ranking is greater than one
abbrev Below : Score → List Scored → Type 0
Below s = All (λ (y : Scored). score_leb y.0 s ≡ true)

Below-mono : (a b : Score) (xs : List Scored) → score_leb a b ≡ true → Below a xs → Below b xs
Below-mono a b [] h below = tt
Below-mono a b (x ∷ xs) h below = (score_leb_trans x.0 a b below.0 h, Below-mono a b xs h below.1)

All-insert_scored {ℓ} :
    (P : Scored → Type ℓ) (x : Scored) (xs : List Scored)
    → P x
    → All P xs
    → All P (insert_scored x xs)
unfolding insert_scored
All-insert_scored P x [] h all = (h, tt)
All-insert_scored P x (y ∷ ys) h all = elim (Bool-cases (score_leb y.0 x.0)) [
  | inl less ↦ rw less (h, all)
  | inr more ↦ rw more (all.0, All-insert_scored P x ys h all.1)
]

All-sort_scored {ℓ} : (P : Scored → Type ℓ) (xs : List Scored) → All P xs → All P (sort_scored xs)
unfolding sort_scored
All-sort_scored P [] all = tt
All-sort_scored P (x ∷ xs) all =
    All-insert_scored P x (sort_scored xs) all.0 (All-sort_scored P xs all.1)

insert_scored-IsRanked :
    (x : Scored) (xs : List Scored) → IsRanked xs → IsRanked (insert_scored x xs)
unfolding insert_scored
insert_scored-IsRanked x [] ranked = (tt, tt)
insert_scored-IsRanked x (y ∷ ys) ranked = elim (Bool-cases (score_leb y.0 x.0)) [
  | inl less ↦ rw less ((less, Below-mono y.0 x.0 ys less ranked.0), ranked)
  | inr more ↦ rw more (
    All-insert_scored (λ (z : Scored). score_leb z.0 y.0 ≡ true) x ys (score_leb_total y.0 x.0 more)
        ranked.0,
    insert_scored-IsRanked x ys ranked.1,
  )
]

sort_scored-IsRanked : (xs : List Scored) → IsRanked (sort_scored xs)
unfolding sort_scored
sort_scored-IsRanked [] = tt
sort_scored-IsRanked (x ∷ xs) = insert_scored-IsRanked x (sort_scored xs) (sort_scored-IsRanked xs)

module _ (f : QueueItem → Bool) where
  count_if-insert_scored :
      (x : Scored) (xs : List Scored)
      → count_if f (items_of (insert_scored x xs)) ≡ count_if f (x.1 ∷ items_of xs)
  unfolding insert_scored
  count_if-insert_scored x [] = refl
  count_if-insert_scored x (y ∷ ys) = ground (arith, count_if-insert_scored x ys)

  count_if-sort_scored :
      (xs : List Scored) → count_if f (items_of (sort_scored xs)) ≡ count_if f (items_of xs)
  unfolding sort_scored
  count_if-sort_scored [] = refl
  count_if-sort_scored (x ∷ xs) =
      count_if-insert_scored x (sort_scored xs) ∙ ground (arith, count_if-sort_scored xs)

-- the score of an item
abbrev pub HasScore : ℕ → Scored → Type 0
HasScore now x = calculate_priority_score 1000 now x.1 ≡ ok x.0

scored-HasScore :
    (now : ℕ) (t : QueueItem) (x : Scored) → scored now t ≡ ok x → HasScore now x × (x.1 ≡ t)
unfolding scored
scored-HasScore now t x h =
    let (s, found, made) = >>=-eq-ok (calculate_priority_score 1000 now t) (λ s. ok (s, t)) h in
    let first : s ≡ x.0 = cc in
    let second : x.1 ≡ t = cc in (rw second (found ∙ ap (λ z. ok z) first), second)

-- the ranked items are the given ones, with their scores
abbrev Scores : ℕ → List QueueItem → List Scored → Type 0
Scores now ts xs = (items_of xs ≡ ts) × All (HasScore now) xs

Scores-eq :
    (now : ℕ) (ts : List QueueItem) (xs ys : List Scored)
    → xs ≡ ys
    → Scores now ts xs
    → Scores now ts ys
Scores-eq now ts xs ys same scores = rw same at scores

traverse-Scores :
    (now : ℕ) (ts : List QueueItem) (xs : List Scored)
    → traverse (scored now) ts ≡ ok xs
    → Scores now ts xs
unfolding traverse
traverse-Scores now [] [] h = (refl, tt)
traverse-Scores now [] (x ∷ xs) h = cc
traverse-Scores now (t ∷ ts) xs h =
    let (x, one, later) =
      >>=-eq-ok (scored now t) (λ y. traverse (scored now) ts >>= λ ys. ok (y ∷ ys)) h in
    let (ys, rest, made) = >>=-eq-ok (traverse (scored now) ts) (λ ys. ok (x ∷ ys)) later in
    let (is_score, is_item) = scored-HasScore now t x one in
    let (items, scores) = traverse-Scores now ts ys rest in
    let all : Scores now (t ∷ ts) (x ∷ ys) =
      (ap (λ z. z ∷ items_of ys) is_item ∙ ap (λ zs. t ∷ zs) items, (is_score, scores)) in
    let same : x ∷ ys ≡ xs = cc in Scores-eq now (t ∷ ts) (x ∷ ys) xs same all

-- An optimised queue has the active items, a ranking of the pending ones by their scores, and the completed
-- ones, in this order, and no item of any other status.
pub optimize_queue_lem :
    (now : ℕ) (items result : List QueueItem)
    → optimize_queue now items ≡ ok result
    → (xs : List Scored) × (result
        ≡ keep_if (has_status active_statuses) items
          ++ items_of xs
          ++ keep_if (has_status completed_statuses) items)
      × IsRanked xs
      × All (HasScore now) xs
      × ((f : QueueItem → Bool)
          → count_if f (items_of xs) ≡ count_if f (keep_if (has_status pending_statuses) items))
unfolding optimize_queue
optimize_queue_lem now items result h =
    let waiting = keep_if (has_status pending_statuses) items in
    let (ranked, found, made) =
      >>=-eq-ok (traverse (scored now) waiting)
        (λ xs. ok (
          keep_if (has_status active_statuses) items
          ++ items_of (sort_scored xs)
          ++ keep_if (has_status completed_statuses) items))
        h in
    let (same, scores) = traverse-Scores now waiting ranked found in
    (
      sort_scored ranked,
      cc,
      sort_scored-IsRanked ranked,
      All-sort_scored (HasScore now) ranked scores,
      λ f. count_if-sort_scored f ranked ∙ ap (count_if f) same,
    )
