-- ===== src/Subscriptions/Laws.antt =====
-- core/channel_subscriptions.py: which ids a check collects, and what the edits of the list keep.
use hyper_loader.Prelude.{
  List, Bool-cases, Text, [], arith, false, inl, inr, one_of, one_of-tail, refl, suc, take, true,
  zero, ℕ, ◌∷◌, ◌≡◌, ap, if◌then◌else◌, length, ltb, one_of-cases, one_of-head, sym, text_eq, ◌<◌,
  ◌∙◌, ◌≤◌, ◌⊎◌, length-take, length-take-le, strip, is_empty, AllDistinct,
}
use hyper_loader.Subscriptions.Ids.{stripped_ids, unique_from, candidates_of, collect_new_video_ids}

one_of-take :
    (v : Text) (n : ℕ) (vs : List Text) → one_of v vs ≡ false → one_of v (take n vs) ≡ false
unfolding one_of
one_of-take v zero vs h = refl
one_of-take v (suc n) [] h = h
one_of-take v (suc n) (w ∷ ws) h = ground (arith, one_of-take v n ws)

one_of-take_in :
    (v : Text) (n : ℕ) (vs : List Text) → one_of v (take n vs) ≡ true → one_of v vs ≡ true
one_of-take_in v n vs h = elim (Bool-cases (one_of v vs)) [
  | inl there ↦ there
  | inr gone ↦ let e = one_of-take v n vs gone in cc
]

take-AllDistinct : (n : ℕ) (vs : List Text) → AllDistinct vs → AllDistinct (take n vs)
take-AllDistinct zero vs h = tt
take-AllDistinct (suc n) [] h = tt
take-AllDistinct (suc n) (v ∷ vs) (alone, rest) =
    (one_of-take v n vs alone, take-AllDistinct n vs rest)

take_short : (n : ℕ) (vs : List Text) → length vs ≤ n → take n vs ≡ vs
take_short zero [] h = refl
take_short zero (v ∷ vs) h = absurd (omega arith)
take_short (suc n) [] h = refl
take_short (suc n) (v ∷ vs) h = ap (◌∷◌ v) (take_short n vs (omega arith))

short_of :
    (vs : List Text) (n : ℕ) → suc n ≡ 0 ⊎ length (take (suc n) vs) < suc n → length vs ≤ suc n
short_of vs n (inl none_at_all) = absurd (omega arith)
short_of vs n (inr room) = omega (arith, length-take (suc n) vs)

-- what is picked stands in the list and not among the ids seen
unique_from-one_of :
    (v : Text) (seen vs : List Text)
    → one_of v (unique_from seen vs) ≡ true
    → (one_of v vs ≡ true) × (one_of v seen ≡ false)
unfolding unique_from one_of
unique_from-one_of v seen [] h = cc
unique_from-one_of v seen (w ∷ ws) h = elim (Bool-cases (one_of w seen)) [
  | inl known ↦
      let found = rw known at h in
      let (there, alone) = unique_from-one_of v seen ws found in (one_of-tail v w ws there, alone)
  | inr fresh ↦
      let found = rw fresh at h in
      elim (one_of-cases v w (unique_from (w ∷ seen) ws) found) [
        | inl same ↦ (
          ap (λ x. one_of x (w ∷ ws)) same ∙ one_of-head w ws,
          ap (λ x. one_of x seen) same ∙ fresh,
        )
        | inr later ↦
            let (there, alone) = unique_from-one_of v (w ∷ seen) ws later in
            (one_of-tail v w ws there, ground arith)
      ]
]

one_of-unique_from :
    (v : Text) (seen vs : List Text)
    → one_of v vs ≡ true
    → one_of v seen ≡ false
    → one_of v (unique_from seen vs) ≡ true
unfolding unique_from one_of
one_of-unique_from v seen [] h alone = h
one_of-unique_from v seen (w ∷ ws) h alone = elim (Bool-cases (one_of w seen)) [
  | inl known ↦ elim (one_of-cases v w ws h) [
    | inl same ↦ let e = sym (ap (λ x. one_of x seen) same ∙ known) ∙ alone in cc
    | inr later ↦ rw known (one_of-unique_from v seen ws later alone)
  ]
  | inr fresh ↦ elim (Bool-cases (text_eq v w)) [
    | inl same ↦ rw fresh (ground arith)
    | inr other ↦
        let later : one_of v ws ≡ true = ground arith in
        let unseen : one_of v (w ∷ seen) ≡ false = ground arith in
        rw fresh (
          one_of-tail v w (unique_from (w ∷ seen) ws)
            (one_of-unique_from v (w ∷ seen) ws later unseen))
  ]
]

unique_from-AllDistinct : (seen vs : List Text) → AllDistinct (unique_from seen vs)
unfolding unique_from one_of
unique_from-AllDistinct seen [] = tt
unique_from-AllDistinct seen (w ∷ ws) = elim (Bool-cases (one_of w seen)) [
  | inl known ↦ rw known (unique_from-AllDistinct seen ws)
  | inr fresh ↦
      let alone : one_of w (unique_from (w ∷ seen) ws) ≡ false =
        elim (Bool-cases (one_of w (unique_from (w ∷ seen) ws))) [
          | inl twice ↦
              let e = sym (one_of-head w seen) ∙ (unique_from-one_of w (w ∷ seen) ws twice).1 in cc
          | inr once ↦ once
        ] in
      rw fresh (alone, unique_from-AllDistinct (w ∷ seen) ws)
]

-- which ids are collected: distinct candidates, at most the maximum, all of them where it allows
abbrev pub Collected : List Text → ℕ → List Text → Type 0
Collected candidates max_downloads ids =
    AllDistinct ids
    × ((v : Text) → one_of v ids ≡ true → one_of v candidates ≡ true)
    × (1 ≤ max_downloads → length ids ≤ max_downloads)
    × (max_downloads ≡ 0 ⊎ length ids < max_downloads
        → (v : Text) → one_of v candidates ≡ true
        → one_of v ids ≡ true)

whole-Collected : (candidates : List Text) → Collected candidates 0 (unique_from [] candidates)
unfolding one_of
whole-Collected candidates = (
  unique_from-AllDistinct [] candidates,
  λ v there. (unique_from-one_of v [] candidates there).0,
  λ limit. absurd (omega arith),
  λ room v there. one_of-unique_from v [] candidates there refl,
)

take-Collected :
    (candidates : List Text) (n : ℕ)
    → Collected candidates (suc n) (take (suc n) (unique_from [] candidates))
unfolding one_of
take-Collected candidates n =
    let unique = unique_from [] candidates in
    (
      take-AllDistinct (suc n) unique (unique_from-AllDistinct [] candidates),
      λ v there. (unique_from-one_of v [] candidates (one_of-take_in v (suc n) unique there)).0,
      λ limit. length-take-le (suc n) unique,
      λ room v there.
          let short : length unique ≤ suc n = short_of unique n room in
          ap (one_of v) (take_short (suc n) unique short)
          ∙ one_of-unique_from v [] candidates there refl,
    )

-- what `_collect_new_video_ids` chooses from: the ids before the last one seen, where that was
-- fetched, else the unknown ones
abbrev pub candidates : List Text → List Text → Text → List Text
candidates fetched_ids known_ids last_seen_video_id =
    candidates_of (stripped_ids fetched_ids) known_ids (strip last_seen_video_id)

candidates_of-nil :
    (known_ids : List Text) (boundary : Text) → candidates_of [] known_ids boundary ≡ []
unfolding candidates_of
candidates_of-nil known_ids boundary = ground arith

nothing-Collected : (n : ℕ) → Collected [] n []
nothing-Collected n = (tt, λ v there. there, λ limit. omega arith, λ room v there. there)

limited-Collected :
    (chosen : List Text) (n : ℕ)
    → Collected chosen n (if ltb 0 n then take n (unique_from [] chosen) else unique_from [] chosen)
limited-Collected chosen zero = whole-Collected chosen
limited-Collected chosen (suc n) =
    let positive : ltb 0 (suc n) ≡ true = ground arith in rw positive (take-Collected chosen n)

candidates_of-Collected :
    (ordered known_ids : List Text) (boundary : Text) (n : ℕ)
    → (let chosen = candidates_of ordered known_ids boundary in
        Collected chosen n (
          if is_empty ordered
          then []
          else if ltb 0 n
          then take n (unique_from [] chosen)
          else unique_from [] chosen))
candidates_of-Collected [] known_ids boundary n =
    rw (candidates_of-nil known_ids boundary) (nothing-Collected n)
candidates_of-Collected (v ∷ vs) known_ids boundary n =
    limited-Collected (candidates_of (v ∷ vs) known_ids boundary) n

-- The collected ids are distinct, are candidates, are at most the maximum where there is one, and
-- are all candidates where there is none or it is not reached.
pub collect_new_video_ids-Collected :
    (fetched_ids known_ids : List Text) (last_seen_video_id : Text) (max_downloads : ℕ)
    → Collected
        (candidates fetched_ids known_ids last_seen_video_id)
        max_downloads
        (collect_new_video_ids fetched_ids known_ids last_seen_video_id max_downloads)
unfolding collect_new_video_ids
collect_new_video_ids-Collected fetched_ids known_ids last_seen_video_id max_downloads =
    candidates_of-Collected (stripped_ids fetched_ids) known_ids (strip last_seen_video_id)
      max_downloads
