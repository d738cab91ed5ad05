-- ===== src/Events/Laws.antt =====
-- core/event_bus.py: what `subscribe` and `unsubscribe` do to the listeners.
use hyper_loader.Prelude.{
  Bool-cases, List, Option, Option-cases, [], ap, arith, false, inl, inr, keep_if, key_error,
  length, length-keep_if-le, none, not, ok, raise, refl, some, suc, sym, true, ℕ, ◌==◌, ◌∙◌, ◌∷◌,
  ◌≡◌, ◌≤◌, ◌⊎◌, ==_iff, Result,
}
use hyper_loader.Events.{
  Listener, Bus, assign_key, or_empty, is_callback, popped, keep_others, unsubscribe,
}

-- the callbacks of the other listeners
abbrev pub others_than : ℕ → List Listener → List Listener
others_than cb = keep_if (λ l. not (is_callback cb l))

length-others_than-le : (cb : ℕ) (ls : List Listener) → length (others_than cb ls) ≤ length ls
length-others_than-le cb = length-keep_if-le (λ l. not (is_callback cb l))

-- a list that is not shorter has lost nothing
same_length :
    (cb : ℕ) (ls : List Listener) → length (others_than cb ls) ≡ length ls → others_than cb ls ≡ ls
same_length cb [] h = refl
same_length cb (l ∷ ls) h = elim (Bool-cases (is_callback cb l)) [
  | inl gone ↦
      let short = length-others_than-le cb ls in
      let e : length (others_than cb ls) ≡ suc (length ls) = rw gone at h in absurd (omega arith)
  | inr kept ↦
      let e : suc (length (others_than cb ls)) ≡ suc (length ls) = rw kept at h in
      rw kept (ap (λ xs. l ∷ xs) (same_length cb ls (omega arith)))
]

assign_key-same : (k : ℕ) (v : Option (List Listener)) (bus : Bus) → assign_key k v bus k ≡ v
assign_key-same k v bus = let e : (k == k) ≡ true = ground arith in rw e refl

-- what an unsubscription leaves
abbrev pub Unsubscribed : ℕ → ℕ → Bus → Bus → Type 0
Unsubscribed event_type cb bus after =
    (or_empty (after event_type) ≡ others_than cb (or_empty (bus event_type)))
    × ((j : ℕ) → (j == event_type) ≡ false → after j ≡ bus j)

popped-Unsubscribed :
    (event_type cb : ℕ) (bus after : Bus) (ls : List Listener)
    → after event_type ≡ some ls
    → Unsubscribed event_type cb bus after
    → (result : Bus) × (popped event_type after (some ls) ≡ ok result)
      × Unsubscribed event_type cb bus result
popped-Unsubscribed event_type cb bus after (l ∷ ls) found left = (after, refl, left)
popped-Unsubscribed event_type cb bus after [] found (rest, same) =
    let cleared = ap or_empty (assign_key-same event_type none after) in
    (
      assign_key event_type none after,
      refl,
      (cleared ∙ sym (ap or_empty found) ∙ rest, λ j other. rw other (same j other)),
    )

keep_others-same :
    (event_type cb : ℕ) (bus : Bus) (ls : List Listener)
    → bus event_type ≡ some ls
    → keep_others event_type cb bus ls event_type ≡ some (others_than cb ls)
unfolding keep_others
keep_others-same event_type cb bus ls found =
    elim (Bool-cases (length (others_than cb ls) == length ls)) [
      | inl whole ↦ rw whole (
          found
          ∙ ap (λ xs. some xs)
              (sym (same_length cb ls ((==_iff (length (others_than cb ls)) (length ls)).0 whole))))
      | inr shorter ↦ rw shorter (assign_key-same event_type (some (others_than cb ls)) bus)
    ]

keep_others-other :
    (event_type cb : ℕ) (bus : Bus) (ls : List Listener) (j : ℕ)
    → (j == event_type) ≡ false
    → keep_others event_type cb bus ls j ≡ bus j
unfolding keep_others
keep_others-other event_type cb bus ls j other =
    elim (Bool-cases (length (others_than cb ls) == length ls)) [
      | inl whole ↦ rw whole refl
      | inr shorter ↦ rw (shorter, other) refl
    ]

nothing_kept :
    (event_type cb : ℕ) (bus : Bus)
    → bus event_type ≡ none
    → popped event_type
        (keep_others event_type cb bus [])
        (keep_others event_type cb bus [] event_type)
      ≡ raise key_error
unfolding keep_others
nothing_kept event_type cb bus missing = ap (popped event_type bus) missing

-- Unsubscribing raises for a type that has no entry; else it removes the callback from the type's
-- listeners, keeps the order of the others, and changes no other type.
pub unsubscribe_lem :
    (event_type cb : ℕ) (bus : Bus)
    → ((bus event_type ≡ none) × (unsubscribe event_type cb bus ≡ raise key_error))
      ⊎ ((result : Bus) × (unsubscribe event_type cb bus ≡ ok result)
          × Unsubscribed event_type cb bus result)
unfolding unsubscribe
unsubscribe_lem event_type cb bus =
    let run : Option (List Listener) → Result Bus = λ o.
      popped event_type (keep_others event_type cb bus (or_empty o))
        (keep_others event_type cb bus (or_empty o) event_type) in
    elim (Option-cases (bus event_type)) [
      | inl missing ↦ inl (missing, ap run missing ∙ nothing_kept event_type cb bus missing)
      | inr (ls, found) ↦
          let after = keep_others event_type cb bus ls in
          let kept = keep_others-same event_type cb bus ls found in
          let (result, done, left) =
            popped-Unsubscribed event_type cb bus after (others_than cb ls) kept (
              ap or_empty kept ∙ ap (λ o. others_than cb (or_empty o)) (sym found),
              keep_others-other event_type cb bus ls,
            ) in
          inr (result, ap run found ∙ ap (popped event_type after) kept ∙ done, left)
    ]
