-- ===== src/Playlists/Held.antt =====
-- core/playlist_sync_service.py: sequences of calls, and the playlists that they hand out.
use hyper_loader.Prelude.{
  List, All, Bool, Bool-cases, Option, Result, Text, [], ap, false, inl, inr, is_empty,
  keep_if-one_of, not, ok, one_of, one_of-tail, or_else, raise, refl, strip, sym, text_eq,
  text_eq_iff, true, ◌++◌, ◌∙◌, ◌∷◌, ◌≡◌, arith,
}
use hyper_loader.Playlists.{
  acquire_from, is_safe_playlist_url, release_inflight_sync, acquire_due_playlist_for_sync, Polled,
  started, poll_once, Call, acquire, release, poll,
}
use hyper_loader.Playlists.Laws.{Acquired, acquire_from-Acquired, free_parts}

-- the playlist that a call has handed out
abbrev handed_by : Text → List Text
handed_by [] = []
handed_by (c ∷ s) = (c ∷ s) ∷ []

abbrev started_by : Polled → List Text
started_by (started url) = url ∷ []
started_by other = []

abbrev pub acquired : List Text → Result (Text × List Text) → List Text × List Text
acquired inflight (ok (url, taken)) = (taken, handed_by url)
acquired inflight (raise e) = (inflight, [])

-- a call, with the playlists in flight after it and those that it handed out
unfoldable pub apply_call : (Text → Option Text) → Call → List Text → List Text × List Text
unfolding acquire_due_playlist_for_sync release_inflight_sync poll_once
apply_call scheme (acquire due) inflight =
    acquired inflight (acquire_due_playlist_for_sync scheme due inflight)
apply_call scheme (release url) inflight =
    (or_else (release_inflight_sync scheme url inflight) inflight, [])
apply_call scheme (poll is_active due callback) inflight =
    let r = poll_once scheme is_active due callback inflight in (r.0, started_by r.1)

unfoldable pub run_calls : (Text → Option Text) → List Call → List Text → List Text × List Text
unfolding apply_call
run_calls scheme [] inflight = (inflight, [])
run_calls scheme (call ∷ calls) inflight =
    let (after, handed) = apply_call scheme call inflight in
    let (final, later) = run_calls scheme calls after in (final, handed ++ later)

-- the call releases the playlist
abbrev pub releases : Text → Call → Bool
releases url (release asked) = text_eq url (strip asked)
releases url call = false

-- in flight still, and not handed out
abbrev pub Held : Text → List Text × List Text → Type 0
Held url r = (one_of url r.0 ≡ true) × (one_of url r.1 ≡ false)

one_of-handed_by : (url v : Text) → text_eq url v ≡ false → one_of url (handed_by v) ≡ false
unfolding one_of
one_of-handed_by url [] apart = refl
one_of-handed_by url (c ∷ s) apart = rw apart refl

apart_of :
    (url v : Text) (inflight : List Text)
    → one_of url inflight ≡ true
    → one_of v inflight ≡ false
    → text_eq url v ≡ false
apart_of url v inflight there fresh = elim (Bool-cases (text_eq url v)) [
  | inl same ↦
      let e = sym (ap (λ x. one_of x inflight) ((text_eq_iff url v).0 same) ∙ fresh) ∙ there in cc
  | inr other ↦ other
]

one_of-nowhere :
    (v : Text) (xs ys : List Text)
    → one_of v xs ≡ false
    → one_of v ys ≡ false
    → one_of v (xs ++ ys) ≡ false
unfolding one_of
one_of-nowhere v [] ys h k = k
one_of-nowhere v (x ∷ xs) ys h k = ground (arith, one_of-nowhere v xs ys)

module _ (scheme : Text → Option Text) where
  acquired-Held :
      (url : Text) (inflight rows : List Text) (r : Text × List Text)
      → one_of url inflight ≡ true
      → Acquired scheme rows inflight r
      → Held url (acquired inflight (ok r))
  unfolding one_of
  acquired-Held url inflight rows (v, taken) there (inl (nothing, same, all)) =
      rw (nothing, same) (there, refl)
  acquired-Held url inflight rows (v, taken) there
        (inr (before, row, after, e, is_v, is_taken, free, all)) =
      let (full, safe, fresh) = free_parts scheme inflight v free in
      (
        ap (one_of url) is_taken ∙ one_of-tail url v inflight there,
        one_of-handed_by url v (apart_of url v inflight there fresh),
      )

  release-Held :
      (url asked : Text) (inflight : List Text)
      → one_of url inflight ≡ true
      → text_eq url (strip asked) ≡ false
      → Held url (or_else (release_inflight_sync scheme asked inflight) inflight, [])
  unfolding release_inflight_sync one_of
  release-Held url asked inflight there apart = elim (Bool-cases (is_empty (strip asked))) [
    | inl empty ↦ rw empty (there, refl)
    | inr full ↦ elim (Bool-cases (is_safe_playlist_url scheme (strip asked))) [
      | inl safe ↦
          rw (full, safe)
            (
              keep_if-one_of (λ v. not (text_eq v (strip asked))) url inflight there (ap not apart),
              refl,
            )
      | inr unsafe ↦ rw (full, unsafe) (there, refl)
    ]
  ]

  apply_call-Held :
      (url : Text) (call : Call) (inflight : List Text)
      → one_of url inflight ≡ true
      → releases url call ≡ false
      → Held url (apply_call scheme call inflight)
  unfolding apply_call acquire_due_playlist_for_sync poll_once one_of
  apply_call-Held url (acquire (raise e)) inflight there kept = (there, refl)
  apply_call-Held url (acquire (ok rows)) inflight there kept =
      acquired-Held url inflight rows (acquire_from scheme inflight rows) there
        (acquire_from-Acquired scheme inflight rows)
  apply_call-Held url (release asked) inflight there kept =
      release-Held url asked inflight there kept
  apply_call-Held url (poll (raise e) due callback) inflight there kept = (there, refl)
  apply_call-Held url (poll (ok true) due callback) inflight there kept = (there, refl)
  apply_call-Held url (poll (ok false) due callback) (v ∷ vs) there kept = (there, refl)
  apply_call-Held url (poll (ok false) due callback) [] there kept = cc

  -- A playlist in flight stays so and is handed out to no one, by whatever calls, while none of
  -- them releases it.
  pub run_calls-Held :
      (url : Text) (calls : List Call) (inflight : List Text)
      → one_of url inflight ≡ true
      → All (λ call. releases url call ≡ false) calls
      → Held url (run_calls scheme calls inflight)
  unfolding run_calls one_of
  run_calls-Held url [] inflight there kept = (there, refl)
  run_calls-Held url (call ∷ calls) inflight there (kept, rest) =
      let (still, fresh) = apply_call-Held url call inflight there kept in
      let (after, handed) = apply_call scheme call inflight in
      let (final, later) = run_calls-Held url calls after still rest in
      (final, one_of-nowhere url handed (run_calls scheme calls after).1 fresh later)
