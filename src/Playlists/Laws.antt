-- ===== src/Playlists/Laws.antt =====
-- core/playlist_sync_service.py and core/playlist_sync_scheduler.py: which playlist is taken, and what a
-- poll leaves in flight.
use hyper_loader.Prelude.{
  List, All, Bool, Error, Option, Option-cases, Result, Text, [], ap, arith, false, inl, inr,
  is_empty, none, ok, one_of, raise, refl, some, strip, strip-strip, text_eq_refl, true, ◌++◌, ◌∷◌,
  ◌≡◌, ◌⊎◌, if◌then◌else◌, sym, ◌∙◌, Bool-cases, codes, lower, text_eq, text_eq_iff,
}
use hyper_loader.Playlists.{
  web_schemes, is_safe_scheme, is_safe_playlist_url, is_skipped, acquire_from,
  release_inflight_sync, acquire_due_playlist_for_sync, Polled, idle, started, failing,
  after_release, after_callback, after_acquire, poll_once,
}

module _ (scheme : Text → Option Text) where
  -- the first row that is not skipped is taken, or all are skipped
  abbrev pub Acquired : List Text → List Text → Text × List Text → Type 0
  Acquired rows inflight (url, taken) =
      ((url ≡ [])
        × (taken ≡ inflight)
        × All (λ row. is_skipped scheme inflight (strip row) ≡ true) rows)
      ⊎ ((before : List Text) × (row : Text) × (after : List Text) × (rows ≡ before ++ row ∷ after)
          × (url ≡ strip row)
          × (taken ≡ url ∷ inflight)
          × (is_skipped scheme inflight url ≡ false)
          × All (λ row. is_skipped scheme inflight (strip row) ≡ true) before)

  later-Acquired :
      (inflight : List Text) (row : Text) (rows : List Text) (r : Text × List Text)
      → is_skipped scheme inflight (strip row) ≡ true
      → Acquired rows inflight r
      → Acquired (row ∷ rows) inflight r
  later-Acquired inflight row rows r skipped (inl (nothing, same, all)) =
      inl (nothing, same, (skipped, all))
  later-Acquired inflight row rows r skipped (inr (before, x, after, e, is_x, taken, free, all)) =
      inr (row ∷ before, x, after, ap (◌∷◌ row) e, is_x, taken, free, (skipped, all))

  now-Acquired :
      (inflight : List Text) (row : Text) (rows : List Text) (r : Text × List Text) (b : Bool)
      → is_skipped scheme inflight (strip row) ≡ b
      → Acquired rows inflight r
      → Acquired (row ∷ rows) inflight (if b then r else (strip row, strip row ∷ inflight))
  now-Acquired inflight row rows r true skipped rest =
      later-Acquired inflight row rows r skipped rest
  now-Acquired inflight row rows r false free rest = inr ([], row, rows, refl, refl, refl, free, tt)

  pub acquire_from-Acquired :
      (inflight rows : List Text) → Acquired rows inflight (acquire_from scheme inflight rows)
  unfolding acquire_from
  acquire_from-Acquired inflight [] = inl (refl, refl, tt)
  acquire_from-Acquired inflight (row ∷ rows) =
      now-Acquired inflight row rows (acquire_from scheme inflight rows)
        (is_skipped scheme inflight (strip row)) refl (acquire_from-Acquired inflight rows)

  -- the tests that a playlist has passed
  pub free_parts :
      (inflight : List Text) (url : Text)
      → is_skipped scheme inflight url ≡ false
      → (is_empty url ≡ false)
        × (is_safe_playlist_url scheme url ≡ true)
        × (one_of url inflight ≡ false)
  unfolding is_skipped
  free_parts inflight url free = ground arith

  -- what a playlist must be to be taken: its address is not empty, has one of the four schemes, in
  -- whatever case, and is not in flight
  abbrev pub IsFree : List Text → Text → Type 0
  IsFree inflight url =
      (is_empty url ≡ false)
      × ((s : Text) × (scheme url ≡ some s)
          × ((lower s ≡ codes "http")
              ⊎ (lower s ≡ codes "https")
              ⊎ (lower s ≡ codes "ftp")
              ⊎ (lower s ≡ codes "ftps")))
      × (one_of url inflight ≡ false)

  one_of-web :
      (s : Text)
      → one_of s web_schemes ≡ true
      → (s ≡ codes "http") ⊎ (s ≡ codes "https") ⊎ (s ≡ codes "ftp") ⊎ (s ≡ codes "ftps")
  unfolding one_of
  one_of-web s h = elim (Bool-cases (text_eq s (codes "http"))) [
    | inl http ↦ inl ((text_eq_iff s (codes "http")).0 http)
    | inr other ↦ elim (Bool-cases (text_eq s (codes "https"))) [
      | inl https ↦ inr (inl ((text_eq_iff s (codes "https")).0 https))
      | inr other' ↦ elim (Bool-cases (text_eq s (codes "ftp"))) [
        | inl ftp ↦ inr (inr (inl ((text_eq_iff s (codes "ftp")).0 ftp)))
        | inr other'' ↦ inr (inr (inr ((text_eq_iff s (codes "ftps")).0 (ground arith))))
      ]
    ]
  ]

  web-one_of :
      (s : Text)
      → (s ≡ codes "http") ⊎ (s ≡ codes "https") ⊎ (s ≡ codes "ftp") ⊎ (s ≡ codes "ftps")
      → one_of s web_schemes ≡ true
  unfolding one_of text_eq
  web-one_of s (inl e) = rw e refl
  web-one_of s (inr (inl e)) = rw e refl
  web-one_of s (inr (inr (inl e))) = rw e refl
  web-one_of s (inr (inr (inr e))) = rw e refl

  safe_scheme :
      (o : Option Text)
      → is_safe_scheme o ≡ true
      → (s : Text) × (o ≡ some s) × (one_of (lower s) web_schemes ≡ true)
  safe_scheme none h = cc
  safe_scheme (some s) h = (s, refl, h)

  not_skipped-IsFree :
      (inflight : List Text) (url : Text)
      → strip url ≡ url
      → is_skipped scheme inflight url ≡ false
      → IsFree inflight url
  unfolding is_skipped is_safe_playlist_url
  not_skipped-IsFree inflight url stripped free =
      let (full, safe, fresh) = free_parts inflight url free in
      let web : is_safe_scheme (scheme url) ≡ true =
        ap (λ u. is_safe_scheme (scheme u)) (sym stripped) ∙ ground (arith, safe) in
      let (s, is_s, one) = safe_scheme (scheme url) web in
      (full, (s, is_s, one_of-web (lower s) one), fresh)

  IsFree-not_skipped :
      (inflight : List Text) (url : Text)
      → strip url ≡ url
      → is_skipped scheme inflight url ≡ true
      → ¬ IsFree inflight url
  unfolding is_skipped is_safe_playlist_url
  IsFree-not_skipped inflight url stripped skipped (full, (s, is_s, web), fresh) =
      let safe : is_safe_scheme (scheme (strip url)) ≡ true =
        rw (stripped, is_s) (web-one_of (lower s) web) in
      let named : is_empty (strip url) ≡ false = rw stripped full in
      absurd (ground (arith, skipped, full, safe, named, fresh))

  -- how a call takes a playlist of the rows
  abbrev pub TakesFirst : List Text → List Text → Text × List Text → Type 0
  TakesFirst rows inflight (url, taken) =
      ((url ≡ []) × (taken ≡ inflight) × All (λ row. ¬ IsFree inflight (strip row)) rows)
      ⊎ ((before : List Text) × (row : Text) × (after : List Text) × (rows ≡ before ++ row ∷ after)
          × (url ≡ strip row)
          × (taken ≡ url ∷ inflight)
          × IsFree inflight url
          × All (λ row. ¬ IsFree inflight (strip row)) before)

  none_to_take :
      (inflight rows : List Text)
      → All (λ row. is_skipped scheme inflight (strip row) ≡ true) rows
      → All (λ row. ¬ IsFree inflight (strip row)) rows
  none_to_take inflight [] h = tt
  none_to_take inflight (row ∷ rows) (skipped, rest) = (
    IsFree-not_skipped inflight (strip row) (strip-strip row) skipped,
    none_to_take inflight rows rest,
  )

  Acquired-TakesFirst :
      (inflight rows : List Text) (r : Text × List Text)
      → Acquired rows inflight r
      → TakesFirst rows inflight r
  Acquired-TakesFirst inflight rows (url, taken) (inl (nothing, same, all)) =
      inl (nothing, same, none_to_take inflight rows all)
  Acquired-TakesFirst inflight rows (url, taken)
        (inr (before, row, after, e, is_url, is_taken, free, all)) =
      let stripped = ap strip is_url ∙ strip-strip row ∙ sym is_url in
      inr (
        before,
        row,
        after,
        e,
        is_url,
        is_taken,
        not_skipped-IsFree inflight url stripped free,
        none_to_take inflight before all,
      )

  -- The first of the rows whose stripped address is not empty, has the scheme http, https, ftp or
  -- ftps and is not in flight is taken and is in flight from then on; where there is no such row,
  -- nothing is taken.
  pub acquire_from-TakesFirst :
      (inflight rows : List Text) → TakesFirst rows inflight (acquire_from scheme inflight rows)
  acquire_from-TakesFirst inflight rows =
      Acquired-TakesFirst inflight rows (acquire_from scheme inflight rows)
        (acquire_from-Acquired inflight rows)

  -- what a poll comes to
  abbrev pub PollOutcome : (Text → Option Error) → List Text → List Text × Polled → Type 0
  PollOutcome callback inflight r =
      (r ≡ (inflight, idle))
      ⊎ ((url : Text) × (is_skipped scheme [] url ≡ false)
          × (inflight ≡ [])
          × (((callback url ≡ none) × (r ≡ (url ∷ [], started url)))
              ⊎ ((e : Error) × (callback url ≡ some e) × (r ≡ ([], failing e)))))

  release_fresh :
      (url : Text)
      → strip url ≡ url
      → is_skipped scheme [] url ≡ false
      → release_inflight_sync scheme url (url ∷ []) ≡ ok []
  unfolding release_inflight_sync
  release_fresh url stripped free =
      let (full, safe, fresh) = free_parts [] url free in
      rw (stripped, full, safe, text_eq_refl url) refl

  after_callback-PollOutcome :
      (callback : Text → Option Error) (url : Text)
      → strip url ≡ url
      → is_skipped scheme [] url ≡ false
      → PollOutcome callback [] (after_callback scheme url (callback url) (url ∷ []))
  after_callback-PollOutcome callback url stripped free = elim (Option-cases (callback url)) [
    | inl returned ↦
        inr (
          url,
          free,
          refl,
          inl (returned, ap (λ c. after_callback scheme url c (url ∷ [])) returned),
        )
    | inr (e, raised) ↦ inr (
      url,
      free,
      refl,
      inr (
        e,
        raised,
        ap (λ c. after_callback scheme url c (url ∷ [])) raised
            ∙ ap (after_release e (url ∷ [])) (release_fresh url stripped free),
      ),
    )
  ]

  after_acquire-PollOutcome :
      (callback : Text → Option Error) (rows : List Text) (r : Text × List Text)
      → Acquired rows [] r
      → PollOutcome callback [] (after_acquire scheme callback [] (ok r))
  after_acquire-PollOutcome callback rows (url, taken) (inl (nothing, same, all)) =
      rw (nothing, same) (inl refl)
  after_acquire-PollOutcome callback rows (url, taken)
        (inr (before, row, after, e, is_url, is_taken, free, all)) =
      let (full, safe, fresh) = free_parts [] url free in
      let stripped = ap strip is_url ∙ strip-strip row ∙ sym is_url in
      rw (full, is_taken) (after_callback-PollOutcome callback url stripped free)

  -- A poll changes nothing, or it starts a playlist that was not refused while none was in flight,
  -- and that one is in flight afterwards exactly if its callback returns.
  pub poll_once-PollOutcome :
      (is_active : Result Bool) (due : Result (List Text)) (callback : Text → Option Error)
      (inflight : List Text)
      → PollOutcome callback inflight (poll_once scheme is_active due callback inflight)
  unfolding poll_once acquire_due_playlist_for_sync
  poll_once-PollOutcome (raise e) due callback inflight = inl refl
  poll_once-PollOutcome (ok true) due callback inflight = inl refl
  poll_once-PollOutcome (ok false) due callback (v ∷ vs) = inl refl
  poll_once-PollOutcome (ok false) (raise e) callback [] = inl refl
  poll_once-PollOutcome (ok false) (ok rows) callback [] =
      after_acquire-PollOutcome callback rows (acquire_from scheme [] rows)
        (acquire_from-Acquired [] rows)
