-- ===== src/Subscriptions/Again.antt =====
-- core/channel_subscriptions.py: two checks of one subscription, one after the other.
use mathlib.Core.Path.{subst}
use hyper_loader.Prelude.{
  List, Text, false, is_empty, some, strip, strip-strip, ℕ, ◌∷◌, ◌≡◌, Bool, Bool-cases, [], ap,
  arith, if◌then◌else◌, inl, inr, keep_if, length, map, not, one_of, one_of-head, one_of-tail, refl,
  sym, text_eq, text_eq_comm, text_eq_refl, true, ◌++◌, ◌∙◌,
}
use hyper_loader.Subscriptions.{
  ChannelSubscription, StateRow, Database, finished, World, Checked, load_last_seen,
  save_state_to_db, load_known_ids_from_db,
}
use hyper_loader.Subscriptions.Ids.{stripped_ids, take_before, candidates_of}
use hyper_loader.Subscriptions.Laws.{Collected, candidates, collect_new_video_ids-Collected}
use hyper_loader.Subscriptions.Check.{
  is_checked, fetch_cap, watch_url, first_id, snapshot_hash, save_snapshot, save_ids, settle,
  new_ids, after_fetch, check_subscription,
}

-- the upsert of a state does not fail, and the row is what the table then has
abbrev pub Remembers : {Db : Type 0} → Database Db → Type 0
Remembers {Db} store =
    (url : Text) (row : StateRow) (db : Db)
    → (after : Db) × (store.upsert_state url row db ≡ some after)
      × (store.select_state url after ≡ some (some row))

abbrev is_full : Text → Bool
is_full v = not (is_empty v)

module _ (f : Text → Text) (idem : (s : Text) → f (f s) ≡ f s) where
  keep-map_idem :
      (vs : List Text)
      → keep_if is_full (map f (keep_if is_full (map f vs))) ≡ keep_if is_full (map f vs)
  keep-map_idem [] = refl
  keep-map_idem (v ∷ vs) = elim (Bool-cases (is_empty (f v))) [
    | inl empty ↦ rw empty (keep-map_idem vs)
    | inr full ↦ rw (full, idem v, full) (ap (◌∷◌ (f v)) (keep-map_idem vs))
  ]

  keep-map_head :
      (vs : List Text) (w : Text) (ws : List Text)
      → keep_if is_full (map f vs) ≡ w ∷ ws
      → (f w ≡ w) × (is_empty w ≡ false)
  keep-map_head [] w ws h = cc
  keep-map_head (v ∷ vs) w ws h = elim (Bool-cases (is_empty (f v))) [
    | inl empty ↦ let e = rw empty at h in keep-map_head vs w ws e
    | inr full ↦
        let kept = rw full at h in
        let e : f v ≡ w = cc in (ap f (sym e) ∙ idem v ∙ e, ap is_empty (sym e) ∙ full)
  ]

stripped_ids-stripped_ids :
    (lines : List Text) → stripped_ids (stripped_ids lines) ≡ stripped_ids lines
unfolding stripped_ids
stripped_ids-stripped_ids lines = keep-map_idem strip strip-strip lines

stripped_ids-head :
    (lines : List Text) (v : Text) (vs : List Text)
    → stripped_ids lines ≡ v ∷ vs
    → (strip v ≡ v) × (is_empty v ≡ false)
unfolding stripped_ids
stripped_ids-head lines v vs h = keep-map_head strip strip-strip lines v vs h

take_before-append :
    (v : Text) (extra older : List Text)
    → one_of v extra ≡ false
    → take_before v (extra ++ v ∷ older) ≡ extra
unfolding take_before one_of
take_before-append v [] older fresh = rw (text_eq_refl v) refl
take_before-append v (w ∷ ws) older fresh =
    let apart : text_eq v w ≡ false = ground arith in
    let other : text_eq w v ≡ false = text_eq_comm w v ∙ apart in
    rw other (ap (◌∷◌ w) (take_before-append v ws older (ground arith)))

one_of-append : (v : Text) (extra older : List Text) → one_of v (extra ++ v ∷ older) ≡ true
one_of-append v [] older = one_of-head v older
one_of-append v (w ∷ ws) older = one_of-tail v w (ws ++ v ∷ older) (one_of-append v ws older)

candidates_of-append :
    (v : Text) (extra older known_ids : List Text)
    → is_empty v ≡ false
    → one_of v extra ≡ false
    → candidates_of (extra ++ v ∷ older) known_ids v ≡ extra
unfolding candidates_of
candidates_of-append v extra older known_ids full fresh =
    rw (full, one_of-append v extra older) (take_before-append v extra older fresh)

-- the call that hands out ids
abbrev pub calls_of : Bool → List Text → List (List Text)
calls_of has_callback [] = []
calls_of has_callback (v ∷ vs) = if has_callback then map watch_url (v ∷ vs) ∷ [] else []

-- a check whose program has run well
abbrev pub Fetched : World → ChannelSubscription → List Text → Type 0
Fetched world sub lines =
    (is_checked (world.scheme sub.url) ≡ true)
    × (world.fetch sub.url (fetch_cap sub) ≡ finished true lines)

module _ {Db : Type 0} (store : Database Db) where
  settle-calls :
      (world : World) (sub : ChannelSubscription) (ids new : List Text) (db : Db)
      → (settle store world sub ids new db).calls ≡ calls_of world.has_callback new
  unfolding settle
  settle-calls world sub ids [] db = refl
  settle-calls world sub ids (v ∷ vs) db = refl

  check_subscription-settle :
      (world : World) (now : ℕ) (sub : ChannelSubscription) (db : Db) (lines : List Text)
      → Fetched world sub lines
      → check_subscription store world now sub db
        ≡ settle store world
            (record sub { last_check = now })
            (stripped_ids lines)
            (new_ids store sub (stripped_ids lines) db)
            db
  unfolding check_subscription after_fetch
  check_subscription-settle world now sub db lines (allowed, fetched) = rw (allowed, fetched) refl

-- what is not among the one ids is not among the others
abbrev pub OnlyFrom : List Text → List Text → Type 0
OnlyFrom extra ids = (w : Text) → one_of w extra ≡ false → one_of w ids ≡ false

Collected-OnlyFrom : (extra ids : List Text) (n : ℕ) → Collected extra n ids → OnlyFrom extra ids
Collected-OnlyFrom extra ids n (distinct, among, few, all) w out =
    elim (Bool-cases (one_of w ids)) [
      | inl there ↦ let e = sym out ∙ among w there in cc
      | inr gone ↦ gone
    ]

module _ {Db : Type 0} (store : Database Db) (laws : Remembers store) where
  load-save :
      (url v hash : Text) (n : ℕ) (db : Db)
      → is_empty (strip url) ≡ false
      → load_last_seen store url (save_state_to_db store url v hash n db) ≡ strip v
  unfolding load_last_seen save_state_to_db
  load-save url v hash n db named =
      let row : StateRow = record {
        last_seen_video_id = strip v;
        snapshot_hash = strip hash;
        fetched_count = n;
      } in
      let (after, written, read) = laws (strip url) row db in
      rw (named, written, read) (strip-strip v)

  -- after a check the first id that it fetched is the last one seen
  load-settle :
      (world : World) (sub : ChannelSubscription) (ids new : List Text) (db : Db)
      → is_empty (strip sub.url) ≡ false
      → load_last_seen store sub.url (settle store world sub ids new db).db ≡ strip (first_id ids)
  unfolding settle save_snapshot
  load-settle world sub ids [] db named =
      load-save sub.url (first_id ids) (snapshot_hash world.digest ids) (length ids)
        (if is_empty ids then db else save_ids store sub ids db) named
  load-settle world sub ids (v ∷ vs) db named =
      load-save sub.url (first_id ids) (snapshot_hash world.digest ids) (length ids)
        (save_ids store sub ids db) named

  -- Where every upsert of the state works and can be read back, the next check of the same address
  -- whose list has the first id of this check after some other ids hands out distinct ids among
  -- those, at most its maximum: an id that is not listed before that first id, such as one that this
  -- check left out because of its maximum, is not handed out by the next one.
  pub check_subscription_again :
      (world later : World) (now then_on : ℕ) (sub again : ChannelSubscription) (db : Db)
      (lines newer : List Text) (v : Text) (rest extra older : List Text)
      → is_empty (strip sub.url) ≡ false
      → again.url ≡ sub.url
      → Fetched world sub lines
      → Fetched later again newer
      → stripped_ids lines ≡ v ∷ rest
      → stripped_ids newer ≡ extra ++ v ∷ older
      → one_of v extra ≡ false
      → (let first = check_subscription store world now sub db in
          (ids : List Text) × Collected extra again.max_downloads ids
          × OnlyFrom extra ids
          × ((check_subscription store later then_on again first.db).calls
              ≡ calls_of later.has_callback ids))
  unfolding new_ids
  check_subscription_again world later now then_on sub again db lines newer v rest extra older named
        same ran ran_again first_ids then_ids fresh =
      let db1 = (check_subscription store world now sub db).db in
      let (strip_v, full) = stripped_ids-head lines v rest first_ids in
      let ids = stripped_ids lines in
      let checked = record sub { last_check = now } in
      let seen : load_last_seen store again.url db1 ≡ v =
        ap (λ u. load_last_seen store u db1) same
        ∙ ap (λ (r : Checked Db). load_last_seen store sub.url r.db)
            (check_subscription-settle store world now sub db lines ran)
        ∙ load-settle world checked ids (new_ids store sub ids db) db named
        ∙ ap (λ is. strip (first_id is)) first_ids
        ∙ strip_v in
      let known = again.known_ids ++ load_known_ids_from_db store again.url 10000 db1 in
      let last = load_last_seen store again.url db1 in
      let chosen : candidates (stripped_ids newer) known last ≡ extra =
        ap (λ o. candidates_of o known (strip last)) (stripped_ids-stripped_ids newer ∙ then_ids)
        ∙ ap (candidates_of (extra ++ v ∷ older) known) (ap strip seen ∙ strip_v)
        ∙ candidates_of-append v extra older known full fresh in
      let again_ids = new_ids store again (stripped_ids newer) db1 in
      let collected : Collected extra again.max_downloads again_ids =
        subst (λ c. Collected c again.max_downloads again_ids) chosen
          (collect_new_video_ids-Collected (stripped_ids newer) known last again.max_downloads) in
      (
        again_ids,
        collected,
        Collected-OnlyFrom extra again_ids again.max_downloads collected,
        ap (λ (r : Checked Db). r.calls)
              (check_subscription-settle store later then_on again db1 newer ran_again)
            ∙ settle-calls store later (record again { last_check = then_on }) (stripped_ids newer)
                again_ids db1,
      )
