-- ===== src/Subscriptions/Check.antt =====
-- core/channel_subscriptions.py: the check of a subscription.
use hyper_loader.Prelude.{
  Bool, List, Option, Text, [], codes, false, if◌then◌else◌, is_empty, length, lower, map, max, min,
  none, one_of, some, suc, take, true, zero, ℕ, ◌*◌, ◌++◌, ◌∷◌,
}
use hyper_loader.Subscriptions.{
  ChannelSubscription, Database, Answer, not_run, finished, World, Checked, load_last_seen,
  save_state_to_db, load_known_ids_from_db, save_seen_ids_to_db, prune_seen_ids_in_db,
}
use hyper_loader.Subscriptions.Ids.{stripped_ids, collect_new_video_ids}

abbrev join_lines : List Text → Text
join_lines [] = []
join_lines (v ∷ []) = v
join_lines (v ∷ w ∷ vs) = v ++ b'\n' ∷ join_lines (w ∷ vs)

-- `_snapshot_hash` with its window of 500
unfoldable pub snapshot_hash : (Text → Text) → List Text → Text
unfolding stripped_ids
snapshot_hash digest ids =
    let normalized = stripped_ids ids in
    if is_empty normalized then [] else digest (join_lines (take 500 normalized))

abbrev safe_schemes : List Text
safe_schemes = codes "http" ∷ codes "https" ∷ codes "ftp" ∷ codes "ftps" ∷ []

abbrev pub is_checked : Option Text → Bool
is_checked none = false
is_checked (some scheme) = one_of (lower scheme) safe_schemes

-- `int(max_downloads or 5) * 50`
abbrev pub fifty_fold : ℕ → ℕ
fifty_fold zero = 250
fifty_fold (suc n) = suc n * 50

abbrev pub fetch_cap : ChannelSubscription → ℕ
fetch_cap sub = max 100 (min 10000 (fifty_fold sub.max_downloads))

abbrev pub first_id : List Text → Text
first_id [] = []
first_id (v ∷ vs) = v

abbrev pub watch_url : Text → Text
watch_url vid = codes "https://www.youtube.com/watch?v=" ++ vid

module _ {Db : Type 0} (store : Database Db) where
  unfoldable pub save_ids : ChannelSubscription → List Text → Db → Db
  unfolding save_seen_ids_to_db prune_seen_ids_in_db
  save_ids sub ids db =
      prune_seen_ids_in_db store sub.url 50000 (save_seen_ids_to_db store sub.url ids db)

  -- `new_ids`
  unfoldable pub new_ids : ChannelSubscription → List Text → Db → List Text
  unfolding collect_new_video_ids load_last_seen load_known_ids_from_db
  new_ids sub ids db =
      collect_new_video_ids ids (sub.known_ids ++ load_known_ids_from_db store sub.url 10000 db)
        (load_last_seen store sub.url db) sub.max_downloads

module _ {Db : Type 0} (store : Database Db) (world : World) where
  -- the writes that both branches end with
  unfoldable pub save_snapshot : ChannelSubscription → List Text → Db → Db
  unfolding snapshot_hash save_state_to_db
  save_snapshot sub ids db =
      save_state_to_db store sub.url (first_id ids) (snapshot_hash world.digest ids) (length ids) db

  -- the branch on the new ids
  unfoldable pub settle : ChannelSubscription → List Text → List Text → Db → Checked Db
  unfolding save_snapshot save_ids
  settle sub ids [] db =
      let window = max 200 (min 5000 (fifty_fold sub.max_downloads)) in
      record {
        sub = record sub { known_ids = sub.known_ids ++ take window ids };
        db = save_snapshot sub ids (if is_empty ids then db else save_ids store sub ids db);
        calls = [];
        saves = 1;
      }
  settle sub ids (v ∷ vs) db = record {
    sub = record sub { known_ids = sub.known_ids ++ v ∷ vs };
    db = save_snapshot sub ids (save_ids store sub ids db);
    calls = if world.has_callback then map watch_url (v ∷ vs) ∷ [] else [];
    saves = 1;
  }

  unfoldable pub after_fetch : ℕ → Answer → ChannelSubscription → Db → Checked Db
  unfolding settle new_ids stripped_ids
  after_fetch now not_run sub db = record { sub = sub; db = db; calls = []; saves = 0 }
  after_fetch now (finished false lines) sub db = record {
    sub = record sub { last_check = now };
    db = db;
    calls = [];
    saves = 1;
  }
  after_fetch now (finished true lines) sub db =
      let ids = stripped_ids lines in
      settle (record sub { last_check = now }) ids (new_ids store sub ids db) db

  -- `_check_subscription`
  unfoldable pub check_subscription : ℕ → ChannelSubscription → Db → Checked Db
  unfolding after_fetch lower one_of
  check_subscription now sub db =
      if is_checked (world.scheme sub.url)
      then after_fetch now (world.fetch sub.url (fetch_cap sub)) sub db
      else record { sub = sub; db = db; calls = []; saves = 0 }
