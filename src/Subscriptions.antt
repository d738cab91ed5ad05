-- ===== src/Subscriptions.antt =====
-- core/channel_subscriptions.py: the subscriptions, and a check of one for new videos. The database is
-- a parameter, as are the parts of an address, the run of the fetching program, and the digest. Times
-- are seconds, and the numbers of a subscription are not negative.
pub mod Ids
pub mod Check
pub mod Laws
pub mod Again
pub mod Edits
mod Tests
use hyper_loader.Prelude.{
  List, Bool, Option, Text, [], codes, drop, false, if◌then◌else◌, is_empty, keep_if, leb, length,
  max, min, none, not, or_text, some, strip, take, text_eq, true, ℕ, ◌&&◌, ◌*◌, ◌++◌, ◌+◌, ◌-◌,
  ◌||◌, ◌∷◌,
}
use hyper_loader.Subscriptions.Ids.{stripped_ids, collect_new_video_ids}

pub record ChannelSubscription : Type 0 where
  pub url : Text
  pub name : Text
  pub out_dir : Text
  pub format : Text
  pub quality : Text
  pub check_interval_h : ℕ
  pub last_check : ℕ
  pub known_ids : List Text
  pub enabled : Bool
  pub max_downloads : ℕ

-- the dictionary of a subscription
pub record SubscriptionData : Type 0 where
  pub url : Option Text
  pub name : Option Text
  pub out_dir : Option Text
  pub format : Option Text
  pub quality : Option Text
  pub check_interval_h : Option ℕ
  pub last_check : Option ℕ
  pub known_ids : Option (List Text)
  pub enabled : Option Bool
  pub max_downloads : Option ℕ

abbrev pub or_default {ℓ} : {A : Type ℓ} → Option A → A → A
or_default none d = d
or_default (some a) d = a

-- `__init__`
unfoldable pub from_data : SubscriptionData → ChannelSubscription
from_data given =
    let url = or_default given.url [] in
    record {
      url = url;
      name = or_default given.name (take 50 url);
      out_dir = or_default given.out_dir (codes "downloads");
      format = or_default given.format (codes "mp4");
      quality = or_default given.quality (codes "1080p");
      check_interval_h = or_default given.check_interval_h 24;
      last_check = or_default given.last_check 0;
      known_ids = or_default given.known_ids [];
      enabled = or_default given.enabled true;
      max_downloads = or_default given.max_downloads 5;
    }

-- the last elements of a list
abbrev pub last_of {ℓ} : {A : Type ℓ} → ℕ → List A → List A
last_of n xs = drop (length xs - n) xs

unfoldable pub to_dict : ChannelSubscription → SubscriptionData
to_dict sub = record {
  url = some sub.url;
  name = some sub.name;
  out_dir = some sub.out_dir;
  format = some sub.format;
  quality = some sub.quality;
  check_interval_h = some sub.check_interval_h;
  last_check = some sub.last_check;
  known_ids = some (last_of 5000 sub.known_ids);
  enabled = some sub.enabled;
  max_downloads = some sub.max_downloads;
}

unfoldable pub is_due_sub : ℕ → ChannelSubscription → Bool
is_due_sub now sub = sub.enabled && leb (sub.last_check + sub.check_interval_h * 3600) now

abbrev pub has_url : Text → ChannelSubscription → Bool
has_url url sub = text_eq sub.url url

unfoldable pub is_subscribed : Text → List ChannelSubscription → Bool
unfolding text_eq
is_subscribed url [] = false
is_subscribed url (sub ∷ subs) = has_url url sub || is_subscribed url subs

-- the subscription that `add` makes
unfoldable pub new_subscription : Text → Text → Text → Text → Text → ℕ → ℕ → ChannelSubscription
unfolding from_data strip
new_subscription url name out_dir fmt quality check_interval_h max_downloads = from_data (record {
  url = some (strip url);
  name = some (or_text name (take 50 url));
  out_dir = some out_dir;
  format = some fmt;
  quality = some quality;
  check_interval_h = some check_interval_h;
  last_check = none;
  known_ids = none;
  enabled = none;
  max_downloads = some max_downloads;
})

-- `SubscriptionManager.add`
unfoldable pub add_subscription :
    Text → Text → Text → Text → Text → ℕ → ℕ → List ChannelSubscription → List ChannelSubscription
unfolding is_subscribed new_subscription
add_subscription url name out_dir fmt quality check_interval_h max_downloads subs =
    let sub = new_subscription url name out_dir fmt quality check_interval_h max_downloads in
    if is_subscribed sub.url subs then subs else subs ++ sub ∷ []

unfoldable pub remove_subscription : Text → List ChannelSubscription → List ChannelSubscription
unfolding text_eq
remove_subscription url subs = keep_if (λ sub. not (has_url url sub)) subs

unfoldable pub get_due : ℕ → List ChannelSubscription → List ChannelSubscription
unfolding is_due_sub
get_due now subs = keep_if (is_due_sub now) subs

-- a row of `subscription_state`
pub record StateRow : Type 0 where
  pub last_seen_video_id : Text
  pub snapshot_hash : Text
  pub fetched_count : ℕ

-- the statements that are executed; `none` is an exception
pub record Database (Db : Type 0) : Type 0 where
  pub select_state : Text → Db → Option (Option StateRow)
  pub upsert_state : Text → StateRow → Db → Option Db
  pub select_ids : Text → ℕ → Db → Option (List Text)
  pub insert_ids : Text → List Text → Db → Option Db
  pub delete_older : Text → ℕ → Db → Option Db

-- what the fetching program does
pub data Answer : Type 0 where
  not_run : Answer
  finished : Bool → List Text → Answer

pub record World : Type 0 where
  pub scheme : Text → Option Text
  pub fetch : Text → ℕ → Answer
  pub digest : Text → Text
  pub has_callback : Bool

pub record Checked (Db : Type 0) : Type 0 where
  pub sub : ChannelSubscription
  pub db : Db
  pub calls : List (List Text)
  pub saves : ℕ

module _ {Db : Type 0} (store : Database Db) where
  abbrev pub last_seen_in : Option (Option StateRow) → Text
  last_seen_in (some (some row)) = strip row.last_seen_video_id
  last_seen_in r = []

  -- `_load_state_from_db`, of which a check reads the last id
  unfoldable pub load_last_seen : Text → Db → Text
  unfolding strip
  load_last_seen subscription_url db =
      let url = strip subscription_url in
      if is_empty url then [] else last_seen_in (store.select_state url db)

  unfoldable pub save_state_to_db : Text → Text → Text → ℕ → Db → Db
  unfolding strip
  save_state_to_db subscription_url last_seen_video_id snapshot_hash fetched_count db =
      let url = strip subscription_url in
      let row : StateRow = record {
        last_seen_video_id = strip last_seen_video_id;
        snapshot_hash = strip snapshot_hash;
        fetched_count = fetched_count;
      } in
      if is_empty url then db else or_default (store.upsert_state url row db) db

  unfoldable pub load_known_ids_from_db : Text → ℕ → Db → List Text
  unfolding strip stripped_ids
  load_known_ids_from_db subscription_url limit db =
      let url = strip subscription_url in
      if is_empty url
      then []
      else stripped_ids (or_default (store.select_ids url (max 1 (min 50000 limit)) db) [])

  unfoldable pub save_seen_ids_to_db : Text → List Text → Db → Db
  unfolding strip stripped_ids
  save_seen_ids_to_db subscription_url ids db =
      let url = strip subscription_url in
      let normalized = stripped_ids ids in
      if is_empty url || is_empty normalized
      then db
      else or_default (store.insert_ids url (take 5000 normalized) db) db

  unfoldable pub prune_seen_ids_in_db : Text → ℕ → Db → Db
  unfolding strip
  prune_seen_ids_in_db subscription_url keep_limit db =
      let url = strip subscription_url in
      if is_empty url
      then db
      else or_default (store.delete_older url (max 1000 (min 200000 keep_limit)) db) db
