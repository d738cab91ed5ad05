-- ===== src/Subscriptions/Tests.antt =====
-- core/channel_subscriptions.py: the cases of the module's laws, and runs.
use hyper_loader.Prelude.{
  List, Option, Text, [], ap, codes, if◌then◌else◌, none, refl, some, text_eq, text_eq_refl, true,
  ℕ, ◌∷◌, ◌≡◌,
}
use hyper_loader.Subscriptions.{
  ChannelSubscription, StateRow, Database, finished, World, new_subscription, is_subscribed,
}
use hyper_loader.Subscriptions.Ids.{collect_new_video_ids}
use hyper_loader.Subscriptions.Laws.{Collected, candidates, collect_new_video_ids-Collected}
use hyper_loader.Subscriptions.Check.{check_subscription, watch_url}
use hyper_loader.Subscriptions.Again.{Remembers, OnlyFrom, calls_of, check_subscription_again}
use hyper_loader.Subscriptions.Edits.{OneEach, apply_edit, Edit, add, Applied, apply_edit-OneEach}

abbrev id : ℕ → Text
id n = n ∷ []

abbrev fetched : List Text
fetched = id 53 ∷ id 54 ∷ id 53 ∷ id 51 ∷ id 52 ∷ []

two_new : collect_new_video_ids fetched [] (id 51) 2 ≡ id 53 ∷ id 54 ∷ []
unfolding collect_new_video_ids
two_new = refl

collect_new_video_ids-Collected_example :
    Collected
      (candidates fetched (id 53 ∷ []) (codes "gone"))
      3
      (collect_new_video_ids fetched (id 53 ∷ []) (codes "gone") 3)
collect_new_video_ids-Collected_example =
    collect_new_video_ids-Collected fetched (id 53 ∷ []) (codes "gone") 3

abbrev Table : Type 0
Table = Text → Option StateRow

abbrev put : Text → StateRow → Table → Table
put url row table u = if text_eq u url then some row else table u

abbrev tables : Database Table
tables = record {
  select_state = λ url table. some (table url);
  upsert_state = λ url row table. some (put url row table);
  select_ids = λ url limit table. none;
  insert_ids = λ url ids table. some table;
  delete_older = λ url limit table. none;
}

tables-Remembers : Remembers tables
tables-Remembers url row table =
    let e : put url row table url ≡ some row = rw (text_eq_refl url) refl in
    (put url row table, refl, ap some e)

abbrev world : List Text → World
world lines = record {
  scheme = λ url. some (codes "https");
  fetch = λ url cap. finished true lines;
  digest = λ s. s;
  has_callback = true;
}

abbrev channel : ChannelSubscription
channel = new_subscription (codes "https://c") [] (codes "d") (codes "mp4") (codes "1080p") 24 1

-- what the program prints for one check, and for a later one
abbrev first_lines : List Text
first_lines = id 53 ∷ id 52 ∷ id 51 ∷ []

abbrev next_lines : List Text
next_lines = id 54 ∷ first_lines

first_check :
    (check_subscription tables (world first_lines) 5 channel (λ u. none)).calls
    ≡ (watch_url (id 53) ∷ []) ∷ []
unfolding check_subscription new_subscription
first_check = refl

check_subscription_again_example :
    (let first = check_subscription tables (world first_lines) 5 channel (λ u. none) in
      (ids : List Text) × Collected (id 54 ∷ []) 1 ids
      × OnlyFrom (id 54 ∷ []) ids
      × ((check_subscription tables (world next_lines) 9 first.sub first.db).calls
          ≡ calls_of true ids))
unfolding check_subscription new_subscription
check_subscription_again_example =
    let first = check_subscription tables (world first_lines) 5 channel (λ u. none) in
    check_subscription_again tables tables-Remembers (world first_lines) (world next_lines) 5 9
      channel first.sub (λ u. none) first_lines next_lines (id 53) (id 52 ∷ id 51 ∷ []) (id 54 ∷ [])
      (id 52 ∷ id 51 ∷ []) refl refl (refl, refl) (refl, refl) refl refl refl

abbrev subscribe : Edit
subscribe = add (codes " u ") [] (codes "d") (codes "mp4") (codes "1080p") 24 1

apply_edit-OneEach_example :
    OneEach (apply_edit subscribe (channel ∷ []))
    × Applied subscribe (apply_edit subscribe (channel ∷ []))
unfolding is_subscribed
apply_edit-OneEach_example = apply_edit-OneEach subscribe (channel ∷ []) (refl, tt)
