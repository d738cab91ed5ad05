-- ===== src/Queue/ViewCache.antt =====
-- core/queue_manager.py: the cache in front of `get_download_entries_page`. The database's query
-- (`fetch_queue_entries_page_from_db`) is the parameter `fetch`; `monotonic` is the clock's reading
-- during the call, `threshold` is `DB_PAGE_THRESHOLD` and `ttl` the time for which a page is kept.
use hyper_loader.Prelude.{
  Bool, List, Option, Result, [], codes, if◌then◌else◌, leb, length, lower, ltb, none, ok, one_of,
  raise, some, strip, text_eq, ℕ, ◌&&◌, ◌+◌, ◌==◌, ◌∷◌,
}
use hyper_loader.Queue.{Queue, Page, PageKey, CachedPage}
use hyper_loader.Queue.View.{PageRequest, memory_page, filter_key, page_number, size_number}

-- `_build_db_page_cache_key`
unfoldable pub build_db_page_cache_key : PageRequest → PageKey
unfolding filter_key page_number size_number lower strip one_of
build_db_page_cache_key r =
    let view = lower (strip r.view) in
    let now = if r.now_ts == 0 then r.clock else r.now_ts in
    record {
      view = view;
      state_filter = filter_key r.state_filter;
      media_filter = filter_key r.media_filter;
      query = lower (strip r.query);
      page_num = page_number r.page;
      per_page = size_number r.page_size;
      now_bucket = if one_of view (codes "queued" ∷ codes "scheduled" ∷ []) then now else 0;
    }

unfoldable pub key_eq : PageKey → PageKey → Bool
unfolding text_eq
key_eq a b =
    text_eq a.view b.view
    && text_eq a.state_filter b.state_filter
    && text_eq a.media_filter b.media_filter
    && text_eq a.query b.query
    && a.page_num == b.page_num
    && a.per_page == b.per_page
    && a.now_bucket == b.now_bucket

abbrev pub Cache : Type 0
Cache = List (PageKey × CachedPage)

unfoldable pub cached : PageKey → Cache → Option CachedPage
unfolding key_eq
cached k [] = none
cached k ((j, v) ∷ c) = if key_eq j k then some v else cached k c

-- `pop(key, None)`
unfoldable pub forget : PageKey → Cache → Cache
unfolding key_eq
forget k [] = []
forget k ((j, v) ∷ c) = let rest = forget k c in if key_eq j k then rest else (j, v) ∷ rest

module _ (fetch : PageRequest → Result Page) (monotonic threshold ttl : ℕ) where
  -- a page that the database answered is kept, if pages are kept at all
  keep : PageKey → Page → Queue → Queue
  unfolding forget
  keep key p q =
      if ltb 0 ttl
      then record q {
        page_cache =
            (key, record { expires_at = monotonic + ttl; payload = p }) ∷ forget key q.page_cache;
      }
      else q

  -- a query that raises falls back to the items in memory
  answer : PageRequest → PageKey → Queue → Result Page → Queue × Result Page
  unfolding keep memory_page
  answer r key q (ok p) = (keep key p q, ok p)
  answer r key q (raise e) = (q, memory_page r q.items)

  -- after the look at the cache
  load : PageRequest → PageKey → Queue → Queue × Result Page
  unfolding answer
  load r key q =
      if leb threshold (length q.items)
      then answer r key q (fetch r)
      else (q, memory_page r q.items)

  look_up : PageRequest → PageKey → Queue → Option CachedPage → Queue × Result Page
  unfolding load forget
  look_up r key q none = load r key q
  look_up r key q (some entry) =
      if ltb monotonic entry.expires_at
      then (q, ok entry.payload)
      else load r key (record q { page_cache = forget key q.page_cache })

  unfoldable pub get_download_entries_page : PageRequest → Queue → Queue × Result Page
  unfolding look_up cached build_db_page_cache_key memory_page
  get_download_entries_page r q =
      if ltb 0 threshold
      then (let key = build_db_page_cache_key r in look_up r key q (cached key q.page_cache))
      else (q, memory_page r q.items)
