-- ===== src/Queue/View.antt =====
-- core/queue_manager.py: `get_download_entries_page`, the filtered and paginated view of the queue,
-- with its cache of pages that the database answered. The database's query is the parameter `fetch`.
pub mod Slices
pub mod Laws
use hyper_loader.Prelude.{
  Bool, List, Option, Result, Text, [], codes, contains, if◌then◌else◌, leb, lower, ltb, max, min,
  none, not, ok, one_of, or_text, some, strip, suc, text_eq, true, ℕ, ◌&&◌, ◌*◌, ◌++◌, ◌+◌, ◌-◌,
  ◌/◌, ◌==◌, ◌||◌, ◌∷◌, ◌>>=◌,
}
use hyper_loader.Task.{Task, read}
use hyper_loader.Task.Status.{value, pending, running}
use hyper_loader.Queue.{Page, Entry, status_of, is_queued_view_status}

-- the parameters of the call; `clock` is what `time.time()` returns
pub record PageRequest : Type 0 where
  pub view : Text
  pub now_ts : ℕ
  pub clock : ℕ
  pub state_filter : Text
  pub media_filter : Text
  pub query : Text
  pub page : ℕ
  pub page_size : ℕ

abbrev token : Text → Text
token s = lower (strip s)

-- the filters, with "all" for an empty one
unfoldable pub filter_key : Text → Text
filter_key s = token (or_text s (codes "all"))

-- `max(1, int(page or 1))`, `max(1, int(page_size or 200))`
unfoldable pub page_number : ℕ → ℕ
page_number p = max 1 (if p == 0 then 1 else p)

unfoldable pub size_number : ℕ → ℕ
size_number n = max 1 (if n == 0 then 200 else n)

abbrev or_clock : ℕ → ℕ → ℕ
or_clock now clock = if now == 0 then clock else now

-- `_normalize_media_mode`; the third word is Arabic, by its code points
unfoldable pub normalize_media_mode : Text → Text
unfolding lower strip one_of
normalize_media_mode v =
    if one_of (token v) (codes "audio" ∷ codes "sound" ∷ (0x635 ∷ 0x648 ∷ 0x62a ∷ []) ∷ [])
    then codes "audio"
    else codes "video"

-- `_matches_downloads_query`
unfoldable pub matches_downloads_query : Task → Text → Bool
unfolding lower strip contains text_eq
matches_downloads_query t query =
    let q = token query in text_eq q [] || contains (lower t.title) q || contains (lower t.url) q

-- the status of an item for the view, if the view shows it
unfoldable pub view_status : Text → ℕ → Text → ℕ → Option Text
unfolding text_eq value is_queued_view_status
view_status view now status scheduled_at =
    let later = ltb now scheduled_at && text_eq status (value pending) in
    if text_eq view (codes "active")
    then (if text_eq status (value running) then some status else none)
    else if text_eq view (codes "queued")
    then (if is_queued_view_status status && not later then some status else none)
    else if text_eq view (codes "scheduled")
    then (if later then some (codes "scheduled") else none)
    else some status

unfoldable pub passes_state_filter : Text → Text → Bool
unfolding text_eq one_of
passes_state_filter filter status =
    if text_eq filter (codes "all")
    then true
    else if text_eq filter (codes "pending")
    then one_of status (codes "pending" ∷ codes "scheduled" ∷ [])
    else text_eq status filter

-- the first part of the loop's body: the status for the view of an item that is counted
unfoldable pub shown_status : PageRequest → Task → Result (Option Text)
unfolding view_status passes_state_filter matches_downloads_query filter_key lower strip status_of
    read
shown_status r t = do
  scheduled_at ← read t.scheduled_at
  ok (elim (view_status (token r.view) (or_clock r.now_ts r.clock) (status_of t) scheduled_at) [
    | none ↦ none
    | some s ↦
        if passes_state_filter (filter_key r.state_filter) s && matches_downloads_query t r.query
        then some s
        else none
  ])

unfoldable pub passes_media_filter : PageRequest → Task → Bool
unfolding normalize_media_mode filter_key text_eq
passes_media_filter r t =
    text_eq (filter_key r.media_filter) (codes "all")
    || text_eq (normalize_media_mode t.mode) (filter_key r.media_filter)

unfoldable pub is_audio : Task → Bool
unfolding normalize_media_mode text_eq
is_audio t = text_eq (normalize_media_mode t.mode) (codes "audio")

-- the loop's variables
pub record Scan : Type 0 where
  pub matched_count : ℕ
  pub summary_total : ℕ
  pub summary_video : ℕ
  pub summary_audio : ℕ
  pub entries : List Entry

-- `dict(item, queue_index=idx)`, with the status for the view where it differs
unfoldable pub entry_of : Task → ℕ → Text → Entry
unfolding status_of text_eq
entry_of t idx s = record {
  task = if text_eq s (status_of t) then t else record t { status = s };
  queue_index = idx;
}

abbrev pub start_of : PageRequest → ℕ
start_of r = (page_number r.page - 1) * size_number r.page_size

-- the rest of the loop's body, for an item that is counted
unfoldable pub scan_shown : PageRequest → ℕ → Task → Text → Scan → Scan
unfolding is_audio passes_media_filter entry_of page_number size_number
scan_shown r idx t s c =
    let counted = record c {
      summary_total = c.summary_total + 1;
      summary_video = if is_audio t then c.summary_video else c.summary_video + 1;
      summary_audio = if is_audio t then c.summary_audio + 1 else c.summary_audio;
    } in
    let inside =
      leb (start_of r) c.matched_count
      && ltb c.matched_count (start_of r + size_number r.page_size) in
    if passes_media_filter r t
    then record counted {
      matched_count = c.matched_count + 1;
      entries = if inside then c.entries ++ entry_of t idx s ∷ [] else c.entries;
    }
    else counted

abbrev scan_option : PageRequest → ℕ → Task → Option Text → Scan → Scan
scan_option r idx t none c = c
scan_option r idx t (some s) c = scan_shown r idx t s c

unfoldable pub scan_from : PageRequest → ℕ → List Task → Scan → Result Scan
unfolding shown_status scan_shown
scan_from r idx [] c = ok c
scan_from r idx (t ∷ ts) c = do
  shown ← shown_status r t
  scan_from r (suc idx) ts (scan_option r idx t shown c)

abbrev pub no_scan : Scan
no_scan = record {
  matched_count = 0;
  summary_total = 0;
  summary_video = 0;
  summary_audio = 0;
  entries = [];
}

-- the returned dictionary
unfoldable pub page_of : PageRequest → Scan → Page
unfolding page_number size_number
page_of r c =
    let size = size_number r.page_size in
    let total_pages = max 1 ((c.matched_count + size - 1) / size) in
    record {
      entries = c.entries;
      total_matches = c.matched_count;
      total_pages = total_pages;
      page = min (page_number r.page) total_pages;
      page_size = size;
      all_count = c.summary_total;
      video_count = c.summary_video;
      audio_count = c.summary_audio;
    }

-- the scan of the items in memory
unfoldable pub memory_page : PageRequest → List Task → Result Page
unfolding scan_from page_of
memory_page r items = do c ← scan_from r 0 items no_scan; ok (page_of r c)
