-- ===== src/Queue/Plan.antt =====
-- core/queue_manager.py: `plan_parallel_start`, the choice of the queue items to start.
-- Times are natural numbers of one unit. The set of worker ids is a list with no repetition.
pub mod Ready
pub mod Rows
use hyper_loader.Prelude.{
  ℕ, zero, suc, ◌+◌, ◌-◌, ◌<◌, Text, text_eq, ℤ, pos, negsuc, Bool, true, false, not, ◌&&◌, ◌||◌,
  ltb, leb, ◌==◌, if◌then◌else◌, Option, none, some, List, [], ◌∷◌, ◌++◌, map, length, get_elem?,
  elem, cons_if, Result, ok, raise, ◌>>=◌, traverse, or_else, min, max,
}
use hyper_loader.Task.{Task, Num, read, read_or_zero}
use hyper_loader.Task.Status.{value, pending, paused, cancelled, failed, running}
use hyper_loader.Queue.{Queue, status_of, is_active_status, is_pending_status}
use hyper_loader.Queue.Domains.{normalized_domain, domain_concurrency_limit}

-- the parameter `priority`; every other text acts as `fifo`
pub data Priority : Type 0 where
  fifo smallest_first smart : Priority

-- the parameters of a planning call; `task_size_getter` may raise
pub record Request : Type 0 where
  pub max_tasks : ℕ
  pub active_worker_ids : Option (List ℤ)
  pub priority : Priority
  pub task_size_getter : Option (Task → Result ℕ)
  pub now : ℕ
  pub include_queue_items : Bool

-- one element of `source_items`, as the two loops read it
pub record Row : Type 0 where
  pub status : Text
  pub url : Text
  pub scheduled_at : ℕ
  pub retry_at : ℕ

pub record StatusCounts : Type 0 where
  pub pending_count : ℕ
  pub paused_count : ℕ
  pub cancelled_count : ℕ
  pub failed_count : ℕ
  pub running_count : ℕ
  pub other_count : ℕ

-- a dictionary from domains to numbers, read by `.get(domain, 0)`
abbrev pub Usage : Type 0
Usage = Text → ℕ

-- what the first loop computes
pub record Tally : Type 0 where
  pub status_counts : StatusCounts
  pub active_count : ℕ
  pub active_domains : Usage

pub record Plan : Type 0 where
  pub pending_indices : List ℕ
  pub next_retry_ts : Option ℕ
  pub active_count : ℕ
  pub status_counts : StatusCounts
  pub queue_items : Option (List Task)

-- `normalized_active_ids`
unfoldable pub normalize_ids : List ℤ → List ℕ
normalize_ids [] = []
normalize_ids (pos i ∷ is) = i ∷ normalize_ids is
normalize_ids (negsuc i ∷ is) = normalize_ids is

unfoldable pub active_ids : Request → List ℕ
unfolding normalize_ids
active_ids r = elim r.active_worker_ids [ none ↦ [] | some is ↦ normalize_ids is ]

abbrev is_some {ℓ} : {A : Type ℓ} → Option A → Bool
is_some none = false
is_some (some a) = true

abbrev is_smallest_first : Priority → Bool
is_smallest_first smallest_first = true
is_smallest_first p = false

abbrev pub needs_full_snapshot : Request → Bool
needs_full_snapshot r =
    r.include_queue_items || is_smallest_first r.priority && is_some r.task_size_getter

-- the full snapshot's times are converted with no handler
unfoldable pub strict_row : Task → Result Row
unfolding status_of read
strict_row t = do
  scheduled ← read t.scheduled_at
  retry ← read t.next_retry_at
  ok (record { status = status_of t; url = t.url; scheduled_at = scheduled; retry_at = retry })

-- the tuple of `item_records`
unfoldable pub lenient_row : Task → Row
unfolding status_of read_or_zero
lenient_row t = record {
  status = status_of t;
  url = t.url;
  scheduled_at = read_or_zero t.scheduled_at;
  retry_at = read_or_zero t.next_retry_at;
}

unfoldable pub source_rows : Request → List Task → Result (List Row)
unfolding strict_row lenient_row traverse
source_rows r items =
    if needs_full_snapshot r then traverse strict_row items else ok (map lenient_row items)

unfoldable pub bump : Text → Usage → Usage
bump domain usage d = if text_eq domain d then usage d + 1 else usage d

-- `if domain: usage[domain] = usage.get(domain, 0) + 1`
unfoldable pub use_domain : Text → Usage → Usage
unfolding bump
use_domain domain usage = if text_eq domain [] then usage else bump domain usage

unfoldable pub count_status : Text → StatusCounts → StatusCounts
count_status s c =
    if text_eq s (value pending)
    then record c { pending_count = c.pending_count + 1 }
    else if text_eq s (value paused)
    then record c { paused_count = c.paused_count + 1 }
    else if text_eq s (value cancelled)
    then record c { cancelled_count = c.cancelled_count + 1 }
    else if text_eq s (value failed)
    then record c { failed_count = c.failed_count + 1 }
    else if text_eq s (value running)
    then record c { running_count = c.running_count + 1 }
    else record c { other_count = c.other_count + 1 }

abbrev pub is_active : List ℕ → ℕ → Row → Bool
is_active ids idx row = elem idx ids || is_active_status row.status

-- one round of the first loop; `external` says that worker ids were given
unfoldable pub tally_row : Bool → List ℕ → ℕ → Row → Tally → Tally
unfolding count_status use_domain
tally_row external ids idx row t = record {
  status_counts = count_status row.status t.status_counts;
  active_count =
      if is_active ids idx row && not external then t.active_count + 1 else t.active_count;
  active_domains =
      if is_active ids idx row
      then use_domain (normalized_domain row.url) t.active_domains
      else t.active_domains;
}

unfoldable pub tally_from : Bool → List ℕ → ℕ → List Row → Tally → Tally
unfolding tally_row
tally_from external ids idx [] t = t
tally_from external ids idx (row ∷ rows) t =
    tally_from external ids (suc idx) rows (tally_row external ids idx row t)

abbrev pub no_counts : StatusCounts
no_counts = record {
  pending_count = 0;
  paused_count = 0;
  cancelled_count = 0;
  failed_count = 0;
  running_count = 0;
  other_count = 0;
}

unfoldable pub tally : Request → List Row → Tally
unfolding tally_from active_ids
tally r rows =
    let ids = active_ids r in
    let external = is_some r.active_worker_ids in
    tally_from external ids 0 rows (record {
      status_counts = no_counts;
      active_count = if external then length ids else 0;
      active_domains = λ d. 0;
    })

-- the tests of the second loop, in its order
unfoldable pub is_candidate : List ℕ → ℕ → Row → Bool
is_candidate ids idx row = not (elem idx ids) && is_pending_status row.status

unfoldable pub is_ready : List ℕ → ℕ → ℕ → Row → Bool
unfolding is_candidate
is_ready ids now idx row =
    is_candidate ids idx row && leb row.scheduled_at now && leb row.retry_at now

unfoldable pub ready_from : List ℕ → ℕ → ℕ → List Row → List ℕ
unfolding is_ready
ready_from ids now idx [] = []
ready_from ids now idx (row ∷ rows) =
    cons_if (is_ready ids now idx row) idx (ready_from ids now (suc idx) rows)

-- the time for which a candidate waits: the schedule's first, then the retry's
unfoldable pub wake_time : List ℕ → ℕ → ℕ → Row → Option ℕ
unfolding is_candidate
wake_time ids now idx row =
    if is_candidate ids idx row
    then (if ltb now row.scheduled_at
        then some row.scheduled_at
        else if ltb now row.retry_at
        then some row.retry_at
        else none)
    else none

-- `if next_retry_ts is None or t < next_retry_ts: next_retry_ts = t`
unfoldable pub sooner : Option ℕ → Option ℕ → Option ℕ
sooner none next = next
sooner (some t) none = some t
sooner (some t) (some n) = if ltb t n then some t else some n

unfoldable pub next_retry_from : List ℕ → ℕ → ℕ → List Row → Option ℕ → Option ℕ
unfolding wake_time sooner
next_retry_from ids now idx [] next = next
next_retry_from ids now idx (row ∷ rows) next =
    next_retry_from ids now (suc idx) rows (sooner (wake_time ids now idx row) next)
