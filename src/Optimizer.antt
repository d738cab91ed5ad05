-- ===== src/Optimizer.antt =====
-- core/queue_ai.py: `SmartQueueAI`, which reorders the queue by a score. A score is a pair of what is
-- added and what is taken off, in points; `now` is the time that every score reads.
pub mod Laws
mod Tests
use hyper_loader.Prelude.{
  Bool, List, Option, Result, Text, [], codes, if◌then◌else◌, keep_if, leb, lower, ltb, map, none,
  ok, one_of, or_text, some, traverse, ℕ, ◌&&◌, ◌*◌, ◌++◌, ◌+◌, ◌>>=◌, ◌∷◌,
}
use hyper_loader.Task.{Num, num, bad, read, Task}
use hyper_loader.Task.Status.{
  value, running, downloading, queued, paused, pending, completed, error, failed, cancelled,
}

-- a task with the other keys that the score reads; `partials` is `none` where "resume" is no dictionary
pub record QueueItem : Type 0 where
  pub task : Task
  pub file_format : Text
  pub estimated_size_bytes : Num
  pub bandwidth_limit_kbps : Num
  pub partials : Option Num

abbrev pub Score : Type 0
Score = ℕ × ℕ

-- `a <= b`
unfoldable pub score_leb : Score → Score → Bool
score_leb (a, b) (c, d) = leb (a + d) (c + b)

abbrev pub points : Bool → ℕ → ℕ
points b n = if b then n else 0

unfoldable pub is_audio : Text → Bool
unfolding lower one_of
is_audio file_format =
    one_of (lower (or_text file_format (codes "mp4")))
      (codes "mp3" ∷ codes "m4a" ∷ codes "wav" ∷ [])

abbrev pub partial_bytes : Option Num → Result ℕ
partial_bytes none = ok 0
partial_bytes (some n) = read n

abbrev pub mib : ℕ
mib = 1048576

unfoldable pub calculate_priority_score : ℕ → ℕ → QueueItem → Result Score
unfolding read is_audio
calculate_priority_score speed now t = do
  size ← read t.estimated_size_bytes
  retries ← read t.task.retry_count
  limit ← read t.bandwidth_limit_kbps
  done ← partial_bytes t.partials
  scheduled ← read t.task.scheduled_at
  ok (
    100
        + points (is_audio t.file_format) 50
        + points (ltb 0 size && ltb size (50 * mib)) 40
        + points (ltb 0 done) 20
        + points (ltb 0 scheduled && leb scheduled now) 15,
    points (ltb (1024 * mib) size) 30 + 15 * retries + points (ltb 0 limit && ltb limit speed) 10,
  )

abbrev pub Scored : Type 0
Scored = Score × QueueItem

unfoldable pub scored : ℕ → QueueItem → Result Scored
unfolding calculate_priority_score
scored now t = do s ← calculate_priority_score 1000 now t; ok (s, t)

-- `sort(reverse=True)`: the greatest score first, equal ones as they stood
unfoldable pub insert_scored : Scored → List Scored → List Scored
unfolding score_leb
insert_scored x [] = x ∷ []
insert_scored x (y ∷ ys) = if score_leb y.0 x.0 then x ∷ y ∷ ys else y ∷ insert_scored x ys

unfoldable pub sort_scored : List Scored → List Scored
unfolding insert_scored
sort_scored [] = []
sort_scored (x ∷ xs) = insert_scored x (sort_scored xs)

-- the three sets of statuses
unfoldable pub active_statuses : List Text
unfolding value
active_statuses = value running ∷ value downloading ∷ []

unfoldable pub pending_statuses : List Text
unfolding value
pending_statuses = value queued ∷ value paused ∷ value pending ∷ []

unfoldable pub completed_statuses : List Text
unfolding value
completed_statuses = value completed ∷ value error ∷ value failed ∷ value cancelled ∷ []

unfoldable pub has_status : List Text → QueueItem → Bool
unfolding lower one_of
has_status statuses t = one_of (lower t.task.status) statuses

unfoldable pub optimize_queue : ℕ → List QueueItem → Result (List QueueItem)
unfolding traverse scored sort_scored has_status active_statuses pending_statuses completed_statuses
optimize_queue now items = do
  ranked ← traverse (scored now) (keep_if (has_status pending_statuses) items)
  ok (
      keep_if (has_status active_statuses) items
      ++ map (λ x. x.1) (sort_scored ranked)
      ++ keep_if (has_status completed_statuses) items)
