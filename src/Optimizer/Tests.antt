-- ===== src/Optimizer/Tests.antt =====
-- Three items, one of which is being merged.
use hyper_loader.Prelude.{
  All, Bool, List, Text, [], codes, count_if, keep_if, none, ok, refl, ◌++◌, ◌∷◌, ◌≡◌,
}
use hyper_loader.Task.{num, defaults}
use hyper_loader.Optimizer.{
  QueueItem, Scored, has_status, active_statuses, pending_statuses, completed_statuses,
  optimize_queue,
}
use hyper_loader.Optimizer.Laws.{items_of, IsRanked, HasScore, optimize_queue_lem}

abbrev item : Text → Text → QueueItem
item status file_format = record {
  task = record (defaults []) { status = status };
  file_format = file_format;
  estimated_size_bytes = num 0;
  bandwidth_limit_kbps = num 0;
  partials = none;
}

abbrev items : List QueueItem
items =
    item (codes "failed") []
    ∷ item (codes "pending") []
    ∷ item (codes "merging") []
    ∷ item (codes "Queued") (codes "MP3")
    ∷ []

-- Audio comes first, and the item that is being merged is gone.
abbrev optimized : List QueueItem
optimized =
    item (codes "Queued") (codes "MP3") ∷ item (codes "pending") [] ∷ item (codes "failed") [] ∷ []

optimize_run : optimize_queue 0 items ≡ ok optimized
unfolding optimize_queue defaults
optimize_run = refl

optimize_queue_example :
    (xs : List Scored) × (optimized
      ≡ keep_if (has_status active_statuses) items
        ++ items_of xs
        ++ keep_if (has_status completed_statuses) items)
    × IsRanked xs
    × All (HasScore 0) xs
    × ((f : QueueItem → Bool)
        → count_if f (items_of xs) ≡ count_if f (keep_if (has_status pending_statuses) items))
optimize_queue_example = optimize_queue_lem 0 items optimized optimize_run
