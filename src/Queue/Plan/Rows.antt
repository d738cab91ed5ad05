-- ===== src/Queue/Plan/Rows.antt =====
-- core/queue_manager.py: the rows that the loops of `plan_parallel_start` read, and what the first
-- loop counts.
use hyper_loader.Prelude.{
  List, [], arith, map, ok, traverse, ℕ, ◌∷◌, ◌≡◌, >>=-eq-ok, Bool, Text, false, if◌then◌else◌,
  length, suc, text_eq, text_eq_iff, ◌&&◌, ◌+◌,
}
use hyper_loader.Task.{Task, Num, read, read_or_zero}
use hyper_loader.Queue.Plan.{
  Row, Request, strict_row, lenient_row, source_rows, tally_from, tally_row, is_active, use_domain,
  bump, Tally, StatusCounts, count_status, normalized_domain,
}

read-ok : (n : Num) (v : ℕ) → read n ≡ ok v → v ≡ read_or_zero n
unfolding read read_or_zero
read-ok n v h = ground arith

strict_row-ok : (t : Task) (row : Row) → strict_row t ≡ ok row → row ≡ lenient_row t
unfolding strict_row lenient_row
strict_row-ok t row h = ground arith

strict_rows-ok :
    (items : List Task) (rows : List Row)
    → traverse strict_row items ≡ ok rows
    → rows ≡ map lenient_row items
unfolding traverse
strict_rows-ok [] rows h = ground arith
strict_rows-ok (t ∷ items) rows h =
    let (row, e, h') = >>=-eq-ok (strict_row t) _ h in
    let (rest, e', h'') = >>=-eq-ok (traverse strict_row items) _ h' in
    cc (strict_row-ok t row e, strict_rows-ok items rest e')

-- Where the rows can be read, both ways of reading them agree.
pub source_rows-ok :
    (r : Request) (items : List Task) (rows : List Row)
    → source_rows r items ≡ ok rows
    → rows ≡ map lenient_row items
unfolding source_rows
source_rows-ok r items rows h = ground (arith, strict_rows-ok items rows)

-- how many rows from an index on are active and of a domain
pub count_active : List ℕ → ℕ → List Row → Text → ℕ
count_active ids idx [] d = 0
count_active ids idx (row ∷ rows) d =
    (if is_active ids idx row && text_eq (normalized_domain row.url) d then 1 else 0)
    + count_active ids (suc idx) rows d

active_domains-tally_row :
    (external : Bool) (ids : List ℕ) (idx : ℕ) (row : Row) (t : Tally) (d : Text)
    → text_eq d [] ≡ false
    → (tally_row external ids idx row t).active_domains d
      ≡ t.active_domains d
        + (if is_active ids idx row && text_eq (normalized_domain row.url) d then 1 else 0)
unfolding tally_row use_domain bump
active_domains-tally_row external ids idx row t d h = ground (
  arith,
  text_eq_iff (normalized_domain row.url) d,
  text_eq_iff (normalized_domain row.url) [],
  text_eq_iff d [],
)

-- the first loop counts the active items of each domain
pub active_domains-tally_from :
    (external : Bool) (ids : List ℕ) (idx : ℕ) (rows : List Row) (t : Tally) (d : Text)
    → text_eq d [] ≡ false
    → (tally_from external ids idx rows t).active_domains d
      ≡ t.active_domains d + count_active ids idx rows d
unfolding tally_from count_active
active_domains-tally_from external ids idx [] t d h = omega arith
active_domains-tally_from external ids idx (row ∷ rows) t d h = omega (
  arith,
  active_domains-tally_from external ids (suc idx) rows (tally_row external ids idx row t) d h,
  active_domains-tally_row external ids idx row t d h,
)

-- the first loop counts each row under exactly one status
abbrev pub total_count : StatusCounts → ℕ
total_count c =
    c.pending_count + c.paused_count + c.cancelled_count + c.failed_count + c.running_count
    + c.other_count

total_count-count_status :
    (s : Text) (c : StatusCounts) → total_count (count_status s c) ≡ total_count c + 1
unfolding count_status
total_count-count_status s c = ground arith

total_count-tally_row :
    (external : Bool) (ids : List ℕ) (idx : ℕ) (row : Row) (t : Tally)
    → total_count (tally_row external ids idx row t).status_counts ≡ total_count t.status_counts + 1
unfolding tally_row
total_count-tally_row external ids idx row t = total_count-count_status row.status t.status_counts

-- The first loop counts each row under exactly one status: the counts grow by the number of rows.
pub total_count-tally_from :
    (external : Bool) (ids : List ℕ) (idx : ℕ) (rows : List Row) (t : Tally)
    → total_count (tally_from external ids idx rows t).status_counts
      ≡ total_count t.status_counts + length rows
unfolding tally_from
total_count-tally_from external ids idx [] t = omega arith
total_count-tally_from external ids idx (row ∷ rows) t = omega (
  arith,
  total_count-tally_from external ids (suc idx) rows (tally_row external ids idx row t),
  total_count-tally_row external ids idx row t,
)
