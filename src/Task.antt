-- ===== src/Task.antt =====
-- core/task_types.py: `DownloadTask`, a dictionary with defaults, and its update by another mapping.
-- The record has the keys that the queue reads or writes; an update of any other key is `other`.
pub mod Status
pub mod Laws
mod Tests
use hyper_loader.Prelude.{ℕ, Text, codes, List, [], ◌∷◌, Result, ok, raise, value_error}

-- What `float(v or 0)` and `int(v or 0)` are applied to: a number, or a value on which they raise.
-- The queue reads a negative number as it reads 0, so a negative number is `num 0`.
pub data Num : Type 0 where
  num : ℕ → Num
  bad : Num

-- float(v or 0), int(v or 0)
unfoldable pub read : Num → Result ℕ
read (num n) = ok n
read bad = raise value_error

-- the same under `except (TypeError, ValueError, OverflowError): 0.0`
unfoldable pub read_or_zero : Num → ℕ
read_or_zero (num n) = n
read_or_zero bad = 0

pub record Task : Type 0 where
  pub task_uuid : Text
  pub url : Text
  pub title : Text
  pub mode : Text
  pub status : Text
  pub scheduled_at : Num
  pub next_retry_at : Num
  pub retry_count : Num
  pub priority_boost : Num
  pub progress : Num
  pub speed : Text
  pub eta : Text

-- one item of a mapping
pub data Field : Type 0 where
  task_uuid url title mode status speed eta : Text → Field
  scheduled_at next_retry_at retry_count priority_boost progress : Num → Field
  other : Field

-- `self[key] = value`
unfoldable pub set_item : Task → Field → Task
set_item t (Field.task_uuid v) = record t { task_uuid = v }
set_item t (Field.url v) = record t { url = v }
set_item t (Field.title v) = record t { title = v }
set_item t (Field.mode v) = record t { mode = v }
set_item t (Field.status v) = record t { status = v }
set_item t (Field.speed v) = record t { speed = v }
set_item t (Field.eta v) = record t { eta = v }
set_item t (Field.scheduled_at v) = record t { scheduled_at = v }
set_item t (Field.next_retry_at v) = record t { next_retry_at = v }
set_item t (Field.retry_count v) = record t { retry_count = v }
set_item t (Field.priority_boost v) = record t { priority_boost = v }
set_item t (Field.progress v) = record t { progress = v }
set_item t other = t

unfoldable pub update : Task → List Field → Task
unfolding set_item
update t [] = t
update t (f ∷ fs) = update (set_item t f) fs

-- `cls()`, with the drawn `uuid4` text; `priority_boost` is no field, and is read with default 0
unfoldable pub defaults : Text → Task
defaults drawn = record {
  task_uuid = drawn;
  url = [];
  title = [];
  mode = codes "video";
  status = codes "pending";
  scheduled_at = num 0;
  next_retry_at = num 0;
  retry_count = num 0;
  priority_boost = num 0;
  progress = num 0;
  speed = [];
  eta = [];
}

unfoldable pub from_mapping : Text → List Field → Task
unfolding defaults update
from_mapping drawn fields = update (defaults drawn) fields
