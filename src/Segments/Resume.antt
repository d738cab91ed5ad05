-- ===== src/Segments/Resume.antt =====
-- core/download_providers_oop/segmented_provider.py: the metadata of a segmented download, which is
-- saved now and then and read when the download is resumed. Times count milliseconds.
use hyper_loader.Prelude.{
  ℕ, Bool, List, Option, Text, [], arith, elem, false, if◌then◌else◌, leb, length, ltb, map, max,
  min, negsuc, none, not, pos, refl, some, text_eq, ℤ, ◌&&◌, ◌+◌, ◌-◌, ◌<◌, ◌==◌, ◌||◌, ◌∷◌, ◌≡◌,
  ◌≤◌, ◌⊎◌,
}

-- The dictionary in the file. An entry of "done_chunks" is `none` where `int` raises, and the list is
-- `none` where it is no list; a size of 0 stands for a missing one too, which is read as -1.
pub record Meta : Type 0 where
  pub url : Text
  pub total_bytes : ℕ
  pub chunk_size : ℕ
  pub done_chunks : Option (List (Option ℤ))

abbrev is_size : ℕ → ℕ → Bool
is_size stored size = not (stored == 0) && stored == size

abbrev index_within : ℕ → Option ℤ → Option ℕ
index_within count none = none
index_within count (some (negsuc n)) = none
index_within count (some (pos n)) = if ltb n count then some n else none

abbrev cons_opt {ℓ} : {A : Type ℓ} → Option A → List A → List A
cons_opt none xs = xs
cons_opt (some x) xs = x ∷ xs

-- the loop over the listed values
unfoldable pub valid_indices : ℕ → List (Option ℤ) → List ℕ
valid_indices count [] = []
valid_indices count (v ∷ vs) = cons_opt (index_within count v) (valid_indices count vs)

-- the two last tests and the loop, for a dictionary
unfoldable pub indices_of : Text → ℕ → ℕ → ℕ → Meta → List ℕ
unfolding text_eq valid_indices
indices_of url total size count m =
    if text_eq m.url url && is_size m.total_bytes total && is_size m.chunk_size size
    then elim m.done_chunks [ none ↦ [] | some vs ↦ valid_indices count vs ]
    else []

-- `_load_resume_chunk_indices`; `none` is a file that cannot be read, or holds no dictionary
unfoldable pub load_resume_chunk_indices : Option Meta → Text → ℕ → ℕ → ℕ → List ℕ
unfolding indices_of
load_resume_chunk_indices none url total size count = []
load_resume_chunk_indices (some m) url total size count = indices_of url total size count m

unfoldable pub insert_index : ℕ → List ℕ → List ℕ
insert_index i [] = i ∷ []
insert_index i (j ∷ js) = if leb i j then i ∷ j ∷ js else j ∷ insert_index i js

-- `sorted`
unfoldable pub sorted : List ℕ → List ℕ
unfolding insert_index
sorted [] = []
sorted (i ∷ is) = insert_index i (sorted is)

-- `_save_resume_chunk_indices`: the dictionary that the file holds afterwards
unfoldable pub save_resume_chunk_indices : Text → ℕ → ℕ → List ℕ → Meta
unfolding sorted
save_resume_chunk_indices url total size done = record {
  url = url;
  total_bytes = total;
  chunk_size = size;
  done_chunks = some (map (λ i. some (pos i)) (sorted done));
}

-- what decides on the next save: the indices saved last, and when
pub record Flush : Type 0 where
  pub last_saved_count : ℕ
  pub last_flush_ts : ℕ

-- `_RESUME_META_FLUSH_EVERY_CHUNKS` and `_RESUME_META_FLUSH_INTERVAL_SECONDS`, from the environment
unfoldable pub flush_every : ℕ → ℕ
flush_every env = max 1 (min 256 env)

unfoldable pub flush_interval : ℕ → ℕ
flush_interval env = max 50 (min 3000 env)

-- whether `_maybe_save_resume_chunk_indices` saves
unfoldable pub is_flushed : ℕ → ℕ → Bool → ℕ → ℕ → Flush → Bool
is_flushed every interval force now count fl =
    not (count == 0)
    && (force
        || ltb fl.last_saved_count count
          && not (ltb (count - fl.last_saved_count) every && ltb (now - fl.last_flush_ts) interval))

-- `_maybe_save_resume_chunk_indices`, with what it saves
unfoldable pub maybe_save : ℕ → ℕ → Bool → ℕ → Text → ℕ → ℕ → List ℕ → Flush → Flush × Option Meta
unfolding is_flushed save_resume_chunk_indices
maybe_save every interval force now url total size done fl =
    if is_flushed every interval force now (length done) fl
    then (
      record { last_saved_count = length done; last_flush_ts = now },
      some (save_resume_chunk_indices url total size done),
    )
    else (fl, none)

elem-insert_index : (k i : ℕ) (js : List ℕ) → elem k (insert_index i js) ≡ (k == i || elem k js)
unfolding insert_index
elem-insert_index k i [] = refl
elem-insert_index k i (j ∷ js) = ground (arith, elem-insert_index k i js)

elem-sorted : (k : ℕ) (is : List ℕ) → elem k (sorted is) ≡ elem k is
unfolding sorted
elem-sorted k [] = refl
elem-sorted k (i ∷ is) = ground (arith, elem-insert_index k i (sorted is), elem-sorted k is)

elem-valid_indices :
    (k count : ℕ) (is : List ℕ)
    → elem k (valid_indices count (map (λ i. some (pos i)) is)) ≡ (ltb k count && elem k is)
unfolding valid_indices
elem-valid_indices k count [] = ground arith
elem-valid_indices k count (i ∷ is) = ground (arith, elem-valid_indices k count is)

-- What is saved is what the same download loads: the finished chunks of its plan, in any order. Another
-- address, size or chunk size loads none.
pub load-save :
    (url url' : Text) (total total' size size' count : ℕ) (done : List ℕ) (k : ℕ)
    → 1 ≤ total
    → 1 ≤ size
    → elem k (
        load_resume_chunk_indices
          (some (save_resume_chunk_indices url total size done))
          url'
          total'
          size'
          count)
      ≡ (text_eq url url' && total == total' && size == size' && ltb k count && elem k done)
unfolding load_resume_chunk_indices save_resume_chunk_indices indices_of
load-save url url' total total' size size' count done k ht hs =
    ground (arith, elem-valid_indices k count (sorted done), elem-sorted k done)

-- After a call that is not forced, either what is saved is up to date, or fewer chunks than the limit
-- have been finished since and less time than the interval has passed; a forced call saves whatever
-- is there.
pub maybe_save_fresh :
    (every interval : ℕ) (force : Bool) (now : ℕ) (url : Text) (total size : ℕ) (done : List ℕ)
    (fl : Flush)
    → fl.last_saved_count ≤ length done
    → (let after = (maybe_save every interval force now url total size done fl).0 in
        (after.last_saved_count ≡ length done)
        ⊎ ((force ≡ false)
            × (length done < after.last_saved_count + every)
            × (now < after.last_flush_ts + interval)))
unfolding maybe_save
maybe_save_fresh every interval force now url total size done fl h = ground arith
