-- ===== src/Segments/Tests.antt =====
-- A file of three bytes, planned, fetched, resumed and streamed.
use hyper_loader.Prelude.{
  Bool, List, Option, [], arith, codes, elem, false, get_elem?, inl, ltb, map, none, refl,
  runtime_error, some, suc, text_eq, true, zero, ℕ, ◌&&◌, ◌+◌, ◌==◌, ◌∷◌, ◌≡◌, ◌<◌,
}
use hyper_loader.Segments.Chunks.{Chunk, chunk_plan, plan_of}
use hyper_loader.Segments.Ranges.{validate_chunk_response}
use hyper_loader.Segments.Fetch
use hyper_loader.Segments.Fetch.{
  File, Read, block, byte_at, broken, Response, write_at, finished, download_chunk, is_done,
}
use hyper_loader.Segments.Fetch.Laws.{Ending, IsSlice, AnswersUntil}
use hyper_loader.Segments.Fetch.Short.{download_chunk_short}
use hyper_loader.Segments.Pool.{
  Pool, Reach, here, next, begin_chunk, write_block, complete_chunk, fresh_pool, start_at, put,
}
use hyper_loader.Segments.Pool.Sound.{download_complete}
use hyper_loader.Segments.Pool.Steps.{download_chunk-Reach}
use hyper_loader.Segments.Resume.{load_resume_chunk_indices, save_resume_chunk_indices, load-save}
use hyper_loader.Segments.Simple
use hyper_loader.Segments.Simple.{
  Stream, Disk, Payload, unreadable, download_simple, load_simple_resume_state, opened,
}
use hyper_loader.Segments.Simple.Laws.{IsCopy, Streams, Keeps, download_simple-IsCopy}

-- the bytes 1, 2, 3
abbrev content : ℕ → ℕ
content k = k + 1

abbrev only : Chunk
only = record { index = 0; start = 0; end = 2 }

abbrev never : ℕ → Bool
never n = false

abbrev blank : File
blank k = 0

-- Three chunks of two bytes at most, and one for a small file.
plan_of_test :
    map {B = ℕ × ℕ} (λ (c : Chunk). (c.start, c.end)) (plan_of 2 5) ≡ (0, 1) ∷ (2, 3) ∷ (4, 4) ∷ []
unfolding plan_of
plan_of_test = refl

one_chunk : chunk_plan 3 ≡ only ∷ []
unfolding chunk_plan
one_chunk = refl

slice : IsSlice content 0 (1 ∷ 2 ∷ 3 ∷ [])
unfolding byte_at
slice zero lt = refl
slice (suc zero) lt = refl
slice (suc (suc zero)) lt = refl
slice (suc (suc (suc j))) lt = absurd (omega arith)

one_byte : IsSlice content 0 (1 ∷ [])
unfolding byte_at
one_byte zero lt = refl
one_byte (suc j) lt = absurd (omega arith)

abbrev partial : List Read → Response
partial reads = record {
  status = 206;
  content_range = codes "bytes 0-2/3";
  host_ok = true;
  reads = reads;
}

-- the first connection breaks after a byte
abbrev serve : ℕ → Fetch.Answer
serve zero = Fetch.answered (partial (block (1 ∷ []) ∷ broken runtime_error ∷ []))
serve (suc i) = Fetch.answered (partial (block (1 ∷ 2 ∷ 3 ∷ []) ∷ []))

-- a body may end anywhere, or at the end of its range
abbrev anywhere : Ending
anywhere c p = Unit

abbrev at_end : Ending
at_end c p = p ≡ c.end + 1

second_attempt : (download_chunk never only serve blank).outcome ≡ finished
unfolding download_chunk
second_attempt = refl

-- one byte of three, and then the end
abbrev cut_short : ℕ → Fetch.Answer
cut_short i = Fetch.answered (partial (block (1 ∷ []) ∷ []))

download_chunk_short_example :
    (let run = download_chunk never only cut_short blank in
      (run.outcome ≡ finished) × (run.file 1 ≡ 0))
unfolding validate_chunk_response
download_chunk_short_example =
    download_chunk_short only never cut_short (partial (block (1 ∷ []) ∷ [])) blank 1 (λ q. refl)
      refl refl refl refl (omega arith)

-- a broken connection, then a body that is cut short
abbrev breaks_then_ends : ℕ → Fetch.Answer
breaks_then_ends zero = serve 0
breaks_then_ends (suc i) = cut_short i

breaks_then_ends-AnswersUntil : (j : ℕ) → AnswersUntil anywhere content only (breaks_then_ends j)
breaks_then_ends-AnswersUntil zero = (one_byte, tt)
breaks_then_ends-AnswersUntil (suc j) = (one_byte, tt)

first_there : get_elem? (chunk_plan 3) 0 ≡ some only
unfolding chunk_plan
first_there = refl

-- the only chunk, fetched by one connection
abbrev fetched : Pool
fetched = record {
  file = write_at 0 (1 ∷ 2 ∷ 3 ∷ []) blank;
  cursor = put 0 3 (put 0 0 (start_at (chunk_plan 3)));
  done = put 0 true (λ i. false);
  saved = [];
}

download_chunk-Reach_example :
    (let run = download_chunk never only breaks_then_ends blank in
      (t : Pool) × Reach anywhere content (chunk_plan 3) (fresh_pool (chunk_plan 3)) t
      × (t.file ≡ run.file)
      × (t.done 0 ≡ is_done run.outcome))
download_chunk-Reach_example =
    download_chunk-Reach anywhere content (chunk_plan 3) 0 only never breaks_then_ends
      (fresh_pool (chunk_plan 3)) first_there refl breaks_then_ends-AnswersUntil

fetched-Reach : Reach at_end content (chunk_plan 3) (fresh_pool (chunk_plan 3)) fetched
fetched-Reach =
    next
      (next (next here (begin_chunk _ 0 only first_there refl))
        (write_block _ 0 only (1 ∷ 2 ∷ 3 ∷ []) first_there refl slice))
      (complete_chunk _ 0 only first_there refl)

fetched_all : (i : ℕ) (c : Chunk) → get_elem? (chunk_plan 3) i ≡ some c → fetched.done i ≡ true
unfolding chunk_plan
fetched_all zero c there = refl
fetched_all (suc i) c there = cc

download_complete_example : fetched.file 1 ≡ content 1
download_complete_example =
    download_complete content 3 at_end (λ c p e. e) fetched-Reach fetched_all 1 (omega arith)

load-save_example :
    elem 2 (
      load_resume_chunk_indices
        (some (save_resume_chunk_indices (codes "u") 9 2 (4 ∷ 2 ∷ [])))
        (codes "u")
        9
        2
        5)
    ≡ (text_eq (codes "u") (codes "u") && 9 == 9 && 2 == 2 && ltb 2 5 && elem 2 (4 ∷ 2 ∷ []))
load-save_example =
    load-save (codes "u") (codes "u") 9 9 2 2 5 (4 ∷ 2 ∷ []) 2 (omega arith) (omega arith)

-- the whole file, to any request
abbrev whole : Stream
whole = record {
  status = 200;
  content_length = codes "3";
  content_range = [];
  host_ok = true;
  reads = block (1 ∷ 2 ∷ 3 ∷ []) ∷ [];
}

abbrev sends_all : ℕ → Option ℕ → Simple.Answer
sends_all n range = Simple.answered whole

sends_all-Streams : (n : ℕ) (range : Option ℕ) → Streams content only range (sends_all n range)
sends_all-Streams n none = (slice, omega arith, refl)
sends_all-Streams n (some k) = inl refl

-- a byte is left of an earlier run, with no metadata
abbrev left_over : Disk
left_over = record {
  tmp = some (record { size = 1; bytes = write_at 0 (1 ∷ []) blank });
  payload = unreadable;
  out = none;
  downloaded = 0;
  total = 0;
}

left_over_bytes : (k : ℕ) → k < 1 → write_at 0 (1 ∷ []) blank k ≡ content k
unfolding write_at
left_over_bytes zero lt = refl
left_over_bytes (suc k) lt = absurd (omega arith)

left_over-Keeps :
    Keeps content only refl never
      (λ n. refl)
      (codes "u")
      (load_simple_resume_state left_over.tmp left_over.payload (codes "u")).0
      left_over.tmp
unfolding load_simple_resume_state opened
left_over-Keeps = (λ k from lt. left_over_bytes k lt, omega arith)

succeeds : (download_simple never (codes "u") sends_all left_over).1 ≡ true
unfolding download_simple
succeeds = refl

download_simple-IsCopy_example :
    IsCopy content only (download_simple never (codes "u") sends_all left_over).0
download_simple-IsCopy_example =
    download_simple-IsCopy content only refl never (λ n. refl) (codes "u") sends_all left_over
      sends_all-Streams left_over-Keeps succeeds
