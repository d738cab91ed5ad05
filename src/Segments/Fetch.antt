-- ===== src/Segments/Fetch.antt =====
-- core/download_providers_oop/segmented_provider.py: `_download_chunk`. A file is the function from the
-- positions to its bytes. `cancel n` is what the `n`-th look at the cancel event finds; a pause only
-- delays. `serve n` is what the server does at attempt `n`.
pub mod Laws
pub mod Short
use hyper_loader.Prelude.{
  ℕ, Bool, Error, List, Text, [], false, if◌then◌else◌, leb, length, ltb, not, runtime_error, suc,
  true, value_error, zero, ◌&&◌, ◌+◌, ◌-◌, ◌||◌, ◌∷◌,
}
use hyper_loader.Segments.Chunks.{Chunk}
use hyper_loader.Segments.Ranges.{validate_chunk_response}

abbrev pub File : Type 0
File = ℕ → ℕ

-- the bytes of a block, the last one repeated
unfoldable pub byte_at : List ℕ → ℕ → ℕ
byte_at [] k = 0
byte_at (b ∷ bs) zero = b
byte_at (b ∷ bs) (suc k) = byte_at bs k

-- `handle.write(block)` at a position
unfoldable pub write_at : ℕ → List ℕ → File → File
unfolding byte_at
write_at offset block f k =
    if leb offset k && ltb k (offset + length block) then byte_at block (k - offset) else f k

-- what `resp.read` gives, up to the empty block that ends the list
pub data Read : Type 0 where
  block : List ℕ → Read
  broken : Error → Read

-- an answer; `host_ok` says that the checks of the final host and of the peer's address pass
pub record Response : Type 0 where
  pub status : ℕ
  pub content_range : Text
  pub host_ok : Bool
  pub reads : List Read

pub data Answer : Type 0 where
  refused : Error → Answer
  answered : Response → Answer

pub data Outcome : Type 0 where
  finished cancelled range_error : Outcome
  failed : Error → Outcome

-- the file, the looks at the cancel event, the bytes counted as downloaded, and how it ended
pub record Fetched : Type 0 where
  pub file : File
  pub polls : ℕ
  pub counted : ℕ
  pub outcome : Outcome

-- the inner loop, from the position at which the file stands
unfoldable pub read_loop : (ℕ → Bool) → List Read → ℕ → ℕ → ℕ → File → Fetched
unfolding write_at
read_loop cancel [] offset p n f = record {
  file = f;
  polls = p + 1;
  counted = n;
  outcome = if cancel p then cancelled else finished;
}
read_loop cancel (block bs ∷ reads) offset p n f =
    let rest =
      read_loop cancel reads (offset + length bs) (p + 1) (n + length bs) (write_at offset bs f) in
    if cancel p then record { file = f; polls = p + 1; counted = n; outcome = cancelled } else rest
read_loop cancel (broken e ∷ reads) offset p n f = record {
  file = f;
  polls = p + 1;
  counted = n;
  outcome = if cancel p then cancelled else failed e;
}

-- the body of `try`
unfoldable pub attempt : (ℕ → Bool) → Chunk → Answer → ℕ → ℕ → File → Fetched
unfolding validate_chunk_response read_loop
attempt cancel c (refused e) p n f = record { file = f; polls = p; counted = n; outcome = failed e }
attempt cancel c (answered r) p n f =
    if validate_chunk_response c r.status r.content_range
    then (if r.host_ok
        then read_loop cancel r.reads c.start p n f
        else record { file = f; polls = p; counted = n; outcome = failed value_error })
    else record { file = f; polls = p; counted = n; outcome = range_error }

abbrev pub is_failed : Outcome → Bool
is_failed (failed e) = true
is_failed o = false

-- `while attempt < max_attempts`, with the attempts that are left
unfoldable pub attempts_from :
    (ℕ → Bool) → Chunk → (ℕ → Answer) → ℕ → ℕ → ℕ → Outcome → ℕ → File → Fetched
unfolding attempt
attempts_from cancel c serve zero i p last n f = record {
  file = f;
  polls = p;
  counted = n;
  outcome = last;
}
attempts_from cancel c serve (suc left) i p last n f =
    let stopped : Fetched = record { file = f; polls = p + 2; counted = n; outcome = cancelled } in
    let tried = attempt cancel c (serve i) (p + 2) n f in
    let again =
      attempts_from cancel c serve left (i + 1) (tried.polls + 1) tried.outcome tried.counted
        tried.file in
    if cancel p || cancel (p + 1)
    then stopped
    else if is_failed tried.outcome && not (cancel tried.polls)
    then again
    else tried

unfoldable pub download_chunk : (ℕ → Bool) → Chunk → (ℕ → Answer) → File → Fetched
unfolding attempts_from
download_chunk cancel c serve f = attempts_from cancel c serve 3 0 0 (failed runtime_error) 0 f

-- `chunk.done`
abbrev pub is_done : Outcome → Bool
is_done finished = true
is_done o = false
