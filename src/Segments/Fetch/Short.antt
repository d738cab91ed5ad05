-- ===== src/Segments/Fetch/Short.antt =====
-- core/download_providers_oop/segmented_provider.py: what `_download_chunk` does with a body that is too short.
use hyper_loader.Prelude.{
  ℕ, Bool, List, [], arith, inr, length, refl, ◌+◌, ◌∙◌, ◌∷◌, ◌≡◌, ◌≤◌, false, true,
}
use hyper_loader.Segments.Chunks.{Chunk}
use hyper_loader.Segments.Fetch.{
  File, write_at, Read, block, broken, Answer, answered, finished, read_loop, attempts_from,
  attempt, download_chunk, Response,
}
use hyper_loader.Segments.Ranges.{validate_chunk_response}
use hyper_loader.Segments.Fetch.Laws.{write_at-outside}

-- the bytes that are read
abbrev pub received : List Read → ℕ
received [] = 0
received (block bs ∷ reads) = length bs + received reads
received (broken e ∷ reads) = 0

abbrev pub is_unbroken : List Read → Bool
is_unbroken [] = true
is_unbroken (block bs ∷ reads) = is_unbroken reads
is_unbroken (broken e ∷ reads) = false

read_loop_short :
    (cancel : ℕ → Bool) (reads : List Read) (offset p n : ℕ) (f : File) (k : ℕ)
    → ((q : ℕ) → cancel q ≡ false)
    → is_unbroken reads ≡ true
    → offset + received reads ≤ k
    → (let r = read_loop cancel reads offset p n f in (r.outcome ≡ finished) × (r.file k ≡ f k))
unfolding read_loop
read_loop_short cancel [] offset p n f k never whole past = rw (never p) (refl, refl)
read_loop_short cancel (broken e ∷ reads) offset p n f k never whole past = absurd (ground arith)
read_loop_short cancel (block bs ∷ reads) offset p n f k never whole past =
    let (done, same) =
      read_loop_short cancel reads (offset + length bs) (p + 1) (n + length bs)
        (write_at offset bs f) k never whole (omega arith) in
    rw (never p) (done, same ∙ write_at-outside offset bs f k (inr (omega arith)))

-- A valid answer whose connection ends early, with no error, is taken for the whole chunk: it is
-- reported as done, and the bytes past those received are what they were before.
pub download_chunk_short :
    (c : Chunk) (cancel : ℕ → Bool) (serve : ℕ → Answer) (r : Response) (f : File) (k : ℕ)
    → ((q : ℕ) → cancel q ≡ false)
    → serve 0 ≡ answered r
    → validate_chunk_response c r.status r.content_range ≡ true
    → r.host_ok ≡ true
    → is_unbroken r.reads ≡ true
    → c.start + received r.reads ≤ k
    → (let run = download_chunk cancel c serve f in (run.outcome ≡ finished) × (run.file k ≡ f k))
unfolding download_chunk attempts_from attempt
download_chunk_short c cancel serve r f k never first valid trusted whole past =
    let (done, same) = read_loop_short cancel r.reads c.start 2 0 f k never whole past in
    rw (never 0, never 1, first, valid, trusted, done) (done, same)
