-- ===== src/Segments/Fetch/Laws.antt =====
-- core/download_providers_oop/segmented_provider.py: what `_download_chunk` leaves in the file.
use hyper_loader.Prelude.{
  ℕ, Bool, Bool-cases, List, [], ap, arith, inl, inr, length, ltb, ltb-le, ltb→lt, refl, ◌+◌, ◌-◌,
  ◌<◌, ◌∙◌, ◌∷◌, ◌≡◌, ◌≤◌, ◌⊎◌, not, runtime_error, suc, true, zero, ◌&&◌, ◌||◌, ◌≢◌,
}
use hyper_loader.Segments.Chunks.{Chunk}
use hyper_loader.Segments.Fetch.{
  File, byte_at, write_at, Read, block, broken, Answer, refused, answered, finished, Fetched,
  read_loop, Outcome, attempts_from, attempt, download_chunk, failed, is_failed,
}
use hyper_loader.Segments.Ranges.{validate_chunk_response}

pub write_at-inside :
    (offset : ℕ) (bs : List ℕ) (f : File) (k : ℕ)
    → offset ≤ k
    → k < offset + length bs
    → write_at offset bs f k ≡ byte_at bs (k - offset)
unfolding write_at
write_at-inside offset bs f k h l = ground arith

pub write_at-outside :
    (offset : ℕ) (bs : List ℕ) (f : File) (k : ℕ)
    → (k < offset) ⊎ (offset + length bs ≤ k)
    → write_at offset bs f k ≡ f k
unfolding write_at
write_at-outside offset bs f k h = ground arith

-- the bytes of a block are those of the content at its place
abbrev pub IsSlice : (ℕ → ℕ) → ℕ → List ℕ → Type 0
IsSlice content offset bs = (j : ℕ) → j < length bs → byte_at bs j ≡ content (offset + j)

-- What a server sends that keeps to the range it announced: the bytes of the content, up to the end of
-- the chunk, unless the connection breaks before.
abbrev pub Sends : (ℕ → ℕ) → Chunk → ℕ → List Read → Type 0
Sends content c offset [] = offset ≡ c.end + 1
Sends content c offset (block bs ∷ reads) =
    IsSlice content offset bs
    × (offset + length bs ≤ c.end + 1)
    × Sends content c (offset + length bs) reads
Sends content c offset (broken e ∷ reads) = Unit

abbrev pub AnswersWith : (ℕ → ℕ) → Chunk → Answer → Type 0
AnswersWith content c (refused e) = Unit
AnswersWith content c (answered r) = Sends content c c.start r.reads

-- where the body of an answer about a chunk may end, if the connection does not break
abbrev pub Ending : Type 1
Ending = Chunk → ℕ → Type 0

-- what is read: bytes of the content from the offset on, up to where a body may end or the connection
-- breaks
abbrev pub SendsUntil : Ending → (ℕ → ℕ) → Chunk → ℕ → List Read → Type 0
SendsUntil Ends content c offset [] = Ends c offset
SendsUntil Ends content c offset (block bs ∷ reads) =
    IsSlice content offset bs × SendsUntil Ends content c (offset + length bs) reads
SendsUntil Ends content c offset (broken e ∷ reads) = Unit

abbrev pub AnswersUntil : Ending → (ℕ → ℕ) → Chunk → Answer → Type 0
AnswersUntil Ends content c (refused e) = Unit
AnswersUntil Ends content c (answered r) = SendsUntil Ends content c c.start r.reads

-- the bytes before a position are those of the content
abbrev pub Filled : (ℕ → ℕ) → Chunk → ℕ → File → Type 0
Filled content c offset f = (k : ℕ) → c.start ≤ k → k < offset → f k ≡ content k

-- a position outside the chunk
abbrev pub Outside : Chunk → ℕ → Type 0
Outside c k = (k < c.start) ⊎ (c.end < k)

-- how a file differs after a part of the download, and what it holds where that finished
record Leaves (content : ℕ → ℕ) (c : Chunk) (f : File) (r : Fetched) : Type 0 where
  frame : (k : ℕ) → Outside c k → r.file k ≡ f k
  whole : r.outcome ≡ finished → Filled content c (c.end + 1) r.file

write_at-Filled :
    (content : ℕ → ℕ) (c : Chunk) (offset : ℕ) (bs : List ℕ) (f : File)
    → IsSlice content offset bs
    → Filled content c offset f
    → Filled content c (offset + length bs) (write_at offset bs f)
write_at-Filled content c offset bs f slice before k from lt = elim (Bool-cases (ltb k offset)) [
  | inl early ↦
      write_at-outside offset bs f k (inl (ltb→lt k offset early))
      ∙ before k from (ltb→lt k offset early)
  | inr here ↦
      let le = ltb-le k offset here in
      let e : offset + (k - offset) ≡ k = omega arith in
      write_at-inside offset bs f k le lt ∙ slice (k - offset) (omega arith) ∙ ap content e
]

read_loop-Leaves :
    (content : ℕ → ℕ) (c : Chunk) (cancel : ℕ → Bool) (reads : List Read) (offset p n : ℕ)
    (f : File)
    → c.start ≤ offset
    → Sends content c offset reads
    → Filled content c offset f
    → Leaves content c f (read_loop cancel reads offset p n f)
unfolding read_loop
read_loop-Leaves content c cancel [] offset p n f from sent before = record {
  frame = λ k out. refl;
  whole = λ h k le lt. before k le (omega arith);
}
read_loop-Leaves content c cancel (broken e ∷ reads) offset p n f from sent before = record {
  frame = λ k out. refl;
  whole = λ h. absurd (ground arith);
}
read_loop-Leaves content c cancel (block bs ∷ reads) offset p n f from sent before =
    let (slice, inside, later) = sent in
    let rest =
      read_loop-Leaves content c cancel reads (offset + length bs) (p + 1) (n + length bs)
        (write_at offset bs f) (omega arith) later
        (write_at-Filled content c offset bs f slice before) in
    elim (Bool-cases (cancel p)) [
      | inl stop ↦ rw stop (record { frame = λ k out. refl; whole = λ h. cc })
      | inr go ↦ rw go (record {
        frame = λ k out. rest.frame k out ∙ write_at-outside offset bs f k (omega (arith, out));
        whole = rest.whole;
      })
    ]

pub read_loop_whole :
    (content : ℕ → ℕ) (c : Chunk) (cancel : ℕ → Bool) (reads : List Read) (offset p n : ℕ)
    (f : File)
    → c.start ≤ offset
    → Sends content c offset reads
    → Filled content c offset f
    → (read_loop cancel reads offset p n f).outcome ≡ finished
    → Filled content c (c.end + 1) (read_loop cancel reads offset p n f).file
read_loop_whole content c cancel reads offset p n f from sent before =
    (read_loop-Leaves content c cancel reads offset p n f from sent before).whole

attempt-Leaves :
    (content : ℕ → ℕ) (c : Chunk) (cancel : ℕ → Bool) (a : Answer) (p n : ℕ) (f : File)
    → AnswersWith content c a
    → Leaves content c f (attempt cancel c a p n f)
unfolding attempt
attempt-Leaves content c cancel (refused e) p n f sent = record {
  frame = λ k out. refl;
  whole = λ h. absurd (ground arith);
}
attempt-Leaves content c cancel (answered r) p n f sent =
    elim (Bool-cases (validate_chunk_response c r.status r.content_range)) [
      | inl valid ↦ elim (Bool-cases r.host_ok) [
        | inl trusted ↦
            rw (valid, attempt, trusted)
              (read_loop-Leaves content c cancel r.reads c.start p n f (omega arith) sent
                (λ k from lt. absurd (omega arith)))
        | inr unsafe ↦
            rw (valid, attempt, unsafe) (record { frame = λ k out. refl; whole = λ h. cc })
      ]
      | inr invalid ↦ rw (invalid, attempt) (record { frame = λ k out. refl; whole = λ h. cc })
    ]

failed_unfinished : (o : Outcome) → is_failed o ≡ true → o ≢ finished
failed_unfinished Outcome.finished h e = cc
failed_unfinished Outcome.cancelled h e = cc
failed_unfinished Outcome.range_error h e = cc
failed_unfinished (failed x) h e = cc

attempts_from-Leaves :
    (content : ℕ → ℕ) (c : Chunk) (cancel : ℕ → Bool) (serve : ℕ → Answer) (left i p : ℕ)
    (last : Outcome) (n : ℕ) (f : File)
    → ((j : ℕ) → AnswersWith content c (serve j))
    → last ≢ finished
    → Leaves content c f (attempts_from cancel c serve left i p last n f)
unfolding attempts_from
attempts_from-Leaves content c cancel serve zero i p last n f sent unfinished = record {
  frame = λ k out. refl;
  whole = λ h. absurd (unfinished h);
}
attempts_from-Leaves content c cancel serve (suc left) i p last n f sent unfinished =
    let tried = attempt cancel c (serve i) (p + 2) n f in
    let first = attempt-Leaves content c cancel (serve i) (p + 2) n f (sent i) in
    elim (Bool-cases (cancel p || cancel (p + 1))) [
      | inl stop ↦ rw stop (record { frame = λ k out. refl; whole = λ h. cc })
      | inr go ↦ elim (Bool-cases (is_failed tried.outcome && not (cancel tried.polls))) [
        | inl again ↦
            let rest =
              attempts_from-Leaves content c cancel serve left (i + 1) (tried.polls + 1)
                tried.outcome tried.counted tried.file sent
                (failed_unfinished tried.outcome (ground (arith, again))) in
            rw (go, again)
              (record { frame = λ k out. rest.frame k out ∙ first.frame k out; whole = rest.whole })
        | inr ends ↦ rw (go, ends) first
      ]
    ]

download_chunk-Leaves :
    (content : ℕ → ℕ) (c : Chunk) (cancel : ℕ → Bool) (serve : ℕ → Answer) (f : File)
    → ((j : ℕ) → AnswersWith content c (serve j))
    → Leaves content c f (download_chunk cancel c serve f)
unfolding download_chunk
download_chunk-Leaves content c cancel serve f sent =
    attempts_from-Leaves content c cancel serve 3 0 0 (failed runtime_error) 0 f sent (λ e. cc)

-- Where every answer carries the bytes of its range, a chunk that is reported as done stands in the
-- file as the content has it, whatever attempts failed before.
pub download_chunk_whole :
    (content : ℕ → ℕ) (c : Chunk) (cancel : ℕ → Bool) (serve : ℕ → Answer) (f : File)
    → ((j : ℕ) → AnswersWith content c (serve j))
    → (download_chunk cancel c serve f).outcome ≡ finished
    → (k : ℕ) → c.start ≤ k
    → k ≤ c.end
    → (download_chunk cancel c serve f).file k ≡ content k
download_chunk_whole content c cancel serve f sent done k from to =
    (download_chunk-Leaves content c cancel serve f sent).whole done k from (omega arith)
