-- ===== src/Segments/Pool/Steps.antt =====
-- core/download_providers_oop/segmented_provider.py: that `_download_chunk` is made of the steps of the
-- pool.
use hyper_loader.Prelude.{
  Bool, Bool-cases, List, [], arith, false, get_elem?, inl, inr, refl, some, true, ℕ, ◌+◌, ◌==◌,
  ◌∷◌, ◌≡◌, length, not, runtime_error, suc, sym, zero, ◌&&◌, ◌||◌, ◌∙◌,
}
use hyper_loader.Segments.Chunks.{Chunk}
use hyper_loader.Segments.Fetch.{
  write_at, Read, block, broken, finished, Fetched, read_loop, download_chunk, attempts_from,
  Outcome, attempt, Answer, is_done, failed, is_failed, cancelled, range_error, refused, answered,
}
use hyper_loader.Segments.Fetch.Laws.{Ending, SendsUntil, AnswersUntil}
use hyper_loader.Segments.Ranges.{validate_chunk_response}
use hyper_loader.Segments.Pool.{
  Pool, PoolStep, Reach, here, next, begin_chunk, write_block, complete_chunk, put,
}

is_done-finished : (o : Outcome) → is_done o ≡ true → o ≡ finished
is_done-finished finished h = refl
is_done-finished cancelled h = cc
is_done-finished range_error h = cc
is_done-finished (failed e) h = cc

module _ (Ends : Ending) (content : ℕ → ℕ) (chunks : List Chunk) where
  Reach-append :
      (s t u : Pool)
      → Reach Ends content chunks s t
      → Reach Ends content chunks t u
      → Reach Ends content chunks s u
  Reach-append s t u r here = r
  Reach-append s t u r (next {t = v} later step) = next (Reach-append s t v r later) step

  put-same {ℓ} : {A : Type ℓ} (i : ℕ) (v : A) (g : ℕ → A) → put i v g i ≡ v
  put-same i v g = let e : (i == i) ≡ true = ground arith in rw e refl

  module _ (i : ℕ) (c : Chunk) (there : get_elem? chunks i ≡ some c) (cancel : ℕ → Bool) where
    -- the steps of a part of the download, from a state in which the chunk is not done
    record Follows (s : Pool) (run : Fetched) : Type 0 where
      after : Pool
      steps : Reach Ends content chunks s after
      file : after.file ≡ run.file
      pending : after.done i ≡ false
      full : run.outcome ≡ finished → Ends c (after.cursor i)

    earlier :
        (s t : Pool) (run : Fetched)
        → PoolStep Ends content chunks s t
        → Follows t run
        → Follows s run
    earlier s t run step h = record {
      after = h.after;
      steps = Reach-append s t h.after (next here step) h.steps;
      file = h.file;
      pending = h.pending;
      full = h.full;
    }

    stays_at :
        (s : Pool) (run : Fetched)
        → s.done i ≡ false
        → s.file ≡ run.file
        → (run.outcome ≡ finished → Ends c (s.cursor i))
        → Follows s run
    stays_at s run todo same full = record {
      after = s;
      steps = here;
      file = same;
      pending = todo;
      full = full;
    }

    read_loop-Follows :
        (reads : List Read) (p n : ℕ) (s : Pool)
        → s.done i ≡ false
        → SendsUntil Ends content c (s.cursor i) reads
        → Follows s (read_loop cancel reads (s.cursor i) p n s.file)
    unfolding read_loop
    read_loop-Follows [] p n s todo sent = stays_at s _ todo refl (λ h. sent)
    read_loop-Follows (broken e ∷ reads) p n s todo sent =
        stays_at s _ todo refl (λ h. absurd (ground (arith, h)))
    read_loop-Follows (block bs ∷ reads) p n s todo sent = elim (Bool-cases (cancel p)) [
      | inl stop ↦ rw stop (stays_at s _ todo refl (λ h. cc))
      | inr go ↦
          let t : Pool = record s {
            file = write_at (s.cursor i) bs s.file;
            cursor = put i (s.cursor i + length bs) s.cursor;
          } in
          let moves = put-same i (s.cursor i + length bs) s.cursor in
          let later = read_loop-Follows reads (p + 1) (n + length bs) t todo (rw moves sent.1) in
          rw go (earlier s t _ (write_block s i c bs there todo sent.0) (rw moves at later))
    ]

    attempt-Follows :
        (a : Answer) (p n : ℕ) (s : Pool)
        → s.done i ≡ false
        → AnswersUntil Ends content c a
        → Follows s (attempt cancel c a p n s.file)
    unfolding attempt
    attempt-Follows (refused e) p n s todo sent = stays_at s _ todo refl (λ h. cc)
    attempt-Follows (answered r) p n s todo sent =
        elim (Bool-cases (validate_chunk_response c r.status r.content_range)) [
          | inr invalid ↦ rw invalid (stays_at s _ todo refl (λ h. cc))
          | inl valid ↦ elim (Bool-cases r.host_ok) [
            | inr unsafe ↦ rw (valid, unsafe) (stays_at s _ todo refl (λ h. cc))
            | inl safe ↦
                let t : Pool = record s { cursor = put i c.start s.cursor } in
                let moves = put-same i c.start s.cursor in
                let later = read_loop-Follows r.reads p n t todo (rw moves sent) in
                rw (valid, safe) (earlier s t _ (begin_chunk s i c there todo) (rw moves at later))
          ]
        ]

    again-Follows :
        (s : Pool) (tried run : Fetched) (h : Follows s tried) → Follows h.after run → Follows s run
    again-Follows s tried run h k = record {
      after = k.after;
      steps = Reach-append s h.after k.after h.steps k.steps;
      file = k.file;
      pending = k.pending;
      full = k.full;
    }

    attempts_from-Follows :
        (serve : ℕ → Answer) (left j p : ℕ) (last : Outcome) (n : ℕ) (s : Pool)
        → ((k : ℕ) → AnswersUntil Ends content c (serve k))
        → (last ≡ finished → Ends c (s.cursor i))
        → s.done i ≡ false
        → Follows s (attempts_from cancel c serve left j p last n s.file)
    unfolding attempts_from
    attempts_from-Follows serve zero j p last n s sent full todo = stays_at s _ todo refl full
    attempts_from-Follows serve (suc left) j p last n s sent full todo =
        let tried = attempt cancel c (serve j) (p + 2) n s.file in
        let first = attempt-Follows (serve j) (p + 2) n s todo (sent j) in
        elim (Bool-cases (cancel p || cancel (p + 1))) [
          | inl stop ↦ rw stop (stays_at s _ todo refl (λ h. cc))
          | inr go ↦ elim (Bool-cases (is_failed tried.outcome && not (cancel tried.polls))) [
            | inr ends ↦ rw (go, ends) first
            | inl more ↦
                let later =
                  attempts_from-Follows serve left (j + 1) (tried.polls + 1) tried.outcome
                    tried.counted first.after sent first.full first.pending in
                rw (go, more) (again-Follows s tried _ first (rw first.file at later))
          ]
        ]

  -- Every download of a chunk that is not done, whose answers send bytes of the content, broken off,
  -- cut short or whole, is a sequence of steps of the pool: they leave the file that the download leaves,
  -- and mark the chunk as done exactly if the download does.
  pub download_chunk-Reach :
      (i : ℕ) (c : Chunk) (cancel : ℕ → Bool) (serve : ℕ → Answer) (s : Pool)
      → get_elem? chunks i ≡ some c
      → s.done i ≡ false
      → ((k : ℕ) → AnswersUntil Ends content c (serve k))
      → (let run = download_chunk cancel c serve s.file in
          (t : Pool) × Reach Ends content chunks s t
          × (t.file ≡ run.file)
          × (t.done i ≡ is_done run.outcome))
  unfolding download_chunk
  download_chunk-Reach i c cancel serve s there todo sent =
      let run = attempts_from cancel c serve 3 0 0 (failed runtime_error) 0 s.file in
      let h =
        attempts_from-Follows i c there cancel serve 3 0 0 (failed runtime_error) 0 s sent (λ e. cc)
          todo in
      elim (Bool-cases (is_done run.outcome)) [
        | inl ready ↦
            let full = h.full (is_done-finished run.outcome ready) in
            (
              record h.after { done = put i true h.after.done },
              next h.steps (complete_chunk h.after i c there full),
              h.file,
              put-same i true h.after.done ∙ sym ready,
            )
        | inr unready ↦ (h.after, h.steps, h.file, h.pending ∙ sym unready)
      ]
