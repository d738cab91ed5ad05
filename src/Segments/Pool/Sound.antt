-- ===== src/Segments/Pool/Sound.antt =====
-- core/download_providers_oop/segmented_provider.py: what the threads of a segmented download leave in
-- the file.
use hyper_loader.Prelude.{
  ℕ, Bool-cases, List, ap, arith, elem, inl, inr, leb, ltb, ◌&&◌, ◌+◌, ◌-◌, ◌<◌, ◌==◌, ◌∙◌, ◌≡◌,
  ◌≤◌, ◌⊎◌, get_elem?, length, some, true, ==_iff, ltb-le, ltb→lt, refl, sym,
}
use hyper_loader.Segments.Chunks.{Chunk, chunk_plan, chunk_plan-Tiles, byte_in_chunk}
use hyper_loader.Segments.Fetch.{File, write_at}
use hyper_loader.Segments.Fetch.Laws.{Ending, IsSlice, Filled, write_at-inside, write_at-outside}
use hyper_loader.Segments.Pool.{
  Pool, put, start_at, fresh_pool, PoolStep, begin_chunk, write_block, complete_chunk, save_indices,
  resume_run, start_anew, Reach, here, next,
}

-- What is in the file at every moment: each chunk up to its handle, and each finished one whole.
record IsSound (content : ℕ → ℕ) (chunks : List Chunk) (s : Pool) : Type 0 where
  partial : (i : ℕ) (c : Chunk) → get_elem? chunks i ≡ some c → Filled content c (s.cursor i) s.file
  whole :
      (i : ℕ) (c : Chunk)
      → get_elem? chunks i ≡ some c
      → s.done i ≡ true
      → Filled content c (c.end + 1) s.file
  saved_done : (i : ℕ) → elem i s.saved ≡ true → s.done i ≡ true

-- a write_block of the content keeps every byte that is right
write_at-keeps :
    (content : ℕ → ℕ) (offset : ℕ) (bs : List ℕ) (f : File) (k : ℕ)
    → IsSlice content offset bs
    → (f k ≡ content k) ⊎ ((offset ≤ k) × (k < offset + length bs))
    → write_at offset bs f k ≡ content k
write_at-keeps content offset bs f k slice h =
    elim (Bool-cases (leb offset k && ltb k (offset + length bs))) [
      | inl inside ↦
          let e : offset + (k - offset) ≡ k = ground (arith, inside) in
          write_at-inside offset bs f k (ground (arith, inside)) (ground (arith, inside))
          ∙ slice (k - offset) (ground (arith, inside))
          ∙ ap content e
      | inr outside ↦ elim h [
        | inl right ↦ write_at-outside offset bs f k (ground (arith, outside)) ∙ right
        | inr within ↦ absurd (ground (arith, outside, within.0, within.1))
      ]
    ]

start_at-some :
    (chunks : List Chunk) (i : ℕ) (c : Chunk)
    → get_elem? chunks i ≡ some c
    → start_at chunks i ≡ c.start
start_at-some chunks i c h = rw (h, start_at)

fresh-IsSound : (content : ℕ → ℕ) (chunks : List Chunk) → IsSound content chunks (fresh_pool chunks)
fresh-IsSound content chunks = record {
  partial = λ i c there k from lt. absurd (omega (arith, start_at-some chunks i c there));
  whole = λ i c there h. cc;
  saved_done = λ i h. cc;
}

same_chunk :
    (chunks : List Chunk) (i j : ℕ) (c d : Chunk)
    → (i == j) ≡ true
    → get_elem? chunks i ≡ some c
    → get_elem? chunks j ≡ some d
    → c ≡ d
same_chunk chunks i j c d e there there' =
    let same : i ≡ j = (==_iff i j).0 e in
    let both : some c ≡ some d = sym there ∙ ap (get_elem? chunks) same ∙ there' in cc

module _ (content : ℕ → ℕ) (chunks : List Chunk) (s : Pool) (h : IsSound content chunks s) where
  module _ (i : ℕ) (c : Chunk) (there : get_elem? chunks i ≡ some c) where
    begin-IsSound : IsSound content chunks (record s { cursor = put i c.start s.cursor })
    begin-IsSound = record {
      partial = λ j d there' k from lt. elim (Bool-cases (i == j)) [
        | inl e ↦
            let same = same_chunk chunks i j c d e there there' in
            let lt' : k < c.start = rw e at lt in
            absurd (omega (arith, ap (λ (x : Chunk). x.start) same))
        | inr e ↦ h.partial j d there' k from (rw e at lt)
      ];
      whole = h.whole;
      saved_done = h.saved_done;
    }

    finish-IsSound :
        s.cursor i ≡ c.end + 1 → IsSound content chunks (record s { done = put i true s.done })
    finish-IsSound full = record {
      partial = h.partial;
      whole = λ j d there' ready k from lt. elim (Bool-cases (i == j)) [
        | inl e ↦
            let same = same_chunk chunks i j c d e there there' in
            h.partial i c there k (omega (arith, ap (λ (x : Chunk). x.start) same))
              (omega (arith, ap (λ (x : Chunk). x.end) same))
        | inr e ↦ h.whole j d there' (rw e at ready) k from lt
      ];
      saved_done = λ j saved. elim (Bool-cases (i == j)) [
        | inl e ↦ rw e refl
        | inr e ↦ rw e (h.saved_done j saved)
      ];
    }

    module _ (bs : List ℕ) (slice : IsSlice content (s.cursor i) bs) where
      written :
          (k : ℕ)
          → (s.file k ≡ content k) ⊎ ((s.cursor i ≤ k) × (k < s.cursor i + length bs))
          → write_at (s.cursor i) bs s.file k ≡ content k
      written k = write_at-keeps content (s.cursor i) bs s.file k slice

      write-IsSound : IsSound content chunks (record s {
        file = write_at (s.cursor i) bs s.file;
        cursor = put i (s.cursor i + length bs) s.cursor;
      })
      write-IsSound = record {
        partial = λ j d there' k from lt. elim (Bool-cases (i == j)) [
          | inl e ↦
              let same = same_chunk chunks i j c d e there there' in
              let lt' : k < s.cursor i + length bs = rw e at lt in
              elim (Bool-cases (ltb k (s.cursor i))) [
                | inl early ↦ written k (
                    inl (
                      h.partial i c there k (omega (arith, ap (λ (x : Chunk). x.start) same))
                        (ltb→lt k (s.cursor i) early)))
                | inr late ↦ written k (inr (ltb-le k (s.cursor i) late, lt'))
              ]
          | inr e ↦ written k (inl (h.partial j d there' k from (rw e at lt)))
        ];
        whole = λ j d there' ready k from lt. written k (inl (h.whole j d there' ready k from lt));
        saved_done = h.saved_done;
      }

-- the body of an answer is the whole range, if the connection does not break
abbrev pub AreWhole : Ending → Type 0
AreWhole Ends = (c : Chunk) (p : ℕ) → Ends c p → p ≡ c.end + 1

Step-IsSound :
    {Ends : Ending} {content : ℕ → ℕ} {chunks : List Chunk} {s t : Pool}
    → PoolStep Ends content chunks s t
    → AreWhole Ends
    → IsSound content chunks s
    → IsSound content chunks t
Step-IsSound {Ends} {content} {chunks} (begin_chunk s i c there pending) all_sent h =
    begin-IsSound content chunks s h i c there
Step-IsSound {Ends} {content} {chunks} (write_block s i c bs there pending slice) all_sent h =
    write-IsSound content chunks s h i c there bs slice
Step-IsSound {Ends} {content} {chunks} (complete_chunk s i c there full) all_sent h =
    finish-IsSound content chunks s h i c there (all_sent c (s.cursor i) full)
Step-IsSound (save_indices s is done) all_sent h = record {
  partial = h.partial;
  whole = h.whole;
  saved_done = done;
}
Step-IsSound {Ends} {content} {chunks} (resume_run s) all_sent h = record {
  partial = λ i c there k from lt. absurd (omega (arith, start_at-some chunks i c there));
  whole = λ i c there saved. h.whole i c there (h.saved_done i saved);
  saved_done = λ i saved. saved;
}
Step-IsSound {Ends} {content} {chunks} (start_anew s) all_sent h = fresh-IsSound content chunks

Reach-IsSound :
    {Ends : Ending} {content : ℕ → ℕ} {chunks : List Chunk} {s t : Pool}
    → AreWhole Ends
    → IsSound content chunks s
    → Reach Ends content chunks s t
    → IsSound content chunks t
Reach-IsSound all_sent h here = h
Reach-IsSound all_sent h (next r step) = Step-IsSound step all_sent (Reach-IsSound all_sent h r)

-- However the connections interleave, fail, are interrupted and are resumed, once all chunks of the plan
-- are done the temporary file is the content that the server announced, where the body of every answer
-- that ends without an exception is the whole range.
pub download_complete :
    (content : ℕ → ℕ) (total : ℕ) (Ends : Ending)
    → AreWhole Ends
    → {s : Pool} → Reach Ends content (chunk_plan total) (fresh_pool (chunk_plan total)) s
    → ((i : ℕ) (c : Chunk) → get_elem? (chunk_plan total) i ≡ some c → s.done i ≡ true)
    → (k : ℕ) → k < total
    → s.file k ≡ content k
download_complete content total Ends all_sent {s} r all k lt =
    let (i, c, there, from, to) =
      byte_in_chunk _ total 0 0 (chunk_plan total) k (chunk_plan-Tiles total) (omega arith) lt in
    (Reach-IsSound all_sent (fresh-IsSound content (chunk_plan total)) r).whole i c there
      (all i c there) k from (omega arith)
