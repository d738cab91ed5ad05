-- ===== src/Segments/Pool.antt =====
-- core/download_providers_oop/segmented_provider.py: the threads of `_download_segmented`, whose writes
-- interleave in any order, with the resumptions after an interruption. A step is what one thread does
-- to what they share: `_download_chunk` starts an attempt, writes a block or ends; the main loop saves
-- the indices of the finished chunks; and a later run starts from the files that are there.
pub mod Sound
pub mod Steps
use hyper_loader.Prelude.{
  ℕ, Bool, Bool-cases, List, [], ap, arith, elem, if◌then◌else◌, inl, inr, leb, ltb, none, ◌&&◌,
  ◌+◌, ◌-◌, ◌<◌, ◌==◌, ◌∙◌, ◌≡◌, ◌≤◌, ◌⊎◌, get_elem?, length, false, some, true, ==_iff, ltb-le,
  ltb→lt, refl, sym,
}
use hyper_loader.Segments.Chunks.{Chunk, chunk_plan, chunk_plan-Tiles, byte_in_chunk}
use hyper_loader.Segments.Fetch.{File, write_at}
use hyper_loader.Segments.Fetch.Laws.{Ending, IsSlice, write_at-inside, write_at-outside}

-- the temporary file, where each chunk's handle stands, `chunk.done`, and the saved indices
pub record Pool : Type 0 where
  pub file : File
  pub cursor : ℕ → ℕ
  pub done : ℕ → Bool
  pub saved : List ℕ

abbrev pub put {ℓ} : {A : Type ℓ} → ℕ → A → (ℕ → A) → ℕ → A
put i v g j = if i == j then v else g j

abbrev pub start_at : List Chunk → ℕ → ℕ
start_at chunks i = elim (get_elem? chunks i) [ none ↦ 0 | some c ↦ c.start ]

-- a run with no temporary file of the right size: it is made anew, and the metadata removed
abbrev pub fresh_pool : List Chunk → Pool
fresh_pool chunks = record {
  file = λ k. 0;
  cursor = start_at chunks;
  done = λ i. false;
  saved = [];
}

-- a run that finds the temporary file and the metadata of the same download
abbrev pub resumed : List Chunk → Pool → Pool
resumed chunks s = record s { cursor = start_at chunks; done = λ i. elem i s.saved }

-- The steps, where what the server sends are bytes of `content`. A chunk is marked as done when the body
-- of an answer has ended, which it may wherever `Ends` has it, also before the end of the range: the
-- code does not look how much has come.
pub data PoolStep (Ends : Ending) (content : ℕ → ℕ) (chunks : List Chunk)
    : Pool → Pool → Type 0 where
  begin_chunk :
      (s : Pool) (i : ℕ) (c : Chunk)
      → get_elem? chunks i ≡ some c
      → s.done i ≡ false
      → PoolStep Ends content chunks s (record s { cursor = put i c.start s.cursor })
  write_block :
      (s : Pool) (i : ℕ) (c : Chunk) (bs : List ℕ)
      → get_elem? chunks i ≡ some c
      → s.done i ≡ false
      → IsSlice content (s.cursor i) bs
      → PoolStep Ends content chunks s (record s {
        file = write_at (s.cursor i) bs s.file;
        cursor = put i (s.cursor i + length bs) s.cursor;
      })
  complete_chunk :
      (s : Pool) (i : ℕ) (c : Chunk)
      → get_elem? chunks i ≡ some c
      → Ends c (s.cursor i)
      → PoolStep Ends content chunks s (record s { done = put i true s.done })
  save_indices :
      (s : Pool) (is : List ℕ)
      → ((i : ℕ) → elem i is ≡ true → s.done i ≡ true)
      → PoolStep Ends content chunks s (record s { saved = is })
  resume_run : (s : Pool) → PoolStep Ends content chunks s (resumed chunks s)
  start_anew : (s : Pool) → PoolStep Ends content chunks s (fresh_pool chunks)

pub data Reach (Ends : Ending) (content : ℕ → ℕ) (chunks : List Chunk) (s : Pool)
    : Pool → Type 0 where
  here : Reach Ends content chunks s s
  next :
      {t u : Pool}
      → Reach Ends content chunks s t
      → PoolStep Ends content chunks t u
      → Reach Ends content chunks s u
