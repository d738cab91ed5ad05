-- ===== src/Segments/Chunks.antt =====
-- core/download_providers_oop/segmented_provider.py: the number of connections, the size of the chunks,
-- and the plan of chunks that `_download_segmented` builds.
use hyper_loader.Prelude.{
  ℕ, Bool-cases, List, [], arith, get_elem?, if◌then◌else◌, inl, inr, leb, leb→le, ltb, ltb-le,
  ltb→lt, max, min, refl, some, suc, zero, ◌*◌, ◌+◌, ◌-◌, ◌/◌, ◌<◌, ◌==◌, ◌||◌, ◌∷◌, ◌≡◌, ◌≤◌,
}

-- `_Chunk`, with the inclusive end
pub record Chunk : Type 0 where
  pub index : ℕ
  pub start : ℕ
  pub end : ℕ

abbrev pub mib : ℕ
mib = 1048576

abbrev pub default_connections : ℕ
default_connections = 8

abbrev pub max_connections : ℕ
max_connections = 16

abbrev pub min_chunk_bytes : ℕ
min_chunk_bytes = 524288

abbrev pub default_chunk_bytes : ℕ
default_chunk_bytes = 2097152

abbrev pub max_chunk_bytes : ℕ
max_chunk_bytes = 8388608

unfoldable pub compute_connections : ℕ → ℕ
compute_connections total =
    if total == 0
    then 1
    else if ltb total (5 * mib)
    then 2
    else if ltb total (20 * mib)
    then 4
    else if ltb total (100 * mib)
    then 8
    else min max_connections default_connections

unfoldable pub compute_chunk_size : ℕ → ℕ → ℕ
compute_chunk_size total connections =
    if total == 0 || leb connections 1
    then default_chunk_bytes
    else max min_chunk_bytes (min max_chunk_bytes (total / (connections * 4)))

-- `while offset < total_bytes`; each round advances by a byte at least, so `total` rounds are enough
unfoldable pub plan_from : ℕ → ℕ → ℕ → ℕ → ℕ → List Chunk
plan_from zero size total idx offset = []
plan_from (suc fuel) size total idx offset =
    let end = min (offset + size - 1) (total - 1) in
    let rest = plan_from fuel size total (idx + 1) (end + 1) in
    if ltb offset total then record { index = idx; start = offset; end = end } ∷ rest else []

unfoldable pub plan_of : ℕ → ℕ → List Chunk
unfolding plan_from
plan_of size total = plan_from total size total 0 0

-- the plan of a download
unfoldable pub chunk_plan : ℕ → List Chunk
unfolding plan_of compute_chunk_size compute_connections
chunk_plan total = plan_of (compute_chunk_size total (compute_connections total)) total

-- The chunks from the index `idx` on cover the bytes from `offset` to `total`, one after the other, with no
-- gap and no overlap, each with a byte at least and `size` at most.
abbrev pub Tiles : ℕ → ℕ → ℕ → ℕ → List Chunk → Type 0
Tiles size total idx offset [] = offset ≡ total
Tiles size total idx offset (c ∷ cs) =
    (c.index ≡ idx)
    × (c.start ≡ offset)
    × (offset ≤ c.end)
    × (c.end < total)
    × (c.end + 1 ≤ offset + size)
    × Tiles size total (idx + 1) (c.end + 1) cs

plan_from-Tiles :
    (fuel size total idx offset : ℕ)
    → 1 ≤ size
    → offset ≤ total
    → total ≤ offset + fuel
    → Tiles size total idx offset (plan_from fuel size total idx offset)
unfolding plan_from
plan_from-Tiles zero size total idx offset h le enough = omega arith
plan_from-Tiles (suc fuel) size total idx offset h le enough =
    let end = min (offset + size - 1) (total - 1) in
    elim (Bool-cases (ltb offset total)) [
      | inl more ↦
          let lt = ltb→lt offset total more in
          rw more (
            refl,
            refl,
            omega arith,
            omega arith,
            omega arith,
            plan_from-Tiles fuel size total (idx + 1) (end + 1) h (omega arith) (omega arith),
          )
      | inr all ↦ let le' = ltb-le offset total all in rw all (omega arith)
    ]

compute_chunk_size-pos : (total connections : ℕ) → 1 ≤ compute_chunk_size total connections
unfolding compute_chunk_size
compute_chunk_size-pos total connections = ground arith

-- The plan of a download tiles the file: the chunks are numbered from 0 and cover its bytes in order,
-- with no gap and no overlap, and none is longer than the size computed for them.
pub chunk_plan-Tiles :
    (total : ℕ)
    → Tiles (compute_chunk_size total (compute_connections total)) total 0 0 (chunk_plan total)
unfolding chunk_plan plan_of
chunk_plan-Tiles total =
    plan_from-Tiles total _ total 0 0 (compute_chunk_size-pos total (compute_connections total))
      (omega arith) (omega arith)

-- every byte of the file lies in a chunk
pub byte_in_chunk :
    (size total idx offset : ℕ) (cs : List Chunk) (k : ℕ)
    → Tiles size total idx offset cs
    → offset ≤ k
    → k < total
    → (i : ℕ) × (c : Chunk) × (get_elem? cs i ≡ some c) × (c.start ≤ k) × (k ≤ c.end)
byte_in_chunk size total idx offset [] k t le lt = absurd (omega arith)
byte_in_chunk size total idx offset (c ∷ cs) k t le lt = elim (Bool-cases (leb k c.end)) [
  | inl inside ↦ (0, c, refl, omega arith, leb→le k c.end inside)
  | inr after ↦
      let (i, d, there, from, to) =
        byte_in_chunk size total (idx + 1) (c.end + 1) cs k t.5 (ground arith) lt in
      (suc i, d, there, from, to)
]
