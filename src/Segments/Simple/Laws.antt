-- ===== src/Segments/Simple/Laws.antt =====
-- core/download_providers_oop/segmented_provider.py: what `_download_simple` leaves as the finished file.
use hyper_loader.Prelude.{
  ℕ, Bool, Bool-cases, Error, List, Option, Text, [], arith, false, inl, inr, length, none, not,
  refl, some, true, ◌+◌, ◌<◌, ◌==◌, ◌||◌, ◌∷◌, ◌≡◌, ◌≢◌, ◌≤◌, ◌⊎◌, suc, zero,
}
use hyper_loader.Segments.Chunks.{Chunk}
use hyper_loader.Segments.Fetch.{
  File, Read, block, broken, Outcome, finished, failed, Fetched, read_loop, write_at,
}
use hyper_loader.Segments.Fetch.Laws.{Sends, Filled, read_loop_whole}
use hyper_loader.Segments.Simple.{
  Disk, DiskFile, Stream, Answer, answered, refused, give_up, keep_or_cancel, after_loop, receive,
  restart, first_answer, ignores_range, download_simple, load_simple_resume_state, opened, range_of,
  grown,
}

-- Once the cancel event is set it stays set.
abbrev pub Stays : (ℕ → Bool) → Type 0
Stays cancel = (n : ℕ) → not (cancel n) || cancel (n + 1) ≡ true

-- what the server sends at a request: the content from the offset it was asked for, with the status 206,
-- or the whole content
abbrev pub Streams : (ℕ → ℕ) → Chunk → Option ℕ → Answer → Type 0
Streams content c range (refused e) = Unit
Streams content c none (answered r) = Sends content c 0 r.reads
Streams content c (some n) (answered r) = (r.status == 206 ≡ false) ⊎ Sends content c n r.reads

read_loop-counted :
    (content : ℕ → ℕ) (c : Chunk) (cancel : ℕ → Bool) (reads : List Read) (offset p : ℕ) (f : File)
    → Sends content c offset reads
    → (read_loop cancel reads offset p offset f).outcome ≡ finished
    → (read_loop cancel reads offset p offset f).counted ≡ c.end + 1
unfolding read_loop
read_loop-counted content c cancel [] offset p f sent done = sent
read_loop-counted content c cancel (broken e ∷ reads) offset p f sent done = absurd (ground arith)
read_loop-counted content c cancel (block bs ∷ reads) offset p f sent done =
    elim (Bool-cases (cancel p)) [
      | inl stop ↦ let h = rw stop at done in cc
      | inr go ↦ rw go (
          read_loop-counted content c cancel reads (offset + length bs) (p + 1)
            (write_at offset bs f) sent.2 (rw go at done))
    ]

-- a loop that stops early was cancelled, or failed
abbrev Stopped : (ℕ → Bool) → Fetched → Type 0
Stopped cancel r =
    (r.outcome ≡ finished) ⊎ ((e : Error) × (r.outcome ≡ failed e)) ⊎ (cancel r.polls ≡ true)

read_loop-Stopped :
    (cancel : ℕ → Bool) (reads : List Read) (offset p n : ℕ) (f : File)
    → Stays cancel
    → Stopped cancel (read_loop cancel reads offset p n f)
unfolding read_loop
read_loop-Stopped cancel [] offset p n f stays = elim (Bool-cases (cancel p)) [
  | inl stop ↦ rw stop (inr (inr (ground (arith, stays p, stop))))
  | inr go ↦ rw go (inl refl)
]
read_loop-Stopped cancel (broken e ∷ reads) offset p n f stays = elim (Bool-cases (cancel p)) [
  | inl stop ↦ rw stop (inr (inr (ground (arith, stays p, stop))))
  | inr go ↦ rw go (inr (inl (e, refl)))
]
read_loop-Stopped cancel (block bs ∷ reads) offset p n f stays = elim (Bool-cases (cancel p)) [
  | inl stop ↦ rw stop (inr (inr (ground (arith, stays p, stop))))
  | inr go ↦ rw go (
      read_loop-Stopped cancel reads (offset + length bs) (p + 1) (n + length bs)
        (write_at offset bs f) stays)
]

after_loop-true :
    (o : Outcome) (stop : Bool) (url : Text) (d : Disk)
    → (after_loop o stop url d).1 ≡ true
    → (stop ≡ false) × ((e : Error) → o ≢ failed e) × ((after_loop o stop url d).0.out ≡ d.tmp)
unfolding after_loop keep_or_cancel give_up
after_loop-true (failed e) stop url d h = cc
after_loop-true Outcome.finished false url d h = (refl, λ e k. cc, refl)
after_loop-true Outcome.cancelled false url d h = (refl, λ e k. cc, refl)
after_loop-true Outcome.range_error false url d h = (refl, λ e k. cc, refl)
after_loop-true Outcome.finished true url d h = cc
after_loop-true Outcome.cancelled true url d h = cc
after_loop-true Outcome.range_error true url d h = cc

-- the finished file is the content
abbrev pub IsCopy : (ℕ → ℕ) → Chunk → Disk → Type 0
IsCopy content c d =
    (f : DiskFile) × (d.out ≡ some f)
    × (f.size ≡ c.end + 1)
    × ((k : ℕ) → k < c.end + 1 → f.bytes k ≡ content k)

module _ (content : ℕ → ℕ) (c : Chunk) (zero_start : c.start ≡ 0) (cancel : ℕ → Bool)
    (stays : Stays cancel) (url : Text) where
  receive-IsCopy :
      (r : Stream) (offset hint : ℕ) (d : Disk)
      → Sends content c offset r.reads
      → Filled content c offset (opened offset d.tmp).bytes
      → (opened offset d.tmp).size ≤ c.end + 1
      → (receive cancel url r offset hint d).1 ≡ true
      → IsCopy content c (receive cancel url r offset hint d).0
  unfolding receive
  receive-IsCopy r offset hint d sent before small success =
      let f = opened offset d.tmp in
      let run = read_loop cancel r.reads offset 0 offset f.bytes in
      let (going, survives, out) = after_loop-true run.outcome (cancel run.polls) url _ success in
      elim (read_loop-Stopped cancel r.reads offset 0 offset f.bytes stays) [
        | inl done ↦
            let count = read_loop-counted content c cancel r.reads offset 0 f.bytes sent done in
            (
              grown f run.counted run.file,
              out,
              omega arith,
              λ k lt.
                  read_loop_whole content c cancel r.reads offset 0 offset f.bytes (omega arith)
                    sent before done k (omega arith) lt,
            )
        | inr (inl (e, broke)) ↦ absurd (survives e broke)
        | inr (inr stop) ↦ cc
      ]

  opened-zero :
      (t : Option DiskFile)
      → Filled content c 0 (opened 0 t).bytes × ((opened 0 t).size ≤ c.end + 1)
  unfolding opened
  opened-zero t = (λ k from lt. absurd (omega arith), omega arith)

  restart-IsCopy :
      (a : Answer) (hint : ℕ) (d : Disk)
      → Streams content c none a
      → (restart cancel url a hint d).1 ≡ true
      → IsCopy content c (restart cancel url a hint d).0
  unfolding restart give_up
  restart-IsCopy (refused e) hint d sent success = cc
  restart-IsCopy (answered r) hint d sent success = elim (Bool-cases r.host_ok) [
    | inl trusted ↦
        rw (trusted, restart)
          (receive-IsCopy r 0 hint (record d { tmp = none }) sent (opened-zero none).0
            (opened-zero none).1 (rw (trusted, restart) at success))
    | inr unsafe ↦ let h = rw (unsafe, restart) at success in cc
  ]

  honoured-Sends :
      (r : Stream) (offset : ℕ)
      → ignores_range r offset ≡ false
      → Streams content c (range_of offset) (answered r)
      → Sends content c offset r.reads
  unfolding ignores_range
  honoured-Sends r zero honoured sent = sent
  honoured-Sends r (suc n) honoured sent = elim sent [
    | inl other ↦ absurd (ground (arith, honoured, other))
    | inr sends ↦ sends
  ]

  -- what is kept of an earlier run: as many bytes of the content as the next request skips
  abbrev pub Keeps : ℕ → Option DiskFile → Type 0
  Keeps offset t =
      Filled content c offset (opened offset t).bytes × ((opened offset t).size ≤ c.end + 1)

  first_answer-IsCopy :
      (a b : Answer) (offset hint : ℕ) (d : Disk)
      → Streams content c (range_of offset) a
      → Streams content c none b
      → Keeps offset d.tmp
      → (first_answer cancel url a b offset hint d).1 ≡ true
      → IsCopy content c (first_answer cancel url a b offset hint d).0
  unfolding first_answer give_up ignores_range
  first_answer-IsCopy (refused e) b offset hint d sent sent' kept success = cc
  first_answer-IsCopy (answered r) b offset hint d sent sent' kept success =
      elim (Bool-cases r.host_ok) [
        | inl trusted ↦ elim (Bool-cases (ignores_range r offset)) [
          | inl ignored ↦
              rw (trusted, ignored, first_answer)
                (restart-IsCopy b hint d sent' (rw (trusted, ignored, first_answer) at success))
          | inr honoured ↦
              rw (trusted, honoured, first_answer)
                (receive-IsCopy r offset hint d (honoured-Sends r offset honoured sent) kept.0
                  kept.1 (rw (trusted, honoured, first_answer) at success))
        ]
        | inr unsafe ↦ let h = rw (unsafe, first_answer) at success in cc
      ]

  -- Where what is kept of an earlier run are bytes of the content, and every answer of the server that
  -- does not ignore the range sends the content from the position asked for, a simple download that
  -- succeeds leaves exactly the content, whether it was resumed, restarted because the server ignored
  -- the range, or begun anew.
  pub download_simple-IsCopy :
      (serve : ℕ → Option ℕ → Answer) (d : Disk)
      → ((n : ℕ) (range : Option ℕ) → Streams content c range (serve n range))
      → Keeps (load_simple_resume_state d.tmp d.payload url).0 d.tmp
      → (download_simple cancel url serve d).1 ≡ true
      → IsCopy content c (download_simple cancel url serve d).0
  unfolding download_simple
  download_simple-IsCopy serve d sent kept =
      let (offset, hint) = load_simple_resume_state d.tmp d.payload url in
      first_answer-IsCopy (serve 0 (range_of offset)) (serve 1 none) offset hint d
        (sent 0 (range_of offset)) (sent 1 none) kept
