-- ===== src/Segments/Simple.antt =====
-- core/download_providers_oop/segmented_provider.py: `_download_simple`, one stream that can be resumed,
-- with its metadata. `serve n range` is what the server does at request `n`, with the offset that is
-- asked for; `cancel n` is what the `n`-th look at the cancel event finds. The saves inside the loop
-- are left out, as the one after it replaces them.
pub mod Laws
use hyper_loader.Prelude.{
  ℕ, Bool, Error, List, Option, Text, [], codes, false, if◌then◌else◌, lower, ltb, max, min, none,
  not, ok, or_else, some, strip, suc, text_eq, true, zero, ◌&&◌, ◌+◌, ◌==◌, ◌>>=◌, ◌∷◌,
}
use hyper_loader.Task.{Num, num, bad, read}
use hyper_loader.Segments.Ranges.{digits_from, number}
use hyper_loader.Segments.Fetch.{
  File, Read, Outcome, finished, cancelled, failed, Fetched, read_loop,
}

-- the dictionary of the metadata
pub record SimpleMeta : Type 0 where
  pub mode : Text
  pub url : Text
  pub downloaded_bytes : Num
  pub total_bytes : Num

-- what is read of the metadata's file
pub data Payload : Type 0 where
  unreadable other_value : Payload
  object : SimpleMeta → Payload

-- a file on the disk
pub record DiskFile : Type 0 where
  pub size : ℕ
  pub bytes : File

abbrev hint_or : ℕ → ℕ → ℕ
hint_or zero size = size
hint_or (suc n) size = suc n

-- the two numbers, or the fallback where `int` raises
unfoldable pub offset_of : ℕ → SimpleMeta → ℕ × ℕ
unfolding read
offset_of size m =
    or_else
      (do
        total ← read m.total_bytes
        done ← read m.downloaded_bytes
        ok (min size (hint_or done size), total))
      (size, 0)

unfoldable pub resume_from : ℕ → Payload → Text → ℕ × ℕ
unfolding offset_of text_eq lower strip
resume_from size unreadable url = (size, 0)
resume_from size other_value url = (0, 0)
resume_from size (object m) url =
    if text_eq (lower (strip m.mode)) (codes "simple") && text_eq (strip m.url) (strip url)
    then offset_of size m
    else (0, 0)

-- `_load_simple_resume_state`
unfoldable pub load_simple_resume_state : Option DiskFile → Payload → Text → ℕ × ℕ
unfolding resume_from
load_simple_resume_state none payload url = (0, 0)
load_simple_resume_state (some f) payload url =
    if f.size == 0 then (0, 0) else resume_from f.size payload url

-- `_save_simple_resume_state`
unfoldable pub save_simple_resume_state : Text → ℕ → ℕ → Payload
save_simple_resume_state url downloaded total = object (record {
  mode = codes "simple";
  url = url;
  downloaded_bytes = num downloaded;
  total_bytes = num total;
})

-- an answer; `host_ok` says that the checks of the final host and of the peer's address pass
pub record Stream : Type 0 where
  pub status : ℕ
  pub content_length : Text
  pub content_range : Text
  pub host_ok : Bool
  pub reads : List Read

-- `cl.isdigit()` and `int(cl)`
unfoldable pub digits_only : Text → Option ℕ
unfolding number text_eq
digits_only s = elim (number s) [
  | none ↦ none
  | some (n, rest) ↦ if text_eq rest [] then some n else none
]

-- `re.search(r"/(\d+)$", …)`
unfoldable pub total_after_slash : Text → Option ℕ
unfolding digits_only
total_after_slash [] = none
total_after_slash (c ∷ s) =
    let rest = total_after_slash s in
    if c == b'/' then elim (digits_only s) [ none ↦ rest | some n ↦ some n ] else rest

abbrev or_value : Option ℕ → ℕ → ℕ
or_value none d = d
or_value (some n) d = n

unfoldable pub total_of : Stream → ℕ → ℕ → ℕ
unfolding strip digits_only total_after_slash
total_of r offset hint =
    let cl = digits_only (strip r.content_length) in
    if r.status == 206 && ltb 0 offset
    then elim (total_after_slash (strip r.content_range)) [
      | some n ↦ n
      | none ↦ elim cl [ some n ↦ offset + n | none ↦ hint ]
    ]
    else or_value cl hint

-- what the call finds and leaves: the temporary file, the metadata, the finished file, and the counters
pub record Disk : Type 0 where
  pub tmp : Option DiskFile
  pub payload : Payload
  pub out : Option DiskFile
  pub downloaded : ℕ
  pub total : ℕ

-- the state and `(success, error)`, with the success alone
abbrev pub Done : Type 0
Done = Disk × Bool

-- the handlers of exceptions and of cancels, which save the counters
unfoldable pub give_up : Text → Disk → Done
unfolding save_simple_resume_state
give_up url d = (record d { payload = save_simple_resume_state url d.downloaded d.total }, false)

-- the file that is opened: "r+b" at the offset, or "wb"
unfoldable pub opened : ℕ → Option DiskFile → DiskFile
opened zero f = record { size = 0; bytes = λ k. 0 }
opened (suc n) none = record { size = 0; bytes = λ k. 0 }
opened (suc n) (some f) = f

-- the file after the loop, whose writes end at the position `n`
abbrev pub grown : DiskFile → ℕ → File → DiskFile
grown f n bytes = record { size = max f.size n; bytes = bytes }

-- after the loop: a cancel, or the replacement of the file
unfoldable pub keep_or_cancel : Bool → Text → Disk → Done
unfolding give_up
keep_or_cancel true url d = give_up url d
keep_or_cancel false url d = (record d { tmp = none; payload = unreadable; out = d.tmp }, true)

unfoldable pub after_loop : Outcome → Bool → Text → Disk → Done
unfolding give_up keep_or_cancel
after_loop (failed e) stop url d = give_up url d
after_loop o stop url d = keep_or_cancel stop url d

-- from the headers on, with the answer that is read
unfoldable pub receive : (ℕ → Bool) → Text → Stream → ℕ → ℕ → Disk → Done
unfolding total_of opened read_loop after_loop
receive cancel url r offset hint d =
    let f = opened offset d.tmp in
    let run = read_loop cancel r.reads offset 0 offset f.bytes in
    after_loop run.outcome (cancel run.polls) url (record d {
      tmp = some (grown f run.counted run.file);
      downloaded = run.counted;
      total = total_of r offset hint;
    })

pub data Answer : Type 0 where
  refused : Error → Answer
  answered : Stream → Answer

-- the second request, with no range, after which the temporary file is removed
unfoldable pub restart : (ℕ → Bool) → Text → Answer → ℕ → Disk → Done
unfolding give_up receive
restart cancel url (refused e) hint d = give_up url d
restart cancel url (answered r) hint d =
    if r.host_ok then receive cancel url r 0 hint (record d { tmp = none }) else give_up url d

-- the server does not honour the range
unfoldable pub ignores_range : Stream → ℕ → Bool
ignores_range r offset = ltb 0 offset && not (r.status == 206)

unfoldable pub first_answer : (ℕ → Bool) → Text → Answer → Answer → ℕ → ℕ → Disk → Done
unfolding give_up receive restart ignores_range
first_answer cancel url (refused e) second offset hint d = give_up url d
first_answer cancel url (answered r) second offset hint d =
    if not r.host_ok
    then give_up url d
    else if ignores_range r offset
    then restart cancel url second hint d
    else receive cancel url r offset hint d

-- the offset that is asked for
abbrev pub range_of : ℕ → Option ℕ
range_of zero = none
range_of (suc n) = some (suc n)

unfoldable pub download_simple : (ℕ → Bool) → Text → (ℕ → Option ℕ → Answer) → Disk → Done
unfolding load_simple_resume_state first_answer
download_simple cancel url serve d =
    let (offset, hint) = load_simple_resume_state d.tmp d.payload url in
    first_answer cancel url (serve 0 (range_of offset)) (serve 1 none) offset hint d
