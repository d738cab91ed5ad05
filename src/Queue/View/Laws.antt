-- ===== src/Queue/View/Laws.antt =====
-- core/queue_manager.py: the pages of `get_download_entries_page` are the slices of the list of all
-- matching entries.
use hyper_loader.Prelude.{
  >>=-eq-ok, List, Option, Text, [], arith, cons_if, length, none, ok, or_else, some, suc, ℕ, ◌++◌,
  ◌+◌, ◌∷◌, ◌≡◌, Bool-cases, ap, drop, inl, inr, max, refl, sym, take, ◌*◌, ◌-◌, ◌/◌, ◌<◌, ◌∙◌, ◌≤◌,
  leb, ◌⊎◌,
}
use mathlib.Core.List.{append-nil, append_assoc}
use native.Mathlib.Nat.{div-add-mod', suc-mul, mod-lt}
use hyper_loader.Task.{Task}
use hyper_loader.Queue.{Entry, Page}
use hyper_loader.Queue.View.{
  PageRequest, page_number, shown_status, scan_option, scan_shown, passes_media_filter, entry_of,
  Scan, no_scan, scan_from, page_of, memory_page, start_of, size_number,
}
use hyper_loader.Queue.View.Slices.{window, window-before, pages}

-- the status for the view, if the item is counted and its time can be read
abbrev pub shown_or_none : PageRequest → Task → Option Text
shown_or_none r t = or_else (shown_status r t) none

abbrev pub entry_if : PageRequest → ℕ → Task → Option Text → List Entry → List Entry
entry_if r idx t none l = l
entry_if r idx t (some s) l = cons_if (passes_media_filter r t) (entry_of t idx s) l

-- all entries that pass the filters, in the order of the queue
pub matching : PageRequest → ℕ → List Task → List Entry
matching r idx [] = []
matching r idx (t ∷ ts) = entry_if r idx t (shown_or_none r t) (matching r (suc idx) ts)

-- how the loop's variables relate to the list of matches that it has still to see
record Scanned (r : PageRequest) (c c' : Scan) (found : List Entry) : Type 0 where
  count : c'.matched_count ≡ c.matched_count + length found
  slice :
      c'.entries ≡ c.entries ++ window (start_of r) (size_number r.page_size) c.matched_count found
  split :
      c.summary_total ≡ c.summary_video + c.summary_audio
      → c'.summary_total ≡ c'.summary_video + c'.summary_audio

one_more : (n : ℕ) → n + 1 ≡ suc n
one_more n = omega arith

scan_step :
    (r : PageRequest) (idx : ℕ) (t : Task) (o : Option Text) (c c' : Scan) (found : List Entry)
    → Scanned r (scan_option r idx t o c) c' found
    → Scanned r c c' (entry_if r idx t o found)
unfolding scan_shown
scan_step r idx t none c c' found h = h
scan_step r idx t (some s) c c' found h = record {
  count = ground (arith, h.count);
  slice = elim (Bool-cases (passes_media_filter r t)) [
    | inl kept ↦ ground (
      arith,
      kept,
      h.slice,
      append_assoc c.entries (entry_of t idx s ∷ [])
          (window (start_of r) (size_number r.page_size) (suc c.matched_count) found),
      ap (λ (n : ℕ). window (start_of r) (size_number r.page_size) n found)
          (one_more c.matched_count),
    )
    | inr dropped ↦ ground (arith, dropped, h.slice)
  ];
  split = ground (arith, h.split);
}

scan_from-Scanned :
    (r : PageRequest) (idx : ℕ) (items : List Task) (c c' : Scan)
    → scan_from r idx items c ≡ ok c'
    → Scanned r c c' (matching r idx items)
unfolding scan_from matching
scan_from-Scanned r idx [] c c' h =
    let same : c ≡ c' = ground arith in
    rw (← same) (record { count = omega arith; slice = sym (append-nil c.entries); split = λ p. p })
scan_from-Scanned r idx (t ∷ ts) c c' h =
    let (shown, e, h') = >>=-eq-ok (shown_status r t) _ h in
    let rest = scan_from-Scanned r (suc idx) ts (scan_option r idx t shown c) c' h' in
    rw e (scan_step r idx t shown c c' (matching r (suc idx) ts) rest)

-- what a page says of the list of all matching entries
pub record IsPage (r : PageRequest) (found : List Entry) (p : Page) : Type 0 where
  pub entries : p.entries ≡ take (size_number r.page_size) (drop (start_of r) found)
  pub total_matches : p.total_matches ≡ length found
  pub enough_pages : length found ≤ p.total_pages * size_number r.page_size
  pub no_more_pages :
      (p.total_pages ≡ 1) ⊎ ((p.total_pages - 1) * size_number r.page_size < length found)
  pub in_range : (1 ≤ p.page) × (p.page ≤ p.total_pages)
  pub asked : page_number r.page ≤ p.total_pages → p.page ≡ page_number r.page
  pub beyond : p.total_pages < page_number r.page → p.page ≡ p.total_pages
  pub counts : p.all_count ≡ p.video_count + p.audio_count

size_number-pos : (n : ℕ) → 0 < size_number n
unfolding size_number
size_number-pos n = omega arith

ceiling : (n size : ℕ) → 0 < size → n ≤ max 1 ((n + size - 1) / size) * size
ceiling n size h =
    let k = (n + size - 1) / size in
    let whole = div-add-mod' (n + size - 1) size in
    let part = mod-lt (n + size - 1) h in
    let enough : n ≤ k * size = omega arith in let more : k ≤ max 1 k = omega arith in grind arith

no_waste :
    (n size : ℕ)
    → 0 < size
    → (let pages = max 1 ((n + size - 1) / size) in (pages ≡ 1) ⊎ ((pages - 1) * size < n))
no_waste n size h =
    let k = (n + size - 1) / size in
    let whole = div-add-mod' (n + size - 1) size in
    elim (Bool-cases (leb k 1)) [
      | inl one ↦ inl (ground (arith, one))
      | inr more ↦
          let several : 1 < k = ground (arith, more) in
          let same : max 1 k - 1 ≡ k - 1 = omega arith in
          let less : k ≡ suc (k - 1) = omega arith in
          let split : k * size ≡ (k - 1) * size + size =
            ap (λ m. m * size) less ∙ suc-mul (k - 1) size in
          inr (rw same (omega (arith, split, whole, several, h)))
    ]

page_number-pos : (n : ℕ) → 1 ≤ page_number n
unfolding page_number
page_number-pos n = omega arith

slice_from_zero :
    (start size : ℕ) (l : List Entry) → window start size 0 l ≡ take size (drop start l)
slice_from_zero start size l =
    let e : start - 0 ≡ start = omega arith in
    window-before start size 0 l (omega arith) ∙ ap (λ (n : ℕ). take size (drop n l)) e

count_eq :
    (r : PageRequest) (found : List Entry) (c : Scan)
    → Scanned r no_scan c found
    → c.matched_count ≡ length found
count_eq r found c h = omega (arith, h.count)

page_of-IsPage :
    (r : PageRequest) (found : List Entry) (c : Scan)
    → Scanned r no_scan c found
    → IsPage r found (page_of r c)
unfolding page_of
page_of-IsPage r found c h = record {
  entries = h.slice ∙ slice_from_zero (start_of r) (size_number r.page_size) found;
  total_matches = omega (arith, h.count);
  enough_pages =
      rw (← count_eq r found c h)
        (ceiling c.matched_count (size_number r.page_size) (size_number-pos r.page_size));
  no_more_pages =
      rw (← count_eq r found c h)
        (no_waste c.matched_count (size_number r.page_size) (size_number-pos r.page_size));
  in_range = (omega (arith, page_number-pos r.page), omega arith);
  asked = λ le. omega arith;
  beyond = λ lt. omega arith;
  counts = h.split refl;
}

-- A page in memory is the requested slice of the list of all matching entries, with their number;
-- there is one page, or just as many as hold all of them; the page's number is the one asked for, or
-- the last one where that is beyond it; and every counted item is counted as video or as audio.
pub memory_page-IsPage :
    (r : PageRequest) (items : List Task) (p : Page)
    → memory_page r items ≡ ok p
    → IsPage r (matching r 0 items) p
unfolding memory_page
memory_page-IsPage r items p h =
    let (c, e, same) = >>=-eq-ok (scan_from r 0 items no_scan) _ h in
    let is : page_of r c ≡ p = ground arith in
    rw (← is) (page_of-IsPage r (matching r 0 items) c (scan_from-Scanned r 0 items no_scan c e))
