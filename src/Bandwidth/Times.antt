-- ===== src/Bandwidth/Times.antt =====
-- core/bandwidth_scheduler.py: the texts of times, and the ranges of times.
use hyper_loader.Prelude.{
  ℕ, Bool, Bool-cases, Result, [], arith, false, inl, inr, negsuc, not, ok, pos, raise, refl, strip,
  suc, true, zero, ℤ, ◌&&◌, ◌<◌, ◌==◌, ◌∷◌, ◌≡◌, ◌≢◌, is_space, ◌%◌, ◌+◌, ◌/◌,
}
use hyper_loader.Bandwidth.Clock.{
  split_colon, int, two_digits, time_text, hour_minute, text_of, normalize_time_text, clock,
  clock_of, parse_time, time_in_range, end_of_day, is_midnight, in_day,
}

-- the texts of two digits, read back
reads_back : Result ℤ → ℕ → Bool
reads_back (ok (pos m)) n = m == n
reads_back r n = false

all_below : (ℕ → Bool) → ℕ → Bool
all_below test zero = true
all_below test (suc n) = test n && all_below test n

all_below-at : (test : ℕ → Bool) (n k : ℕ) → all_below test n ≡ true → k < n → test k ≡ true
unfolding all_below
all_below-at test zero k h lt = absurd (omega arith)
all_below-at test (suc n) k h lt = elim (Bool-cases (k == n)) [
  | inl e ↦ let same : k ≡ n = ground arith in rw same (ground arith)
  | inr e ↦ all_below-at test n k (ground arith) (ground arith)
]

reads_back-ok : (r : Result ℤ) (n : ℕ) → reads_back r n ≡ true → r ≡ ok (pos n)
unfolding reads_back
reads_back-ok (ok (pos m)) n h = let same : m ≡ n = ground arith in rw same refl
reads_back-ok (ok (negsuc m)) n h = absurd (ground arith)
reads_back-ok (raise e) n h = absurd (ground arith)

two_digits_read : all_below (λ n. reads_back (int (two_digits n)) n) 60 ≡ true
unfolding all_below reads_back int
two_digits_read = refl

int-two_digits : (n : ℕ) → n < 60 → int (two_digits n) ≡ ok (pos n)
int-two_digits n h =
    reads_back-ok _ n (all_below-at (λ n. reads_back (int (two_digits n)) n) 60 n two_digits_read h)

digit_not_colon : (x : ℕ) → x < 10 → (48 + x == 58) ≡ false
digit_not_colon x h = ground arith

div_small : (n : ℕ) → n < 60 → n / 10 < 10
div_small n h = omega arith

mod_small : (n : ℕ) → n % 10 < 10
mod_small n = omega arith

split_colon-time_text :
    (h m : ℕ) → h < 60 → m < 60 → split_colon (time_text h m) ≡ two_digits h ∷ two_digits m ∷ []
unfolding split_colon
split_colon-time_text h m hl ml =
    rw
      (
        digit_not_colon (h / 10) (div_small h hl),
        digit_not_colon (h % 10) (mod_small h),
        digit_not_colon (m / 10) (div_small m ml),
        digit_not_colon (m % 10) (mod_small m),
      )
      refl

digit_not_space : (x : ℕ) → x < 10 → is_space (48 + x) ≡ false
unfolding is_space
digit_not_space x h = ground arith

strip-time_text : (h m : ℕ) → h < 60 → m < 60 → strip (time_text h m) ≡ time_text h m
unfolding strip
strip-time_text h m hl ml =
    rw (digit_not_space (h / 10) (div_small h hl), digit_not_space (m % 10) (mod_small m)) refl

hour_minute-time_text :
    (h m : ℕ) → h < 60 → m < 60 → hour_minute (split_colon (time_text h m)) ≡ ok (pos h, pos m)
unfolding hour_minute
hour_minute-time_text h m hl ml =
    rw (split_colon-time_text h m hl ml, int-two_digits h hl, int-two_digits m ml) refl

in_day-bounds : (h m : ℕ) → in_day h m ≡ true → (h < 60) × (m < 60) × (is_midnight h m ≡ false)
in_day-bounds h m day = ground arith

normalize_time_text-time_text :
    (h m : ℕ) → in_day h m ≡ true → normalize_time_text (time_text h m) ≡ ok (time_text h m)
unfolding normalize_time_text text_of
normalize_time_text-time_text h m day =
    let (hl, ml, not_end) = in_day-bounds h m day in
    rw (strip-time_text h m hl ml, hour_minute-time_text h m hl ml, not_end, day) refl

-- The text of every minute of the day is normal, and is read as the time of that minute.
pub parse_time-time_text :
    (h m : ℕ)
    → in_day h m ≡ true
    → (normalize_time_text (time_text h m) ≡ ok (time_text h m))
      × (parse_time (time_text h m) ≡ ok (clock h m 0))
unfolding parse_time clock_of
parse_time-time_text h m day =
    let same = normalize_time_text-time_text h m day in
    let (hl, ml, not_end) = in_day-bounds h m day in
    (same, rw (same, hour_minute-time_text h m hl ml, not_end, day) refl)

-- A range between two different times before the last second of the day, and the range from its end
-- to its start, divide the day: each time is in exactly one of them.
pub time_in_range_divides :
    (start end now : ℕ)
    → start ≢ end
    → start < end_of_day
    → end < end_of_day
    → time_in_range end start now ≡ not (time_in_range start end now)
unfolding time_in_range
time_in_range_divides start end now h k l = ground arith
