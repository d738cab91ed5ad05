-- ===== src/Bandwidth/Clock.antt =====
-- core/bandwidth_scheduler.py: `_parse_time`, `_normalize_time_text` and `_time_in_range`. A time of
-- day counts microseconds from midnight; `int` is read on ASCII digits.
use hyper_loader.Prelude.{
  ℕ, Text, Bool, List, Result, [], codes, false, if◌then◌else◌, leb, ltb, negsuc, ok, pos, raise,
  strip, suc, true, value_error, zero, ℤ, ◌%◌, ◌&&◌, ◌*◌, ◌++◌, ◌+◌, ◌-◌, ◌/◌, ◌==◌, ◌>>=◌, ◌||◌,
  ◌∷◌,
}

-- `str.split(":")`
abbrev first_part : List Text → ℕ → List Text
first_part [] c = (c ∷ []) ∷ []
first_part (p ∷ ps) c = (c ∷ p) ∷ ps

unfoldable pub split_colon : Text → List Text
split_colon [] = [] ∷ []
split_colon (c ∷ s) = let rest = split_colon s in if c == b':' then [] ∷ rest else first_part rest c

abbrev pub is_digit : ℕ → Bool
is_digit c = leb b'0' c && leb c b'9'

-- `int` of digits, with single underscores between them; the flag says that a digit stands before
unfoldable pub digits : Bool → ℕ → Text → Result ℕ
digits true acc [] = ok acc
digits false acc [] = raise value_error
digits after acc (c ∷ s) =
    let rest = digits (is_digit c) (if is_digit c then acc * 10 + (c - b'0') else acc) s in
    if is_digit c || c == b'_' && after then rest else raise value_error

negate : ℕ → ℤ
negate zero = pos 0
negate (suc n) = negsuc n

unfoldable pub signed : Text → Result ℤ
unfolding digits negate
signed [] = raise value_error
signed (c ∷ s) =
    if c == b'-'
    then (do n ← digits false 0 s; ok (negate n))
    else if c == b'+'
    then (do n ← digits false 0 s; ok (pos n))
    else (do n ← digits false 0 (c ∷ s); ok (pos n))

unfoldable pub int : Text → Result ℤ
unfolding signed strip
int t = signed (strip t)

-- `f"{n:02d}"` for n below 100
abbrev pub two_digits : ℕ → Text
two_digits n = (b'0' + n / 10) ∷ (b'0' + n % 10) ∷ []

abbrev pub time_text : ℕ → ℕ → Text
time_text hour minute = two_digits hour ++ b':' ∷ two_digits minute

abbrev pub is_midnight : ℕ → ℕ → Bool
is_midnight hour minute = hour == 24 && minute == 0

abbrev pub in_day : ℕ → ℕ → Bool
in_day hour minute = leb hour 23 && leb minute 59

-- the two numbers of a text that is split in two parts
unfoldable pub hour_minute : List Text → Result (ℤ × ℤ)
unfolding int
hour_minute (h ∷ m ∷ []) = do hour ← int h; minute ← int m; ok (hour, minute)
hour_minute parts = raise value_error

unfoldable pub text_of : ℤ × ℤ → Result Text
text_of (pos hour, pos minute) =
    if is_midnight hour minute
    then ok (codes "24:00")
    else if in_day hour minute
    then ok (time_text hour minute)
    else raise value_error
text_of other = raise value_error

unfoldable pub normalize_time_text : Text → Result Text
unfolding split_colon hour_minute text_of strip
normalize_time_text t = do hm ← hour_minute (split_colon (strip t)); text_of hm

-- `time(hour, minute, second)`
abbrev pub clock : ℕ → ℕ → ℕ → ℕ
clock hour minute second = ((hour * 60 + minute) * 60 + second) * 1000000

-- the time that stands for the end of the day
abbrev pub end_of_day : ℕ
end_of_day = clock 23 59 59

unfoldable pub clock_of : ℤ × ℤ → Result ℕ
clock_of (pos hour, pos minute) =
    if is_midnight hour minute
    then ok end_of_day
    else if in_day hour minute
    then ok (clock hour minute 0)
    else raise value_error
clock_of other = raise value_error

unfoldable pub parse_time : Text → Result ℕ
unfolding normalize_time_text split_colon hour_minute clock_of
parse_time t = do s ← normalize_time_text t; hm ← hour_minute (split_colon s); clock_of hm

unfoldable pub time_in_range : ℕ → ℕ → ℕ → Bool
time_in_range start end now =
    if leb start end
    then (if end == end_of_day then leb start now && leb now end else leb start now && ltb now end)
    else leb start now || ltb now end
