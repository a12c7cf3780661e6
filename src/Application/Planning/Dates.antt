-- ===== src/Application/Planning/Dates.antt =====
-- The dates and times of events in src/application/planning.rs. A text is taken by its bytes.
use community_stack.Common.{
  ℕ, suc, zero, ◌+◌, ◌*◌, ◌-◌, ◌%◌, String, len, as_bytes, all_chars, is_ascii_digit,
  is_ascii_alphanumeric, Bool, true, false, not, ◌&&◌, ◌||◌, List, [], ◌∷◌, Option, none, some, ltb,
  leb, ◌==◌, str_eq, if◌then◌else◌, length, take, drop, any,
}
use community_stack.Common.Int.{leb_ℤ}
use community_stack.Domain.Planning.{EventTiming}
use community_stack.Failure.{Check, Result, bail, context, reject, or_fail, ◌>>=◌, ◌>>◌}

-- `bytes[index]`, of a list that is long enough.
abbrev pub byte_at : ℕ → List ℕ → ℕ
byte_at index [] = 0
byte_at zero (b ∷ bs) = b
byte_at (suc index) (b ∷ bs) = byte_at index bs

-- The digits of a number that has come to `n`, up to `bound`.
unfoldable pub parse_digits : ℕ → ℕ → List ℕ → Option ℕ
parse_digits bound n [] = some n
parse_digits bound n (b ∷ bs) =
    let m = 10 * n + (b - 48) in
    let rest = parse_digits bound m bs in if is_ascii_digit b && leb m bound then rest else none

-- `str::parse::<u16>` and `<u8>`: digits, with a `+` before them if there is one.
unfoldable pub parse : ℕ → List ℕ → Option ℕ
unfolding parse_digits
parse bound [] = none
parse bound (b ∷ []) = parse_digits bound 0 (b ∷ [])
parse bound (b ∷ c ∷ bs) =
    if b == 43 then parse_digits bound 0 (c ∷ bs) else parse_digits bound 0 (b ∷ c ∷ bs)

abbrev pub is_leap : ℕ → Bool
is_leap year = year % 4 == 0 && (not (year % 100 == 0) || year % 400 == 0)

-- The `match month`.
unfoldable pub max_day : ℕ → Bool → Option ℕ
max_day month leap =
    if any (λ m. m == month) (1 ∷ 3 ∷ 5 ∷ 7 ∷ 8 ∷ 10 ∷ 12 ∷ [])
    then some 31
    else if any (λ m. m == month) (4 ∷ 6 ∷ 9 ∷ 11 ∷ [])
    then some 30
    else if month == 2
    then some (if leap then 29 else 28)
    else none

abbrev pub u16_max : ℕ
u16_max = 65535

abbrev pub u8_max : ℕ
u8_max = 255

-- `text.parse().context(message)?`; what the library's error says is left out.
abbrev pub parsed : Option ℕ → String → Result ℕ
parsed o message = or_fail o (context message (bail ""))

unfoldable pub validate_date : String → Check
unfolding parse max_day
validate_date value = do
  let bytes = as_bytes value
  reject (not (length bytes == 10) || not (byte_at 4 bytes == 45) || not (byte_at 7 bytes == 45))
      (bail "dates must use YYYY-MM-DD")
  year ← parsed (parse u16_max (take 4 bytes)) "invalid date year"
  month ← parsed (parse u8_max (take 2 (drop 5 bytes))) "invalid date month"
  day ← parsed (parse u8_max (take 2 (drop 8 bytes))) "invalid date day"
  last ← or_fail (max_day month (is_leap year)) (bail "invalid date month")
  reject (day == 0 || ltb last day) (bail "invalid date day")

-- `a < b` of texts, by their bytes.
unfoldable pub bytes_lt : List ℕ → List ℕ → Bool
bytes_lt [] [] = false
bytes_lt [] (b ∷ bs) = true
bytes_lt (a ∷ as') [] = false
bytes_lt (a ∷ as') (b ∷ bs) = ltb a b || (a == b && bytes_lt as' bs)

-- `b'/' | b'_' | b'-' | b'+'`
abbrev pub is_zone_char : ℕ → Bool
is_zone_char c = is_ascii_alphanumeric c || c == 47 || c == 95 || c == 45 || c == 43

unfoldable pub is_time_zone : String → Bool
is_time_zone zone =
    str_eq zone "UTC"
    || (not (all_chars (λ c. not (c == 47)) zone)
        && leb (len zone) 128
        && all_chars is_zone_char zone)

unfoldable pub validate_timing : EventTiming → Check
unfolding validate_date bytes_lt is_time_zone
validate_timing (EventTiming.all_day start finish) = do
  validate_date start
  validate_date finish
  reject (not (bytes_lt (as_bytes start) (as_bytes finish)))
      (bail "all-day end_date_exclusive must follow start_date")
validate_timing (EventTiming.utc start finish zone) = do
  reject (leb_ℤ finish start) (bail "timed event end_at_ms must follow start_at_ms")
  reject (not (is_time_zone zone)) (bail "time_zone must be UTC or a bounded IANA-style identifier")
