-- ===== src/Application/Planning/DateOrder.antt =====
-- The order of the texts of two dates is the order of the dates, where no number has a sign.
use community_stack.Common.{
  ℕ, ◌<◌, ◌≤◌, ◌≡◌, ◌⊎◌, String, as_bytes, Bool, true, false, not, ◌||◌, Option, none, some, ltb,
  ◌==◌, arith, length, take, drop, any, ==_iff,
}
use community_stack.Failure.{Error, ok, bail, reject, or_fail, >>=-eq-ok, reject-eq-ok}
use community_stack.Application.Planning.Dates.{
  byte_at, parse, is_leap, max_day, u16_max, u8_max, parsed, validate_date,
}
use community_stack.Application.Planning.Digits.{is_plus}

-- The year, the month and the day that a text writes, of a date that there is.
pub record IsDate (s : String) (year month day : ℕ) : Type 0 where
  pub size : length (as_bytes s) ≡ 10
  pub year_ : parse u16_max (take 4 (as_bytes s)) ≡ some year
  pub month_ : parse u8_max (take 2 (drop 5 (as_bytes s))) ≡ some month
  pub day_ : parse u8_max (take 2 (drop 8 (as_bytes s))) ≡ some day
  pub dash : byte_at 4 (as_bytes s) ≡ 45
  pub dash' : byte_at 7 (as_bytes s) ≡ 45
  pub last : ℕ
  pub months : max_day month (is_leap year) ≡ some last
  pub first : 1 ≤ day
  pub bound : day ≤ last

or_fail-eq-ok : {A : Type 0} (o : Option A) (e : Error) {a : A} → or_fail o e ≡ ok a → o ≡ some a
or_fail-eq-ok none e h = cc
or_fail-eq-ok (some a) e h = cc

all_hold : (a b c : Bool) → (not a || not b || not c) ≡ false → (a ≡ true) × (b ≡ true) × (c ≡ true)
all_hold a b c h = (ground arith, ground arith, ground arith)

day_bounds : (d l : ℕ) → (d == 0 || ltb l d) ≡ false → (1 ≤ d) × (d ≤ l)
day_bounds d l h = (ground arith, ground arith)

-- An accepted text is a date of the calendar.
pub accepted-IsDate :
    (s : String)
    → validate_date s ≡ ok tt
    → (year : ℕ) × (month : ℕ) × (day : ℕ) × IsDate s year month day
unfolding validate_date
accepted-IsDate s e =
    let bs = as_bytes s in
    let (u₀, a₀, e₀) =
      >>=-eq-ok
        (reject (not (length bs == 10) || not (byte_at 4 bs == 45) || not (byte_at 7 bs == 45))
          (bail "dates must use YYYY-MM-DD"))
        _ e in
    let (y, a₁, e₁) = >>=-eq-ok (parsed (parse u16_max (take 4 bs)) "invalid date year") _ e₀ in
    let (m, a₂, e₂) =
      >>=-eq-ok (parsed (parse u8_max (take 2 (drop 5 bs))) "invalid date month") _ e₁ in
    let (d, a₃, e₃) =
      >>=-eq-ok (parsed (parse u8_max (take 2 (drop 8 bs))) "invalid date day") _ e₂ in
    let (l, a₄, e₄) =
      >>=-eq-ok (or_fail (max_day m (is_leap y)) (bail "invalid date month")) _ e₃ in
    let (ten, dash, dash') =
      all_hold (length bs == 10) (byte_at 4 bs == 45) (byte_at 7 bs == 45)
        (reject-eq-ok _ (bail "dates must use YYYY-MM-DD") a₀) in
    let (low, high) = day_bounds d l (reject-eq-ok _ (bail "invalid date day") e₄) in
    (
      y,
      m,
      d,
      record {
        size = (==_iff (length bs) 10).0 ten;
        year_ = or_fail-eq-ok _ _ a₁;
        month_ = or_fail-eq-ok _ _ a₂;
        day_ = or_fail-eq-ok _ _ a₃;
        dash = (==_iff (byte_at 4 bs) 45).0 dash;
        dash' = (==_iff (byte_at 7 bs) 45).0 dash';
        last = l;
        months = or_fail-eq-ok _ _ a₄;
        first = low;
        bound = high;
      },
    )

-- No byte is the sign `+`.
abbrev pub IsUnsigned : String → Type 0
IsUnsigned s = any is_plus (as_bytes s) ≡ false

-- The calendar order of two dates.
abbrev pub Before : ℕ × ℕ × ℕ → ℕ × ℕ × ℕ → Type 0
Before (y, m, d) (y', m', d') = (y < y') ⊎ ((y ≡ y') × ((m < m') ⊎ ((m ≡ m') × (d < d'))))
