-- ===== src/Application/Planning/Recurrence.antt =====
-- `validate_recurrence` of src/application/planning.rs.
use community_stack.Common.{
  ℕ, ◌+◌, ◌-◌, Bool, true, false, not, ◌&&◌, ◌||◌, List, [], ◌∷◌, Option, none, some, ltb, ◌==◌,
  if◌then◌else◌, length, any, is_none, is_some,
}
use community_stack.Common.Int.{ℤ, pos_part, neg_part, ltb_ℤ}
use community_stack.Domain.Planning.{EventTiming, RecurrenceRule, RecurrenceFrequency, Weekday}
use community_stack.Failure.{Check, ok, bail, err, reject, ◌>>◌}

abbrev pub day_number : Weekday → ℕ
day_number Weekday.monday = 1
day_number Weekday.tuesday = 2
day_number Weekday.wednesday = 3
day_number Weekday.thursday = 4
day_number Weekday.friday = 5
day_number Weekday.saturday = 6
day_number Weekday.sunday = 7

abbrev pub same_day : Weekday → Weekday → Bool
same_day a b = day_number a == day_number b

-- `iter().collect::<HashSet<_>>()`
unfoldable pub distinct : List Weekday → List Weekday
distinct [] = []
distinct (d ∷ ds) = let rest = distinct ds in if any (same_day d) ds then rest else d ∷ rest

abbrev pub is_weekly : RecurrenceFrequency → Bool
is_weekly RecurrenceFrequency.weekly = true
is_weekly _ = false

-- `later.saturating_sub(earlier)` where `later` is not before `earlier`; the bound that it is compared
-- with is far below the greatest `i64`, at which the source stops.
abbrev pub since : ℤ → ℤ → ℕ
since later earlier = (pos_part later + neg_part earlier) - (pos_part earlier + neg_part later)

-- The `match (timing, rule.until_ms)`.
unfoldable pub validate_until : EventTiming → Option ℤ → Check
validate_until timing none = ok tt
validate_until (EventTiming.all_day start finish) (some until) =
    err (bail "all-day recurrence must use count; date-based UNTIL is reserved for profile v2")
validate_until (EventTiming.utc start finish zone) (some until) =
    reject (ltb_ℤ until start || ltb 315360000000 (since until start))
      (bail "recurrence until_ms must be within ten years of its start")

abbrev pub bad_count : Option ℕ → Bool
bad_count none = false
bad_count (some count) = count == 0 || ltb 10000 count

unfoldable pub validate_recurrence : RecurrenceRule → EventTiming → Check
unfolding validate_until distinct
validate_recurrence rule timing = do
  reject (rule.interval == 0 || ltb 365 rule.interval)
      (bail "recurrence interval must be between 1 and 365")
  reject (bad_count rule.count) (bail "recurrence count must be between 1 and 10000")
  reject (is_some rule.count && is_some rule.until_ms)
      (bail "recurrence may use count or until_ms, not both")
  reject (is_none rule.count && is_none rule.until_ms)
      (bail "recurrence requires a bounded count or until_ms")
  validate_until timing rule.until_ms
  reject (not (length rule.by_weekday == 0) && not (is_weekly rule.frequency))
      (bail "by_weekday is supported only for weekly recurrence")
  reject
      (not (length (distinct rule.by_weekday) == length rule.by_weekday)
        || ltb 7 (length rule.by_weekday))
      (bail "recurrence weekdays must be unique and bounded")
