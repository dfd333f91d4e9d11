-- ===== src/Time.antt =====
-- internal/timeutil/timeutil.go, and what the program uses of Go's `time` package: the zero time
-- and the calendar date in the business location, Asia/Shanghai, which is UTC+8 (the location has
-- had no other offset since 1991, and its fallback in the source is the same fixed zone).
use ti_relay_trader.Prelude.{
  ℕ, ◌+◌, ◌-◌, ◌*◌, ◌/◌, ◌%◌, String, Bool, true, false, if◌then◌else◌, ltb,
}
use ti_relay_trader.Prelude.Int.{pos}
use ti_relay_trader.Text.Decimal.{itoa}
use Prim.Native.String.{◌++◌}

-- `time.Time{}`, or an instant by its nanoseconds since 1970 in UTC
pub data Time : Type 0 where
  unset : Time
  at : ℕ → Time

abbrev pub is_unset : Time → Bool
is_unset unset = true
is_unset (at n) = false

-- timeutil.InBusinessLocation changes the location that a time is shown in, not the instant.
unfoldable pub in_business_location : Time → Time
in_business_location unset = unset
in_business_location (at n) = at n

pad2 : ℕ → String
pad2 n = if ltb n 10 then "0" ++ itoa (pos n) else itoa (pos n)

pad4 : ℕ → String
pad4 n =
    if ltb n 10
    then "000" ++ itoa (pos n)
    else if ltb n 100
    then "00" ++ itoa (pos n)
    else if ltb n 1000
    then "0" ++ itoa (pos n)
    else itoa (pos n)

-- The proleptic Gregorian date of a day counted from 1970-01-01; the count is moved to years that
-- begin in March, in eras of 400 years.
civil : ℕ → String
unfolding pad2 pad4
civil days =
    let z = days + 719468 in
    let era = z / 146097 in
    let doe = z % 146097 in
    let yoe = (doe + doe / 36524 - doe / 1460 - doe / 146096) / 365 in
    let doy = doe + yoe / 100 - (365 * yoe + yoe / 4) in
    let mp = (5 * doy + 2) / 153 in
    let day = doy + 1 - (153 * mp + 2) / 5 in
    let month = if ltb mp 10 then mp + 3 else mp - 9 in
    let year = yoe + era * 400 + (if ltb month 3 then 1 else 0) in
    pad4 year ++ "-" ++ pad2 month ++ "-" ++ pad2 day

-- `t.In(timeutil.Location()).Format("2006-01-02")`, for a time that is set
unfoldable pub business_date : Time → String
unfolding civil
business_date unset = "0001-01-01"
business_date (at n) = civil ((n / 1_000_000_000 + 28800) / 86400)
