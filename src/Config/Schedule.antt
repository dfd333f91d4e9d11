-- ===== src/Config/Schedule.antt =====
-- The order entry schedule of internal/config/config.go. Instants are nanoseconds since 1970.
pub mod Windows
pub mod Openings
use Prim.Native.Char.{Char, code}
use ti_relay_trader.Prelude.{
  ℕ, zero, suc, ◌+◌, ◌-◌, ◌*◌, String, Bool, true, false, not, ◌&&◌, ◌||◌, Option, none, some, List,
  [], ◌∷◌, map, ltb, leb, ◌==◌, if◌then◌else◌, ◌⊎◌, inl, inr,
}
use ti_relay_trader.Prelude.Int.{ℤ, pos, negsuc, ltb_ℤ}
use ti_relay_trader.Text.{is_empty, trim_space}
use ti_relay_trader.Time.{Time, unset, at, is_unset}

pub record OrderEntryWindowConfig : Type 0 where
  pub start : String
  pub end : String

pub record OrderEntryScheduleConfig : Type 0 where
  pub counter_mode : String
  pub timezone : String
  pub windows : List OrderEntryWindowConfig

-- The errors of the schedule, by what they are about; a window by its index.
pub data ScheduleError : Type 0 where
  counter_mode_required invalid_timezone no_windows : ScheduleError
  bad_start bad_end empty_window out_of_order : ℕ → ScheduleError

abbrev digit_value : Char → Option ℕ
digit_value c = if leb b'0' (code c) && leb (code c) b'9' then some (code c - b'0') else none

abbrev two_digits : ℕ → Option ℕ → String → Option (ℕ × String)
two_digits tens none rest = none
two_digits tens (some units) rest = some (tens * 10 + units, rest)

-- What `time.Parse` reads for "04": two digits.
abbrev two_from : Option ℕ → String → Option (ℕ × String)
two_from none s = none
two_from (some tens) String.[] = none
two_from (some tens) (String.◌∷◌ c s) = two_digits tens (digit_value c) s

abbrev minute_digits : String → Option (ℕ × String)
minute_digits String.[] = none
minute_digits (String.◌∷◌ c s) = two_from (digit_value c) s

abbrev one_or_two : ℕ → Option ℕ → String → String → ℕ × String
one_or_two first none s rest = (first, s)
one_or_two first (some units) s rest = (first * 10 + units, rest)

-- For "15": one digit, or two.
abbrev hour_from : Option ℕ → String → Option (ℕ × String)
hour_from none s = none
hour_from (some first) String.[] = some (first, String.[])
hour_from (some first) (String.◌∷◌ c s) = some (one_or_two first (digit_value c) (String.◌∷◌ c s) s)

abbrev hour_digits : String → Option (ℕ × String)
hour_digits String.[] = none
hour_digits (String.◌∷◌ c s) = hour_from (digit_value c) s

-- An hour below 24 and a minute below 60, with nothing behind them.
abbrev minute_of_day : ℕ → Option (ℕ × String) → Option ℕ
minute_of_day hour none = none
minute_of_day hour (some (minute, rest)) =
    if ltb hour 24 && ltb minute 60 && is_empty rest then some (hour * 60 + minute) else none

abbrev behind_hour : Option (ℕ × String) → Option ℕ
behind_hour none = none
behind_hour (some (hour, String.[])) = none
behind_hour (some (hour, String.◌∷◌ c s)) =
    let found = minute_of_day hour (minute_digits s) in if code c == b':' then found else none

-- clockMinute: `time.Parse("15:04", …)` of the trimmed text, in minutes.
unfoldable pub clock_minute : String → Option ℕ
clock_minute value = behind_hour (hour_digits (trim_space value))

-- One round of the loop over the windows, with the end of the window before; the end of this one.
abbrev pub check_window : ℕ → ℤ → Option ℕ → Option ℕ → ScheduleError ⊎ ℤ
check_window index previous none end = inl (bad_start index)
check_window index previous (some start) none = inl (bad_end index)
check_window index previous (some start) (some end) =
    if leb end start
    then inl (empty_window index)
    else if ltb_ℤ (pos start) previous
    then inl (out_of_order index)
    else inr (pos end)

abbrev stop_or : ScheduleError ⊎ ℤ → (ℤ → Option ScheduleError) → Option ScheduleError
stop_or (inl e) rest = some e
stop_or (inr end) rest = rest end

unfoldable pub check_windows : ℕ → ℤ → List OrderEntryWindowConfig → Option ScheduleError
check_windows index previous [] = none
check_windows index previous (w ∷ ws) =
    stop_or (check_window index previous (clock_minute w.start) (clock_minute w.end))
      (λ end. check_windows (suc index) end ws)

-- A location: the start of the day that an instant falls on there.
pub record Location : Type 0 where
  pub day_start : ℕ → ℕ

abbrev is_known : Option Location → Bool
is_known none = false
is_known (some location) = true

abbrev pub Locations : Type 0
Locations = String → Option Location

abbrev is_nil : List OrderEntryWindowConfig → Bool
is_nil [] = true
is_nil (w ∷ ws) = false

-- validateOrderEntrySchedule: its error, if there is one. The locations are what time.LoadLocation
-- finds.
unfoldable pub validate_order_entry_schedule :
    Locations → OrderEntryScheduleConfig → Option ScheduleError
validate_order_entry_schedule load_location schedule =
    if is_empty (trim_space schedule.counter_mode)
    then some counter_mode_required
    else if not (is_known (load_location (trim_space schedule.timezone)))
    then some invalid_timezone
    else if is_nil schedule.windows
    then some no_windows
    else check_windows 0 (negsuc 0) schedule.windows

abbrev minute_or_zero : Option ℕ → ℕ
minute_or_zero none = 0
minute_or_zero (some n) = n

abbrev pub minute : ℕ
minute = 60_000_000_000

abbrev pub day : ℕ
day = 1440 * minute

-- The start and the end of a window on a day.
abbrev pub span : ℕ → OrderEntryWindowConfig → ℕ × ℕ
span day_start w = (
  day_start + minute_or_zero (clock_minute w.start) * minute,
  day_start + minute_or_zero (clock_minute w.end) * minute,
)

abbrev pub is_sooner : ℕ → Time → Bool
is_sooner start unset = true
is_sooner start (at next) = ltb start next

-- The loop of ActiveAt over the windows of the day, with the next start so far.
abbrev pub scan : ℕ → List (ℕ × ℕ) → Time → Bool × Time
scan now [] next = (false, next)
scan now ((start, end) ∷ spans) next =
    let rest = scan now spans (if ltb now start && is_sooner start next then at start else next) in
    if leb start now && ltb now end then (true, at end) else rest

abbrev first_start : List (ℕ × ℕ) → ℕ
first_start [] = 0
first_start ((start, end) ∷ spans) = start

-- Where no window of the day is to come, the first one of the day behind it.
abbrev pub or_tomorrow : List (ℕ × ℕ) → Bool × Time → Bool × Time
or_tomorrow spans (true, end) = (true, end)
or_tomorrow spans (false, unset) = (false, at (first_start spans + day))
or_tomorrow spans (false, at next) = (false, at next)

abbrev day_spans : Option Location → ℕ → List OrderEntryWindowConfig → List (ℕ × ℕ)
day_spans none now windows = []
day_spans (some location) now windows = map (span (location.day_start now)) windows

abbrev answer : List (ℕ × ℕ) → ℕ → Option ScheduleError → ScheduleError ⊎ (Bool × Time)
answer spans now (some e) = inl e
answer spans now none = inr (or_tomorrow spans (scan now spans unset))

-- ActiveAt
unfoldable pub active_at : Locations → OrderEntryScheduleConfig → ℕ → ScheduleError ⊎ (Bool × Time)
active_at load_location schedule now =
    answer (day_spans (load_location (trim_space schedule.timezone)) now schedule.windows) now
      (validate_order_entry_schedule load_location schedule)
