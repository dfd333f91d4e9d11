-- ===== src/Tests/Schedules.antt =====
-- Tests of the order entry schedule.
use ti_relay_trader.Prelude.{
  ℕ, ◌+◌, ◌*◌, ◌≡◌, ◌↔◌, inr, refl, false, Bool, none, some, [], ◌∷◌, map, arith,
}
use ti_relay_trader.Text.{trim_space}
use ti_relay_trader.Time.{Time, at}
use ti_relay_trader.Config.Schedule.{
  OrderEntryScheduleConfig, Locations, validate_order_entry_schedule, active_at, clock_minute,
  check_windows, span, day, minute,
}
use ti_relay_trader.Samples.{shanghai}
use ti_relay_trader.Config.Schedule.Windows.{IsSchedule, validate_iff}
use ti_relay_trader.Config.Schedule.Openings.{Answered, active_at-Answered}

abbrev only_shanghai : Locations
only_shanghai name = some shanghai

abbrev schedule : OrderEntryScheduleConfig
schedule = record {
  counter_mode = "simulated";
  timezone = "Asia/Shanghai";
  windows =
      record { start = "09:15"; end = "11:30" } ∷ record { start = "13:00"; end = "15:00" } ∷ [];
}

schedule-valid : validate_order_entry_schedule only_shanghai schedule ≡ none
unfolding validate_order_entry_schedule check_windows clock_minute trim_space
schedule-valid = refl

validate_iff_example :
    (validate_order_entry_schedule only_shanghai schedule ≡ none)
    ↔ IsSchedule only_shanghai schedule
validate_iff_example = validate_iff only_shanghai schedule

-- A day's noon in Shanghai.
abbrev noon_there : ℕ
noon_there = 20_000 * day + 4 * 60 * minute

active_at-Answered_example :
    (r : Bool × Time) × (active_at only_shanghai schedule noon_there ≡ inr r)
    × Answered noon_there (map (span (shanghai.day_start noon_there)) schedule.windows) r
active_at-Answered_example =
    active_at-Answered only_shanghai schedule shanghai noon_there schedule-valid refl (omega arith)

-- At noon the next window opens at 13:00.
closed_at_noon :
    active_at only_shanghai schedule noon_there ≡ inr (false, at (20_000 * day + 5 * 60 * minute))
unfolding active_at validate_order_entry_schedule check_windows clock_minute trim_space
closed_at_noon = refl
