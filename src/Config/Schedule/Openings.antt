-- ===== src/Config/Schedule/Openings.antt =====
-- What OrderEntryScheduleConfig.ActiveAt of internal/config/config.go answers.
use ti_relay_trader.Prelude.{
  ℕ, ◌+◌, ◌*◌, ◌≤◌, ◌<◌, ◌≡◌, ◌⊎◌, inl, inr, refl, ◌∙◌, Bool, true, false, ◌&&◌, none, some, List,
  [], ◌∷◌, map, ltb, leb, Bool-cases, if◌then◌else◌, arith, All, All-map, Any,
}
use ti_relay_trader.Text.{trim_space}
use ti_relay_trader.Time.{Time, unset, at}
use ti_relay_trader.Config.Schedule.{
  OrderEntryWindowConfig, OrderEntryScheduleConfig, Location, Locations,
  validate_order_entry_schedule, span, day, minute, is_sooner, scan, first_start, or_tomorrow,
  active_at, is_nil,
}
use ti_relay_trader.Config.Schedule.Windows.{OrderedFrom, validate_iff}

-- Now is outside a window.
abbrev pub Outside : ℕ → ℕ × ℕ → Type 0
Outside now s = (now < s.0) ⊎ (s.1 ≤ now)

-- Now is within a window that closes at the time given.
abbrev pub ClosesAt : ℕ → Time → ℕ × ℕ → Type 0
ClosesAt now t s = (s.0 ≤ now) × (now < s.1) × (t ≡ at s.1)

-- A window opens at the time given, which is to come.
abbrev pub OpensAt : ℕ → Time → ℕ × ℕ → Type 0
OpensAt now t s = (now < s.0) × (t ≡ at s.0)

-- The time is no later than a start.
abbrev pub NotAfter : Time → ℕ → Type 0
NotAfter unset start = ⊥
NotAfter (at n) start = n ≤ start

-- A window has opened already, or does so no sooner than the time given.
abbrev pub NotSooner : ℕ → Time → ℕ × ℕ → Type 0
NotSooner now t s = (s.0 ≤ now) ⊎ NotAfter t s.0

-- A time that is no later than another, where that is set.
abbrev Improves : Time → Time → Type 0
Improves t unset = Unit
Improves t (at n) = NotAfter t n

-- What the loop makes of the windows and of the next start found in front of them.
abbrev Scanned : ℕ → List (ℕ × ℕ) → Time → Bool × Time → Type 0
Scanned now spans next (true, t) = Any (ClosesAt now t) spans
Scanned now spans next (false, t) =
    All (Outside now) spans
    × All (NotSooner now t) spans
    × Improves t next
    × ((t ≡ next) ⊎ Any (OpensAt now t) spans)

Improves-refl : (t : Time) → Improves t t
Improves-refl unset = tt
Improves-refl (at n) = omega arith

NotAfter-trans : (t : Time) (m n : ℕ) → NotAfter t m → m ≤ n → NotAfter t n
NotAfter-trans unset m n h l = h
NotAfter-trans (at k) m n h l = omega arith

abbrev chosen : ℕ → ℕ → Time → Time
chosen now start next = if ltb now start && is_sooner start next then at start else next

chosen-Improves :
    (now start end : ℕ) (next t : Time)
    → Improves t (chosen now start next)
    → NotSooner now t (start, end) × Improves t next
chosen-Improves now start end unset t i = elim (Bool-cases (ltb now start)) [
  | inl later ↦ (inr (rw later at i), tt)
  | inr opened ↦ (inl (ground (arith, opened)), tt)
]
chosen-Improves now start end (at n) t i = elim (Bool-cases (ltb now start)) [
  | inr opened ↦ (inl (ground (arith, opened)), rw opened at i)
  | inl later ↦ elim (Bool-cases (ltb start n)) [
    | inl sooner ↦
        let first : NotAfter t start = rw (later, sooner) at i in
        (inr first, NotAfter-trans t start n first (ground (arith, sooner)))
    | inr kept ↦
        let last : NotAfter t n = rw (later, kept) at i in
        (inr (NotAfter-trans t n start last (ground (arith, kept))), last)
  ]
]

chosen-opens :
    (now start end : ℕ) (next t : Time) (spans : List (ℕ × ℕ))
    → t ≡ chosen now start next
    → (t ≡ next) ⊎ Any (OpensAt now t) ((start, end) ∷ spans)
chosen-opens now start end next t spans p =
    elim (Bool-cases (ltb now start && is_sooner start next)) [
      | inl taken ↦ inr (inl (ground (arith, taken), p ∙ rw taken refl))
      | inr kept ↦ inl (p ∙ rw kept refl)
    ]

scan_next :
    (now start end : ℕ) (spans : List (ℕ × ℕ)) (next : Time) (r : Bool × Time)
    → Outside now (start, end)
    → Scanned now spans (chosen now start next) r
    → Scanned now ((start, end) ∷ spans) next r
scan_next now start end spans next (true, t) out h = inr h
scan_next now start end spans next (false, t) out (outside, not_sooner, improves, inl p) =
    let (first, better) = chosen-Improves now start end next t improves in
    ((out, outside), (first, not_sooner), better, chosen-opens now start end next t spans p)
scan_next now start end spans next (false, t) out (outside, not_sooner, improves, inr opens) =
    let (first, better) = chosen-Improves now start end next t improves in
    ((out, outside), (first, not_sooner), better, inr (inr opens))

scan-Scanned :
    (now : ℕ) (spans : List (ℕ × ℕ)) (next : Time) → Scanned now spans next (scan now spans next)
scan-Scanned now [] next = (tt, tt, Improves-refl next, inl refl)
scan-Scanned now ((start, end) ∷ spans) next = elim (Bool-cases (leb start now && ltb now end)) [
  | inl within ↦ rw within (inl (ground (arith, within), ground (arith, within), refl))
  | inr closed ↦ rw closed (
      scan_next now start end spans next (scan now spans (chosen now start next))
        (ground (arith, closed)) (scan-Scanned now spans (chosen now start next)))
]

-- The answer at a time, for the windows of its day: within a window, its end; outside of them, the
-- first start to come of this day if there is one, and if not the earliest start of this day, 24 hours on.
abbrev pub Answered : ℕ → List (ℕ × ℕ) → Bool × Time → Type 0
Answered now spans (true, t) = Any (ClosesAt now t) spans
Answered now spans (false, t) =
    All (Outside now) spans
    × ((All (NotSooner now t) spans × Any (OpensAt now t) spans)
        ⊎ (All (λ s. s.0 ≤ now) spans
            × (t ≡ at (first_start spans + day))
            × (now < first_start spans + day)
            × All (λ s. first_start spans ≤ s.0) spans))

has_opened : (now : ℕ) (s : ℕ × ℕ) → NotSooner now unset s → s.0 ≤ now
has_opened now s (inl h) = h
has_opened now s (inr h) = absurd h

or_tomorrow-Answered :
    (now : ℕ) (spans : List (ℕ × ℕ)) (r : Bool × Time)
    → now < first_start spans + day
    → All (λ s. first_start spans ≤ s.0) spans
    → Scanned now spans unset r
    → Answered now spans (or_tomorrow spans r)
or_tomorrow-Answered now spans (true, t) b f h = h
or_tomorrow-Answered now spans (false, unset) b f (outside, opened, improves, found) = (
  outside,
  inr (All-map (NotSooner now unset) (λ s. s.0 ≤ now) spans (has_opened now) opened, refl, b, f),
)
or_tomorrow-Answered now spans (false, at n) b f (outside, not_sooner, improves, inl p) =
    absurd (ground (arith, p))
or_tomorrow-Answered now spans (false, at n) b f (outside, not_sooner, improves, inr opens) =
    (outside, inl (not_sooner, opens))

first_start-today :
    (day_start now : ℕ) (ws : List OrderEntryWindowConfig)
    → is_nil ws ≡ false
    → now < day_start + day
    → now < first_start (map (span day_start) ws) + day
first_start-today day_start now [] given today = absurd (ground (arith, given))
first_start-today day_start now (w ∷ ws) given today = omega arith

starts_behind :
    (bound day_start previous : ℕ) (ws : List OrderEntryWindowConfig)
    → bound ≤ day_start + previous * minute
    → OrderedFrom previous ws
    → All (λ s. bound ≤ s.0) (map (span day_start) ws)
starts_behind bound day_start previous [] h o = tt
starts_behind bound day_start previous (w ∷ ws) h (o, os) =
    let behind = o.behind in
    let wide = o.not_empty in
    (
      rw o.start_read (omega (arith, h, behind)),
      starts_behind bound day_start o.end ws (omega (arith, h, behind, wide)) os,
    )

-- The windows are in order, so the first one is the first to open.
first_start-least :
    (day_start : ℕ) (ws : List OrderEntryWindowConfig)
    → OrderedFrom 0 ws
    → let spans = map (span day_start) ws in All (λ s. first_start spans ≤ s.0) spans
first_start-least day_start [] o = tt
first_start-least day_start (w ∷ ws) (o, os) =
    let behind = o.behind in
    let wide = o.not_empty in
    let start = o.start_read in
    (omega arith, starts_behind _ day_start o.end ws (rw o.start_read (omega (arith, wide))) os)

-- A schedule that is accepted answers at a time less than 24 hours behind the start of its day in the
-- location. Within a window of that day it is active until the window's end. Outside of them it is not, and
-- names a time to come: while a window of that day has yet to open, the earliest start of those that have,
-- and once all have opened, 24 hours behind the earliest start of that day, which is tomorrow's first start
-- only where the clock of the location does not change in between.
pub active_at-Answered :
    (load_location : Locations) (schedule : OrderEntryScheduleConfig) (location : Location)
    (now : ℕ)
    → validate_order_entry_schedule load_location schedule ≡ none
    → load_location (trim_space schedule.timezone) ≡ some location
    → now < location.day_start now + day
    → (r : Bool × Time) × (active_at load_location schedule now ≡ inr r)
      × Answered now (map (span (location.day_start now)) schedule.windows) r
unfolding active_at
active_at-Answered load_location schedule location now valid located today =
    let spans = map (span (location.day_start now)) schedule.windows in
    (
      or_tomorrow spans (scan now spans unset),
      rw (valid, located) refl,
      or_tomorrow-Answered now spans (scan now spans unset)
          (first_start-today (location.day_start now) now schedule.windows
            ((validate_iff load_location schedule).0 valid).opens today)
          (first_start-least (location.day_start now) schedule.windows
            ((validate_iff load_location schedule).0 valid).ordered)
          (scan-Scanned now spans unset),
    )
