-- ===== src/Config/Schedule/Windows.antt =====
-- The windows that validateOrderEntrySchedule of internal/config/config.go accepts.
use ti_relay_trader.Prelude.{
  ℕ, suc, ◌≤◌, ◌<◌, ◌≡◌, ◌↔◌, ◌⊎◌, inl, inr, refl, ap, subst, ◌∙◌, true, false, Option, none, some,
  List, [], ◌∷◌, Option-cases, arith,
}
use ti_relay_trader.Prelude.Int.{ℤ, pos, negsuc}
use ti_relay_trader.Text.{is_empty, trim_space}
use ti_relay_trader.Config.Schedule.{
  OrderEntryWindowConfig, OrderEntryScheduleConfig, ScheduleError, Locations, clock_minute,
  check_window, check_windows, stop_or, is_known, is_nil, validate_order_entry_schedule,
}

-- A window's start and end in minutes, the start no sooner than the end of the window before.
pub record WindowFrom (previous : ℕ) (w : OrderEntryWindowConfig) : Type 0 where
  pub start : ℕ
  pub end : ℕ
  pub start_read : clock_minute w.start ≡ some start
  pub end_read : clock_minute w.end ≡ some end
  pub behind : previous ≤ start
  pub not_empty : start < end

-- The windows follow one another within a day.
abbrev pub OrderedFrom : ℕ → List OrderEntryWindowConfig → Type 0
OrderedFrom previous [] = Unit
OrderedFrom previous (w ∷ ws) = (o : WindowFrom previous w) × OrderedFrom o.end ws

-- What a previous end asks of a start: -1 asks nothing.
abbrev pub least : ℤ → ℕ
least (pos n) = n
least (negsuc n) = 0

-- What a window read as a start and an end has to pass.
abbrev Accepted : ℤ → Option ℕ → Option ℕ → ℤ → Type 0
Accepted previous none oe z = ⊥
Accepted previous (some s) none z = ⊥
Accepted previous (some s) (some e) z = (least previous ≤ s) × (s < e) × (z ≡ pos e)

window-Accepted :
    (index s e : ℕ) (previous z : ℤ)
    → check_window index previous (some s) (some e) ≡ inr z
    → Accepted previous (some s) (some e) z
window-Accepted index s e (pos n) z h = (ground (arith, h), ground (arith, h), ground (arith, h))
window-Accepted index s e (negsuc n) z h = (omega arith, ground (arith, h), ground (arith, h))

check_window-Accepted :
    (index : ℕ) (previous z : ℤ) (os oe : Option ℕ)
    → check_window index previous os oe ≡ inr z
    → Accepted previous os oe z
check_window-Accepted index previous z none oe h = ground (arith, h)
check_window-Accepted index previous z (some s) none h = ground (arith, h)
check_window-Accepted index previous z (some s) (some e) h = window-Accepted index s e previous z h

Accepted-check_window :
    (index s e : ℕ) (previous : ℤ)
    → least previous ≤ s
    → s < e
    → check_window index previous (some s) (some e) ≡ inr (pos e)
Accepted-check_window index s e (pos n) l b = ground arith
Accepted-check_window index s e (negsuc n) l b = ground arith

WindowFrom-check_window :
    (index : ℕ) (previous : ℤ) (w : OrderEntryWindowConfig) (o : WindowFrom (least previous) w)
    → check_window index previous (clock_minute w.start) (clock_minute w.end) ≡ inr (pos o.end)
WindowFrom-check_window index previous w o =
    rw o.start_read
      (rw o.end_read (Accepted-check_window index o.start o.end previous o.behind o.not_empty))

Accepted-WindowFrom :
    (previous z : ℤ) (w : OrderEntryWindowConfig)
    → Accepted previous (clock_minute w.start) (clock_minute w.end) z
    → (o : WindowFrom (least previous) w) × (z ≡ pos o.end)
Accepted-WindowFrom previous z w a = elim (Option-cases (clock_minute w.start)) [
  | inl missing ↦ absurd (subst (λ os. Accepted previous os (clock_minute w.end) z) missing a)
  | inr (s, start_read) ↦
      let a' = subst (λ os. Accepted previous os (clock_minute w.end) z) start_read a in
      elim (Option-cases (clock_minute w.end)) [
        | inl missing ↦ absurd (subst (λ oe. Accepted previous (some s) oe z) missing a')
        | inr (e, end_read) ↦
            let (behind, not_empty, q) =
              subst (λ oe. Accepted previous (some s) oe z) end_read a' in
            (
              record {
                start = s;
                end = e;
                start_read = start_read;
                end_read = end_read;
                behind = behind;
                not_empty = not_empty;
              },
              q,
            )
      ]
]

went_on :
    (r : ScheduleError ⊎ ℤ) (rest : ℤ → Option ScheduleError)
    → stop_or r rest ≡ none
    → (z : ℤ) × (r ≡ inr z) × (rest z ≡ none)
went_on (inl e) rest h = absurd (ground (arith, h))
went_on (inr z) rest h = (z, refl, h)

check_windows-OrderedFrom :
    (index : ℕ) (previous : ℤ) (ws : List OrderEntryWindowConfig)
    → check_windows index previous ws ≡ none
    → OrderedFrom (least previous) ws
unfolding check_windows
check_windows-OrderedFrom index previous [] h = tt
check_windows-OrderedFrom index previous (w ∷ ws) h =
    let (z, passed, later) =
      went_on (check_window index previous (clock_minute w.start) (clock_minute w.end))
        (λ end. check_windows (suc index) end ws) h in
    let (o, q) =
      Accepted-WindowFrom previous z w (check_window-Accepted index previous z _ _ passed) in
    (
      o,
      check_windows-OrderedFrom (suc index) (pos o.end) ws
          (subst (λ p. check_windows (suc index) p ws ≡ none) q later),
    )

OrderedFrom-check_windows :
    (index : ℕ) (previous : ℤ) (ws : List OrderEntryWindowConfig)
    → OrderedFrom (least previous) ws
    → check_windows index previous ws ≡ none
unfolding check_windows
OrderedFrom-check_windows index previous [] h = refl
OrderedFrom-check_windows index previous (w ∷ ws) (o, rest) =
    ap (λ r. stop_or r (λ end. check_windows (suc index) end ws))
      (WindowFrom-check_window index previous w o)
    ∙ OrderedFrom-check_windows (suc index) (pos o.end) ws rest

-- What a schedule has to have: a counter mode, a location that is known, and windows that follow one
-- another within a day.
pub record IsSchedule (load_location : Locations) (schedule : OrderEntryScheduleConfig)
    : Type 0 where
  pub counter_given : is_empty (trim_space schedule.counter_mode) ≡ false
  pub located : is_known (load_location (trim_space schedule.timezone)) ≡ true
  pub opens : is_nil schedule.windows ≡ false
  pub ordered : OrderedFrom 0 schedule.windows

-- A schedule is accepted if and only if it has a counter mode, a timezone that is known and at least
-- one window, and each window reads as a start in front of an end with a start no sooner than the end of
-- the window before.
pub validate_iff :
    (load_location : Locations) (schedule : OrderEntryScheduleConfig)
    → (validate_order_entry_schedule load_location schedule ≡ none)
      ↔ IsSchedule load_location schedule
unfolding validate_order_entry_schedule
validate_iff load_location schedule = (
  λ h. record {
    counter_given = ground (arith, h);
    located = ground (arith, h);
    opens = ground (arith, h);
    ordered = check_windows-OrderedFrom 0 (negsuc 0) schedule.windows (ground (arith, h));
  },
  λ i. rw i.counter_given (
      rw i.located
        (rw i.opens (OrderedFrom-check_windows 0 (negsuc 0) schedule.windows i.ordered))),
)
