-- ===== src/Ledger/Orders/Dates.antt =====
-- normalizeTradeDate of internal/ledger/repository.go: `time.ParseInLocation` with the layout
-- 20060102 on eight bytes and 2006-01-02 on any other text, and the date written back with dashes.
use Prim.Native.String.{slice, len, ◌++◌}
use ti_relay_trader.Prelude.{
  ℕ, ◌+◌, ◌-◌, ◌*◌, ◌%◌, String, Bool, false, not, ◌&&◌, ◌||◌, List, [], ◌∷◌, if◌then◌else◌, leb,
  ◌==◌,
}
use ti_relay_trader.Text.{is_empty, trim_space, codes}
use ti_relay_trader.Errors.{Result, ok, err, invalid_ledger_input}

is_digit : ℕ → Bool
is_digit c = leb b'0' c && leb c b'9'

is_leap : ℕ → Bool
is_leap y = y % 4 == 0 && (not (y % 100 == 0) || y % 400 == 0)

days_in : ℕ → ℕ → ℕ
unfolding is_leap
days_in y m =
    if m == 2
    then (if is_leap y then 29 else 28)
    else if m == 4 || m == 6 || m == 9 || m == 11
    then 30
    else 31

-- Four digits of a year, two of a month and two of a day that the calendar has.
is_calendar_date : ℕ → ℕ → ℕ → ℕ → ℕ → ℕ → ℕ → ℕ → Bool
unfolding is_digit days_in
is_calendar_date a b c d e f g h =
    let y = (a - b'0') * 1000 + (b - b'0') * 100 + (c - b'0') * 10 + (d - b'0') in
    let m = (e - b'0') * 10 + (f - b'0') in
    let day = (g - b'0') * 10 + (h - b'0') in
    is_digit a
    && is_digit b
    && is_digit c
    && is_digit d
    && is_digit e
    && is_digit f
    && is_digit g
    && is_digit h
    && leb 1 m
    && leb m 12
    && leb 1 day
    && leb day (days_in y m)

compact_date : List ℕ → Bool
compact_date (a ∷ b ∷ c ∷ d ∷ e ∷ f ∷ g ∷ h ∷ []) = is_calendar_date a b c d e f g h
compact_date _ = false

dashed_date : List ℕ → Bool
dashed_date (a ∷ b ∷ c ∷ d ∷ x ∷ e ∷ f ∷ y ∷ g ∷ h ∷ []) =
    x == b'-' && y == b'-' && is_calendar_date a b c d e f g h
dashed_date _ = false

-- The dashes put into eight bytes.
unfoldable pub with_dashes : String → String
with_dashes v = slice v 0 4 ++ "-" ++ slice v 4 6 ++ "-" ++ slice v 6 8

unfoldable pub normalize_trade_date : String → Result String
unfolding is_calendar_date compact_date dashed_date
normalize_trade_date value =
    let v = trim_space value in
    let bad = invalid_ledger_input "date must be YYYYMMDD or YYYY-MM-DD" in
    if is_empty v
    then ok ""
    else if len v == 8
    then (if compact_date (codes v) then ok (with_dashes v) else err bad)
    else if dashed_date (codes v)
    then ok v
    else err bad
