-- ===== src/Sync/Identifiers.antt =====
-- The time that an identifier carries, and the cutoff of a page of positions, in
-- internal/redisstream/ledger_sync.go.
pub mod RoundTrip
use Prim.Native.Char.{Char, code}
use Prim.Native.String.{◌++◌}
use ti_relay_trader.Prelude.{
  ℕ, zero, suc, ◌+◌, ◌-◌, ◌*◌, String, Bool, true, false, not, ◌&&◌, ◌||◌, Option, none, some, List,
  [], ◌∷◌, if◌then◌else◌, ltb, leb, length,
}
use ti_relay_trader.Prelude.Int.{ℤ, pos, negsuc}
use ti_relay_trader.Text.Decimal.{atoi}
use ti_relay_trader.Text.{codes}
use ti_relay_trader.Time.{Time, unset, at, is_unset}
use ti_relay_trader.Ledger.Orders.{later}
use ti_relay_trader.Ledger.Orders.Merge.{time_or}
use ti_relay_trader.Sync.Envelope.{EntryEnvelope}

abbrev pub is_digit : Char → Bool
is_digit c = leb b'0' (code c) && leb (code c) b'9'

-- A row of digits has no sign.
abbrev pub unit_time : ℕ → Option ℤ → Time
unit_time unit none = unset
unit_time unit (some (pos n)) = at (n * unit)
unit_time unit (some (negsuc n)) = unset

-- timestampFromDigits: nanoseconds, microseconds or milliseconds, by the number of digits
unfoldable pub timestamp_from_digits : String → Time
timestamp_from_digits digits =
    let n = length (codes digits) in
    if ltb n 13
    then unset
    else if leb 18 n
    then unit_time 1 (atoi digits)
    else if leb 16 n
    then unit_time 1_000 (atoi digits)
    else unit_time 1_000_000 (atoi digits)

-- The rows of digits of what is left, behind the digits that were read.
unfoldable pub scan_identifier : String → String → Time
unfolding timestamp_from_digits
scan_identifier digits String.[] = timestamp_from_digits digits
scan_identifier digits (String.◌∷◌ c s) =
    let rest = scan_identifier (if is_digit c then digits ++ String.◌∷◌ c String.[] else "") s in
    if is_digit c then rest else time_or (timestamp_from_digits digits) rest

-- timestampFromIdentifier
unfoldable pub timestamp_from_identifier : String → Time
unfolding scan_identifier
timestamp_from_identifier value = scan_identifier "" value

abbrev first_timestamp : List String → Time
first_timestamp [] = unset
first_timestamp (value ∷ values) =
    time_or (timestamp_from_identifier value) (first_timestamp values)

-- `t.Add(-30 * time.Minute)`, for a time more than that after 1970
abbrev half_hour_before : Time → Time
half_hour_before unset = unset
half_hour_before (at n) = at (n - 30 * 60 * 1_000_000_000)

-- positionQueryStaleCutoff
unfoldable pub position_query_stale_cutoff : EntryEnvelope → Time
position_query_stale_cutoff e =
    time_or
      (first_timestamp (
        e.origin_message_id ∷ e.correlation_id ∷ e.request_correlation_id ∷ e.message_id
        ∷ e.request_id ∷ []))
      (half_hour_before e.produced_at)

abbrev just_after : Time → Time
just_after unset = unset
just_after (at n) = at (n + 1)

-- The time that a page was produced at, or right after the cutoff where that is not before it.
abbrev pub not_before : Time → Time → Time
not_before cutoff produced =
    if is_unset cutoff
    then produced
    else if is_unset produced || later cutoff produced
    then just_after cutoff
    else produced

-- positionQueryUpdatedAt
unfoldable pub position_query_updated_at : EntryEnvelope → Time
position_query_updated_at e = not_before (position_query_stale_cutoff e) e.produced_at
