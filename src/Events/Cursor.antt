-- ===== src/Events/Cursor.antt =====
-- The cursors of internal/events/hub.go: `evt-<epoch>-<sequence>`.
pub mod RoundTrip
use Prim.Native.Char.{Char, code}
use Prim.Native.String.{◌++◌}
use ti_relay_trader.Prelude.{
  ℕ, String, Bool, true, false, ◌||◌, Option, none, some, ◌==◌, if◌then◌else◌,
}
use ti_relay_trader.Prelude.Int.{pos}
use ti_relay_trader.Text.{is_empty, trim_space}
use ti_relay_trader.Text.Decimal.{itoa, parse_uint}

-- Hub.cursorLocked
unfoldable pub cursor : String → ℕ → String
cursor epoch sequence = "evt-" ++ (epoch ++ ("-" ++ itoa (pos sequence)))

-- What stands before and behind the last dash.
abbrev split_again : Char → String → Option (String × String) → Option (String × String)
split_again c s (some (before, behind)) = some (String.◌∷◌ c before, behind)
split_again c s none = if code c == b'-' then some (String.[], s) else none

pub split_last_dash : String → Option (String × String)
split_last_dash String.[] = none
split_last_dash (String.◌∷◌ c s) = split_again c s (split_last_dash s)

-- What stands behind a prefix, `strings.HasPrefix` with the slice that follows it.
pub strip_prefix : String → String → Option String
strip_prefix String.[] s = some s
strip_prefix (String.◌∷◌ p ps) String.[] = none
strip_prefix (String.◌∷◌ p ps) (String.◌∷◌ c s) =
    let rest = strip_prefix ps s in if code p == code c then rest else none

abbrev with_epoch : String → Option ℕ → Option (String × ℕ)
with_epoch epoch none = none
with_epoch epoch (some n) = some (epoch, n)

abbrev parts : Option (String × String) → Option (String × ℕ)
parts none = none
parts (some (epoch, digits)) =
    if is_empty epoch || is_empty digits then none else with_epoch epoch (parse_uint digits)

abbrev behind_prefix : Option String → Option (String × ℕ)
behind_prefix none = none
behind_prefix (some rest) = parts (split_last_dash rest)

-- parseCursor: the epoch and the sequence number, neither of which is empty.
unfoldable pub parse_cursor : String → Option (String × ℕ)
unfolding split_last_dash strip_prefix
parse_cursor given = behind_prefix (strip_prefix "evt-" (trim_space given))
