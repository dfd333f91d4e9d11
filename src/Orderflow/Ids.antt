-- ===== src/Orderflow/Ids.antt =====
-- defaultIDGenerator of internal/orderflow/service.go.
use Prim.Native.String.{◌++◌}
use ti_relay_trader.Prelude.{ℕ, String}
use ti_relay_trader.Prelude.Int.{pos}
use ti_relay_trader.Text.Decimal.{itoa}

-- NewID, at a time in nanoseconds since 1970, with the counter that it has moved on
unfoldable pub default_new_id : String → ℕ → ℕ → String
default_new_id prefix nanoseconds counter =
    prefix ++ ("-" ++ (itoa (pos nanoseconds) ++ ("-" ++ itoa (pos counter))))
