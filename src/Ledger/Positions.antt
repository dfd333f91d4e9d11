-- ===== src/Ledger/Positions.antt =====
-- UpsertPosition and DeleteStalePositions of internal/ledger/repository.go, with upsertPositionSQL and
-- deleteStalePositionsSQL of sql.go. The raw payload of a row is left out.
pub mod Written
pub mod Fresh
use ti_relay_trader.Prelude.{
  ℕ, String, Bool, true, false, not, ◌&&◌, ◌||◌, List, [], ◌∷◌, ◌++◌, any, keep, length,
  if◌then◌else◌, str_eq,
}
use ti_relay_trader.Prelude.Int.{ℤ, pos, ltb_ℤ, leb_ℤ}
use ti_relay_trader.Float64.{Float64, finite, eq, lt, Arithmetic}
use ti_relay_trader.Text.{is_empty, trim_space}
use ti_relay_trader.Time.{Time, unset, is_unset}
use ti_relay_trader.Errors.{Result, ok, err, invalid_ledger_input, backend, ◌>>=◌, ◌>>◌, guard}
use ti_relay_trader.Trading.Schema.{Position, Exchange, exchange_text}
use ti_relay_trader.Trading.Validation.{is_blank, exchange_valid}
use ti_relay_trader.Ledger.Store.{Store, Database, PositionRow}
use ti_relay_trader.Ledger.Orders.{micro, later, refuse_number}

abbrev pub zero_float : Float64
zero_float = finite (pos 0)

-- The market value and the unrealised profit, where they are missing.
unfoldable pub value_position : Arithmetic → Position → Position
value_position a p =
    let held = ltb_ℤ (pos 0) p.quantity in
    let value =
      if eq p.market_value zero_float && held && lt zero_float p.last_price
      then a.times (a.of_int p.quantity) p.last_price
      else p.market_value in
    let profit =
      if eq p.unrealized_pnl zero_float && lt zero_float value && lt zero_float p.avg_cost && held
      then a.minus value (a.times p.avg_cost (a.of_int p.quantity))
      else p.unrealized_pnl in
    record p { market_value = value; unrealized_pnl = profit }

-- normalizePosition
unfoldable pub normalize_position : Arithmetic → Position → Result Position
unfolding value_position
normalize_position a given = do
  let p = record given {
    account_id = trim_space given.account_id;
    symbol = trim_space given.symbol;
  }
  guard (not (is_empty p.account_id)) (invalid_ledger_input "account_id is required")
  guard (not (is_empty p.symbol)) (invalid_ledger_input "symbol is required")
  guard (exchange_valid p.exchange) (invalid_ledger_input "exchange must be SH, SZ, or BJ")
  ok (value_position a p)

-- NULL is a last price of zero.
abbrev pub last_price_of : Database → Float64 → Result Float64
last_price_of db x = if eq x zero_float then ok zero_float else refuse_number (db.numeric x)

-- The row that is proposed, as the columns give it back.
unfoldable pub position_row : Database → Position → String → Time → Result PositionRow
position_row db p source updated_at = do
  avg_cost ← refuse_number (db.numeric p.avg_cost)
  total_cost ← refuse_number (db.numeric p.total_cost)
  last_price ← last_price_of db p.last_price
  market_value ← refuse_number (db.numeric p.market_value)
  unrealized ← refuse_number (db.numeric p.unrealized_pnl)
  day_unrealized ← refuse_number (db.numeric p.day_unrealized_pnl)
  settled ← refuse_number (db.numeric p.settled_profit)
  ok (record {
    position = record p {
      avg_cost = avg_cost;
      total_cost = total_cost;
      last_price = last_price;
      market_value = market_value;
      unrealized_pnl = unrealized;
      day_unrealized_pnl = day_unrealized;
      settled_profit = settled;
      shareholder_id = trim_space p.shareholder_id;
      updated_at = micro updated_at;
    };
    source = source;
    updated_at = micro updated_at;
  })

-- positions_qty_check
abbrev pub quantities_allowed : Position → Bool
quantities_allowed p =
    leb_ℤ (pos 0) p.quantity
    && leb_ℤ (pos 0) p.sellable_qty
    && leb_ℤ (pos 0) p.initial_qty
    && leb_ℤ (pos 0) p.today_qty

-- The primary key
abbrev pub same_position : PositionRow → PositionRow → Bool
same_position r q =
    str_eq r.position.account_id q.position.account_id
    && str_eq r.position.symbol q.position.symbol
    && str_eq (exchange_text r.position.exchange) (exchange_text q.position.exchange)

-- ON CONFLICT DO UPDATE, WHERE positions.updated_at <= EXCLUDED.updated_at
unfoldable pub put_position : PositionRow → List PositionRow → List PositionRow
put_position row [] = row ∷ []
put_position row (r ∷ rows) =
    let others = put_position row rows in
    if same_position row r
    then (if later r.updated_at row.updated_at then r ∷ rows else row ∷ rows)
    else r ∷ others

-- UpsertPosition, at a time of the clock
unfoldable pub upsert_position :
    Database → Arithmetic → Time → Position → String → Time → Store → Result Store
upsert_position db a now given source updated_at s = do
  p ← normalize_position a given
  let trimmed = trim_space source
  row ←
      position_row db p (if is_empty trimmed then "query" else trimmed)
        (if is_unset updated_at then now else updated_at)
  guard (quantities_allowed row.position) backend
  guard (any (λ account. str_eq account.account_id row.position.account_id) s.accounts) backend
  ok (record s { positions = put_position row s.positions })

abbrev pub is_stale : String → Time → PositionRow → Bool
is_stale account_id cutoff r =
    str_eq r.position.account_id account_id && later (micro cutoff) r.updated_at

-- DeleteStalePositions, with the number of rows that it deleted
unfoldable pub delete_stale_positions : String → Time → Store → Result (Store × ℕ)
delete_stale_positions given cutoff s = do
  let account_id = trim_space given
  guard (not (is_empty account_id)) (invalid_ledger_input "account_id is required")
  guard (not (is_unset cutoff)) (invalid_ledger_input "cutoff is required")
  let kept = keep (λ r. not (is_stale account_id cutoff r)) s.positions
  ok (record s { positions = kept }, length (keep (is_stale account_id cutoff) s.positions))
