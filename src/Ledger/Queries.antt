-- ===== src/Ledger/Queries.antt =====
-- The normalisation of queries in internal/ledger/repository.go: normalizeQueryDates, queryCursorOffset,
-- normalizeOrderQuery, normalizeFillQuery, normalizeComponentTransferQuery and normalizePositionQuery.
use ti_relay_trader.Prelude.{
  ℕ, String, Bool, true, not, ◌&&◌, ◌||◌, Option, some, [], ◌∷◌, if◌then◌else◌,
}
use ti_relay_trader.Prelude.Int.{ℤ, pos, leb_ℤ, ltb_ℤ}
use ti_relay_trader.Text.{is_empty, trim_space, one_of}
use ti_relay_trader.Text.Decimal.{atoi}
use ti_relay_trader.Errors.{Result, ok, err, invalid_ledger_input, ◌>>=◌, ◌>>◌, guard}
use ti_relay_trader.Trading.Schema.{
  Exchange, OrderQuery, FillQuery, ComponentTransferQuery, PositionQuery,
}
use ti_relay_trader.Trading.Validation.{order_status_valid}
use ti_relay_trader.Trading.ExecutionState.{order_status_given}
use ti_relay_trader.Ledger.Orders.{text_gt}
use ti_relay_trader.Ledger.Orders.Dates.{normalize_trade_date}

-- The trade date, and the first and the last date of the range.
pub record QueryDates : Type 0 where
  pub trade_date : String
  pub date_from : String
  pub date_to : String

abbrev pub date_if_given : String → Result String
date_if_given date = if is_empty date then ok "" else normalize_trade_date date

abbrev pub dates_of_day : String → String → String → Result QueryDates
dates_of_day date from to = do
  day ← normalize_trade_date date
  guard (is_empty from && is_empty to)
      (invalid_ledger_input "trade_date cannot be combined with date_from/date_to")
  ok (record { trade_date = day; date_from = day; date_to = day })

abbrev pub dates_of_range : String → String → Result QueryDates
dates_of_range from to = do
  first ← date_if_given from
  last ← date_if_given to
  guard (not (not (is_empty first) && not (is_empty last) && text_gt first last))
      (invalid_ledger_input "date_from must be <= date_to")
  ok (record { trade_date = ""; date_from = first; date_to = last })

-- normalizeQueryDates
unfoldable pub normalize_query_dates : String → String → String → Result QueryDates
normalize_query_dates trade_date date_from date_to =
    let date = trim_space trade_date in
    let from = trim_space date_from in
    let to = trim_space date_to in
    if is_empty date then dates_of_range from to else dates_of_day date from to

abbrev query_offset : Option ℤ → Result ℕ
query_offset (some (pos n)) = ok n
query_offset _ = err (invalid_ledger_input "cursor must be a non-negative offset")

-- queryCursorOffset
unfoldable pub query_cursor_offset : String → Result ℕ
query_cursor_offset given =
    let cursor = trim_space given in if is_empty cursor then ok 0 else query_offset (atoi cursor)

abbrev pub query_limit : ℕ → ℕ → ℤ → ℤ
query_limit usual maximum given =
    let limit = if leb_ℤ given (pos 0) then pos usual else given in
    if ltb_ℤ (pos maximum) limit then pos maximum else limit

-- `Exchange == "" || Exchange.Valid()`
abbrev pub exchange_allowed : Exchange → Bool
exchange_allowed (Exchange.other s) = is_empty s
exchange_allowed _ = true

-- normalizeOrderQuery
unfoldable pub normalize_order_query : OrderQuery → Result OrderQuery
normalize_order_query q = do
  dates ← normalize_query_dates q.trade_date q.date_from q.date_to
  guard (exchange_allowed q.exchange) (invalid_ledger_input "exchange must be SH, SZ, or BJ")
  guard (not (order_status_given q.status) || order_status_valid q.status)
      (invalid_ledger_input "status is invalid")
  offset ← query_cursor_offset (trim_space q.cursor)
  ok (record {
    account_id = trim_space q.account_id;
    gateway_order_id = trim_space q.gateway_order_id;
    client_order_id = trim_space q.client_order_id;
    origin_message_id = trim_space q.origin_message_id;
    symbol = trim_space q.symbol;
    exchange = q.exchange;
    status = q.status;
    trade_date = dates.trade_date;
    date_from = dates.date_from;
    date_to = dates.date_to;
    history = q.history;
    strategy_type = trim_space q.strategy_type;
    strategy_id = trim_space q.strategy_id;
    basket_id = trim_space q.basket_id;
    parent_order_id = trim_space q.parent_order_id;
    t0_order_group_id = trim_space q.t0_order_group_id;
    limit = query_limit 100 500 q.limit;
    cursor = trim_space q.cursor;
  })

-- normalizeFillQuery
unfoldable pub normalize_fill_query : FillQuery → Result FillQuery
normalize_fill_query q = do
  dates ← normalize_query_dates q.trade_date q.date_from q.date_to
  guard (exchange_allowed q.exchange) (invalid_ledger_input "exchange must be SH, SZ, or BJ")
  offset ← query_cursor_offset (trim_space q.cursor)
  ok (record {
    account_id = trim_space q.account_id;
    gateway_order_id = trim_space q.gateway_order_id;
    symbol = trim_space q.symbol;
    exchange = q.exchange;
    trade_date = dates.trade_date;
    date_from = dates.date_from;
    date_to = dates.date_to;
    history = q.history;
    strategy_type = trim_space q.strategy_type;
    strategy_id = trim_space q.strategy_id;
    basket_id = trim_space q.basket_id;
    parent_order_id = trim_space q.parent_order_id;
    t0_order_group_id = trim_space q.t0_order_group_id;
    limit = query_limit 100 500 q.limit;
    cursor = trim_space q.cursor;
  })

-- normalizeComponentTransferQuery
unfoldable pub normalize_component_transfer_query :
    ComponentTransferQuery → Result ComponentTransferQuery
normalize_component_transfer_query q = do
  dates ← normalize_query_dates q.trade_date q.date_from q.date_to
  guard (exchange_allowed q.exchange) (invalid_ledger_input "exchange must be SH, SZ, or BJ")
  offset ← query_cursor_offset (trim_space q.cursor)
  ok (record {
    account_id = trim_space q.account_id;
    gateway_order_id = trim_space q.gateway_order_id;
    symbol = trim_space q.symbol;
    exchange = q.exchange;
    trade_date = dates.trade_date;
    date_from = dates.date_from;
    date_to = dates.date_to;
    history = q.history;
    basket_id = trim_space q.basket_id;
    limit = query_limit 100 500 q.limit;
    cursor = trim_space q.cursor;
  })

-- normalizePositionQuery
unfoldable pub normalize_position_query : PositionQuery → Result PositionQuery
normalize_position_query q = do
  dates ← normalize_query_dates q.trade_date q.date_from q.date_to
  guard (not (is_empty (trim_space q.account_id))) (invalid_ledger_input "account_id is required")
  guard (exchange_allowed q.exchange) (invalid_ledger_input "exchange must be SH, SZ, or BJ")
  let given = trim_space q.snapshot_type
  let past =
      q.history
      || not (is_empty dates.trade_date)
      || not (is_empty dates.date_from)
      || not (is_empty dates.date_to)
  let kind = if past && is_empty given then "close" else given
  guard
      (is_empty kind
        || one_of kind ("intraday" ∷ "open" ∷ "broker_close" ∷ "close" ∷ "reconcile" ∷ []))
      (invalid_ledger_input
        "snapshot_type must be intraday, open, broker_close, close, or reconcile")
  offset ← query_cursor_offset (trim_space q.cursor)
  ok (record {
    account_id = trim_space q.account_id;
    symbol = trim_space q.symbol;
    exchange = q.exchange;
    trade_date = dates.trade_date;
    date_from = dates.date_from;
    date_to = dates.date_to;
    snapshot_type = kind;
    history = q.history;
    limit = query_limit 500 2000 q.limit;
    cursor = trim_space q.cursor;
  })
