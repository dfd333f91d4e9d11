-- ===== src/Orderflow/Queries.antt =====
-- The paged queries of internal/orderflow/service.go: how a query is normalised, and how a page is cut
-- from the rows that the ledger gives. The ledger's list methods are parameters, as they are methods of
-- an interface there, and so are the types of the rows, which the service does not look into.
pub mod Asked
pub mod Laws
pub mod Complete
use ti_relay_trader.Prelude.{
  ℕ, ◌+◌, String, Bool, true, false, not, ◌&&◌, ◌||◌, Option, none, some, List, [], ◌∷◌, length,
  take, if◌then◌else◌, str_eq,
}
use ti_relay_trader.Prelude.Int.{ℤ, pos, negsuc, pos_part, ltb_ℤ, leb_ℤ, ◌+ℤ◌, int64_of}
use ti_relay_trader.Text.{is_empty, trim_space, one_of}
use ti_relay_trader.Text.Decimal.{itoa, atoi}
use ti_relay_trader.Errors.{Result, ok, err, invalid_query, missing_ledger, ◌>>=◌, ◌>>◌, guard}
use ti_relay_trader.Trading.Schema.{
  Exchange, OrderStatus, Order, OrderQuery, FillQuery, ComponentTransferQuery, PositionQuery,
}
use ti_relay_trader.Trading.Validation.{exchange_valid, order_status_valid}
use ti_relay_trader.Trading.ExecutionState.{order_status_given}
use ti_relay_trader.Orderflow.World.{Service}
use ti_relay_trader.Orderflow.Preflight.{route_for_configured_account}

-- maxOrderQueryLimit, maxFillQueryLimit and maxTransferQueryLimit
abbrev pub max_query_limit : ℕ
max_query_limit = 500

abbrev pub max_position_query_limit : ℕ
max_position_query_limit = 2000

abbrev exchange_given : Exchange → Bool
exchange_given (Exchange.other s) = not (is_empty s)
exchange_given _ = true

-- A limit that is not positive becomes the usual one, and one above the maximum the maximum.
unfoldable pub bounded_limit : ℕ → ℕ → ℤ → ℤ
bounded_limit usual maximum given =
    let limit = if leb_ℤ given (pos 0) then pos usual else given in
    if ltb_ℤ (pos maximum) limit then pos maximum else limit

-- `Exchange != "" && !Exchange.Valid()`
abbrev pub exchange_fits : Exchange → Bool
exchange_fits e = not (exchange_given e) || exchange_valid e

abbrev pub trim_order_query : OrderQuery → OrderQuery
trim_order_query q = record {
  account_id = trim_space q.account_id;
  gateway_order_id = trim_space q.gateway_order_id;
  client_order_id = trim_space q.client_order_id;
  origin_message_id = trim_space q.origin_message_id;
  symbol = trim_space q.symbol;
  exchange = q.exchange;
  status = q.status;
  trade_date = trim_space q.trade_date;
  date_from = trim_space q.date_from;
  date_to = trim_space q.date_to;
  history = q.history;
  strategy_type = trim_space q.strategy_type;
  strategy_id = trim_space q.strategy_id;
  basket_id = trim_space q.basket_id;
  parent_order_id = trim_space q.parent_order_id;
  t0_order_group_id = trim_space q.t0_order_group_id;
  limit = bounded_limit 100 max_query_limit q.limit;
  cursor = trim_space q.cursor;
}

-- normalizeOrderQuery
unfoldable pub normalize_order_query : OrderQuery → Result OrderQuery
normalize_order_query q = do
  guard (exchange_fits q.exchange) (invalid_query "exchange must be SH, SZ, or BJ")
  guard (not (order_status_given q.status) || order_status_valid q.status)
      (invalid_query "status is invalid")
  ok (trim_order_query q)

-- normalizeFillQuery
unfoldable pub normalize_fill_query : FillQuery → Result FillQuery
normalize_fill_query q = do
  guard (exchange_fits q.exchange) (invalid_query "exchange must be SH, SZ, or BJ")
  ok (record {
    account_id = trim_space q.account_id;
    gateway_order_id = trim_space q.gateway_order_id;
    symbol = trim_space q.symbol;
    exchange = q.exchange;
    trade_date = trim_space q.trade_date;
    date_from = trim_space q.date_from;
    date_to = trim_space q.date_to;
    history = q.history;
    strategy_type = trim_space q.strategy_type;
    strategy_id = trim_space q.strategy_id;
    basket_id = trim_space q.basket_id;
    parent_order_id = trim_space q.parent_order_id;
    t0_order_group_id = trim_space q.t0_order_group_id;
    limit = bounded_limit 100 max_query_limit q.limit;
    cursor = trim_space q.cursor;
  })

-- normalizeComponentTransferQuery
unfoldable pub normalize_component_transfer_query :
    ComponentTransferQuery → Result ComponentTransferQuery
normalize_component_transfer_query q = do
  guard (exchange_fits q.exchange) (invalid_query "exchange must be SH, SZ, or BJ")
  ok (record {
    account_id = trim_space q.account_id;
    gateway_order_id = trim_space q.gateway_order_id;
    symbol = trim_space q.symbol;
    exchange = q.exchange;
    trade_date = trim_space q.trade_date;
    date_from = trim_space q.date_from;
    date_to = trim_space q.date_to;
    history = q.history;
    basket_id = trim_space q.basket_id;
    limit = bounded_limit 100 max_query_limit q.limit;
    cursor = trim_space q.cursor;
  })

-- A query of the past takes the closing snapshot where it names none.
abbrev snapshot_or_close : Bool → String → String
snapshot_or_close past kind = if past && is_empty kind then "close" else kind

-- normalizePositionQuery
unfoldable pub normalize_position_query : PositionQuery → Result PositionQuery
normalize_position_query q =
    let account = trim_space q.account_id in
    let date = trim_space q.trade_date in
    let from = trim_space q.date_from in
    let to = trim_space q.date_to in
    let past = q.history || not (is_empty date) || not (is_empty from) || not (is_empty to) in
    let kind = snapshot_or_close past (trim_space q.snapshot_type) in
    do
      guard (not (is_empty account)) (invalid_query "account_id is required")
      guard (exchange_fits q.exchange) (invalid_query "exchange must be SH, SZ, or BJ")
      guard
          (is_empty kind
            || one_of kind ("intraday" ∷ "open" ∷ "broker_close" ∷ "close" ∷ "reconcile" ∷ []))
          (invalid_query "snapshot_type must be intraday, open, broker_close, close, or reconcile")
      ok (record {
        account_id = account;
        symbol = trim_space q.symbol;
        exchange = q.exchange;
        trade_date = date;
        date_from = from;
        date_to = to;
        snapshot_type = kind;
        history = q.history;
        limit = bounded_limit 500 max_position_query_limit q.limit;
        cursor = trim_space q.cursor;
      })

abbrev offset_of : Option ℤ → Result ℕ
offset_of (some (pos n)) = ok n
offset_of _ = err (invalid_query "cursor must be a non-negative offset")

-- cursorOffset
unfoldable pub cursor_offset : String → Result ℕ
cursor_offset given =
    let cursor = trim_space given in if is_empty cursor then ok 0 else offset_of (atoi cursor)

-- The limit that the ledger is asked for: one row more, to see whether there is another page.
unfoldable pub fetch_limit : ℕ → ℤ → ℤ
fetch_limit maximum limit = if ltb_ℤ limit (pos maximum) then limit +ℤ pos 1 else limit

-- The page and the next cursor, from the rows that the ledger gave.
unfoldable pub cut_page {ℓ} : {A : Type ℓ} → ℕ → ℕ → ℤ → List A → List A × String
cut_page maximum offset limit rows =
    let next = itoa (int64_of (offset + pos_part limit)) in
    if ltb_ℤ limit (pos (length rows))
    then (take (pos_part limit) rows, next)
    else if leb_ℤ (pos maximum) limit
        && leb_ℤ limit (pos maximum)
        && leb_ℤ limit (pos (length rows))
    then (rows, next)
    else (rows, "")

-- The result of a list method: ListOrdersResult, ListFillsResult, ListComponentTransfersResult,
-- ListOrderFeesResult and ListPositionsResult, by the type of the query and that of a row.
pub record Listing (Query Row : Type 0) : Type 0 where
  pub rows : List Row
  pub query : Query
  pub count : ℕ
  pub next_cursor : String

-- What the list methods have in common behind the normalised query.
abbrev pub list_page :
    {Query Row : Type 0}
    → ℕ
    → Query
    → String
    → ℤ
    → (ℤ → Result (List Row))
    → Result (Listing Query Row)
list_page maximum query cursor limit fetch = do
  offset ← cursor_offset cursor
  found ← fetch (fetch_limit maximum limit)
  let (page, next) = cut_page maximum offset limit found
  ok (record { rows = page; query = query; count = length page; next_cursor = next })

-- Service.ListOrders, for the ledger's ListOrders
unfoldable pub list_orders :
    {Row : Type 0} → (OrderQuery → Result (List Row)) → OrderQuery → Result (Listing OrderQuery Row)
list_orders list given = do
  query ← normalize_order_query given
  list_page max_query_limit query query.cursor query.limit (λ n. list (record query { limit = n }))

-- Service.ListFills
unfoldable pub list_fills :
    {Row : Type 0} → (FillQuery → Result (List Row)) → FillQuery → Result (Listing FillQuery Row)
list_fills list given = do
  query ← normalize_fill_query given
  list_page max_query_limit query query.cursor query.limit (λ n. list (record query { limit = n }))

abbrev transfers_of :
    {Row : Type 0}
    → Option (ComponentTransferQuery → Result (List Row))
    → ComponentTransferQuery
    → Result (List Row)
transfers_of none query = err missing_ledger
transfers_of (some list) query = list query

-- Service.ListComponentTransfers, for a ledger that may have no such method
unfoldable pub list_component_transfers :
    {Row : Type 0}
    → Option (ComponentTransferQuery → Result (List Row))
    → ComponentTransferQuery
    → Result (Listing ComponentTransferQuery Row)
list_component_transfers store given = do
  query ← normalize_component_transfer_query given
  list_page max_query_limit query query.cursor query.limit
      (λ n. transfers_of store (record query { limit = n }))

pub record OrderFeeRecordQuery : Type 0 where
  pub account_id : String
  pub trade_date : String
  pub date_from : String
  pub date_to : String
  pub gateway_order_id : String
  pub fee_complete : Option Bool
  pub limit : ℤ
  pub cursor : String

abbrev trim_fee_query : OrderFeeRecordQuery → OrderFeeRecordQuery
trim_fee_query q = record {
  account_id = trim_space q.account_id;
  trade_date = trim_space q.trade_date;
  date_from = trim_space q.date_from;
  date_to = trim_space q.date_to;
  gateway_order_id = trim_space q.gateway_order_id;
  fee_complete = q.fee_complete;
  limit = bounded_limit 100 max_query_limit q.limit;
  cursor = trim_space q.cursor;
}

-- Service.ListOrderFees
unfoldable pub list_order_fees :
    {Row : Type 0}
    → Service
    → (OrderFeeRecordQuery → Result (List Row))
    → OrderFeeRecordQuery
    → Result (Listing OrderFeeRecordQuery Row)
list_order_fees service list given = do
  let query = trim_fee_query given
  route ← route_for_configured_account service query.account_id
  list_page max_query_limit query query.cursor query.limit (λ n. list (record query { limit = n }))

-- Service.GetAsset, for the ledger's GetLatestAsset
unfoldable pub get_asset :
    {Asset : Type 0} → Service → (String → Result Asset) → String → Result Asset
get_asset service get_latest_asset given = do
  let account = trim_space given
  route ← route_for_configured_account service account
  get_latest_asset account

-- Service.ListPositions, for the ledger's ListPositionSnapshots and ListPositions
unfoldable pub list_positions :
    {Row : Type 0}
    → Service
    → (PositionQuery → Result (List Row))
    → (PositionQuery → Result (List Row))
    → PositionQuery
    → Result (Listing PositionQuery Row)
list_positions service list_snapshots list_current given = do
  query ← normalize_position_query given
  route ← route_for_configured_account service query.account_id
  let past =
      query.history
      || not (is_empty query.trade_date)
      || not (is_empty query.date_from)
      || not (is_empty query.date_to)
  list_page max_position_query_limit query query.cursor query.limit (λ n.
      if past
      then list_snapshots (record query { limit = n })
      else list_current (record query { limit = n }))
