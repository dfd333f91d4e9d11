-- ===== src/Ledger/OrderEvents.antt =====
-- AppendOrderEvent and UpdateOrderStatus of internal/ledger/repository.go, with appendOrderEventSQL and
-- updateOrderStatusSQL of sql.go.
pub mod Missing
pub mod Replays
use ti_relay_trader.Prelude.{
  String, Bool, true, false, not, ◌&&◌, ◌||◌, Option, none, some, List, [], ◌∷◌, ◌++◌, any,
  find_first, if◌then◌else◌, str_eq,
}
use ti_relay_trader.Prelude.Int.{ℤ, pos, ltb_ℤ}
use ti_relay_trader.Float64.{Float64, finite, eq, lt}
use ti_relay_trader.Text.{is_empty, trim_space}
use ti_relay_trader.Time.{Time, unset, at, is_unset, business_date}
use ti_relay_trader.Errors.{
  Result, ok, err, invalid_ledger_input, order_not_found, backend, ◌>>=◌, ◌>>◌, guard,
}
use ti_relay_trader.Trading.Schema.{Order, OrderEvent, OrderStatus, GatewayStatus}
use ti_relay_trader.Trading.Validation.{is_blank, order_status_terminal, gateway_status_terminal}
use ti_relay_trader.Trading.ExecutionState.{
  normalize_order_execution_state, is_filled, order_status_given, gateway_status_given,
}
use ti_relay_trader.Ledger.Store.{Store, Database, StreamRef, SourceRef, OrderEventRow}
use ti_relay_trader.Ledger.Orders.{
  normalize_order_trade_date, refuse_number, row_allowed, lookup_text, micro, is_listed_status,
  is_listed_gateway_status,
}
use ti_relay_trader.Ledger.Orders.Dates.{normalize_trade_date}
use ti_relay_trader.Ledger.Orders.Merge.{
  text_or, int_or, time_or, greatest, is_rejected, is_gateway_rejected, join_contexts,
}
use ti_relay_trader.Ledger.Orders.Upsert.{put_row}

abbrev first_non_empty : String → String → String
first_non_empty a b = if not (is_blank a) then a else if not (is_blank b) then b else ""

-- The ids and texts of an event, and those of the order in it.
unfoldable pub trim_event : OrderEvent → OrderEvent
trim_event e =
    let account = trim_space (if is_blank e.account_id then e.order.account_id else e.account_id) in
    let gateway =
      trim_space
        (if is_blank e.gateway_order_id then e.order.gateway_order_id else e.gateway_order_id) in
    record e {
      account_id = account;
      gateway_order_id = gateway;
      order = record e.order {
        account_id = first_non_empty (trim_space e.order.account_id) account;
        gateway_order_id = first_non_empty (trim_space e.order.gateway_order_id) gateway;
        trade_date = trim_space e.order.trade_date;
        strategy_type = trim_space e.order.strategy_type;
        strategy_id = trim_space e.order.strategy_id;
        basket_id = trim_space e.order.basket_id;
        parent_order_id = trim_space e.order.parent_order_id;
        t0_order_group_id = trim_space e.order.t0_order_group_id;
      };
    }

-- The day of the event where the order has no trade date.
unfoldable pub date_event : OrderEvent → Result String
unfolding normalize_order_trade_date
date_event e = do
  let given = e.order.trade_date
  let own =
      if is_unset e.produced_at
      then normalize_order_trade_date e.order
      else ok (business_date e.produced_at)
  date ← (if is_empty given then own else ok given)
  (if is_empty date then ok date else normalize_trade_date date)

abbrev status_of_event : OrderEvent → OrderStatus
status_of_event e =
    if order_status_given e.status
    then e.status
    else if order_status_given e.order.status
    then e.order.status
    else OrderStatus.created

abbrev gateway_status_of_event : OrderEvent → GatewayStatus
gateway_status_of_event e =
    if gateway_status_given e.gateway_status
    then e.gateway_status
    else if gateway_status_given e.order.gateway_status
    then e.order.gateway_status
    else GatewayStatus.accepted

-- The statuses, the terminal flag, and the quantities of an order that is filled.
unfoldable pub settle_event : OrderEvent → OrderEvent
settle_event e =
    let (s, g, inferred) =
      normalize_order_execution_state (status_of_event e) (gateway_status_of_event e)
        e.order.order_qty e.order.cum_filled_qty e.order.leaves_qty in
    let terminal = inferred || order_status_terminal s || gateway_status_terminal g in
    record e {
      status = s;
      gateway_status = g;
      is_terminal = terminal;
      order = record e.order {
        status = s;
        gateway_status = g;
        is_terminal = terminal;
        cum_filled_qty = if is_filled s then e.order.order_qty else e.order.cum_filled_qty;
        leaves_qty = if is_filled s then pos 0 else e.order.leaves_qty;
      };
    }

-- normalizeOrderEvent
unfoldable pub normalize_order_event : OrderEvent → Result OrderEvent
unfolding trim_event date_event settle_event
normalize_order_event given = do
  let event_type = if is_empty given.event_type then "order.event" else given.event_type
  guard (str_eq event_type "order.event") (invalid_ledger_input "event_type must be order.event")
  let e = trim_event (record given { event_type = event_type })
  date ← date_event e
  guard (not (is_blank e.account_id)) (invalid_ledger_input "account_id is required")
  guard (not (is_blank e.gateway_order_id)) (invalid_ledger_input "gateway_order_id is required")
  ok (settle_event (record e { order = record e.order { trade_date = date } }))

-- The order that an event is of, among the rows.
abbrev pub is_order_of : OrderEvent → Order → Bool
is_order_of e o =
    str_eq o.account_id e.account_id
    && str_eq o.gateway_order_id e.gateway_order_id
    && str_eq o.trade_date e.order.trade_date

-- GREATEST(fee, $17), where Postgres takes NaN for the greatest number.
abbrev pub greatest_fee : Database → Float64 → Float64 → Result Float64
greatest_fee db old given = if lt given old then ok old else refuse_number (db.numeric given)

abbrev pub average_or : Database → Float64 → Float64 → Result Float64
average_or db old given =
    if eq given (finite (pos 0)) then ok old else refuse_number (db.numeric given)

-- reject_code and reject_message
abbrev reject_text : OrderEvent → Order → String → String → String
reject_text e o old_text new_text =
    if o.is_terminal && not e.is_terminal && is_rejected o.status
    then old_text
    else if is_rejected e.status || is_gateway_rejected e.gateway_status
    then trim_space new_text
    else ""

-- The SET clause of updateOrderStatusSQL.
unfoldable pub apply_event : Database → OrderEvent → Order → Result Order
apply_event db e o = do
  average ← average_or db o.avg_fill_price e.order.avg_fill_price
  fee ← greatest_fee db o.fee e.order.fee
  let kept = o.is_terminal && not e.is_terminal
  let now = micro db.now
  let produced = micro e.produced_at
  let context = join_contexts o.adapter_context e.adapter_context
  ok (record o {
    order_id = int_or e.order.order_id o.order_id;
    order_stream_id = text_or (trim_space e.order.order_stream_id) o.order_stream_id;
    counter_session_id = trim_space (lookup_text "counter_session_id" context);
    strategy_type = text_or e.order.strategy_type o.strategy_type;
    strategy_id = text_or e.order.strategy_id o.strategy_id;
    basket_id = text_or e.order.basket_id o.basket_id;
    parent_order_id = text_or e.order.parent_order_id o.parent_order_id;
    t0_order_group_id = text_or e.order.t0_order_group_id o.t0_order_group_id;
    submitted_qty = greatest o.submitted_qty e.order.submitted_qty;
    cum_filled_qty =
        if e.is_terminal
        then e.order.cum_filled_qty
        else greatest o.cum_filled_qty e.order.cum_filled_qty;
    leaves_qty =
        if kept
        then o.leaves_qty
        else if ltb_ℤ (pos 0) e.order.leaves_qty || e.is_terminal
        then e.order.leaves_qty
        else o.leaves_qty;
    cancelled_qty = greatest o.cancelled_qty e.order.cancelled_qty;
    invalid_qty = greatest o.invalid_qty e.order.invalid_qty;
    avg_fill_price = average;
    fee = fee;
    status = if kept then o.status else e.status;
    gateway_status = if kept then o.gateway_status else e.gateway_status;
    is_terminal = o.is_terminal || e.is_terminal;
    reject_code = reject_text e o o.reject_code e.order.reject_code;
    reject_message = reject_text e o o.reject_message e.order.reject_message;
    last_updated_at = time_or produced now;
    terminal_at =
        if kept
        then o.terminal_at
        else if e.is_terminal
        then time_or (micro e.order.terminal_at) (time_or produced (time_or o.terminal_at now))
        else o.terminal_at;
    adapter_context = context;
  })

abbrev pub update_found : Database → OrderEvent → Store → Option Order → Result Store
update_found db e s none = err order_not_found
update_found db e s (some o) = do
  row ← apply_event db e o
  guard (row_allowed row) backend
  ok (record s { orders = put_row (is_order_of e) row s.orders })

-- UpdateOrderStatus
unfoldable pub update_order_status : Database → OrderEvent → Store → Result Store
update_order_status db given s = do
  e ← normalize_order_event given
  update_found db e s (find_first (is_order_of e) s.orders)

-- order_events_event_id_unique and order_events_stream_unique, which ignore NULL.
abbrev pub event_conflicts : OrderEventRow → OrderEventRow → Bool
event_conflicts a b =
    (not (is_empty a.event.event_id)
      && str_eq a.event.account_id b.event.account_id
      && str_eq a.event.event_id b.event.event_id)
    || (not (is_empty a.stream_ref.key)
        && not (is_empty a.stream_ref.id)
        && str_eq a.stream_ref.key b.stream_ref.key
        && str_eq a.stream_ref.id b.stream_ref.id)

abbrev pub event_row : OrderEvent → StreamRef → SourceRef → OrderEventRow
event_row e stream source = record {
  event = record e { event_id = trim_space e.event_id; produced_at = micro e.produced_at };
  stream_ref = record { key = trim_space stream.key; id = trim_space stream.id };
  source_ref = record {
    origin_message_id =
        trim_space (first_non_empty source.origin_message_id e.order.origin_message_id);
    request_id = trim_space (first_non_empty source.request_id e.order.request_id);
    correlation_id = trim_space source.correlation_id;
    idempotency_key = "";
  };
}

-- ON CONFLICT DO NOTHING: an event that is there already is left as it is.
abbrev pub append_row : OrderEvent → OrderEventRow → Store → Result Store
append_row e row s = do
  guard (is_listed_status e.status && is_listed_gateway_status e.gateway_status) backend
  let appended =
      guard (any (is_order_of e) s.orders) backend
      >> ok (record s { order_events = s.order_events ++ (row ∷ []) })
  (if any (event_conflicts row) s.order_events then ok s else appended)

-- AppendOrderEvent
unfoldable pub append_order_event :
    Database → OrderEvent → StreamRef → SourceRef → Store → Result Store
append_order_event db given stream source s = do
  e ← normalize_order_event given
  append_row e (event_row e stream source) s
