-- ===== src/Ledger/Orders.antt =====
-- CreateOrder, GetOrder and GetOrderByIdempotencyKey of internal/ledger/repository.go, with
-- insertOrderSQL, getOrderSQL and getOrderByIdempotencyKeySQL of sql.go.
pub mod Dates
pub mod Laws
pub mod Merge
pub mod Upsert
pub mod Lifecycle
pub mod Redelivery
pub mod Repeats
pub mod Latest
use ti_relay_trader.Prelude.{
  ℕ, ◌*◌, ◌/◌, String, Bool, true, false, not, ◌&&◌, ◌||◌, Option, none, some, List, [], ◌∷◌, ◌++◌,
  if◌then◌else◌, str_eq, keep, any,
}
use Prim.Native.Nat.{Ordering}
use Prim.Native.String.{compare}
use ti_relay_trader.Prelude.Int.{ℤ, pos, leb_ℤ}
use ti_relay_trader.Float64.{Float64, le_zero}
use ti_relay_trader.Text.{is_empty, trim_space}
use ti_relay_trader.Time.{Time, unset, at, is_unset, business_date}
use ti_relay_trader.Errors.{
  Result, ok, err, invalid_ledger_input, order_conflict, order_not_found, backend, ◌>>=◌, ◌>>◌,
  guard,
}
use ti_relay_trader.Trading.Schema.{
  Account, Order, OrderStatus, GatewayStatus, ContextValue, text, number, json,
}
use ti_relay_trader.Trading.Validation.{
  is_blank, exchange_valid, trade_side_valid, business_type_valid, offset_type_valid,
  order_status_terminal, gateway_status_terminal,
}
use ti_relay_trader.Trading.ExecutionState.{
  normalize_order_execution_state, is_filled, is_zero_int, order_status_given, gateway_status_given,
}
use ti_relay_trader.Ledger.Store.{Store, Database}
use Dates.{normalize_trade_date}

-- The first time that is set.
first_set : List Time → Option Time
first_set [] = none
first_set (unset ∷ rest) = first_set rest
first_set (at n ∷ rest) = some (at n)

abbrev date_of : Option Time → Result String
date_of none = err (invalid_ledger_input "trade_date or order timestamp is required")
date_of (some t) = ok (business_date t)

unfoldable pub normalize_order_trade_date : Order → Result String
unfolding first_set
normalize_order_trade_date o =
    if is_empty o.trade_date
    then date_of (
        first_set
          (o.inserted_at ∷ o.accepted_at ∷ o.created_at ∷ o.last_updated_at ∷ o.terminal_at ∷ []))
    else normalize_trade_date o.trade_date

trim_order : Order → Order
trim_order o = record o {
  account_id = trim_space o.account_id;
  client_order_id = trim_space o.client_order_id;
  gateway_order_id = trim_space o.gateway_order_id;
  order_stream_id = trim_space o.order_stream_id;
  trade_date = trim_space o.trade_date;
  symbol = trim_space o.symbol;
  name = trim_space o.name;
  origin_message_id = trim_space o.origin_message_id;
  request_id = trim_space o.request_id;
  idempotency_key = trim_space o.idempotency_key;
  shareholder_id = trim_space o.shareholder_id;
  strategy_type = trim_space o.strategy_type;
  strategy_id = trim_space o.strategy_id;
  basket_id = trim_space o.basket_id;
  parent_order_id = trim_space o.parent_order_id;
  t0_order_group_id = trim_space o.t0_order_group_id;
}

check_order : Order → Result (Unit {0})
check_order o = do
  guard (not (is_blank o.account_id)) (invalid_ledger_input "account_id is required")
  guard (not (is_blank o.gateway_order_id)) (invalid_ledger_input "gateway_order_id is required")
  guard (not (is_blank o.symbol)) (invalid_ledger_input "symbol is required")
  guard (exchange_valid o.exchange) (invalid_ledger_input "exchange must be SH, SZ, or BJ")
  guard (trade_side_valid o.trade_side) (invalid_ledger_input "trade_side must be B, S, P, or R")
  guard (business_type_valid o.business_type) (invalid_ledger_input "business_type must be S or E")
  guard (offset_type_valid o.offset_type)
      (invalid_ledger_input "offset_type must be O, C, or empty")
  guard (not (le_zero o.limit_price)) (invalid_ledger_input "limit_price must be positive")
  guard (not (leb_ℤ o.order_qty (pos 0))) (invalid_ledger_input "order_qty must be positive")

-- The statuses with their defaults, the execution state, and the quantities that follow from it.
settle_order : Order → Order
settle_order o =
    let status = if order_status_given o.status then o.status else OrderStatus.created in
    let gateway =
      if gateway_status_given o.gateway_status then o.gateway_status else GatewayStatus.accepted in
    let (s, g, inferred) =
      normalize_order_execution_state status gateway o.order_qty o.cum_filled_qty o.leaves_qty in
    let terminal = inferred || order_status_terminal s || gateway_status_terminal g in
    let cum = if is_filled s then o.order_qty else o.cum_filled_qty in
    let leaves = if is_filled s then pos 0 else o.leaves_qty in
    let untouched =
      is_zero_int leaves
      && is_zero_int cum
      && is_zero_int o.cancelled_qty
      && is_zero_int o.invalid_qty
      && not terminal in
    record o {
      status = s;
      gateway_status = g;
      is_terminal = terminal;
      cum_filled_qty = cum;
      leaves_qty = if untouched then o.order_qty else leaves;
    }

-- normalizeOrder
unfoldable pub normalize_order : Order → Result Order
unfolding trim_order check_order normalize_order_trade_date settle_order
normalize_order given = do
  let o = trim_order given
  check_order o
  date ← normalize_order_trade_date o
  ok (settle_order (record o { trade_date = date }))

abbrev pub refuse_number : Option Float64 → Result Float64
refuse_number none = err backend
refuse_number (some x) = ok x

-- Postgres keeps microseconds.
unfoldable pub micro : Time → Time
micro unset = unset
micro (at n) = at (n / 1000 * 1000)

abbrev pub lookup_text : String → List (String × ContextValue) → String
lookup_text key [] = ""
lookup_text key ((k, text v) ∷ rest) = if str_eq k key then v else lookup_text key rest
lookup_text key ((k, number v) ∷ rest) = if str_eq k key then "" else lookup_text key rest
lookup_text key ((k, json v) ∷ rest) = if str_eq k key then "" else lookup_text key rest

-- The row that a normalised order becomes, as scanOrder reads it back: nullString trims, and the
-- counter's session is kept in the adapter context only.
unfoldable pub order_row : Database → Order → Result Order
unfolding micro
order_row db o = do
  price ← refuse_number (db.numeric o.limit_price)
  average ← refuse_number (db.numeric o.avg_fill_price)
  fee ← refuse_number (db.numeric o.fee)
  ok (record o {
    counter_session_id = trim_space (lookup_text "counter_session_id" o.adapter_context);
    limit_price = price;
    avg_fill_price = average;
    fee = fee;
    adapter_status_name = trim_space o.adapter_status_name;
    reject_code = trim_space o.reject_code;
    reject_message = trim_space o.reject_message;
    created_at = micro (if is_unset o.created_at then db.now else o.created_at);
    accepted_at = micro o.accepted_at;
    inserted_at = micro o.inserted_at;
    last_updated_at = micro o.last_updated_at;
    terminal_at = micro o.terminal_at;
  })

abbrev pub is_listed_status : OrderStatus → Bool
is_listed_status (OrderStatus.other s) = false
is_listed_status _ = true

abbrev pub is_listed_gateway_status : GatewayStatus → Bool
is_listed_gateway_status (GatewayStatus.other s) = false
is_listed_gateway_status _ = true

-- orders_terminal_consistency_check: a terminal row has a terminal status.
unfoldable pub terminal_consistent : Order → Bool
terminal_consistent o = not o.is_terminal || order_status_terminal o.status

-- The CHECK constraints of the table that the price does not decide.
unfoldable pub row_allowed : Order → Bool
unfolding terminal_consistent
row_allowed o =
    leb_ℤ (pos 0) o.submitted_qty
    && leb_ℤ (pos 0) o.cum_filled_qty
    && leb_ℤ (pos 0) o.leaves_qty
    && leb_ℤ (pos 0) o.cancelled_qty
    && leb_ℤ (pos 0) o.invalid_qty
    && is_listed_status o.status
    && is_listed_gateway_status o.gateway_status
    && terminal_consistent o

-- Two rows with the same account, trade date and gateway order id, with the same account and client
-- order id, or with the same account and idempotency key; an empty text stands for NULL, which
-- violates nothing.
unfoldable pub conflicts : Order → Order → Bool
conflicts o p =
    str_eq o.account_id p.account_id
    && ((str_eq o.trade_date p.trade_date && str_eq o.gateway_order_id p.gateway_order_id)
        || (not (is_empty o.client_order_id) && str_eq o.client_order_id p.client_order_id)
        || (not (is_empty o.idempotency_key) && str_eq o.idempotency_key p.idempotency_key))

abbrev pub is_account : Order → Account → Bool
is_account o a = str_eq a.account_id o.account_id

-- INSERT INTO orders: a unique violation (code 23505) becomes ErrOrderConflict, any other refusal
-- of Postgres stays an error of the database, an account with no row among them.
unfoldable pub create_order : Database → Order → Store → Result Store
unfolding row_allowed
create_order db given s = do
  o ← normalize_order given
  row ← order_row db o
  guard (row_allowed row) backend
  guard (not (any (conflicts row) s.orders)) order_conflict
  guard (any (is_account row) s.accounts) backend
  ok (record s { orders = s.orders ++ (row ∷ []) })

-- scanOrder: the execution state is normalised again on the way out.
unfoldable pub scan_order : Order → Order
scan_order o =
    let (s, g, terminal) =
      normalize_order_execution_state o.status o.gateway_status o.order_qty o.cum_filled_qty
        o.leaves_qty in
    record o {
      status = s;
      gateway_status = g;
      is_terminal = terminal;
      cum_filled_qty = if is_filled s then o.order_qty else o.cum_filled_qty;
      leaves_qty = if is_filled s then pos 0 else o.leaves_qty;
    }

-- COALESCE(last_updated_at, created_at)
touched : Order → Time
touched o = if is_unset o.last_updated_at then o.created_at else o.last_updated_at

abbrev pub later : Time → Time → Bool
later unset t = false
later (at m) unset = true
later (at m) (at n) = elim (Prim.Native.Nat.compare m n) [ Ordering.gt ↦ true | _ ↦ false ]

abbrev pub text_gt : String → String → Bool
text_gt a b = elim (compare a b) [ Ordering.gt ↦ true | _ ↦ false ]

-- ORDER BY trade_date DESC, COALESCE(last_updated_at, created_at) DESC
by_date : Order → Order → Bool
unfolding touched
by_date o p =
    text_gt o.trade_date p.trade_date
    || (str_eq o.trade_date p.trade_date && later (touched o) (touched p))

-- ORDER BY COALESCE(last_updated_at, created_at) DESC, gateway_order_id DESC
by_touch : Order → Order → Bool
unfolding touched
by_touch o p =
    later (touched o) (touched p)
    || (not (later (touched p) (touched o)) && text_gt o.gateway_order_id p.gateway_order_id)

-- LIMIT 1, under an order: of rows that the order ranks alike, the first.
first_by : (Order → Order → Bool) → List Order → Option Order
first_by before [] = none
first_by before (o ∷ rest) = elim (first_by before rest) [
  | none ↦ some o
  | some p ↦ if before p o then some p else some o
]

abbrev found : Option Order → Result Order
found none = err order_not_found
found (some o) = ok (scan_order o)

abbrev pub has_gateway_id : String → String → Order → Bool
has_gateway_id account gateway o = str_eq o.account_id account && str_eq o.gateway_order_id gateway

unfoldable pub get_order : String → String → Store → Result Order
unfolding first_by by_date
get_order account gateway s = do
  guard (not (is_blank account)) (invalid_ledger_input "account_id is required")
  guard (not (is_blank gateway)) (invalid_ledger_input "gateway_order_id is required")
  found
      (first_by by_date (keep (has_gateway_id (trim_space account) (trim_space gateway)) s.orders))

abbrev pub has_key : String → String → Order → Bool
has_key account key o = str_eq o.account_id account && str_eq o.idempotency_key key

unfoldable pub get_order_by_idempotency_key : String → String → Store → Result Order
unfolding first_by by_touch
get_order_by_idempotency_key account key s = do
  guard (not (is_blank account)) (invalid_ledger_input "account_id is required")
  guard (not (is_blank key)) (invalid_ledger_input "idempotency_key is required")
  found (first_by by_touch (keep (has_key (trim_space account) (trim_space key)) s.orders))
