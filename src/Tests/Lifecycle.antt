-- ===== src/Tests/Lifecycle.antt =====
-- Tests of the writes of orders and order events.
use ti_relay_trader.Prelude.{
  String, ◌≡◌, ◌↔◌, refl, false, true, some, [], ◌∷◌, any, All, List, map, length,
}
use ti_relay_trader.Prelude.Int.{ℤ, pos}
use ti_relay_trader.Text.{trim_space, lower_is, is_empty}
use ti_relay_trader.Text.Decimal.{itoa}
use ti_relay_trader.Float64.{le_zero, eq, lt}
use ti_relay_trader.Time.{business_date, at}
use ti_relay_trader.Errors.{Result, ok, err, order_not_found}
use ti_relay_trader.Trading.Schema.{Order, OrderEvent, OrderStatus, GatewayStatus, text}
use ti_relay_trader.Trading.Validation.{
  exchange_valid, trade_side_valid, business_type_valid, offset_type_valid, order_status_terminal,
  gateway_status_terminal,
}
use ti_relay_trader.Trading.ExecutionState.{
  normalize_order_execution_state, quantity_complete, order_status_for_gateway_status,
  gateway_status_for_order_status,
}
use ti_relay_trader.Ledger.Orders.Dates.{normalize_trade_date}
use ti_relay_trader.Ledger.Store.{Store, Database, StreamRef, SourceRef}
use ti_relay_trader.Ledger.Orders.{
  create_order, conflicts, normalize_order, order_row, terminal_consistent,
}
use ti_relay_trader.Ledger.Orders.Merge.{merge_order, join_contexts, first_end}
use ti_relay_trader.Ledger.Orders.Upsert.{upsert_order, put_row, conflicts_elsewhere}
use ti_relay_trader.Ledger.Orders.Lifecycle.{Evolves}
use ti_relay_trader.Ledger.Orders.Latest.{Holds, upsert_order-Holds}
use ti_relay_trader.Ledger.OrderEvents.{
  normalize_order_event, apply_event, update_order_status, append_order_event, is_order_of,
}
use ti_relay_trader.Ledger.OrderEvents.Missing.{RefusesOnly, update_order_status_missing}
use ti_relay_trader.Ledger.OrderEvents.Replays.{append_order_event-append_order_event}
use ti_relay_trader.Ledger.Writes.{
  Write, create, upsert, update, record_event, write, is_plain, run_writes, run_writes-Evolves,
}
use ti_relay_trader.Orderflow.Requests.{draft_order_from_request, submit_trade_date}
use ti_relay_trader.Samples.{order, other_order, database, empty_store, store_or}

-- The order is filled.
abbrev fill_event : OrderEvent
fill_event = record {
  event_type = "";
  event_id = "";
  account_id = " acct";
  gateway_order_id = "gw-1";
  status = OrderStatus.filled;
  gateway_status = GatewayStatus.filled;
  is_terminal = false;
  order = record order { cum_filled_qty = pos 100; leaves_qty = pos 0; submitted_qty = pos 100 };
  produced_at = at (1_790_000_001_000_000_000);
  adapter_context = [];
}

abbrev partial_order : Order
partial_order = record order {
  cum_filled_qty = pos 40;
  leaves_qty = pos 60;
  status = OrderStatus.partially_filled;
  adapter_context = ("note", text "a") ∷ [];
}

abbrev position : StreamRef
position = record { key = "events"; id = "1-0" }

abbrev no_source : SourceRef
no_source = record {
  origin_message_id = "";
  request_id = "";
  correlation_id = "";
  idempotency_key = "";
}

abbrev day_of_writes : List Write
day_of_writes =
    create database order
    ∷ record_event database fill_event position no_source
    ∷ update database fill_event
    ∷ upsert database partial_order
    ∷ upsert database other_order
    ∷ create database order
    ∷ []

abbrev final_store : Store
final_store = run_writes day_of_writes empty_store

abbrev state : Order → String × (OrderStatus × (ℤ × ℤ))
state o = (o.gateway_order_id, (o.status, (o.cum_filled_qty, o.leaves_qty)))

-- The order that the event filled stays filled when the partly filled one arrives behind it.
filled-stays :
    map state final_store.orders
    ≡ ("gw-1", (OrderStatus.filled, (pos 100, pos 0)))
      ∷ ("gw-2", (OrderStatus.created, (pos 0, pos 100)))
      ∷ []
unfolding run_writes create_order normalize_order order_row terminal_consistent conflicts trim_space
    lower_is itoa le_zero business_date exchange_valid trade_side_valid business_type_valid
    offset_type_valid order_status_terminal gateway_status_terminal normalize_order_execution_state
    quantity_complete order_status_for_gateway_status gateway_status_for_order_status
    draft_order_from_request submit_trade_date normalize_trade_date upsert_order put_row
    conflicts_elsewhere merge_order join_contexts first_end normalize_order_event apply_event
    update_order_status append_order_event write eq lt
filled-stays = refl

day-plain : All (λ w. is_plain w ≡ true) day_of_writes
unfolding is_plain draft_order_from_request
day-plain = (refl, (refl, (refl, (refl, (refl, (refl, tt))))))

run_writes-Evolves_example : Evolves empty_store.orders final_store.orders
run_writes-Evolves_example = run_writes-Evolves day_of_writes empty_store day-plain

abbrev known_store : Store
known_store = run_writes (create database order ∷ upsert database other_order ∷ []) empty_store

abbrev later_database : Database
later_database = record { numeric = λ x. some x; now = at 1_790_003_600_000_000_000 }

abbrev order_or : Order → Result Order → Order
order_or o (ok p) = p
order_or o (err e) = o

abbrev merged_store : Store
merged_store = store_or known_store (upsert_order database partial_order known_store)

abbrev normal_partial : Order
normal_partial = order_or partial_order (normalize_order partial_order)

partial-normal : normalize_order partial_order ≡ ok normal_partial
unfolding run_writes create_order normalize_order order_row terminal_consistent conflicts trim_space
    lower_is itoa le_zero business_date exchange_valid trade_side_valid business_type_valid
    offset_type_valid order_status_terminal gateway_status_terminal normalize_order_execution_state
    quantity_complete order_status_for_gateway_status gateway_status_for_order_status
    draft_order_from_request submit_trade_date normalize_trade_date upsert_order put_row
    conflicts_elsewhere merge_order join_contexts first_end write eq lt
partial-normal = refl

abbrev first_or : Order → List Order → Order
first_or o [] = o
first_or o (p ∷ os) = p

partial-merged : upsert_order database partial_order known_store ≡ ok merged_store
unfolding run_writes create_order normalize_order order_row terminal_consistent conflicts trim_space
    lower_is itoa le_zero business_date exchange_valid trade_side_valid business_type_valid
    offset_type_valid order_status_terminal gateway_status_terminal normalize_order_execution_state
    quantity_complete order_status_for_gateway_status gateway_status_for_order_status
    draft_order_from_request submit_trade_date normalize_trade_date upsert_order put_row
    conflicts_elsewhere merge_order join_contexts first_end write eq lt
partial-merged = refl

upsert_order-Holds_example : Holds partial_order normal_partial merged_store
upsert_order-Holds_example =
    upsert_order-Holds database partial_order normal_partial known_store merged_store partial-normal
      partial-merged

abbrev event_or : OrderEvent → Result OrderEvent → OrderEvent
event_or e (ok e') = e'
event_or e (err x) = e

abbrev normal_event : OrderEvent
normal_event = event_or fill_event (normalize_order_event fill_event)

fill-normal : normalize_order_event fill_event ≡ ok normal_event
unfolding run_writes create_order normalize_order order_row terminal_consistent conflicts trim_space
    lower_is itoa le_zero business_date exchange_valid trade_side_valid business_type_valid
    offset_type_valid order_status_terminal gateway_status_terminal normalize_order_execution_state
    quantity_complete order_status_for_gateway_status gateway_status_for_order_status
    draft_order_from_request submit_trade_date normalize_trade_date upsert_order put_row
    conflicts_elsewhere merge_order join_contexts first_end normalize_order_event apply_event
    update_order_status append_order_event write eq lt
fill-normal = refl

update_order_status_missing_example :
    (update_order_status database fill_event empty_store ≡ err order_not_found
      ↔ any (is_order_of normal_event) empty_store.orders ≡ false)
    × RefusesOnly (update_order_status database fill_event empty_store)
update_order_status_missing_example =
    update_order_status_missing database fill_event normal_event empty_store fill-normal

abbrev recorded_store : Store
recorded_store =
    store_or known_store (append_order_event database fill_event position no_source known_store)

fill-recorded :
    append_order_event database fill_event position no_source known_store ≡ ok recorded_store
unfolding run_writes create_order normalize_order order_row terminal_consistent conflicts trim_space
    lower_is itoa le_zero business_date exchange_valid trade_side_valid business_type_valid
    offset_type_valid order_status_terminal gateway_status_terminal normalize_order_execution_state
    quantity_complete order_status_for_gateway_status gateway_status_for_order_status
    draft_order_from_request submit_trade_date normalize_trade_date upsert_order put_row
    conflicts_elsewhere merge_order join_contexts first_end normalize_order_event apply_event
    update_order_status append_order_event write eq lt
fill-recorded = refl

-- The event stands in the table once.
recorded-once : length recorded_store.order_events ≡ 1
unfolding run_writes create_order normalize_order order_row terminal_consistent conflicts trim_space
    lower_is itoa le_zero business_date exchange_valid trade_side_valid business_type_valid
    offset_type_valid order_status_terminal gateway_status_terminal normalize_order_execution_state
    quantity_complete order_status_for_gateway_status gateway_status_for_order_status
    draft_order_from_request submit_trade_date normalize_trade_date upsert_order put_row
    conflicts_elsewhere merge_order join_contexts first_end normalize_order_event apply_event
    update_order_status append_order_event write eq lt
recorded-once = refl

key-given : is_empty (trim_space position.key) ≡ false
unfolding trim_space
key-given = refl

id-given : is_empty (trim_space position.id) ≡ false
unfolding trim_space
id-given = refl

append_order_event-append_order_event_example :
    append_order_event database fill_event position no_source recorded_store ≡ ok recorded_store
append_order_event-append_order_event_example =
    append_order_event-append_order_event database database fill_event position no_source
      known_store recorded_store key-given id-given fill-recorded
