-- ===== src/Tests/Ledger.antt =====
-- Tests of the ledger's order tables.
use ti_relay_trader.Prelude.{◌≡◌, refl, false}
use ti_relay_trader.Text.{trim_space, lower_is}
use ti_relay_trader.Text.Decimal.{itoa}
use ti_relay_trader.Float64.{le_zero}
use ti_relay_trader.Time.{business_date}
use ti_relay_trader.Errors.{ok}
use ti_relay_trader.Trading.Validation.{
  is_blank, exchange_valid, trade_side_valid, business_type_valid, offset_type_valid,
  order_status_terminal, gateway_status_terminal,
}
use ti_relay_trader.Trading.ExecutionState.{
  normalize_order_execution_state, quantity_complete, order_status_for_gateway_status,
  gateway_status_for_order_status,
}
use ti_relay_trader.Ledger.Orders.Dates.{normalize_trade_date}
use ti_relay_trader.Ledger.Store.{Store}
use ti_relay_trader.Ledger.Orders.{
  create_order, get_order, conflicts, normalize_order, order_row, terminal_consistent,
}
use ti_relay_trader.Ledger.Orders.Laws.{FoundOrder, create_order-get_order}
use ti_relay_trader.Orderflow.Requests.{draft_order_from_request, submit_trade_date}
use ti_relay_trader.Samples.{order, other_order, database, empty_store, store_or}

abbrev first_store : Store
first_store = store_or empty_store (create_order database order empty_store)

abbrev second_store : Store
second_store = store_or first_store (create_order database other_order first_store)

first-ok : create_order database order empty_store ≡ ok first_store
unfolding create_order normalize_order order_row terminal_consistent conflicts trim_space lower_is
    itoa le_zero business_date exchange_valid trade_side_valid business_type_valid offset_type_valid
    order_status_terminal gateway_status_terminal normalize_order_execution_state quantity_complete
    order_status_for_gateway_status gateway_status_for_order_status draft_order_from_request
    submit_trade_date normalize_trade_date
first-ok = refl

second-ok : create_order database other_order first_store ≡ ok second_store
unfolding create_order normalize_order order_row terminal_consistent conflicts trim_space lower_is
    itoa le_zero business_date exchange_valid trade_side_valid business_type_valid offset_type_valid
    order_status_terminal gateway_status_terminal normalize_order_execution_state quantity_complete
    order_status_for_gateway_status gateway_status_for_order_status draft_order_from_request
    submit_trade_date normalize_trade_date
second-ok = refl

account-given : is_blank other_order.account_id ≡ false
unfolding draft_order_from_request trim_space
account-given = refl

gateway-given : is_blank other_order.gateway_order_id ≡ false
unfolding draft_order_from_request trim_space
gateway-given = refl

create_order-get_order_example :
    FoundOrder
      (trim_space other_order.account_id)
      (trim_space other_order.gateway_order_id)
      (get_order other_order.account_id other_order.gateway_order_id second_store)
create_order-get_order_example =
    create_order-get_order database other_order first_store second_store account-given gateway-given
      second-ok
