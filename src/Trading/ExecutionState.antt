-- ===== src/Trading/ExecutionState.antt =====
-- NormalizeOrderExecutionState of internal/trading/validation.go: the status of an order from what
-- the counter reports and from the quantities.
pub mod Laws
use ti_relay_trader.Prelude.{ℕ, String, Bool, true, false, not, ◌&&◌, ◌||◌, if◌then◌else◌, ◌==◌}
use ti_relay_trader.Prelude.Int.{ℤ, pos, ltb_ℤ, leb_ℤ, pos_part, neg_part}
use ti_relay_trader.Text.{is_empty}
use ti_relay_trader.Trading.Schema.{
  OrderStatus, GatewayStatus, order_status_text, gateway_status_text,
}
use ti_relay_trader.Trading.Validation.{order_status_terminal, gateway_status_terminal}

unfoldable pub order_status_for_gateway_status : GatewayStatus → OrderStatus
order_status_for_gateway_status GatewayStatus.accepted = OrderStatus.accepted
order_status_for_gateway_status GatewayStatus.working = OrderStatus.working
order_status_for_gateway_status GatewayStatus.filled = OrderStatus.filled
order_status_for_gateway_status GatewayStatus.cancelled = OrderStatus.cancelled
order_status_for_gateway_status GatewayStatus.rejected = OrderStatus.rejected
order_status_for_gateway_status (GatewayStatus.other s) = OrderStatus.created

-- `gatewayStatus != ""`
abbrev pub gateway_status_given : GatewayStatus → Bool
gateway_status_given (GatewayStatus.other s) = not (is_empty s)
gateway_status_given _ = true

-- `gatewayStatus == GatewayStatusAccepted`
abbrev pub gateway_status_accepted : GatewayStatus → Bool
gateway_status_accepted GatewayStatus.accepted = true
gateway_status_accepted _ = false

abbrev working_gateway_status : GatewayStatus → GatewayStatus
working_gateway_status gateway =
    if gateway_status_given gateway && not (gateway_status_accepted gateway)
    then gateway
    else GatewayStatus.working

unfoldable pub gateway_status_for_order_status : OrderStatus → GatewayStatus → GatewayStatus
gateway_status_for_order_status OrderStatus.working gateway = working_gateway_status gateway
gateway_status_for_order_status OrderStatus.partially_filled gateway =
    working_gateway_status gateway
gateway_status_for_order_status OrderStatus.filled gateway = GatewayStatus.filled
gateway_status_for_order_status OrderStatus.cancelled gateway = GatewayStatus.cancelled
gateway_status_for_order_status OrderStatus.rejected gateway = GatewayStatus.rejected
gateway_status_for_order_status _ gateway =
    if gateway_status_given gateway then gateway else GatewayStatus.accepted

abbrev pub is_filled : OrderStatus → Bool
is_filled OrderStatus.filled = true
is_filled _ = false

abbrev pub is_gateway_filled : GatewayStatus → Bool
is_gateway_filled GatewayStatus.filled = true
is_gateway_filled _ = false

abbrev pub order_status_given : OrderStatus → Bool
order_status_given (OrderStatus.other s) = not (is_empty s)
order_status_given _ = true

abbrev pub is_zero_int : ℤ → Bool
is_zero_int z = pos_part z == 0 && neg_part z == 0

-- The quantities show a completed order.
unfoldable pub quantity_complete : ℤ → ℤ → ℤ → Bool
quantity_complete order_qty cum_filled_qty leaves_qty =
    ltb_ℤ (pos 0) order_qty && leb_ℤ order_qty cum_filled_qty && is_zero_int leaves_qty

-- The branches that no report of a fill decides, in the order of the source.
reported_state : OrderStatus → GatewayStatus → Bool → ℤ → ℤ → OrderStatus × GatewayStatus × Bool
reported_state status gateway complete cum leaves =
    if order_status_terminal status
    then (status, gateway_status_for_order_status status gateway, true)
    else if gateway_status_terminal gateway
    then (order_status_for_gateway_status gateway, gateway, true)
    else if complete
    then (OrderStatus.filled, GatewayStatus.filled, true)
    else if ltb_ℤ (pos 0) cum && ltb_ℤ (pos 0) leaves
    then (OrderStatus.partially_filled, working_gateway_status gateway, false)
    else if order_status_given status
    then (status, gateway_status_for_order_status status gateway, false)
    else if gateway_status_given gateway
    then (order_status_for_gateway_status gateway, gateway, gateway_status_terminal gateway)
    else (OrderStatus.created, GatewayStatus.accepted, false)

unfoldable pub normalize_order_execution_state :
    OrderStatus → GatewayStatus → ℤ → ℤ → ℤ → OrderStatus × GatewayStatus × Bool
unfolding reported_state
normalize_order_execution_state status gateway order_qty cum leaves =
    let complete = quantity_complete order_qty cum leaves in
    if (is_filled status || is_gateway_filled gateway) && not complete
    then (if ltb_ℤ (pos 0) cum
        then (OrderStatus.partially_filled, GatewayStatus.working, false)
        else (OrderStatus.working, GatewayStatus.working, false))
    else reported_state status gateway complete cum leaves
