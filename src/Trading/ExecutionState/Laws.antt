-- ===== src/Trading/ExecutionState/Laws.antt =====
-- What the normalised execution state of an order satisfies, whatever the counter reports.
use ti_relay_trader.Prelude.{◌≡◌, Bool, true, false, not, ◌&&◌, ◌||◌, arith}
use ti_relay_trader.Prelude.Int.{ℤ}
use ti_relay_trader.Trading.Schema.{OrderStatus, GatewayStatus}
use ti_relay_trader.Trading.Validation.{order_status_terminal, gateway_status_terminal}
use ti_relay_trader.Trading.ExecutionState.{
  is_filled, is_gateway_filled, quantity_complete, normalize_order_execution_state,
  order_status_for_gateway_status, gateway_status_for_order_status,
}

-- The order was cancelled or rejected.
abbrev pub is_halted : OrderStatus → Bool
is_halted OrderStatus.cancelled = true
is_halted OrderStatus.rejected = true
is_halted _ = false

abbrev pub is_gateway_halted : GatewayStatus → Bool
is_gateway_halted GatewayStatus.cancelled = true
is_gateway_halted GatewayStatus.rejected = true
is_gateway_halted _ = false

-- For any reported statuses and quantities, the returned flag, the returned order status and the
-- returned gateway status agree on whether the order is terminal.
pub execution_state_terminal :
    (status : OrderStatus) (gateway : GatewayStatus) (order_qty cum leaves : ℤ)
    → let (s, g, terminal) = normalize_order_execution_state status gateway order_qty cum leaves in
      (order_status_terminal s ≡ terminal) × (gateway_status_terminal g ≡ terminal)
unfolding normalize_order_execution_state order_status_terminal gateway_status_terminal
    order_status_for_gateway_status gateway_status_for_order_status
execution_state_terminal status gateway order_qty cum leaves = ground arith

-- An order comes out filled, in both returned statuses, exactly when its quantities are complete,
-- its reported status is not cancelled or rejected, and its gateway status is not either or the
-- reported status is filled.
pub execution_state_filled :
    (status : OrderStatus) (gateway : GatewayStatus) (order_qty cum leaves : ℤ)
    → let (s, g, terminal) = normalize_order_execution_state status gateway order_qty cum leaves in
      (is_gateway_filled g ≡ is_filled s)
      × (is_filled s
          ≡ quantity_complete order_qty cum leaves
            && not (is_halted status)
            && (is_filled status || not (is_gateway_halted gateway)))
unfolding normalize_order_execution_state order_status_terminal gateway_status_terminal
    order_status_for_gateway_status gateway_status_for_order_status
execution_state_filled status gateway order_qty cum leaves = ground arith

-- For any reported statuses and quantities, normalising the returned statuses again changes
-- nothing.
pub execution_state_idempotent :
    (status : OrderStatus) (gateway : GatewayStatus) (order_qty cum leaves : ℤ)
    → let (s, g, terminal) = normalize_order_execution_state status gateway order_qty cum leaves in
      normalize_order_execution_state s g order_qty cum leaves ≡ (s, g, terminal)
unfolding normalize_order_execution_state order_status_terminal gateway_status_terminal
    order_status_for_gateway_status gateway_status_for_order_status
execution_state_idempotent status gateway order_qty cum leaves = ground arith
