-- ===== src/Tests/Trading.antt =====
-- Tests of the trading schema and of the numbers in texts.
use ti_relay_trader.Prelude.{◌≡◌, ◌≢◌, ◌↔◌, refl, false, All, [], arith, some, not, ◌&&◌, ◌||◌}
use ti_relay_trader.Prelude.Int.{pos}
use ti_relay_trader.Text.{trim_space, lower_is}
use ti_relay_trader.Float64.{le_zero}
use ti_relay_trader.Text.Decimal.{itoa, atoi}
use ti_relay_trader.Text.Decimal.RoundTrip.{atoi-itoa}
use ti_relay_trader.Time.{at, business_date}
use ti_relay_trader.Errors.{ok}
use ti_relay_trader.Trading.Schema.{OrderStatus, GatewayStatus}
use ti_relay_trader.Trading.Validation.{
  is_blank, validate_submit, validate_batch, validate_batch_orders, validate_batch_order,
  with_account, order_status_terminal, gateway_status_terminal, exchange_valid, trade_side_valid,
  business_type_valid, offset_type_valid,
}
use ti_relay_trader.Trading.Validation.Laws.{
  IsValid, validate_submit_iff, validate_batch_sound, IsAccepted, AreDistinct, given_ids,
}
use ti_relay_trader.Trading.ExecutionState.{
  normalize_order_execution_state, is_filled, is_gateway_filled, quantity_complete,
}
use ti_relay_trader.Trading.ExecutionState.Laws.{
  execution_state_terminal, execution_state_filled, execution_state_idempotent, is_halted,
  is_gateway_halted,
}
use ti_relay_trader.Samples.{request, batch_request}

business_date_test : business_date (at 1_790_000_000_000_000_000) ≡ "2026-09-21"
unfolding business_date itoa
business_date_test = refl

business_date_leap : business_date (at 1_709_136_000_000_000_000) ≡ "2024-02-29"
unfolding business_date itoa
business_date_leap = refl

atoi-itoa_example : atoi (itoa (pos 1250)) ≡ some (pos 1250)
atoi-itoa_example = atoi-itoa 1250 (omega arith)

validate_submit_iff_example : (validate_submit request ≡ ok tt) ↔ IsValid request
validate_submit_iff_example = validate_submit_iff request

batch_request-ok : validate_batch batch_request ≡ ok tt
unfolding validate_batch trim_space validate_batch_orders validate_batch_order with_account
    validate_submit exchange_valid trade_side_valid business_type_valid offset_type_valid le_zero
    lower_is
batch_request-ok = refl

validate_batch_sound_example :
    (is_blank batch_request.account_id ≡ false)
    × (batch_request.orders ≢ [])
    × All (IsAccepted batch_request.account_id) batch_request.orders
    × AreDistinct (given_ids batch_request.orders)
validate_batch_sound_example = validate_batch_sound batch_request batch_request-ok

execution_state_terminal_example :
    let (s, g, terminal) =
      normalize_order_execution_state OrderStatus.working GatewayStatus.working
        (pos 100)
        (pos 100)
        (pos 0) in
    (order_status_terminal s ≡ terminal) × (gateway_status_terminal g ≡ terminal)
execution_state_terminal_example =
    execution_state_terminal OrderStatus.working GatewayStatus.working (pos 100) (pos 100) (pos 0)

execution_state_filled_example :
    let (s, g, terminal) =
      normalize_order_execution_state OrderStatus.working GatewayStatus.working
        (pos 100)
        (pos 100)
        (pos 0) in
    (is_gateway_filled g ≡ is_filled s)
    × (is_filled s
        ≡ quantity_complete (pos 100) (pos 100) (pos 0)
          && not (is_halted OrderStatus.working)
          && (is_filled OrderStatus.working || not (is_gateway_halted GatewayStatus.working)))
execution_state_filled_example =
    execution_state_filled OrderStatus.working GatewayStatus.working (pos 100) (pos 100) (pos 0)

execution_state_idempotent_example :
    let (s, g, terminal) =
      normalize_order_execution_state OrderStatus.working GatewayStatus.working
        (pos 100)
        (pos 100)
        (pos 0) in
    normalize_order_execution_state s g (pos 100) (pos 100) (pos 0) ≡ (s, g, terminal)
execution_state_idempotent_example =
    execution_state_idempotent OrderStatus.working GatewayStatus.working (pos 100) (pos 100) (pos 0)
