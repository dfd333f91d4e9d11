-- ===== src/Orderflow/Preflight.antt =====
-- Routes, and the idempotency check that stands in front of a submission.
pub mod Laws
use ti_relay_trader.Prelude.{
  String, Bool, true, false, not, ◌&&◌, ◌||◌, Option, none, some, List, [], ◌∷◌, if◌then◌else◌,
  str_eq, find_first,
}
use ti_relay_trader.Text.{is_empty, trim_space}
use ti_relay_trader.Time.{Time}
use ti_relay_trader.Errors.{
  Result, ok, err, route_not_found, account_disabled, trading_disabled, duplicate_gateway_order,
  idempotency_conflict, is_order_not_found, is_archived_command_not_found,
}
use ti_relay_trader.Trading.Schema.{SubmitOrderRequest, Account, AccountStatus, Order}
use ti_relay_trader.Trading.Validation.{is_blank}
use ti_relay_trader.Streams.{action_order_submit}
use ti_relay_trader.Ledger.Store.{RawStreamMessage, upsert_account}
use ti_relay_trader.Ledger.Archive.{get_archived_command, get_archived_command_by_message_id}
use ti_relay_trader.Ledger.Orders.{get_order, get_order_by_idempotency_key}
use ti_relay_trader.Orderflow.World.{
  AccountRoute, Service, World, M, ◌>>=◌, ◌>>◌, pure, raise, lift, attempt, read_ledger,
}
use ti_relay_trader.Orderflow.Requests.{same_submit_order, same_submit_order_requests}
use ti_relay_trader.Orderflow.Archived.{archived_submit_order_request}

-- Config.AccountRoute
unfoldable pub account_route : Service → String → Option AccountRoute
account_route service account = find_first (λ r. str_eq r.account_id account) service.accounts

abbrev route_or_error : String → Option AccountRoute → Result AccountRoute
route_or_error account none = err (route_not_found account)
route_or_error account (some r) = ok r

-- routeForConfiguredAccount
unfoldable pub route_for_configured_account : Service → String → Result AccountRoute
route_for_configured_account service account =
    route_or_error account (account_route service (trim_space account))

abbrev only_enabled : String → Result AccountRoute → Result AccountRoute
only_enabled account (ok r) = if r.enabled then ok r else err (account_disabled account)
only_enabled account (err e) = err e

-- routeForEnabledAccount
unfoldable pub route_for_enabled_account : Service → String → Result AccountRoute
route_for_enabled_account service account =
    only_enabled account (route_for_configured_account service account)

abbrev only_trading : String → Result AccountRoute → Result AccountRoute
only_trading account (ok r) = if r.trading_enabled then ok r else err (trading_disabled account)
only_trading account (err e) = err e

-- routeForAccount
unfoldable pub route_for_account : Service → String → Result AccountRoute
route_for_account service account =
    only_trading account
      (only_enabled account (route_or_error account (account_route service account)))

-- The account row that each command writes first.
unfoldable pub account_of_route : AccountRoute → Time → Account
account_of_route route now = record {
  account_id = route.account_id;
  broker_id = route.broker_id;
  gateway_id = route.gateway_id;
  stream_prefix = route.stream_prefix;
  status = AccountStatus.enabled;
  enabled = route.enabled;
  trading_enabled = route.trading_enabled;
  simulated = route.simulated;
  tags = ("source", "config") ∷ [];
  updated_at = now;
}

abbrev compare_original :
    Order → SubmitOrderRequest → Result RawStreamMessage → Result SubmitOrderRequest → Result Bool
compare_original order requested (err e) _ =
    if is_archived_command_not_found e then ok (same_submit_order order requested) else err e
compare_original order requested (ok raw) (ok original) =
    ok (same_submit_order_requests original requested)
compare_original order requested (ok raw) (err e) = err e

abbrev original_request : String → Result RawStreamMessage → Result SubmitOrderRequest
original_request gateway (ok raw) = archived_submit_order_request raw gateway
original_request gateway (err e) = err e

-- sameOriginalSubmitOrder: against the archived command that created the order, and against the
-- order itself where there is none.
unfoldable pub same_original_submit_order : Service → Order → SubmitOrderRequest → M Bool
same_original_submit_order service order requested = do
  archived ← attempt (
      read_ledger service (
        if is_blank order.origin_message_id
        then get_archived_command order.account_id action_order_submit order.idempotency_key
        else get_archived_command_by_message_id order.origin_message_id))
  lift (
      compare_original order requested archived
        (original_request requested.gateway_order_id archived))

-- `none`: no order stands in the way. `some`: this order is the one that the request asks for.
abbrev pub Preflight : Type 0
Preflight = Option Order

-- An order with the gateway order id stands in the ledger.
unfoldable pub preflight_known : Service → SubmitOrderRequest → Order → M Preflight
preflight_known service req existing =
    if str_eq existing.idempotency_key req.idempotency_key
    then (do
      same ← same_original_submit_order service existing req
      if same then pure (some existing) else raise idempotency_conflict)
    else raise duplicate_gateway_order

-- An order with the idempotency key stands in the ledger, and none with the gateway order id was
-- found.
unfoldable pub preflight_keyed : Service → SubmitOrderRequest → Order → M Preflight
preflight_keyed service req existing = do
  same ← same_original_submit_order service existing req
  if str_eq existing.gateway_order_id req.gateway_order_id && same
      then pure (some existing)
      else raise idempotency_conflict

abbrev by_key_result : Service → SubmitOrderRequest → Result Order → M Preflight
by_key_result service req (ok existing) = preflight_keyed service req existing
by_key_result service req (err e) = if is_order_not_found e then pure none else raise e

unfoldable pub preflight_by_key : Service → SubmitOrderRequest → M Preflight
preflight_by_key service req = do
  r ←
      attempt
        (read_ledger service (get_order_by_idempotency_key req.account_id req.idempotency_key))
  by_key_result service req r

abbrev by_id_result : Service → SubmitOrderRequest → Result Order → M Preflight
by_id_result service req (ok existing) = preflight_known service req existing
by_id_result service req (err e) =
    if is_order_not_found e then preflight_by_key service req else raise e

-- preflightSubmitOrder
unfoldable pub preflight_submit_order : Service → SubmitOrderRequest → M Preflight
preflight_submit_order service req = do
  r ← attempt (read_ledger service (get_order req.account_id req.gateway_order_id))
  by_id_result service req r
