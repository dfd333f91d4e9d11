-- ===== src/Orderflow/Refresh.antt =====
-- The refresh commands of internal/orderflow/service.go: RefreshAsset, RefreshPositions,
-- RefreshOrders, RefreshFills and RefreshFees over publishAccountQuery.
use Prim.Native.String.{◌++◌}
use ti_relay_trader.Prelude.{String, List, [], ◌∷◌, if◌then◌else◌}
use ti_relay_trader.Text.{trim_space, is_empty}
use ti_relay_trader.Errors.{missing_publisher, guard}
use ti_relay_trader.Streams.{
  CommandPublishResult, query, new_streams, command_stream_for_action, new_command_envelope,
  action_account_asset, action_account_positions, action_order_list, action_fill_list,
  action_fee_list, suffix_cmd_query,
}
use ti_relay_trader.Ledger.Store.{upsert_account}
use ti_relay_trader.Orderflow.World.{
  Service, M, ◌>>=◌, ◌>>◌, pure, lift, new_id, now, write_ledger, publish_command,
}
use ti_relay_trader.Orderflow.Archived.{archive_command}
use ti_relay_trader.Orderflow.Preflight.{route_for_enabled_account, account_of_route}

pub record RefreshOptions : Type 0 where
  pub request_id : String
  pub trade_date : String

pub record RefreshQueryResult : Type 0 where
  pub account_id : String
  pub action : String
  pub message_id : String
  pub stream_key : String
  pub stream_id : String
  pub idempotency_key : String
  pub request_id : String
  pub published : CommandPublishResult

-- The payload: the account, and the trade date if one is given.
unfoldable pub query_fields : String → String → List (String × String)
query_fields account trade_date =
    let date = trim_space trade_date in
    ("account_id", account) ∷ (if is_empty date then [] else ("trade_date", date) ∷ [])

-- publishAccountQuery
unfoldable pub publish_account_query :
    Service → String → String → String → RefreshOptions → M RefreshQueryResult
publish_account_query service given_account action kind options = do
  let account = trim_space given_account
  route ← lift (route_for_enabled_account service account)
  lift (guard service.has_publisher missing_publisher)
  time ← now service
  message_id ← new_id service ("msg-" ++ kind ++ "-query")
  let given = trim_space options.request_id
  request_id ← (if is_empty given then new_id service ("req-" ++ kind ++ "-query") else pure given)
  let idempotency_key = kind ++ ":query:" ++ account ++ ":" ++ request_id
  write_ledger service (upsert_account service.database (account_of_route route time))
  key ← lift (command_stream_for_action (new_streams route.stream_prefix) action)
  let sent =
      new_command_envelope service.wall_clock action message_id request_id request_id
        idempotency_key (query (query_fields account options.trade_date)) time
  published ← publish_command service key sent
  archive_command service published sent suffix_cmd_query account ""
  pure (record {
    account_id = account;
    action = action;
    message_id = message_id;
    stream_key = published.stream_key;
    stream_id = published.stream_id;
    idempotency_key = idempotency_key;
    request_id = request_id;
    published = published;
  })

unfoldable pub refresh_asset : Service → String → RefreshOptions → M RefreshQueryResult
refresh_asset service account = publish_account_query service account action_account_asset "asset"

unfoldable pub refresh_positions : Service → String → RefreshOptions → M RefreshQueryResult
refresh_positions service account =
    publish_account_query service account action_account_positions "positions"

unfoldable pub refresh_orders : Service → String → RefreshOptions → M RefreshQueryResult
refresh_orders service account = publish_account_query service account action_order_list "orders"

unfoldable pub refresh_fills : Service → String → RefreshOptions → M RefreshQueryResult
refresh_fills service account = publish_account_query service account action_fill_list "fills"

unfoldable pub refresh_fees : Service → String → RefreshOptions → M RefreshQueryResult
refresh_fees service account = publish_account_query service account action_fee_list "fees"
