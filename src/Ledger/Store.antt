-- ===== src/Ledger/Store.antt =====
-- The tables, and account writes (UpsertAccount with upsertAccountSQL).
use ti_relay_trader.Prelude.{String, not, Option, List, [], ◌∷◌, if◌then◌else◌, str_eq}
use ti_relay_trader.Float64.{Float64}
use ti_relay_trader.Text.{is_empty}
use ti_relay_trader.Time.{Time, is_unset}
use ti_relay_trader.Errors.{Result, ok, invalid_ledger_input, ◌>>◌, guard}
use ti_relay_trader.Trading.Schema.{Account, AccountStatus, Order, OrderEvent, Position}
use ti_relay_trader.Trading.Validation.{is_blank}
use ti_relay_trader.Streams.{CommandEnvelope}

-- The text of an archived body: nothing, the JSON of an envelope, or a text that does not decode to
-- one. encoding/json gives back an envelope as it was encoded.
pub data Body : Type 0 where
  absent : Body
  envelope : CommandEnvelope → Body
  text : String → Body

pub record StreamRef : Type 0 where
  pub key : String
  pub id : String

pub record SourceRef : Type 0 where
  pub origin_message_id : String
  pub request_id : String
  pub correlation_id : String
  pub idempotency_key : String

pub record RawStreamMessage : Type 0 where
  pub stream_ref : StreamRef
  pub source_ref : SourceRef
  pub direction : String
  pub role : String
  pub message_type : String
  pub action : String
  pub event_type : String
  pub status : String
  pub code : String
  pub account_id : String
  pub gateway_order_id : String
  pub body : Body
  pub body_text : Body
  pub parse_error : String
  pub received_at : Time

-- A row of order_events: the event as it was normalised, and what stands beside it.
pub record OrderEventRow : Type 0 where
  pub event : OrderEvent
  pub stream_ref : StreamRef
  pub source_ref : SourceRef

-- A row of positions: the position, and the columns that are not its own.
pub record PositionRow : Type 0 where
  pub position : Position
  pub source : String
  pub updated_at : Time

-- Rows of orders, order_events and raw_stream_messages stand in the order of their primary keys.
pub record Store : Type 0 where
  pub accounts : List Account
  pub orders : List Order
  pub order_events : List OrderEventRow
  pub positions : List PositionRow
  pub archive : List RawStreamMessage

-- What Postgres answers on its own: the value that a NUMERIC(20, 6) column gives back for a number
-- (`none` when it refuses it, as out of range or against `limit_price > 0`), and its clock.
pub record Database : Type 0 where
  pub numeric : Float64 → Option Float64
  pub now : Time

account_status_or_disabled : AccountStatus → AccountStatus
account_status_or_disabled (AccountStatus.other s) =
    if is_empty s then AccountStatus.disabled else AccountStatus.other s
account_status_or_disabled status = status

-- ON CONFLICT (account_id) DO UPDATE: the row of the account is replaced, or a new one is added.
put_account : Account → List Account → List Account
put_account account [] = account ∷ []
put_account account (a ∷ rest) =
    if str_eq a.account_id account.account_id then account ∷ rest else a ∷ put_account account rest

unfoldable pub upsert_account : Database → Account → Store → Result Store
unfolding account_status_or_disabled put_account
upsert_account db account s = do
  guard (not (is_blank account.account_id)) (invalid_ledger_input "account_id is required")
  guard (not (is_blank account.broker_id)) (invalid_ledger_input "broker_id is required")
  let row = record account {
    status = account_status_or_disabled account.status;
    updated_at = if is_unset account.updated_at then db.now else account.updated_at;
  }
  ok (record s { accounts = put_account row s.accounts })
