-- ===== src/Streams.antt =====
-- internal/redisstream/streams.go and command.go: stream keys and command envelopes.
use ti_relay_trader.Prelude.{ℕ, String, Bool, true, ◌&&◌, List, [], ◌∷◌, if◌then◌else◌, ◌==◌}
use Prim.Native.Char.{code}
use Prim.Native.String.{◌++◌}
use ti_relay_trader.Text.{is_empty, trim_space, one_of}
use ti_relay_trader.Float64.{is_finite}
use ti_relay_trader.Time.{Time, is_unset, in_business_location}
use ti_relay_trader.Errors.{Result, ok, err, unsupported_action}
use ti_relay_trader.Trading.Schema.{SubmitOrderRequest, BatchSubmitOrderRequest, CancelOrderRequest}

abbrev pub protocol : String
protocol = "relay.stream.v1"

abbrev pub suffix_cmd_trade : String
suffix_cmd_trade = "cmd.trade"

abbrev pub suffix_cmd_query : String
suffix_cmd_query = "cmd.query"

abbrev pub action_order_submit : String
action_order_submit = "order.submit"

abbrev pub action_order_batch_submit : String
action_order_batch_submit = "order.batch.submit"

abbrev pub action_order_cancel : String
action_order_cancel = "order.cancel"

abbrev pub action_account_asset : String
action_account_asset = "account.asset.query"

abbrev pub action_account_positions : String
action_account_positions = "account.positions.query"

abbrev pub action_order_list : String
action_order_list = "order.list.query"

abbrev pub action_fill_list : String
action_fill_list = "fill.list.query"

abbrev pub action_fee_list : String
action_fee_list = "fee.list.query"

-- The trade actions and the query actions of `CommandStreamForAction`.
abbrev pub trade_actions : List String
trade_actions = action_order_submit ∷ action_order_batch_submit ∷ action_order_cancel ∷ []

abbrev pub query_actions : List String
query_actions =
    action_account_asset ∷ action_account_positions ∷ action_order_list ∷ action_fill_list
    ∷ action_fee_list ∷ []

pub record Streams : Type 0 where
  pub prefix : String
  pub cmd_trade : String
  pub cmd_query : String
  pub reply : String
  pub event : String
  pub hb : String
  pub dlq : String

-- `strings.TrimRight(s, ":")`
trim_right_colons : String → String
trim_right_colons String.[] = String.[]
trim_right_colons (String.◌∷◌ c s) =
    let rest = trim_right_colons s in
    if code c == b':' && is_empty rest then String.[] else String.◌∷◌ c rest

unfoldable pub new_streams : String → Streams
unfolding trim_right_colons
new_streams given =
    let prefix = trim_right_colons (trim_space given) in
    record {
      prefix = prefix;
      cmd_trade = prefix ++ ":" ++ suffix_cmd_trade;
      cmd_query = prefix ++ ":" ++ suffix_cmd_query;
      reply = prefix ++ ":reply";
      event = prefix ++ ":event";
      hb = prefix ++ ":hb";
      dlq = prefix ++ ":dlq";
    }

unfoldable pub command_stream_for_action : Streams → String → Result String
command_stream_for_action streams action =
    if one_of action trade_actions
    then ok streams.cmd_trade
    else if one_of action query_actions
    then ok streams.cmd_query
    else err (unsupported_action action)

-- What a command carries: the `any` of CommandEnvelope.Payload, at the types that the code puts
-- there. A query's payload is a map with a string for each key.
pub data Payload : Type 0 where
  submit : SubmitOrderRequest → Payload
  batch : BatchSubmitOrderRequest → Payload
  cancel : CancelOrderRequest → Payload
  query : List (String × String) → Payload

pub record CommandEnvelope : Type 0 where
  pub protocol : String
  pub message_type : String
  pub message_id : String
  pub request_id : String
  pub correlation_id : String
  pub idempotency_key : String
  pub action : String
  pub payload : Payload
  pub sent_at : Time

pub record CommandPublishResult : Type 0 where
  pub stream_key : String
  pub stream_id : String
  pub body_bytes : ℕ

-- NewCommandEnvelope; `clock` is what timeutil.Now would read.
unfoldable pub new_command_envelope :
    Time → String → String → String → String → String → Payload → Time → CommandEnvelope
new_command_envelope clock action message_id request_id correlation_id idempotency_key payload
      sent =
    record {
      protocol = protocol;
      message_type = "command";
      message_id = message_id;
      request_id = request_id;
      correlation_id = correlation_id;
      idempotency_key = idempotency_key;
      action = action;
      payload = payload;
      sent_at = in_business_location (if is_unset sent then clock else sent);
    }

all_finite : List SubmitOrderRequest → Bool
all_finite [] = true
all_finite (r ∷ rs) = is_finite r.price && all_finite rs

-- Whether encoding/json encodes the payload: it refuses a price that is NaN or infinite.
unfoldable pub encodable : Payload → Bool
unfolding all_finite
encodable (submit r) = is_finite r.price
encodable (batch b) = all_finite b.orders
encodable (cancel c) = true
encodable (query fields) = true
