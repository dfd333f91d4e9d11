-- ===== src/Sync/Envelope.antt =====
-- EntryEnvelope and Routing of internal/redisstream/message.go, and the helpers of ledger_sync.go that
-- read them. The payload is the text of its JSON.
use ti_relay_trader.Prelude.{String, true, false, ◌||◌, List, [], ◌∷◌, if◌then◌else◌, str_eq}
use text.Mathlib.Text.{starts_with}
use ti_relay_trader.Text.{is_empty, trim_space}
use ti_relay_trader.Time.{Time}
use ti_relay_trader.Trading.Schema.{Account, AccountStatus}
use ti_relay_trader.Trading.Validation.{is_blank}
use ti_relay_trader.Ledger.Orders.Merge.{Context}

pub record Routing : Type 0 where
  pub env : String
  pub broker_id : String
  pub gateway_id : String
  pub account_id : String

pub record EntryEnvelope : Type 0 where
  pub stream : String
  pub stream_id : String
  pub body_text : String
  pub protocol : String
  pub message_type : String
  pub message_id : String
  pub event_type : String
  pub event_name : String
  pub action : String
  pub status : String
  pub code : String
  pub message : String
  pub result_type : String
  pub origin_message_id : String
  pub request_id : String
  pub correlation_id : String
  pub request_correlation_id : String
  pub idempotency_key : String
  pub gateway_order_id : String
  pub produced_at : Time
  pub routing : Routing
  pub payload : String
  pub adapter_context : Context

unfoldable pub first_non_empty : List String → String
first_non_empty [] = ""
first_non_empty (value ∷ values) =
    let rest = first_non_empty values in if is_blank value then rest else trim_space value

-- normalizeAccountIDFromRouting: the account of the row, and the one that the payload named where the
-- routing's took its place.
unfoldable pub normalize_account_id_from_routing : String → EntryEnvelope → String × String
normalize_account_id_from_routing account_id envelope =
    let payload = trim_space account_id in
    let routing = trim_space envelope.routing.account_id in
    if is_empty payload
    then (routing, "")
    else if is_empty routing || str_eq payload routing
    then (payload, "")
    else if starts_with payload routing || starts_with routing payload
    then (routing, payload)
    else (payload, "")

-- accountFromEnvelope, with the wall clock's time
unfoldable pub account_from_envelope : Time → EntryEnvelope → String → Account
account_from_envelope wall_clock envelope account_id = record {
  account_id = account_id;
  broker_id = first_non_empty (envelope.routing.broker_id ∷ "unknown" ∷ []);
  gateway_id = "";
  stream_prefix = "";
  status = AccountStatus.enabled;
  enabled = true;
  trading_enabled = false;
  simulated = false;
  tags =
      ("source", "redis-stream")
      ∷ ("env", envelope.routing.env)
      ∷ ("gateway_id", envelope.routing.gateway_id)
      ∷ [];
  updated_at = wall_clock;
}
