-- ===== src/Tests/Synchronisation.antt =====
-- Tests of the synchronisation from the reply streams.
use ti_relay_trader.Prelude.{inl, none, ◌≤◌, String, false, arith, ◌≡◌, refl, [], ◌∷◌, List}
use ti_relay_trader.Prelude.Int.{pos}
use ti_relay_trader.Float64.{finite, Arithmetic, le_zero}
use ti_relay_trader.Text.{is_empty, trim_space}
use ti_relay_trader.Text.Decimal.{atoi}
use ti_relay_trader.Time.{at, is_unset}
use ti_relay_trader.Ledger.Store.{Store}
use ti_relay_trader.Sync.Envelope.{
  EntryEnvelope, first_non_empty, normalize_account_id_from_routing,
}
use ti_relay_trader.Sync.Identifiers.{
  position_query_stale_cutoff, timestamp_from_identifier, timestamp_from_digits,
}
use ti_relay_trader.Sync.Results.{LedgerProcessResult}
use ti_relay_trader.Sync.Identifiers.RoundTrip.{
  HasNoDigit, position_query_stale_cutoff-default_new_id,
}
use ti_relay_trader.Text.Decimal.Width.{tens}
use ti_relay_trader.Orderflow.Ids.{default_new_id}
use ti_relay_trader.Sync.Progress.{Surroundings, Outcome, going, end}
use ti_relay_trader.Sync.Positions.{
  Read, read, PositionPayload, process_position_page, positions_of_items,
  positions_from_reply_envelope, reliable_position_market_value,
}
use ti_relay_trader.Trading.Schema.{Position, Exchange}
use ti_relay_trader.Sync.RejectedEvent.{Decoders}
use ti_relay_trader.Sync.Rejections.{process_reply, reply_gateway_order_id}
use ti_relay_trader.Sync.Rejections.Rejected.{Refuses, process_reply-Refuses}
use ti_relay_trader.Sync.Survival.{PageHeld, process_position_page-held}
use ti_relay_trader.Samples.{order, database, empty_store, noon}

-- An arithmetic that answers with its first argument; the page has no prices.
abbrev arithmetic : Arithmetic
arithmetic = record { times = λ x y. x; minus = λ x y. x; of_int = λ n. finite n }

abbrev surroundings : Surroundings
surroundings = record {
  database = database;
  arithmetic = arithmetic;
  clock = noon;
  wall_clock = noon;
}

abbrev envelope : EntryEnvelope
envelope = record {
  stream = "relay:reply";
  stream_id = "1-0";
  body_text = "";
  protocol = "relay.stream.v1";
  message_type = "reply";
  message_id = "m-1";
  event_type = "";
  event_name = "";
  action = "account.positions.query";
  status = "completed";
  code = "";
  message = "";
  result_type = "position_page";
  origin_message_id = "cmd-1790000000000";
  request_id = "";
  correlation_id = "";
  request_correlation_id = "";
  idempotency_key = "";
  gateway_order_id = "";
  produced_at = at 1_790_000_001_000_000_000;
  routing = record {
    env = "test";
    broker_id = "broker";
    gateway_id = "gateway";
    account_id = "acct";
  };
  payload = "page";
  adapter_context = [];
}

abbrev item : PositionPayload
item = record {
  account_id = "";
  symbol = "600000";
  name = "";
  exchange = "SH";
  quantity = pos 100;
  sellable_qty = pos 100;
  initial_qty = pos 0;
  today_qty = pos 0;
  avg_cost = finite (pos 0);
  total_cost = finite (pos 0);
  avg_cost_source = "";
  cost_complete = false;
  last_price = finite (pos 0);
  market_value = finite (pos 0);
  unrealized_pnl = finite (pos 0);
  day_unrealized_pnl = finite (pos 0);
  settled_profit = finite (pos 0);
  shareholder_id = "";
}

-- The payload of the envelope is the one that decodes.
abbrev decode_page : String → Read (List PositionPayload)
decode_page text = read (item ∷ [])

abbrev nothing : LedgerProcessResult
nothing = record {
  seen = 1;
  archived = 1;
  accounts = 0;
  orders = 0;
  order_events = 0;
  cancel_attempts = 0;
  cancel_failures = 0;
  fills = 0;
  transfers = 0;
  fees = 0;
  assets = 0;
  positions = 0;
  stale_positions = 0;
  replies = 1;
  skipped = 0;
  skip_reasons = [];
  parse_errors = 0;
  ledger_errors = 0;
  unsupported = 0;
  dead_letters = 0;
  data_quality_dlq = 0;
  gateway_status_normalized = 0;
  last_stream_id = "1-0";
  last_message_id = "m-1";
  last_event_type = "";
  last_action = "account.positions.query";
  last_account_id = "acct";
  account_ids = [];
  last_gateway_oid = "";
}

abbrev page : List Position
page =
    record {
      account_id = "acct";
      trade_date = "";
      snapshot_type = "";
      symbol = "600000";
      name = "";
      exchange = Exchange.sh;
      quantity = pos 100;
      sellable_qty = pos 100;
      initial_qty = pos 0;
      today_qty = pos 0;
      avg_cost = finite (pos 0);
      total_cost = finite (pos 0);
      avg_cost_source = "";
      cost_complete = false;
      last_price = finite (pos 0);
      market_value = finite (pos 0);
      unrealized_pnl = finite (pos 0);
      day_unrealized_pnl = finite (pos 0);
      settled_profit = finite (pos 0);
      shareholder_id = "";
      updated_at = at 1_790_000_001_000_000_000;
    }
    ∷ []

page-read : positions_from_reply_envelope arithmetic decode_page envelope ≡ read page
unfolding positions_of_items reliable_position_market_value normalize_account_id_from_routing
    trim_space le_zero
page-read = refl

-- The cutoff is the time in the id of the query.
cutoff-value : position_query_stale_cutoff envelope ≡ at 1_790_000_000_000_000_000
unfolding position_query_stale_cutoff timestamp_from_identifier timestamp_from_digits atoi
cutoff-value = refl

cutoff-known : is_unset (position_query_stale_cutoff envelope) ≡ false
unfolding position_query_stale_cutoff timestamp_from_identifier timestamp_from_digits atoi
cutoff-known = refl

process_position_page-held_example :
    Outcome 0
      (PageHeld (position_query_stale_cutoff envelope) page empty_store)
      (process_position_page surroundings decode_page envelope nothing empty_store)
process_position_page-held_example =
    process_position_page-held surroundings decode_page envelope page nothing empty_store page-read
      cutoff-known

abbrev query_id : String
query_id = default_new_id "msg-positions-query" 1_790_000_000_000_000_000 7

abbrev answer : EntryEnvelope
answer = record envelope { origin_message_id = query_id }

kind-HasNoDigit : HasNoDigit "query"
kind-HasNoDigit = (refl, (refl, (refl, (refl, (refl, tt)))))

prefix-HasNoDigit : HasNoDigit "msg-positions-query"
prefix-HasNoDigit = (
  refl,
  (
    refl,
    (
      refl,
      (
        refl,
        (
          refl,
          (refl, (refl, (refl, (refl, (refl, (refl, (refl, (refl, (refl, kind-HasNoDigit))))))))),
        ),
      ),
    ),
  ),
)

recent : tens 17 ≤ 1_790_000_000_000_000_000
unfolding tens
recent = omega arith

position_query_stale_cutoff-default_new_id_example :
    position_query_stale_cutoff answer ≡ at 1_790_000_000_000_000_000
position_query_stale_cutoff-default_new_id_example =
    position_query_stale_cutoff-default_new_id answer "msg-positions-query"
      1_790_000_000_000_000_000 7 prefix-HasNoDigit recent (omega arith) refl

abbrev refusal : EntryEnvelope
refusal = record envelope {
  action = "order.submit";
  status = "rejected";
  code = "INSUFFICIENT_FUNDS";
  gateway_order_id = "gw-1";
  origin_message_id = "";
}

abbrev decoders : Decoders
decoders = record {
  entries = λ payload. [];
  batch = λ payload. none;
  gateway_order_id = λ payload. "";
}

abbrev known_store : Store
known_store = record empty_store { orders = order ∷ [] }

refused-order : is_empty (reply_gateway_order_id decoders refusal) ≡ false
unfolding first_non_empty trim_space
refused-order = refl

process_reply-Refuses_example :
    Refuses decoders refusal 0 known_store
      (end (process_reply surroundings decoders going refusal nothing known_store))
process_reply-Refuses_example =
    process_reply-Refuses surroundings decoders going refusal nothing known_store refl (inl refl)
      refl refused-order
