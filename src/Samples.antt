-- ===== src/Samples.antt =====
-- Sample requests, orders, a service and worlds, for the tests.
use ti_relay_trader.Prelude.{◌+◌, ◌-◌, ◌*◌, ◌/◌, true, some, [], ◌∷◌}
use ti_relay_trader.Prelude.Int.{pos}
use ti_relay_trader.Float64.{finite}
use ti_relay_trader.Time.{Time, at}
use ti_relay_trader.Errors.{Result, ok, err}
use ti_relay_trader.Trading.Schema.{
  Exchange, TradeSide, BusinessType, OffsetType, OrderStatus, GatewayStatus, SubmitOrderRequest,
  BatchSubmitOrderRequest, CancelOrderRequest, Order, Account, AccountStatus,
}
use ti_relay_trader.Ledger.Store.{Store, Database}
use ti_relay_trader.Config.Schedule.{Location, day, minute}
use ti_relay_trader.Orderflow.World.{AccountRoute, Service, calm, lost, World}
use ti_relay_trader.Orderflow.Requests.{draft_order_from_request}

abbrev pub request : SubmitOrderRequest
request = record {
  account_id = "acct";
  client_order_id = "c-1";
  gateway_order_id = "gw-1";
  trade_date = "20260921";
  symbol = "600000";
  exchange = Exchange.sh;
  trade_side = TradeSide.buy;
  business_type = BusinessType.stock;
  offset_type = OffsetType.open_position;
  price = finite (pos 10);
  qty = pos 100;
  idempotency_key = "k-1";
  strategy_type = "";
  strategy_id = "";
  basket_id = "";
  parent_order_id = "";
  t0_order_group_id = "";
}

abbrev pub other_request : SubmitOrderRequest
other_request = record request {
  client_order_id = "c-2";
  gateway_order_id = "gw-2";
  idempotency_key = "k-2";
}

abbrev pub batch_request : BatchSubmitOrderRequest
batch_request = record {
  account_id = "acct";
  orders = request ∷ other_request ∷ [];
  idempotency_key = "b-1";
}

abbrev pub cancel_request : CancelOrderRequest
cancel_request = record {
  account_id = "acct";
  gateway_order_id = "gw-1";
  cancel_id = "x-1";
  idempotency_key = "";
}

abbrev pub noon : Time
noon = at 1_790_000_000_000_000_000

abbrev pub order : Order
order = draft_order_from_request request noon

abbrev pub other_order : Order
other_order = draft_order_from_request other_request noon

abbrev pub database : Database
database = record { numeric = λ x. some x; now = noon }

abbrev pub account : Account
account = record {
  account_id = "acct";
  broker_id = "broker";
  gateway_id = "gateway";
  stream_prefix = "relay";
  status = AccountStatus.enabled;
  enabled = true;
  trading_enabled = true;
  simulated = true;
  tags = [];
  updated_at = noon;
}

abbrev pub empty_store : Store
empty_store = record {
  accounts = account ∷ [];
  orders = [];
  order_events = [];
  positions = [];
  archive = [];
}

-- The store of a result, or the one before.
abbrev pub store_or : Store → Result Store → Store
store_or s (ok s') = s'
store_or s (err e) = s

abbrev pub route : AccountRoute
route = record {
  account_id = "acct";
  broker_id = "broker";
  gateway_id = "gateway";
  stream_prefix = "relay";
  enabled = true;
  trading_enabled = true;
  simulated = true;
}

abbrev pub service : Service
service = record {
  accounts = route ∷ [];
  has_publisher = true;
  new_id = λ prefix n. prefix;
  clock = λ n. noon;
  wall_clock = noon;
  database = database;
  entry_id = λ n. "1-0";
  body_bytes = λ envelope. 100;
}

abbrev pub world : World
world = record { store = empty_store; published = []; issued = 0; ticks = 0; weather = [] }

-- A world in which the answer of the first publication is lost.
abbrev pub stormy_world : World
stormy_world = record world { weather = calm ∷ calm ∷ calm ∷ calm ∷ lost ∷ [] }

-- A world in which the order stands in the ledger.
abbrev pub known_world : World
known_world = record world { store = record empty_store { orders = order ∷ [] } }

abbrev pub cancelled_order : Order
cancelled_order = record order {
  status = OrderStatus.cancelled;
  gateway_status = GatewayStatus.cancelled;
  is_terminal = true;
}

-- A world in which the order was cancelled, and in which the first call of the database goes through
-- and the second one too.
abbrev pub finished_world : World
finished_world = record world {
  store = record empty_store { orders = cancelled_order ∷ [] };
  weather = calm ∷ calm ∷ [];
}

-- UTC+8, without other offsets.
abbrev pub shanghai : Location
shanghai = record { day_start = λ now. (now + 8 * 60 * minute) / day * day - 8 * 60 * minute }
