-- ===== src/Tests/Pages.antt =====
-- Tests of the paged queries.
use ti_relay_trader.Prelude.{
  ℕ, suc, String, ◌≡◌, refl, true, false, not, ◌||◌, some, List, [], ◌∷◌, length, take, drop, arith,
}
use ti_relay_trader.Prelude.Int.{◌≤ℤ◌, ℤ, pos, pos_part}
use ti_relay_trader.Text.{trim_space}
use ti_relay_trader.Errors.{Result, ok, err}
use ti_relay_trader.Trading.Schema.{Exchange, OrderStatus, OrderQuery}
use ti_relay_trader.Trading.Validation.{exchange_valid, order_status_valid}
use ti_relay_trader.Trading.ExecutionState.{order_status_given}
use ti_relay_trader.Text.Decimal.{atoi}
use ti_relay_trader.Ledger.Orders.Dates.{normalize_trade_date, with_dashes}
use ti_relay_trader.Ledger.Queries.{query_limit, normalize_query_dates, query_cursor_offset}
use ti_relay_trader.Ledger.Queries
use ti_relay_trader.Orderflow.Queries.{
  cursor_offset, exchange_fits, list_orders, trim_order_query, normalize_order_query, fetch_limit,
  bounded_limit,
}
use ti_relay_trader.Orderflow.Queries.Asked.{IsAsAsked, normalize_order_query-asked}
use ti_relay_trader.Orderflow.Queries.Complete.{collect, collect-all}

abbrev query : OrderQuery
query = record {
  account_id = " acct ";
  gateway_order_id = "";
  client_order_id = "";
  origin_message_id = "";
  symbol = "600000";
  exchange = Exchange.sh;
  status = OrderStatus.filled;
  trade_date = "";
  date_from = "";
  date_to = "";
  history = false;
  strategy_type = "";
  strategy_id = "";
  basket_id = "";
  parent_order_id = "";
  t0_order_group_id = "";
  limit = pos 2;
  cursor = "";
}

abbrev rows : List ℕ
rows = 4 ∷ 5 ∷ 6 ∷ 7 ∷ 8 ∷ []

abbrev rows_from : ℤ → Result ℕ → Result (List ℕ)
rows_from limit (ok offset) = ok (take (pos_part limit) (drop offset rows))
rows_from limit (err e) = err e

-- A ledger that answers each query with the rows from its cursor on, up to the limit that the program's own
-- ledger makes of the limit of the query.
abbrev list_rows : OrderQuery → Result (List ℕ)
list_rows q = rows_from (query_limit 100 500 q.limit) (cursor_offset q.cursor)

query_limit_between : (n : ℤ) → pos 1 ≤ℤ n → n ≤ℤ pos 500 → query_limit 100 500 n ≡ n
query_limit_between n least most = ground arith

list_rows-answers :
    (cursor : String) (offset : ℕ) (n : ℤ)
    → pos 1 ≤ℤ n
    → n ≤ℤ pos 500
    → cursor_offset (trim_space cursor) ≡ ok offset
    → list_rows (record (trim_order_query (record query { cursor = cursor })) { limit = n })
      ≡ ok (take (pos_part n) (drop offset rows))
list_rows-answers cursor offset n least most here = rw (query_limit_between n least most, here) refl

exchange-fits : exchange_fits query.exchange ≡ true
unfolding exchange_valid
exchange-fits = refl

status-fits : (not (order_status_given query.status) || order_status_valid query.status) ≡ true
unfolding order_status_valid
status-fits = refl

collect-all_example :
    collect (suc (length rows)) (list_orders list_rows) (record query { cursor = "" }) ≡ some rows
collect-all_example =
    collect-all rows list_rows query exchange-fits status-fits (omega arith) list_rows-answers

abbrev dated : OrderQuery
dated = record query { date_from = "20260901"; date_to = "2026-09-30"; limit = pos 100 }

abbrev query_or : OrderQuery → Result OrderQuery → OrderQuery
query_or q (ok q') = q'
query_or q (err e) = q

-- What the service makes of the query, and what the ledger makes of the one that it is asked.
abbrev normal : OrderQuery
normal = query_or dated (normalize_order_query dated)

abbrev asked : OrderQuery
asked = record normal { limit = fetch_limit 500 normal.limit }

abbrev answered : OrderQuery
answered = query_or asked (Queries.normalize_order_query asked)

service-accepts : normalize_order_query dated ≡ ok normal
unfolding normalize_order_query exchange_valid order_status_valid
service-accepts = refl

ledger-accepts : Queries.normalize_order_query asked ≡ ok answered
unfolding normalize_order_query Queries.normalize_order_query normalize_query_dates
    normalize_trade_date query_cursor_offset exchange_valid order_status_valid trim_space atoi
    bounded_limit fetch_limit with_dashes
ledger-accepts = refl

normalize_order_query-asked_example : IsAsAsked (fetch_limit 500 normal.limit) answered
normalize_order_query-asked_example =
    normalize_order_query-asked dated normal answered service-accepts ledger-accepts
