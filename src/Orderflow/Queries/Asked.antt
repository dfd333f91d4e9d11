-- ===== src/Orderflow/Queries/Asked.antt =====
-- What Service.ListOrders of internal/orderflow/service.go asks the ledger for, and what normalizeOrderQuery
-- of internal/ledger/repository.go makes of it.
use text.Mathlib.TextPositions.{compare_refl}
use ti_relay_trader.Prelude.{
  String, Bool, true, false, not, ◌≡◌, refl, ap, ◌∙◌, ◌&&◌, ◌||◌, inl, inr, arith, ltb, sym, subst,
  Bool-cases,
}
use Prim.Native.Nat.{Ordering}
use ti_relay_trader.Orderflow.Queries.Laws.{bounded_limit-bounds}
use ti_relay_trader.Prelude.Int.{ℤ, pos, negsuc, ◌≤ℤ◌, ◌+ℤ◌}
use ti_relay_trader.Text.{is_empty, trim_space}
use ti_relay_trader.Errors.{ok, guard, IfOk, IfOk-ok, IfOk-bind, IfOk-step, IfOk-guard}
use ti_relay_trader.Trading.Schema.{OrderQuery}
use ti_relay_trader.Trading.Validation.{order_status_valid}
use ti_relay_trader.Trading.ExecutionState.{order_status_given}
use ti_relay_trader.Ledger.Orders.{text_gt}
use ti_relay_trader.Ledger.Orders.Dates.{normalize_trade_date}
use ti_relay_trader.Ledger.Queries.{
  normalize_query_dates, QueryDates, query_cursor_offset, query_limit, exchange_allowed,
  date_if_given,
}
use ti_relay_trader.Ledger.Queries
use ti_relay_trader.Orderflow.Queries.{
  normalize_order_query, fetch_limit, bounded_limit, exchange_fits,
}

-- The dates are one day or a range that does not run backwards.
abbrev InOrder : QueryDates → Type 0
InOrder d =
    (not (is_empty d.date_from) && not (is_empty d.date_to) && text_gt d.date_from d.date_to)
    ≡ false

text_gt_self : (d : String) → text_gt d d ≡ false
text_gt_self d = ap (λ c. elim c as (λ _. Bool) [ Ordering.gt ↦ true | _ ↦ false ]) (compare_refl d)

normalize_query_dates-InOrder : (t f l : String) → IfOk (normalize_query_dates t f l) InOrder
unfolding normalize_query_dates
normalize_query_dates-InOrder t f l = elim (Bool-cases (is_empty (trim_space t))) [
  | inl range ↦ rw range (
      IfOk-bind (date_if_given (trim_space f)) _ (λ first.
        IfOk-bind (date_if_given (trim_space l)) _ (λ last.
          IfOk-guard (not (not (is_empty first) && not (is_empty last) && text_gt first last)) _ _
            (λ h.
              IfOk-ok (record { trade_date = ""; date_from = first; date_to = last })
                (ground (arith, h))))))
  | inr day ↦ rw day (
      IfOk-bind (normalize_trade_date (trim_space t)) _ (λ date.
        IfOk-bind (guard (is_empty (trim_space f) && is_empty (trim_space l)) _) _ (λ _.
          IfOk-ok (record { trade_date = date; date_from = date; date_to = date })
            (ground (arith, text_gt_self date)))))
]

-- The query of the ledger: the limit that was asked for, within its bounds, and dates in order.
abbrev pub IsAsAsked : ℤ → OrderQuery → Type 0
IsAsAsked asked q =
    (q.limit ≡ asked)
    × (pos 1 ≤ℤ q.limit)
    × (q.limit ≤ℤ pos 500)
    × ((not (is_empty q.date_from) && not (is_empty q.date_to) && text_gt q.date_from q.date_to)
        ≡ false)

abbrev IsWithin : ℤ → Type 0
IsWithin x = (pos 1 ≤ℤ x) × (x ≤ℤ pos 500)

query_limit-IsWithin : (x : ℤ) → IsWithin x → query_limit 100 500 x ≡ x
query_limit-IsWithin (pos n) (l, u) = ground (arith, l, u)
query_limit-IsWithin (negsuc n) (l, u) = absurd (omega (arith, l))

fetch_limit-IsWithin : (x : ℤ) → IsWithin x → IsWithin (fetch_limit 500 x)
unfolding fetch_limit ◌+ℤ◌
fetch_limit-IsWithin (pos n) (l, u) = elim (Bool-cases (ltb n 500)) [
  | inl e ↦ ground (arith, l, u, e)
  | inr e ↦ ground (arith, l, u, e)
]
fetch_limit-IsWithin (negsuc n) (l, u) = absurd (omega (arith, l))

asked-IsWithin : (given : ℤ) → IsWithin (fetch_limit 500 (bounded_limit 100 500 given))
asked-IsWithin given =
    fetch_limit-IsWithin (bounded_limit 100 500 given)
      (bounded_limit-bounds 100 500 given (omega arith) (omega arith))

service_limit :
    (given : OrderQuery)
    → IfOk (normalize_order_query given) (λ q. q.limit ≡ bounded_limit 100 500 given.limit)
unfolding normalize_order_query
service_limit given = IfOk-bind (guard (exchange_fits given.exchange) _) _ (λ _.
    IfOk-bind (guard (not (order_status_given given.status) || order_status_valid given.status) _) _
      (λ _. IfOk-ok _ refl))

normalize-IsAsAsked :
    (q : OrderQuery) (asked : ℤ)
    → IsWithin asked
    → q.limit ≡ asked
    → IfOk (Queries.normalize_order_query q) (IsAsAsked asked)
unfolding Queries.normalize_order_query
normalize-IsAsAsked q asked within same =
    let limit = ap (query_limit 100 500) same ∙ query_limit-IsWithin asked within in
    IfOk-step (normalize_query_dates q.trade_date q.date_from q.date_to) _
      (normalize_query_dates-InOrder q.trade_date q.date_from q.date_to)
      (λ dates ordered. IfOk-bind (guard (exchange_allowed q.exchange) _) _ (λ _.
        IfOk-bind (guard (not (order_status_given q.status) || order_status_valid q.status) _) _
          (λ _. IfOk-bind (query_cursor_offset (trim_space q.cursor)) _ (λ offset. IfOk-ok _ (
            limit,
            subst (λ x. pos 1 ≤ℤ x) (sym limit) within.0,
            subst (λ x. x ≤ℤ pos 500) (sym limit) within.1,
            ordered,
          )))))

-- The limit that ListOrders asks the ledger for, one row more than its page or the most, passes the
-- ledger's own normalisation unchanged and is between 1 and 500, whatever limit was given: if the ledger
-- accepts the query, it reads as many rows as were asked for, over dates that do not run backwards.
pub normalize_order_query-asked :
    (given query read : OrderQuery)
    → normalize_order_query given ≡ ok query
    → Queries.normalize_order_query (record query { limit = fetch_limit 500 query.limit }) ≡ ok read
    → IsAsAsked (fetch_limit 500 query.limit) read
normalize_order_query-asked given query read h k =
    let within =
      subst (λ x. IsWithin (fetch_limit 500 x)) (sym ((service_limit given).at query h))
        (asked-IsWithin given.limit) in
    (normalize-IsAsAsked (record query { limit = fetch_limit 500 query.limit })
        (fetch_limit 500 query.limit) within refl).at
      read k
