-- ===== src/Orderflow/Queries/Complete.antt =====
-- A client of ListOrders in internal/orderflow/service.go that asks for page behind page.
use ti_relay_trader.Prelude.{
  ℕ, zero, suc, ◌+◌, ◌^◌, ◌≤◌, ◌<◌, String, ◌≡◌, refl, sym, ap, ◌∙◌, true, false, ◌||◌, not, inl,
  inr, Option, none, some, List, ◌++◌, length, take, drop, take-append-drop, drop-drop, length-drop,
  if◌then◌else◌, arith,
}
use ti_relay_trader.Prelude.Int.{ℤ, pos, negsuc, pos_part, ◌≤ℤ◌, ◌+ℤ◌}
use ti_relay_trader.Text.{is_empty, trim_space}
use ti_relay_trader.Text.Decimal.{itoa}
use ti_relay_trader.Text.Decimal.RoundTrip.{trim_space-itoa, itoa-cons}
use ti_relay_trader.Errors.{Result, ok, err}
use ti_relay_trader.Trading.Schema.{OrderQuery}
use ti_relay_trader.Trading.Validation.{order_status_valid}
use ti_relay_trader.Trading.ExecutionState.{order_status_given}
use ti_relay_trader.Orderflow.Queries.{
  Listing, list_orders, normalize_order_query, cursor_offset, fetch_limit, cut_page, bounded_limit,
  exchange_fits, trim_order_query,
}
use ti_relay_trader.Orderflow.Queries.Laws.{
  bounded_limit-bounds, take-all, cut_page-pages, cursor_offset-itoa, fetched, IsPage,
}

-- The rows of a page in front of those of the pages behind it.
abbrev and_rest : {Row : Type 0} → List Row → Option (List Row) → Option (List Row)
and_rest page none = none
and_rest page (some rest) = some (page ++ rest)

abbrev pages_of :
    {Row : Type 0}
    → Result (Listing OrderQuery Row)
    → (String → Option (List Row))
    → Option (List Row)
pages_of (err e) behind = none
pages_of (ok r) behind =
    let more = and_rest r.rows (behind r.next_cursor) in
    if is_empty r.next_cursor then some r.rows else more

fetch_limit-least : (L : ℕ) → 1 ≤ L → pos 1 ≤ℤ fetch_limit 500 (pos L)
unfolding fetch_limit ◌+ℤ◌
fetch_limit-least L h = ground arith

fetch_limit-most : (L : ℕ) → L ≤ 500 → fetch_limit 500 (pos L) ≤ℤ pos 500
unfolding fetch_limit ◌+ℤ◌
fetch_limit-most L h = ground arith

-- Page behind page, up to a number of calls: all rows, if there is a last page among them.
unfoldable pub collect :
    {Row : Type 0}
    → ℕ
    → (OrderQuery → Result (Listing OrderQuery Row))
    → OrderQuery
    → Option (List Row)
collect zero lists query = none
collect (suc calls) lists query =
    pages_of (lists query) (λ cursor. collect calls lists (record query { cursor = cursor }))

module _ {Row : Type 0} (rows : List Row) (list : OrderQuery → Result (List Row))
    (query : OrderQuery) where
  -- The query with a cursor, as it is normalised.
  abbrev at_cursor : String → OrderQuery
  at_cursor cursor = trim_order_query (record query { cursor = cursor })

  -- The page that ListOrders answers with, of a limit L.
  list_orders-page :
      (L offset : ℕ) (cursor : String)
      → exchange_fits query.exchange ≡ true
      → (not (order_status_given query.status) || order_status_valid query.status) ≡ true
      → bounded_limit 100 500 query.limit ≡ pos L
      → cursor_offset (trim_space cursor) ≡ ok offset
      → list (record (at_cursor cursor) { limit = fetch_limit 500 (pos L) })
        ≡ ok (fetched 500 rows offset L)
      → list_orders list (record query { cursor = cursor }) ≡ (
          let (page, next) = cut_page 500 offset (pos L) (fetched 500 rows offset L) in
          ok (record {
            rows = page;
            query = at_cursor cursor;
            count = length page;
            next_cursor = next;
          }))
  unfolding list_orders normalize_order_query
  list_orders-page L offset cursor exchange status limit here found =
      rw (exchange, status, here, limit, found) refl

  pages_of-IsPage :
      (offset L count : ℕ) (normal : OrderQuery) (page : List Row × String)
      (behind : String → Option (List Row))
      → IsPage rows offset L page
      → (offset + L ≤ length rows
          → behind (itoa (pos (offset + L))) ≡ some (drop (offset + L) rows))
      → pages_of
          (ok (record { rows = page.0; query = normal; count = count; next_cursor = page.1 }))
          behind
        ≡ some (drop offset rows)
  pages_of-IsPage offset L count normal (page, next) behind (taken, inl (last, reaches)) ih =
      rw (last, taken)
        (ap some (take-all L (drop offset rows) (omega (arith, reaches, length-drop offset rows))))
  pages_of-IsPage offset L count normal (page, next) behind (taken, inr (more, reaches)) ih =
      let (c, r, printed) = itoa-cons (offset + L) in
      let not_last : is_empty next ≡ false = ap is_empty (more ∙ printed) in
      rw (not_last, more, ih reaches, taken)
        (ap (λ xs. some (take L (drop offset rows) ++ xs)) (sym (drop-drop L offset rows))
          ∙ ap some (take-append-drop L (drop offset rows)))

  module _ (L : ℕ) (exchange : exchange_fits query.exchange ≡ true)
      (status : (not (order_status_given query.status) || order_status_valid query.status) ≡ true)
      (limit : bounded_limit 100 500 query.limit ≡ pos L) (some_limit : 1 ≤ L) (low_limit : L ≤ 500)
      (few : length rows + 500 < 2 ^ 63)
      (answers : (cursor : String) (offset : ℕ) (n : ℤ)
        → pos 1 ≤ℤ n
        → n ≤ℤ pos 500
        → cursor_offset (trim_space cursor) ≡ ok offset
        → list (record (at_cursor cursor) { limit = n })
          ≡ ok (take (pos_part n) (drop offset rows))) where
    collect-drop :
        (calls offset : ℕ) (cursor : String)
        → cursor_offset (trim_space cursor) ≡ ok offset
        → offset ≤ length rows
        → length rows < offset + calls
        → collect calls (list_orders list) (record query { cursor = cursor })
          ≡ some (drop offset rows)
    unfolding collect
    collect-drop zero offset cursor here within enough = absurd (omega (arith, within, enough))
    collect-drop (suc calls) offset cursor here within enough =
        let page = list_orders-page L offset cursor exchange status limit here (
          answers cursor offset (fetch_limit 500 (pos L)) (fetch_limit-least L some_limit)
            (fetch_limit-most L low_limit) here) in
        let behind : String → Option (List Row) =
          λ c. collect calls (list_orders list) (record query { cursor = c }) in
        ap (λ r. pages_of r behind) page
        ∙ pages_of-IsPage offset L
            (length (cut_page 500 offset (pos L) (fetched 500 rows offset L)).0) (at_cursor cursor)
            (cut_page 500 offset (pos L) (fetched 500 rows offset L)) behind
            (cut_page-pages rows 500 offset L some_limit low_limit (omega arith))
            (λ reaches.
              collect-drop calls (offset + L) (itoa (pos (offset + L)))
                (ap cursor_offset (trim_space-itoa (offset + L))
                  ∙ cursor_offset-itoa (offset + L) (omega arith))
                reaches (omega arith))

first-offset : cursor_offset (trim_space "") ≡ ok 0
unfolding cursor_offset trim_space
first-offset = refl

natural_limit : (z : ℤ) → pos 1 ≤ℤ z → z ≤ℤ pos 500 → (L : ℕ) × (z ≡ pos L) × (1 ≤ L) × (L ≤ 500)
natural_limit (pos n) l u = (n, refl, omega arith, omega arith)
natural_limit (negsuc n) l u = absurd (omega arith)

-- A client that follows the next cursors of ListOrders from the first page on is given every row once
-- and in order, and comes to the last page in no more calls than there are rows and one, whatever limit it
-- asks for, if the query is valid, there are fewer than 2 ^ 63 - 500 rows, and the ledger answers each
-- query that asks for 1 to 500 rows with the rows from its offset on, up to its limit.
pub collect-all :
    {Row : Type 0} (rows : List Row) (list : OrderQuery → Result (List Row)) (query : OrderQuery)
    → exchange_fits query.exchange ≡ true
    → (not (order_status_given query.status) || order_status_valid query.status) ≡ true
    → length rows + 500 < 2 ^ 63
    → ((cursor : String) (offset : ℕ) (n : ℤ)
        → pos 1 ≤ℤ n
        → n ≤ℤ pos 500
        → cursor_offset (trim_space cursor) ≡ ok offset
        → list (record (trim_order_query (record query { cursor = cursor })) { limit = n })
          ≡ ok (take (pos_part n) (drop offset rows)))
    → collect (suc (length rows)) (list_orders list) (record query { cursor = "" }) ≡ some rows
collect-all rows list query exchange status few answers =
    let (l, u) = bounded_limit-bounds 100 500 query.limit (omega arith) (omega arith) in
    let (L, limit, some_limit, low_limit) = natural_limit (bounded_limit 100 500 query.limit) l u in
    collect-drop rows list query L exchange status limit some_limit low_limit few answers
      (suc (length rows)) 0 "" first-offset (omega arith) (omega arith)
