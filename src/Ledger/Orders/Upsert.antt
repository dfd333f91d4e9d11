-- ===== src/Ledger/Orders/Upsert.antt =====
-- UpsertOrder of internal/ledger/repository.go.
use ti_relay_trader.Prelude.{
  Bool, not, ◌&&◌, Option, none, some, List, [], ◌∷◌, ◌++◌, any, find_first, if◌then◌else◌, str_eq,
}
use ti_relay_trader.Prelude.Int.{pos}
use ti_relay_trader.Float64.{finite, eq}
use ti_relay_trader.Errors.{Result, ok, backend, ◌>>=◌, ◌>>◌, guard}
use ti_relay_trader.Trading.Schema.{Order}
use ti_relay_trader.Ledger.Store.{Store, Database}
use ti_relay_trader.Ledger.Orders.{
  normalize_order, order_row, row_allowed, conflicts, is_account, micro,
}
use ti_relay_trader.Ledger.Orders.Merge.{merge_order}

-- The rows are of one order: the unique key of the table.
abbrev pub same_identity : Order → Order → Bool
same_identity o p =
    str_eq o.account_id p.account_id
    && str_eq o.trade_date p.trade_date
    && str_eq o.gateway_order_id p.gateway_order_id

-- The row takes the place of the first one that a test picks.
unfoldable pub put_row : (Order → Bool) → Order → List Order → List Order
put_row picks row [] = []
put_row picks row (o ∷ rest) =
    let others = put_row picks row rest in if picks o then row ∷ rest else o ∷ others

-- Another row of the table conflicts with the row.
unfoldable pub conflicts_elsewhere : Order → List Order → Bool
conflicts_elsewhere row orders = any (λ o. not (same_identity row o) && conflicts row o) orders

abbrev pub insert_or_merge : Database → Bool → Order → Store → Option Order → Result Store
insert_or_merge db no_average row s none = do
  guard (not (any (conflicts row) s.orders)) backend
  guard (any (is_account row) s.accounts) backend
  ok (record s { orders = s.orders ++ (row ∷ []) })
insert_or_merge db no_average row s (some old) = do
  let merged = merge_order (micro db.now) s.order_events no_average old row
  guard (row_allowed merged) backend
  guard (not (conflicts_elsewhere merged s.orders)) backend
  ok (record s { orders = put_row (same_identity row) merged s.orders })

unfoldable pub upsert_order : Database → Order → Store → Result Store
upsert_order db given s = do
  o ← normalize_order given
  row ← order_row db o
  guard (row_allowed row) backend
  insert_or_merge db (eq o.avg_fill_price (finite (pos 0))) row s
      (find_first (same_identity row) s.orders)
