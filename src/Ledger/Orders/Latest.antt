-- ===== src/Ledger/Orders/Latest.antt =====
-- What UpsertOrder of internal/ledger/repository.go leaves of an order, whatever stood there before.
use ti_relay_trader.Prelude.{
  Bool, true, not, ◌≡◌, refl, sym, subst, ◌∙◌, inl, inr, Option, none, some, List, [], ◌∷◌, ◌++◌,
  find_first, any, Bool-cases, arith, eq_iff,
}
use ti_relay_trader.Prelude.Int.{pos}
use ti_relay_trader.Float64.{finite, eq}
use ti_relay_trader.Text.{trim_space}
use ti_relay_trader.Time.{Time}
use ti_relay_trader.Errors.{ok, guard, ◌>>=◌, backend, Result-cases, IfOk, IfOk-bind, IfOk-ok}
use ti_relay_trader.Trading.Schema.{Order}
use ti_relay_trader.Ledger.Store.{Store, Database, OrderEventRow}
use ti_relay_trader.Ledger.Orders.{
  normalize_order, order_row, row_allowed, conflicts, is_account, micro,
}
use ti_relay_trader.Ledger.Orders.Laws.{
  IsNormalOf, SameCore-normal, normalize_order_if, order_row_if,
}
use ti_relay_trader.Ledger.Orders.Merge.{merge_order}
use ti_relay_trader.Ledger.Orders.Upsert.{
  upsert_order, insert_or_merge, same_identity, conflicts_elsewhere,
}
use ti_relay_trader.Ledger.Orders.Repeats.{
  find_first-put_row, find_first-picks, same_identity_refl, order_row-IsRowOf,
}

-- A row that says of an order what its last write said.
abbrev pub Reflects : Order → Order → Type 0
Reflects given r =
    (r.account_id ≡ trim_space given.account_id)
    × (r.gateway_order_id ≡ trim_space given.gateway_order_id)
    × (r.symbol ≡ trim_space given.symbol)
    × (r.exchange ≡ given.exchange)
    × (r.trade_side ≡ given.trade_side)
    × (r.order_qty ≡ given.order_qty)

find_first-append :
    {A : Type 0} (p : A → Bool) (xs : List A) (x : A)
    → find_first p xs ≡ none
    → p x ≡ true
    → find_first p (xs ++ (x ∷ [])) ≡ some x
find_first-append p [] x h t = ground (arith, t)
find_first-append p (y ∷ xs) x h t = elim (Bool-cases (p y)) [
  | inl e ↦ absurd (ground (arith, h, e))
  | inr e ↦ rw e (find_first-append p xs x (ground (arith, h, e)) t)
]

same_ids :
    (row old : Order)
    → same_identity row old ≡ true
    → (old.account_id ≡ row.account_id) × (old.gateway_order_id ≡ row.gateway_order_id)
same_ids row old h =
    let a = (eq_iff row.account_id old.account_id).0 in
    let g = (eq_iff row.gateway_order_id old.gateway_order_id).0 in
    (sym (a (ground (arith, h))), sym (g (ground (arith, h))))

merge_order-Reflects :
    (now : Time) (events : List OrderEventRow) (no_average : Bool) (given old row : Order)
    → IsNormalOf given row
    → same_identity row old ≡ true
    → Reflects given (merge_order now events no_average old row)
unfolding merge_order
merge_order-Reflects now events no_average given old row (ids, flag) h =
    let (account, gateway, key, client, symbol, exchange, side, qty) = ids in
    let (a, g) = same_ids row old h in (a ∙ account, g ∙ gateway, symbol, exchange, side, qty)

picks-merge_order :
    (now : Time) (events : List OrderEventRow) (no_average : Bool) (old row : Order)
    → same_identity row old ≡ true
    → same_identity row (merge_order now events no_average old row) ≡ true
unfolding merge_order
picks-merge_order now events no_average old row h = h

-- The row of an order is found, and says what the order says.
abbrev pub Holds : Order → Order → Store → Type 0
Holds given o s = (r : Order) × (find_first (same_identity o) s.orders ≡ some r) × Reflects given r

insert_or_merge-Holds :
    (db : Database) (no_average : Bool) (given row : Order) (s : Store) (known : Option Order)
    → IsNormalOf given row
    → find_first (same_identity row) s.orders ≡ known
    → IfOk (insert_or_merge db no_average row s known) (Holds given row)
insert_or_merge-Holds db no_average given row s none normal h =
    let ((account, gateway, key, client, symbol, exchange, side, qty), flag) = normal in
    IfOk-bind (guard (not (any (conflicts row) s.orders)) backend) _ (λ _.
      IfOk-bind (guard (any (is_account row) s.accounts) backend) _ (λ _. IfOk-ok _ (
        row,
        find_first-append (same_identity row) s.orders row h (same_identity_refl row),
        (account, gateway, symbol, exchange, side, qty),
      )))
insert_or_merge-Holds db no_average given row s (some old) normal h =
    let merged = merge_order (micro db.now) s.order_events no_average old row in
    let picked = find_first-picks (same_identity row) s.orders old h in
    IfOk-bind (guard (row_allowed merged) backend) _ (λ _.
      IfOk-bind (guard (not (conflicts_elsewhere merged s.orders)) backend) _ (λ _. IfOk-ok _ (
        merged,
        find_first-put_row (same_identity row) merged old s.orders
            (picks-merge_order (micro db.now) s.order_events no_average old row picked) h,
        merge_order-Reflects (micro db.now) s.order_events no_average given old row normal picked,
      )))

-- An order that UpsertOrder accepts is read from the tables as it was given: the row of its account, its
-- trade date and its gateway order id, new or merged, has the account id, the gateway order id and the symbol
-- of the order, each trimmed, its exchange, its side and its quantity.
pub upsert_order-Holds :
    (db : Database) (given o : Order) (s s' : Store)
    → normalize_order given ≡ ok o
    → upsert_order db given s ≡ ok s'
    → Holds given o s'
unfolding upsert_order
upsert_order-Holds db given o s s' normal h =
    let n = (normalize_order_if given).at o normal in
    elim (Result-cases (order_row db o)) [
      | inl (row, e) ↦
          let rest = IfOk-bind (guard (row_allowed row) backend) _ (λ _.
            insert_or_merge-Holds db (eq o.avg_fill_price (finite (pos 0))) given row s
              (find_first (same_identity row) s.orders)
              (SameCore-normal given o row n ((order_row_if db o).at row e)) refl) in
          subst (λ picks. (r : Order) × (find_first picks s'.orders ≡ some r) × Reflects given r)
            ((order_row-IsRowOf db o).at row e) (rest.at s' (rw (normal, e) at h))
      | inr (x, e) ↦ absurd (cc (rw (normal, e, ◌>>=◌) at h))
    ]
