-- ===== src/Ledger/Orders/Repeats.antt =====
-- An order that UpsertOrder of internal/ledger/repository.go is given once more.
use ti_relay_trader.Prelude.{
  Bool, true, false, ◌≡◌, refl, sym, ap, ◌∙◌, inl, inr, some, List, [], ◌∷◌, find_first, Bool-cases,
  arith, eq_refl,
}
use ti_relay_trader.Prelude.Int.{pos}
use ti_relay_trader.Float64.{Float64, finite, eq}
use ti_relay_trader.Time.{Time, at, is_unset}
use ti_relay_trader.Errors.{
  Result, ok, guard, ◌>>=◌, ◌>>◌, backend, Result-cases, IfOk, IfOk-ok, IfOk-bind,
}
use ti_relay_trader.Trading.Schema.{Order}
use ti_relay_trader.Ledger.Store.{Store, Database, OrderEventRow}
use ti_relay_trader.Ledger.Orders.{normalize_order, refuse_number, order_row, row_allowed, micro}
use ti_relay_trader.Ledger.Orders.Merge.{merge_order, has_entry, reply_key}
use ti_relay_trader.Ledger.Orders.Upsert.{upsert_order, insert_or_merge, same_identity, put_row}

pub find_first-put_row :
    (picks : Order → Bool) (row old : Order) (os : List Order)
    → picks row ≡ true
    → find_first picks os ≡ some old
    → find_first picks (put_row picks row os) ≡ some row
unfolding put_row
find_first-put_row picks row old [] h found = absurd (ground (arith, found))
find_first-put_row picks row old (o ∷ os) h found = elim (Bool-cases (picks o)) [
  | inl e ↦ rw e (ground (arith, h))
  | inr e ↦
      rw e (ground (arith, e, find_first-put_row picks row old os h (ground (arith, e, found))))
]

pub same_identity_refl : (o : Order) → same_identity o o ≡ true
same_identity_refl o =
    ground (arith, eq_refl o.account_id, eq_refl o.trade_date, eq_refl o.gateway_order_id)

pub guard-ok :
    {A : Type 0} (b : Bool) (r : Result A) (a : A)
    → (guard b backend >> r) ≡ ok a
    → (b ≡ true) × (r ≡ ok a)
guard-ok true r a h = (refl, h)
guard-ok false r a h = cc

pub find_first-picks :
    (picks : Order → Bool) (os : List Order) (o : Order)
    → find_first picks os ≡ some o
    → picks o ≡ true
find_first-picks picks [] o found = cc
find_first-picks picks (x ∷ os) o found = elim (Bool-cases (picks x)) [
  | inl e ↦ ap picks (sym (ground (arith, e, found))) ∙ e
  | inr e ↦ find_first-picks picks os o (ground (arith, e, found))
]

pub ok_of : {A : Type 0} {a b : A} → ok a ≡ ok b → a ≡ b
ok_of h = ground (arith, h)

-- The tables with other events.
abbrev pub with_events : List OrderEventRow → Store → Store
with_events events s = record s { order_events = events }

-- A row that was merged into the row of its order is merged once more.
module _ (db db' : Database) (no_average : Bool) (row old : Order) (s : Store)
    (events : List OrderEventRow) (now_set : is_unset db.now ≡ false)
    (plain : has_entry reply_key row.adapter_context ≡ false)
    (there : find_first (same_identity row) s.orders ≡ some old) where
  abbrev merged : Order
  merged = merge_order (micro db.now) s.order_events no_average old row

  abbrev after : Store
  after = with_events events (record s { orders = put_row (same_identity row) merged s.orders })

-- The row is of the order.
abbrev pub IsRowOf : Order → Order → Type 0
IsRowOf o row = same_identity row ≡ same_identity o

pub order_row-IsRowOf : (db : Database) (o : Order) → IfOk (order_row db o) (IsRowOf o)
unfolding order_row
order_row-IsRowOf db o = IfOk-bind (refuse_number (db.numeric o.limit_price)) _ (λ price.
    IfOk-bind (refuse_number (db.numeric o.avg_fill_price)) _
      (λ average. IfOk-bind (refuse_number (db.numeric o.fee)) _ (λ fee. IfOk-ok _ refl)))

pub upsert_order-parts :
    (db : Database) (given o : Order) (s s' : Store)
    → normalize_order given ≡ ok o
    → upsert_order db given s ≡ ok s'
    → (row : Order) × (order_row db o ≡ ok row)
      × (row_allowed row ≡ true)
      × (insert_or_merge db
            (eq o.avg_fill_price (finite (pos 0)))
            row
            s
            (find_first (same_identity row) s.orders)
          ≡ ok s')
unfolding upsert_order
upsert_order-parts db given o s s' normal h = elim (Result-cases (order_row db o)) [
  | inl (row, e) ↦
      let (allowed, rest) =
        guard-ok (row_allowed row)
          (insert_or_merge db (eq o.avg_fill_price (finite (pos 0))) row s
            (find_first (same_identity row) s.orders))
          s' (rw (normal, e) at h) in
      (row, e, allowed, rest)
  | inr (x, e) ↦ absurd (cc (rw (normal, e, ◌>>=◌) at h))
]
