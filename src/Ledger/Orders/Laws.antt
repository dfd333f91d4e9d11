-- ===== src/Ledger/Orders/Laws.antt =====
-- What CreateOrder stores, and what the lookups of orders find.
use ti_relay_trader.Prelude.{
  String, Bool, true, false, not, ◌≡◌, refl, ◌&&◌, ◌||◌, Option, none, some, List, [], ◌∷◌, ◌++◌,
  keep, keep-any, any-append, ◌≢◌, eq_refl, eq_iff, any, All, if◌then◌else◌, arith, ap, ◌∙◌,
}
use ti_relay_trader.Text.{trim_space}
use ti_relay_trader.Errors.{
  Error, Result, ok, err, ◌>>◌, guard, IfOk, IfOk-bind, IfOk-guard, IfOk-step, IfOk-ok, backend,
  order_conflict, is_order_not_found,
}
use ti_relay_trader.Trading.Schema.{Order, OrderStatus, GatewayStatus}
use ti_relay_trader.Trading.Validation.{is_blank, order_status_terminal}
use ti_relay_trader.Trading.ExecutionState.{order_status_given, gateway_status_given}
use ti_relay_trader.Trading.ExecutionState.Laws.{execution_state_terminal}
use ti_relay_trader.Ledger.Store.{Store, Database}
use ti_relay_trader.Ledger.Orders.{
  trim_order, refuse_number, check_order, normalize_order_trade_date, settle_order, normalize_order,
  order_row, row_allowed, conflicts, create_order, scan_order, first_by, by_date, by_touch,
  has_gateway_id, has_key, get_order, found, found, get_order_by_idempotency_key,
}

settle_order_keeps :
    (o : Order)
    → let p = settle_order o in
      (p.account_id ≡ o.account_id)
      × (p.gateway_order_id ≡ o.gateway_order_id)
      × (p.idempotency_key ≡ o.idempotency_key)
      × (p.client_order_id ≡ o.client_order_id)
unfolding settle_order
settle_order_keeps o = (refl, refl, refl, refl)

settle_order_terminal :
    (o : Order) → let p = settle_order o in p.is_terminal ≡ order_status_terminal p.status
unfolding settle_order
settle_order_terminal o =
    let status = if order_status_given o.status then o.status else OrderStatus.created in
    let gateway =
      if gateway_status_given o.gateway_status then o.gateway_status else GatewayStatus.accepted in
    ground
      (arith, execution_state_terminal status gateway o.order_qty o.cum_filled_qty o.leaves_qty)

-- The ids and the symbol of the second order are the first one's, trimmed, and what it asks for is the same.
abbrev pub HasIdsOf : Order → Order → Type 0
HasIdsOf given o =
    (o.account_id ≡ trim_space given.account_id)
    × (o.gateway_order_id ≡ trim_space given.gateway_order_id)
    × (o.idempotency_key ≡ trim_space given.idempotency_key)
    × (o.client_order_id ≡ trim_space given.client_order_id)
    × (o.symbol ≡ trim_space given.symbol)
    × (o.exchange ≡ given.exchange)
    × (o.trade_side ≡ given.trade_side)
    × (o.order_qty ≡ given.order_qty)

-- What every order that normalizeOrder returns satisfies.
abbrev pub IsNormalOf : Order → Order → Type 0
IsNormalOf given o = HasIdsOf given o × (o.is_terminal ≡ order_status_terminal o.status)

dated_order :
    (o : Order) (date : String)
    → IsNormalOf o (settle_order (record (trim_order o) { trade_date = date }))
unfolding settle_order trim_order
dated_order o date = (
  (refl, refl, refl, refl, refl, refl, refl, refl),
  settle_order_terminal (record (trim_order o) { trade_date = date }),
)

pub normalize_order_if : (given : Order) → IfOk (normalize_order given) (IsNormalOf given)
unfolding normalize_order
normalize_order_if given = IfOk-bind (check_order (trim_order given)) _ (λ _.
    IfOk-bind (normalize_order_trade_date (trim_order given)) _
      (λ date. IfOk-ok _ (dated_order given date)))

-- What the row of a normalised order keeps of it.
abbrev pub SameCore : Order → Order → Type 0
SameCore o row =
    (row.account_id ≡ o.account_id)
    × (row.gateway_order_id ≡ o.gateway_order_id)
    × (row.idempotency_key ≡ o.idempotency_key)
    × (row.is_terminal ≡ o.is_terminal)
    × (row.status ≡ o.status)
    × (row.client_order_id ≡ o.client_order_id)
    × (row.symbol ≡ o.symbol)
    × (row.exchange ≡ o.exchange)
    × (row.trade_side ≡ o.trade_side)
    × (row.order_qty ≡ o.order_qty)

pub order_row_if : (db : Database) (o : Order) → IfOk (order_row db o) (SameCore o)
unfolding order_row
order_row_if db o = IfOk-bind (refuse_number (db.numeric o.limit_price)) _ (λ price.
    IfOk-bind (refuse_number (db.numeric o.avg_fill_price)) _ (λ average.
      IfOk-bind (refuse_number (db.numeric o.fee)) _
        (λ fee. IfOk-ok _ (refl, refl, refl, refl, refl, refl, refl, refl, refl, refl))))

-- The adapter context stays.
abbrev pub KeepsContext : Order → Order → Type 0
KeepsContext given o = o.adapter_context ≡ given.adapter_context

pub normalize_order_context : (given : Order) → IfOk (normalize_order given) (KeepsContext given)
unfolding normalize_order trim_order settle_order
normalize_order_context given =
    IfOk-bind (check_order (trim_order given)) _
      (λ _. IfOk-bind (normalize_order_trade_date (trim_order given)) _ (λ date. IfOk-ok _ refl))

pub order_row_context : (db : Database) (o : Order) → IfOk (order_row db o) (KeepsContext o)
unfolding order_row
order_row_context db o = IfOk-bind (refuse_number (db.numeric o.limit_price)) _ (λ price.
    IfOk-bind (refuse_number (db.numeric o.avg_fill_price)) _
      (λ average. IfOk-bind (refuse_number (db.numeric o.fee)) _ (λ fee. IfOk-ok _ refl)))

-- The first store with a row added that is normal, that the table allows, and that
-- conflicts with no row of it.
pub record Inserted (given : Order) (s s' : Store) : Type 0 where
  pub row : Order
  pub orders : s'.orders ≡ s.orders ++ (row ∷ [])
  pub normal : IsNormalOf given row
  pub allowed : row_allowed row ≡ true
  pub fresh : any (conflicts row) s.orders ≡ false

pub SameCore-normal :
    (given o row : Order) → IsNormalOf given o → SameCore o row → IsNormalOf given row
SameCore-normal given o row n c = grind (arith, n, c)

insert_row_if :
    (given row : Order) (known : Bool) (s : Store)
    → IsNormalOf given row
    → IfOk
        (guard (row_allowed row) backend
          >> (guard (not (any (conflicts row) s.orders)) order_conflict
              >> (guard known backend >> ok (record s { orders = s.orders ++ (row ∷ []) }))))
        (Inserted given s)
insert_row_if given row known s n = IfOk-guard (row_allowed row) backend _ (λ allowed.
    IfOk-guard (not (any (conflicts row) s.orders)) order_conflict _ (λ f.
      IfOk-bind (guard known backend) _ (λ _. IfOk-ok _ (record {
        row = row;
        orders = refl;
        normal = n;
        allowed = allowed;
        fresh = ground (arith, f);
      }))))

create_order_if :
    (db : Database) (given : Order) (s : Store) → IfOk (create_order db given s) (Inserted given s)
unfolding create_order
create_order_if db given s = IfOk-step (normalize_order given) _ (normalize_order_if given) (λ o n.
    IfOk-step (order_row db o) _ (order_row_if db o)
      (λ row c. insert_row_if given row _ s (SameCore-normal given o row n c)))

pub create_order-Inserted :
    (db : Database) (given : Order) (s s' : Store)
    → create_order db given s ≡ ok s'
    → Inserted given s s'
create_order-Inserted db given s s' h = (create_order_if db given s).at s' h

first_by-found :
    (before : Order → Order → Bool) (os : List Order) → os ≢ [] → first_by before os ≢ none
unfolding first_by
first_by-found before [] h = absurd (h refl)
first_by-found before (o ∷ os) h = ground arith

-- An order that stands under the account and the gateway order id, both trimmed, is not reported
-- missing.
pub get_order_known :
    (account gateway : String) (s : Store) (e : Error)
    → any (has_gateway_id (trim_space account) (trim_space gateway)) s.orders ≡ true
    → get_order account gateway s ≡ err e
    → is_order_not_found e ≡ false
unfolding get_order
get_order_known account gateway s e h q =
    let rows = keep (has_gateway_id (trim_space account) (trim_space gateway)) s.orders in
    ground (arith, first_by-found by_date rows (keep-any _ s.orders h))

-- The same for the account and the idempotency key.
pub get_order_by_idempotency_key_known :
    (account key : String) (s : Store) (e : Error)
    → any (has_key (trim_space account) (trim_space key)) s.orders ≡ true
    → get_order_by_idempotency_key account key s ≡ err e
    → is_order_not_found e ≡ false
unfolding get_order_by_idempotency_key
get_order_by_idempotency_key_known account key s e h q =
    let rows = keep (has_key (trim_space account) (trim_space key)) s.orders in
    ground (arith, first_by-found by_touch rows (keep-any _ s.orders h))

last : (b : Bool) → any (λ (x : Bool). x) (b ∷ []) ≡ b
last b = ground arith

module _ {given : Order} {s s' : Store} (i : Inserted given s s') where
  Inserted-any : (t : Order → Bool) → any t s'.orders ≡ any t s.orders || t i.row
  Inserted-any t =
      ap (any t) i.orders
      ∙ any-append t s.orders (i.row ∷ [])
      ∙ ap (λ b. any t s.orders || b) (last (t i.row))

  -- What stood in the ledger still stands.
  pub Inserted-Keeps : (t : Order → Bool) → any t s.orders ≡ true → any t s'.orders ≡ true
  Inserted-Keeps t h = ground (arith, Inserted-any t)

  -- The new order stands under its ids.
  pub Inserted-has_gateway_id :
      any
        (has_gateway_id (trim_space given.account_id) (trim_space given.gateway_order_id))
        s'.orders
      ≡ true
  Inserted-has_gateway_id =
      let t = has_gateway_id (trim_space given.account_id) (trim_space given.gateway_order_id) in
      ground (
        arith,
        Inserted-any t,
        i.normal,
        eq_refl (trim_space given.account_id),
        eq_refl (trim_space given.gateway_order_id),
      )

  -- It stands under all of its ids at once.
  pub Inserted-has_ids :
      any
        (λ o.
          has_gateway_id (trim_space given.account_id) (trim_space given.gateway_order_id) o
          && has_key (trim_space given.account_id) (trim_space given.idempotency_key) o)
        s'.orders
      ≡ true
  Inserted-has_ids = ground (
    arith,
    Inserted-any (λ o.
        has_gateway_id (trim_space given.account_id) (trim_space given.gateway_order_id) o
        && has_key (trim_space given.account_id) (trim_space given.idempotency_key) o),
    i.normal,
    eq_refl (trim_space given.account_id),
    eq_refl (trim_space given.gateway_order_id),
    eq_refl (trim_space given.idempotency_key),
  )

keep-All : (p : Order → Bool) (os : List Order) → All (λ o. p o ≡ true) (keep p os)
keep-All p [] = tt
keep-All p (o ∷ os) = ground (arith, keep-All p os)

-- What holds of an order that was found, if one was.
abbrev AtFound : (Order → Type 0) → Option Order → Type 0
AtFound P none = Unit
AtFound P (some o) = P o

first_by-All :
    (P : Order → Type 0) (before : Order → Order → Bool) (os : List Order)
    → All P os
    → AtFound P (first_by before os)
unfolding first_by
first_by-All P before [] h = tt
first_by-All P before (o ∷ os) h = ground (arith, h, first_by-All P before os h.1)

-- The lookup gave an order with the account and the gateway order id.
abbrev pub FoundOrder : String → String → Result Order → Type 0
FoundOrder account gateway r =
    (o : Order) × (r ≡ ok o) × (o.account_id ≡ account) × (o.gateway_order_id ≡ gateway)

scan_order_ids :
    (account gateway : String) (o : Order)
    → has_gateway_id account gateway o ≡ true
    → ((scan_order o).account_id ≡ account) × ((scan_order o).gateway_order_id ≡ gateway)
unfolding scan_order
scan_order_ids account gateway o h =
    ground (arith, h, (eq_iff o.account_id account).0, (eq_iff o.gateway_order_id gateway).0)

found_order :
    (account gateway : String) (r : Option Order)
    → r ≢ none
    → AtFound (λ o. has_gateway_id account gateway o ≡ true) r
    → FoundOrder account gateway (found r)
found_order account gateway none n h = absurd (n refl)
found_order account gateway (some o) n h =
    let (a, g) = scan_order_ids account gateway o h in (scan_order o, refl, a, g)

guarded_order :
    (account gateway : String) (a g : Bool) (x y : Error) (r : Result Order)
    → a ≡ true
    → g ≡ true
    → FoundOrder account gateway r
    → FoundOrder account gateway (guard a x >> (guard g y >> r))
guarded_order account gateway true true x y r h k f = f
guarded_order account gateway true false x y r h k f = cc
guarded_order account gateway false g x y r h k f = cc

-- An order that CreateOrder accepts, with an account and a gateway order id that are not blank, can be
-- read back: GetOrder then finds an order with that account and gateway order id, both trimmed.
pub create_order-get_order :
    (db : Database) (given : Order) (s s' : Store)
    → is_blank given.account_id ≡ false
    → is_blank given.gateway_order_id ≡ false
    → create_order db given s ≡ ok s'
    → FoundOrder
        (trim_space given.account_id)
        (trim_space given.gateway_order_id)
        (get_order given.account_id given.gateway_order_id s')
unfolding get_order
create_order-get_order db given s s' a g e =
    let account = trim_space given.account_id in
    let gateway = trim_space given.gateway_order_id in
    let rows = keep (has_gateway_id account gateway) s'.orders in
    guarded_order account gateway _ _ _ _ _ (ap not a) (ap not g) (
      found_order account gateway (first_by by_date rows)
        (first_by-found by_date rows
          (keep-any _ s'.orders (Inserted-has_gateway_id (create_order-Inserted db given s s' e))))
        (first_by-All _ by_date rows (keep-All (has_gateway_id account gateway) s'.orders)))
