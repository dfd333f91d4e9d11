-- ===== src/Trading/Validation/Laws.antt =====
-- What a request that passes validation satisfies.
use ti_relay_trader.Prelude.{
  ℕ, suc, String, ◌≡◌, ◌↔◌, ◌⊎◌, refl, true, false, List, [], ◌∷◌, arith, All, inl, inr,
  if◌then◌else◌, subst, eq_iff, ◌≢◌,
}
use ti_relay_trader.Prelude.Int.{pos, ◌≤ℤ◌}
use ti_relay_trader.Text.{is_empty, one_of}
use ti_relay_trader.Float64.{Float64, nan, neg_inf, pos_inf, finite, le_zero}
use ti_relay_trader.Errors.{Result, ok, err, ◌>>=◌, Result-cases}
use ti_relay_trader.Trading.Schema.{
  Exchange, TradeSide, BusinessType, OffsetType, SubmitOrderRequest, BatchSubmitOrderRequest,
}
use ti_relay_trader.Trading.Validation.{
  is_blank, exchange_valid, trade_side_valid, business_type_valid, offset_type_valid,
  validate_submit, with_account, at_index, validate_batch_order, validate_batch_orders,
  validate_batch,
}

-- Above zero, or not a number.
abbrev IsPositive : Float64 → Type 0
IsPositive nan = Unit
IsPositive neg_inf = ⊥
IsPositive pos_inf = Unit
IsPositive (finite z) = pos 1 ≤ℤ z

-- A request that names its account and its security, with an exchange, a side and a business type that
-- the schema lists, an offset that it lists or none, a positive quantity and a price that is not zero or
-- below it; a price that is not a number passes, as in the source.
pub record IsValid (req : SubmitOrderRequest) : Type 0 where
  pub account : is_blank req.account_id ≡ false
  pub symbol : is_blank req.symbol ≡ false
  pub exchange :
      (req.exchange ≡ Exchange.sh) ⊎ (req.exchange ≡ Exchange.sz) ⊎ (req.exchange ≡ Exchange.bj)
  pub trade_side :
      (req.trade_side ≡ TradeSide.buy)
      ⊎ (req.trade_side ≡ TradeSide.sell)
      ⊎ (req.trade_side ≡ TradeSide.purchase)
      ⊎ (req.trade_side ≡ TradeSide.redemption)
  pub business_type :
      (req.business_type ≡ BusinessType.stock) ⊎ (req.business_type ≡ BusinessType.etf)
  pub offset_type :
      (req.offset_type ≡ OffsetType.open_position)
      ⊎ (req.offset_type ≡ OffsetType.close_position)
      ⊎ (req.offset_type ≡ OffsetType.other "")
  pub price : IsPositive req.price
  pub qty : pos 1 ≤ℤ req.qty

le_zero_iff : (x : Float64) → (le_zero x ≡ false) ↔ IsPositive x
unfolding le_zero
le_zero_iff nan = (λ h. tt, λ h. refl)
le_zero_iff neg_inf = (λ h. cc, λ h. absurd h)
le_zero_iff pos_inf = (λ h. tt, λ h. refl)
le_zero_iff (finite z) = (λ h. ground arith, λ h. ground arith)

exchange_valid_iff :
    (x : Exchange)
    → (exchange_valid x ≡ true) ↔ ((x ≡ Exchange.sh) ⊎ (x ≡ Exchange.sz) ⊎ (x ≡ Exchange.bj))
unfolding exchange_valid
exchange_valid_iff x = (λ h. ground arith, λ h. ground arith)

trade_side_valid_iff :
    (x : TradeSide)
    → (trade_side_valid x ≡ true) ↔ (
        (x ≡ TradeSide.buy)
        ⊎ (x ≡ TradeSide.sell)
        ⊎ (x ≡ TradeSide.purchase)
        ⊎ (x ≡ TradeSide.redemption))
unfolding trade_side_valid
trade_side_valid_iff x = (λ h. ground arith, λ h. ground arith)

business_type_valid_iff :
    (x : BusinessType)
    → (business_type_valid x ≡ true) ↔ ((x ≡ BusinessType.stock) ⊎ (x ≡ BusinessType.etf))
unfolding business_type_valid
business_type_valid_iff x = (λ h. ground arith, λ h. ground arith)

offset_type_valid_iff :
    (x : OffsetType)
    → (offset_type_valid x ≡ true) ↔ (
        (x ≡ OffsetType.open_position)
        ⊎ (x ≡ OffsetType.close_position)
        ⊎ (x ≡ OffsetType.other ""))
unfolding offset_type_valid
offset_type_valid_iff x = (λ h. ground arith, λ h. ground arith)

validate_submit_tests :
    (req : SubmitOrderRequest)
    → (validate_submit req ≡ ok tt) ↔ (
        (is_blank req.account_id ≡ false)
        × (is_blank req.symbol ≡ false)
        × (exchange_valid req.exchange ≡ true)
        × (trade_side_valid req.trade_side ≡ true)
        × (business_type_valid req.business_type ≡ true)
        × (offset_type_valid req.offset_type ≡ true)
        × (le_zero req.price ≡ false)
        × (pos 1 ≤ℤ req.qty))
unfolding validate_submit
validate_submit_tests req = (λ h. ground arith, λ v. ground arith)

-- A submit request passes validation exactly when its account and its symbol are not blank, its exchange
-- is SH, SZ or BJ, its side B, S, P or R, its business type S or E, its offset O, C or empty, its quantity
-- is at least 1, and its price is above zero or not a number.
pub validate_submit_iff : (req : SubmitOrderRequest) → (validate_submit req ≡ ok tt) ↔ IsValid req
validate_submit_iff req = (
  λ h.
      let (a, s, e, t, b, o, p, q) = (validate_submit_tests req).0 h in
      record {
        account = a;
        symbol = s;
        exchange = (exchange_valid_iff req.exchange).0 e;
        trade_side = (trade_side_valid_iff req.trade_side).0 t;
        business_type = (business_type_valid_iff req.business_type).0 b;
        offset_type = (offset_type_valid_iff req.offset_type).0 o;
        price = (le_zero_iff req.price).0 p;
        qty = q;
      },
  λ v. (validate_submit_tests req).1 (
    v.account,
    v.symbol,
    (exchange_valid_iff req.exchange).1 v.exchange,
    (trade_side_valid_iff req.trade_side).1 v.trade_side,
    (business_type_valid_iff req.business_type).1 v.business_type,
    (offset_type_valid_iff req.offset_type).1 v.offset_type,
    (le_zero_iff req.price).1 v.price,
    v.qty,
  ),
)

-- The id is new to those seen, and is remembered; an empty id is neither checked nor remembered.
abbrev Admits : String → List String → List String → Type 0
Admits id seen seen' =
    ((is_empty id ≡ true) × (seen' ≡ seen))
    ⊎ ((is_empty id ≡ false) × (one_of id seen ≡ false) × (seen' ≡ id ∷ seen))

abbrev pub IsAccepted : String → SubmitOrderRequest → Type 0
IsAccepted account entry =
    let order = with_account account entry in IsValid order × (order.account_id ≡ account)

at_index-ok : (i : ℕ) (r : Result (Unit {0})) → at_index i r ≡ ok tt → r ≡ ok tt
unfolding at_index
at_index-ok i (ok tt) h = refl
at_index-ok i (err e) h = cc

with_account_id :
    (account : String) (entry : SubmitOrderRequest)
    → (with_account account entry).gateway_order_id ≡ entry.gateway_order_id
unfolding with_account
with_account_id account entry = ground arith

validate_batch_order-ok :
    (account : String) (i : ℕ) (seen : List String) (entry : SubmitOrderRequest)
    {seen' : List String}
    → validate_batch_order account i seen entry ≡ ok seen'
    → IsAccepted account entry × Admits entry.gateway_order_id seen seen'
unfolding validate_batch_order
validate_batch_order-ok account i seen entry h =
    let order = with_account account entry in
    ground (
      arith,
      at_index-ok i (validate_submit order),
      (validate_submit_iff order).0,
      with_account_id account entry,
      eq_iff order.account_id account,
    )

-- The ids that are not empty, in their order.
abbrev pub given_ids : List SubmitOrderRequest → List String
given_ids [] = []
given_ids (entry ∷ rest) =
    let ids = given_ids rest in
    if is_empty entry.gateway_order_id then ids else entry.gateway_order_id ∷ ids

-- No text stands twice in the list.
abbrev pub AreDistinct : List String → Type 0
AreDistinct [] = Unit
AreDistinct (x ∷ xs) = All (λ y. y ≢ x) xs × AreDistinct xs

abbrev IsUnseen : List String → List String → Type 0
IsUnseen seen ids = All (λ id. one_of id seen ≡ false) ids

IsUnseen-tail :
    (x : String) (seen ids : List String)
    → IsUnseen (x ∷ seen) ids
    → All (λ y. y ≢ x) ids × IsUnseen seen ids
IsUnseen-tail x seen [] h = (tt, tt)
IsUnseen-tail x seen (y ∷ ids) h =
    let (apart, old) = IsUnseen-tail x seen ids h.1 in ground (arith, eq_iff y x)

abbrev with_id : String → List String → List String
with_id id ids = if is_empty id then ids else id ∷ ids

Admits-step :
    (id : String) (seen seen' ids : List String)
    → Admits id seen seen'
    → AreDistinct ids
    → IsUnseen seen' ids
    → AreDistinct (with_id id ids) × IsUnseen seen (with_id id ids)
Admits-step id seen seen' ids (inl (p, same)) apart unseen =
    rw p (apart, subst (λ l. IsUnseen l ids) same unseen)
Admits-step id seen seen' ids (inr (p, new, more)) apart unseen =
    let (others, old) = IsUnseen-tail id seen ids (subst (λ l. IsUnseen l ids) more unseen) in
    rw p ((others, apart), (new, old))

validate_batch_orders-ok :
    (account : String) (i : ℕ) (seen : List String) (orders : List SubmitOrderRequest)
    → validate_batch_orders account i seen orders ≡ ok tt
    → All (IsAccepted account) orders
      × AreDistinct (given_ids orders)
      × IsUnseen seen (given_ids orders)
unfolding validate_batch_orders
validate_batch_orders-ok account i seen [] h = (tt, tt, tt)
validate_batch_orders-ok account i seen (entry ∷ rest) h =
    elim (Result-cases (validate_batch_order account i seen entry)) [
      | inl (seen', e) ↦
          let (accepted, admits) = validate_batch_order-ok account i seen entry e in
          let (all, apart, unseen) =
            validate_batch_orders-ok account (suc i) seen' rest (rw (e, ◌>>=◌) at h) in
          let (apart', unseen') =
            Admits-step entry.gateway_order_id seen seen' _ admits apart unseen in
          ((accepted, all), apart', unseen')
      | inr (e, p) ↦ absurd (cc (rw (p, ◌>>=◌) at h))
    ]

validate_batch-parts :
    (req : BatchSubmitOrderRequest)
    → validate_batch req ≡ ok tt
    → (is_blank req.account_id ≡ false)
      × (req.orders ≢ [])
      × (validate_batch_orders req.account_id 0 [] req.orders ≡ ok tt)
unfolding validate_batch
validate_batch-parts req h = ground arith

-- A batch that passes validation has a non-blank account, at least one order, and in each order,
-- with the account of the batch where its own is blank, valid fields and that account; no two of
-- its orders give the same non-empty gateway order id.
pub validate_batch_sound :
    (req : BatchSubmitOrderRequest)
    → validate_batch req ≡ ok tt
    → (is_blank req.account_id ≡ false)
      × (req.orders ≢ [])
      × All (IsAccepted req.account_id) req.orders
      × AreDistinct (given_ids req.orders)
validate_batch_sound req h =
    let (account, orders, checked) = validate_batch-parts req h in
    let (accepted, apart, _) = validate_batch_orders-ok req.account_id 0 [] req.orders checked in
    (account, orders, accepted, apart)
