-- ===== src/Orderflow/Preflight/Laws.antt =====
-- The idempotency check in front of a submission (preflightSubmitOrder of
-- internal/orderflow/service.go) and the orders that stand in the ledger.
use ti_relay_trader.Prelude.{
  Bool, true, false, ◌≡◌, ◌≢◌, refl, none, some, if◌then◌else◌, arith, subst, sym, Bool-cases, inl,
  inr,
}
use ti_relay_trader.Text.{trim_space}
use ti_relay_trader.Errors.{Error, Result, ok, err, is_order_not_found}
use ti_relay_trader.Trading.Schema.{SubmitOrderRequest, Order}
use ti_relay_trader.Ledger.Store.{Store}
use ti_relay_trader.Ledger.Orders.{has_gateway_id, has_key, get_order, get_order_by_idempotency_key}
use ti_relay_trader.Ledger.Orders.Laws.{get_order_known, get_order_by_idempotency_key_known}
use ti_relay_trader.Orderflow.World.{
  Service, Weather, calm, failed, lost, rival, World, M, ◌>>=◌, pure, raise, lift, attempt, meet,
  reading, read_ledger,
}
use ti_relay_trader.Orderflow.Preflight.{
  Preflight, same_original_submit_order, preflight_known, preflight_keyed, by_key_result,
  preflight_by_key, by_id_result, preflight_submit_order,
}
use ti_relay_trader.Orderflow.Safety.{
  holds, Calm, Calm-pure, Calm-raise, Calm-lift, Calm-attempt, Calm-if, Calm-bind,
}
use ti_relay_trader.Orderflow.Safety.Calls.{Calm-read_ledger, meet-holds}

-- The order with the request's account and gateway order id.
abbrev pub wanted_id : SubmitOrderRequest → Order → Bool
wanted_id req = has_gateway_id (trim_space req.account_id) (trim_space req.gateway_order_id)

-- The order with the request's account and idempotency key.
abbrev pub wanted_key : SubmitOrderRequest → Order → Bool
wanted_key req = has_key (trim_space req.account_id) (trim_space req.idempotency_key)

module _ {t : Order → Bool} where
  Calm-same_original :
      (service : Service) (order : Order) (req : SubmitOrderRequest)
      → Calm t (same_original_submit_order service order req)
  unfolding same_original_submit_order
  Calm-same_original service order req =
      Calm-bind _ _ (Calm-attempt _ (Calm-read_ledger service _)) (λ a. Calm-lift _)

  Calm-known :
      (service : Service) (req : SubmitOrderRequest) (existing : Order)
      → Calm t (preflight_known service req existing)
  unfolding preflight_known
  Calm-known service req existing =
      Calm-if _ _ _
        (Calm-bind _ _ (Calm-same_original service existing req)
          (λ same. Calm-if same _ _ (Calm-pure _) (Calm-raise _)))
        (Calm-raise _)

  Calm-keyed :
      (service : Service) (req : SubmitOrderRequest) (existing : Order)
      → Calm t (preflight_keyed service req existing)
  unfolding preflight_keyed
  Calm-keyed service req existing =
      Calm-bind _ _ (Calm-same_original service existing req)
        (λ same. Calm-if _ _ _ (Calm-pure _) (Calm-raise _))

  Calm-by_key_result :
      (service : Service) (req : SubmitOrderRequest) (r : Result Order)
      → Calm t (by_key_result service req r)
  Calm-by_key_result service req (ok existing) = Calm-keyed service req existing
  Calm-by_key_result service req (err e) = Calm-if _ _ _ (Calm-pure _) (Calm-raise _)

  Calm-by_key :
      (service : Service) (req : SubmitOrderRequest) → Calm t (preflight_by_key service req)
  unfolding preflight_by_key
  Calm-by_key service req =
      Calm-bind _ _ (Calm-attempt _ (Calm-read_ledger service _)) (Calm-by_key_result service req)

  Calm-by_id_result :
      (service : Service) (req : SubmitOrderRequest) (r : Result Order)
      → Calm t (by_id_result service req r)
  Calm-by_id_result service req (ok existing) = Calm-known service req existing
  Calm-by_id_result service req (err e) = Calm-if _ _ _ (Calm-by_key service req) (Calm-raise _)

  pub Calm-preflight :
      (service : Service) (req : SubmitOrderRequest) → Calm t (preflight_submit_order service req)
  unfolding preflight_submit_order
  Calm-preflight service req =
      Calm-bind _ _ (Calm-attempt _ (Calm-read_ledger service _)) (Calm-by_id_result service req)

-- The action never answers that no order stands in the way.
record Never (m : M Preflight) : Type 0 where
  at : (w : World) → (m w).0 ≢ ok none

Never-raise : (e : Error) → Never (raise e)
unfolding raise
Never-raise e = record { at = λ w h. cc }

Never-pure : (o : Order) → Never (pure (some o))
unfolding pure
Never-pure o = record { at = λ w h. cc }

Never-if : (b : Bool) (m n : M Preflight) → Never m → Never n → Never (if b then m else n)
Never-if true m n nm nn = nm
Never-if false m n nm nn = nn

Never-bind_lift :
    {A : Type 0} (r : Result A) (f : A → M Preflight)
    → ((a : A) → Never (f a))
    → Never (lift r >>= f)
unfolding ◌>>=◌ lift
Never-bind_lift (ok a) f n = record { at = (n a).at }
Never-bind_lift (err e) f n = record { at = λ w h. cc }

Never-bind :
    {A : Type 0} (m : M A) (f : A → M Preflight) → ((a : A) → Never (f a)) → Never (m >>= f)
unfolding ◌>>=◌ lift
Never-bind m f n = record { at = λ w. let (r, w') = m w in (Never-bind_lift r f n).at w' }

Never-known :
    (service : Service) (req : SubmitOrderRequest) (existing : Order)
    → Never (preflight_known service req existing)
unfolding preflight_known
Never-known service req existing =
    Never-if _ _ _
      (Never-bind _ _ (λ same. Never-if same _ _ (Never-pure existing) (Never-raise _)))
      (Never-raise _)

Never-keyed :
    (service : Service) (req : SubmitOrderRequest) (existing : Order)
    → Never (preflight_keyed service req existing)
unfolding preflight_keyed
Never-keyed service req existing =
    Never-bind _ _ (λ same. Never-if _ _ _ (Never-pure existing) (Never-raise _))

-- A lookup that does not report the order missing stops the request.
Stops-by_key_result :
    (service : Service) (req : SubmitOrderRequest) (r : Result Order) (w : World)
    → ((e : Error) → r ≡ err e → is_order_not_found e ≡ false)
    → (by_key_result service req r w).0 ≢ ok none
Stops-by_key_result service req (ok existing) w n = (Never-keyed service req existing).at w
Stops-by_key_result service req (err e) w n =
    (subst (λ b. Never (if b then pure none else raise e)) (sym (n e refl)) (Never-raise e)).at w

-- A query after which every answer is known not to be `not found`, in any weather.
reading-known :
    {A : Type 0} (q : Store → Result A) (x : Weather × World)
    → ((e : Error) → q x.1.store ≡ err e → is_order_not_found e ≡ false)
    → (e : Error) → (reading q x).0 ≡ err e
    → is_order_not_found e ≡ false
reading-known q (calm, w) n e h = n e h
reading-known q (failed, w) n e h = ground (arith, h)
reading-known q (lost, w) n e h = ground (arith, h)
reading-known q (rival o, w) n e h = ground (arith, h)

Stops-by_key :
    (service : Service) (req : SubmitOrderRequest) (w : World)
    → holds (wanted_key req) w ≡ true
    → (preflight_by_key service req w).0 ≢ ok none
unfolding preflight_by_key ◌>>=◌ attempt read_ledger
Stops-by_key service req w h =
    let x = meet service w in
    let q = get_order_by_idempotency_key req.account_id req.idempotency_key in
    let (r, w') = reading q x in
    Stops-by_key_result service req r w' (
      reading-known q x (λ e.
        get_order_by_idempotency_key_known req.account_id req.idempotency_key x.1.store e
          (meet-holds (wanted_key req) service w h)))

Never-by_id_known :
    (service : Service) (req : SubmitOrderRequest) (r : Result Order)
    → ((e : Error) → r ≡ err e → is_order_not_found e ≡ false)
    → Never (by_id_result service req r)
Never-by_id_known service req (ok existing) n = Never-known service req existing
Never-by_id_known service req (err e) n =
    subst (λ b. Never (if b then preflight_by_key service req else raise e)) (sym (n e refl))
      (Never-raise e)

Stops-by_id_result :
    (service : Service) (req : SubmitOrderRequest) (r : Result Order) (w : World)
    → holds (wanted_key req) w ≡ true
    → (by_id_result service req r w).0 ≢ ok none
Stops-by_id_result service req (ok existing) w h = (Never-known service req existing).at w
Stops-by_id_result service req (err e) w h = elim (Bool-cases (is_order_not_found e)) [
  | inl m ↦
      subst (λ b. ((if b then preflight_by_key service req else raise e) w).0 ≢ ok none) (sym m)
        (Stops-by_key service req w h)
  | inr m ↦
      subst (λ b. ((if b then preflight_by_key service req else raise e) w).0 ≢ ok none) (sym m)
        ((Never-raise e).at w)
]

-- While an order with the request's account and gateway order id stands in the ledger, the check
-- does not let the request through, in any weather.
pub preflight-wanted_id :
    (service : Service) (req : SubmitOrderRequest) (w : World)
    → holds (wanted_id req) w ≡ true
    → (preflight_submit_order service req w).0 ≢ ok none
unfolding preflight_submit_order ◌>>=◌ attempt read_ledger
preflight-wanted_id service req w h =
    let x = meet service w in
    let q = get_order req.account_id req.gateway_order_id in
    let (r, w') = reading q x in
    (Never-by_id_known service req r (
        reading-known q x (λ e.
          get_order_known req.account_id req.gateway_order_id x.1.store e
            (meet-holds (wanted_id req) service w h)))).at
      w'

-- The same while an order with the request's account and idempotency key stands in the ledger.
pub preflight-wanted_key :
    (service : Service) (req : SubmitOrderRequest) (w : World)
    → holds (wanted_key req) w ≡ true
    → (preflight_submit_order service req w).0 ≢ ok none
unfolding preflight_submit_order ◌>>=◌ attempt read_ledger
preflight-wanted_key service req w h =
    let q = get_order req.account_id req.gateway_order_id in
    let (r, w') = reading q (meet service w) in
    Stops-by_id_result service req r w'
      ((Calm-read_ledger {t = wanted_key req} service q).keeps w h)
