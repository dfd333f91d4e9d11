-- ===== src/Orderflow/Submit/AtMostOnce.antt =====
-- How often SubmitOrder of internal/orderflow/service.go publishes a command for an order.
use ti_relay_trader.Prelude.{
  suc, ◌≤◌, Bool, true, false, ◌≡◌, ◌≢◌, refl, sym, ◌∙◌, ap, subst, ◌⊎◌, inl, inr, none, some, List,
  [], ◌∷◌, String, length, length-append, any-weaken, if◌then◌else◌, arith, All,
}
use ti_relay_trader.Text.{trim_space}
use ti_relay_trader.Time.{Time}
use ti_relay_trader.Errors.{Result, ok, err}
use ti_relay_trader.Trading.Schema.{SubmitOrderRequest, Order}
use ti_relay_trader.Trading.Validation.{is_blank}
use ti_relay_trader.Ledger.Orders.{has_gateway_id}
use ti_relay_trader.Orderflow.World.{Service, World, M, continue, ◌>>=◌, pure, lift, new_id}
use ti_relay_trader.Orderflow.Preflight.{Preflight, preflight_submit_order}
use ti_relay_trader.Orderflow.Preflight.Laws.{
  wanted_id, wanted_key, Calm-preflight, preflight-wanted_id, preflight-wanted_key,
}
use ti_relay_trader.Orderflow.Submit.{
  SubmitOrderResult, or_new_id, with_ids, with_trade_date, replay_or, submit_order,
}
use ti_relay_trader.Orderflow.Submit.Commands.{
  Calm-replayed, Calm-or_new_id, sent_request, submit_order-keeps,
}
use ti_relay_trader.Orderflow.Submit.Backing.{wanted, Fills, submit_order-backed}
use ti_relay_trader.Orderflow.Safety.{holds, Calm, Calm-lift}
use ti_relay_trader.Orderflow.Safety.Calls.{Calm-now}

-- The action publishes nothing while an order that passes the test stands in the ledger.
record QuietFrom {A : Type 0} (t : Order → Bool) (m : M A) : Type 0 where
  at : (w : World) → holds t w ≡ true → (m w).1.published ≡ w.published

module _ {A B : Type 0} {t : Order → Bool} where
  QuietFrom-bind_lift :
      (r : Result A) (f : A → M B) → ((a : A) → QuietFrom t (f a)) → QuietFrom t (lift r >>= f)
  unfolding ◌>>=◌ lift
  QuietFrom-bind_lift (ok a) f c = record { at = (c a).at }
  QuietFrom-bind_lift (err e) f c = record { at = λ w h. refl }

  QuietFrom-bind :
      (m : M A) (f : A → M B) → Calm t m → ((a : A) → QuietFrom t (f a)) → QuietFrom t (m >>= f)
  unfolding ◌>>=◌ lift
  QuietFrom-bind m f cm cf = record {
    at = λ w h. let (r, w') = m w in (QuietFrom-bind_lift r f cf).at w' (cm.keeps w h) ∙ cm.quiet w;
  }

-- An id that is given is the one that is used.
or_new_id_given :
    (service : Service) (prefix given : String) (t : Order → Bool) {B : Type 0} (f : String → M B)
    → is_blank given ≡ false
    → QuietFrom t (f given)
    → QuietFrom t (or_new_id service prefix given >>= f)
unfolding or_new_id ◌>>=◌ pure
or_new_id_given service prefix given t {B = B} f b q =
    subst (λ c. QuietFrom t ((if c then new_id service prefix else pure given) >>= f)) (sym b)
      (pure_given given f q)
  where
    pure_given : (g : String) (f : String → M B) → QuietFrom t (f g) → QuietFrom t (pure g >>= f)
    pure_given g f q = record { at = q.at }

-- A request that the check stops is answered without a command.
stopped :
    (service : Service) (req : SubmitOrderRequest) (given : String) (t : Order → Bool)
    (go : M SubmitOrderResult)
    → ((w : World) → holds t w ≡ true → (preflight_submit_order service req w).0 ≢ ok none)
    → QuietFrom t (preflight_submit_order service req >>= replay_or service req given go)
unfolding ◌>>=◌
stopped service req given t go n = record {
  at = λ w h.
      let (r, w') = preflight_submit_order service req w in
      settled r w' (n w h) ∙ (Calm-preflight {t = t} service req).quiet w;
}
  where
    settled :
        (r : Result Preflight) (w : World)
        → r ≢ ok none
        → (continue r (replay_or service req given go) w).1.published ≡ w.published
    settled (ok none) w n = absurd (n refl)
    settled (ok (some existing)) w n = (Calm-replayed {t = t} service existing _ given).quiet w
    settled (err e) w n = refl

QuietFrom-id :
    (service : Service) (req : SubmitOrderRequest) (option : String)
    → is_blank req.gateway_order_id ≡ false
    → QuietFrom (wanted_id req) (submit_order service req option)
unfolding submit_order with_ids with_trade_date
QuietFrom-id service req option b = QuietFrom-bind _ _ (Calm-lift _) (λ _.
    QuietFrom-bind _ _ (Calm-lift _) (λ _. QuietFrom-bind _ _ (Calm-lift _) (λ route.
      QuietFrom-bind _ _ (Calm-lift _) (λ _. or_new_id_given service _ req.gateway_order_id _ _ b (
        QuietFrom-bind _ _ (Calm-now service)
          (λ time. stopped service _ _ _ _ (preflight-wanted_id service _)))))))

same_key :
    (req : SubmitOrderRequest) (gateway : String) (time : Time)
    → is_blank req.idempotency_key ≡ false
    → wanted_key (sent_request req gateway time) ≡ wanted_key req
unfolding with_ids with_trade_date
same_key req gateway time b = rw b refl

QuietFrom-key :
    (service : Service) (req : SubmitOrderRequest) (option : String)
    → is_blank req.idempotency_key ≡ false
    → QuietFrom (wanted_key req) (submit_order service req option)
unfolding submit_order
QuietFrom-key service req option b = QuietFrom-bind _ _ (Calm-lift _) (λ _.
    QuietFrom-bind _ _ (Calm-lift _) (λ _. QuietFrom-bind _ _ (Calm-lift _) (λ route.
      QuietFrom-bind _ _ (Calm-lift _) (λ _.
        QuietFrom-bind _ _ (Calm-or_new_id service _ _) (λ gateway.
          QuietFrom-bind _ _ (Calm-now service) (λ time. stopped service _ _ _ _ (λ w h.
            preflight-wanted_key service (sent_request req gateway time) w
              (subst (λ t. holds t w ≡ true) (sym (same_key req gateway time b)) h))))))))

-- While an order with the request's account and gateway order id, which is not blank, stands in the
-- ledger, SubmitOrder publishes nothing, in any weather.
pub submit_order-quiet_id :
    (service : Service) (req : SubmitOrderRequest) (option : String) (w : World)
    → is_blank req.gateway_order_id ≡ false
    → holds (wanted_id req) w ≡ true
    → (submit_order service req option w).1.published ≡ w.published
submit_order-quiet_id service req option w b h = (QuietFrom-id service req option b).at w h

-- While an order with the request's account and idempotency key, which is not blank, stands in the
-- ledger, SubmitOrder publishes nothing, in any weather and whatever the gateway order id.
pub submit_order-quiet_key :
    (service : Service) (req : SubmitOrderRequest) (option : String) (w : World)
    → is_blank req.idempotency_key ≡ false
    → holds (wanted_key req) w ≡ true
    → (submit_order service req option w).1.published ≡ w.published
submit_order-quiet_key service req option w b h = (QuietFrom-key service req option b).at w h

-- Calls of SubmitOrder, each in the world that the one before it leaves.
unfoldable pub submit_all : Service → List (SubmitOrderRequest × String) → World → World
submit_all service [] w = w
submit_all service ((req, option) ∷ rest) w =
    submit_all service rest (submit_order service req option w).1

-- The request names the account and the gateway order id, which is not blank.
abbrev pub NamesOrder : String → String → (SubmitOrderRequest × String) → Type 0
NamesOrder account gateway (req, option) =
    (is_blank req.gateway_order_id ≡ false)
    × (trim_space req.account_id ≡ account)
    × (trim_space req.gateway_order_id ≡ gateway)

names_wanted :
    (account gateway : String) (req : SubmitOrderRequest) (option : String) (w : World)
    → NamesOrder account gateway (req, option)
    → holds (has_gateway_id account gateway) w ≡ true
    → holds (wanted_id req) w ≡ true
names_wanted account gateway req option w n h = rw (n.1, n.2) h

submit_all-quiet :
    (account gateway : String) (service : Service) (calls : List (SubmitOrderRequest × String))
    (w : World)
    → All (NamesOrder account gateway) calls
    → holds (has_gateway_id account gateway) w ≡ true
    → (submit_all service calls w).published ≡ w.published
unfolding submit_all
submit_all-quiet account gateway service [] w n h = refl
submit_all-quiet account gateway service ((req, option) ∷ rest) w n h =
    submit_all-quiet account gateway service rest (submit_order service req option w).1 n.1
      (submit_order-keeps (has_gateway_id account gateway) service req option w h)
    ∙ submit_order-quiet_id service req option w n.0.0
        (names_wanted account gateway req option w n.0 h)

filled_gateway :
    (given gateway : String) → Fills given gateway → is_blank given ≡ false → given ≡ gateway
filled_gateway given gateway fills b = ground (arith, fills, b)

wanted_named :
    (account gateway : String) (req : SubmitOrderRequest) (option : String) (g : String)
    (time : Time) (o : Order)
    → NamesOrder account gateway (req, option)
    → Fills req.gateway_order_id g
    → wanted (sent_request req g time) o ≡ true
    → has_gateway_id account gateway o ≡ true
unfolding with_ids with_trade_date
wanted_named account gateway req option g time o n fills h =
    ground (arith, filled_gateway req.gateway_order_id g fills n.0, n.1, n.2, h)

submit_order-names :
    (account gateway : String) (service : Service) (req : SubmitOrderRequest) (option : String)
    (w : World)
    → NamesOrder account gateway (req, option)
    → let (r, w') = submit_order service req option w in
      (w'.published ≡ w.published)
      ⊎ ((length w'.published ≡ suc (length w.published))
          × (holds (has_gateway_id account gateway) w' ≡ true))
submit_order-names account gateway service req option w n =
    elim (submit_order-backed service req option w) [
      | inl q ↦ inl q
      | inr (g, fills, time, s, h) ↦ inr (
        ap length s.appended ∙ length-append w.published (s.command ∷ []) ∙ omega arith,
        any-weaken (wanted (sent_request req g time)) (has_gateway_id account gateway) _
            (λ o. wanted_named account gateway req option g time o n fills) h,
      )
    ]

-- If all calls of a run name the same account and the same gateway order id, which is not blank, the
-- run publishes at most one command, in any weather.
pub submit_all-at_most_one :
    (account gateway : String) (service : Service) (calls : List (SubmitOrderRequest × String))
    (w : World)
    → All (NamesOrder account gateway) calls
    → length (submit_all service calls w).published ≤ suc (length w.published)
unfolding submit_all
submit_all-at_most_one account gateway service [] w n = omega arith
submit_all-at_most_one account gateway service ((req, option) ∷ rest) w n =
    let w' = (submit_order service req option w).1 in
    elim (submit_order-names account gateway service req option w n.0) [
      | inl q ↦
          subst (λ cs. length (submit_all service rest w').published ≤ suc (length cs)) q
            (submit_all-at_most_one account gateway service rest w' n.1)
      | inr (q, h) ↦
          omega (arith, q, ap length (submit_all-quiet account gateway service rest w' n.1 h))
    ]
