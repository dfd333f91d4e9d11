-- ===== src/Orderflow/Submit/Commands.antt =====
-- What the parts of SubmitOrder in internal/orderflow/service.go do to the command streams and to the
-- ledger.
use ti_relay_trader.Prelude.{Bool, true, ◌≡◌, refl, ◌∙◌, ◌⊎◌, inl, inr, none, some, String, any}
use ti_relay_trader.Time.{Time}
use ti_relay_trader.Errors.{Error, Result, ok, err}
use ti_relay_trader.Trading.Schema.{SubmitOrderRequest, Order}
use ti_relay_trader.Streams.{submit, new_command_envelope}
use ti_relay_trader.Ledger.Store.{Store}
use ti_relay_trader.Ledger.Orders.{create_order}
use ti_relay_trader.Orderflow.World.{
  AccountRoute, Service, World, M, Command, ◌>>=◌, attempt, write_ledger,
}
use ti_relay_trader.Orderflow.Preflight.{Preflight}
use ti_relay_trader.Orderflow.Preflight.Laws.{Calm-preflight}
use ti_relay_trader.Orderflow.Submit.{
  SubmitOrderResult, replayed_command_metadata, replayed_submit_result, or_new_id, with_ids,
  with_trade_date, submitted_order, send_submit, replay_or, refused_submit, created_submit,
  fresh_submit, submit_order,
}
use ti_relay_trader.Orderflow.Safety.{
  holds, Calm, Sent, Sent-before, SendsOne, Reserves, Calm-pure, Calm-raise, Calm-lift,
  Calm-attempt, Calm-if, Calm-bind, Calm-SendsOne, SendsOne-bind, SendsOne-then, Reserves-bind,
}
use ti_relay_trader.Orderflow.Safety.Calls.{
  Calm-new_id, Calm-now, Calm-read_ledger, Calm-write_ledger, create_order-Grows,
  upsert_account-Grows, Calm-archive_command, write_ledger-Reserved, SendsOne-publish_command,
}

module _ {t : Order → Bool} where
  pub Calm-metadata :
      (service : Service) (account action key fallback : String)
      → Calm t (replayed_command_metadata service account action key fallback)
  unfolding replayed_command_metadata
  Calm-metadata service account action key fallback =
      Calm-bind _ _ (Calm-attempt _ (Calm-read_ledger service _)) (λ a. Calm-lift _)

  pub Calm-replayed :
      (service : Service) (order : Order) (key fallback : String)
      → Calm t (replayed_submit_result service order key fallback)
  unfolding replayed_submit_result
  Calm-replayed service order key fallback =
      Calm-bind _ _ (Calm-metadata service _ _ _ _) (λ r. Calm-pure _)

  pub Calm-or_new_id :
      (service : Service) (prefix given : String) → Calm t (or_new_id service prefix given)
  unfolding or_new_id
  Calm-or_new_id service prefix given = Calm-if _ _ _ (Calm-new_id service prefix) (Calm-pure _)

  Calm-replay_or :
      (service : Service) (req : SubmitOrderRequest) (request_id : String) (m : M SubmitOrderResult)
      (seen : Preflight)
      → Calm t m
      → Calm t (replay_or service req request_id m seen)
  Calm-replay_or service req request_id m none c = c
  Calm-replay_or service req request_id m (some existing) c =
      Calm-replayed service existing _ request_id

  Calm-refused :
      (service : Service) (req : SubmitOrderRequest) (request_id : String) (e : Error)
      → Calm t (refused_submit service req request_id e)
  unfolding refused_submit
  Calm-refused service req request_id e =
      Calm-if _ _ _
        (Calm-bind _ _ (Calm-preflight service req)
          (λ seen. Calm-replay_or service req request_id _ seen (Calm-raise e)))
        (Calm-raise e)

-- The command submits the request.
abbrev pub Submits : SubmitOrderRequest → Command → Type 0
Submits req command = command.1.payload ≡ submit req

-- The two worlds differ by at most one command, and by one only if the order stands.
abbrev Backed : (Order → Bool) → (Command → Type 0) → World → World → Type 0
Backed t P w w' = (w'.published ≡ w.published) ⊎ (Sent P w w' × (holds t w' ≡ true))

module _ {t : Order → Bool} where
  SendsOne-send :
      (service : Service) (route : AccountRoute) (req : SubmitOrderRequest) (time : Time)
      (message_id request_id : String) (order : Order)
      → SendsOne t (Submits req) (send_submit service route req time message_id request_id order)
  unfolding send_submit new_command_envelope
  SendsOne-send service route req time message_id request_id order =
      SendsOne-bind _ _ (Calm-lift _) (λ key.
        SendsOne-then _ _ (SendsOne-publish_command service key _ refl) (λ published.
          Calm-bind _ _ (Calm-archive_command service published _ _ _ _) (λ _. Calm-pure _)))

  created-Backed :
      (service : Service) (req : SubmitOrderRequest) (request_id : String)
      (go : M SubmitOrderResult) (r : Result (Unit {0})) (w : World)
      → SendsOne t (Submits req) go
      → (r ≡ ok tt → holds t w ≡ true)
      → Backed t (Submits req) w (created_submit service req request_id go r w).1
  created-Backed service req request_id go (ok u) w g h = elim (g.sends w) [
    | inl q ↦ inl q
    | inr s ↦ inr (s, g.keeps w (h refl))
  ]
  created-Backed service req request_id go (err e) w g h =
      inl ((Calm-refused {t = t} service req request_id e).quiet w)

  created-keeps :
      (service : Service) (req : SubmitOrderRequest) (request_id : String)
      (go : M SubmitOrderResult) (r : Result (Unit {0})) (w : World)
      → SendsOne t (Submits req) go
      → holds t w ≡ true
      → holds t (created_submit service req request_id go r w).1 ≡ true
  created-keeps service req request_id go (ok u) w g h = g.keeps w h
  created-keeps service req request_id go (err e) w g h =
      (Calm-refused service req request_id e).keeps w h

  Reserves-created :
      (service : Service) (req : SubmitOrderRequest) (request_id : String)
      (go : M SubmitOrderResult) (f : Store → Result Store)
      → ((s s' : Store) → f s ≡ ok s' → any t s'.orders ≡ true)
      → Calm t (write_ledger service f)
      → SendsOne t (Submits req) go
      → Reserves t
          (Submits req)
          (attempt (write_ledger service f) >>= created_submit service req request_id go)
  unfolding ◌>>=◌ attempt
  Reserves-created service req request_id go f g c sends = record {
    sends = λ w.
        let (r, w') = write_ledger service f w in
        elim (created-Backed service req request_id go r w' sends
          (write_ledger-Reserved t service f w g)) [
            | inl q ↦ inl (q ∙ c.quiet w)
            | inr s ↦ inr (Sent-before (c.quiet w) s.0, s.1)
          ];
    keeps = λ w h.
        let (r, w') = write_ledger service f w in
        created-keeps service req request_id go r w' sends (c.keeps w h);
  }

  pub Reserves-fresh :
      (service : Service) (route : AccountRoute) (req : SubmitOrderRequest) (time : Time)
      (given : String)
      → ((message_id request_id : String) (s s' : Store)
          → create_order service.database (submitted_order req time message_id request_id) s ≡ ok s'
          → any t s'.orders ≡ true)
      → Reserves t (Submits req) (fresh_submit service route req time given)
  unfolding fresh_submit
  Reserves-fresh service route req time given g =
      Reserves-bind _ _ (Calm-new_id service _) (λ message_id.
        Reserves-bind _ _ (Calm-if _ _ _ (Calm-new_id service _) (Calm-pure _)) (λ request_id.
          Reserves-bind _ _ (Calm-write_ledger service _ (upsert_account-Grows _ _)) (λ _.
            Reserves-created service req request_id _ _ (g message_id request_id)
              (Calm-write_ledger service _ (create_order-Grows _ _))
              (SendsOne-send service route req time message_id request_id _))))

-- The request that SubmitOrder sends for a request, under a gateway order id and at a time.
abbrev pub sent_request : SubmitOrderRequest → String → Time → SubmitOrderRequest
sent_request req gateway time = with_trade_date (with_ids req gateway) time

abbrev Anything : Command → Type 0
Anything command = Unit

module _ {t : Order → Bool} where
  SendsOne-weaken :
      {P : Command → Type 0} {A : Type 0} {m : M A} → SendsOne t P m → SendsOne t Anything m
  SendsOne-weaken c = record {
    sends = λ w. elim (c.sends w) [
      | inl q ↦ inl q
      | inr s ↦ inr (record { command = s.command; proved = tt; appended = s.appended })
    ];
    keeps = c.keeps;
  }

  SendsOne-created :
      (service : Service) (req : SubmitOrderRequest) (request_id : String)
      (go : M SubmitOrderResult) (r : Result (Unit {0}))
      → SendsOne t Anything go
      → SendsOne t Anything (created_submit service req request_id go r)
  SendsOne-created service req request_id go (ok u) g = g
  SendsOne-created service req request_id go (err e) g =
      Calm-SendsOne (Calm-refused service req request_id e)

  SendsOne-fresh :
      (service : Service) (route : AccountRoute) (req : SubmitOrderRequest) (time : Time)
      (given : String)
      → SendsOne t Anything (fresh_submit service route req time given)
  unfolding fresh_submit
  SendsOne-fresh service route req time given =
      SendsOne-bind _ _ (Calm-new_id service _) (λ message_id.
        SendsOne-bind _ _ (Calm-if _ _ _ (Calm-new_id service _) (Calm-pure _)) (λ request_id.
          SendsOne-bind _ _ (Calm-write_ledger service _ (upsert_account-Grows _ _)) (λ _.
            SendsOne-bind _ _
              (Calm-attempt _ (Calm-write_ledger service _ (create_order-Grows _ _)))
              (λ r.
                SendsOne-created service req request_id _ r (
                  SendsOne-weaken
                    (SendsOne-send service route req time message_id request_id _))))))

  SendsOne-replay_or :
      (service : Service) (req : SubmitOrderRequest) (given : String) (m : M SubmitOrderResult)
      (seen : Preflight)
      → SendsOne t Anything m
      → SendsOne t Anything (replay_or service req given m seen)
  SendsOne-replay_or service req given m none c = c
  SendsOne-replay_or service req given m (some existing) c =
      Calm-SendsOne (Calm-replayed service existing _ given)

  SendsOne-submit_order :
      (service : Service) (req : SubmitOrderRequest) (option : String)
      → SendsOne t Anything (submit_order service req option)
  unfolding submit_order
  SendsOne-submit_order service req option = SendsOne-bind _ _ (Calm-lift _) (λ _.
      SendsOne-bind _ _ (Calm-lift _) (λ _. SendsOne-bind _ _ (Calm-lift _) (λ route.
        SendsOne-bind _ _ (Calm-lift _) (λ _.
          SendsOne-bind _ _ (Calm-or_new_id service _ _) (λ gateway.
            SendsOne-bind _ _ (Calm-now service) (λ time.
              SendsOne-bind _ _ (Calm-preflight service _) (λ seen.
                SendsOne-replay_or service (sent_request req gateway time) _ _ seen
                  (SendsOne-fresh service route _ time _))))))))

-- If an order that passes a test stands in the ledger, one that passes it stands there after a call of
-- SubmitOrder, in any weather.
pub submit_order-keeps :
    (t : Order → Bool) (service : Service) (req : SubmitOrderRequest) (option : String) (w : World)
    → holds t w ≡ true
    → holds t (submit_order service req option w).1 ≡ true
submit_order-keeps t service req option w h = (SendsOne-submit_order service req option).keeps w h
