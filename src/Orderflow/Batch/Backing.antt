-- ===== src/Orderflow/Batch/Backing.antt =====
-- The commands that BatchSubmitOrders of internal/orderflow/service.go publishes, and the orders behind
-- them.
use ti_relay_trader.Prelude.{Bool, false, ◌≡◌, refl, ◌∙◌, ◌⊎◌, inl, inr, List, [], ◌∷◌, String}
use ti_relay_trader.Time.{Time}
use ti_relay_trader.Errors.{Result, ok, err}
use ti_relay_trader.Trading.Schema.{SubmitOrderRequest, BatchSubmitOrderRequest, Order}
use ti_relay_trader.Streams.{batch, new_command_envelope}
use ti_relay_trader.Orderflow.World.{AccountRoute, Service, World, M, continue, ◌>>=◌}
use ti_relay_trader.Orderflow.Submit.Backing.{wanted}
use ti_relay_trader.Orderflow.Batch.{fresh_batch, settle_batch, batch_submit_orders}
use ti_relay_trader.Orderflow.Safety.{
  Calm, Sent, Sent-before, SendsOne, Calm-pure, Calm-raise, Calm-lift, Calm-if, Calm-bind,
  SendsOne-bind, SendsOne-then,
}
use ti_relay_trader.Orderflow.Safety.Calls.{
  Calm-new_id, Calm-now, Calm-write_ledger, upsert_account-Grows, Calm-archive_command,
  SendsOne-publish_command,
}
use ti_relay_trader.Orderflow.Publications.{
  Calm-gather_children, Calm-store_drafts, Calm-replayed_batch,
}
use ti_relay_trader.Orderflow.Batch.Drafts.{
  AreDrafts, AllStored, Yields, AreFresh, gather-AreFresh, Stores, Stores-drafts,
}

-- Between the two worlds one command was published, which carries a batch of the account, and every
-- order of that batch stands in the ledger.
abbrev pub BatchBacked : String → World → World → Type 0
BatchBacked account w w' =
    (b : BatchSubmitOrderRequest) × Sent (λ command. command.1.payload ≡ batch b) w w'
    × (b.account_id ≡ account)
    × AllStored b.orders w'

record Emits {A : Type 0} (account : String) (m : M A) : Type 0 where
  at : (w : World) → ((m w).1.published ≡ w.published) ⊎ BatchBacked account w (m w).1

no_order : Order → Bool
no_order o = false

Emits-Calm : {A : Type 0} {account : String} (m : M A) → Calm no_order m → Emits account m
Emits-Calm m c = record { at = λ w. inl (c.quiet w) }

Emits-before :
    {account : String} {w w' w'' : World}
    → w'.published ≡ w.published
    → (w''.published ≡ w'.published) ⊎ BatchBacked account w' w''
    → (w''.published ≡ w.published) ⊎ BatchBacked account w w''
Emits-before q (inl p) = inl (p ∙ q)
Emits-before q (inr (b, s, a, h)) = inr (b, Sent-before q s, a, h)

module _ {A B : Type 0} {account : String} where
  Emits-continue :
      (r : Result A) (f : A → M B) (w : World)
      → ((a : A) → r ≡ ok a → Emits account (f a))
      → ((continue r f w).1.published ≡ w.published) ⊎ BatchBacked account w (continue r f w).1
  Emits-continue (ok a) f w h = (h a refl).at w
  Emits-continue (err e) f w h = inl refl

  Emits-step :
      {Q : A → Type 0} (m : M A) (f : A → M B)
      → Calm no_order m
      → Yields Q m
      → ((a : A) → Q a → Emits account (f a))
      → Emits account (m >>= f)
  unfolding ◌>>=◌
  Emits-step m f c y h = record {
    at = λ w.
        let (r, w') = m w in
        Emits-before (c.quiet w) (Emits-continue r f w' (λ a e. h a (y.at w a e)));
  }

  Emits-bind :
      (m : M A) (f : A → M B)
      → Calm no_order m
      → ((a : A) → Emits account (f a))
      → Emits account (m >>= f)
  Emits-bind m f c h = Emits-step {Q = λ a. Unit} m f c (record { at = λ w a e. tt }) (λ a _. h a)

AllStored-keeps :
    {B : Type 0} (req : BatchSubmitOrderRequest) (rs : List SubmitOrderRequest) (m : M B)
    (w : World)
    → ((t : Order → Bool) → SendsOne t (λ command. command.1.payload ≡ batch req) m)
    → AllStored rs w
    → AllStored rs (m w).1
AllStored-keeps req [] m w k h = tt
AllStored-keeps req (r ∷ rs) m w k h =
    ((k (wanted r)).keeps w h.0, AllStored-keeps req rs m w k h.1)

-- Orders are stored, and then a command is sent.
module _ {B : Type 0} (req : BatchSubmitOrderRequest) (f : Unit {0} → M B) where
  stored-Emits :
      ((t : Order → Bool) → SendsOne t (λ command. command.1.payload ≡ batch req) (f tt))
      → (r : Result (Unit {0})) (w : World) → (r ≡ ok tt → AllStored req.orders w)
      → ((continue r f w).1.published ≡ w.published)
        ⊎ BatchBacked req.account_id w (continue r f w).1
  stored-Emits k (err e) w h = inl refl
  stored-Emits k (ok tt) w h = elim ((k no_order).sends w) [
    | inl q ↦ inl q
    | inr s ↦ inr (req, s, refl, AllStored-keeps req req.orders (f tt) w k (h refl))
  ]

  Emits-stored :
      (m : M (Unit {0}))
      → Calm no_order m
      → Stores req.orders m
      → ((t : Order → Bool) → SendsOne t (λ command. command.1.payload ≡ batch req) (f tt))
      → Emits req.account_id (m >>= f)
  unfolding ◌>>=◌
  Emits-stored m c st k = record {
    at = λ w.
        let (r, w') = m w in
        Emits-before (c.quiet w) (stored-Emits k r w' (stored_at r w' (st.at w)));
  }
    where
      stored_at :
          (r : Result (Unit {0})) (w : World)
          → (r ≡ ok tt → AllStored req.orders w)
          → r ≡ ok tt
          → AllStored req.orders w
      stored_at r w h = h

Emits-fresh_batch :
    (service : Service) (route : AccountRoute) (req : BatchSubmitOrderRequest) (time : Time)
    (given : String) (drafts : List Order)
    → AreDrafts drafts req.orders
    → Emits req.account_id (fresh_batch service route req time given drafts)
unfolding fresh_batch new_command_envelope
Emits-fresh_batch service route req time given drafts d =
    Emits-bind _ _ (Calm-new_id service _) (λ message_id.
      Emits-bind _ _ (Calm-if _ _ _ (Calm-new_id service _) (Calm-pure _)) (λ request_id.
        Emits-stored req _ _ (Calm-store_drafts service message_id request_id drafts req.orders)
          (Stores-drafts service message_id request_id d)
          (λ t. SendsOne-bind _ _ (Calm-lift _) (λ key.
            SendsOne-then _ _ (SendsOne-publish_command service key _ refl) (λ published.
              Calm-bind _ _ (Calm-archive_command service published _ _ _ _) (λ _. Calm-pure _))))))

Emits-settle_batch :
    (service : Service) (route : AccountRoute) (req : BatchSubmitOrderRequest) (time : Time)
    (given : String) (drafts replays : List Order)
    → (replays ≡ [] → AreDrafts drafts req.orders)
    → Emits req.account_id (settle_batch service route req time given drafts replays)
Emits-settle_batch service route req time given drafts [] d =
    Emits-fresh_batch service route req time given drafts (d refl)
Emits-settle_batch service route req time given [] (r ∷ replays) d =
    Emits-Calm _ (Calm-replayed_batch service _ _ _ _)
Emits-settle_batch service route req time given (x ∷ drafts) (r ∷ replays) d =
    Emits-Calm _ (Calm-raise _)

Emits-batch :
    (service : Service) (req : BatchSubmitOrderRequest) (option : String)
    → Emits req.account_id (batch_submit_orders service req option)
unfolding batch_submit_orders
Emits-batch service req option = Emits-bind _ _ (Calm-lift _) (λ _.
    Emits-bind _ _ (Calm-lift _) (λ route. Emits-bind _ _ (Calm-lift _) (λ _.
      Emits-bind _ _ (Calm-now service) (λ time.
        Emits-bind _ _
          (Calm-if _ _ _ (Calm-bind _ _ (Calm-new_id service _) (λ id. Calm-pure _)) (Calm-pure _))
          (λ batch_key.
            Emits-bind _ _ (Calm-write_ledger service _ (upsert_account-Grows _ _)) (λ _.
              Emits-step {Q = AreFresh} _ _ (Calm-gather_children service _ _ _ _ _ _)
                (gather-AreFresh service _ _ _ _ _ _)
                (λ g h.
                  Emits-settle_batch service route
                    (record req { idempotency_key = batch_key; orders = g.requests }) time _ _ _
                    h)))))))

-- Whatever the weather, a call of BatchSubmitOrders publishes nothing, or it appends one command to
-- the streams: that command carries a batch of the caller's account, and for every order of that
-- batch an order with its account, gateway order id and idempotency key stands in the ledger after
-- the call.
pub batch_submit_orders-backed :
    (service : Service) (req : BatchSubmitOrderRequest) (option : String) (w : World)
    → let w' = (batch_submit_orders service req option w).1 in
      (w'.published ≡ w.published) ⊎ BatchBacked req.account_id w w'
batch_submit_orders-backed service req option w = (Emits-batch service req option).at w
