-- ===== src/Orderflow/Safety/Calls.antt =====
-- The calls that the service makes of its clock, its ids, the ledger and Redis.
use ti_relay_trader.Prelude.{
  Bool, true, false, ◌≡◌, refl, ◌∙◌, ap, ◌⊎◌, inl, inr, List, [], ◌∷◌, String, any, if◌then◌else◌,
  arith,
}
use ti_relay_trader.Errors.{Result, ok, err, encoding}
use ti_relay_trader.Trading.Schema.{Order, Account}
use ti_relay_trader.Streams.{CommandEnvelope, CommandPublishResult, encodable}
use ti_relay_trader.Ledger.Store.{Store, Database, upsert_account, RawStreamMessage}
use ti_relay_trader.Ledger.Archive.{archive_raw_stream_message}
use ti_relay_trader.Orderflow.Archived.{archive_command}
use ti_relay_trader.Ledger.Orders.{create_order}
use ti_relay_trader.Ledger.Orders.Laws.{create_order-Inserted, Inserted-Keeps}
use ti_relay_trader.Orderflow.World.{
  Service, Weather, calm, failed, lost, rival, World, Command, new_id, now, meet, meet_under, admit,
  reading, written, writing, adding, read_ledger, write_ledger, publish_command,
}
use ti_relay_trader.Orderflow.Safety.{holds, Calm, Calm-bind, Sent, Sent-before, SendsOne}

-- A write that leaves the orders of the ledger in their place.
pub record Grows (t : Order → Bool) (f : Store → Result Store) : Type 0 where
  pub at : (s s' : Store) → f s ≡ ok s' → any t s.orders ≡ true → any t s'.orders ≡ true

pub create_order-Grows :
    {t : Order → Bool} (db : Database) (o : Order) → Grows t (create_order db o)
create_order-Grows {t} db o = record {
  at = λ s s' e h. Inserted-Keeps (create_order-Inserted db o s s' e) t h;
}

pub upsert_account-Grows :
    {t : Order → Bool} (db : Database) (a : Account) → Grows t (upsert_account db a)
unfolding upsert_account
upsert_account-Grows db a = record { at = λ s s' e h. ground (arith, e, h) }

module _ (t : Order → Bool) where
  admit-holds :
      (db : Database) (o : Order) (s : Store) (r : Result Store)
      → create_order db o s ≡ r
      → any t s.orders ≡ true
      → any t (admit s r).orders ≡ true
  admit-holds db o s (ok s') e h = (create_order-Grows db o).at s s' e h
  admit-holds db o s (err x) e h = h

  meet_under-holds :
      (service : Service) (w : World) (ws : List Weather)
      → holds t w ≡ true
      → holds t (meet_under service w ws).1 ≡ true
  meet_under-holds service w [] h = h
  meet_under-holds service w (calm ∷ ws) h = h
  meet_under-holds service w (failed ∷ ws) h = h
  meet_under-holds service w (lost ∷ ws) h = h
  meet_under-holds service w (rival o ∷ ws) h = admit-holds service.database o w.store _ refl h

  pub meet-holds :
      (service : Service) (w : World) → holds t w ≡ true → holds t (meet service w).1 ≡ true
  unfolding meet
  meet-holds service w h = meet_under-holds service w w.weather h

pub meet-published : (service : Service) (w : World) → (meet service w).1.published ≡ w.published
unfolding meet
meet-published service w = ground arith

reading-same : {A : Type 0} (q : Store → Result A) (x : Weather × World) → (reading q x).1 ≡ x.1
reading-same q (calm, w) = refl
reading-same q (failed, w) = refl
reading-same q (lost, w) = refl
reading-same q (rival o, w) = refl

written-published : (w : World) (r : Result Store) → (written w r).1.published ≡ w.published
written-published w (ok s) = refl
written-published w (err x) = refl

writing-published :
    (f : Store → Result Store) (x : Weather × World) → (writing f x).1.published ≡ x.1.published
writing-published f (calm, w) = written-published w (f w.store)
writing-published f (failed, w) = refl
writing-published f (lost, w) = written-published w (f w.store)
writing-published f (rival o, w) = refl

adding-sends :
    {P : Command → Type 0} (service : Service) (command : Command) (x : Weather × World)
    → P command
    → ((adding service command x).1.published ≡ x.1.published)
      ⊎ Sent P x.1 (adding service command x).1
adding-sends service command (calm, w) p =
    inr (record { command = command; proved = p; appended = refl })
adding-sends service command (failed, w) p = inl refl
adding-sends service command (lost, w) p =
    inr (record { command = command; proved = p; appended = refl })
adding-sends service command (rival o, w) p = inl refl

adding-store :
    (service : Service) (command : Command) (x : Weather × World)
    → (adding service command x).1.store ≡ x.1.store
adding-store service command (calm, w) = refl
adding-store service command (failed, w) = refl
adding-store service command (lost, w) = refl
adding-store service command (rival o, w) = refl

-- An order that a successful write puts into the ledger stands there.
pub write_ledger-Reserved :
    (t : Order → Bool) (service : Service) (f : Store → Result Store) (w : World)
    → ((s s' : Store) → f s ≡ ok s' → any t s'.orders ≡ true)
    → (write_ledger service f w).0 ≡ ok tt
    → holds t (write_ledger service f w).1 ≡ true
unfolding write_ledger
write_ledger-Reserved t service f w g e = writing-reserved (meet service w) e
  where
    written-reserved :
        (v : World) (r : Result Store)
        → f v.store ≡ r
        → (written v r).0 ≡ ok tt
        → holds t (written v r).1 ≡ true
    written-reserved v (ok s) q e = g v.store s q
    written-reserved v (err x) q e = cc

    writing-reserved :
        (x : Weather × World) → (writing f x).0 ≡ ok tt → holds t (writing f x).1 ≡ true
    writing-reserved (calm, v) e = written-reserved v (f v.store) refl e
    writing-reserved (failed, v) e = cc
    writing-reserved (lost, v) e = cc
    writing-reserved (rival o, v) e = cc

module _ {t : Order → Bool} where
  pub Calm-new_id : (service : Service) (prefix : String) → Calm t (new_id service prefix)
  unfolding new_id
  Calm-new_id service prefix = record { quiet = λ w. refl; keeps = λ w h. h }

  pub Calm-now : (service : Service) → Calm t (now service)
  unfolding now
  Calm-now service = record { quiet = λ w. refl; keeps = λ w h. h }

  pub Calm-read_ledger :
      {A : Type 0} (service : Service) (q : Store → Result A) → Calm t (read_ledger service q)
  unfolding read_ledger
  Calm-read_ledger service q = record {
    quiet = λ w. ap (λ v. v.published) (reading-same q (meet service w)) ∙ meet-published service w;
    keeps = λ w h. ap (holds t) (reading-same q (meet service w)) ∙ meet-holds t service w h;
  }

  written-keeps :
      (f : Store → Result Store) (w : World) (r : Result Store)
      → Grows t f
      → f w.store ≡ r
      → holds t w ≡ true
      → holds t (written w r).1 ≡ true
  written-keeps f w (ok s) g e h = g.at w.store s e h
  written-keeps f w (err x) g e h = h

  writing-keeps :
      (f : Store → Result Store) (x : Weather × World)
      → Grows t f
      → holds t x.1 ≡ true
      → holds t (writing f x).1 ≡ true
  writing-keeps f (calm, w) g h = written-keeps f w (f w.store) g refl h
  writing-keeps f (failed, w) g h = h
  writing-keeps f (lost, w) g h = written-keeps f w (f w.store) g refl h
  writing-keeps f (rival o, w) g h = h

  pub Calm-write_ledger :
      (service : Service) (f : Store → Result Store) → Grows t f → Calm t (write_ledger service f)
  unfolding write_ledger
  Calm-write_ledger service f g = record {
    quiet = λ w. writing-published f (meet service w) ∙ meet-published service w;
    keeps = λ w h. writing-keeps f (meet service w) g (meet-holds t service w h);
  }

  adding_if :
      {P : Command → Type 0} (b : Bool) (service : Service) (command : Command)
      → P command
      → SendsOne t P (λ w. if b then adding service command (meet service w) else (err encoding, w))
  adding_if true service command p = record {
    sends = λ w. elim (adding-sends service command (meet service w) p) [
      | inl q ↦ inl (q ∙ meet-published service w)
      | inr s ↦ inr (Sent-before (meet-published service w) s)
    ];
    keeps = λ w h.
        ap (λ st. any t st.orders) (adding-store service command (meet service w))
        ∙ meet-holds t service w h;
  }
  adding_if false service command p = record { sends = λ w. inl refl; keeps = λ w h. h }

  pub SendsOne-publish_command :
      {P : Command → Type 0} (service : Service) (key : String) (envelope : CommandEnvelope)
      → P (key, envelope)
      → SendsOne t P (publish_command service key envelope)
  unfolding publish_command
  SendsOne-publish_command service key envelope p =
      let s = adding_if (encodable envelope.payload) service (key, envelope) p in
      record { sends = s.sends; keeps = s.keeps }

archive-Grows :
    {t : Order → Bool} (db : Database) (raw : RawStreamMessage)
    → Grows t (archive_raw_stream_message db raw)
unfolding archive_raw_stream_message
archive-Grows db raw = record { at = λ s s' e h. ground (arith, e, h) }

pub Calm-archive_command :
    {t : Order → Bool} (service : Service) (published : CommandPublishResult)
    (sent : CommandEnvelope) (role account gateway : String)
    → Calm t (archive_command service published sent role account gateway)
unfolding archive_command
Calm-archive_command service published sent role account gateway =
    Calm-bind _ _ (Calm-now service)
      (λ received. Calm-write_ledger service _ (archive-Grows service.database _))
