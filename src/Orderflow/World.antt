-- ===== src/Orderflow/World.antt =====
-- What orderflow.Service works on: its configuration and the interfaces that it is given, the
-- ledger and the command streams, and a call as a state transformer that may fail.
--
-- The environment chooses what happens at each call of the database or of Redis: `weather` holds
-- one entry for each call to come, and an empty list stands for calls that all go through. A call
-- that the repository refuses for its arguments alone uses up an entry like any other.
use ti_relay_trader.Prelude.{ℕ, suc, String, Bool, List, [], ◌∷◌, ◌++◌, if◌then◌else◌, length}
use ti_relay_trader.Time.{Time}
use ti_relay_trader.Errors.{Error, Result, ok, err, backend, encoding}
use ti_relay_trader.Trading.Schema.{Order}
use ti_relay_trader.Streams.{CommandEnvelope, CommandPublishResult, encodable}
use ti_relay_trader.Ledger.Store.{Store, Database}
use ti_relay_trader.Ledger.Orders.{create_order}

-- config.AccountRouteConfig, as far as the service reads it
pub record AccountRoute : Type 0 where
  pub account_id : String
  pub broker_id : String
  pub gateway_id : String
  pub stream_prefix : String
  pub enabled : Bool
  pub trading_enabled : Bool
  pub simulated : Bool

-- orderflow.Service with what it was made from: the configured accounts, whether there is a
-- publisher, the generator of ids and the clock by the number of calls made of each, what
-- timeutil.Now reads, the database, and Redis: the id that XADD gives the n-th entry, and the size of an encoded envelope.
pub record Service : Type 0 where
  pub accounts : List AccountRoute
  pub has_publisher : Bool
  pub new_id : String → ℕ → String
  pub clock : ℕ → Time
  pub wall_clock : Time
  pub database : Database
  pub entry_id : ℕ → String
  pub body_bytes : CommandEnvelope → ℕ

-- One call of the database or of Redis: it goes through, it fails with no effect, it takes effect
-- and its answer is lost, or another process creates an order just before it.
pub data Weather : Type 0 where
  calm failed lost : Weather
  rival : Order → Weather

-- A command on a stream: the stream's key and the envelope.
abbrev pub Command : Type 0
Command = String × CommandEnvelope

pub record World : Type 0 where
  pub store : Store
  pub published : List Command
  pub issued : ℕ
  pub ticks : ℕ
  pub weather : List Weather

abbrev pub M : Type 0 → Type 0
M A = World → Result A × World

infixl 5 ◌>>=◌ ◌>>◌
abbrev pub continue : {A B : Type 0} → Result A → (A → M B) → M B
continue (ok a) f w = f a w
continue (err e) f w = (err e, w)

unfoldable pub ◌>>=◌ : {A B : Type 0} → M A → (A → M B) → M B
◌>>=◌ m f w = let (r, w') = m w in continue r f w'

abbrev pub ◌>>◌ : {A B : Type 0} → M A → M B → M B
m >> k = m >>= λ _. k

module _ {A : Type 0} where
  unfoldable pub pure : A → M A
  pure a w = (ok a, w)

  unfoldable pub raise : Error → M A
  raise e w = (err e, w)

  unfoldable pub lift : Result A → M A
  lift r w = (r, w)

  -- The result of an action as a value, for `if err == nil … else …`.
  unfoldable pub attempt : M A → M (Result A)
  attempt m w = let (r, w') = m w in (ok r, w')

-- IDGenerator.NewID
unfoldable pub new_id : Service → String → M String
new_id service prefix w = (ok (service.new_id prefix w.issued), record w { issued = suc w.issued })

-- Clock.Now
unfoldable pub now : Service → M Time
now service w = (ok (service.clock w.ticks), record w { ticks = suc w.ticks })

-- A rival's row goes in unless the table refuses it.
abbrev pub admit : Store → Result Store → Store
admit s (ok s') = s'
admit s (err e) = s

abbrev pub meet_under : Service → World → List Weather → Weather × World
meet_under service w [] = (calm, w)
meet_under service w (rival o ∷ rest) = (
  calm,
  record w { store = admit w.store (create_order service.database o w.store); weather = rest },
)
meet_under service w (other ∷ rest) = (other, record w { weather = rest })

-- The weather of one call, and the world in which the call is made.
unfoldable pub meet : Service → World → Weather × World
meet service w = meet_under service w w.weather

abbrev pub reading : {A : Type 0} → (Store → Result A) → Weather × World → Result A × World
reading q (calm, w) = (q w.store, w)
reading q (_, w) = (err backend, w)

-- A query of the ledger.
unfoldable pub read_ledger : {A : Type 0} → Service → (Store → Result A) → M A
unfolding meet
read_ledger service q w = reading q (meet service w)

abbrev pub written : World → Result Store → Result (Unit {0}) × World
written w (ok s) = (ok tt, record w { store = s })
written w (err e) = (err e, w)

abbrev pub writing : (Store → Result Store) → Weather × World → Result (Unit {0}) × World
writing f (calm, w) = written w (f w.store)
writing f (lost, w) = (err backend, (written w (f w.store)).1)
writing f (_, w) = (err backend, w)

-- A statement that writes to the ledger.
unfoldable pub write_ledger : Service → (Store → Result Store) → M (Unit {0})
unfolding meet
write_ledger service f w = writing f (meet service w)

-- The entry that XADD appends.
abbrev append : Service → Command → World → CommandPublishResult × World
append service command w = (
  record {
    stream_key = command.0;
    stream_id = service.entry_id (length w.published);
    body_bytes = service.body_bytes command.1;
  },
  record w { published = w.published ++ (command ∷ []) },
)

abbrev pub adding : Service → Command → Weather × World → Result CommandPublishResult × World
adding service command (calm, w) = let (r, w') = append service command w in (ok r, w')
adding service command (lost, w) = (err backend, (append service command w).1)
adding service command (_, w) = (err backend, w)

-- RedisCommandPublisher.PublishCommand: the envelope is encoded before Redis is called.
unfoldable pub publish_command : Service → String → CommandEnvelope → M CommandPublishResult
unfolding meet
publish_command service key envelope w =
    if encodable envelope.payload
    then adding service (key, envelope) (meet service w)
    else (err encoding, w)
