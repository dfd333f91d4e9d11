-- ===== src/Lib.antt =====
-- The core of the relay trader: taking orders for accounts, storing them in the ledger, and sending
-- commands to the counters' gateways over Redis streams.
--
-- The program's parts, and the files that model them:
--
-- - internal/trading/schema.go and validation.go: the requests, orders and enumerations, their
--   validation, and NormalizeOrderExecutionState. Trading/Schema, Trading/Validation and
--   Trading/ExecutionState. A Go string type with named values is a data type with a constructor for
--   each of them and `other` for any other text.
-- - internal/redisstream/streams.go and command.go: stream keys, command envelopes, and the stream
--   that an action takes. Streams; PublishCommand stands in Orderflow/World.
-- - internal/ledger/repository.go with sql.go: UpsertAccount (Ledger/Store), CreateOrder, GetOrder and
--   GetOrderByIdempotencyKey (Ledger/Orders with Ledger/Orders/Dates), UpsertOrder with its ON CONFLICT
--   clause (Ledger/Orders/Upsert and Merge), UpdateOrderStatus and AppendOrderEvent (Ledger/OrderEvents),
--   UpsertPosition and DeleteStalePositions (Ledger/Positions), the normalisation of queries
--   (Ledger/Queries), ArchiveRawStreamMessage, GetArchivedCommand and GetArchivedCommandByMessageID
--   (Ledger/Archive). The tables are lists of rows; an insert or an update fails on the unique and check
--   constraints of migrations/, and a lookup is a search in the order that its statement asks for.
--   Ledger/Writes has runs of the writes of orders.
--   Ledger/CommandStatus has the summary of a command's replies.
-- - internal/redisstream/ledger_sync.go, with EntryEnvelope of message.go: Sync/Envelope has the envelope,
--   the account of a routing and the accounts that it writes, Sync/Identifiers the time in an id and the
--   cutoff of a query, Sync/Results LedgerProcessResult and its sums, Sync/Positions the branch of
--   processReplyEnvelope for pages of positions, Sync/Rejections with Sync/RejectedEvent the replies that
--   reject orders. Sync/Progress has the steps that a failed call ends. The calls of the ledger are the
--   modelled ones, and the branches for the other pages are an argument of process_reply.
-- - internal/orderflow/service.go: Service. Orderflow/World holds the configuration (accounts of
--   internal/config/config.go), the ledger, the published commands and the weather, which decides for
--   each call of the database or of Redis to come whether it goes through, fails, takes effect with
--   its answer lost, or comes after another process has inserted an order. Orderflow/Requests has the
--   pure helpers, Orderflow/Ids the ids of defaultIDGenerator, Orderflow/Archived the archive of
--   commands, Orderflow/Preflight the routes and the idempotency check, Orderflow/Submit SubmitOrder,
--   Orderflow/Batch BatchSubmitOrders, Orderflow/Cancel CancelOrder, Orderflow/Refresh the refresh
--   commands, Orderflow/Queries the paged queries.
-- - internal/orderflow/auto_refresh.go: AutoRefreshScheduler. Orderflow/AutoRefresh has its calls over
--   the timers of Go's runtime, and Orderflow/AutoRefresh/Steps the steps in which they interleave.
-- - internal/events/hub.go: Hub. Events/Cursor has the cursors, Events/Hub the hub, Events/Hub/Log runs of
--   its calls, and Events/Hub/Delivery a subscriber that reads in between.
-- - internal/config/config.go: Config. Config/Types has the types, Config/Defaults ApplyDefaults,
--   Config/Validation Validate and AccountRoute, and Config/Schedule the order entry schedule.
-- - internal/timeutil/timeutil.go: Time. Go's strconv, strings and float64 as far as they are used:
--   Text, Text/Decimal and Float64.
--
-- A call of the service is a function from a world to a result and a world; a call that returns an
-- error keeps the changes that it had made. Calls follow one another, and other processes appear as
-- rival inserts in the weather.
--
-- Bounds and fuel: quantities are 64-bit integers in the source and unbounded here, since no modelled
-- operation on an order or a position adds or multiplies them as integers, and so are the counters of a
-- synchronisation; times are nanoseconds from 1970 on; the sum of an offset and a limit wraps around at 64
-- bits, as in the source. The printing of a number n has fuel n + 1, which is enough since a number has
-- no more digits than that. A client of ListOrders asks for as many pages as there are rows and one,
-- which is enough since each page but the last has a row. No other recursion has fuel. The hub's
-- sequence numbers wrap around at 64 bits, as in the source.
--
-- Orderflow/Safety has the rules on what an action does to the streams and to the ledger; the proofs
-- stand in the child modules of the parts. Samples has the inputs of Tests.
--
-- Parameters: the ids of the generator, the clocks, the value that a NUMERIC column gives back for a
-- float, the id that Redis gives an entry, the size of an encoded envelope, the epoch of a hub, the
-- ledger's list methods, the locations of the time zone database, the libraries that read the
-- addresses of a configuration, the decoding of a payload's JSON, and the products and differences of
-- floats.
--
-- Not modelled: the API server, the synchronisation of events, cancellations and the pages of orders,
-- fills, assets and fees from Redis, jobs, market data, performance reports, the reading of files,
-- credentials, logging and the command lines, which are input and output around this core or parts of
-- their own.
pub mod Prelude
pub mod Text
pub mod Config
pub mod Events
pub mod Errors
pub mod Float64
pub mod Time
pub mod Trading
pub mod Streams
pub mod Ledger
pub mod Orderflow
pub mod Sync
pub mod Samples
pub mod Tests
