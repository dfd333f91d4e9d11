-- ===== src/Ledger.antt =====
-- The part of internal/ledger that the order flow and the synchronisation call: accounts, orders, order
-- events, positions, the normalisation of queries, the archive of raw stream messages, and the summary of
-- a command's replies. Postgres is not run: the tables are lists, and each statement of sql.go is written
-- out with the constraints of the migrations that it can violate.
pub mod Store
pub mod Orders
pub mod OrderEvents
pub mod Writes
pub mod Positions
pub mod Queries
pub mod Archive
pub mod CommandStatus
