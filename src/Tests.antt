-- ===== src/Tests.antt =====
-- Tests: the theorems applied at sample inputs, and runs of the definitions.
mod Trading
mod Ledger
mod Lifecycle
mod Synchronisation
mod Orderflow
mod Events
mod Refreshes
mod Pages
mod Schedules
mod Configuration
mod Commands
