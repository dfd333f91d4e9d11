-- ===== src/Trading.antt =====
-- internal/trading: the schema that the API, the ledger and the command streams share, and its
-- validation.
pub mod Schema
pub mod Validation
pub mod ExecutionState
