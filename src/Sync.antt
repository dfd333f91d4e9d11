-- ===== src/Sync.antt =====
-- internal/redisstream/ledger_sync.go: what the synchronisation makes of the messages of the reply
-- streams, with the entry envelope of message.go.
pub mod Envelope
pub mod Results
pub mod Identifiers
pub mod Progress
pub mod Positions
pub mod Survival
pub mod RejectedEvent
pub mod Rejections
