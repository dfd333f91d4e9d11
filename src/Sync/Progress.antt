-- ===== src/Sync/Progress.antt =====
-- The steps of the functions of internal/redisstream/ledger_sync.go that write to the ledger: each returns
-- at the first call that fails, with the error counted.
use ti_relay_trader.Prelude.{ℕ, ◌<◌, ◌≡◌, ◌⊎◌, inl, inr}
use ti_relay_trader.Float64.{Arithmetic}
use ti_relay_trader.Time.{Time}
use ti_relay_trader.Ledger.Store.{Store, Database}
use ti_relay_trader.Sync.Results.{LedgerProcessResult}

-- What the calls need that is not in the envelope: the database, the processor, and the clocks of the
-- repository and of the process.
pub record Surroundings : Type 0 where
  pub database : Database
  pub arithmetic : Arithmetic
  pub clock : Time
  pub wall_clock : Time

-- The result and the tables after a call.
abbrev pub Step : Type 0
Step = LedgerProcessResult × Store

-- A step that a failed call ends, or that goes on.
pub data Progress : Type 0 where
  stopped going : LedgerProcessResult → Store → Progress

abbrev pub end : Progress → Step
end (stopped r s) = (r, s)
end (going r s) = (r, s)

abbrev pub and_then : Progress → (LedgerProcessResult → Store → Progress) → Progress
and_then (stopped r s) rest = stopped r s
and_then (going r s) rest = rest r s

-- A call has failed and was counted, or none has, and the tables have a property.
abbrev pub IfGoing : ℕ → (Store → Type 0) → Progress → Type 0
IfGoing n P (stopped r s) = n < r.ledger_errors
IfGoing n P (going r s) = (r.ledger_errors ≡ n) × P s

pub IfGoing-and_then :
    (n : ℕ) (P Q : Store → Type 0) (m : Progress) (rest : LedgerProcessResult → Store → Progress)
    → IfGoing n P m
    → ((r : LedgerProcessResult) (s : Store) → r.ledger_errors ≡ n → P s → IfGoing n Q (rest r s))
    → IfGoing n Q (and_then m rest)
IfGoing-and_then n P Q (stopped r s) rest h k = h
IfGoing-and_then n P Q (going r s) rest h k = k r s h.0 h.1

pub IfGoing-map :
    (n : ℕ) (P Q : Store → Type 0) (m : Progress)
    → ((s : Store) → P s → Q s)
    → IfGoing n P m
    → IfGoing n Q m
IfGoing-map n P Q (stopped r s) f h = h
IfGoing-map n P Q (going r s) f h = (h.0, f s h.1)

-- An error was counted, or the tables have a property.
abbrev pub Outcome : ℕ → (Store → Type 0) → LedgerProcessResult × Store → Type 0
Outcome n P (r, s) = (n < r.ledger_errors) ⊎ P s

pub Outcome-end : (n : ℕ) (P : Store → Type 0) (m : Progress) → IfGoing n P m → Outcome n P (end m)
Outcome-end n P (stopped r s) h = inl h
Outcome-end n P (going r s) h = inr h.1
