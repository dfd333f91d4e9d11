-- ===== src/Sync/Survival.antt =====
-- The positions of a page are in the ledger when the page is done, in internal/redisstream/ledger_sync.go.
use ti_relay_trader.Prelude.{
  ℕ, String, false, not, ◌≡◌, refl, ap, ◌∙◌, ◌&&◌, inl, inr, List, [], ◌∷◌, any, All, Bool-cases,
  arith,
}
use ti_relay_trader.Text.{is_empty}
use ti_relay_trader.Time.{Time, unset, at, is_unset}
use ti_relay_trader.Errors.{Result, ok, err, guard, IfOk, IfOk-ok, IfOk-bind}
use ti_relay_trader.Trading.Schema.{Account, Position}
use ti_relay_trader.Trading.Validation.{is_blank}
use ti_relay_trader.Ledger.Store.{Store, upsert_account, Database}
use ti_relay_trader.Ledger.Orders.{later}
use ti_relay_trader.Ledger.Positions.{upsert_position}
use ti_relay_trader.Sync.Envelope.{EntryEnvelope, account_from_envelope}
use ti_relay_trader.Sync.Identifiers.{
  position_query_stale_cutoff, position_query_updated_at, not_before,
}
use ti_relay_trader.Sync.Progress.{
  Surroundings, IfGoing, IfGoing-and_then, IfGoing-map, Outcome, Outcome-end,
}
use ti_relay_trader.Sync.Results.{LedgerProcessResult, note_account}
use ti_relay_trader.Sync.Positions.{
  Read, read, PositionPayload, process_position_page, positions_from_reply_envelope,
  apply_positions, write_positions, delete_unwritten, deleted, write_account, account_written,
  page_account, upserted, is_completed_position_page,
}
use ti_relay_trader.Ledger.Positions.Fresh.{
  is_fresh, IsHeld, Holds, upsert-IsHeld, delete_stale-Holds,
}

not_before_lem :
    (c p : Time)
    → is_unset c ≡ false
    → (is_unset (not_before c p) ≡ false) × (later c (not_before c p) ≡ false)
not_before_lem unset p h = cc
not_before_lem (at n) unset h = ground arith
not_before_lem (at n) (at m) h = elim (Bool-cases (later (at n) (at m))) [
  | inl e ↦ rw e (refl, ground arith)
  | inr e ↦ rw e (refl, e)
]

-- The time of the rows of a page is set and not before the cutoff.
updated_at-cutoff :
    (e : EntryEnvelope)
    → is_unset (position_query_stale_cutoff e) ≡ false
    → (is_unset (position_query_updated_at e) ≡ false)
      × (later (position_query_stale_cutoff e) (position_query_updated_at e) ≡ false)
unfolding position_query_updated_at
updated_at-cutoff e h = not_before_lem (position_query_stale_cutoff e) e.produced_at h

IfGoing-upserted :
    (n : ℕ) (P : Store → Type 0) (r : LedgerProcessResult) (s : Store) (m : Result Store)
    → r.ledger_errors ≡ n
    → IfOk m P
    → IfGoing n P (upserted r s m)
IfGoing-upserted n P r s (ok s') c h = (c, h.at s' refl)
IfGoing-upserted n P r s (err e) c h = omega (arith, c)

IfGoing-account_written :
    (n : ℕ) (P : Store → Type 0) (r : LedgerProcessResult) (s : Store) (m : Result Store)
    → r.ledger_errors ≡ n
    → IfOk m P
    → IfGoing n P (account_written r s m)
IfGoing-account_written n P r s (ok s') c h = (c, h.at s' refl)
IfGoing-account_written n P r s (err e) c h = omega (arith, c)

-- All positions of a page are held, and those that were.
abbrev pub PageHeld : Time → List Position → Store → Store → Type 0
PageHeld cutoff ps s s' = All (IsHeld cutoff s') ps × Holds cutoff s s'

All-map :
    (P Q : Position → Type 0) (ps : List Position)
    → ((p : Position) → P p → Q p)
    → All P ps
    → All Q ps
All-map P Q [] f h = tt
All-map P Q (p ∷ ps) f h = (f p h.0, All-map P Q ps f h.1)

IfGoing-deleted :
    (n : ℕ) (cutoff : Time) (r : LedgerProcessResult) (s : Store) (m : Result (Store × ℕ))
    → r.ledger_errors ≡ n
    → IfOk m (λ out. Holds cutoff s out.0)
    → IfGoing n (Holds cutoff s) (deleted r s m)
IfGoing-deleted n cutoff r s (ok (s', k)) c h = (c, h.at (s', k) refl)
IfGoing-deleted n cutoff r s (err e) c h = omega (arith, c)

delete_unwritten-Holds :
    (n : ℕ) (e : EntryEnvelope) (account_id : String) (r : LedgerProcessResult) (s : Store)
    → r.ledger_errors ≡ n
    → IfGoing n (Holds (position_query_stale_cutoff e) s) (delete_unwritten e account_id r s)
delete_unwritten-Holds n e account_id r s c =
    let cutoff = position_query_stale_cutoff e in
    elim (Bool-cases
      (is_completed_position_page e && not (is_empty account_id) && not (is_unset cutoff))) [
        | inl last ↦
            rw last (IfGoing-deleted n cutoff r s _ c (delete_stale-Holds account_id cutoff s))
        | inr more ↦ rw more (c, λ q h. h)
      ]

-- The write of the account leaves the positions.
abbrev SamePositions : Store → Store → Type 0
SamePositions s s' = s'.positions ≡ s.positions

upsert_account-SamePositions :
    (db : Database) (a : Account) (s : Store) → IfOk (upsert_account db a s) (SamePositions s)
unfolding upsert_account
upsert_account-SamePositions db a s =
    IfOk-bind (guard (not (is_blank a.account_id)) _) _
      (λ _. IfOk-bind (guard (not (is_blank a.broker_id)) _) _ (λ _. IfOk-ok _ refl))

write_account-SamePositions :
    (w : Surroundings) (e : EntryEnvelope) (account_id : String) (r : LedgerProcessResult)
    (s : Store)
    → IfGoing r.ledger_errors (SamePositions s) (write_account w e account_id r s)
write_account-SamePositions w e account_id r s = elim (Bool-cases (is_empty account_id)) [
  | inl absent ↦ rw absent (refl, refl)
  | inr named ↦ rw named (
      IfGoing-account_written r.ledger_errors (SamePositions s) r s _ refl (
        upsert_account-SamePositions w.database (account_from_envelope w.wall_clock e account_id)
          s))
]

module _ (cutoff written : Time) (since : later cutoff written ≡ false)
    (set : is_unset written ≡ false) where
  -- All positions of a list are held, and those that were.
  abbrev AllHeld : List Position → Store → Store → Type 0
  AllHeld ps s s' = Holds cutoff s s' × All (IsHeld cutoff s') ps

  write_positions-held :
      (w : Surroundings) (n : ℕ) (ps : List Position) (r : LedgerProcessResult) (s : Store)
      → r.ledger_errors ≡ n
      → IfGoing n (AllHeld ps s) (write_positions w written ps r s)
  unfolding write_positions
  write_positions-held w n [] r s c = (c, (λ q h. h, tt))
  write_positions-held w n (p ∷ ps) r s c =
      let step : Store → Type 0 = λ s'. Holds cutoff s s' × IsHeld cutoff s' p in
      let up = upsert_position w.database w.arithmetic w.clock p "query" written s in
      IfGoing-and_then n step (AllHeld (p ∷ ps) s) (upserted (note_account p.account_id r) s up)
        (write_positions w written ps)
        (IfGoing-upserted n step (note_account p.account_id r) s up c
          (upsert-IsHeld cutoff written since set w.database w.arithmetic w.clock p "query" s))
        (λ r' s' c' h.
          IfGoing-map n (AllHeld ps s') (AllHeld (p ∷ ps) s) (write_positions w written ps r' s')
            (λ s'' k. (λ q held. k.0 q (h.0 q held), (k.0 p h.1, k.1)))
            (write_positions-held w n ps r' s' c'))

apply_positions-held :
    (w : Surroundings) (e : EntryEnvelope) (ps : List Position) (r : LedgerProcessResult)
    (s : Store)
    → is_unset (position_query_stale_cutoff e) ≡ false
    → IfGoing r.ledger_errors
        (PageHeld (position_query_stale_cutoff e) ps s)
        (apply_positions w e ps r s)
unfolding apply_positions
apply_positions-held w e ps r s set =
    let n = r.ledger_errors in
    let cutoff = position_query_stale_cutoff e in
    let written = position_query_updated_at e in
    let (set', since) = updated_at-cutoff e set in
    let account = page_account e ps in
    IfGoing-and_then n (SamePositions s) (PageHeld cutoff ps s) (write_account w e account r s) _
      (write_account-SamePositions w e account r s)
      (λ r1 s1 c1 same.
        IfGoing-and_then n (AllHeld cutoff written since set' ps s1) (PageHeld cutoff ps s)
          (write_positions w written ps r1 s1) (delete_unwritten e account)
          (write_positions-held cutoff written since set' w n ps r1 s1 c1)
          (λ r2 s2 c2 held.
            IfGoing-map n (Holds cutoff s2) (PageHeld cutoff ps s)
              (delete_unwritten e account r2 s2)
              (λ s3 left. (
                All-map (IsHeld cutoff s2) (IsHeld cutoff s3) ps (λ p. left p) held.1,
                λ q there. left q (held.0 q (ap (any (is_fresh cutoff q)) same ∙ there)),
              ))
              (delete_unwritten-Holds n e account r2 s2 c2)))

-- A page of positions that can be read, of a query whose cutoff is known, is processed to the end unless
-- a failed call is counted. Every position of it then has a row that was written since the cutoff, and so
-- has each one that had it before: the deletion behind the last page takes no row that this page or an
-- earlier one of the query has written.
pub process_position_page-held :
    (w : Surroundings) (decode : String → Read (List PositionPayload)) (e : EntryEnvelope)
    (ps : List Position) (r : LedgerProcessResult) (s : Store)
    → positions_from_reply_envelope w.arithmetic decode e ≡ read ps
    → is_unset (position_query_stale_cutoff e) ≡ false
    → Outcome r.ledger_errors
        (PageHeld (position_query_stale_cutoff e) ps s)
        (process_position_page w decode e r s)
unfolding process_position_page
process_position_page-held w decode e ps r s h set = rw h (
    Outcome-end r.ledger_errors _ (apply_positions w e ps r s)
      (apply_positions-held w e ps r s set))
