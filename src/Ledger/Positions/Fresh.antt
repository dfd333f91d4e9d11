-- ===== src/Ledger/Positions/Fresh.antt =====
-- The positions that were written since a time, through UpsertPosition and DeleteStalePositions of
-- internal/ledger/repository.go.
use ti_relay_trader.Prelude.{
  String, Bool, true, false, not, ◌≡◌, sym, ap, ◌∙◌, ◌&&◌, List, [], ◌∷◌, any, keep, arith, str_eq,
  eq_iff, eq_refl,
}
use ti_relay_trader.Float64.{Arithmetic}
use ti_relay_trader.Text.{is_empty, trim_space}
use ti_relay_trader.Time.{Time, is_unset}
use ti_relay_trader.Errors.{guard, IfOk, IfOk-ok, IfOk-bind}
use ti_relay_trader.Trading.Schema.{Position, exchange_text}
use ti_relay_trader.Ledger.Store.{Store, Database, PositionRow}
use ti_relay_trader.Ledger.Orders.{later, micro}
use ti_relay_trader.Ledger.Positions.{
  same_position, upsert_position, is_stale, delete_stale_positions,
}
use ti_relay_trader.Ledger.Positions.Written.{
  later_trans, micro-later, put_position-there, put_position-kept, IsRowOf, Put,
  upsert_position-Put,
}

-- The row is the position's, and it was written since the cutoff.
abbrev pub is_fresh : Time → Position → PositionRow → Bool
is_fresh cutoff p r =
    str_eq r.position.account_id (trim_space p.account_id)
    && str_eq r.position.symbol (trim_space p.symbol)
    && str_eq (exchange_text r.position.exchange) (exchange_text p.exchange)
    && not (later (micro cutoff) r.updated_at)

module _ (cutoff written : Time) (since : later cutoff written ≡ false) where
  fresh_row :
      (given : Position) (row : PositionRow)
      → IsRowOf given written row
      → is_fresh cutoff given row ≡ true
  fresh_row given row (a, b, c, w) =
      let time : later (micro cutoff) row.updated_at ≡ false =
        ap (later (micro cutoff)) w ∙ micro-later cutoff written since in
      ground (
        arith,
        time,
        ap (λ x. str_eq x (trim_space given.account_id)) a ∙ eq_refl (trim_space given.account_id),
        ap (λ x. str_eq x (trim_space given.symbol)) b ∙ eq_refl (trim_space given.symbol),
        ap (λ x. str_eq (exchange_text x) (exchange_text given.exchange)) c
            ∙ eq_refl (exchange_text given.exchange),
      )

  -- A row that is in the place of a fresh one is fresh.
  fresh_place :
      (given q : Position) (row r : PositionRow)
      → IsRowOf given written row
      → same_position row r ≡ true
      → is_fresh cutoff q r ≡ true
      → is_fresh cutoff q row ≡ true
  fresh_place given q row r i same fresh =
      let time : later (micro cutoff) row.updated_at ≡ false =
        ap (later (micro cutoff)) i.3 ∙ micro-later cutoff written since in
      let account =
        (eq_iff row.position.account_id r.position.account_id).0 (ground (arith, same)) in
      let symbol = (eq_iff row.position.symbol r.position.symbol).0 (ground (arith, same)) in
      let exchange =
        (eq_iff (exchange_text row.position.exchange) (exchange_text r.position.exchange)).0
          (ground (arith, same)) in
      ground (
        arith,
        time,
        fresh,
        ap (λ x. str_eq x (trim_space q.account_id)) account,
        ap (λ x. str_eq x (trim_space q.symbol)) symbol,
        ap (λ x. str_eq x (exchange_text q.exchange)) exchange,
      )

  -- A newer row in the place of the position's row is fresh.
  fresh_newer :
      (given : Position) (row r : PositionRow)
      → IsRowOf given written row
      → same_position row r ≡ true
      → later r.updated_at row.updated_at ≡ true
      → is_fresh cutoff given r ≡ true
  fresh_newer given row r i same newer =
      let time =
        later_trans r.updated_at row.updated_at (micro cutoff) newer
          (ap (later (micro cutoff)) i.3 ∙ micro-later cutoff written since) in
      let account =
        (eq_iff row.position.account_id r.position.account_id).0 (ground (arith, same)) in
      let symbol = (eq_iff row.position.symbol r.position.symbol).0 (ground (arith, same)) in
      let exchange =
        (eq_iff (exchange_text row.position.exchange) (exchange_text r.position.exchange)).0
          (ground (arith, same)) in
      ground (
        arith,
        time,
        (eq_iff r.position.account_id (trim_space given.account_id)).1 (sym account ∙ i.0),
        (eq_iff r.position.symbol (trim_space given.symbol)).1 (sym symbol ∙ i.1),
        (eq_iff (exchange_text r.position.exchange) (exchange_text given.exchange)).1
            (sym exchange ∙ ap exchange_text i.2),
      )

-- The position has a row that was written since the cutoff.
abbrev pub IsHeld : Time → Store → Position → Type 0
IsHeld cutoff s p = any (is_fresh cutoff p) s.positions ≡ true

-- The positions held in the first tables are held in the second ones.
abbrev pub Holds : Time → Store → Store → Type 0
Holds cutoff s s' = (q : Position) → IsHeld cutoff s q → IsHeld cutoff s' q

module _ (cutoff written : Time) (since : later cutoff written ≡ false)
    (set : is_unset written ≡ false) where
  Put-IsHeld :
      (given : Position) (s s' : Store)
      → Put given written s s'
      → Holds cutoff s s' × IsHeld cutoff s' given
  Put-IsHeld given s s' put = (
    λ q held.
        ap (any (is_fresh cutoff q)) put.rows
        ∙ put_position-kept (is_fresh cutoff q) put.row s.positions
            (λ r same fresh. fresh_place cutoff written since given q put.row r put.its same fresh)
            held,
    ap (any (is_fresh cutoff given)) put.rows
        ∙ put_position-there (is_fresh cutoff given) put.row s.positions
            (fresh_row cutoff written since given put.row put.its)
            (λ r same newer. fresh_newer cutoff written since given put.row r put.its same newer),
  )

  pub upsert-IsHeld :
      (db : Database) (a : Arithmetic) (now : Time) (given : Position) (source : String) (s : Store)
      → IfOk
          (upsert_position db a now given source written s)
          (λ s'. Holds cutoff s s' × IsHeld cutoff s' given)
  upsert-IsHeld db a now given source s = record {
    at = λ s' h.
        Put-IsHeld given s s' ((upsert_position-Put db a now given source written s set).at s' h);
  }

any-keep :
    (test kept : PositionRow → Bool) (rows : List PositionRow)
    → ((r : PositionRow) → test r ≡ true → kept r ≡ true)
    → any test rows ≡ true
    → any test (keep kept rows) ≡ true
any-keep test kept [] f h = h
any-keep test kept (r ∷ rows) f h = ground (arith, h, f r, any-keep test kept rows f)

-- The deletion leaves what is held since its cutoff.
pub delete_stale-Holds :
    (account_id : String) (cutoff : Time) (s : Store)
    → IfOk (delete_stale_positions account_id cutoff s) (λ out. Holds cutoff s out.0)
unfolding delete_stale_positions
delete_stale-Holds account_id cutoff s =
    IfOk-bind (guard (not (is_empty (trim_space account_id))) _) _ (λ _.
      IfOk-bind (guard (not (is_unset cutoff)) _) _ (λ _. IfOk-ok _ (λ q held.
        any-keep (is_fresh cutoff q) (λ r. not (is_stale (trim_space account_id) cutoff r))
          s.positions (λ r fresh. ground (arith, fresh)) held)))
