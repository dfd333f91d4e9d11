-- ===== src/Ledger/Positions/Written.antt =====
-- What UpsertPosition of internal/ledger/repository.go leaves in the table.
use ti_relay_trader.Prelude.{
  ◌/◌, ◌*◌, ◌≤◌, String, Bool, true, false, not, ◌≡◌, refl, ◌∙◌, inl, inr, List, [], ◌∷◌, any,
  Bool-cases, arith, str_eq,
}
use ti_relay_trader.Float64.{Arithmetic}
use ti_relay_trader.Text.{is_empty, trim_space}
use ti_relay_trader.Time.{Time, unset, at, is_unset}
use ti_relay_trader.Errors.{guard, backend, IfOk, IfOk-ok, IfOk-bind, IfOk-step}
use ti_relay_trader.Trading.Schema.{Position}
use ti_relay_trader.Trading.Validation.{exchange_valid}
use ti_relay_trader.Ledger.Store.{Store, Database, PositionRow}
use ti_relay_trader.Ledger.Orders.{later, micro, refuse_number}
use ti_relay_trader.Ledger.Positions.{
  normalize_position, value_position, position_row, put_position, same_position, upsert_position,
  last_price_of, quantities_allowed,
}

pub later_trans : (r u c : Time) → later r u ≡ true → later c u ≡ false → later c r ≡ false
later_trans unset u c h k = absurd (ground arith)
later_trans (at m) u unset h k = refl
later_trans (at m) unset (at n) h k = absurd (ground arith)
later_trans (at m) (at l) (at n) h k = ground arith

-- Microseconds keep the order.
pub micro-later : (c u : Time) → later c u ≡ false → later (micro c) (micro u) ≡ false
unfolding micro
micro-later unset u h = refl
micro-later (at m) unset h = absurd (ground arith)
micro-later (at m) (at n) h =
    let le : m ≤ n = ground arith in
    let div : m / 1000 * 1000 ≤ n / 1000 * 1000 = omega arith in ground arith

pub put_position-there :
    (test : PositionRow → Bool) (row : PositionRow) (rows : List PositionRow)
    → test row ≡ true
    → ((r : PositionRow)
        → same_position row r ≡ true
        → later r.updated_at row.updated_at ≡ true
        → test r ≡ true)
    → any test (put_position row rows) ≡ true
unfolding put_position
put_position-there test row [] t h = ground (arith, t)
put_position-there test row (r ∷ rows) t h = elim (Bool-cases (same_position row r)) [
  | inl same ↦ elim (Bool-cases (later r.updated_at row.updated_at)) [
    | inl newer ↦ rw (same, newer) (ground (arith, h r same newer))
    | inr older ↦ rw (same, older) (ground (arith, t))
  ]
  | inr other ↦ rw other (ground (arith, put_position-there test row rows t h))
]

pub put_position-kept :
    (test : PositionRow → Bool) (row : PositionRow) (rows : List PositionRow)
    → ((r : PositionRow) → same_position row r ≡ true → test r ≡ true → test row ≡ true)
    → any test rows ≡ true
    → any test (put_position row rows) ≡ true
unfolding put_position
put_position-kept test row [] h t = absurd (ground (arith, t))
put_position-kept test row (r ∷ rows) h t = elim (Bool-cases (same_position row r)) [
  | inl same ↦ elim (Bool-cases (later r.updated_at row.updated_at)) [
    | inl newer ↦ rw (same, newer) t
    | inr older ↦ rw (same, older) (ground (arith, t, h r same))
  ]
  | inr other ↦ rw other (ground (arith, t, put_position-kept test row rows h))
]

-- The row is the position's, as it was written at a time.
abbrev pub IsRowOf : Position → Time → PositionRow → Type 0
IsRowOf p written r =
    (r.position.account_id ≡ trim_space p.account_id)
    × (r.position.symbol ≡ trim_space p.symbol)
    × (r.position.exchange ≡ p.exchange)
    × (r.updated_at ≡ micro written)

NormalOf : Position → Position → Type 0
NormalOf given p =
    (p.account_id ≡ trim_space given.account_id)
    × (p.symbol ≡ trim_space given.symbol)
    × (p.exchange ≡ given.exchange)

normalize_position-NormalOf :
    (a : Arithmetic) (given : Position) → IfOk (normalize_position a given) (NormalOf given)
unfolding normalize_position value_position NormalOf
normalize_position-NormalOf a given =
    IfOk-bind (guard (not (is_empty (trim_space given.account_id))) _) _ (λ _.
      IfOk-bind (guard (not (is_empty (trim_space given.symbol))) _) _ (λ _.
        IfOk-bind (guard (exchange_valid given.exchange) _) _ (λ _. IfOk-ok _ (refl, refl, refl))))

-- The row has the position's key and the time.
WrittenAs : Position → Time → PositionRow → Type 0
WrittenAs p written r =
    (r.position.account_id ≡ p.account_id)
    × (r.position.symbol ≡ p.symbol)
    × (r.position.exchange ≡ p.exchange)
    × (r.updated_at ≡ micro written)

position_row-WrittenAs :
    (db : Database) (p : Position) (source : String) (written : Time)
    → IfOk (position_row db p source written) (WrittenAs p written)
unfolding position_row WrittenAs
position_row-WrittenAs db p source written =
    IfOk-bind (refuse_number (db.numeric p.avg_cost)) _ (λ x1.
      IfOk-bind (refuse_number (db.numeric p.total_cost)) _ (λ x2.
        IfOk-bind (last_price_of db p.last_price) _ (λ x3.
          IfOk-bind (refuse_number (db.numeric p.market_value)) _ (λ x4.
            IfOk-bind (refuse_number (db.numeric p.unrealized_pnl)) _ (λ x5.
              IfOk-bind (refuse_number (db.numeric p.day_unrealized_pnl)) _ (λ x6.
                IfOk-bind (refuse_number (db.numeric p.settled_profit)) _
                  (λ x7. IfOk-ok _ (refl, refl, refl, refl))))))))

-- The rows behind are those in front with one more put in, and it is the position's.
pub record Put (given : Position) (written : Time) (s s' : Store) : Type 0 where
  pub row : PositionRow
  pub rows : s'.positions ≡ put_position row s.positions
  pub its : IsRowOf given written row

IsRowOf-compose :
    (given p : Position) (written : Time) (r : PositionRow)
    → NormalOf given p
    → WrittenAs p written r
    → IsRowOf given written r
unfolding NormalOf WrittenAs
IsRowOf-compose given p written r (a, b, c) (x, y, z, w) = (x ∙ a, y ∙ b, z ∙ c, w)

pub upsert_position-Put :
    (db : Database) (a : Arithmetic) (now : Time) (given : Position) (source : String)
    (written : Time) (s : Store)
    → is_unset written ≡ false
    → IfOk (upsert_position db a now given source written s) (Put given written s)
unfolding upsert_position
upsert_position-Put db a now given source written s set = rw set (
    IfOk-step (normalize_position a given) _ (normalize_position-NormalOf a given) (λ p n.
      IfOk-step (position_row db p _ written) _ (position_row-WrittenAs db p _ written) (λ row w.
        IfOk-bind (guard (quantities_allowed row.position) backend) _ (λ _.
          IfOk-bind
            (guard (any (λ account. str_eq account.account_id row.position.account_id) s.accounts)
              backend)
            _
            (λ _. IfOk-ok _ (record {
              row = row;
              rows = refl;
              its = IsRowOf-compose given p written row n w;
            }))))))
