-- ===== src/Errors.antt =====
-- The errors that the trading, ledger and orderflow packages return, by their sentinels, and
-- fallible results. `errors.Is` is a match on the sentinel below the wrapping.
use ti_relay_trader.Prelude.{ℕ, String, Bool, true, false, ◌≡◌, refl, ◌⊎◌, inl, inr, subst}

pub data Error : Type 0 where
  -- trading.ErrInvalidSchema with its ValidationError: the field and the message
  invalid_schema : String → String → Error
  -- trading.ErrInvalidSchema with a message alone
  invalid_query : String → Error
  -- `orders[i]: …`
  at_order : ℕ → Error → Error
  route_not_found account_disabled trading_disabled : String → Error
  missing_ledger missing_publisher : Error
  unsupported_business_type : Error
  duplicate_gateway_order idempotency_conflict : Error
  order_terminal_not_cancelable order_without_leaves_not_cancelable : Error
  -- ledger.ErrInvalidLedgerInput with its message
  invalid_ledger_input : String → Error
  order_not_found order_conflict archived_command_not_found : Error
  -- what the database or Redis answers when a call fails
  backend : Error
  -- encoding/json cannot encode a value, or an archived command cannot be decoded
  encoding bad_archive : Error
  -- an action that no command stream takes
  unsupported_action : String → Error

pub data Result {ℓ} (A : Type ℓ) : Type ℓ where
  ok : A → Result A
  err : Error → Result A

infixl 5 ◌>>◌
infixl 5 ◌>>=◌
-- `if err != nil { return …, err }` in front of the rest
abbrev pub ◌>>=◌ {ℓ κ} : {A : Type ℓ} {B : Type κ} → Result A → (A → Result B) → Result B
err failure >>= rest = err failure
ok value >>= rest = rest value

-- Go on if the test passes, and return the error if it does not.
abbrev pub guard : Bool → Error → Result (Unit {0})
guard false failure = err failure
guard true failure = ok tt

abbrev pub ◌>>◌ {κ} : {B : Type κ} → Result (Unit {0}) → Result B → Result B
check >> rest = check >>= λ passed. rest

abbrev pub is_ok {ℓ} : {A : Type ℓ} → Result A → Bool
is_ok (ok a) = true
is_ok (err e) = false

-- `errors.Is(err, ledger.ErrOrderNotFound)`, and so on
abbrev pub is_order_not_found : Error → Bool
is_order_not_found order_not_found = true
is_order_not_found _ = false

abbrev pub is_order_conflict : Error → Bool
is_order_conflict order_conflict = true
is_order_conflict _ = false

abbrev pub is_archived_command_not_found : Error → Bool
is_archived_command_not_found archived_command_not_found = true
is_archived_command_not_found _ = false

pub Result-cases {ℓ} :
    {A : Type ℓ} (r : Result A) → ((a : A) × (r ≡ ok a)) ⊎ ((e : Error) × (r ≡ err e))
Result-cases (ok a) = inl (a, refl)
Result-cases (err e) = inr (e, refl)

-- What holds of the value of a result, if it has one.
pub record IfOk {ℓ} {A : Type ℓ} (r : Result A) (P : A → Type ℓ) : Type ℓ where
  pub at : (a : A) → r ≡ ok a → P a

pub ok_inj {ℓ} : {A : Type ℓ} {a b : A} → ok a ≡ ok b → a ≡ b
ok_inj e = cc

module _ {ℓ} {A : Type ℓ} {P : A → Type ℓ} where
  pub IfOk-ok : (a : A) → P a → IfOk (ok a) P
  IfOk-ok a p = record { at = λ b e. subst P (ok_inj e) p }

  pub IfOk-err : (e : Error) → IfOk (err e) P
  IfOk-err e = record { at = λ b h. cc }

module _ {ℓ} {A B : Type ℓ} {P : B → Type ℓ} where
  pub IfOk-bind : (r : Result A) (f : A → Result B) → ((a : A) → IfOk (f a) P) → IfOk (r >>= f) P
  IfOk-bind (ok a) f h = h a
  IfOk-bind (err e) f h = IfOk-err e

  pub IfOk-step :
      {Q : A → Type ℓ} (r : Result A) (f : A → Result B)
      → IfOk r Q
      → ((a : A) → Q a → IfOk (f a) P)
      → IfOk (r >>= f) P
  IfOk-step (ok a) f q h = h a (q.at a refl)
  IfOk-step (err e) f q h = IfOk-err e

pub IfOk-guard :
    {A : Type 0} {P : A → Type 0} (b : Bool) (e : Error) (m : Result A)
    → (b ≡ true → IfOk m P)
    → IfOk (guard b e >> m) P
IfOk-guard true e m h = h refl
IfOk-guard false e m h = IfOk-err e
