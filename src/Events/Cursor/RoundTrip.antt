-- ===== src/Events/Cursor/RoundTrip.antt =====
-- Cursors are read back.
use Prim.Native.Char.{Char}
use Prim.Native.String.{◌++◌}
use text.Mathlib.TextLemmas.{cons-append, nil-append}
use ti_relay_trader.Prelude.{ℕ, ◌<◌, ◌^◌, String, ◌≡◌, refl, ap, ◌∙◌, false, none, some, arith}
use ti_relay_trader.Prelude.Int.{pos}
use ti_relay_trader.Text.{is_empty, is_space, trim_space}
use ti_relay_trader.Text.Laws.{AllChars, IsInk, trim_space-ink}
use ti_relay_trader.Text.Decimal.{itoa, parse_uint}
use ti_relay_trader.Text.Decimal.RoundTrip.{
  parse_uint-itoa, itoa-IsDigit, itoa-cons, IsDigit, IsDigit-IsInk, AllChars-map,
}
use ti_relay_trader.Events.Cursor.{
  cursor, split_last_dash, strip_prefix, parse_cursor, parts, behind_prefix,
}

-- The text that a hub takes for its epoch: not empty, and without white space.
pub record IsEpoch (epoch : String) : Type 0 where
  pub given : is_empty epoch ≡ false
  pub ink : AllChars IsInk epoch

AllChars-append :
    (P : Char → Type 0) (s t : String) → AllChars P s → AllChars P t → AllChars P (s ++ t)
AllChars-append P String.[] t h k = rw (nil-append t) k
AllChars-append P (String.◌∷◌ c s) t h k = rw (cons-append c s t) (h.0, AllChars-append P s t h.1 k)

evt-IsInk : AllChars IsInk "evt-"
unfolding is_space
evt-IsInk = (refl, (refl, (refl, (refl, tt))))

dash-IsInk : AllChars IsInk "-"
unfolding is_space
dash-IsInk = (refl, tt)

cursor-IsInk : (epoch : String) (n : ℕ) → IsEpoch epoch → AllChars IsInk (cursor epoch n)
unfolding cursor
cursor-IsInk epoch n e = AllChars-append IsInk "evt-" _ evt-IsInk (
    AllChars-append IsInk epoch _ e.ink (
      AllChars-append IsInk "-" _ dash-IsInk
        (AllChars-map IsDigit IsInk IsDigit-IsInk _ (itoa-IsDigit n))))

no_dash : (s : String) → AllChars IsDigit s → split_last_dash s ≡ none
unfolding split_last_dash
no_dash String.[] h = refl
no_dash (String.◌∷◌ c s) h = rw (no_dash s h.1) (ground (arith, h.0))

dash_cons : (s : String) → "-" ++ s ≡ String.◌∷◌ "-" s
dash_cons s = cons-append "-" "" s ∙ ap (String.◌∷◌ "-") (nil-append s)

split-append :
    (epoch digits : String)
    → AllChars IsDigit digits
    → split_last_dash (epoch ++ ("-" ++ digits)) ≡ some (epoch, digits)
unfolding split_last_dash
split-append String.[] digits h =
    ap split_last_dash (nil-append ("-" ++ digits) ∙ dash_cons digits) ∙ rw (no_dash digits h) refl
split-append (String.◌∷◌ c epoch) digits h =
    ap split_last_dash (cons-append c epoch ("-" ++ digits)) ∙ rw (split-append epoch digits h) refl

evt_cons :
    (s : String) → "evt-" ++ s ≡ String.◌∷◌ "e" (String.◌∷◌ "v" (String.◌∷◌ "t" (String.◌∷◌ "-" s)))
evt_cons s =
    cons-append "e" "vt-" s
    ∙ ap (String.◌∷◌ "e") (
        cons-append "v" "t-" s
        ∙ ap (String.◌∷◌ "v") (cons-append "t" "-" s ∙ ap (String.◌∷◌ "t") (dash_cons s)))

strip-evt : (s : String) → strip_prefix "evt-" ("evt-" ++ s) ≡ some s
unfolding strip_prefix
strip-evt s = ap (strip_prefix "evt-") (evt_cons s)

parts_given :
    (epoch digits : String) (n : ℕ)
    → is_empty epoch ≡ false
    → is_empty digits ≡ false
    → parse_uint digits ≡ some n
    → parts (some (epoch, digits)) ≡ some (epoch, n)
parts_given epoch digits n e d p = rw (e, d, p) refl

-- A cursor of a hub's epoch is read back as that epoch and its sequence number, below 2 ^ 64.
pub parse_cursor-cursor :
    (epoch : String) (n : ℕ)
    → IsEpoch epoch
    → n < 2 ^ 64
    → parse_cursor (cursor epoch n) ≡ some (epoch, n)
unfolding parse_cursor cursor
parse_cursor-cursor epoch n e h =
    let digits = itoa (pos n) in
    let (c, r, d) = itoa-cons n in
    ap (λ t. behind_prefix (strip_prefix "evt-" t)) (trim_space-ink _ (cursor-IsInk epoch n e))
    ∙ ap behind_prefix (strip-evt (epoch ++ ("-" ++ digits)))
    ∙ ap parts (split-append epoch digits (itoa-IsDigit n))
    ∙ parts_given epoch digits n e.given (ap is_empty d) (parse_uint-itoa n h)

pub trim_space-cursor :
    (epoch : String) (n : ℕ) → IsEpoch epoch → trim_space (cursor epoch n) ≡ cursor epoch n
trim_space-cursor epoch n e = trim_space-ink _ (cursor-IsInk epoch n e)

pub cursor-given : (epoch : String) (n : ℕ) → is_empty (cursor epoch n) ≡ false
unfolding cursor
cursor-given epoch n = ap is_empty (evt_cons (epoch ++ ("-" ++ itoa (pos n))))
