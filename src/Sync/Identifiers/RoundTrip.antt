-- ===== src/Sync/Identifiers/RoundTrip.antt =====
-- The time in an id of defaultIDGenerator, in internal/orderflow/service.go, is read back by
-- timestampFromIdentifier of internal/redisstream/ledger_sync.go.
use Prim.Native.String.{◌++◌}
use text.Mathlib.TextLemmas.{cons-append, nil-append, append-nil, append_assoc}
use ti_relay_trader.Prelude.{
  ℕ, ◌≤◌, ◌<◌, ◌^◌, String, true, false, ◌≡◌, refl, sym, ap, ◌∙◌, arith, leb, length, ltb,
}
use ti_relay_trader.Prelude.Int.{pos}
use ti_relay_trader.Text.{codes}
use ti_relay_trader.Text.Laws.{AllChars}
use ti_relay_trader.Text.Decimal.{itoa}
use ti_relay_trader.Text.Decimal.RoundTrip.{atoi-itoa, itoa-IsDigit, IsDigit}
use ti_relay_trader.Text.Decimal.Width.{tens, itoa-width}
use ti_relay_trader.Time.{at}
use ti_relay_trader.Orderflow.Ids.{default_new_id}
use ti_relay_trader.Sync.Envelope.{EntryEnvelope}
use ti_relay_trader.Sync.Identifiers.{
  is_digit, timestamp_from_digits, timestamp_from_identifier, scan_identifier,
  position_query_stale_cutoff,
}

-- The text has no digit.
abbrev pub HasNoDigit : String → Type 0
HasNoDigit s = AllChars (λ c. is_digit c ≡ false) s

scan-letters : (s t : String) → HasNoDigit s → scan_identifier "" (s ++ t) ≡ scan_identifier "" t
unfolding scan_identifier timestamp_from_digits
scan-letters String.[] t h = ap (scan_identifier "") (nil-append t)
scan-letters (String.◌∷◌ c s) t h =
    ap (scan_identifier "") (cons-append c s t) ∙ rw h.0 (scan-letters s t h.1)

scan-digits :
    (digits s t : String)
    → AllChars IsDigit s
    → scan_identifier digits (s ++ t) ≡ scan_identifier (digits ++ s) t
unfolding scan_identifier
scan-digits digits String.[] t h =
    ap (scan_identifier digits) (nil-append t)
    ∙ ap (λ x. scan_identifier x t) (sym (append-nil digits))
scan-digits digits (String.◌∷◌ c s) t h =
    let digit : is_digit c ≡ true = ground (arith, h.0) in
    ap (scan_identifier digits) (cons-append c s t)
    ∙ rw digit (
        scan-digits (digits ++ String.◌∷◌ c "") s t h.1
        ∙ ap (λ x. scan_identifier x t)
            (append_assoc digits (String.◌∷◌ c "") s
              ∙ ap (λ x. digits ++ x) (cons-append c "" s ∙ ap (String.◌∷◌ c) (nil-append s))))

-- From 10 ^ 17 on a number is read as nanoseconds.
timestamp-itoa : (n : ℕ) → tens 17 ≤ n → n < 2 ^ 63 → timestamp_from_digits (itoa (pos n)) ≡ at n
unfolding timestamp_from_digits
timestamp-itoa n low high =
    let wide : 18 ≤ length (codes (itoa (pos n))) = itoa-width 17 n low in
    let short : ltb (length (codes (itoa (pos n)))) 13 ≡ false = ground (arith, wide) in
    let long : leb 18 (length (codes (itoa (pos n)))) ≡ true = ground (arith, wide) in
    rw (short, long, atoi-itoa n high) (ap at (omega arith))

dash : (t : String) → "-" ++ t ≡ String.◌∷◌ "-" t
dash t = cons-append "-" "" t ∙ ap (String.◌∷◌ "-") (nil-append t)

scan-end :
    (digits t : String) (n : ℕ)
    → timestamp_from_digits digits ≡ at n
    → scan_identifier digits (String.◌∷◌ "-" t) ≡ at n
unfolding scan_identifier
scan-end digits t n h = rw h refl

-- The time in an id is read back.
timestamp_from_identifier-default_new_id :
    (prefix : String) (n counter : ℕ)
    → HasNoDigit prefix
    → tens 17 ≤ n
    → n < 2 ^ 63
    → timestamp_from_identifier (default_new_id prefix n counter) ≡ at n
unfolding timestamp_from_identifier default_new_id
timestamp_from_identifier-default_new_id prefix n counter h low high =
    let behind = "-" ++ itoa (pos counter) in
    let digits = itoa (pos n) in
    scan-letters prefix ("-" ++ (digits ++ behind)) h
    ∙ scan-letters "-" (digits ++ behind) (refl, tt)
    ∙ scan-digits "" digits behind (itoa-IsDigit n)
    ∙ ap (λ x. scan_identifier x behind) (nil-append digits)
    ∙ ap (scan_identifier digits) (dash (itoa (pos counter)))
    ∙ scan-end digits (itoa (pos counter)) n (timestamp-itoa n low high)

-- The cutoff of a page of positions is the time at which the service issued the query: if the page names
-- as its origin an id that defaultIDGenerator made from a prefix without digits at a time in nanoseconds
-- from 10 ^ 17 (in 1973) to 2 ^ 63 (in 2262), with any counter, then positionQueryStaleCutoff is that time.
pub position_query_stale_cutoff-default_new_id :
    (e : EntryEnvelope) (prefix : String) (n counter : ℕ)
    → HasNoDigit prefix
    → tens 17 ≤ n
    → n < 2 ^ 63
    → e.origin_message_id ≡ default_new_id prefix n counter
    → position_query_stale_cutoff e ≡ at n
unfolding position_query_stale_cutoff
position_query_stale_cutoff-default_new_id e prefix n counter h low high id =
    rw (id, timestamp_from_identifier-default_new_id prefix n counter h low high) refl
