-- ===== src/Text/Decimal/RoundTrip.antt =====
-- Every number from 0 to 2 ^ 63 - 1 is read back from its print.
use Prim.Native.Char.{Char, code}
use ti_relay_trader.Prelude.{
  ℕ, zero, suc, ◌+◌, ◌-◌, ◌*◌, ◌/◌, ◌%◌, ◌^◌, ◌≤◌, ◌<◌, String, ◌≡◌, refl, ◌∙◌, ap, some, arith,
  ltb, Bool-cases, inl, inr,
}
use ti_relay_trader.Prelude.Int.{pos}
use ti_relay_trader.Text.{is_space, trim_space}
use ti_relay_trader.Text.Laws.{AllChars, IsInk, trim_space-ink}
use ti_relay_trader.Text.Decimal.{digit, print, itoa, scan, magnitude, positive, atoi, parse_uint}

code-digit : (d : ℕ) → d < 10 → code (digit d) ≡ b'0' + d
code-digit zero h = refl
code-digit (suc zero) h = refl
code-digit (suc (suc zero)) h = refl
code-digit (suc (suc (suc zero))) h = refl
code-digit (suc (suc (suc (suc zero)))) h = refl
code-digit (suc (suc (suc (suc (suc zero))))) h = refl
code-digit (suc (suc (suc (suc (suc (suc zero)))))) h = refl
code-digit (suc (suc (suc (suc (suc (suc (suc zero))))))) h = refl
code-digit (suc (suc (suc (suc (suc (suc (suc (suc zero)))))))) h = refl
code-digit (suc (suc (suc (suc (suc (suc (suc (suc (suc zero))))))))) h = refl
code-digit (suc (suc (suc (suc (suc (suc (suc (suc (suc (suc d)))))))))) h = absurd (omega arith)

abbrev pub IsDigit : Char → Type 0
IsDigit c = (b'0' ≤ code c) × (code c ≤ b'9')

IsDigit-digit : (n : ℕ) → IsDigit (digit (n % 10))
IsDigit-digit n = omega (arith, code-digit (n % 10))

pub IsDigit-IsInk : (c : Char) → IsDigit c → IsInk c
unfolding is_space
IsDigit-IsInk c h = ground arith

print-IsDigit :
    (fuel n : ℕ) (out : String) → AllChars IsDigit out → AllChars IsDigit (print fuel n out)
unfolding print
print-IsDigit zero n out h = h
print-IsDigit (suc fuel) n out h = elim (Bool-cases (ltb n 10)) [
  | inl small ↦ rw small (IsDigit-digit n, h)
  | inr large ↦ rw large (print-IsDigit fuel (n / 10) _ (IsDigit-digit n, h))
]

pub AllChars-map :
    (P Q : Char → Type 0) → ((c : Char) → P c → Q c) → (s : String) → AllChars P s → AllChars Q s
AllChars-map P Q f String.[] h = tt
AllChars-map P Q f (String.◌∷◌ c s) h = (f c h.0, AllChars-map P Q f s h.1)

-- The print begins with a digit in front of a text.
abbrev StartsWithDigit : String → Type 0
StartsWithDigit s = (c : Char) × (r : String) × (s ≡ String.◌∷◌ c r) × IsDigit c

print-StartsWithDigit : (fuel n : ℕ) (out : String) → n < fuel → StartsWithDigit (print fuel n out)
unfolding print
print-StartsWithDigit zero n out h = absurd (omega arith)
print-StartsWithDigit (suc fuel) n out h = elim (Bool-cases (ltb n 10)) [
  | inl small ↦ rw small (digit (n % 10), out, refl, IsDigit-digit n)
  | inr large ↦ rw large (print-StartsWithDigit fuel (n / 10) _ (ground arith))
]

scan_step :
    (c : Char) (s : String) (v d : ℕ)
    → code c ≡ b'0' + d
    → d < 10
    → scan (String.◌∷◌ c s) v ≡ scan s (v * 10 + d)
unfolding scan
scan_step c s v d e h =
    let index : v * 10 + (code c - b'0') ≡ v * 10 + d = omega arith in rw (← index) (ground arith)

-- Reading a digit of n behind the digits before it gives n.
scan-digit : (n : ℕ) (out : String) → scan (String.◌∷◌ (digit (n % 10)) out) (n / 10) ≡ scan out n
scan-digit n out =
    scan_step (digit (n % 10)) out (n / 10) (n % 10) (code-digit (n % 10) (omega arith))
      (omega arith)
    ∙ ap (scan out) (omega arith)

scan-print : (fuel n : ℕ) (out : String) → n < fuel → scan (print fuel n out) 0 ≡ scan out n
unfolding print
scan-print zero n out h = absurd (omega arith)
scan-print (suc fuel) n out h = elim (Bool-cases (ltb n 10)) [
  | inl small ↦ rw small (ground (arith, scan-digit n out))
  | inr large ↦ rw large (scan-print fuel (n / 10) _ (ground arith) ∙ scan-digit n out)
]

magnitude_of_digit : (s : String) → StartsWithDigit s → magnitude s ≡ scan s 0
unfolding magnitude
magnitude_of_digit s (c, r, e, _) = rw e

magnitude-print : (n : ℕ) → magnitude (print (suc n) n String.[]) ≡ some n
unfolding scan
magnitude-print n =
    magnitude_of_digit _ (print-StartsWithDigit (suc n) n String.[] (omega arith))
    ∙ scan-print (suc n) n String.[] (omega arith)

atoi_of_digit : (s : String) → StartsWithDigit s → atoi s ≡ positive (magnitude s)
unfolding atoi
atoi_of_digit s (c, r, e, d) = rw e (ground arith)

pub atoi-itoa : (n : ℕ) → n < 2 ^ 63 → atoi (itoa (pos n)) ≡ some (pos n)
unfolding itoa positive
atoi-itoa n h =
    rw
      (atoi_of_digit _ (print-StartsWithDigit (suc n) n String.[] (omega arith)), magnitude-print n)
      (ground arith)

pub trim_space-itoa : (n : ℕ) → trim_space (itoa (pos n)) ≡ itoa (pos n)
unfolding itoa
trim_space-itoa n =
    trim_space-ink _
      (AllChars-map IsDigit IsInk IsDigit-IsInk _ (print-IsDigit (suc n) n String.[] tt))

pub itoa-cons : (n : ℕ) → (c : Char) × (r : String) × (itoa (pos n) ≡ String.◌∷◌ c r)
unfolding itoa
itoa-cons n =
    let (c, r, e, _) = print-StartsWithDigit (suc n) n String.[] (omega arith) in (c, r, e)

pub parse_uint-itoa : (n : ℕ) → n < 2 ^ 64 → parse_uint (itoa (pos n)) ≡ some n
unfolding parse_uint itoa
parse_uint-itoa n h = rw (magnitude-print n) (ground arith)

pub itoa-IsDigit : (n : ℕ) → AllChars IsDigit (itoa (pos n))
unfolding itoa
itoa-IsDigit n = print-IsDigit (suc n) n String.[] tt
