-- ===== src/Text/Decimal.antt =====
-- `strconv.Itoa` and `strconv.Atoi`, on 64-bit integers.
pub mod RoundTrip
pub mod Width
use Prim.Native.Char.{Char, code}
use ti_relay_trader.Prelude.{
  ℕ, zero, suc, ◌+◌, ◌-◌, ◌*◌, ◌/◌, ◌%◌, ◌^◌, ◌≤◌, ◌<◌, String, ◌≡◌, refl, ◌∙◌, Bool, true, false,
  ◌||◌, Option, none, some, arith, ltb, leb, ◌==◌, if◌then◌else◌,
}
use ti_relay_trader.Prelude.Int.{ℤ, pos, negsuc}

abbrev digit : ℕ → Char
digit zero = "0"
digit (suc zero) = "1"
digit (suc (suc zero)) = "2"
digit (suc (suc (suc zero))) = "3"
digit (suc (suc (suc (suc zero)))) = "4"
digit (suc (suc (suc (suc (suc zero))))) = "5"
digit (suc (suc (suc (suc (suc (suc zero)))))) = "6"
digit (suc (suc (suc (suc (suc (suc (suc zero))))))) = "7"
digit (suc (suc (suc (suc (suc (suc (suc (suc zero)))))))) = "8"
digit _ = "9"

-- The digits of n in front of a text. A number has fewer digits than its value and one, so fuel
-- n + 1 is enough.
print : ℕ → ℕ → String → String
print zero n out = out
print (suc fuel) n out =
    let more = print fuel (n / 10) (String.◌∷◌ (digit (n % 10)) out) in
    if ltb n 10 then String.◌∷◌ (digit (n % 10)) out else more

unfoldable pub itoa : ℤ → String
unfolding print
itoa (pos n) = print (suc n) n String.[]
itoa (negsuc n) = String.◌∷◌ "-" (print (suc (suc n)) (suc n) String.[])

-- The value of a row of digits behind v; any other character is refused.
scan : String → ℕ → Option ℕ
scan String.[] v = some v
scan (String.◌∷◌ c s) v =
    let rest = scan s (v * 10 + (code c - b'0')) in
    if ltb (code c) b'0' || ltb b'9' (code c) then none else rest

magnitude : String → Option ℕ
magnitude String.[] = none
magnitude (String.◌∷◌ c s) = scan (String.◌∷◌ c s) 0

positive : Option ℕ → Option ℤ
positive none = none
positive (some n) = if ltb n (2 ^ 63) then some (pos n) else none

negative : Option ℕ → Option ℤ
negative none = none
negative (some zero) = some (pos 0)
negative (some (suc n)) = if ltb n (2 ^ 63) then some (negsuc n) else none

-- `none` is a syntax or a range error.
unfoldable pub atoi : String → Option ℤ
unfolding scan magnitude positive negative
atoi String.[] = none
atoi (String.◌∷◌ c s) =
    if code c == b'+'
    then positive (magnitude s)
    else if code c == b'-'
    then negative (magnitude s)
    else positive (magnitude (String.◌∷◌ c s))

abbrev below_2_64 : Option ℕ → Option ℕ
below_2_64 none = none
below_2_64 (some n) = if ltb n (2 ^ 64) then some n else none

-- `strconv.ParseUint(s, 10, 64)`; `none` is a syntax or a range error.
unfoldable pub parse_uint : String → Option ℕ
unfolding scan magnitude
parse_uint s = below_2_64 (magnitude s)
