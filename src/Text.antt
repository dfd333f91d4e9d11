-- ===== src/Text.antt =====
-- The operations of Go's `strings` and `strconv` packages that the program calls, on texts as
-- lists of characters. A text that came in as JSON is always valid UTF-8, so a `String` holds it.
pub mod Decimal
pub mod Laws
use Prim.Native.Char.{Char, code}
use ti_relay_trader.Prelude.{
  ℕ, ◌+◌, String, Bool, true, false, ◌&&◌, ◌||◌, List, [], ◌∷◌, ◌==◌, leb, if◌then◌else◌, str_eq,
}

abbrev pub is_empty : String → Bool
is_empty String.[] = true
is_empty (String.◌∷◌ c s) = false

-- `unicode.IsSpace`
unfoldable pub is_space : Char → Bool
is_space c =
    let n = code c in
    (leb 9 n && leb n 13)
    || n == 32
    || n == 0x85
    || n == 0xa0
    || n == 0x1680
    || (leb 0x2000 n && leb n 0x200a)
    || n == 0x2028
    || n == 0x2029
    || n == 0x202f
    || n == 0x205f
    || n == 0x3000

pub trim_left : String → String
trim_left String.[] = String.[]
trim_left (String.◌∷◌ c s) =
    let rest = trim_left s in elim (is_space c) [ true ↦ rest | false ↦ String.◌∷◌ c s ]

pub trim_right : String → String
trim_right String.[] = String.[]
trim_right (String.◌∷◌ c s) =
    let rest = trim_right s in if is_space c && is_empty rest then String.[] else String.◌∷◌ c rest

-- `strings.TrimSpace`
unfoldable pub trim_space : String → String
unfolding is_space trim_left trim_right
trim_space s = trim_right (trim_left s)

-- The code of a character in lower case. Outside ASCII only the dotted capital İ and the Kelvin
-- sign have an ASCII lower case; other letters are left alone, as no text compared here has them.
lower_code : ℕ → ℕ
lower_code n =
    if leb b'A' n && leb n b'Z'
    then n + 32
    else if n == 0x130
    then b'i'
    else if n == 0x212a
    then b'k'
    else n

abbrev pub codes : String → List ℕ
codes String.[] = []
codes (String.◌∷◌ c s) = code c ∷ codes s

same_codes : List ℕ → List ℕ → Bool
same_codes [] [] = true
same_codes (m ∷ ms) (n ∷ ns) = m == n && same_codes ms ns
same_codes _ _ = false

lower_codes : List ℕ → List ℕ
lower_codes [] = []
lower_codes (n ∷ ns) = lower_code n ∷ lower_codes ns

-- `strings.ToLower(s) == literal`, for a literal in lower case
unfoldable pub lower_is : String → String → Bool
unfolding lower_code same_codes lower_codes
lower_is s literal = same_codes (lower_codes (codes s)) (codes literal)

-- Simple folding of a character for `strings.EqualFold` with an ASCII text: besides its capital, s is
-- the fold of the long s, and k of the Kelvin sign.
abbrev fold_code : ℕ → ℕ
fold_code n =
    if leb b'A' n && leb n b'Z'
    then n + 32
    else if n == 0x17f
    then b's'
    else if n == 0x212a
    then b'k'
    else n

fold_is : List ℕ → List ℕ → Bool
fold_is [] [] = true
fold_is (m ∷ ms) (n ∷ ns) = fold_code m == n && fold_is ms ns
fold_is _ _ = false

-- `strings.EqualFold(s, literal)`, for a literal in lower case
unfoldable pub equal_fold : String → String → Bool
unfolding fold_is
equal_fold s literal = fold_is (codes s) (codes literal)

-- The text is one of the list.
abbrev pub one_of : String → List String → Bool
one_of s [] = false
one_of s (t ∷ ts) = if str_eq s t then true else one_of s ts
