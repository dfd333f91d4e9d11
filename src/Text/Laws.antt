-- ===== src/Text/Laws.antt =====
-- Lemmas on texts.
use Prim.Native.Char.{Char}
use ti_relay_trader.Prelude.{
  String, ◌≡◌, refl, sym, ap, ◌∙◌, inl, inr, false, Bool-cases, arith, str_eq, eq_iff,
}
use ti_relay_trader.Text.{is_space, trim_left, trim_right, trim_space}

abbrev pub AllChars : (Char → Type 0) → String → Type 0
AllChars P String.[] = Unit
AllChars P (String.◌∷◌ c s) = P c × AllChars P s

abbrev pub IsInk : Char → Type 0
IsInk c = is_space c ≡ false

trim_right-ink : (s : String) → AllChars IsInk s → trim_right s ≡ s
unfolding trim_right
trim_right-ink String.[] h = refl
trim_right-ink (String.◌∷◌ c s) h = rw h.0 (ap (String.◌∷◌ c) (trim_right-ink s h.1))

trim_left-ink : (s : String) → AllChars IsInk s → trim_left s ≡ s
unfolding trim_left
trim_left-ink String.[] h = refl
trim_left-ink (String.◌∷◌ c s) h = rw (h.0, trim_left)

-- A text with no white space is left alone by `trim_space`.
pub trim_space-ink : (s : String) → AllChars IsInk s → trim_space s ≡ s
unfolding trim_space
trim_space-ink s h = rw (trim_left-ink s h) (trim_right-ink s h)

pub str_eq_comm : (a b : String) → str_eq a b ≡ str_eq b a
str_eq_comm a b = elim (Bool-cases (str_eq a b)) [
  | inl e ↦ ground (arith, e, (eq_iff b a).1 (sym ((eq_iff a b).0 e)))
  | inr e ↦ elim (Bool-cases (str_eq b a)) [
    | inl f ↦ ground (arith, e, (eq_iff a b).1 (sym ((eq_iff b a).0 f)))
    | inr f ↦ e ∙ sym f
  ]
]
