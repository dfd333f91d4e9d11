-- ===== src/Orderflow/Queries/Laws.antt =====
-- Limits, cursors and pages of the queries.
use ti_relay_trader.Prelude.{
  ℕ, zero, suc, ◌+◌, ◌^◌, ◌≤◌, ◌<◌, String, false, ◌≡◌, ◌⊎◌, inl, inr, refl, ap, sym, ◌∙◌, List, [],
  ◌∷◌, length, take, drop, length-take, length-drop, arith, ltb, leb, Bool-cases, subst,
}
use ti_relay_trader.Prelude.Int.{ℤ, pos, pos_part, ◌+ℤ◌, int64_of-small, ◌≤ℤ◌}
use ti_relay_trader.Text.Decimal.{itoa}
use ti_relay_trader.Text.Decimal.RoundTrip.{atoi-itoa, trim_space-itoa, itoa-cons}
use ti_relay_trader.Errors.{ok}
use ti_relay_trader.Orderflow.Queries.{bounded_limit, cursor_offset, fetch_limit, cut_page}

-- If the usual limit is at least 1 and at most the maximum, the limit that is used is between 1 and
-- the maximum, whatever was given.
pub bounded_limit-bounds :
    (usual maximum : ℕ) (given : ℤ)
    → 1 ≤ usual
    → usual ≤ maximum
    → (pos 1 ≤ℤ bounded_limit usual maximum given)
      × (bounded_limit usual maximum given ≤ℤ pos maximum)
unfolding bounded_limit
bounded_limit-bounds usual maximum given l u = ground arith

-- The cursor that is printed for an offset below 2 ^ 63 is read back as that offset.
pub cursor_offset-itoa : (n : ℕ) → n < 2 ^ 63 → cursor_offset (itoa (pos n)) ≡ ok n
unfolding cursor_offset
cursor_offset-itoa n h =
    rw (trim_space-itoa n, atoi-itoa n h) (let (c, r, e) = itoa-cons n in rw e refl)

take-take : {A : Type 0} (m n : ℕ) (xs : List A) → m ≤ n → take m (take n xs) ≡ take m xs
take-take zero n xs h = refl
take-take (suc m) zero xs h = absurd (omega arith)
take-take (suc m) (suc n) [] h = refl
take-take (suc m) (suc n) (x ∷ xs) h = rw (take-take m n xs (omega arith)) refl

pub take-all : {A : Type 0} (n : ℕ) (xs : List A) → length xs ≤ n → take n xs ≡ xs
take-all zero [] h = refl
take-all zero (x ∷ xs) h = absurd (omega arith)
take-all (suc n) [] h = refl
take-all (suc n) (x ∷ xs) h = rw (take-all n xs (omega arith)) refl

module _ {A : Type 0} (xs : List A) (maximum offset limit : ℕ) (b : offset + limit < 2 ^ 63) where
  cut_page-more :
      limit < length xs
      → cut_page maximum offset (pos limit) xs ≡ (take limit xs, itoa (pos (offset + limit)))
  unfolding cut_page
  cut_page-more h = rw (int64_of-small (offset + limit) b) (ground arith)

  cut_page-full :
      limit ≡ maximum
      → length xs ≡ limit
      → cut_page maximum offset (pos limit) xs ≡ (xs, itoa (pos (offset + limit)))
  unfolding cut_page
  cut_page-full l h = rw (int64_of-small (offset + limit) b) (ground arith)

  cut_page-last :
      length xs ≤ limit
      → (limit < maximum) ⊎ (length xs < limit)
      → cut_page maximum offset (pos limit) xs ≡ (xs, "")
  unfolding cut_page
  cut_page-last l (inl h) = ground arith
  cut_page-last l (inr h) = ground arith

fetch_limit-small :
    (maximum limit : ℕ) → limit < maximum → pos_part (fetch_limit maximum (pos limit)) ≡ suc limit
unfolding fetch_limit ◌+ℤ◌
fetch_limit-small maximum limit h = ground arith

fetch_limit-most : (maximum : ℕ) → pos_part (fetch_limit maximum (pos maximum)) ≡ maximum
unfolding fetch_limit
fetch_limit-most maximum = ground arith

limit_most : (maximum limit : ℕ) → limit ≤ maximum → ltb limit maximum ≡ false → limit ≡ maximum
limit_most maximum limit u e = ground arith

-- The ledger answers with the rows of the page that it is asked for, out of all rows of the query.
abbrev pub fetched : {A : Type 0} → ℕ → List A → ℕ → ℕ → List A
fetched maximum rows offset limit =
    take (pos_part (fetch_limit maximum (pos limit))) (drop offset rows)

-- The page holds the rows from the offset on; no cursor follows the last page, and the cursor behind
-- another page is the offset of its next row.
abbrev pub IsPage : {A : Type 0} → List A → ℕ → ℕ → List A × String → Type 0
IsPage rows offset limit (page, next) =
    (page ≡ take limit (drop offset rows))
    × (((next ≡ "") × (length rows ≤ offset + limit))
        ⊎ ((next ≡ itoa (pos (offset + limit))) × (offset + limit ≤ length rows)))

module _ {A : Type 0} (rows : List A) (maximum offset limit : ℕ) (b : offset + limit < 2 ^ 63) where
  small-IsPage :
      1 ≤ limit
      → limit < maximum
      → IsPage rows offset limit
          (cut_page maximum offset (pos limit) (take (suc limit) (drop offset rows)))
  small-IsPage l h =
      let d = drop offset rows in
      let xs = take (suc limit) d in
      elim (Bool-cases (ltb limit (length d))) [
        | inl e ↦
            subst (IsPage rows offset limit)
              (sym (
                cut_page-more xs maximum offset limit b
                  (ground (arith, e, length-take (suc limit) d))))
              (
                take-take limit (suc limit) d (omega arith),
                inr (refl, ground (arith, e, length-drop offset rows)),
              )
        | inr e ↦
            subst (IsPage rows offset limit)
              (sym (
                cut_page-last xs maximum offset limit b
                  (ground (arith, e, length-take (suc limit) d)) (inl h)))
              (
                take-all (suc limit) d (ground (arith, e))
                    ∙ sym (take-all limit d (ground (arith, e))),
                inl (refl, ground (arith, e, length-drop offset rows)),
              )
      ]

  most-IsPage :
      1 ≤ limit
      → limit ≡ maximum
      → IsPage rows offset limit
          (cut_page maximum offset (pos limit) (take limit (drop offset rows)))
  most-IsPage l h =
      let d = drop offset rows in
      let xs = take limit d in
      elim (Bool-cases (leb limit (length d))) [
        | inl e ↦
            subst (IsPage rows offset limit)
              (sym (
                cut_page-full xs maximum offset limit b h (ground (arith, e, length-take limit d))))
              (refl, inr (refl, ground (arith, h, e, length-drop offset rows)))
        | inr e ↦
            subst (IsPage rows offset limit)
              (sym (
                cut_page-last xs maximum offset limit b (ground (arith, e, length-take limit d))
                  (inr (ground (arith, e, length-take limit d)))))
              (refl, inl (refl, ground (arith, e, length-drop offset rows)))
      ]

-- For a limit between 1 and the maximum and an offset with which it stays below 2 ^ 63: if the ledger answers
-- with the rows from the offset on, up to the limit it is asked for, then the page is the rows from
-- the offset on, up to the query's own limit. Either there is no next cursor, and the page reaches
-- the last row, or the next cursor is the offset of the row behind the page, and there are as many
-- rows as that offset counts.
pub cut_page-pages :
    {A : Type 0} (rows : List A) (maximum offset limit : ℕ)
    → 1 ≤ limit
    → limit ≤ maximum
    → offset + limit < 2 ^ 63
    → IsPage rows offset limit
        (cut_page maximum offset (pos limit) (fetched maximum rows offset limit))
cut_page-pages rows maximum offset limit l u b = elim (Bool-cases (ltb limit maximum)) [
  | inl e ↦
      subst
        (λ k.
          IsPage rows offset limit
            (cut_page maximum offset (pos limit) (take k (drop offset rows))))
        (sym (fetch_limit-small maximum limit (ground (arith, e))))
        (small-IsPage rows maximum offset limit b l (ground (arith, e)))
  | inr e ↦
      let h = limit_most maximum limit u e in
      subst
        (λ k.
          IsPage rows offset limit
            (cut_page maximum offset (pos limit) (take k (drop offset rows))))
        (h ∙ sym (ap (λ k. pos_part (fetch_limit maximum (pos k))) h ∙ fetch_limit-most maximum))
        (most-IsPage rows maximum offset limit b l h)
]
