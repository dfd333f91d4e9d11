-- ===== src/Sync/Results/Totals.antt =====
-- The totals of results, in internal/redisstream/ledger_sync.go.
use ti_relay_trader.Prelude.{
  ◌-◌, ◌≤◌, String, false, ◌≡◌, refl, ◌∙◌, inl, inr, List, [], ◌∷◌, ◌++◌, any, any-append, take,
  length, length-append, length-take, Bool-cases, arith, str_eq,
}
use ti_relay_trader.Text.{is_empty, trim_space}
use ti_relay_trader.Text.Laws.{str_eq_comm}
use ti_relay_trader.Sync.Results.{LedgerProcessResult, add, noted, note_all, totals, Reason}

-- No text stands in the list twice.
abbrev pub IsDistinct : List String → Type 0
IsDistinct [] = Unit
IsDistinct (x ∷ xs) = (any (λ y. str_eq y x) xs ≡ false) × IsDistinct xs

snoc-IsDistinct :
    (xs : List String) (x : String)
    → any (λ y. str_eq y x) xs ≡ false
    → IsDistinct xs
    → IsDistinct (xs ++ (x ∷ []))
snoc-IsDistinct [] x f d = (refl, tt)
snoc-IsDistinct (y ∷ xs) x f d = (
  any-append (λ z. str_eq z y) xs (x ∷ []) ∙ ground (arith, d.0, f, str_eq_comm x y),
  snoc-IsDistinct xs x (ground (arith, f)) d.1,
)

noted-IsDistinct : (ids : List String) (id : String) → IsDistinct ids → IsDistinct (noted ids id)
unfolding noted
noted-IsDistinct ids id d = elim (Bool-cases (is_empty (trim_space id))) [
  | inl blank ↦ rw blank d
  | inr given ↦ elim (Bool-cases (any (λ y. str_eq y (trim_space id)) ids)) [
    | inl there ↦ rw (given, there) d
    | inr fresh ↦ rw (given, fresh) (snoc-IsDistinct ids (trim_space id) fresh d)
  ]
]

note_all-IsDistinct : (ids more : List String) → IsDistinct ids → IsDistinct (note_all ids more)
note_all-IsDistinct ids [] d = d
note_all-IsDistinct ids (id ∷ more) d =
    note_all-IsDistinct (noted ids id) more (noted-IsDistinct ids id d)

-- At most 200 reasons, and no account twice.
abbrev pub IsTidy : LedgerProcessResult → Type 0
IsTidy r = (length r.skip_reasons ≤ 200) × IsDistinct r.account_ids

reasons_bounded :
    (xs ys : List Reason) → length xs ≤ 200 → length (xs ++ take (200 - length xs) ys) ≤ 200
reasons_bounded xs ys h =
    omega (arith, h, length-append xs (take (200 - length xs) ys), length-take (200 - length xs) ys)

-- However many results are added up, the totals list at most 200 reasons and no account twice.
pub totals-IsTidy :
    (r : LedgerProcessResult) (others : List LedgerProcessResult)
    → IsTidy r
    → IsTidy (totals r others)
unfolding add
totals-IsTidy r [] h = h
totals-IsTidy r (o ∷ others) (h, d) = totals-IsTidy (add r o) others (
  reasons_bounded r.skip_reasons o.skip_reasons h,
  note_all-IsDistinct r.account_ids o.account_ids d,
)
