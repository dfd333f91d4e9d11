-- ===== src/Events/Hub/History.antt =====
-- The history of internal/events/hub.go and the log of all events that were published.
use ti_relay_trader.Prelude.{
  ℕ, zero, suc, ◌+◌, ◌-◌, ◌^◌, ◌<◌, String, ◌≡◌, refl, sym, ap, ◌∙◌, Bool, true, false, ◌&&◌, List,
  [], ◌∷◌, ◌++◌, length, drop, keep, length-append, length-drop, drop-all, drop-append_le,
  drop-drop, drop-nil, arith, Bool-cases, inl, inr, leb, ltb, subst, if◌then◌else◌,
}
use ti_relay_trader.Events.Cursor.{cursor, parse_cursor}
use ti_relay_trader.Events.Cursor.RoundTrip.{IsEpoch, parse_cursor-cursor}
use ti_relay_trader.Events.Hub.{Event, append_history, missed, subscriber_matches}

-- The events have the cursors of consecutive sequence numbers, from the given one on.
abbrev pub Numbered : String → ℕ → List Event → Type 0
Numbered epoch k [] = Unit
Numbered epoch k (e ∷ es) = (e.id ≡ cursor epoch k) × Numbered epoch (suc k) es

pub Numbered-snoc :
    (epoch : String) (k : ℕ) (es : List Event) (e : Event)
    → Numbered epoch k es
    → e.id ≡ cursor epoch (k + length es)
    → Numbered epoch k (es ++ (e ∷ []))
Numbered-snoc epoch k [] e h q = (q ∙ ap (cursor epoch) (omega arith), tt)
Numbered-snoc epoch k (x ∷ es) e h q =
    (h.0, Numbered-snoc epoch (suc k) es e h.1 (q ∙ ap (cursor epoch) (omega arith)))

pub Numbered-drop :
    (epoch : String) (k n : ℕ) (es : List Event)
    → Numbered epoch k es
    → Numbered epoch (n + k) (drop n es)
Numbered-drop epoch k zero es h = subst (λ j. Numbered epoch j es) (omega arith) h
Numbered-drop epoch k (suc n) [] h = tt
Numbered-drop epoch k (suc n) (x ∷ es) h =
    subst (λ j. Numbered epoch j (drop n es)) (omega arith) (Numbered-drop epoch (suc k) n es h.1)

append_full :
    (c : ℕ) (e : Event) (h : List Event)
    → length h ≡ suc c
    → append_history (suc c) e h ≡ drop 1 h ++ (e ∷ [])
unfolding append_history
append_full c e h q = ground arith

append_room :
    (c : ℕ) (e : Event) (h : List Event)
    → length h < suc c
    → append_history (suc c) e h ≡ h ++ (e ∷ [])
unfolding append_history
append_room c e h q = ground arith

append_none : (e : Event) (h : List Event) → append_history 0 e h ≡ h
unfolding append_history
append_none e h = refl

none_dropped : (c n : ℕ) → leb (suc c) n ≡ false → n - suc c ≡ 0
none_dropped c n room = ground arith

none_dropped_next : (c n : ℕ) → leb (suc c) n ≡ false → suc n - suc c ≡ 0
none_dropped_next c n room = ground arith

-- A history that is the end of the log, up to its capacity, is so again with an event behind it.
pub append_history-drop :
    (capacity : ℕ) (e : Event) (log : List Event)
    → append_history capacity e (drop (length log - capacity) log)
      ≡ drop (suc (length log) - capacity) (log ++ (e ∷ []))
append_history-drop zero e log =
    append_none e _
    ∙ drop-all (length log - 0) log (omega arith)
    ∙ sym (
        drop-all (suc (length log) - 0) (log ++ (e ∷ []))
          (omega (arith, length-append log (e ∷ []))))
append_history-drop (suc c) e log = elim (Bool-cases (leb (suc c) (length log))) [
  | inl full ↦
      let k = length log - suc c in
      append_full c e (drop k log) (ground (arith, full, length-drop k log))
      ∙ ap (λ xs. xs ++ (e ∷ [])) (drop-drop 1 k log ∙ ap (λ n. drop n log) (ground (arith, full)))
      ∙ sym (drop-append_le (suc (length log) - suc c) log (e ∷ []) (omega arith))
  | inr room ↦
      append_room c e _ (ground (arith, room, length-drop (length log - suc c) log))
      ∙ ap (λ n. drop n log ++ (e ∷ [])) (none_dropped c (length log) room)
      ∙ ap (λ n. drop n (log ++ (e ∷ []))) (sym (none_dropped_next c (length log) room))
]

missed-cons :
    (epoch account : String) (s k : ℕ) (e : Event) (es : List Event)
    → IsEpoch epoch
    → k < 2 ^ 64
    → e.id ≡ cursor epoch k
    → missed account s (e ∷ es) ≡ (
        if ltb s k && subscriber_matches account e
        then e ∷ missed account s es
        else missed account s es)
unfolding missed
missed-cons epoch account s k e es i b q =
    let p = ap parse_cursor q ∙ parse_cursor-cursor epoch k i b in ground (arith, p)

missed_nil : (account : String) (s : ℕ) → missed account s [] ≡ []
unfolding missed
missed_nil account s = refl

if_keep :
    (p : Event → Bool) (e : Event) (es : List Event)
    → (if p e then e ∷ keep p es else keep p es) ≡ keep p (e ∷ es)
if_keep p e es = ground arith

sooner_kept :
    (account : String) (s k : ℕ) (e : Event) (es : List Event)
    → ltb s (suc k) ≡ true
    → missed account s es ≡ keep (subscriber_matches account) (drop (s - suc k) es)
    → (if subscriber_matches account e then e ∷ missed account s es else missed account s es)
      ≡ keep (subscriber_matches account) (drop (s - k) (e ∷ es))
sooner_kept account s k e es later ih =
    let p = subscriber_matches account in
    let none_left : s - suc k ≡ 0 = ground (arith, later) in
    let none_here : s - k ≡ 0 = ground (arith, later) in
    ap (λ xs. if p e then e ∷ xs else xs) (ih ∙ ap (λ n. keep p (drop n es)) none_left)
    ∙ if_keep p e es
    ∙ ap (λ n. keep p (drop n (e ∷ es))) (sym none_here)

-- Of numbered events, those behind a sequence number that a subscriber asks for are missed.
pub missed-drop :
    (epoch account : String) (s k : ℕ) (es : List Event)
    → IsEpoch epoch
    → Numbered epoch (suc k) es
    → k + length es < 2 ^ 64
    → missed account s es ≡ keep (subscriber_matches account) (drop (s - k) es)
missed-drop epoch account s k [] i h b =
    missed_nil account s ∙ ap (keep (subscriber_matches account)) (sym (drop-nil (s - k)))
missed-drop epoch account s k (e ∷ es) i h b =
    let ih = missed-drop epoch account s (suc k) es i h.1 (omega (arith, b)) in
    missed-cons epoch account s (suc k) e es i (omega (arith, b)) h.0
    ∙ elim (Bool-cases (ltb s (suc k))) [
      | inl later ↦ rw later (sooner_kept account s k e es later ih)
      | inr sooner ↦
          let next : suc (s - suc k) ≡ s - k = ground (arith, sooner) in
          rw sooner (ih ∙ ap (λ n. keep (subscriber_matches account) (drop n (e ∷ es))) next)
    ]
