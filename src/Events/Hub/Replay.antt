-- ===== src/Events/Hub/Replay.antt =====
-- What a client that comes back to the hub of internal/events/hub.go is given.
use ti_relay_trader.Prelude.{
  ℕ, suc, ◌+◌, ◌-◌, ◌%◌, ◌^◌, ◌≤◌, ◌<◌, String, ◌≡◌, refl, sym, ap, ◌∙◌, true, false, ◌&&◌, some,
  List, [], ◌∷◌, length, drop, keep, length-drop, drop-drop, arith, subst, leb, ltb, Bool-cases,
  ◌⊎◌, inl, inr, str_eq, eq_refl, if◌then◌else◌,
}
use ti_relay_trader.Prelude.Int.{ℤ, pos}
use ti_relay_trader.Text.{trim_space}
use ti_relay_trader.Events.Cursor.{cursor, parse_cursor}
use ti_relay_trader.Events.Cursor.RoundTrip.{
  IsEpoch, parse_cursor-cursor, trim_space-cursor, cursor-given,
}
use ti_relay_trader.Events.Hub.{
  Event, Hub, new_hub, subscribe_from, Resume, resume_from, resume_at, gap, missed,
  earliest_sequence, sequence_of, fresh, subscriber_matches,
}
use ti_relay_trader.Events.Hub.History.{Numbered, Numbered-drop, missed-drop}
use ti_relay_trader.Events.Hub.Log.{Call, run, IsLogged, run-IsLogged}

earliest-Numbered :
    (epoch : String) (k next : ℕ) (es : List Event)
    → IsEpoch epoch
    → suc next < 2 ^ 64
    → k + length es ≡ next
    → Numbered epoch (suc k) es
    → earliest_sequence next es ≡ suc k
earliest-Numbered epoch k next [] i b q h = grind (arith, b, q)
earliest-Numbered epoch k next (e ∷ es) i b q h =
    ap sequence_of (ap parse_cursor h.0 ∙ parse_cursor-cursor epoch (suc k) i (omega (arith, b, q)))

ltb-suc : (s k : ℕ) → ltb (suc s) (suc k) ≡ ltb s k
ltb-suc s k = ground arith

resume_known :
    (account epoch : String) (hub : Hub) (resume : Resume) (s k : ℕ)
    → epoch ≡ hub.epoch
    → s ≤ hub.next_event_id
    → suc hub.next_event_id < 2 ^ 64
    → earliest_sequence hub.next_event_id hub.history ≡ suc k
    → resume_at hub account resume (some (epoch, s)) ≡ (
        if ltb s k
        then gap resume "cursor_expired"
        else record resume { status = "resumed"; events = missed account s hub.history })
resume_known account epoch hub resume s k p l b q =
    let same : str_eq epoch hub.epoch ≡ true = ap (str_eq epoch) (sym p) ∙ eq_refl epoch in
    let not_ahead : ltb hub.next_event_id s ≡ false = ground (arith, l) in
    let next : ltb (suc s % 2 ^ 64) (suc k) ≡ ltb s k =
      ap (λ n. ltb n (suc k)) (grind (arith, l, b)) ∙ ltb-suc s k in
    rw same (rw not_ahead (rw q (rw next refl)))

-- The events of the history behind a sequence number are those of the log, where the history still
-- has the one that follows it.
missed_kept :
    (epoch account : String) (capacity s : ℕ) (log : List Event) (hub : Hub)
    → IsEpoch epoch
    → length log < 2 ^ 64
    → length log - capacity ≤ s
    → IsLogged epoch capacity log hub
    → missed account s hub.history ≡ keep (subscriber_matches account) (drop s log)
missed_kept epoch account capacity s log hub i b later h =
    let k = length log - capacity in
    let es = drop k log in
    let numbered : Numbered epoch (suc k) es =
      subst (λ n. Numbered epoch n es) (omega arith) (Numbered-drop epoch 1 k log h.numbered) in
    ap (missed account s) h.kept
    ∙ missed-drop epoch account s k es i numbered (omega (arith, b, length-drop k log))
    ∙ ap (keep (subscriber_matches account))
        (drop-drop (s - k) k log ∙ ap (λ n. drop n log) (omega (arith, later)))

-- What a client is given that asks for the events behind the sequence number s.
abbrev pub Replayed : ℕ → List Event → String → ℕ → Resume → Type 0
Replayed capacity log account s r =
    (length log ≤ s + capacity
      × (r.status ≡ "resumed")
      × (r.events ≡ keep (subscriber_matches account) (drop s log)))
    ⊎ (s + capacity < length log
        × (r.status ≡ "gap")
        × (r.reason ≡ "cursor_expired")
        × (r.events ≡ []))

resume-cursor :
    (epoch account : String) (s : ℕ) (hub : Hub)
    → IsEpoch epoch
    → s < 2 ^ 64
    → resume_from account (cursor epoch s) hub
      ≡ resume_at hub account
          (record (fresh (cursor epoch s) hub) { reconciliation_required = true })
          (some (epoch, s))
unfolding resume_from
resume-cursor epoch account s hub i b =
    rw (cursor-given epoch s) (rw (parse_cursor-cursor epoch s i b) refl)

resume-IsLogged :
    (epoch account : String) (capacity s : ℕ) (log : List Event) (hub : Hub)
    → IsEpoch epoch
    → suc (length log) < 2 ^ 64
    → s ≤ length log
    → IsLogged epoch capacity log hub
    → Replayed capacity log account s (resume_from account (cursor epoch s) hub)
resume-IsLogged epoch account capacity s log hub i b l h =
    let k = length log - capacity in
    let first : earliest_sequence hub.next_event_id hub.history ≡ suc k =
      ap (earliest_sequence hub.next_event_id) h.kept
      ∙ earliest-Numbered epoch k hub.next_event_id (drop k log) i (omega (arith, b, h.counted))
          (omega (arith, h.counted, length-drop k log))
          (subst (λ n. Numbered epoch n (drop k log)) (omega arith)
            (Numbered-drop epoch 1 k log h.numbered)) in
    let known =
      resume-cursor epoch account s hub i (omega (arith, b, l))
      ∙ resume_known account epoch hub
          (record (fresh (cursor epoch s) hub) { reconciliation_required = true }) s k
          (sym h.epoch_kept) (omega (arith, l, h.counted)) (omega (arith, b, h.counted)) first in
    subst (Replayed capacity log account s) (sym known) (elim (Bool-cases (ltb s k)) [
      | inl expired ↦ rw expired (inr (ground (arith, expired), refl, refl, refl))
      | inr in_time ↦ rw in_time (
          inl (
            ground (arith, in_time),
            refl,
            missed_kept epoch account capacity s log hub i (omega (arith, b))
                (ground (arith, in_time)) h,
          ))
    ])

-- A subscriber with the cursor of the sequence number s, given to a new hub after any calls that
-- published at least s and fewer than 2^64 - 1 events, resumes: it is given each event published behind s
-- that matches its account, in order, unless more than the capacity of the hub were published behind
-- s, and then a gap with the reason cursor_expired.
pub subscribe-replay :
    (epoch : String) (capacity : ℕ) (calls : List Call) (account : String) (buffer : ℤ) (s : ℕ)
    → IsEpoch epoch
    → let (log, hub) = run calls (new_hub epoch (pos capacity)) in
      suc (length log) < 2 ^ 64
      → s ≤ length log
      → Replayed capacity log
          (trim_space account)
          s
          (subscribe_from account buffer (cursor epoch s) hub).1
unfolding subscribe_from
subscribe-replay epoch capacity calls account buffer s i b l =
    let ran = run calls (new_hub epoch (pos capacity)) in
    subst
      (λ c.
        Replayed capacity ran.0 (trim_space account) s (resume_from (trim_space account) c ran.1))
      (sym (trim_space-cursor epoch s i))
      (resume-IsLogged epoch (trim_space account) capacity s ran.0 ran.1 i b l
        (run-IsLogged epoch capacity calls (omega (arith, b))))

refused :
    (account epoch : String) (hub : Hub) (resume : Resume) (s : ℕ)
    → (str_eq epoch hub.epoch && leb s hub.next_event_id) ≡ false
    → resume_at hub account resume (some (epoch, s))
      ≡ gap resume (if str_eq epoch hub.epoch then "cursor_ahead" else "server_restart")
refused account epoch hub resume s foreign = elim (Bool-cases (str_eq epoch hub.epoch)) [
  | inl ours ↦
      let ahead : ltb hub.next_event_id s ≡ true = ground (arith, ours, foreign) in
      rw ours (rw ahead refl)
  | inr theirs ↦ rw theirs refl
]

-- A cursor of another hub, or of a sequence number that the hub has not reached yet, is answered in
-- any state of the hub by a gap without events that asks for reconciliation; the reason tells the
-- two cases apart.
pub resume-refused :
    (epoch account : String) (s : ℕ) (hub : Hub)
    → IsEpoch epoch
    → s < 2 ^ 64
    → (str_eq epoch hub.epoch && leb s hub.next_event_id) ≡ false
    → let r = resume_from account (cursor epoch s) hub in
      (r.status ≡ "gap")
      × (r.reason ≡ (if str_eq epoch hub.epoch then "cursor_ahead" else "server_restart"))
      × (r.events ≡ [])
      × (r.reconciliation_required ≡ true)
resume-refused epoch account s hub i b foreign =
    let fresh' = record (fresh (cursor epoch s) hub) { reconciliation_required = true } in
    let p = resume-cursor epoch account s hub i b ∙ refused account epoch hub fresh' s foreign in
    (
      ap (λ r. r.status) p,
      ap (λ r. r.reason) p,
      ap (λ r. r.events) p,
      ap (λ r. r.reconciliation_required) p,
    )
