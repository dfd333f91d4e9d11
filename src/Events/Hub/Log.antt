-- ===== src/Events/Hub/Log.antt =====
-- Runs of calls of the hub of internal/events/hub.go, and what a client that comes back is given.
use mathlib.Core.List.{append-nil, append_assoc}
use ti_relay_trader.Prelude.{
  ℕ, suc, ◌+◌, ◌-◌, ◌%◌, ◌^◌, ◌<◌, String, ◌≡◌, refl, sym, ap, ◌∙◌, List, [], ◌∷◌, ◌++◌, length,
  drop, length-append, drop-nil, if◌then◌else◌, arith, subst,
}
use ti_relay_trader.Prelude.Int.{ℤ, pos, leb_ℤ, pos_part}
use ti_relay_trader.Time.{Time}
use ti_relay_trader.Events.Cursor.{cursor}
use ti_relay_trader.Events.Hub.{
  Event, Hub, new_hub, publish, subscribe_from, unsubscribe, append_history,
}
use ti_relay_trader.Events.Hub.History.{Numbered, Numbered-snoc, append_history-drop}

-- The calls that change a hub.
pub data Call : Type 0 where
  publishing : Time → Event → Call
  subscribing : String → ℤ → String → Call
  unsubscribing : ℕ → Call

-- The calls one after another: the events as they were published, and the hub in the end.
unfoldable pub run : List Call → Hub → List Event × Hub
run [] hub = ([], hub)
run (publishing now event ∷ calls) hub =
    let (numbered, hub') = publish now event hub in
    let (log, hub'') = run calls hub' in (numbered ∷ log, hub'')
run (subscribing account buffer cursor ∷ calls) hub =
    run calls (subscribe_from account buffer cursor hub).2
run (unsubscribing id ∷ calls) hub = run calls (unsubscribe id hub)

-- The hub has numbered the events of the log from 1 on, and its history is the end of the log.
pub record IsLogged (epoch : String) (capacity : ℕ) (log : List Event) (hub : Hub) : Type 0 where
  pub epoch_kept : hub.epoch ≡ epoch
  pub capacity_kept : hub.replay_capacity ≡ capacity
  pub counted : hub.next_event_id ≡ length log
  pub kept : hub.history ≡ drop (length log - capacity) log
  pub numbered : Numbered epoch 1 log

publish-IsLogged :
    (epoch : String) (capacity : ℕ) (log : List Event) (hub : Hub) (now : Time) (event : Event)
    → suc (length log) < 2 ^ 64
    → IsLogged epoch capacity log hub
    → IsLogged epoch capacity (log ++ ((publish now event hub).0 ∷ [])) (publish now event hub).1
unfolding publish
publish-IsLogged epoch capacity log hub now event b h =
    let e : Event = (publish now event hub).0 in
    let count : suc hub.next_event_id % 2 ^ 64 ≡ suc (length log) = grind (arith, h.counted) in
    let longer : suc (length log) ≡ length (log ++ (e ∷ [])) =
      omega (arith, length-append log (e ∷ [])) in
    record {
      epoch_kept = h.epoch_kept;
      capacity_kept = h.capacity_kept;
      counted = count ∙ longer;
      kept =
          ap (λ c. append_history c e hub.history) h.capacity_kept
          ∙ ap (append_history capacity e) h.kept
          ∙ append_history-drop capacity e log
          ∙ ap (λ n. drop (n - capacity) (log ++ (e ∷ []))) longer;
      numbered = Numbered-snoc epoch 1 log e h.numbered (
          ap (λ x. cursor x (suc hub.next_event_id % 2 ^ 64)) h.epoch_kept
          ∙ ap (cursor epoch) (count ∙ omega arith));
    }

subscribe-IsLogged :
    (epoch : String) (capacity : ℕ) (log : List Event) (hub : Hub) (account : String) (buffer : ℤ)
    (last : String)
    → IsLogged epoch capacity log hub
    → IsLogged epoch capacity log (subscribe_from account buffer last hub).2
unfolding subscribe_from
subscribe-IsLogged epoch capacity log hub account buffer last h = record {
  epoch_kept = h.epoch_kept;
  capacity_kept = h.capacity_kept;
  counted = h.counted;
  kept = h.kept;
  numbered = h.numbered;
}

unsubscribe-IsLogged :
    (epoch : String) (capacity : ℕ) (log : List Event) (hub : Hub) (id : ℕ)
    → IsLogged epoch capacity log hub
    → IsLogged epoch capacity log (unsubscribe id hub)
unfolding unsubscribe
unsubscribe-IsLogged epoch capacity log hub id h = record {
  epoch_kept = h.epoch_kept;
  capacity_kept = h.capacity_kept;
  counted = h.counted;
  kept = h.kept;
  numbered = h.numbered;
}

run-IsLogged_from :
    (epoch : String) (capacity : ℕ) (log : List Event) (calls : List Call) (hub : Hub)
    → length log + length (run calls hub).0 < 2 ^ 64
    → IsLogged epoch capacity log hub
    → IsLogged epoch capacity (log ++ (run calls hub).0) (run calls hub).1
unfolding run
run-IsLogged_from epoch capacity log [] hub b h =
    subst (λ l. IsLogged epoch capacity l hub) (sym (append-nil log)) h
run-IsLogged_from epoch capacity log (publishing now event ∷ calls) hub b h =
    let e : Event = (publish now event hub).0 in
    let hub' : Hub = (publish now event hub).1 in
    subst (λ l. IsLogged epoch capacity l (run calls hub').1)
      (append_assoc log (e ∷ []) (run calls hub').0)
      (run-IsLogged_from epoch capacity (log ++ (e ∷ [])) calls hub'
        (omega (arith, b, length-append log (e ∷ [])))
        (publish-IsLogged epoch capacity log hub now event (omega (arith, b)) h))
run-IsLogged_from epoch capacity log (subscribing account buffer last ∷ calls) hub b h =
    run-IsLogged_from epoch capacity log calls (subscribe_from account buffer last hub).2 b
      (subscribe-IsLogged epoch capacity log hub account buffer last h)
run-IsLogged_from epoch capacity log (unsubscribing id ∷ calls) hub b h =
    run-IsLogged_from epoch capacity log calls (unsubscribe id hub) b
      (unsubscribe-IsLogged epoch capacity log hub id h)

new_capacity : (n : ℕ) → (if leb_ℤ (pos n) (pos 0) then 0 else pos_part (pos n)) ≡ n
new_capacity n = ground arith

new_hub-IsLogged :
    (epoch : String) (capacity : ℕ) → IsLogged epoch capacity [] (new_hub epoch (pos capacity))
unfolding new_hub
new_hub-IsLogged epoch capacity = record {
  epoch_kept = refl;
  capacity_kept = new_capacity capacity;
  counted = refl;
  kept = sym (drop-nil (0 - capacity));
  numbered = tt;
}

-- After any calls on a new hub, fewer than 2^64 of them published, the events published have the
-- cursors of the sequence numbers from 1 on, the hub counts them, and its history is the end of them
-- that its capacity has room for.
pub run-IsLogged :
    (epoch : String) (capacity : ℕ) (calls : List Call)
    → length (run calls (new_hub epoch (pos capacity))).0 < 2 ^ 64
    → IsLogged epoch capacity
        (run calls (new_hub epoch (pos capacity))).0
        (run calls (new_hub epoch (pos capacity))).1
run-IsLogged epoch capacity calls b =
    run-IsLogged_from epoch capacity [] calls (new_hub epoch (pos capacity)) (omega (arith, b))
      (new_hub-IsLogged epoch capacity)
