-- ===== src/Tests/Events.antt =====
-- Tests of the event hub.
use ti_relay_trader.Prelude.{
  ◌≤◌, ◌<◌, ◌^◌, suc, String, ◌≡◌, refl, true, false, ◌&&◌, some, List, [], ◌∷◌, map, length, leb,
  str_eq, arith, if◌then◌else◌,
}
use ti_relay_trader.Prelude.Int.{pos}
use ti_relay_trader.Text.{is_space, trim_space}
use ti_relay_trader.Text.Decimal.{itoa}
use ti_relay_trader.Time.{unset}
use ti_relay_trader.Events.Cursor.{cursor, parse_cursor}
use ti_relay_trader.Events.Cursor.RoundTrip.{IsEpoch, parse_cursor-cursor}
use ti_relay_trader.Events.Hub.{
  Event, Hub, Subscriber, no_data, new_hub, publish, subscribe_from, unsubscribe, resume_from,
  normalize_account_ids, normalize_event, append_history, offer, subscriber_matches,
  slow_consumer_gap,
}
use ti_relay_trader.Events.Hub.Log.{
  Call, publishing, subscribing, unsubscribing, run, IsLogged, run-IsLogged,
}
use ti_relay_trader.Events.Hub.Replay.{Replayed, subscribe-replay, resume-refused}
use ti_relay_trader.Events.Hub.Delivery.{
  Turn, offering, reading, offered, follow, Follows, follow-Follows,
}
use ti_relay_trader.Samples.{noon}

abbrev sample_epoch : String
sample_epoch = "18f-1"

sample-IsEpoch : IsEpoch sample_epoch
unfolding is_space
sample-IsEpoch = record { given = refl; ink = (refl, (refl, (refl, (refl, (refl, tt))))) }

abbrev event : String → Event
event account = record {
  id = "";
  event_type = "order.changed";
  account_ids = account ∷ [];
  time = unset;
  source = "";
  stream = "";
  last_stream_id = "";
  event_data = no_data;
}

abbrev calls : List Call
calls =
    publishing noon (event "acct")
    ∷ subscribing "acct" (pos 8) ""
    ∷ publishing noon (event "other")
    ∷ publishing noon (event "acct")
    ∷ unsubscribing 1
    ∷ []

abbrev log : List Event
log = (run calls (new_hub sample_epoch (pos 2))).0

abbrev hub : Hub
hub = (run calls (new_hub sample_epoch (pos 2))).1

log-few : suc (length log) < 2 ^ 64
unfolding run publish subscribe_from unsubscribe new_hub
log-few = omega arith

-- After three published events, a history that has room for two begins with the second.
oldest_kept : (resume_from "acct" "" hub).oldest_cursor ≡ "evt-18f-1-2"
unfolding run publish subscribe_from unsubscribe new_hub resume_from normalize_account_ids
    normalize_event append_history cursor itoa trim_space
oldest_kept = refl

parse_cursor-cursor_example : parse_cursor (cursor sample_epoch 7) ≡ some (sample_epoch, 7)
parse_cursor-cursor_example = parse_cursor-cursor sample_epoch 7 sample-IsEpoch (omega arith)

run-IsLogged_example : IsLogged sample_epoch 2 log hub
run-IsLogged_example = run-IsLogged sample_epoch 2 calls (omega (arith, log-few))

one-sent : 1 ≤ length log
unfolding run publish subscribe_from unsubscribe new_hub
one-sent = omega arith

subscribe-replay_example :
    Replayed 2 log
      (trim_space "acct")
      1
      (subscribe_from "acct" (pos 8) (cursor sample_epoch 1) hub).1
subscribe-replay_example =
    subscribe-replay sample_epoch 2 calls "acct" (pos 8) 1 sample-IsEpoch log-few one-sent

restarted-IsEpoch : IsEpoch "18f-2"
unfolding is_space
restarted-IsEpoch = record { given = refl; ink = (refl, (refl, (refl, (refl, (refl, tt))))) }

restarted :
    (str_eq "18f-2" (new_hub sample_epoch (pos 2)).epoch
      && leb 5 (new_hub sample_epoch (pos 2)).next_event_id)
    ≡ false
unfolding new_hub
restarted = refl

resume-refused_example :
    let r = resume_from "acct" (cursor "18f-2" 5) (new_hub sample_epoch (pos 2)) in
    (r.status ≡ "gap")
    × (r.reason ≡ (
        if str_eq "18f-2" (new_hub sample_epoch (pos 2)).epoch
        then "cursor_ahead"
        else "server_restart"))
    × (r.events ≡ [])
    × (r.reconciliation_required ≡ true)
resume-refused_example =
    resume-refused "18f-2" "acct" 5 (new_hub sample_epoch (pos 2)) restarted-IsEpoch (omega arith)
      restarted

abbrev turns : List Turn
turns =
    offering (event "acct")
    ∷ offering (event "other")
    ∷ offering (event "acct")
    ∷ reading
    ∷ offering (event "acct")
    ∷ offering (event "acct")
    ∷ offering (event "acct")
    ∷ []

follow-Follows_example :
    let sub : Subscriber = record { account_id = "acct"; buffer = 2; channel = [] } in
    Follows "acct" 2 (offered turns) (follow turns sub).0 (follow turns sub).1
follow-Follows_example = follow-Follows "acct" 2 turns (omega arith)

-- The last two of the five events that match are a gap and the one behind it.
turns-gap :
    let sub : Subscriber = record { account_id = "acct"; buffer = 2; channel = [] } in
    map (λ e. e.event_type) (follow turns sub).1.channel ≡ "relay.gap" ∷ "order.changed" ∷ []
unfolding follow offer subscriber_matches slow_consumer_gap
turns-gap = refl
