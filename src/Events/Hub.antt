-- ===== src/Events/Hub.antt =====
-- Hub of internal/events/hub.go. The hub's mutex makes each call one step. A reader takes events from
-- its channel between the calls; one that takes some while a full channel is being drained takes a
-- part of what the drain throws away.
pub mod History
pub mod Log
pub mod Delivery
pub mod Replay
use ti_relay_trader.Prelude.{
  ℕ, suc, ◌+◌, ◌%◌, ◌^◌, String, Bool, true, false, not, ◌&&◌, ◌||◌, Option, none, some, List, [],
  ◌∷◌, ◌++◌, length, drop, keep, map, ltb, leb, ◌==◌, if◌then◌else◌, str_eq,
}
use ti_relay_trader.Prelude.Int.{ℤ, pos, leb_ℤ, pos_part}
use ti_relay_trader.Text.{is_empty, trim_space, one_of}
use ti_relay_trader.Time.{Time, is_unset, in_business_location}
use ti_relay_trader.Events.Cursor.{cursor, parse_cursor}

-- Event.Data: nothing, a publisher's value by its JSON text, or the data of a gap by its cursor.
pub data EventData : Type 0 where
  no_data : EventData
  given : String → EventData
  slow_consumer : String → EventData

pub record Event : Type 0 where
  pub id : String
  pub event_type : String
  pub account_ids : List String
  pub time : Time
  pub source : String
  pub stream : String
  pub last_stream_id : String
  pub event_data : EventData

abbrev pub type_gap : String
type_gap = "relay.gap"

abbrev pub default_replay_capacity : ℕ
default_replay_capacity = 2048

-- A channel's buffer holds `channel`, the oldest event first.
pub record Subscriber : Type 0 where
  pub account_id : String
  pub buffer : ℕ
  pub channel : List Event

pub record Hub : Type 0 where
  pub epoch : String
  pub next_sub_id : ℕ
  pub next_event_id : ℕ
  pub replay_capacity : ℕ
  pub history : List Event
  pub subscribers : List (ℕ × Subscriber)

-- NewHubWithReplayCapacity
unfoldable pub new_hub : String → ℤ → Hub
new_hub epoch capacity = record {
  epoch = epoch;
  next_sub_id = 0;
  next_event_id = 0;
  replay_capacity = if leb_ℤ capacity (pos 0) then 0 else pos_part capacity;
  history = [];
  subscribers = [];
}

-- The ids that are new to those seen, trimmed.
normalize_from : List String → List String → List String
normalize_from seen [] = []
normalize_from seen (a ∷ rest) =
    let id = trim_space a in
    let skipped = normalize_from seen rest in
    let taken = normalize_from (id ∷ seen) rest in
    if is_empty id then skipped else if one_of id seen then skipped else id ∷ taken

-- normalizeAccountIDs
unfoldable pub normalize_account_ids : List String → List String
unfolding normalize_from
normalize_account_ids ids = normalize_from [] ids

-- subscriberMatches
unfoldable pub subscriber_matches : String → Event → Bool
subscriber_matches account event =
    is_empty account || leb (length event.account_ids) 0 || one_of account event.account_ids

-- slowConsumerGap
unfoldable pub slow_consumer_gap : String → Event → Event
slow_consumer_gap account current = record {
  id = current.id;
  event_type = type_gap;
  account_ids = if is_empty account then current.account_ids else account ∷ [];
  time = current.time;
  source = "relay-api";
  stream = "";
  last_stream_id = "";
  event_data = slow_consumer current.id;
}

-- One round of Publish's loop: a channel that is full is drained, and a gap takes the place of what
-- was in it.
unfoldable pub offer : Event → Subscriber → Subscriber
offer event sub =
    if subscriber_matches sub.account_id event
    then if ltb (length sub.channel) sub.buffer
      then record sub { channel = sub.channel ++ (event ∷ []) }
      else record sub { channel = slow_consumer_gap sub.account_id event ∷ [] }
    else sub

-- appendHistoryLocked
unfoldable pub append_history : ℕ → Event → List Event → List Event
append_history capacity event history =
    if leb capacity 0
    then history
    else if length history == capacity
    then drop 1 history ++ (event ∷ [])
    else history ++ (event ∷ [])

-- The event as it is published, but for its id.
unfoldable pub normalize_event : Time → Event → Event
normalize_event now event = record event {
  event_type = if is_empty event.event_type then "relay.event" else event.event_type;
  time = if is_unset event.time then now else in_business_location event.time;
  account_ids = normalize_account_ids event.account_ids;
}

abbrev pub offer_all : Event → List (ℕ × Subscriber) → List (ℕ × Subscriber)
offer_all event [] = []
offer_all event ((i, sub) ∷ rest) = (i, offer event sub) ∷ offer_all event rest

-- Hub.Publish, at the time that timeutil.Now gives; nextEventID is a uint64.
unfoldable pub publish : Time → Event → Hub → Event × Hub
publish now event hub =
    let next = suc hub.next_event_id % 2 ^ 64 in
    let numbered = record (normalize_event now event) { id = cursor hub.epoch next } in
    (
      numbered,
      record hub {
        next_event_id = next;
        history = append_history hub.replay_capacity numbered hub.history;
        subscribers = offer_all numbered hub.subscribers;
      },
    )

pub record Resume : Type 0 where
  pub requested_cursor : String
  pub current_cursor : String
  pub oldest_cursor : String
  pub status : String
  pub reason : String
  pub events : List Event
  pub reconciliation_required : Bool

abbrev oldest : List Event → String
oldest [] = ""
oldest (e ∷ es) = e.id

abbrev sequence_of : Option (String × ℕ) → ℕ
sequence_of none = 0
sequence_of (some (epoch, n)) = n

-- The sequence number of the first event that is kept, or of the next one.
abbrev pub earliest_sequence : ℕ → List Event → ℕ
earliest_sequence next [] = suc next % 2 ^ 64
earliest_sequence next (e ∷ es) = sequence_of (parse_cursor e.id)

abbrev is_after : ℕ → Option (String × ℕ) → Bool
is_after sequence none = false
is_after sequence (some (epoch, n)) = ltb sequence n

-- The events of the history behind the sequence number that the subscriber asks for.
unfoldable pub missed : String → ℕ → List Event → List Event
missed account sequence history =
    keep (λ e. is_after sequence (parse_cursor e.id) && subscriber_matches account e) history

abbrev pub gap : Resume → String → Resume
gap resume reason = record resume { status = "gap"; reason = reason }

abbrev resume_at : Hub → String → Resume → Option (String × ℕ) → Resume
resume_at hub account resume none = gap resume "invalid_cursor"
resume_at hub account resume (some (epoch, sequence)) =
    if not (str_eq epoch hub.epoch)
    then gap resume "server_restart"
    else if ltb hub.next_event_id sequence
    then gap resume "cursor_ahead"
    else if ltb (suc sequence % 2 ^ 64) (earliest_sequence hub.next_event_id hub.history)
    then gap resume "cursor_expired"
    else record resume { status = "resumed"; events = missed account sequence hub.history }

abbrev fresh : String → Hub → Resume
fresh requested hub = record {
  requested_cursor = requested;
  current_cursor = cursor hub.epoch hub.next_event_id;
  oldest_cursor = oldest hub.history;
  status = "fresh";
  reason = "";
  events = [];
  reconciliation_required = false;
}

-- resumeLocked
unfoldable pub resume_from : String → String → Hub → Resume
resume_from account requested hub =
    if is_empty requested
    then fresh requested hub
    else resume_at hub account (record (fresh requested hub) { reconciliation_required = true })
        (parse_cursor requested)

-- Hub.SubscribeFrom: the id of the subscription, what there is to resume, and the hub with it.
unfoldable pub subscribe_from : String → ℤ → String → Hub → ℕ × Resume × Hub
subscribe_from account buffer last_event_id hub =
    let id = suc hub.next_sub_id % 2 ^ 64 in
    let sub : Subscriber = record {
      account_id = trim_space account;
      buffer = if leb_ℤ buffer (pos 0) then 32 else pos_part buffer;
      channel = [];
    } in
    (
      id,
      resume_from (trim_space account) (trim_space last_event_id) hub,
      record hub { next_sub_id = id; subscribers = hub.subscribers ++ ((id, sub) ∷ []) },
    )

remove_id : ℕ → List (ℕ × Subscriber) → List (ℕ × Subscriber)
remove_id id [] = []
remove_id id ((i, sub) ∷ rest) =
    let others = remove_id id rest in if i == id then others else (i, sub) ∷ others

-- The function that SubscribeFrom returns to end the subscription.
unfoldable pub unsubscribe : ℕ → Hub → Hub
unfolding remove_id
unsubscribe id hub = record hub { subscribers = remove_id id hub.subscribers }

-- Hub.CurrentCursor
unfoldable pub current_cursor : Hub → String
current_cursor hub = cursor hub.epoch hub.next_event_id
