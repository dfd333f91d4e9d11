-- ===== src/Sync/Positions.antt =====
-- The pages of positions: positionsFromReplyEnvelope and the branch of processReplyEnvelope for them, in
-- internal/redisstream/ledger_sync.go. The raw payloads of the rows are left out, and the decoding of
-- JSON is a parameter.
use Prim.Native.String.{◌++◌ as ◌++ₛ◌}
use ti_relay_trader.Prelude.{
  ℕ, ◌+◌, String, Bool, not, ◌&&◌, ◌||◌, List, [], ◌∷◌, if◌then◌else◌, str_eq,
}
use ti_relay_trader.Prelude.Int.{ℤ, pos, leb_ℤ}
use ti_relay_trader.Float64.{Float64, le_zero, Arithmetic}
use ti_relay_trader.Text.{is_empty}
use ti_relay_trader.Time.{Time, is_unset}
use ti_relay_trader.Errors.{Result, ok, err}
use ti_relay_trader.Streams.{action_account_positions}
use ti_relay_trader.Trading.Schema.{Position, Exchange}
use ti_relay_trader.Trading.Validation.{is_blank}
use ti_relay_trader.Ledger.Store.{Store, upsert_account}
use ti_relay_trader.Ledger.Positions.{upsert_position, delete_stale_positions, zero_float}
use ti_relay_trader.Sync.Envelope.{
  EntryEnvelope, account_from_envelope, normalize_account_id_from_routing,
}
use ti_relay_trader.Sync.Identifiers.{position_query_stale_cutoff, position_query_updated_at}
use ti_relay_trader.Sync.Progress.{Surroundings, Step, Progress, stopped, going, end, and_then}
use ti_relay_trader.Sync.Results.{LedgerProcessResult, words, note_account, skip, fail}

pub record PositionPayload : Type 0 where
  pub account_id : String
  pub symbol : String
  pub name : String
  pub exchange : String
  pub quantity : ℤ
  pub sellable_qty : ℤ
  pub initial_qty : ℤ
  pub today_qty : ℤ
  pub avg_cost : Float64
  pub total_cost : Float64
  pub avg_cost_source : String
  pub cost_complete : Bool
  pub last_price : Float64
  pub market_value : Float64
  pub unrealized_pnl : Float64
  pub day_unrealized_pnl : Float64
  pub settled_profit : Float64
  pub shareholder_id : String

-- What was read, or the text of the error.
pub data Read {ℓ} (A : Type ℓ) : Type ℓ where
  refused : String → Read A
  read : A → Read A

abbrev exchange_of : String → Exchange
exchange_of text =
    if str_eq text "SH"
    then Exchange.sh
    else if str_eq text "SZ"
    then Exchange.sz
    else if str_eq text "BJ"
    then Exchange.bj
    else Exchange.other text

-- reliablePositionMarketValue
unfoldable pub reliable_position_market_value : Arithmetic → PositionPayload → Float64
reliable_position_market_value a item =
    if leb_ℤ item.quantity (pos 0) || le_zero item.last_price
    then zero_float
    else a.times (a.of_int item.quantity) item.last_price

abbrev pub position_of : Arithmetic → EntryEnvelope → PositionPayload → Position
position_of a envelope item = record {
  account_id = item.account_id;
  trade_date = "";
  snapshot_type = "";
  symbol = item.symbol;
  name = item.name;
  exchange = exchange_of item.exchange;
  quantity = item.quantity;
  sellable_qty = item.sellable_qty;
  initial_qty = item.initial_qty;
  today_qty = item.today_qty;
  avg_cost = item.avg_cost;
  total_cost = item.total_cost;
  avg_cost_source = item.avg_cost_source;
  cost_complete = item.cost_complete;
  last_price = item.last_price;
  market_value = reliable_position_market_value a item;
  unrealized_pnl = item.unrealized_pnl;
  day_unrealized_pnl = item.day_unrealized_pnl;
  settled_profit = item.settled_profit;
  shareholder_id = item.shareholder_id;
  updated_at = envelope.produced_at;
}

abbrev missing : String → String
missing field = "position_page payload incomplete for ledger write: missing " ++ₛ field

-- The account of an item: its own, or the routing's.
abbrev pub routed : EntryEnvelope → PositionPayload → PositionPayload
routed envelope item =
    let named = if is_empty item.account_id then envelope.routing.account_id else item.account_id in
    record item { account_id = (normalize_account_id_from_routing named envelope).0 }

abbrev put_first : Position → Read (List Position) → Read (List Position)
put_first p (refused text) = refused text
put_first p (read ps) = read (p ∷ ps)

-- The loop of positionsFromReplyEnvelope
unfoldable pub positions_of_items :
    Arithmetic → EntryEnvelope → List PositionPayload → Read (List Position)
positions_of_items a envelope [] = read []
positions_of_items a envelope (i ∷ items) =
    let item = routed envelope i in
    let rest = positions_of_items a envelope items in
    if is_blank item.account_id
    then refused (missing "account_id")
    else if is_blank item.symbol
    then refused (missing "symbol")
    else if is_blank item.exchange
    then refused (missing "exchange")
    else put_first (position_of a envelope item) rest

abbrev pub read_items :
    Arithmetic → EntryEnvelope → Read (List PositionPayload) → Read (List Position)
read_items a envelope (refused text) = refused ("decode position_page payload: " ++ₛ text)
read_items a envelope (read items) = positions_of_items a envelope items

-- positionsFromReplyEnvelope
abbrev pub positions_from_reply_envelope :
    Arithmetic → (String → Read (List PositionPayload)) → EntryEnvelope → Read (List Position)
positions_from_reply_envelope a decode envelope = read_items a envelope (decode envelope.payload)

-- isCompletedPositionPage
abbrev pub is_completed_position_page : EntryEnvelope → Bool
is_completed_position_page e =
    (str_eq e.action action_account_positions || str_eq e.result_type "position_page")
    && str_eq e.status "completed"

abbrev pub upserted : LedgerProcessResult → Store → Result Store → Progress
upserted r s (err e) = stopped (fail e r) s
upserted r s (ok s') = going (record r { positions = r.positions + 1 }) s'

-- The loop over the positions of the page
unfoldable pub write_positions :
    Surroundings → Time → List Position → LedgerProcessResult → Store → Progress
write_positions w updated_at [] r s = going r s
write_positions w updated_at (p ∷ ps) r s =
    and_then
      (upserted (note_account p.account_id r) s
        (upsert_position w.database w.arithmetic w.clock p "query" updated_at s))
      (write_positions w updated_at ps)

abbrev pub account_written : LedgerProcessResult → Store → Result Store → Progress
account_written r s (err e) = stopped (fail e r) s
account_written r s (ok s') = going (record r { accounts = r.accounts + 1 }) s'

-- The account of the page, which is written first.
abbrev pub write_account :
    Surroundings → EntryEnvelope → String → LedgerProcessResult → Store → Progress
write_account w envelope account_id r s =
    if is_empty account_id
    then going r s
    else account_written r s
        (upsert_account w.database (account_from_envelope w.wall_clock envelope account_id) s)

abbrev pub deleted : LedgerProcessResult → Store → Result (Store × ℕ) → Progress
deleted r s (err e) = stopped (fail e r) s
deleted r s (ok (s', n)) = going (record r { stale_positions = r.stale_positions + n }) s'

-- The rows that the page did not write, if it is the last one.
abbrev pub delete_unwritten : EntryEnvelope → String → LedgerProcessResult → Store → Progress
delete_unwritten envelope account_id r s =
    let cutoff = position_query_stale_cutoff envelope in
    if is_completed_position_page envelope && not (is_empty account_id) && not (is_unset cutoff)
    then deleted r s (delete_stale_positions account_id cutoff s)
    else going r s

abbrev pub page_account : EntryEnvelope → List Position → String
page_account envelope [] = envelope.routing.account_id
page_account envelope (p ∷ ps) = p.account_id

unfoldable pub apply_positions :
    Surroundings → EntryEnvelope → List Position → LedgerProcessResult → Store → Progress
apply_positions w envelope ps r s =
    let account_id = page_account envelope ps in
    and_then (write_account w envelope account_id r s) (λ r s.
      and_then (write_positions w (position_query_updated_at envelope) ps r s)
        (delete_unwritten envelope account_id))

abbrev pub process_read :
    Surroundings → EntryEnvelope → LedgerProcessResult → Store → Read (List Position) → Step
process_read w envelope r s (refused text) = (skip (words text) r, s)
process_read w envelope r s (read ps) = end (apply_positions w envelope ps r s)

-- The branch of processReplyEnvelope for a page of positions
unfoldable pub process_position_page :
    Surroundings
    → (String → Read (List PositionPayload))
    → EntryEnvelope
    → LedgerProcessResult
    → Store
    → Step
process_position_page w decode envelope r s =
    process_read w envelope r s (positions_from_reply_envelope w.arithmetic decode envelope)
