-- ===== src/Itch/Cases.antt =====
-- The cases of the `match` in `ITCHParser.parse_msg`, each from its length test on.
use nasdaq_itch_parser_order.Prelude.{
  ℕ, Bool, true, false, not, ◌||◌, Option, none, some, List, [], ◌∷◌, get_elem?, ◌==◌,
  if◌then◌else◌, slice,
}
use nasdaq_itch_parser_order.Bytes.{int_from_bytes}
use nasdaq_itch_parser_order.Utf8.{decode}
use nasdaq_itch_parser_order.Structs.{
  Outcome, ret, raised, ◌>>=◌, index_error, unbound_local_error, ModuleResult, ok, fail, ErrorCode,
  unexpected_msg_byte_length, invalid_event_code, invalid_trading_action, invalid_market_code,
  invalid_op_halt_code, invalid_buy_sell_indicator, Str, ItchMsg, SystemEventCode, TradeActionCode,
  system_event_msg, directory_msg, trade_action_msg, op_halt_msg, add_order_msg, reduce_order_msg,
  delete_order_msg, replace_order_msg, ignored_msg,
}

-- the results that the generator yields
abbrev pub Results : Type 0
Results = List (ModuleResult ItchMsg)

-- The variables that are set before the `match`. `stock_symbol` is unbound where the bytes are not
-- UTF-8: the exception is passed over, and a later use raises.
pub record Common : Type 0 where
  pub stock_locate : ℕ
  pub stock_symbol : Outcome Str
  pub order_id : ℕ

abbrev pub or_unbound : Option Str → Outcome Str
or_unbound none = raised unbound_local_error
or_unbound (some s) = ret s

unfoldable pub symbol_of : List ℕ → Outcome Str
symbol_of bytes = or_unbound (decode bytes)

abbrev pub or_index_error : Option ℕ → Outcome ℕ
or_index_error none = raised index_error
or_index_error (some b) = ret b

-- `msg[i]`
abbrev pub byte_at : ℕ → List ℕ → Outcome ℕ
byte_at i msg = or_index_error (get_elem? msg i)

abbrev pub yielding : ItchMsg → Outcome Results
yielding msg = ret (ok msg ∷ [])

abbrev pub failing : ErrorCode → Outcome Results
failing code = ret (fail code ∷ [])

-- `if msg_byte_len != n: yield error; return`
abbrev pub with_length : ℕ → ℕ → Outcome Results → Outcome Results
with_length n len rest = if not (len == n) then failing unexpected_msg_byte_length else rest

-- `SystemEventCode(b)`; `none` is a `ValueError`
abbrev pub event_code_of : ℕ → Option SystemEventCode
event_code_of b =
    if b == b'O'
    then some SystemEventCode.msg_begin
    else if b == b'S'
    then some SystemEventCode.sys_begin
    else if b == b'Q'
    then some SystemEventCode.mkt_begin
    else if b == b'M'
    then some SystemEventCode.mkt_end
    else if b == b'E'
    then some SystemEventCode.sys_end
    else if b == b'C'
    then some SystemEventCode.msg_end
    else none

abbrev pub trade_action_of : ℕ → Option TradeActionCode
trade_action_of b =
    if b == b'H'
    then some TradeActionCode.halt
    else if b == b'P'
    then some TradeActionCode.pause
    else if b == b'Q'
    then some TradeActionCode.quote
    else if b == b'T'
    then some TradeActionCode.trade
    else none

abbrev pub event_result : ℕ → Option SystemEventCode → Outcome Results
event_result locate none = failing invalid_event_code
event_result locate (some code) = yielding (system_event_msg locate code)

abbrev pub action_result : Common → Option TradeActionCode → Outcome Results
action_result c none = failing invalid_trading_action
action_result c (some action) =
    c.stock_symbol >>= λ symbol. yielding (trade_action_msg c.stock_locate symbol action)

unfoldable pub parse_event : ℕ → List ℕ → Common → Outcome Results
parse_event len msg c =
    with_length 12 len (byte_at 13 msg >>= λ b. event_result c.stock_locate (event_code_of b))

unfoldable pub parse_directory : ℕ → Common → Outcome Results
parse_directory len c =
    with_length 39 len (c.stock_symbol >>= λ symbol. yielding (directory_msg c.stock_locate symbol))

unfoldable pub parse_action : ℕ → List ℕ → Common → Outcome Results
parse_action len msg c =
    with_length 25 len (byte_at 21 msg >>= λ b. action_result c (trade_action_of b))

-- the case of each message type that is passed over, of `n` bytes
unfoldable pub parse_ignored : ℕ → ℕ → Common → Outcome Results
parse_ignored n len c = with_length n len (yielding (ignored_msg c.stock_locate))

abbrev pub is_market : ℕ → Bool
is_market b = b == b'Q' || b == b'B' || b == b'X'

abbrev pub halt_code_of : ℕ → Option Bool
halt_code_of b = if b == b'H' then some true else if b == b'T' then some false else none

abbrev pub halt_result : Common → ℕ → Option Bool → Outcome Results
halt_result c market none = failing invalid_op_halt_code
halt_result c market (some is_halt) =
    c.stock_symbol >>= λ symbol. yielding (op_halt_msg c.stock_locate symbol (market ∷ []) is_halt)

unfoldable pub parse_halt : ℕ → List ℕ → Common → Outcome Results
parse_halt len msg c = with_length 21 len (
    byte_at 21 msg >>= λ market.
    if not (is_market market)
    then failing invalid_market_code
    else byte_at 22 msg >>= λ b. halt_result c market (halt_code_of b))

abbrev pub side_of : ℕ → Option Bool
side_of b = if b == b'B' then some true else if b == b'S' then some false else none

abbrev pub add_result : List ℕ → Common → Option Bool → Outcome Results
add_result msg c none = failing invalid_buy_sell_indicator
add_result msg c (some is_buy) = yielding (
    add_order_msg c.stock_locate c.order_id is_buy (int_from_bytes (slice 22 26 msg))
      (int_from_bytes (slice 34 38 msg)))

-- `A` has 36 bytes, `F` has 40
unfoldable pub parse_add : ℕ → ℕ → List ℕ → Common → Outcome Results
parse_add n len msg c = with_length n len (byte_at 21 msg >>= λ b. add_result msg c (side_of b))

-- `E` has 31 bytes, `C` has 36 and `X` has 23
unfoldable pub parse_reduce : ℕ → ℕ → List ℕ → Common → Outcome Results
parse_reduce n len msg c =
    with_length n len
      (yielding (reduce_order_msg c.stock_locate c.order_id (int_from_bytes (slice 21 25 msg))))

unfoldable pub parse_delete : ℕ → Common → Outcome Results
parse_delete len c = with_length 19 len (yielding (delete_order_msg c.stock_locate c.order_id))

unfoldable pub parse_replace : ℕ → List ℕ → Common → Outcome Results
parse_replace len msg c = with_length 35 len (
    ret (
      ok (delete_order_msg c.stock_locate c.order_id)
      ∷ ok (
          replace_order_msg c.stock_locate (int_from_bytes (slice 21 29 msg))
            (int_from_bytes (slice 29 33 msg)) (int_from_bytes (slice 33 37 msg)))
      ∷ []))
