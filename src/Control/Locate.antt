-- ===== src/Control/Locate.antt =====
-- The locate number of the stock, and when a call raises.
use nasdaq_itch_parser_order.Prelude.{
  ℕ, ◌≡◌, Bool, true, false, ◌||◌, Option, none, some, List, [], ◌∷◌, arith, bool_eq,
}
use nasdaq_itch_parser_order.Structs.{
  Outcome, ret, raised, ModuleResult, Str, ItchMsg, SystemEventCode, system_event_msg,
  directory_msg, trade_action_msg, op_halt_msg, ControlResult,
}
use nasdaq_itch_parser_order.Control.{Control, process_msg}
use nasdaq_itch_parser_order.Control.History.{
  IsFor, after, msg_hours_of, sys_hours_of, market_halt_of,
}

locate_kept :
    (c : Control) (l : ℕ) (msg : ItchMsg)
    → c.stock_locate ≡ some l
    → (process_msg c msg).1.stock_locate ≡ some l
unfolding process_msg
locate_kept c l (directory_msg k s) h = ground arith
locate_kept c l (system_event_msg k SystemEventCode.msg_begin) h = ground arith
locate_kept c l (system_event_msg k _) h = ground arith
locate_kept c l (trade_action_msg k s action) h = ground arith
locate_kept c l (op_halt_msg k s m is_halt) h = ground arith
locate_kept c l _ h = ground arith

-- Once the locate number is known, no row of messages changes it, whatever the calls return or raise.
pub stock_locate-after :
    (c : Control) (l : ℕ) (msgs : List ItchMsg)
    → c.stock_locate ≡ some l
    → (after c msgs).stock_locate ≡ some l
unfolding after
stock_locate-after c l [] h = h
stock_locate-after c l (msg ∷ msgs) h =
    stock_locate-after (process_msg c msg).1 l msgs (locate_kept c l msg h)

abbrev pub mkt_hours_of : ItchMsg → Option Bool
mkt_hours_of (system_event_msg _ SystemEventCode.mkt_begin) = some true
mkt_hours_of (system_event_msg _ SystemEventCode.mkt_end) = some false
mkt_hours_of _ = none

abbrev pub says_again : Option Bool → Bool → Bool
says_again none now = false
says_again (some b) now = bool_eq b now

-- The message says of the hours, or of the market halt, what holds already.
abbrev pub repeats : Str → Str → Control → ItchMsg → Bool
repeats market symbol c msg =
    says_again (msg_hours_of msg) c.msg_hours
    || says_again (sys_hours_of msg) c.sys_hours
    || says_again (mkt_hours_of msg) c.mkt_hours
    || says_again (market_halt_of market symbol msg) c.market_halt

abbrev pub raises : Outcome (ModuleResult ControlResult) → Bool
raises (ret r) = false
raises (raised e) = true

-- A call of a module that is initialised for a market and a symbol raises exactly when its message
-- says of the hours, or of the halt of this symbol on this market, what holds already.
pub process_msg-raises :
    (market symbol : Str) (c : Control) (msg : ItchMsg)
    → IsFor market symbol c
    → raises (process_msg c msg).0 ≡ repeats market symbol c msg
unfolding process_msg
process_msg-raises market symbol c (directory_msg k s) v = ground arith
process_msg-raises market symbol c (system_event_msg k SystemEventCode.msg_begin) v = ground arith
process_msg-raises market symbol c (system_event_msg k _) v = ground arith
process_msg-raises market symbol c (trade_action_msg k s action) v = ground arith
process_msg-raises market symbol c (op_halt_msg k s m is_halt) v = ground arith
process_msg-raises market symbol c _ v = ground arith
