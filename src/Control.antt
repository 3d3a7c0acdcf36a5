-- ===== src/Control.antt =====
-- src/ref_model/control.py: the hours of the feed, the halts of one stock, and its locate number.
-- What a message has written stays written when the call then returns an error or raises.
pub mod History
pub mod Locate
use nasdaq_itch_parser_order.Prelude.{
  ℕ, Bool, true, false, not, ◌&&◌, Option, none, some, ◌==◌, if◌then◌else◌, str_eq, bool_eq,
}
use nasdaq_itch_parser_order.Structs.{
  Outcome, ret, raised, assertion_error, ModuleResult, ok, error, fail, control_not_initialized,
  mismatch_stock_locate, not_msg_hours, Str, ItchMsg, SystemEventCode, TradeActionCode,
  system_event_msg, directory_msg, trade_action_msg, op_halt_msg, ControlResult,
}

pub record Control : Type 0 where
  pub initialized : Bool
  pub market_code : Option Str
  pub stock_symbol : Option Str
  pub msg_hours : Bool
  pub sys_hours : Bool
  pub mkt_hours : Bool
  pub stock_halt : Bool
  pub market_halt : Bool
  pub stock_locate : Option ℕ

-- `__init__`
abbrev pub new : Control
new = record {
  initialized = false;
  market_code = none;
  stock_symbol = none;
  msg_hours = false;
  sys_hours = false;
  mkt_hours = false;
  stock_halt = true;
  market_halt = false;
  stock_locate = none;
}

unfoldable pub init_params : Str → Str → Control → Outcome (Unit {0}) × Control
init_params market_code stock_symbol self =
    if self.initialized then (raised assertion_error, self) else (
      ret tt,
      record self {
        initialized = true;
        market_code = some market_code;
        stock_symbol = some stock_symbol;
      },
    )

-- `s == o`, where `o` may be `None`
abbrev pub str_is : Str → Option Str → Bool
str_is s none = false
str_is s (some t) = str_eq s t

-- What the `match` hands on to the lines behind it: `msg_expected` and `stock_locate`.
pub record Handled : Type 0 where
  pub msg_expected : Bool
  pub stock_locate : Option ℕ

abbrev pub HandledResult : Type 0
HandledResult = Outcome (ModuleResult Handled) × Control

abbrev go_on : Bool → Option ℕ → Control → HandledResult
go_on expected locate self =
    (ret (ok (record { msg_expected = expected; stock_locate = locate })), self)

-- `assert flag`, and the rest of the case
abbrev asserting : Bool → Control → HandledResult → HandledResult
asserting true self next = next
asserting false self next = (raised assertion_error, self)

unfoldable pub handle_event : SystemEventCode → Control → HandledResult
handle_event SystemEventCode.msg_begin self =
    asserting (not self.msg_hours) self (go_on true none (record self { msg_hours = true }))
handle_event SystemEventCode.sys_begin self =
    asserting (not self.sys_hours) self
      (go_on self.msg_hours none (record self { sys_hours = true }))
handle_event SystemEventCode.mkt_begin self =
    asserting (not self.mkt_hours) self
      (go_on self.msg_hours none (record self { mkt_hours = true }))
handle_event SystemEventCode.mkt_end self =
    asserting self.mkt_hours self (go_on self.msg_hours none (record self { mkt_hours = false }))
handle_event SystemEventCode.sys_end self =
    asserting self.sys_hours self (go_on self.msg_hours none (record self { sys_hours = false }))
handle_event SystemEventCode.msg_end self =
    asserting self.msg_hours self (go_on self.msg_hours none (record self { msg_hours = false }))

-- `self.stock_locate is not None and msg.stock_locate != self.stock_locate`
abbrev pub locate_differs : ℕ → Option ℕ → Bool
locate_differs l none = false
locate_differs l (some k) = not (l == k)

unfoldable pub handle_directory : ℕ → Str → Control → HandledResult
handle_directory locate symbol self =
    if str_is symbol self.stock_symbol
    then (if locate_differs locate self.stock_locate
        then (ret (fail (mismatch_stock_locate locate)), self)
        else go_on self.msg_hours (some locate) (record self { stock_locate = some locate }))
    else go_on self.msg_hours none self

abbrev pub is_stopping : TradeActionCode → Bool
is_stopping TradeActionCode.halt = true
is_stopping TradeActionCode.pause = true
is_stopping TradeActionCode.quote = false
is_stopping TradeActionCode.trade = false

unfoldable pub handle_action : Str → TradeActionCode → Control → HandledResult
handle_action symbol trade_action self =
    if str_is symbol self.stock_symbol
    then go_on self.msg_hours none (record self { stock_halt = is_stopping trade_action })
    else go_on self.msg_hours none self

unfoldable pub handle_halt : Str → Str → Bool → Control → HandledResult
handle_halt symbol market is_halt self =
    if str_is symbol self.stock_symbol && str_is market self.market_code
    then asserting (not (bool_eq self.market_halt is_halt)) self
        (go_on self.msg_hours none (record self { market_halt = is_halt }))
    else go_on self.msg_hours none self

-- the `match` on the message type
unfoldable pub handle : ItchMsg → Control → HandledResult
unfolding handle_event handle_directory handle_action handle_halt
handle (system_event_msg _ code) self = handle_event code self
handle (directory_msg locate symbol) self = handle_directory locate symbol self
handle (trade_action_msg _ symbol trade_action) self = handle_action symbol trade_action self
handle (op_halt_msg _ symbol market is_halt) self = handle_halt symbol market is_halt self
handle msg self = go_on self.msg_hours none self

unfoldable pub is_active : Control → Bool
is_active self = self.msg_hours && self.sys_hours && not self.stock_halt && not self.market_halt

-- the lines behind the `match`
unfoldable pub conclude : HandledResult → Outcome (ModuleResult ControlResult) × Control
unfolding is_active
conclude (raised e, self) = (raised e, self)
conclude (ret (error e), self) = (ret (error e), self)
conclude (ret (ok h), self) =
    if not h.msg_expected
    then (ret (fail not_msg_hours), self)
    else (ret (ok (record { stock_active = is_active self; stock_locate = h.stock_locate })), self)

unfoldable pub process_msg : Control → ItchMsg → Outcome (ModuleResult ControlResult) × Control
unfolding handle conclude
process_msg self msg =
    if not self.initialized
    then (ret (fail control_not_initialized), self)
    else conclude (handle msg self)
