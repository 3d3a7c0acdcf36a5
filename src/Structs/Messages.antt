-- ===== src/Structs/Messages.antt =====
-- The message classes, one constructor for each subclass that the parser builds, and the records
-- that the book modules exchange.
use nasdaq_itch_parser_order.Prelude.{ℕ, Bool, true, false, List, Option}
use nasdaq_itch_parser_order.Prelude.Int.{ℤ}

pub data ItchMsgType : Type 0 where
  event directory action halt add reduce delete replace ignore : ItchMsgType

pub data SystemEventCode : Type 0 where
  msg_begin sys_begin mkt_begin mkt_end sys_end msg_end : SystemEventCode

pub data TradeActionCode : Type 0 where
  halt pause quote trade : TradeActionCode

abbrev pub Str : Type 0
Str = List ℕ

-- The first field is `stock_locate`.
pub data ItchMsg : Type 0 where
  system_event_msg : ℕ → SystemEventCode → ItchMsg
  directory_msg : ℕ → Str → ItchMsg
  trade_action_msg : ℕ → Str → TradeActionCode → ItchMsg
  op_halt_msg : ℕ → Str → Str → Bool → ItchMsg
  add_order_msg : ℕ → (order_id : ℕ) → (is_buy : Bool) → (shares price : ℕ) → ItchMsg
  reduce_order_msg : ℕ → (order_id shares : ℕ) → ItchMsg
  delete_order_msg : ℕ → (order_id : ℕ) → ItchMsg
  replace_order_msg : ℕ → (order_id shares price : ℕ) → ItchMsg
  ignored_msg : ℕ → ItchMsg

abbrev pub msg_type : ItchMsg → ItchMsgType
msg_type (system_event_msg _ _) = ItchMsgType.event
msg_type (directory_msg _ _) = ItchMsgType.directory
msg_type (trade_action_msg _ _ _) = ItchMsgType.action
msg_type (op_halt_msg _ _ _ _) = ItchMsgType.halt
msg_type (add_order_msg _ _ _ _ _) = ItchMsgType.add
msg_type (reduce_order_msg _ _ _) = ItchMsgType.reduce
msg_type (delete_order_msg _ _) = ItchMsgType.delete
msg_type (replace_order_msg _ _ _ _) = ItchMsgType.replace
msg_type (ignored_msg _) = ItchMsgType.ignore

abbrev pub stock_locate_of : ItchMsg → ℕ
stock_locate_of (system_event_msg l _) = l
stock_locate_of (directory_msg l _) = l
stock_locate_of (trade_action_msg l _ _) = l
stock_locate_of (op_halt_msg l _ _ _) = l
stock_locate_of (add_order_msg l _ _ _ _) = l
stock_locate_of (reduce_order_msg l _ _) = l
stock_locate_of (delete_order_msg l _) = l
stock_locate_of (replace_order_msg l _ _ _) = l
stock_locate_of (ignored_msg l) = l

abbrev pub is_ctrl_msg : ItchMsg → Bool
is_ctrl_msg (system_event_msg _ _) = true
is_ctrl_msg (directory_msg _ _) = true
is_ctrl_msg (trade_action_msg _ _ _) = true
is_ctrl_msg (op_halt_msg _ _ _ _) = true
is_ctrl_msg _ = false

abbrev pub is_book_msg : ItchMsg → Bool
is_book_msg (add_order_msg _ _ _ _ _) = true
is_book_msg (reduce_order_msg _ _ _) = true
is_book_msg (delete_order_msg _ _) = true
is_book_msg (replace_order_msg _ _ _ _) = true
is_book_msg _ = false

pub record BboEntry : Type 0 where
  pub shares : ℤ
  pub price : ℕ

pub record DownstreamOrderMsg : Type 0 where
  pub msg_type : ItchMsgType
  pub is_buy : Bool
  pub shares : ℕ
  pub price : ℕ

pub record L3Entry : Type 0 where
  pub is_buy : Bool
  pub shares : ℕ
  pub price : ℕ

pub record ControlResult : Type 0 where
  pub stock_active : Bool
  pub stock_locate : Option ℕ
