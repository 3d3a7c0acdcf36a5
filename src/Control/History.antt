-- ===== src/Control/History.antt =====
-- The flags of the control module as facts about the messages that it has been given.
use nasdaq_itch_parser_order.Prelude.{
  ◌≡◌, ◌≢◌, refl, sym, ap, ◌∙◌, Bool, true, false, not, ◌&&◌, Option, none, some, List, [], ◌∷◌,
  ◌++◌, arith, if◌then◌else◌, str_eq,
}
use nasdaq_itch_parser_order.Structs.{
  ret, raised, assertion_error, ok, error, Str, ItchMsg, SystemEventCode, system_event_msg,
  directory_msg, trade_action_msg, op_halt_msg, ControlResult, Exn,
}
use nasdaq_itch_parser_order.Control.{
  Control, new, init_params, is_stopping, process_msg, is_active, handle, conclude, HandledResult,
}

abbrev pub pick : Option Bool → Bool → Bool
pick none before = before
pick (some b) before = b

-- What the last message that says something of a flag has said, or else `before`.
unfoldable pub latest : (ItchMsg → Option Bool) → Bool → List ItchMsg → Bool
latest says before [] = before
latest says before (msg ∷ msgs) = latest says (pick (says msg) before) msgs

-- what a message says of each flag
abbrev pub msg_hours_of : ItchMsg → Option Bool
msg_hours_of (system_event_msg _ SystemEventCode.msg_begin) = some true
msg_hours_of (system_event_msg _ SystemEventCode.msg_end) = some false
msg_hours_of _ = none

abbrev pub sys_hours_of : ItchMsg → Option Bool
sys_hours_of (system_event_msg _ SystemEventCode.sys_begin) = some true
sys_hours_of (system_event_msg _ SystemEventCode.sys_end) = some false
sys_hours_of _ = none

abbrev pub stock_halt_of : Str → ItchMsg → Option Bool
stock_halt_of symbol (trade_action_msg _ s action) =
    if str_eq s symbol then some (is_stopping action) else none
stock_halt_of symbol _ = none

abbrev pub market_halt_of : Str → Str → ItchMsg → Option Bool
market_halt_of market symbol (op_halt_msg _ s m is_halt) =
    if str_eq s symbol && str_eq m market then some is_halt else none
market_halt_of market symbol _ = none

-- The state after a call for each message.
unfoldable pub after : Control → List ItchMsg → Control
after c [] = c
after c (msg ∷ msgs) = after (process_msg c msg).1 msgs

-- No call raises.
abbrev pub NoRaise : Control → List ItchMsg → Type 0
NoRaise c [] = Unit
NoRaise c (msg ∷ msgs) =
    ((e : Exn) → (process_msg c msg).0 ≢ raised e) × NoRaise (process_msg c msg).1 msgs

-- The module is set up for a market and a symbol.
pub record IsFor (market symbol : Str) (c : Control) : Type 0 where
  pub initialized : c.initialized ≡ true
  pub for_market : c.market_code ≡ some market
  pub for_symbol : c.stock_symbol ≡ some symbol

-- One message changes each flag to what it says of it.
record Moves (market symbol : Str) (msg : ItchMsg) (c c' : Control) : Type 0 where
  msg_hours : c'.msg_hours ≡ pick (msg_hours_of msg) c.msg_hours
  sys_hours : c'.sys_hours ≡ pick (sys_hours_of msg) c.sys_hours
  stock_halt : c'.stock_halt ≡ pick (stock_halt_of symbol msg) c.stock_halt
  market_halt : c'.market_halt ≡ pick (market_halt_of market symbol msg) c.market_halt
  still : IsFor market symbol c'

module _ (market symbol : Str) (c : Control) (v : IsFor market symbol c) where
  moves :
      (msg : ItchMsg)
      → ((e : Exn) → (process_msg c msg).0 ≢ raised e)
      → Moves market symbol msg c (process_msg c msg).1
  unfolding process_msg
  moves (system_event_msg l SystemEventCode.msg_begin) calm = ground (arith, calm assertion_error)
  moves (system_event_msg l _) calm = ground (arith, calm assertion_error)
  moves (directory_msg l s) calm = ground (arith, calm assertion_error)
  moves (trade_action_msg l s action) calm = ground (arith, calm assertion_error)
  moves (op_halt_msg l s m is_halt) calm = ground (arith, calm assertion_error)
  moves _ calm = ground (arith, calm assertion_error)

-- Each flag is what the messages have said of it last.
pub record Reflects (market symbol : Str) (c : Control) (msgs : List ItchMsg) (c' : Control)
    : Type 0 where
  pub msg_hours : c'.msg_hours ≡ latest msg_hours_of c.msg_hours msgs
  pub sys_hours : c'.sys_hours ≡ latest sys_hours_of c.sys_hours msgs
  pub stock_halt : c'.stock_halt ≡ latest (stock_halt_of symbol) c.stock_halt msgs
  pub market_halt : c'.market_halt ≡ latest (market_halt_of market symbol) c.market_halt msgs
  pub still : IsFor market symbol c'

after-Reflects :
    (market symbol : Str) (c : Control) (msgs : List ItchMsg)
    → IsFor market symbol c
    → NoRaise c msgs
    → Reflects market symbol c msgs (after c msgs)
unfolding after latest
after-Reflects market symbol c [] v calm = record {
  msg_hours = refl;
  sys_hours = refl;
  stock_halt = refl;
  market_halt = refl;
  still = v;
}
after-Reflects market symbol c (msg ∷ msgs) v calm =
    let m = moves market symbol c v msg calm.0 in
    let r = after-Reflects market symbol (process_msg c msg).1 msgs m.still calm.1 in
    record {
      msg_hours = r.msg_hours ∙ ap (λ b. latest msg_hours_of b msgs) m.msg_hours;
      sys_hours = r.sys_hours ∙ ap (λ b. latest sys_hours_of b msgs) m.sys_hours;
      stock_halt = r.stock_halt ∙ ap (λ b. latest (stock_halt_of symbol) b msgs) m.stock_halt;
      market_halt =
          r.market_halt ∙ ap (λ b. latest (market_halt_of market symbol) b msgs) m.market_halt;
      still = r.still;
    }

latest-append_one :
    (says : ItchMsg → Option Bool) (b : Bool) (msgs : List ItchMsg) (msg : ItchMsg)
    → latest says b (msgs ++ msg ∷ []) ≡ pick (says msg) (latest says b msgs)
unfolding latest
latest-append_one says b [] msg = refl
latest-append_one says b (m ∷ msgs) msg = latest-append_one says (pick (says m) b) msgs msg

concluded :
    (h : HandledResult) (out : ControlResult)
    → (conclude h).0 ≡ ret (ok out)
    → out.stock_active ≡ is_active (conclude h).1
unfolding conclude
concluded (raised e, c) out h = cc
concluded (ret (error e), c) out h = cc
concluded (ret (ok r), c) out h = ground arith

reported :
    (c : Control) (msg : ItchMsg) (out : ControlResult)
    → (process_msg c msg).0 ≡ ret (ok out)
    → out.stock_active ≡ is_active (process_msg c msg).1
unfolding process_msg
reported c msg out h = ground (arith, concluded (handle msg c) out)

-- The module as `init_params` leaves it.
abbrev pub set_up : Str → Str → Control
set_up market symbol = (init_params market symbol new).1

-- The hours and halts that a row of messages leaves behind it, from the start of the day.
abbrev pub active_by_history : Str → Str → List ItchMsg → Bool
active_by_history market symbol msgs =
    latest msg_hours_of false msgs
    && latest sys_hours_of false msgs
    && not (latest (stock_halt_of symbol) true msgs)
    && not (latest (market_halt_of market symbol) false msgs)

set_up-IsFor : (market symbol : Str) → IsFor market symbol (set_up market symbol)
unfolding init_params
set_up-IsFor market symbol = record { initialized = refl; for_market = refl; for_symbol = refl }

-- A message that is answered without an error is answered `stock_active` exactly if the messages so
-- far, it included, have last opened the message hours and the system hours, have last let the stock
-- be quoted or traded, and have not last halted it on the market; none of the calls has raised.
pub stock_active-history :
    (market symbol : Str) (msgs : List ItchMsg) (msg : ItchMsg) (out : ControlResult)
    → NoRaise (set_up market symbol) msgs
    → (process_msg (after (set_up market symbol) msgs) msg).0 ≡ ret (ok out)
    → out.stock_active ≡ active_by_history market symbol (msgs ++ msg ∷ [])
unfolding is_active init_params
stock_active-history market symbol msgs msg out calm h =
    let c = after (set_up market symbol) msgs in
    let r =
      after-Reflects market symbol (set_up market symbol) msgs (set_up-IsFor market symbol) calm in
    let m = moves market symbol c r.still msg (λ e p. cc (h, p)) in
    let go : (says : ItchMsg → Option Bool) (b now was : Bool)
        → now ≡ pick (says msg) was
        → was ≡ latest says b msgs
        → now ≡ latest says b (msgs ++ msg ∷ []) =
      λ says b now was p q. p ∙ ap (pick (says msg)) q ∙ sym (latest-append_one says b msgs msg) in
    reported c msg out h
    ∙ cc (
      go msg_hours_of false _ _ m.msg_hours r.msg_hours,
      go sys_hours_of false _ _ m.sys_hours r.sys_hours,
      go (stock_halt_of symbol) true _ _ m.stock_halt r.stock_halt,
      go (market_halt_of market symbol) false _ _ m.market_halt r.market_halt,
    )
