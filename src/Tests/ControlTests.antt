-- ===== src/Tests/ControlTests.antt =====
-- src/ref_model/control.py at concrete days.
use nasdaq_itch_parser_order.Prelude.{◌≡◌, refl, true, none, some, List, [], ◌∷◌, ◌++◌}
use nasdaq_itch_parser_order.Structs.{
  ret, ok, Str, ItchMsg, SystemEventCode, TradeActionCode, system_event_msg, directory_msg,
  trade_action_msg, ControlResult,
}
use nasdaq_itch_parser_order.Control
use nasdaq_itch_parser_order.Control.{Control, process_msg}
use nasdaq_itch_parser_order.Control.History.{
  NoRaise, IsFor, after, set_up, active_by_history, stock_active-history,
}
use nasdaq_itch_parser_order.Control.Locate.{
  raises, repeats, stock_locate-after, process_msg-raises,
}

abbrev amd : Str
amd = 65 ∷ 77 ∷ 68 ∷ 32 ∷ 32 ∷ 32 ∷ 32 ∷ 32 ∷ []

abbrev bx : Str
bx = 66 ∷ []

abbrev morning : List ItchMsg
morning =
    system_event_msg 0 SystemEventCode.msg_begin
    ∷ system_event_msg 0 SystemEventCode.sys_begin
    ∷ directory_msg 344 amd
    ∷ []

abbrev trades : ItchMsg
trades = trade_action_msg 344 amd TradeActionCode.trade

abbrev opened : ControlResult
opened = record { stock_active = true; stock_locate = none }

morning_calm : NoRaise (set_up bx amd) morning
unfolding Control.process_msg Control.init_params
morning_calm = (λ e p. cc, (λ e p. cc, (λ e p. cc, tt)))

trades_result : (process_msg (after (set_up bx amd) morning) trades).0 ≡ ret (ok opened)
unfolding Control.process_msg Control.init_params after
trades_result = refl

stock_active-history_example : true ≡ active_by_history bx amd (morning ++ trades ∷ [])
stock_active-history_example =
    stock_active-history bx amd morning trades opened morning_calm trades_result

abbrev known : Control
known = after (set_up bx amd) morning

known_locate : known.stock_locate ≡ some 344
unfolding Control.process_msg Control.init_params after
known_locate = refl

stock_locate-after_example :
    (after known (directory_msg 5 amd ∷ trades ∷ [])).stock_locate ≡ some 344
stock_locate-after_example =
    stock_locate-after known 344 (directory_msg 5 amd ∷ trades ∷ []) known_locate

fresh-IsFor : IsFor bx amd (set_up bx amd)
unfolding Control.init_params
fresh-IsFor = record { initialized = refl; for_market = refl; for_symbol = refl }

-- the system hours cannot end before they begin
process_msg-raises_example :
    raises (process_msg (set_up bx amd) (system_event_msg 0 SystemEventCode.sys_end)).0
    ≡ repeats bx amd (set_up bx amd) (system_event_msg 0 SystemEventCode.sys_end)
process_msg-raises_example =
    process_msg-raises bx amd (set_up bx amd) (system_event_msg 0 SystemEventCode.sys_end)
      fresh-IsFor
