-- ===== src/Itch/Wire.antt =====
-- The messages of tests/pkt_gen.py as data: their bytes, and what the book modules receive.
use nasdaq_itch_parser_order.Prelude.{ℕ, ◌^◌, ◌<◌, ◌≡◌, Bool, true, List, [], ◌∷◌}
use nasdaq_itch_parser_order.PktGen.{
  gen_add_msg, gen_execute_msg, gen_cancel_msg, gen_delete_msg, gen_replace_msg, gen_event_msg,
  gen_directory_msg, gen_trade_action_msg, gen_op_halt_msg,
}
use nasdaq_itch_parser_order.Structs.{
  ret, ok, Str, SystemEventCode, TradeActionCode, system_event_msg, directory_msg, trade_action_msg,
  op_halt_msg, add_order_msg, reduce_order_msg, delete_order_msg, replace_order_msg,
}
use nasdaq_itch_parser_order.Itch.{parse_msg}
use nasdaq_itch_parser_order.Itch.Cases.{Results, is_market}
use nasdaq_itch_parser_order.Itch.RoundTrips.{
  side_char, parse-gen_add_msg, parse-gen_execute_msg, parse-gen_cancel_msg, parse-gen_delete_msg,
  parse-gen_replace_msg,
}
use nasdaq_itch_parser_order.Itch.Symbols.{
  event_char, action_char, halt_char, IsSymbol, parse-gen_event_msg, parse-gen_directory_msg,
  parse-gen_trade_action_msg, parse-gen_op_halt_msg,
}

-- The first field of each but an event is the locate number.
pub data WireMsg : Type 0 where
  w_event : SystemEventCode → WireMsg
  w_directory : ℕ → Str → WireMsg
  w_action : ℕ → Str → TradeActionCode → WireMsg
  w_halt : ℕ → Str → (market : ℕ) → (is_halt : Bool) → WireMsg
  w_add : ℕ → (order_id : ℕ) → (is_buy : Bool) → (shares price : ℕ) → (mpid : Bool) → WireMsg
  w_execute : ℕ → (order_id shares : ℕ) → (at_price : Bool) → WireMsg
  w_cancel : ℕ → (order_id shares : ℕ) → WireMsg
  w_delete : ℕ → (order_id : ℕ) → WireMsg
  w_replace : ℕ → (old_id new_id shares price : ℕ) → WireMsg

unfoldable pub encode : WireMsg → List ℕ
encode (w_event code) = gen_event_msg (event_char code ∷ [])
encode (w_directory l symbol) = gen_directory_msg l symbol
encode (w_action l symbol action) = gen_trade_action_msg l symbol (action_char action ∷ [])
encode (w_halt l symbol market is_halt) =
    gen_op_halt_msg l symbol (market ∷ []) (halt_char is_halt ∷ [])
encode (w_add l k is_buy n p mpid) = gen_add_msg l k (side_char is_buy) n p mpid
encode (w_execute l k n at_price) = gen_execute_msg l k n at_price
encode (w_cancel l k n) = gen_cancel_msg l k n
encode (w_delete l k) = gen_delete_msg l k
encode (w_replace l old_id new_id n p) = gen_replace_msg l old_id new_id n p

-- The numbers fit their fields: 2 bytes for a locate number, 8 for an order, 4 for shares and price.
abbrev pub Fits : WireMsg → Type 0
Fits (w_event _) = Unit {0}
Fits (w_directory l symbol) = (l < 256 ^ 2) × IsSymbol symbol
Fits (w_action l symbol _) = (l < 256 ^ 2) × IsSymbol symbol
Fits (w_halt l symbol market _) = (l < 256 ^ 2) × (is_market market ≡ true) × IsSymbol symbol
Fits (w_add l k _ n p _) = (l < 256 ^ 2) × (k < 256 ^ 8) × (n < 256 ^ 4) × (p < 256 ^ 4)
Fits (w_execute l k n _) = (l < 256 ^ 2) × (k < 256 ^ 8) × (n < 256 ^ 4)
Fits (w_cancel l k n) = (l < 256 ^ 2) × (k < 256 ^ 8) × (n < 256 ^ 4)
Fits (w_delete l k) = (l < 256 ^ 2) × (k < 256 ^ 8)
Fits (w_replace l k j n p) =
    (l < 256 ^ 2) × (k < 256 ^ 8) × (j < 256 ^ 8) × (n < 256 ^ 4) × (p < 256 ^ 4)

-- An execution and a cancellation reduce, and a replacement deletes and adds again.
abbrev pub meaning : WireMsg → Results
meaning (w_event code) = ok (system_event_msg 0 code) ∷ []
meaning (w_directory l symbol) = ok (directory_msg l symbol) ∷ []
meaning (w_action l symbol action) = ok (trade_action_msg l symbol action) ∷ []
meaning (w_halt l symbol market is_halt) = ok (op_halt_msg l symbol (market ∷ []) is_halt) ∷ []
meaning (w_add l k is_buy n p _) = ok (add_order_msg l k is_buy n p) ∷ []
meaning (w_execute l k n _) = ok (reduce_order_msg l k n) ∷ []
meaning (w_cancel l k n) = ok (reduce_order_msg l k n) ∷ []
meaning (w_delete l k) = ok (delete_order_msg l k) ∷ []
meaning (w_replace l old_id new_id n p) =
    ok (delete_order_msg l old_id) ∷ ok (replace_order_msg l new_id n p) ∷ []

-- The parser reads each of the nine kinds of generated messages back, field by field, where the
-- numbers fit their fields, a symbol is eight ASCII characters, a market is one of `Q`, `B`, `X`, and
-- the code of an event, a trading action, a halt or a side is one that the parser knows: an execution and a cancellation as a reduction, and a replacement as a deletion and a new order.
pub parse-encode : (w : WireMsg) → Fits w → parse_msg (encode w) ≡ ret (meaning w)
unfolding encode
parse-encode (w_event code) h = parse-gen_event_msg code
parse-encode (w_directory l s) (hl, hs) = parse-gen_directory_msg l s hl hs
parse-encode (w_action l s action) (hl, hs) = parse-gen_trade_action_msg l s action hl hs
parse-encode (w_halt l s market is_halt) (hl, hm, hs) =
    parse-gen_op_halt_msg l market s is_halt hl hm hs
parse-encode (w_add l k is_buy n p mpid) (hl, hk, hn, hp) =
    parse-gen_add_msg l k n p is_buy mpid hl hk hn hp
parse-encode (w_execute l k n at_price) (hl, hk, hn) = parse-gen_execute_msg l k n at_price hl hk hn
parse-encode (w_cancel l k n) (hl, hk, hn) = parse-gen_cancel_msg l k n hl hk hn
parse-encode (w_delete l k) (hl, hk) = parse-gen_delete_msg l k hl hk
parse-encode (w_replace l k j n p) (hl, hk, hj, hn, hp) =
    parse-gen_replace_msg l k j n p hl hk hj hn hp
