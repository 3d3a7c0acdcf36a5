-- ===== src/PktGen.antt =====
-- tests/pkt_gen.py: the generators of well-formed messages. A text stands as its UTF-8 bytes.
use nasdaq_itch_parser_order.Prelude.{ℕ, Bool, List, ◌∷◌, ◌++◌, replicate, if◌then◌else◌}
use nasdaq_itch_parser_order.Bytes.{to_big}

-- the length bytes, the type, the locate number and the eight bytes in front of the fields
abbrev pub gen_prefix : ℕ → ℕ → ℕ → List ℕ → List ℕ
gen_prefix len msg_type stock_locate fields =
    to_big 2 len ++ (msg_type ∷ (to_big 2 stock_locate ++ (replicate 8 0 ++ fields)))

unfoldable pub gen_event_msg : List ℕ → List ℕ
gen_event_msg event_code = to_big 2 12 ++ (b'S' ∷ (replicate 10 0 ++ event_code))

unfoldable pub gen_directory_msg : ℕ → List ℕ → List ℕ
gen_directory_msg stock_locate stock_symbol =
    gen_prefix 39 b'R' stock_locate (stock_symbol ++ replicate 20 0)

unfoldable pub gen_trade_action_msg : ℕ → List ℕ → List ℕ → List ℕ
gen_trade_action_msg stock_locate stock_symbol trade_action =
    gen_prefix 25 b'H' stock_locate (stock_symbol ++ (trade_action ++ replicate 5 0))

unfoldable pub gen_op_halt_msg : ℕ → List ℕ → List ℕ → List ℕ → List ℕ
gen_op_halt_msg stock_locate stock_symbol market_code action =
    gen_prefix 21 b'h' stock_locate (stock_symbol ++ (market_code ++ action))

unfoldable pub gen_add_msg : ℕ → ℕ → List ℕ → ℕ → ℕ → Bool → List ℕ
gen_add_msg stock_locate order_id buy_sell shares price mpid =
    gen_prefix (if mpid then 40 else 36) (if mpid then b'F' else b'A') stock_locate (
      to_big 8 order_id
      ++ (buy_sell
          ++ (to_big 4 shares
              ++ (replicate 8 0 ++ (to_big 4 price ++ replicate (if mpid then 4 else 0) 0)))))

unfoldable pub gen_execute_msg : ℕ → ℕ → ℕ → Bool → List ℕ
gen_execute_msg stock_locate order_id shares at_price =
    gen_prefix (if at_price then 36 else 31) (if at_price then b'C' else b'E') stock_locate (
      to_big 8 order_id
      ++ (to_big 4 shares ++ (replicate 8 0 ++ replicate (if at_price then 5 else 0) 0)))

unfoldable pub gen_cancel_msg : ℕ → ℕ → ℕ → List ℕ
gen_cancel_msg stock_locate order_id shares =
    gen_prefix 23 b'X' stock_locate (to_big 8 order_id ++ to_big 4 shares)

unfoldable pub gen_delete_msg : ℕ → ℕ → List ℕ
gen_delete_msg stock_locate order_id = gen_prefix 19 b'D' stock_locate (to_big 8 order_id)

unfoldable pub gen_replace_msg : ℕ → ℕ → ℕ → ℕ → ℕ → List ℕ
gen_replace_msg stock_locate order_id_del order_id_add shares price =
    gen_prefix 35 b'U' stock_locate
      (to_big 8 order_id_del ++ (to_big 8 order_id_add ++ (to_big 4 shares ++ to_big 4 price)))

unfoldable pub gen_ignore_msg : List ℕ
gen_ignore_msg = to_big 2 35 ++ (b'J' ∷ replicate 34 0xaa)

unfoldable pub gen_wrong_msg : List ℕ
gen_wrong_msg = to_big 2 35 ++ (b'z' ∷ replicate 34 0xaa)
