-- ===== src/Itch/Symbols.antt =====
-- `ITCHParser.parse_msg` on the generated messages that carry a stock symbol or a code.
use nasdaq_itch_parser_order.Prelude.{
  ℕ, ◌^◌, ◌<◌, ◌≡◌, Bool, true, false, [], ◌∷◌, arith, All, length,
}
use nasdaq_itch_parser_order.Bytes.{to_big, int_from-to_big}
use nasdaq_itch_parser_order.Utf8.{decode-ascii}
use nasdaq_itch_parser_order.PktGen.{
  gen_event_msg, gen_directory_msg, gen_trade_action_msg, gen_op_halt_msg,
}
use nasdaq_itch_parser_order.Structs.{
  ret, ok, Str, SystemEventCode, TradeActionCode, system_event_msg, directory_msg, trade_action_msg,
  op_halt_msg,
}
use nasdaq_itch_parser_order.Itch.{parse_msg}
use nasdaq_itch_parser_order.Itch.Cases.{symbol_of, is_market}

abbrev pub event_char : SystemEventCode → ℕ
event_char SystemEventCode.msg_begin = b'O'
event_char SystemEventCode.sys_begin = b'S'
event_char SystemEventCode.mkt_begin = b'Q'
event_char SystemEventCode.mkt_end = b'M'
event_char SystemEventCode.sys_end = b'E'
event_char SystemEventCode.msg_end = b'C'

abbrev pub action_char : TradeActionCode → ℕ
action_char TradeActionCode.halt = b'H'
action_char TradeActionCode.pause = b'P'
action_char TradeActionCode.quote = b'Q'
action_char TradeActionCode.trade = b'T'

-- A symbol of the generators: eight ASCII characters.
pub record IsSymbol (s : Str) : Type 0 where
  pub eight : length s ≡ 8
  pub ascii : All (λ c. c < 0x80) s

of_eight :
    (P : Str → Type 0)
    → ((a b c d e f g h : ℕ) → P (a ∷ b ∷ c ∷ d ∷ e ∷ f ∷ g ∷ h ∷ []))
    → (s : Str) → length s ≡ 8
    → P s
of_eight P all (a ∷ b ∷ c ∷ d ∷ e ∷ f ∷ g ∷ h ∷ []) eight = all a b c d e f g h
of_eight P all _ eight = absurd (omega arith)

decoded : (s : Str) → IsSymbol s → symbol_of s ≡ ret s
unfolding symbol_of
decoded s h = rw (decode-ascii s h.ascii)

-- A system event is read back.
pub parse-gen_event_msg :
    (code : SystemEventCode)
    → parse_msg (gen_event_msg (event_char code ∷ [])) ≡ ret (ok (system_event_msg 0 code) ∷ [])
unfolding parse_msg gen_event_msg to_big
parse-gen_event_msg SystemEventCode.msg_begin =
    rw (int_from-to_big 2 12 (omega arith), int_from-to_big 2 0 (omega arith))
parse-gen_event_msg _ = rw (int_from-to_big 2 12 (omega arith), int_from-to_big 2 0 (omega arith))

directory_at :
    (l : ℕ)
    → l < 256 ^ 2
    → (s : Str) → length s ≡ 8
    → symbol_of s ≡ ret s
    → parse_msg (gen_directory_msg l s) ≡ ret (ok (directory_msg l s) ∷ [])
unfolding parse_msg gen_directory_msg to_big
directory_at l hl =
    of_eight _
      λ a b c d e f g h sym. rw (int_from-to_big 2 39 (omega arith), int_from-to_big 2 l hl, sym)

-- A directory entry is read back.
pub parse-gen_directory_msg :
    (locate : ℕ) (symbol : Str)
    → locate < 256 ^ 2
    → IsSymbol symbol
    → parse_msg (gen_directory_msg locate symbol) ≡ ret (ok (directory_msg locate symbol) ∷ [])
parse-gen_directory_msg l s hl h = directory_at l hl s h.eight (decoded s h)

action_at :
    (l : ℕ) (action : TradeActionCode)
    → l < 256 ^ 2
    → (s : Str) → length s ≡ 8
    → symbol_of s ≡ ret s
    → parse_msg (gen_trade_action_msg l s (action_char action ∷ []))
      ≡ ret (ok (trade_action_msg l s action) ∷ [])
unfolding parse_msg gen_trade_action_msg to_big
action_at l TradeActionCode.halt hl =
    of_eight _
      λ a b c d e f g h sym. rw (int_from-to_big 2 25 (omega arith), int_from-to_big 2 l hl, sym)
action_at l _ hl =
    of_eight _
      λ a b c d e f g h sym. rw (int_from-to_big 2 25 (omega arith), int_from-to_big 2 l hl, sym)

-- A trading action is read back.
pub parse-gen_trade_action_msg :
    (locate : ℕ) (symbol : Str) (action : TradeActionCode)
    → locate < 256 ^ 2
    → IsSymbol symbol
    → parse_msg (gen_trade_action_msg locate symbol (action_char action ∷ []))
      ≡ ret (ok (trade_action_msg locate symbol action) ∷ [])
parse-gen_trade_action_msg l s action hl h = action_at l action hl s h.eight (decoded s h)

abbrev pub halt_char : Bool → ℕ
halt_char true = b'H'
halt_char false = b'T'

halt_at :
    (l market : ℕ) (is_halt : Bool)
    → l < 256 ^ 2
    → is_market market ≡ true
    → (s : Str) → length s ≡ 8
    → symbol_of s ≡ ret s
    → parse_msg (gen_op_halt_msg l s (market ∷ []) (halt_char is_halt ∷ []))
      ≡ ret (ok (op_halt_msg l s (market ∷ []) is_halt) ∷ [])
unfolding parse_msg gen_op_halt_msg to_big
halt_at l market true hl hm =
    of_eight _ λ a b c d e f g h sym.
      rw (int_from-to_big 2 21 (omega arith), int_from-to_big 2 l hl, hm, sym)
halt_at l market false hl hm =
    of_eight _ λ a b c d e f g h sym.
      rw (int_from-to_big 2 21 (omega arith), int_from-to_big 2 l hl, hm, sym)

-- An operational halt or its end, on one of the three markets, is read back.
pub parse-gen_op_halt_msg :
    (locate market : ℕ) (symbol : Str) (is_halt : Bool)
    → locate < 256 ^ 2
    → is_market market ≡ true
    → IsSymbol symbol
    → parse_msg (gen_op_halt_msg locate symbol (market ∷ []) (halt_char is_halt ∷ []))
      ≡ ret (ok (op_halt_msg locate symbol (market ∷ []) is_halt) ∷ [])
parse-gen_op_halt_msg l market s is_halt hl hm h =
    halt_at l market is_halt hl hm s h.eight (decoded s h)
