-- ===== src/Itch/Outcomes.antt =====
-- How a call of `ITCHParser.parse_msg` ends, and the widths of the fields that it reads.
use nasdaq_itch_parser_order.Prelude.{
  ℕ, ◌+◌, ◌^◌, ◌<◌, ◌≤◌, ◌≡◌, refl, Bool, true, not, Option, none, some, List, length, slice,
  get_elem?, ◌==◌, arith, inl, inr, Option-cases,
}
use nasdaq_itch_parser_order.Bytes.{IsBytes, int_from_bytes}
use nasdaq_itch_parser_order.Utf8.{decode}
use nasdaq_itch_parser_order.Structs.{Outcome, ◌>>=◌, Str, SystemEventCode, TradeActionCode}
use nasdaq_itch_parser_order.Itch.{parse_msg, dispatch}
use nasdaq_itch_parser_order.Itch.Cases.{
  Results, Common, symbol_of, event_code_of, trade_action_of, halt_code_of, side_of, is_market,
  event_result, action_result, halt_result, add_result, parse_event, parse_directory, parse_action,
  parse_ignored, parse_halt, parse_add, parse_reduce, parse_delete, parse_replace,
}
use nasdaq_itch_parser_order.Itch.Ends.{
  Ends, names_stock, get_elem?-none, field-lt, if_Ends, failing-Ends, yielding-Ends, length-Ends,
  byte-Ends,
}

-- the fields that all messages share
record IsRead (msg : List ℕ) (c : Common) : Type 0 where
  locate_narrow : c.stock_locate < 2 ^ 16
  order_narrow : c.order_id < 2 ^ 64
  symbol_read : c.stock_symbol ≡ symbol_of (slice 13 21 msg)

module _ (msg : List ℕ) (bytes : IsBytes msg) (c : Common) (read : IsRead msg c) where
  -- a case that uses the symbol
  symbol-Ends :
      (msg_type : ℕ) (f : Str → Outcome Results)
      → get_elem? msg 2 ≡ some msg_type
      → names_stock msg_type ≡ true
      → ((s : Str) → Ends msg (f s))
      → Ends msg (c.stock_symbol >>= f)
  unfolding symbol_of
  symbol-Ends msg_type f here named k =
      rw read.symbol_read (elim (Option-cases (decode (slice 13 21 msg))) [
        | inl e ↦ rw e (Ends.unreadable msg_type here named e)
        | inr (s, e) ↦ rw e (k s)
      ])

  event-Ends : (code : Option SystemEventCode) → Ends msg (event_result c.stock_locate code)
  event-Ends none = failing-Ends _
  event-Ends (some code) = yielding-Ends _ read.locate_narrow

  add-Ends : (side : Option Bool) → Ends msg (add_result msg c side)
  add-Ends none = failing-Ends _
  add-Ends (some is_buy) =
      yielding-Ends _
        (read.locate_narrow, read.order_narrow, field-lt 22 26 msg bytes, field-lt 34 38 msg bytes)

  module _ (len : ℕ) (whole : length msg ≡ len + 2) where
    parse_event-Ends : Ends msg (parse_event len msg c)
    unfolding parse_event
    parse_event-Ends =
        length-Ends 12 len _
          (λ e. byte-Ends 13 _ (omega (arith, whole, e)) (λ b. event-Ends (event_code_of b)))

    parse_ignored-Ends : (n : ℕ) → Ends msg (parse_ignored n len c)
    unfolding parse_ignored
    parse_ignored-Ends n = length-Ends n len _ (λ e. yielding-Ends _ read.locate_narrow)

    parse_add-Ends : (n : ℕ) → 20 ≤ n → Ends msg (parse_add n len msg c)
    unfolding parse_add
    parse_add-Ends n long =
        length-Ends n len _
          (λ e. byte-Ends 21 _ (omega (arith, whole, e, long)) (λ b. add-Ends (side_of b)))

    parse_reduce-Ends : (n : ℕ) → Ends msg (parse_reduce n len msg c)
    unfolding parse_reduce
    parse_reduce-Ends n =
        length-Ends n len _
          (λ e. yielding-Ends _ (read.locate_narrow, read.order_narrow, field-lt 21 25 msg bytes))

    parse_delete-Ends : Ends msg (parse_delete len c)
    unfolding parse_delete
    parse_delete-Ends =
        length-Ends 19 len _ (λ e. yielding-Ends _ (read.locate_narrow, read.order_narrow))

    parse_replace-Ends : Ends msg (parse_replace len msg c)
    unfolding parse_replace
    parse_replace-Ends = length-Ends 35 len _ (λ e.
        Ends.answers
          (
            (read.locate_narrow, read.order_narrow),
            (
              (
                read.locate_narrow,
                field-lt 21 29 msg bytes,
                field-lt 29 33 msg bytes,
                field-lt 33 37 msg bytes,
              ),
              tt,
            ),
          )
          (omega arith) (omega arith))

    module _ (msg_type : ℕ) (here : get_elem? msg 2 ≡ some msg_type)
        (named : names_stock msg_type ≡ true) where
      action-Ends : (action : Option TradeActionCode) → Ends msg (action_result c action)
      action-Ends none = failing-Ends _
      action-Ends (some action) =
          symbol-Ends msg_type _ here named (λ s. yielding-Ends _ read.locate_narrow)

      halt-Ends : (market : ℕ) (code : Option Bool) → Ends msg (halt_result c market code)
      halt-Ends market none = failing-Ends _
      halt-Ends market (some is_halt) =
          symbol-Ends msg_type _ here named (λ s. yielding-Ends _ read.locate_narrow)

      parse_directory-Ends : Ends msg (parse_directory len c)
      unfolding parse_directory
      parse_directory-Ends =
          length-Ends 39 len _
            (λ e. symbol-Ends msg_type _ here named (λ s. yielding-Ends _ read.locate_narrow))

      parse_action-Ends : Ends msg (parse_action len msg c)
      unfolding parse_action
      parse_action-Ends =
          length-Ends 25 len _
            (λ e. byte-Ends 21 _ (omega (arith, whole, e)) (λ b. action-Ends (trade_action_of b)))

      parse_halt-Ends : Ends msg (parse_halt len msg c)
      unfolding parse_halt
      parse_halt-Ends = length-Ends 21 len _ (λ e.
          byte-Ends 21 _ (omega (arith, whole, e)) (λ market.
            if_Ends (not (is_market market)) (λ _. failing-Ends _)
              (λ _.
                byte-Ends 22 _ (omega (arith, whole, e)) (λ b. halt-Ends market (halt_code_of b)))))

  dispatch-Ends :
      (msg_type len : ℕ)
      → length msg ≡ len + 2
      → get_elem? msg 2 ≡ some msg_type
      → Ends msg (dispatch msg_type len msg c)
  unfolding dispatch
  dispatch-Ends msg_type len whole here =
      if_Ends (msg_type == b'S') (λ _. parse_event-Ends len whole)
        (λ _.
          if_Ends (msg_type == b'R')
            (λ e. parse_directory-Ends len whole msg_type here (ground (arith, e)))
            (λ _.
              if_Ends (msg_type == b'H')
                (λ e. parse_action-Ends len whole msg_type here (ground (arith, e)))
                (λ _.
                  if_Ends (msg_type == b'Y') (λ _. parse_ignored-Ends len whole 20)
                    (λ _.
                      if_Ends (msg_type == b'L') (λ _. parse_ignored-Ends len whole 26)
                        (λ _.
                          if_Ends (msg_type == b'V') (λ _. parse_ignored-Ends len whole 35)
                            (λ _.
                              if_Ends (msg_type == b'W') (λ _. parse_ignored-Ends len whole 12)
                                (λ _.
                                  if_Ends (msg_type == b'K') (λ _. parse_ignored-Ends len whole 28)
                                    (λ _.
                                      if_Ends (msg_type == b'J')
                                        (λ _. parse_ignored-Ends len whole 35)
                                        (λ _.
                                          if_Ends (msg_type == b'h')
                                            (λ e.
                                              parse_halt-Ends len whole msg_type here
                                                (ground (arith, e)))
                                            (λ _.
                                              if_Ends (msg_type == b'A')
                                                (λ _. parse_add-Ends len whole 36 (omega arith))
                                                (λ _.
                                                  if_Ends (msg_type == b'F')
                                                    (λ _. parse_add-Ends len whole 40 (omega arith))
                                                    (λ _.
                                                      if_Ends (msg_type == b'E')
                                                        (λ _. parse_reduce-Ends len whole 31)
                                                        (λ _.
                                                          if_Ends (msg_type == b'C')
                                                            (λ _. parse_reduce-Ends len whole 36)
                                                            (λ _.
                                                            if_Ends (msg_type == b'X')
                                                            (λ _. parse_reduce-Ends len whole 23)
                                                            (λ _.
                                                            if_Ends (msg_type == b'D')
                                                            (λ _. parse_delete-Ends len whole)
                                                            (λ _.
                                                            if_Ends (msg_type == b'U')
                                                            (λ _. parse_replace-Ends len whole)
                                                            (λ _.
                                                            if_Ends (msg_type == b'P')
                                                            (λ _. parse_ignored-Ends len whole 44)
                                                            (λ _.
                                                            if_Ends (msg_type == b'Q')
                                                            (λ _. parse_ignored-Ends len whole 40)
                                                            (λ _.
                                                            if_Ends (msg_type == b'B')
                                                            (λ _. parse_ignored-Ends len whole 17)
                                                            (λ _.
                                                            if_Ends (msg_type == b'I')
                                                            (λ _. parse_ignored-Ends len whole 50)
                                                            (λ _.
                                                            if_Ends (msg_type == b'N')
                                                            (λ _. parse_ignored-Ends len whole 20)
                                                            (λ _.
                                                            if_Ends (msg_type == b'O')
                                                            (λ _. parse_ignored-Ends len whole 48)
                                                            (λ _.
                                                            failing-Ends _)))))))))))))))))))))))

two_bytes :
    (msg : List ℕ)
    → length msg ≤ 2
    → length msg ≡ int_from_bytes (slice 0 2 msg) + 2
    → length msg ≡ 2
two_bytes msg h e = omega arith

-- A call on any bytes yields one or two results, whose fields fit their types: 16 bits for a locate
-- number, 64 for an order, 32 for shares and a price. Or it raises AssertionError where the length is
-- not what the message says, IndexError where the message is empty, UnboundLocalError where the type
-- is `R`, `H` or `h` and the symbol is not UTF-8, and nothing else.
pub parse_msg-Ends : (msg : List ℕ) → IsBytes msg → Ends msg (parse_msg msg)
unfolding parse_msg
parse_msg-Ends msg bytes =
    if_Ends (not (length msg == int_from_bytes (slice 0 2 msg) + 2))
      (λ e. Ends.wrong_length (ground (arith, e)))
      (λ e. elim (Option-cases (get_elem? msg 2)) [
        | inl absent ↦
            rw absent
              (Ends.no_type (two_bytes msg (get_elem?-none 2 msg absent) (ground (arith, e))))
        | inr (msg_type, here) ↦ rw here (
            dispatch-Ends msg bytes _
              (record {
                locate_narrow = field-lt 3 5 msg bytes;
                order_narrow = field-lt 13 21 msg bytes;
                symbol_read = refl;
              })
              msg_type (int_from_bytes (slice 0 2 msg)) (ground (arith, e)) here)
      ])
