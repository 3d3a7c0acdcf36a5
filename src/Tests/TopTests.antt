-- ===== src/Tests/TopTests.antt =====
-- src/ref_model/top.py at concrete packets.
use nasdaq_itch_parser_order.Prelude.{
  ℕ, ◌*◌, ◌^◌, arith, List, map, ◌≡◌, refl, true, false, some, [], ◌∷◌,
}
use nasdaq_itch_parser_order.Prelude.Int.{ℤ}
use nasdaq_itch_parser_order.Bytes.{concat}
use nasdaq_itch_parser_order.Dict.{Dict}
use nasdaq_itch_parser_order.Mapping
use nasdaq_itch_parser_order.Structs.{ret, ok, assertion_error, directory_msg, L3Entry, Str}
use nasdaq_itch_parser_order.L2.Levels
use nasdaq_itch_parser_order.Control
use nasdaq_itch_parser_order.Mold
use nasdaq_itch_parser_order.Mold.Payload.{packet, advance}
use nasdaq_itch_parser_order.Itch.Wire.{WireMsg, w_add, w_replace, encode, meaning}
use nasdaq_itch_parser_order.Top
use nasdaq_itch_parser_order.Top.Entries.{test_parse_pkt}
use nasdaq_itch_parser_order.Top.Parsing.{test_parse_pkt-packet}
use nasdaq_itch_parser_order.Top.{Top, Locals, Verdict, process_pkt, take_result, no_quote}
use nasdaq_itch_parser_order.Top.Driver.{ref_axis_send_packet, send_packet-process_pkt}
use nasdaq_itch_parser_order.Top.Stream.{
  IsStream, raises, process_pkt-IsStream, duplicate_directory-raises,
}

abbrev fresh : Top (Dict L3Entry) (Dict ℤ)
fresh = Top.init true [] []

process_pkt-IsStream_example :
    IsStream
      (process_pkt Mapping.dict_ops Levels.dict_ops (0 ∷ []) fresh).results
      (raises (process_pkt Mapping.dict_ops Levels.dict_ops (0 ∷ []) fresh).outcome)
process_pkt-IsStream_example = process_pkt-IsStream Mapping.dict_ops Levels.dict_ops fresh (0 ∷ [])

abbrev symbol : Str
symbol = 65 ∷ 77 ∷ 68 ∷ 32 ∷ 32 ∷ 32 ∷ 32 ∷ 32 ∷ []

-- in the hours of the feed, with the locate number 344 known to both modules
abbrev running : Top (Dict L3Entry) (Dict ℤ)
running = record fresh {
  ctrl = record Control.new {
    initialized = true;
    stock_symbol = some symbol;
    stock_locate = some 344;
    msg_hours = true;
  };
  stock_locate = some 344;
}

abbrev at_first : Locals
at_first = record { output_flag = false; quote = no_quote }

duplicate_directory-raises_example :
    (take_result Mapping.dict_ops Levels.dict_ops
      (ok (directory_msg 344 symbol))
      at_first
      running).0
    ≡ Verdict.raise assertion_error
duplicate_directory-raises_example =
    duplicate_directory-raises Mapping.dict_ops Levels.dict_ops running 344 symbol at_first refl
      refl refl refl refl

abbrev three_bytes : List ℕ
three_bytes = 1 ∷ 2 ∷ 3 ∷ []

abbrev two_gaps : ℕ → ℕ
two_gaps word_idx = 2

send_packet-process_pkt_example :
    ref_axis_send_packet Mapping.dict_ops Levels.dict_ops three_bytes two_gaps fresh
    ≡ process_pkt Mapping.dict_ops Levels.dict_ops three_bytes fresh
send_packet-process_pkt_example =
    send_packet-process_pkt Mapping.dict_ops Levels.dict_ops three_bytes two_gaps fresh
      (omega arith, (omega arith, (omega arith, tt))) (omega arith) refl

-- the session of the historical data, `20191230BX`
abbrev session : List ℕ
session = 50 ∷ 48 ∷ 49 ∷ 57 ∷ 49 ∷ 50 ∷ 51 ∷ 48 ∷ 66 ∷ 88 ∷ []

-- an order, and its replacement
abbrev two_orders : List WireMsg
two_orders = w_add 344 10 true 100 (5 * 10 ^ 4) false ∷ w_replace 344 10 11 70 (6 * 10 ^ 4) ∷ []

test_parse_pkt-packet_example :
    test_parse_pkt (packet session 1 (map encode two_orders)) Mold.init
    ≡ ((concat (map meaning two_orders), ret tt), advance session 2 Mold.init)
test_parse_pkt-packet_example =
    test_parse_pkt-packet session two_orders Mold.init refl (omega arith) (omega arith)
      (
        (omega arith, omega arith, omega arith, omega arith),
        ((omega arith, omega arith, omega arith, omega arith, omega arith), tt),
      )
      (λ h. cc)
