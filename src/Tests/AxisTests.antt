-- ===== src/Tests/AxisTests.antt =====
-- src/ref_model/axis_interpreter.py at a packet of five bytes.
use nasdaq_itch_parser_order.Prelude.{ℕ, ◌≡◌, refl, List, [], ◌∷◌, arith, length}
use nasdaq_itch_parser_order.Structs.{ret}
use nasdaq_itch_parser_order.Axis.{receive, send_packet}
use nasdaq_itch_parser_order.Axis.Delivery.{receive-send_packet}

abbrev five_bytes : List ℕ
five_bytes = 1 ∷ 2 ∷ 3 ∷ 4 ∷ 255 ∷ []

-- the number of the word of gaps before each word
abbrev as_many : ℕ → ℕ
as_many word_idx = word_idx

receive-send_packet_example :
    receive (send_packet five_bytes as_many) [] ≡ (ret (five_bytes ∷ []), [])
receive-send_packet_example =
    receive-send_packet five_bytes as_many
      (omega arith, (omega arith, (omega arith, (omega arith, (omega arith, tt))))) (omega arith)

-- the last word carries one byte, behind a gap
five_bytes_cycles : length (send_packet five_bytes as_many) ≡ 3
unfolding send_packet
five_bytes_cycles = refl
