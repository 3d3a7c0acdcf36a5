-- ===== src/Tests/StreamPktTests.antt =====
-- src/sim/data/stream_pkt.py at small files, and its packets at the parser.
use nasdaq_itch_parser_order.Prelude.{
  ℕ, ◌<◌, ◌≡◌, refl, some, List, [], ◌∷◌, ◌++◌, map, arith, length,
}
use nasdaq_itch_parser_order.Bytes.{concat, from_big}
use nasdaq_itch_parser_order.Structs.{ret, ok}
use nasdaq_itch_parser_order.Mold
use nasdaq_itch_parser_order.StreamPkt.{
  stream_from, stream_raw_itch, filter_from, filter_itch_file, generate_moldudp_packets,
}
use nasdaq_itch_parser_order.StreamPkt.Frames.{StreamOf, stream_from-ends}
use nasdaq_itch_parser_order.StreamPkt.Filter.{selected, filter-stream}
use nasdaq_itch_parser_order.StreamPkt.Packets.{parse_pkts, batches, generate-parse}

-- a message of 3 bytes with locate number 344, one of 1 byte, one with locate number 7, and a torn end
abbrev small_file : List ℕ
small_file = 0 ∷ 3 ∷ b'X' ∷ 1 ∷ 88 ∷ 0 ∷ 1 ∷ b'S' ∷ 0 ∷ 3 ∷ b'D' ∷ 0 ∷ 7 ∷ 0 ∷ 9 ∷ 65 ∷ []

small_file_stream :
    stream_raw_itch small_file
    ≡ some ((0 ∷ 3 ∷ b'X' ∷ 1 ∷ 88 ∷ []) ∷ (0 ∷ 1 ∷ b'S' ∷ []) ∷ (0 ∷ 3 ∷ b'D' ∷ 0 ∷ 7 ∷ []) ∷ [])
unfolding stream_raw_itch stream_from from_big
small_file_stream = refl

small_file_filter : filter_itch_file small_file 344 ≡ some (0 ∷ 3 ∷ b'X' ∷ 1 ∷ 88 ∷ [])
unfolding filter_itch_file filter_from from_big
small_file_filter = refl

stream_from-ends_example :
    (msgs : List (List ℕ)) × ((fuel : ℕ)
      → length small_file < fuel
      → stream_from fuel small_file ≡ some msgs)
    × StreamOf small_file msgs
stream_from-ends_example = stream_from-ends small_file

filter-stream_example :
    (msgs : List (List ℕ)) × (out : List ℕ) × (stream_raw_itch small_file ≡ some msgs)
    × (filter_itch_file small_file 344 ≡ some out)
    × (stream_raw_itch out ≡ some (selected 344 msgs))
filter-stream_example = filter-stream small_file 344

abbrev by_two : ℕ → ℕ
by_two round = 2

abbrev feed : List ℕ
feed = 70 ∷ 69 ∷ 69 ∷ 68 ∷ []

generate-parse_example :
    (msgs : List (List ℕ)) × (pkts : List (List ℕ)) × (rest : List (List ℕ)) × (stream_raw_itch
        small_file
      ≡ some msgs)
    × (generate_moldudp_packets 5 small_file feed by_two ≡ some (pkts, ret tt))
    × (parse_pkts Mold.init pkts ≡ map ok (batches 5 by_two 0 msgs))
    × (concat (batches 5 by_two 0 msgs) ++ rest ≡ msgs)
generate-parse_example = generate-parse 5 small_file feed by_two (λ j. omega arith) (omega arith)
