-- ===== src/Tests/MoldTests.antt =====
-- src/ref_model/moldudp64_parser.py at concrete packets.
use nasdaq_itch_parser_order.Prelude.{ℕ, ◌+◌, ◌≡◌, ◌⊎◌, refl, List, [], ◌∷◌, ◌++◌, arith, slice}
use nasdaq_itch_parser_order.Bytes.{to_big, from_big, int_from_bytes}
use nasdaq_itch_parser_order.Structs.{ok, error, plain, packet_terminated}
use nasdaq_itch_parser_order.Mold
use nasdaq_itch_parser_order.Mold.{process_pkt}
use nasdaq_itch_parser_order.Mold.Payload.{
  packet, advance, Accepted, process_pkt-packet, process_pkt-Accepted,
}
use nasdaq_itch_parser_order.Mold.Rejects.{IsHeaderError, IsPayloadError, process_pkt-rejected}

-- the session of the historical data, `20191230BX`
abbrev session : List ℕ
session = 50 ∷ 48 ∷ 49 ∷ 57 ∷ 49 ∷ 50 ∷ 51 ∷ 48 ∷ 66 ∷ 88 ∷ []

abbrev two_msgs : List (List ℕ)
two_msgs = (0 ∷ 3 ∷ 65 ∷ 1 ∷ 2 ∷ []) ∷ (0 ∷ 1 ∷ 68 ∷ []) ∷ []

process_pkt-packet_example :
    process_pkt Mold.init (packet session 1 two_msgs) ≡ (ok two_msgs, advance session 2 Mold.init)
unfolding from_big
process_pkt-packet_example =
    process_pkt-packet session two_msgs Mold.init refl (omega arith) (omega arith) (omega arith)
      (λ h. cc)

process_pkt-Accepted_example :
    Accepted Mold.init (packet session 1 two_msgs) two_msgs (advance session 2 Mold.init)
process_pkt-Accepted_example =
    process_pkt-Accepted Mold.init (advance session 2 Mold.init) (packet session 1 two_msgs)
      two_msgs process_pkt-packet_example

-- one message is announced, and there is none
abbrev cut_short : List ℕ
cut_short = session ++ (to_big 8 1 ++ to_big 2 1)

cut_short_result :
    process_pkt Mold.init cut_short ≡ (error (plain packet_terminated), advance session 1 Mold.init)
unfolding to_big from_big Mold.process_pkt Mold.split_payload Mold.finish Mold.note_session
    Mold.same_session
cut_short_result = refl

process_pkt-rejected_example :
    (IsHeaderError Mold.init cut_short (plain packet_terminated)
      × ((advance session 1 Mold.init).seq_expected ≡ Mold.init.seq_expected))
    ⊎ (IsPayloadError (plain packet_terminated)
        × ((advance session 1 Mold.init).seq_expected
            ≡ Mold.init.seq_expected + int_from_bytes (slice 18 20 cut_short)))
process_pkt-rejected_example =
    process_pkt-rejected Mold.init (advance session 1 Mold.init) cut_short (plain packet_terminated)
      cut_short_result
