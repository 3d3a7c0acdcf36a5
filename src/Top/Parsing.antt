-- ===== src/Top/Parsing.antt =====
-- `Top.test_parse_pkt`, from a packet of generated messages to the messages of the book.
use nasdaq_itch_parser_order.Prelude.{
  ℕ, ◌+◌, ◌^◌, ◌<◌, ◌≡◌, refl, true, List, [], ◌∷◌, All, map, length, take, slice, arith, inl, inr,
  Bool-cases, ◌==◌,
}
use nasdaq_itch_parser_order.Bytes.{int_from_bytes, concat}
use nasdaq_itch_parser_order.Structs.{ret}
use nasdaq_itch_parser_order.Mold.{MoldUdp64Parser}
use nasdaq_itch_parser_order.Mold.Frames.{IsFrame}
use nasdaq_itch_parser_order.Mold.Payload.{packet, advance, Follows, process_pkt-packet}
use nasdaq_itch_parser_order.Itch.{parse_msg}
use nasdaq_itch_parser_order.Itch.Cases.{Results}
use nasdaq_itch_parser_order.Itch.Wire.{WireMsg, encode, Fits, meaning, parse-encode}
use nasdaq_itch_parser_order.Top.Entries.{parse_all, test_parse_pkt}

same_length : (a b : ℕ) → (a == b + 2) ≡ true → a ≡ 2 + b
same_length a b h = ground arith

-- a message that the parser answers has the length that it says
parse_msg-IsFrame : (msg : List ℕ) (results : Results) → parse_msg msg ≡ ret results → IsFrame msg
unfolding parse_msg
parse_msg-IsFrame msg results h =
    elim (Bool-cases (length msg == int_from_bytes (slice 0 2 msg) + 2)) [
      | inl e ↦ same_length (length msg) (int_from_bytes (take 2 msg)) e
      | inr e ↦ absurd (cc (rw e at h))
    ]

abbrev pub AllFit : List WireMsg → Type 0
AllFit ws = All Fits ws

encode-frames : (ws : List WireMsg) → AllFit ws → All IsFrame (map encode ws)
encode-frames [] h = tt
encode-frames (w ∷ ws) h =
    (parse_msg-IsFrame (encode w) (meaning w) (parse-encode w h.0), encode-frames ws h.1)

parse_all-encode :
    (ws : List WireMsg) → AllFit ws → parse_all (map encode ws) ≡ (concat (map meaning ws), ret tt)
unfolding parse_all concat
parse_all-encode [] h = refl
parse_all-encode (w ∷ ws) h = rw (parse-encode w h.0, parse_all-encode ws h.1) refl

length-map-encode : (ws : List WireMsg) → length (map encode ws) ≡ length ws
length-map-encode [] = refl
length-map-encode (w ∷ ws) = omega (arith, length-map-encode ws)

-- A packet of a session of ten bytes, the session of the parser or its first one, with the expected
-- number, below 2^64, and fewer than 2^16 generated messages whose fields fit: the entry point yields what the messages mean, one after the other, without an exception, and the parser
-- expects the number behind them.
pub test_parse_pkt-packet :
    (session : List ℕ) (ws : List WireMsg) (p : MoldUdp64Parser)
    → length session ≡ 10
    → p.seq_expected < 256 ^ 8
    → length ws < 256 ^ 2
    → AllFit ws
    → Follows session p
    → test_parse_pkt (packet session p.seq_expected (map encode ws)) p
      ≡ ((concat (map meaning ws), ret tt), advance session (length ws) p)
unfolding test_parse_pkt
test_parse_pkt-packet session ws p ten small few fits follows =
    let taken =
      process_pkt-packet session (map encode ws) p ten small
        (omega (arith, length-map-encode ws, few)) (encode-frames ws fits) follows in
    rw (taken, parse_all-encode ws fits, length-map-encode ws) refl
