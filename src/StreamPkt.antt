-- ===== src/StreamPkt.antt =====
-- src/sim/data/stream_pkt.py: a recorded feed is a file of messages, each behind two length bytes; it is
-- read as a stream, filtered by locate number, and put into MoldUDP64 packets. A file is its bytes.
pub mod Frames
pub mod Filter
pub mod Packets
use nasdaq_itch_parser_order.Prelude.{
  ℕ, zero, suc, ◌+◌, ◌^◌, Bool, true, false, ◌||◌, ◌&&◌, Option, none, some, List, [], ◌∷◌, ◌++◌,
  ltb, leb, ◌==◌, if◌then◌else◌, length, take, drop, slice, replicate,
}
use nasdaq_itch_parser_order.Bytes.{int_from_bytes, to_big}
use nasdaq_itch_parser_order.Structs.{Outcome, ret, raised, struct_error}

abbrev pub in_front {ℓ} : {A : Type ℓ} → List A → Option (List A) → Option (List A)
in_front xs none = none
in_front xs (some ys) = some (xs ++ ys)

-- The rounds of `while True`, on the bytes that are not read yet; `none` where the fuel is used up.
unfoldable pub stream_from : ℕ → List ℕ → Option (List (List ℕ))
stream_from zero f = none
stream_from (suc fuel) f =
    let len_bytes = take 2 f in
    let msg_len = int_from_bytes len_bytes in
    let msg = take msg_len (drop 2 f) in
    let rest = stream_from fuel (drop msg_len (drop 2 f)) in
    if ltb (length len_bytes) 2
    then some []
    else if ltb (length msg) msg_len
    then some []
    else in_front ((len_bytes ++ msg) ∷ []) rest

-- what the generator yields; a round reads two bytes at least
unfoldable pub stream_raw_itch : List ℕ → Option (List (List ℕ))
stream_raw_itch file = stream_from (suc (length file)) file

-- what is written of a message
abbrev pub written : ℕ → (length_bytes message : List ℕ) → List ℕ
written target_locate length_bytes message =
    let stock_locate = int_from_bytes (slice 1 3 message) in
    if leb 3 (int_from_bytes length_bytes)
    then (if stock_locate == target_locate || (stock_locate == 0)
        then length_bytes ++ message
        else [])
    else []

unfoldable pub filter_from : ℕ → ℕ → List ℕ → Option (List ℕ)
filter_from target_locate zero infile = none
filter_from target_locate (suc fuel) infile =
    let length_bytes = take 2 infile in
    let msg_length = int_from_bytes length_bytes in
    let message = take msg_length (drop 2 infile) in
    let rest = filter_from target_locate fuel (drop msg_length (drop 2 infile)) in
    if ltb (length length_bytes) 2
    then some []
    else if ltb (length message) msg_length
    then some []
    else in_front (written target_locate length_bytes message) rest

-- the bytes of the file that is written
unfoldable pub filter_itch_file : List ℕ → ℕ → Option (List ℕ)
filter_itch_file infile target_locate = filter_from target_locate (suc (length infile)) infile

-- `struct.pack`'s `10s`: cut or filled up with zeros
abbrev pub pack_10s : List ℕ → List ℕ
pack_10s session_id = take 10 (session_id ++ replicate 10 0)

-- `struct.pack(">10sQH", session_id, current_seq, msg_count)`
unfoldable pub pack_header : List ℕ → ℕ → ℕ → Outcome (List ℕ)
pack_header session_id current_seq msg_count =
    if ltb current_seq (256 ^ 8) && ltb msg_count (256 ^ 2)
    then ret (pack_10s session_id ++ (to_big 8 current_seq ++ to_big 2 msg_count))
    else raised struct_error

pub record Batch : Type 0 where
  pub batch_messages : List ℕ
  pub msg_count : ℕ
  pub itch_stream : List (List ℕ)

-- `for _ in range(batch_size)`; `none` for the `StopIteration` of `next(itch_stream)`
unfoldable pub fill : ℕ → Batch → Option Batch
fill zero b = some b
fill (suc n) b = elim b.itch_stream [
  | [] ↦ none
  | msg ∷ msgs ↦ fill n (record {
    batch_messages = b.batch_messages ++ msg;
    msg_count = b.msg_count + 1;
    itch_stream = msgs;
  })
]

-- one packet more, unless an exception came before it
abbrev pub yield_pkt :
    Outcome (List ℕ)
    → List ℕ
    → List (List ℕ) × Outcome (Unit {0})
    → List (List ℕ) × Outcome (Unit {0})
yield_pkt (raised e) body rest = ([], raised e)
yield_pkt (ret header) body rest = ((header ++ body) ∷ rest.0, rest.1)

-- The first packets that the generator yields, at most `rounds`, with an exception behind them if one
-- comes. `sizes` stands for the random numbers, a size for each round.
unfoldable pub packets_from :
    (rounds : ℕ)
    → (session_id : List ℕ) → (sizes : ℕ → ℕ) → (round current_seq : ℕ) → List (List ℕ)
    → List (List ℕ) × Outcome (Unit {0})
packets_from zero session_id sizes round current_seq itch_stream = ([], ret tt)
packets_from (suc n) session_id sizes round current_seq itch_stream =
    elim (fill (sizes round)
      (record { batch_messages = []; msg_count = 0; itch_stream = itch_stream })) [
        | none ↦ ([], ret tt)
        | some b ↦
            yield_pkt (pack_header session_id current_seq b.msg_count) b.batch_messages (
              packets_from n session_id sizes (round + 1) (current_seq + b.msg_count) b.itch_stream)
      ]

unfoldable pub generate_moldudp_packets :
    ℕ → List ℕ → List ℕ → (ℕ → ℕ) → Option (List (List ℕ) × Outcome (Unit {0}))
generate_moldudp_packets rounds file session_id sizes = elim (stream_raw_itch file) [
  | none ↦ none
  | some itch_stream ↦ some (packets_from rounds session_id sizes 0 1 itch_stream)
]
