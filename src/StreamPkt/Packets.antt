-- ===== src/StreamPkt/Packets.antt =====
-- `generate_moldudp_packets` of src/sim/data/stream_pkt.py and the MoldUDP64 parser of
-- src/ref_model/moldudp64_parser.py.
use nasdaq_itch_parser_order.Prelude.{
  ℕ, zero, suc, ◌+◌, ◌^◌, ◌<◌, ◌≤◌, ◌≡◌, refl, ap, ◌∙◌, none, some, List, [], ◌∷◌, ◌++◌, arith, ltb,
  All, length, take, drop, replicate, if◌then◌else◌, inl, inr, Bool-cases, append_assoc,
  length-append, append-nil, take-append-drop, length-drop, length-take, map, ltb_lt,
}
use nasdaq_itch_parser_order.Bytes.{to_big, concat}
use nasdaq_itch_parser_order.Structs.{Outcome, ret, ModuleResult, ok}
use nasdaq_itch_parser_order.Mold
use nasdaq_itch_parser_order.Mold.{MoldUdp64Parser}
use nasdaq_itch_parser_order.Mold.Frames.{IsFrame}
use nasdaq_itch_parser_order.Mold.Payload.{packet, advance, Follows, process_pkt-packet}
use nasdaq_itch_parser_order.StreamPkt.{
  Batch, fill, pack_10s, pack_header, packets_from, generate_moldudp_packets, stream_raw_itch,
}
use nasdaq_itch_parser_order.StreamPkt.Frames.{stream_from-ends}

-- one call of the parser for each packet
unfoldable pub parse_pkts : MoldUdp64Parser → List (List ℕ) → List (ModuleResult (List (List ℕ)))
parse_pkts p [] = []
parse_pkts p (pkt ∷ pkts) = let r = Mold.process_pkt p pkt in r.0 ∷ parse_pkts r.1 pkts

-- full batches from the front of a stream, at most `rounds`
unfoldable pub batches : ℕ → (ℕ → ℕ) → ℕ → List (List ℕ) → List (List (List ℕ))
batches zero sizes round msgs = []
batches (suc n) sizes round msgs =
    let rest = batches n sizes (round + 1) (drop (sizes round) msgs) in
    if ltb (length msgs) (sizes round) then [] else take (sizes round) msgs ∷ rest

abbrev batch : List ℕ → ℕ → List (List ℕ) → Batch
batch body n msgs = record { batch_messages = body; msg_count = n; itch_stream = msgs }

fill-enough :
    (n count : ℕ) (body : List ℕ) (msgs : List (List ℕ))
    → n ≤ length msgs
    → fill n (batch body count msgs)
      ≡ some (batch (body ++ concat (take n msgs)) (count + n) (drop n msgs))
unfolding fill concat
fill-enough zero count body msgs h =
    let e : count ≡ count + 0 = omega arith in rw (append-nil body, ← e) refl
fill-enough (suc n) count body [] h = absurd (omega arith)
fill-enough (suc n) count body (msg ∷ msgs) h =
    let e : count + 1 + n ≡ count + suc n = omega arith in
    fill-enough n (count + 1) (body ++ msg) msgs (omega (arith, h))
    ∙ rw (e, append_assoc body msg (concat (take n msgs))) refl

fill-short :
    (n count : ℕ) (body : List ℕ) (msgs : List (List ℕ))
    → length msgs < n
    → fill n (batch body count msgs) ≡ none
unfolding fill
fill-short zero count body msgs h = absurd (omega arith)
fill-short (suc n) count body [] h = refl
fill-short (suc n) count body (msg ∷ msgs) h =
    fill-short n (count + 1) (body ++ msg) msgs (omega (arith, h))

length-pack_10s : (session : List ℕ) → length (pack_10s session) ≡ 10
length-pack_10s session =
    let z : ℕ = 0 in
    length-take 10 (session ++ replicate 10 z)
    ∙ omega (arith, length-append session (replicate 10 z))

header_fits :
    (session : List ℕ) (seq n : ℕ)
    → seq < 256 ^ 8
    → n < 256 ^ 2
    → pack_header session seq n ≡ ret (pack_10s session ++ (to_big 8 seq ++ to_big 2 n))
unfolding pack_header
header_fits session seq n h k = rw (ltb_lt seq (256 ^ 8) h, ltb_lt n (256 ^ 2) k) refl

-- the header and the messages are a packet
header_body :
    (session : List ℕ) (seq : ℕ) (msgs : List (List ℕ))
    → (session ++ (to_big 8 seq ++ to_big 2 (length msgs))) ++ concat msgs ≡ packet session seq msgs
unfolding packet
header_body session seq msgs =
    append_assoc session (to_big 8 seq ++ to_big 2 (length msgs)) (concat msgs)
    ∙ ap (λ (xs : List ℕ). session ++ xs)
        (append_assoc (to_big 8 seq) (to_big 2 (length msgs)) (concat msgs))

All-take-drop :
    (n : ℕ) (msgs : List (List ℕ))
    → All IsFrame msgs
    → All IsFrame (take n msgs) × All IsFrame (drop n msgs)
All-take-drop zero msgs h = (tt, h)
All-take-drop (suc n) [] h = (tt, tt)
All-take-drop (suc n) (msg ∷ msgs) h = let (a, b) = All-take-drop n msgs h.1 in ((h.0, a), b)

-- a full batch is a packet of its messages
full_round :
    (n : ℕ) (session : List ℕ) (sizes : ℕ → ℕ) (round seq : ℕ) (msgs : List (List ℕ))
    → sizes round < 256 ^ 2
    → seq < 256 ^ 8
    → sizes round ≤ length msgs
    → let later =
        packets_from n session sizes
          (round + 1)
          (seq + length (take (sizes round) msgs))
          (drop (sizes round) msgs) in
      packets_from (suc n) session sizes round seq msgs
      ≡ (packet (pack_10s session) seq (take (sizes round) msgs) ∷ later.0, later.1)
unfolding packets_from
full_round n session sizes round seq msgs small h k =
    let size = sizes round in
    let taken = take size msgs in
    let count : 0 + size ≡ length taken = omega (arith, length-take size msgs) in
    rw
      (
        packets_from,
        fill-enough size 0 [] msgs k,
        count,
        header_fits session seq (length taken) h (omega (arith, count)),
        ← header_body (pack_10s session) seq taken,
      )
      refl

-- the generator stops where a batch does not fill
short_round :
    (n : ℕ) (session : List ℕ) (sizes : ℕ → ℕ) (round seq : ℕ) (msgs : List (List ℕ))
    → length msgs < sizes round
    → packets_from (suc n) session sizes round seq msgs ≡ ([], ret tt)
unfolding packets_from
short_round n session sizes round seq msgs h =
    rw (packets_from, fill-short (sizes round) 0 [] msgs h) refl

-- the parser on a full batch
parse_first :
    (session : List ℕ) (p : MoldUdp64Parser) (msgs : List (List ℕ)) (pkts : List (List ℕ))
    → length session ≡ 10
    → p.seq_expected < 256 ^ 8
    → length msgs < 256 ^ 2
    → All IsFrame msgs
    → Follows session p
    → parse_pkts p (packet session p.seq_expected msgs ∷ pkts)
      ≡ ok msgs ∷ parse_pkts (advance session (length msgs) p) pkts
unfolding parse_pkts
parse_first session p msgs pkts ten small few framed follows =
    ap (λ (r : ModuleResult (List (List ℕ)) × MoldUdp64Parser). r.0 ∷ parse_pkts r.1 pkts)
      (process_pkt-packet session msgs p ten small few framed follows)

module _ (session : List ℕ) (sizes : ℕ → ℕ) (small : (j : ℕ) → sizes j < 256 ^ 2) where
  abbrev Parsed : ℕ → ℕ → MoldUdp64Parser → List (List ℕ) → Type 0
  Parsed n round p msgs =
      ((packets_from n session sizes round p.seq_expected msgs).1 ≡ ret tt)
      × (parse_pkts p (packets_from n session sizes round p.seq_expected msgs).0
          ≡ map ok (batches n sizes round msgs))

  packets_from-Parsed :
      (n round : ℕ) (p : MoldUdp64Parser) (msgs : List (List ℕ))
      → All IsFrame msgs
      → p.seq_expected + length msgs < 256 ^ 8
      → Follows (pack_10s session) p
      → Parsed n round p msgs
  unfolding packets_from parse_pkts batches
  packets_from-Parsed zero round p msgs framed fits follows = (refl, refl)
  packets_from-Parsed (suc n) round p msgs framed fits follows =
      elim (Bool-cases (ltb (length msgs) (sizes round))) [
        | inl h ↦
            let none_left = short_round n session sizes round p.seq_expected msgs (ground arith) in
            rw (none_left, h) (refl, refl)
        | inr h ↦
            let size = sizes round in
            let taken = take size msgs in
            let full : size ≤ length msgs = ground arith in
            let count : length taken ≡ size = omega (arith, length-take size msgs) in
            let (framed_now, framed_then) = All-take-drop size msgs framed in
            let later =
              packets_from-Parsed n (round + 1) (advance (pack_10s session) (length taken) p)
                (drop size msgs) framed_then (omega (arith, count, length-drop size msgs, fits))
                (λ _. refl) in
            let now =
              full_round n session sizes round p.seq_expected msgs (small round) (omega arith)
                full in
            let parsed =
              parse_first (pack_10s session) p taken
                (packets_from n session sizes (round + 1) (p.seq_expected + length taken)
                  (drop size msgs)).0
                (length-pack_10s session) (omega arith) (omega (arith, count, small round))
                framed_now follows in
            (
              ap (λ (r : List (List ℕ) × Outcome (Unit {0})). r.1) now ∙ later.0,
              ap (λ (r : List (List ℕ) × Outcome (Unit {0})). parse_pkts p r.0) now
                  ∙ parsed
                  ∙ ap (λ rs. ok taken ∷ rs) later.1
                  ∙ rw h refl,
            )
      ]

-- full batches are the front of the stream, in order
pub batches-front :
    (n : ℕ) (sizes : ℕ → ℕ) (round : ℕ) (msgs : List (List ℕ))
    → (rest : List (List ℕ)) × (concat (batches n sizes round msgs) ++ rest ≡ msgs)
unfolding batches concat
batches-front zero sizes round msgs = (msgs, refl)
batches-front (suc n) sizes round msgs = elim (Bool-cases (ltb (length msgs) (sizes round))) [
  | inl h ↦ rw h (msgs, refl)
  | inr h ↦
      let (rest, e) = batches-front n sizes (round + 1) (drop (sizes round) msgs) in
      rw h (
        rest,
        append_assoc (take (sizes round) msgs) _ rest
            ∙ ap (λ (xs : List (List ℕ)). take (sizes round) msgs ++ xs) e
            ∙ take-append-drop (sizes round) msgs,
      )
]

length-frames : (msgs : List (List ℕ)) → All IsFrame msgs → length msgs ≤ length (concat msgs)
unfolding concat
length-frames [] h = omega arith
length-frames (msg ∷ msgs) h =
    omega (arith, length-append msg (concat msgs), length-frames msgs h.1, h.0)

-- What the first packets of a file, at most `rounds`, become: no exception stops the generator, and a
-- new parser accepts each packet and gives back its batch, the batches being full ones from the front
-- of the stream, in order. Each batch is below 2^16 messages, and the file below 2^64 - 1 bytes.
pub generate-parse :
    (rounds : ℕ) (file session : List ℕ) (sizes : ℕ → ℕ)
    → ((j : ℕ) → sizes j < 256 ^ 2)
    → 1 + length file < 256 ^ 8
    → (msgs : List (List ℕ)) × (pkts : List (List ℕ)) × (rest : List (List ℕ)) × (stream_raw_itch
          file
        ≡ some msgs)
      × (generate_moldudp_packets rounds file session sizes ≡ some (pkts, ret tt))
      × (parse_pkts Mold.init pkts ≡ map ok (batches rounds sizes 0 msgs))
      × (concat (batches rounds sizes 0 msgs) ++ rest ≡ msgs)
unfolding generate_moldudp_packets stream_raw_itch
generate-parse rounds file session sizes small short =
    let (msgs, e, s) = stream_from-ends file in
    let ends = e (suc (length file)) (omega arith) in
    let few : length msgs ≤ length file = omega (
      arith,
      length-frames msgs s.framed,
      ap (λ (xs : List ℕ). length xs) s.covers,
      length-append (concat msgs) s.tail,
    ) in
    let (fine, parsed) =
      packets_from-Parsed session sizes small rounds 0 Mold.init msgs s.framed
        (omega (arith, few, short)) (λ h. absurd cc) in
    let (rest, front) = batches-front rounds sizes 0 msgs in
    (
      msgs,
      (packets_from rounds session sizes 0 1 msgs).0,
      rest,
      ends,
      rw (generate_moldudp_packets, ends)
          (ap (λ (o : Outcome (Unit {0})). some ((packets_from rounds session sizes 0 1 msgs).0, o))
            fine),
      parsed,
      front,
    )
