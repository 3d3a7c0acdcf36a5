-- ===== src/Mold/Payload.antt =====
-- Whole packets: the round trip from messages to a packet and back, what an accepted packet is, and
-- how the expected sequence number moves.
use nasdaq_itch_parser_order.Prelude.{
  ℕ, ◌+◌, ◌^◌, ◌<◌, ◌≤◌, ◌≡◌, refl, sym, ap, ◌∙◌, List, [], ◌++◌, arith, All, length, take, drop,
  slice, length-append, append-nil, take-append, drop-append, ltb_le, ==_refl, true, inl, inr,
  Bool-cases, str_eq_refl, str_eq_sound, Option, none, some,
}
use nasdaq_itch_parser_order.Bytes.{
  int_from_bytes, to_big, drop-drop, length-to_big, int_from-to_big, concat,
}
use nasdaq_itch_parser_order.Structs.{ModuleResult, ok, error}
use nasdaq_itch_parser_order.Mold.{
  MoldUdp64Parser, split_payload, finish, note_session, same_session, process_pkt,
}
use nasdaq_itch_parser_order.Mold.Frames.{IsFrame, Cuts, split_payload-frames, split_payload-Cuts}

-- `gen_header` of tests/pkt_gen.py, with the session as bytes, in front of the messages
unfoldable pub packet : List ℕ → ℕ → List (List ℕ) → List ℕ
packet session seq_number msgs =
    session ++ (to_big 8 seq_number ++ (to_big 2 (length msgs) ++ concat msgs))

-- the parser after it has taken a packet of `n` messages of the session
abbrev pub advance : List ℕ → ℕ → MoldUdp64Parser → MoldUdp64Parser
advance session n p = record {
  seq_expected = p.seq_expected + n;
  session_id = some session;
  first_pkt_received = true;
}

-- The session of a parser is not known yet, or is the one given.
abbrev pub Follows : List ℕ → MoldUdp64Parser → Type 0
Follows session p = (p.first_pkt_received ≡ true) → (p.session_id ≡ some session)

header_fields :
    (session : List ℕ) (seq : ℕ) (msgs : List (List ℕ))
    → length session ≡ 10
    → seq < 256 ^ 8
    → length msgs < 256 ^ 2
    → (slice 0 10 (packet session seq msgs) ≡ session)
      × (int_from_bytes (slice 10 18 (packet session seq msgs)) ≡ seq)
      × (int_from_bytes (slice 18 20 (packet session seq msgs)) ≡ length msgs)
      × (drop 20 (packet session seq msgs) ≡ concat msgs)
      × (length (packet session seq msgs) ≡ 20 + length (concat msgs))
unfolding packet
header_fields session seq msgs ten small few =
    let body = concat msgs in
    let counted = to_big 2 (length msgs) ++ body in
    let numbered = to_big 8 seq ++ counted in
    let pkt = session ++ numbered in
    let at10 : drop 10 pkt ≡ numbered = drop-append 10 session numbered ten in
    let at18 : drop 18 pkt ≡ counted =
      sym (drop-drop 10 8 pkt) ∙ ap (drop 8) at10 ∙ drop-append 8 _ counted (length-to_big 8 seq) in
    let at20 : drop 20 pkt ≡ body =
      sym (drop-drop 18 2 pkt)
      ∙ ap (drop 2) at18
      ∙ drop-append 2 _ body (length-to_big 2 (length msgs)) in
    (
      take-append 10 session numbered ten,
      ap (λ (t : List ℕ). int_from_bytes (take 8 t)) at10
          ∙ ap int_from_bytes (take-append 8 _ counted (length-to_big 8 seq))
          ∙ int_from-to_big 8 seq small,
      ap (λ (t : List ℕ). int_from_bytes (take 2 t)) at18
          ∙ ap int_from_bytes (take-append 2 _ body (length-to_big 2 (length msgs)))
          ∙ int_from-to_big 2 (length msgs) few,
      at20,
      omega (
        arith,
        ten,
        length-append session numbered,
        length-append (to_big 8 seq) counted,
        length-append (to_big 2 (length msgs)) body,
        length-to_big 8 seq,
        length-to_big 2 (length msgs),
      ),
    )

same-note_session :
    (session : List ℕ) (p : MoldUdp64Parser)
    → Follows session p
    → (same_session session (note_session session p).session_id ≡ true)
      × ((note_session session p).seq_expected ≡ p.seq_expected)
unfolding same_session note_session
same-note_session session p h = elim (Bool-cases p.first_pkt_received) [
  | inl old ↦ rw (old, h old, str_eq_refl session) (refl, refl)
  | inr new ↦ rw (new, str_eq_refl session) (refl, refl)
]

advance-note_session :
    (session : List ℕ) (n : ℕ) (p : MoldUdp64Parser)
    → Follows session p
    → record (note_session session p) { seq_expected = p.seq_expected + n } ≡ advance session n p
unfolding note_session
advance-note_session session n p h = elim (Bool-cases p.first_pkt_received) [
  | inl old ↦ ground (arith, h old)
  | inr new ↦ ground arith
]

-- A packet of a session of ten bytes, the session of the parser or its first one, with the expected
-- number, below 2^64, and fewer than 2^16 framed messages gives back these messages, and the parser
-- then expects the number behind them.
pub process_pkt-packet :
    (session : List ℕ) (msgs : List (List ℕ)) (p : MoldUdp64Parser)
    → length session ≡ 10
    → p.seq_expected < 256 ^ 8
    → length msgs < 256 ^ 2
    → All IsFrame msgs
    → Follows session p
    → process_pkt p (packet session p.seq_expected msgs)
      ≡ (ok msgs, advance session (length msgs) p)
unfolding process_pkt finish
process_pkt-packet session msgs p ten small few framed follows =
    let (f0, f1, f2, f3, f4) = header_fields session p.seq_expected msgs ten small few in
    let (same, number) = same-note_session session p follows in
    let cut =
      split_payload-frames msgs (packet session p.seq_expected msgs) [] 20 [] framed
        (f3 ∙ sym (append-nil _)) in
    rw
      (
        ltb_le (length (packet session p.seq_expected msgs)) 20 (omega (arith, f4)),
        f0,
        f1,
        f2,
        same,
        number,
        ==_refl p.seq_expected,
        cut,
        f4,
        ==_refl (20 + length (concat msgs)),
      )
      (ap (λ q. (ok msgs, q)) (advance-note_session session (length msgs) p follows))

-- What an accepted packet is, and the state behind it.
pub record Accepted (p : MoldUdp64Parser) (pkt : List ℕ) (msgs : List (List ℕ))
    (p' : MoldUdp64Parser) : Type 0 where
  pub header : 20 ≤ length pkt
  pub session : Follows (slice 0 10 pkt) p
  pub number : int_from_bytes (slice 10 18 pkt) ≡ p.seq_expected
  pub payload : Cuts (int_from_bytes (slice 18 20 pkt)) pkt 20 (length pkt) msgs
  pub state : p' ≡ advance (slice 0 10 pkt) (length msgs) p

finish-ok :
    (pkt : List ℕ) (r : ModuleResult (List (List ℕ) × ℕ)) (msgs : List (List ℕ))
    → finish pkt r ≡ ok msgs
    → r ≡ ok (msgs, length pkt)
unfolding finish
finish-ok pkt (ok (out, idx)) msgs h = ground arith
finish-ok pkt (error e) msgs h = cc

same_session_sound : (s : List ℕ) (o : Option (List ℕ)) → same_session s o ≡ true → o ≡ some s
unfolding same_session
same_session_sound s none h = cc
same_session_sound s (some t) h = ap some (sym (str_eq_sound s t h))

note_session_old :
    (session : List ℕ) (p : MoldUdp64Parser)
    → p.first_pkt_received ≡ true
    → note_session session p ≡ p
unfolding note_session
note_session_old session p h = ground arith

pub seq-note_session :
    (session : List ℕ) (p : MoldUdp64Parser)
    → (note_session session p).seq_expected ≡ p.seq_expected
unfolding note_session
seq-note_session session p = ground arith

follows_of_same :
    (session : List ℕ) (p : MoldUdp64Parser)
    → same_session session (note_session session p).session_id ≡ true
    → Follows session p
follows_of_same session p h old =
    same_session_sound session p.session_id (rw (note_session_old session p old) at h)

-- the tests that a packet has passed
passed :
    (p p' : MoldUdp64Parser) (pkt : List ℕ) (msgs : List (List ℕ))
    → process_pkt p pkt ≡ (ok msgs, p')
    → (20 ≤ length pkt)
      × (same_session (slice 0 10 pkt) (note_session (slice 0 10 pkt) p).session_id ≡ true)
      × (int_from_bytes (slice 10 18 pkt) ≡ (note_session (slice 0 10 pkt) p).seq_expected)
      × (finish pkt (split_payload (int_from_bytes (slice 18 20 pkt)) pkt 20 []) ≡ ok msgs)
      × (p' ≡ record (note_session (slice 0 10 pkt) p) {
        seq_expected =
            (note_session (slice 0 10 pkt) p).seq_expected + int_from_bytes (slice 18 20 pkt);
      })
unfolding process_pkt
passed p p' pkt msgs h = ground arith

-- An accepted packet is of the session, has the expected number, and is exactly a header and as many
-- messages as it says, those that are returned. The parser then expects the number behind them.
pub process_pkt-Accepted :
    (p p' : MoldUdp64Parser) (pkt : List ℕ) (msgs : List (List ℕ))
    → process_pkt p pkt ≡ (ok msgs, p')
    → Accepted p pkt msgs p'
process_pkt-Accepted p p' pkt msgs h =
    let (long, same, number, done, state) = passed p p' pkt msgs h in
    let session = slice 0 10 pkt in
    let count = int_from_bytes (slice 18 20 pkt) in
    let follows = follows_of_same session p same in
    let (frames, e, c) =
      split_payload-Cuts count pkt 20 [] msgs (length pkt) long (finish-ok pkt _ msgs done) in
    record {
      header = long;
      session = follows;
      number = number ∙ seq-note_session session p;
      payload = rw e c;
      state =
          state
          ∙ ap (λ (n : ℕ). record (note_session session p) { seq_expected = n })
              (omega (arith, seq-note_session session p))
          ∙ advance-note_session session count p follows
          ∙ ap (λ (n : ℕ). advance session n p) (sym c.count ∙ ap length (sym e));
    }
