-- ===== src/Mold.antt =====
-- src/ref_model/moldudp64_parser.py: packets are checked against the session and the sequence
-- number, and cut into messages, each with its two length bytes in front.
pub mod Frames
pub mod Payload
pub mod Rejects
use nasdaq_itch_parser_order.Prelude.{
  ℕ, zero, suc, ◌+◌, Bool, true, false, not, Option, none, some, List, [], ◌∷◌, ◌++◌, ltb, ◌==◌,
  if◌then◌else◌, length, slice, str_eq,
}
use nasdaq_itch_parser_order.Bytes.{int_from_bytes}
use nasdaq_itch_parser_order.Structs.{
  ModuleResult, ok, error, fail, packet_too_short, session_id_mismatch, seq_number_mismatch,
  packet_terminated, packet_has_remaining_bytes,
}

pub record MoldUdp64Parser : Type 0 where
  pub seq_expected : ℕ
  pub session_id : Option (List ℕ)
  pub first_pkt_received : Bool

abbrev pub init : MoldUdp64Parser
init = record { seq_expected = 1; session_id = none; first_pkt_received = false }

-- The loop over `range(msg_count)`, on `idx` and `itch_msgs`.
unfoldable pub split_payload : ℕ → List ℕ → ℕ → List (List ℕ) → ModuleResult (List (List ℕ) × ℕ)
split_payload zero pkt idx itch_msgs = ok (itch_msgs, idx)
split_payload (suc n) pkt idx itch_msgs =
    let msg_byte_len = int_from_bytes (slice idx (idx + 2) pkt) in
    let next = idx + 2 + msg_byte_len in
    let rest = split_payload n pkt next (itch_msgs ++ slice idx next pkt ∷ []) in
    if ltb (length pkt) (idx + 2)
    then fail packet_terminated
    else if ltb (length pkt) next
    then fail packet_terminated
    else rest

-- the test behind the loop
unfoldable pub finish : List ℕ → ModuleResult (List (List ℕ) × ℕ) → ModuleResult (List (List ℕ))
finish pkt (ok (itch_msgs, idx)) =
    if length pkt == idx then ok itch_msgs else fail packet_has_remaining_bytes
finish pkt (error e) = error e

-- what the first packet sets
unfoldable pub note_session : List ℕ → MoldUdp64Parser → MoldUdp64Parser
note_session session_id p =
    if p.first_pkt_received
    then p
    else record p { session_id = some session_id; first_pkt_received = true }

-- `session_id == self.session_id`
unfoldable pub same_session : List ℕ → Option (List ℕ) → Bool
same_session s none = false
same_session s (some t) = str_eq s t

unfoldable pub process_pkt :
    MoldUdp64Parser → List ℕ → ModuleResult (List (List ℕ)) × MoldUdp64Parser
process_pkt self pkt =
    let session_id = slice 0 10 pkt in
    let seq_received = int_from_bytes (slice 10 18 pkt) in
    let msg_count = int_from_bytes (slice 18 20 pkt) in
    let p = note_session session_id self in
    let advanced = record p { seq_expected = p.seq_expected + msg_count } in
    if ltb (length pkt) 20
    then (fail (packet_too_short (length pkt)), self)
    else if not (same_session session_id p.session_id)
    then (fail session_id_mismatch, p)
    else if not (seq_received == p.seq_expected)
    then (fail (seq_number_mismatch p.seq_expected seq_received), p)
    else (finish pkt (split_payload msg_count pkt 20 []), advanced)
