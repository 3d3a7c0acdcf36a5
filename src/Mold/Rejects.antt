-- ===== src/Mold/Rejects.antt =====
-- Rejected packets, and rows of packets.
use nasdaq_itch_parser_order.Prelude.{
  ℕ, zero, suc, ◌+◌, ◌≡◌, ◌⊎◌, refl, sym, ◌∙◌, List, [], ◌∷◌, ◌++◌, arith, length, slice, inl,
}
use nasdaq_itch_parser_order.Bytes.{int_from_bytes}
use nasdaq_itch_parser_order.Structs.{
  ModuleResult, ok, error, error_injective, plain, ErrorText, packet_too_short, session_id_mismatch,
  seq_number_mismatch, packet_terminated, packet_has_remaining_bytes,
}
use nasdaq_itch_parser_order.Mold.{MoldUdp64Parser, split_payload, finish, process_pkt}
use nasdaq_itch_parser_order.Mold.Payload.{seq-note_session}

-- the header is refused
abbrev pub IsHeaderError : MoldUdp64Parser → List ℕ → ErrorText → Type 0
IsHeaderError p pkt e =
    (e ≡ plain (packet_too_short (length pkt)))
    ⊎ (e ≡ plain session_id_mismatch)
    ⊎ (e ≡ plain (seq_number_mismatch p.seq_expected (int_from_bytes (slice 10 18 pkt))))

-- the payload is refused
abbrev pub IsPayloadError : ErrorText → Type 0
IsPayloadError e = (e ≡ plain packet_terminated) ⊎ (e ≡ plain packet_has_remaining_bytes)

split_payload-error :
    (n : ℕ) (pkt : List ℕ) (idx : ℕ) (before : List (List ℕ)) (e : ErrorText)
    → split_payload n pkt idx before ≡ error e
    → e ≡ plain packet_terminated
unfolding split_payload
split_payload-error zero pkt idx before e h = cc
split_payload-error (suc n) pkt idx before e h =
    let next = idx + 2 + int_from_bytes (slice idx (idx + 2) pkt) in
    ground (arith, split_payload-error n pkt next (before ++ slice idx next pkt ∷ []) e)

finish-error :
    (pkt : List ℕ) (r : ModuleResult (List (List ℕ) × ℕ)) (e : ErrorText)
    → ((f : ErrorText) → r ≡ error f → f ≡ plain packet_terminated)
    → finish pkt r ≡ error e
    → IsPayloadError e
unfolding finish
finish-error pkt (ok (msgs, idx)) e only h = ground arith
finish-error pkt (error f) e only h = inl (sym (error_injective h) ∙ only f refl)

payload-error :
    (n : ℕ) (pkt : List ℕ) (e : ErrorText)
    → finish pkt (split_payload n pkt 20 []) ≡ error e
    → IsPayloadError e
payload-error n pkt e h = finish-error pkt _ e (split_payload-error n pkt 20 []) h

-- A packet is rejected for its header, and then the expected number stays; or it is rejected for
-- its payload, and then its messages are counted as received all the same.
pub process_pkt-rejected :
    (p p' : MoldUdp64Parser) (pkt : List ℕ) (e : ErrorText)
    → process_pkt p pkt ≡ (error e, p')
    → (IsHeaderError p pkt e × (p'.seq_expected ≡ p.seq_expected))
      ⊎ (IsPayloadError e × (p'.seq_expected ≡ p.seq_expected + int_from_bytes (slice 18 20 pkt)))
unfolding process_pkt
process_pkt-rejected p p' pkt e h = ground (
  arith,
  seq-note_session (slice 0 10 pkt) p,
  payload-error (int_from_bytes (slice 18 20 pkt)) pkt e,
)
