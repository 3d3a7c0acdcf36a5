-- ===== src/Axis/Words.antt =====
-- Bytes, words and single cycles of `AxisInterpreter.process_bus_cycle`.
use nasdaq_itch_parser_order.Prelude.{
  ℕ, zero, suc, ◌-◌, ◌^◌, ◌<◌, ◌≡◌, refl, sym, ap, ◌∙◌, Bool, true, false, none, some, List, [],
  ◌∷◌, ◌++◌, ltb, if◌then◌else◌, length, replicate, arith, take, drop, ltb_lt,
}
use nasdaq_itch_parser_order.Bytes.{from_little, to_little, to-from_little, IsBytes}
use nasdaq_itch_parser_order.Structs.{ret}
use nasdaq_itch_parser_order.Axis
use nasdaq_itch_parser_order.Axis.{
  Cycle, gap, kept, padding_len, padded_data, total_words, tkeep_value, cycles_from, word_cycles,
  send_packet, receive,
}

-- a row of cycles that completes a packet with its last cycle, from a buffer on
pub data Completes : List Cycle → List ℕ → List ℕ → Type 0 where
  at_end :
      {c : Cycle} {buffer pkt : List ℕ}
      → Axis.process_bus_cycle c true buffer ≡ (ret (some pkt), [])
      → Completes (c ∷ []) buffer pkt
  before_end :
      {c : Cycle} {cycles : List Cycle} {buffer buffer' pkt : List ℕ}
      → Axis.process_bus_cycle c true buffer ≡ (ret none, buffer')
      → Completes cycles buffer' pkt
      → Completes (c ∷ cycles) buffer pkt

-- gaps change nothing
pub gaps-Completes :
    (n tkeep : ℕ) (cycles : List Cycle) (buffer pkt : List ℕ)
    → Completes cycles buffer pkt
    → Completes (replicate n (gap tkeep) ++ cycles) buffer pkt
unfolding Axis.process_bus_cycle
gaps-Completes zero tkeep cycles buffer pkt h = h
gaps-Completes (suc n) tkeep cycles buffer pkt h =
    Completes.before_end refl (gaps-Completes n tkeep cycles buffer pkt h)

-- four bytes make a word
pub of_four :
    (P : List ℕ → Type 0)
    → ((a b c d : ℕ) → P (a ∷ b ∷ c ∷ d ∷ []))
    → (bs : List ℕ) → length bs ≡ 4
    → P bs
of_four P all (a ∷ b ∷ c ∷ d ∷ []) e = all a b c d
of_four P all _ e = absurd (omega arith)

pub word-lt :
    (a b c d : ℕ) → IsBytes (a ∷ b ∷ c ∷ d ∷ []) → from_little (a ∷ b ∷ c ∷ d ∷ []) < 256 ^ 4
unfolding from_little
word-lt a b c d (ha, (hb, (hc, (hd, _)))) = omega arith

pub from_little-lt : (bs : List ℕ) → length bs ≡ 4 → IsBytes bs → from_little bs < 256 ^ 4
from_little-lt = of_four _ word-lt

pub four_kept : (a b c d : ℕ) → kept 15 0 (a ∷ b ∷ c ∷ d ∷ []) ≡ a ∷ b ∷ c ∷ d ∷ []
unfolding kept
four_kept a b c d = refl

-- all four bytes, and the bytes of a mask of low ones
pub kept-all : (bs : List ℕ) → length bs ≡ 4 → kept 15 0 bs ≡ bs
kept-all = of_four _ four_kept

abbrev pub mask_of : ℕ → ℕ
mask_of pad = if ltb 0 pad then 2 ^ (4 - pad) - 1 else 15

pub masked :
    (pad : ℕ)
    → pad < 4
    → (a b c d : ℕ)
    → kept (mask_of pad) 0 (a ∷ b ∷ c ∷ d ∷ []) ≡ take (4 - pad) (a ∷ b ∷ c ∷ d ∷ [])
unfolding kept
masked zero h a b c d = refl
masked (suc zero) h a b c d = refl
masked (suc (suc zero)) h a b c d = refl
masked (suc (suc (suc zero))) h a b c d = refl
masked (suc (suc (suc (suc n)))) h a b c d = absurd (omega arith)

pub kept-mask :
    (pad : ℕ)
    → pad < 4
    → (bs : List ℕ) → length bs ≡ 4
    → kept (mask_of pad) 0 bs ≡ take (4 - pad) bs
kept-mask pad h = of_four _ (masked pad h)

pub zeros-IsBytes : (n : ℕ) → IsBytes (replicate n 0)
zeros-IsBytes zero = tt
zeros-IsBytes (suc n) = (omega arith, zeros-IsBytes n)

pub append-IsBytes : (xs ys : List ℕ) → IsBytes xs → IsBytes ys → IsBytes (xs ++ ys)
append-IsBytes [] ys h k = k
append-IsBytes (x ∷ xs) ys h k = (h.0, append-IsBytes xs ys h.1 k)

pub drop-IsBytes : (n : ℕ) (xs : List ℕ) → IsBytes xs → IsBytes (drop n xs)
drop-IsBytes zero xs h = h
drop-IsBytes (suc n) [] h = h
drop-IsBytes (suc n) (x ∷ xs) h = drop-IsBytes n xs h.1

pub take-IsBytes : (n : ℕ) (xs : List ℕ) → IsBytes xs → IsBytes (take n xs)
take-IsBytes zero xs h = tt
take-IsBytes (suc n) [] h = h
take-IsBytes (suc n) (x ∷ xs) h = (h.0, take-IsBytes n xs h.1)

abbrev pub word_cycle : List ℕ → Bool → ℕ → Cycle
word_cycle chunk last tkeep = record {
  tdata = from_little chunk;
  tlast = last;
  tvalid = true;
  tkeep = tkeep;
}

pub word_bytes :
    (chunk : List ℕ) → length chunk ≡ 4 → IsBytes chunk → to_little 4 (from_little chunk) ≡ chunk
word_bytes chunk e h =
    ap (λ (n : ℕ). to_little n (from_little chunk)) (sym e) ∙ to-from_little chunk h

-- one word of four bytes, before the last and at the end
pub cycle-word :
    (chunk : List ℕ) (tkeep : ℕ) (buffer : List ℕ)
    → length chunk ≡ 4
    → IsBytes chunk
    → Axis.process_bus_cycle (word_cycle chunk false tkeep) true buffer
      ≡ (ret none, buffer ++ kept tkeep 0 chunk)
unfolding Axis.process_bus_cycle
cycle-word chunk tkeep buffer e h =
    rw (ltb_lt (from_little chunk) (256 ^ 4) (from_little-lt chunk e h), word_bytes chunk e h) refl

pub cycle-last :
    (chunk : List ℕ) (tkeep : ℕ) (buffer : List ℕ)
    → length chunk ≡ 4
    → IsBytes chunk
    → Axis.process_bus_cycle (word_cycle chunk true tkeep) true buffer
      ≡ (ret (some (buffer ++ kept tkeep 0 chunk)), [])
unfolding Axis.process_bus_cycle
cycle-last chunk tkeep buffer e h =
    rw (ltb_lt (from_little chunk) (256 ^ 4) (from_little-lt chunk e h), word_bytes chunk e h) refl

receive-none :
    (c : Cycle) (rest : List Cycle) (buffer buffer' : List ℕ)
    → Axis.process_bus_cycle c true buffer ≡ (ret none, buffer')
    → receive (c ∷ rest) buffer ≡ receive rest buffer'
unfolding receive
receive-none c rest buffer buffer' h = rw (receive, h) (ap (λ r. receive rest r.1) h)

receive-some :
    (c : Cycle) (buffer buffer' pkt : List ℕ)
    → Axis.process_bus_cycle c true buffer ≡ (ret (some pkt), buffer')
    → receive (c ∷ []) buffer ≡ (ret (pkt ∷ []), buffer')
unfolding receive
receive-some c buffer buffer' pkt h = rw (receive, h) (ap (λ r. (ret (pkt ∷ []), r.1)) h)

-- the packet is received
pub receive-Completes :
    (cycles : List Cycle) (buffer pkt : List ℕ)
    → Completes cycles buffer pkt
    → receive cycles buffer ≡ (ret (pkt ∷ []), [])
receive-Completes _ buffer pkt (Completes.at_end h) = receive-some _ buffer [] pkt h
receive-Completes _ buffer pkt (Completes.before_end {c} {cycles} {buffer'} h rest) =
    receive-none c cycles buffer buffer' h ∙ receive-Completes cycles buffer' pkt rest
