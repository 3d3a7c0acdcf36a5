-- ===== src/Axis/Delivery.antt =====
-- The cycles of `ref_axis_send_packet`, as `AxisInterpreter.process_bus_cycle` takes them.
use mathlib.Core.Path.{subst}
use nasdaq_itch_parser_order.Prelude.{
  ℕ, zero, suc, ◌+◌, ◌-◌, ◌*◌, ◌<◌, ◌≡◌, sym, ap, ◌∙◌, true, false, none, some, List, [], ◌∷◌, ◌++◌,
  ◌==◌, length, slice, replicate, arith, take, drop, append_assoc, length-append, length-replicate,
  length-take, length-drop, take-append,
}
use nasdaq_itch_parser_order.Bytes.{IsBytes, slice-take, take-take, take-take-drop}
use nasdaq_itch_parser_order.Structs.{ret}
use nasdaq_itch_parser_order.Axis.{
  Cycle, gap, kept, padding_len, padded_data, total_words, tkeep_value, cycles_from, word_cycles,
  send_packet, receive,
}
use nasdaq_itch_parser_order.Axis.Words.{
  Completes, gaps-Completes, receive-Completes, kept-all, mask_of, kept-mask, zeros-IsBytes,
  append-IsBytes, drop-IsBytes, take-IsBytes, word_cycle, cycle-word, cycle-last,
}

module _ (pkt : List ℕ) (drops : ℕ → ℕ) (bytes : IsBytes pkt) where
  abbrev padded : List ℕ
  padded = padded_data pkt

  abbrev chunk : ℕ → List ℕ
  chunk i = slice (i * 4) (i * 4 + 4) padded

  abbrev pad : ℕ
  pad = padding_len pkt

  length-padded : length padded ≡ length pkt + pad
  length-padded =
      let z : ℕ = 0 in
      length-append pkt (replicate pad 0) ∙ ap (λ (n : ℕ). length pkt + n) (length-replicate pad z)

  chunk-take : (i : ℕ) → chunk i ≡ take 4 (drop (i * 4) padded)
  chunk-take i = slice-take (i * 4) 4 padded

  length-chunk : (i : ℕ) → i < total_words pkt → length (chunk i) ≡ 4
  length-chunk i h =
      ap (λ (xs : List ℕ). length xs) (chunk-take i)
      ∙ length-take 4 (drop (i * 4) padded)
      ∙ omega (arith, length-drop (i * 4) padded, length-padded)

  chunk-IsBytes : (i : ℕ) → IsBytes (chunk i)
  chunk-IsBytes i = rw (chunk-take i) (
      take-IsBytes 4 (drop (i * 4) padded) (
        drop-IsBytes (i * 4) padded
          (append-IsBytes pkt (replicate pad 0) bytes (zeros-IsBytes pad))))

  -- a word behind its gaps
  word-Completes :
      (d i : ℕ) (rest : List Cycle) (buffer : List ℕ)
      → Completes
          (word_cycle (chunk i) (i == total_words pkt - 1) (tkeep_value pkt i) ∷ rest)
          buffer
          pkt
      → Completes (word_cycles pkt d i ++ rest) buffer pkt
  unfolding word_cycles
  word-Completes d i rest buffer h =
      rw
        (append_assoc (replicate d (gap (tkeep_value pkt i)))
          (word_cycle (chunk i) (i == total_words pkt - 1) (tkeep_value pkt i) ∷ []) rest)
        (gaps-Completes d (tkeep_value pkt i) _ buffer pkt h)

  grown :
      (i : ℕ)
      → i < total_words pkt
      → take (i * 4) padded ++ kept 15 0 (chunk i) ≡ take ((i + 1) * 4) padded
  grown i h =
      ap (λ (xs : List ℕ). take (i * 4) padded ++ xs)
        (kept-all (chunk i) (length-chunk i h) ∙ chunk-take i)
      ∙ take-take-drop (i * 4) 4 padded
      ∙ ap (λ (n : ℕ). take n padded) (omega arith)

  -- what is behind the valid bytes of the last word is padding
  completed :
      (i : ℕ)
      → i + 1 ≡ total_words pkt
      → take (i * 4) padded ++ kept (mask_of pad) 0 (chunk i) ≡ pkt
  completed i h =
      ap (λ (xs : List ℕ). take (i * 4) padded ++ xs)
        (kept-mask pad (omega arith) (chunk i) (length-chunk i (omega arith))
          ∙ ap (λ (xs : List ℕ). take (4 - pad) xs) (chunk-take i)
          ∙ take-take (4 - pad) 4 (drop (i * 4) padded) (omega arith))
      ∙ take-take-drop (i * 4) (4 - pad) padded
      ∙ take-append (i * 4 + (4 - pad)) pkt (replicate pad 0) (omega (arith, length-padded))

  not_last : (i n : ℕ) → i + suc (suc n) ≡ total_words pkt → (i == total_words pkt - 1) ≡ false
  not_last i n h = ground arith

  at_last : (i : ℕ) → i + 1 ≡ total_words pkt → (i == total_words pkt - 1) ≡ true
  at_last i h = ground arith

  cycles-Completes :
      (n i : ℕ)
      → i + suc n ≡ total_words pkt
      → Completes (cycles_from pkt drops i (suc n)) (take (i * 4) padded) pkt
  unfolding cycles_from
  cycles-Completes zero i h = word-Completes (drops i) i [] (take (i * 4) padded) (
      rw (at_last i (omega arith)) (
        Completes.at_end (
          cycle-last (chunk i) (mask_of pad) (take (i * 4) padded) (length-chunk i (omega arith))
            (chunk-IsBytes i)
          ∙ ap (λ (xs : List ℕ). (ret (some xs), [])) (completed i (omega arith)))))
  cycles-Completes (suc n) i h = word-Completes (drops i) i _ (take (i * 4) padded) (
      rw (not_last i n h) (
        Completes.before_end
          (cycle-word (chunk i) 15 (take (i * 4) padded) (length-chunk i (omega arith))
              (chunk-IsBytes i)
            ∙ ap (λ (xs : List ℕ). (ret none, xs)) (grown i (omega arith)))
          (cycles-Completes n (i + 1) (omega arith))))

pub send_packet-Completes :
    (pkt : List ℕ) (drops : ℕ → ℕ)
    → IsBytes pkt
    → 0 < length pkt
    → Completes (send_packet pkt drops) [] pkt
unfolding send_packet
send_packet-Completes pkt drops bytes h =
    let e : 0 + suc (total_words pkt - 1) ≡ total_words pkt =
      omega (arith, length-padded pkt drops bytes) in
    let f : total_words pkt ≡ suc (total_words pkt - 1) = omega arith in
    subst (λ (n : ℕ). Completes (cycles_from pkt drops 0 n) [] pkt) (sym f)
      (cycles-Completes pkt drops bytes (total_words pkt - 1) 0 e)

-- A packet of at least one byte that the driver sends, with any number of gaps before each word,
-- reaches the callback once and unchanged, and leaves the buffer empty.
pub receive-send_packet :
    (pkt : List ℕ) (drops : ℕ → ℕ)
    → IsBytes pkt
    → 0 < length pkt
    → receive (send_packet pkt drops) [] ≡ (ret (pkt ∷ []), [])
receive-send_packet pkt drops bytes h =
    receive-Completes (send_packet pkt drops) [] pkt (send_packet-Completes pkt drops bytes h)
