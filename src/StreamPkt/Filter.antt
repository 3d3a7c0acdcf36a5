-- ===== src/StreamPkt/Filter.antt =====
-- `filter_itch_file` of src/sim/data/stream_pkt.py against the stream of the file that it reads.
use nasdaq_itch_parser_order.Prelude.{
  ℕ, zero, suc, ◌+◌, ◌<◌, ◌≤◌, ◌≡◌, refl, sym, ap, ◌∙◌, Bool, ◌||◌, ◌&&◌, some, List, [], ◌∷◌, ◌++◌,
  arith, leb, ◌==◌, All, length, take, drop, slice, if◌then◌else◌, inl, inr, Bool-cases,
  append_assoc, length-append, Option, append-nil, length-drop, length-take,
}
use nasdaq_itch_parser_order.Bytes.{int_from_bytes, concat}
use nasdaq_itch_parser_order.Mold.Frames.{IsFrame}
use nasdaq_itch_parser_order.StreamPkt.{
  in_front, written, stream_from, stream_raw_itch, filter_from, filter_itch_file,
}
use nasdaq_itch_parser_order.StreamPkt.Frames.{
  IsTorn, behind, passes_tests, fails_tests, frame_first, stream_from-frames, stream_from-ends,
}

-- a message, the two length bytes included, that has a locate number, which is the target or 0
abbrev pub is_selected : ℕ → List ℕ → Bool
is_selected target msg =
    let locate = int_from_bytes (slice 3 5 msg) in
    leb 5 (length msg) && (locate == target || (locate == 0))

unfoldable pub selected : ℕ → List (List ℕ) → List (List ℕ)
selected target [] = []
selected target (msg ∷ msgs) =
    let rest = selected target msgs in if is_selected target msg then msg ∷ rest else rest

filter_from-whole :
    (target fuel : ℕ) (f : List ℕ)
    → 2 + int_from_bytes (take 2 f) ≤ length f
    → filter_from target (suc fuel) f
      ≡ in_front
          (written target (take 2 f) (take (int_from_bytes (take 2 f)) (drop 2 f)))
          (filter_from target fuel (behind f))
unfolding filter_from
filter_from-whole target fuel f h = let (a, b) = passes_tests f h in rw (a, b) refl

filter_from-torn :
    (target fuel : ℕ) (f : List ℕ) → IsTorn f → filter_from target (suc fuel) f ≡ some []
unfolding filter_from
filter_from-torn target fuel f h = elim (fails_tests f h) [
  | inl a ↦ rw a refl
  | inr (a, b) ↦ rw (a, b) refl
]

-- what is written of a message is the message or nothing
written-selected :
    (target : ℕ) (head body : List ℕ)
    → length head ≡ 2
    → length body ≡ int_from_bytes head
    → written target head body ≡ (if is_selected target (head ++ body) then head ++ body else [])
written-selected target (a ∷ b ∷ []) body h e =
    let long : leb 3 (int_from_bytes (a ∷ b ∷ [])) ≡ leb 5 (suc (suc (length body))) =
      ground arith in
    rw long (elim (Bool-cases (leb 5 (suc (suc (length body))))) [
      | inl w ↦ rw w refl
      | inr w ↦ rw w refl
    ])
written-selected target [] body h e = absurd (omega arith)
written-selected target (a ∷ []) body h e = absurd (omega arith)
written-selected target (a ∷ b ∷ c ∷ ds) body h e = absurd (omega arith)

written_first :
    (target : ℕ) (msg rest : List ℕ)
    → IsFrame msg
    → let f = msg ++ rest in
      written target (take 2 f) (take (int_from_bytes (take 2 f)) (drop 2 f))
      ≡ (if is_selected target msg then msg else [])
written_first target msg rest h =
    let f = msg ++ rest in
    let len = int_from_bytes (take 2 f) in
    let (fits, first, later) = frame_first msg rest h in
    written-selected target (take 2 f) (take len (drop 2 f)) (omega (arith, length-take 2 f, fits))
      (omega (arith, length-take len (drop 2 f), length-drop 2 f, fits))
    ∙ ap (λ (xs : List ℕ). if is_selected target xs then xs else []) first

-- a message in front of those that are written
in_front-selected :
    (target : ℕ) (msg : List ℕ) (msgs : List (List ℕ))
    → in_front (if is_selected target msg then msg else []) (some (concat (selected target msgs)))
      ≡ some (concat (selected target (msg ∷ msgs)))
unfolding selected concat
in_front-selected target msg msgs = elim (Bool-cases (is_selected target msg)) [
  | inl h ↦ rw h refl
  | inr h ↦ rw h refl
]

filter_from-frames :
    (target : ℕ) (msgs : List (List ℕ)) (tail : List ℕ) (fuel : ℕ)
    → All IsFrame msgs
    → IsTorn tail
    → length (concat msgs ++ tail) < fuel
    → filter_from target fuel (concat msgs ++ tail) ≡ some (concat (selected target msgs))
unfolding concat selected
filter_from-frames target msgs tail zero h t k = absurd (omega arith)
filter_from-frames target [] tail (suc fuel) h t k = filter_from-torn target fuel tail t
filter_from-frames target (msg ∷ msgs) tail (suc fuel) h t k =
    let rest = concat msgs ++ tail in
    let (fits, first, later) = frame_first msg rest h.0 in
    let size : length (msg ++ concat msgs ++ tail) ≡ length (msg ++ rest) =
      ap (λ (xs : List ℕ). length xs) (append_assoc msg (concat msgs) tail) in
    let long : 2 ≤ length msg = omega (arith, h.0) in
    ap (λ (xs : List ℕ). filter_from target (suc fuel) xs) (append_assoc msg (concat msgs) tail)
    ∙ filter_from-whole target fuel (msg ++ rest) fits
    ∙ ap (λ (xs : List ℕ). in_front xs (filter_from target fuel (behind (msg ++ rest))))
        (written_first target msg rest h.0)
    ∙ ap
        (λ (xs : List ℕ).
          in_front (if is_selected target msg then msg else []) (filter_from target fuel xs))
        later
    ∙ ap (λ (o : Option (List ℕ)). in_front (if is_selected target msg then msg else []) o)
        (filter_from-frames target msgs tail fuel h.1 t
          (omega (arith, size, length-append msg rest)))
    ∙ in_front-selected target msg msgs

selected-frames :
    (target : ℕ) (msgs : List (List ℕ)) → All IsFrame msgs → All IsFrame (selected target msgs)
unfolding selected
selected-frames target [] h = tt
selected-frames target (msg ∷ msgs) h = elim (Bool-cases (is_selected target msg)) [
  | inl w ↦ rw w (h.0, selected-frames target msgs h.1)
  | inr w ↦ rw w (selected-frames target msgs h.1)
]

-- For every file and target, both loops end, and the stream of the file that is written is the stream
-- of the file that is read, without the messages that have no locate number or another one than the
-- target and 0.
pub filter-stream :
    (file : List ℕ) (target : ℕ)
    → (msgs : List (List ℕ)) × (out : List ℕ) × (stream_raw_itch file ≡ some msgs)
      × (filter_itch_file file target ≡ some out)
      × (stream_raw_itch out ≡ some (selected target msgs))
unfolding stream_raw_itch filter_itch_file
filter-stream file target =
    let (msgs, e, s) = stream_from-ends file in
    let out = concat (selected target msgs) in
    (
      msgs,
      out,
      e (suc (length file)) (omega arith),
      ap (λ (xs : List ℕ). filter_from target (suc (length file)) xs) s.covers
          ∙ filter_from-frames target msgs s.tail (suc (length file)) s.framed s.torn
              (omega (arith, ap (λ (xs : List ℕ). length xs) s.covers)),
      ap (λ (xs : List ℕ). stream_from (suc (length out)) xs) (sym (append-nil out))
          ∙ stream_from-frames (selected target msgs) [] (suc (length out))
              (selected-frames target msgs s.framed) (omega arith)
              (omega (arith, ap (λ (xs : List ℕ). length xs) (append-nil out))),
    )
