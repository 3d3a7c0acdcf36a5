-- ===== src/Mold/Frames.antt =====
-- The loop over the messages of a packet.
use nasdaq_itch_parser_order.Prelude.{
  ℕ, zero, suc, ◌+◌, ◌-◌, ◌≤◌, ◌≡◌, refl, sym, ap, ◌∙◌, List, [], ◌∷◌, ◌++◌, arith, All, length,
  take, drop, slice, length-append, length-take, length-drop, take-append, drop-append,
  take-append-drop, append_assoc, append-nil, ltb_le,
}
use nasdaq_itch_parser_order.Bytes.{
  int_from_bytes, concat, take_of_append, take-take, slice-take, drop-drop,
}
use nasdaq_itch_parser_order.Structs.{ok}
use nasdaq_itch_parser_order.Mold.{split_payload}

-- a message, the two length bytes included
abbrev pub IsFrame : List ℕ → Type 0
IsFrame msg = length msg ≡ 2 + int_from_bytes (take 2 msg)

-- a packet whose bytes from `idx` on begin with a frame is cut there
frame_at :
    (pkt msg rest : List ℕ) (idx : ℕ)
    → IsFrame msg
    → drop idx pkt ≡ msg ++ rest
    → (int_from_bytes (slice idx (idx + 2) pkt) + 2 ≡ length msg)
      × (slice idx (idx + length msg) pkt ≡ msg)
      × (drop (idx + length msg) pkt ≡ rest)
      × (idx + length msg ≤ length pkt)
frame_at pkt msg rest idx frame h =
    let two : take 2 (msg ++ rest) ≡ take 2 msg = take_of_append 2 msg rest (omega arith) in
    (
      rw (slice-take idx 2 pkt, h, two) (omega arith),
      rw (slice-take idx (length msg) pkt, h) (take-append (length msg) msg rest refl),
      rw (← drop-drop idx (length msg) pkt, h) (drop-append (length msg) msg rest refl),
      omega (arith, length-drop idx pkt, ap length h, length-append msg rest),
    )

-- A payload that is a row of frames is cut into these frames.
pub split_payload-frames :
    (msgs : List (List ℕ)) (pkt rest : List ℕ) (idx : ℕ) (before : List (List ℕ))
    → All IsFrame msgs
    → drop idx pkt ≡ concat msgs ++ rest
    → split_payload (length msgs) pkt idx before ≡ ok (before ++ msgs, idx + length (concat msgs))
unfolding split_payload concat
split_payload-frames [] pkt rest idx before h e =
    let same : idx + 0 ≡ idx = omega arith in rw (same, append-nil)
split_payload-frames (msg ∷ msgs) pkt rest idx before h e =
    let (len, cut, left, fits) =
      frame_at pkt msg (concat msgs ++ rest) idx h.0 (e ∙ append_assoc msg (concat msgs) rest) in
    let next : idx + 2 + int_from_bytes (slice idx (idx + 2) pkt) ≡ idx + length msg =
      omega (arith, len) in
    let ih = split_payload-frames msgs pkt rest (idx + length msg) (before ++ msg ∷ []) h.1 left in
    let total : idx + length msg + length (concat msgs) ≡ idx + length (msg ++ concat msgs) =
      omega (arith, length-append msg (concat msgs)) in
    rw (
      ltb_le (length pkt) (idx + 2) (omega (arith, len, fits)),
      next,
      ltb_le (length pkt) (idx + length msg) fits,
      cut,
      ih,
      total,
      append_assoc before (msg ∷ []) msgs,
    )

-- What a cutting of the bytes of `pkt` from `idx` to `stop` into `n` frames is.
pub record Cuts (n : ℕ) (pkt : List ℕ) (idx stop : ℕ) (frames : List (List ℕ)) : Type 0 where
  pub count : length frames ≡ n
  pub framed : All IsFrame frames
  pub covers : drop idx pkt ≡ concat frames ++ drop stop pkt
  pub ends : stop ≡ idx + length (concat frames)
  pub inside : stop ≤ length pkt

-- one frame more in front
Cuts-cons :
    (n : ℕ) (pkt : List ℕ) (idx next stop : ℕ) (frames : List (List ℕ))
    → next ≡ idx + 2 + int_from_bytes (slice idx (idx + 2) pkt)
    → next ≤ length pkt
    → Cuts n pkt next stop frames
    → Cuts (suc n) pkt idx stop (slice idx next pkt ∷ frames)
unfolding concat
Cuts-cons n pkt idx next stop frames e fits c =
    let size : ℕ = next - idx in
    let front = take size (drop idx pkt) in
    let whole : front ++ drop next pkt ≡ drop idx pkt =
      let e' : idx + size ≡ next = omega arith in
      ap (λ (t : ℕ). front ++ drop t pkt) (sym e')
      ∙ ap (λ (t : List ℕ). front ++ t) (sym (drop-drop idx size pkt))
      ∙ take-append-drop size (drop idx pkt) in
    let len : length front ≡ size =
      omega (arith, length-take size (drop idx pkt), length-drop idx pkt) in
    let two : take 2 front ≡ slice idx (idx + 2) pkt =
      take-take 2 size (drop idx pkt) (omega arith) ∙ sym (slice-take idx 2 pkt) in
    record {
      count = omega (arith, c.count);
      framed = (rw two (omega arith), c.framed);
      covers =
          sym whole
          ∙ ap (λ (t : List ℕ). front ++ t) c.covers
          ∙ sym (append_assoc front (concat frames) (drop stop pkt));
      ends = omega (arith, c.ends, length-append front (concat frames));
      inside = c.inside;
    }

abbrev next_of : List ℕ → ℕ → ℕ
next_of pkt idx = idx + 2 + int_from_bytes (slice idx (idx + 2) pkt)

-- a round that does not fail
split_step :
    (n : ℕ) (pkt : List ℕ) (idx : ℕ) (before msgs : List (List ℕ)) (stop : ℕ)
    → split_payload (suc n) pkt idx before ≡ ok (msgs, stop)
    → (next_of pkt idx ≤ length pkt)
      × (split_payload n pkt (next_of pkt idx) (before ++ slice idx (next_of pkt idx) pkt ∷ [])
          ≡ ok (msgs, stop))
unfolding split_payload
split_step n pkt idx before msgs stop e = ground arith

-- What the loop returns is a cutting of the bytes that it has read.
pub split_payload-Cuts :
    (n : ℕ) (pkt : List ℕ) (idx : ℕ) (before msgs : List (List ℕ)) (stop : ℕ)
    → idx ≤ length pkt
    → split_payload n pkt idx before ≡ ok (msgs, stop)
    → (frames : List (List ℕ)) × (msgs ≡ before ++ frames) × Cuts n pkt idx stop frames
unfolding split_payload concat
split_payload-Cuts zero pkt idx before msgs stop h e =
    let same : msgs ≡ before = cc in
    let still : stop ≡ idx = cc in
    (
      [],
      same ∙ sym (append-nil before),
      record {
        count = refl;
        framed = tt;
        covers = rw still;
        ends = omega arith;
        inside = omega arith;
      },
    )
split_payload-Cuts (suc n) pkt idx before msgs stop h e =
    let (fits, rest) = split_step n pkt idx before msgs stop e in
    let next = next_of pkt idx in
    let (frames, made, c) =
      split_payload-Cuts n pkt next (before ++ slice idx next pkt ∷ []) msgs stop fits rest in
    (
      slice idx next pkt ∷ frames,
      made ∙ append_assoc before (slice idx next pkt ∷ []) frames,
      Cuts-cons n pkt idx next stop frames refl fits c,
    )
