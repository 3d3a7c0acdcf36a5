-- ===== src/StreamPkt/Frames.antt =====
-- `stream_raw_itch` of src/sim/data/stream_pkt.py: the loop ends, and what it yields.
use nasdaq_itch_parser_order.Prelude.{
  ℕ, zero, suc, ◌+◌, ◌<◌, ◌≤◌, ◌≡◌, refl, sym, ap, ◌∙◌, true, false, some, List, [], ◌∷◌, ◌++◌,
  arith, ltb, All, length, take, drop, inl, inr, Bool-cases, length-take, length-drop, append_assoc,
  ltb_lt, ltb_le, length-append, take-append, drop-append, take-append-drop, ◌⊎◌, Option,
}
use nasdaq_itch_parser_order.Bytes.{
  int_from_bytes, concat, take_of_append, take-take, drop-drop, take-take-drop,
}
use nasdaq_itch_parser_order.Mold.Frames.{IsFrame}
use nasdaq_itch_parser_order.StreamPkt.{in_front, stream_from}

-- the end of a file, at which no whole message stands
abbrev pub IsTorn : List ℕ → Type 0
IsTorn f = length f < 2 + int_from_bytes (take 2 f)

-- the bytes that a round reads
abbrev pub front : List ℕ → List ℕ
front f = take 2 f ++ take (int_from_bytes (take 2 f)) (drop 2 f)

abbrev pub behind : List ℕ → List ℕ
behind f = drop (int_from_bytes (take 2 f)) (drop 2 f)

front-take : (f : List ℕ) → front f ≡ take (2 + int_from_bytes (take 2 f)) f
front-take f = take-take-drop 2 (int_from_bytes (take 2 f)) f

behind-drop : (f : List ℕ) → behind f ≡ drop (2 + int_from_bytes (take 2 f)) f
behind-drop f = drop-drop 2 (int_from_bytes (take 2 f)) f

-- the tests of a round
pub passes_tests :
    (f : List ℕ)
    → 2 + int_from_bytes (take 2 f) ≤ length f
    → (ltb (length (take 2 f)) 2 ≡ false)
      × (ltb (length (take (int_from_bytes (take 2 f)) (drop 2 f))) (int_from_bytes (take 2 f))
          ≡ false)
passes_tests f h =
    let len = int_from_bytes (take 2 f) in
    (
      ltb_le (length (take 2 f)) 2 (omega (arith, length-take 2 f)),
      ltb_le (length (take len (drop 2 f))) len
          (omega (arith, length-take len (drop 2 f), length-drop 2 f)),
    )

pub fails_tests :
    (f : List ℕ)
    → IsTorn f
    → (ltb (length (take 2 f)) 2 ≡ true)
      ⊎ ((ltb (length (take 2 f)) 2 ≡ false)
          × (ltb (length (take (int_from_bytes (take 2 f)) (drop 2 f))) (int_from_bytes (take 2 f))
              ≡ true))
fails_tests f h =
    let len = int_from_bytes (take 2 f) in
    elim (Bool-cases (ltb (length (take 2 f)) 2)) [
      | inl w ↦ inl w
      | inr w ↦
          let two : 2 ≤ length (take 2 f) = ground arith in
          inr (
            w,
            ltb_lt (length (take len (drop 2 f))) len (
                omega
                  (arith, h, two, length-take 2 f, length-take len (drop 2 f), length-drop 2 f)),
          )
    ]

stream_from-whole :
    (fuel : ℕ) (f : List ℕ)
    → 2 + int_from_bytes (take 2 f) ≤ length f
    → stream_from (suc fuel) f ≡ in_front (front f ∷ []) (stream_from fuel (behind f))
unfolding stream_from
stream_from-whole fuel f h = let (a, b) = passes_tests f h in rw (a, b) refl

stream_from-torn : (fuel : ℕ) (f : List ℕ) → IsTorn f → stream_from (suc fuel) f ≡ some []
unfolding stream_from
stream_from-torn fuel f h = elim (fails_tests f h) [
  | inl a ↦ rw a refl
  | inr (a, b) ↦ rw (a, b) refl
]

-- the messages of a file, and the torn end behind them
pub record StreamOf (f : List ℕ) (msgs : List (List ℕ)) : Type 0 where
  pub framed : All IsFrame msgs
  pub tail : List ℕ
  pub covers : f ≡ concat msgs ++ tail
  pub torn : IsTorn tail

front-IsFrame : (f : List ℕ) → 2 + int_from_bytes (take 2 f) ≤ length f → IsFrame (front f)
front-IsFrame f h =
    let len = int_from_bytes (take 2 f) in
    let same : take 2 (front f) ≡ take 2 f =
      ap (λ (xs : List ℕ). take 2 xs) (front-take f) ∙ take-take 2 (2 + len) f (omega arith) in
    rw same (omega (arith, ap (λ (xs : List ℕ). length xs) (front-take f), length-take (2 + len) f))

front-behind : (f : List ℕ) → front f ++ behind f ≡ f
front-behind f =
    rw (front-take f, behind-drop f) (take-append-drop (2 + int_from_bytes (take 2 f)) f)

shorter : (f : List ℕ) → 2 + int_from_bytes (take 2 f) ≤ length f → length (behind f) < length f
shorter f h = omega (
  arith,
  ap (λ (xs : List ℕ). length xs) (behind-drop f),
  length-drop (2 + int_from_bytes (take 2 f)) f,
)

one_more :
    (f : List ℕ) (msgs : List (List ℕ))
    → 2 + int_from_bytes (take 2 f) ≤ length f
    → StreamOf (behind f) msgs
    → StreamOf f (front f ∷ msgs)
unfolding concat
one_more f msgs h s = record {
  framed = (front-IsFrame f h, s.framed);
  tail = s.tail;
  covers =
      sym (front-behind f)
      ∙ ap (λ (xs : List ℕ). front f ++ xs) s.covers
      ∙ sym (append_assoc (front f) (concat msgs) s.tail);
  torn = s.torn;
}

no_more : (f : List ℕ) → IsTorn f → StreamOf f []
unfolding concat
no_more f h = record { framed = tt; tail = f; covers = refl; torn = h }

pub stream_from-StreamOf :
    (fuel : ℕ) (f : List ℕ)
    → length f < fuel
    → (msgs : List (List ℕ)) × (stream_from fuel f ≡ some msgs) × StreamOf f msgs
stream_from-StreamOf zero f h = absurd (omega arith)
stream_from-StreamOf (suc fuel) f h =
    elim (Bool-cases (ltb (length f) (2 + int_from_bytes (take 2 f)))) [
      | inl t ↦
          let torn : IsTorn f = ground arith in ([], stream_from-torn fuel f torn, no_more f torn)
      | inr t ↦
          let fits : 2 + int_from_bytes (take 2 f) ≤ length f = ground arith in
          let (msgs, e, s) =
            stream_from-StreamOf fuel (behind f) (omega (arith, shorter f fits, h)) in
          (
            front f ∷ msgs,
            stream_from-whole fuel f fits
                ∙ ap (λ (o : Option (List (List ℕ))). in_front (front f ∷ []) o) e,
            one_more f msgs fits s,
          )
    ]

-- a file that begins with a message
pub frame_first :
    (msg rest : List ℕ)
    → IsFrame msg
    → (2 + int_from_bytes (take 2 (msg ++ rest)) ≤ length (msg ++ rest))
      × (front (msg ++ rest) ≡ msg)
      × (behind (msg ++ rest) ≡ rest)
frame_first msg rest h =
    let same : take 2 (msg ++ rest) ≡ take 2 msg = take_of_append 2 msg rest (omega arith) in
    let size : length msg ≡ 2 + int_from_bytes (take 2 (msg ++ rest)) =
      h ∙ ap (λ (xs : List ℕ). 2 + int_from_bytes xs) (sym same) in
    (
      omega (arith, size, length-append msg rest),
      front-take (msg ++ rest) ∙ take-append _ msg rest size,
      behind-drop (msg ++ rest) ∙ drop-append _ msg rest size,
    )

pub stream_from-frames :
    (msgs : List (List ℕ)) (tail : List ℕ) (fuel : ℕ)
    → All IsFrame msgs
    → IsTorn tail
    → length (concat msgs ++ tail) < fuel
    → stream_from fuel (concat msgs ++ tail) ≡ some msgs
unfolding concat
stream_from-frames msgs tail zero h t k = absurd (omega arith)
stream_from-frames [] tail (suc fuel) h t k = stream_from-torn fuel tail t
stream_from-frames (msg ∷ msgs) tail (suc fuel) h t k =
    let rest = concat msgs ++ tail in
    let (fits, first, later) = frame_first msg rest h.0 in
    let size : length (msg ++ concat msgs ++ tail) ≡ length (msg ++ rest) =
      ap (λ (xs : List ℕ). length xs) (append_assoc msg (concat msgs) tail) in
    let long : 2 ≤ length msg = omega (arith, h.0) in
    ap (λ (xs : List ℕ). stream_from (suc fuel) xs) (append_assoc msg (concat msgs) tail)
    ∙ stream_from-whole fuel (msg ++ rest) fits
    ∙ ap (λ (xs : List ℕ). in_front (xs ∷ []) (stream_from fuel (behind (msg ++ rest)))) first
    ∙ ap (λ (xs : List ℕ). in_front (msg ∷ []) (stream_from fuel xs)) later
    ∙ ap (λ (o : Option (List (List ℕ))). in_front (msg ∷ []) o)
        (stream_from-frames msgs tail fuel h.1 t (omega (arith, size, length-append msg rest)))

-- Whatever the bytes of the file are, the loop ends: with any fuel above their number it yields the
-- same messages, each with the length that it says; the file is these messages and an end at which
-- no whole message stands.
pub stream_from-ends :
    (file : List ℕ)
    → (msgs : List (List ℕ)) × ((fuel : ℕ) → length file < fuel → stream_from fuel file ≡ some msgs)
      × StreamOf file msgs
stream_from-ends file =
    let (msgs, e, s) = stream_from-StreamOf (suc (length file)) file (omega arith) in
    (
      msgs,
      λ fuel h.
          ap (λ (xs : List ℕ). stream_from fuel xs) s.covers
          ∙ stream_from-frames msgs s.tail fuel s.framed s.torn
              (omega (arith, ap (λ (xs : List ℕ). length xs) s.covers, h)),
      s,
    )
