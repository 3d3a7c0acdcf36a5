-- ===== src/Utf8.antt =====
-- Python's strict UTF-8 decoding of bytes, `bytes.decode()`: a byte at a time, with the number of
-- continuation bytes still to come, the range of the next one, and the bits so far.
use nasdaq_itch_parser_order.Prelude.{
  ℕ, zero, suc, ◌+◌, ◌-◌, ◌*◌, ◌<◌, ◌≡◌, refl, Bool, ◌&&◌, Option, none, some, List, [], ◌∷◌, All,
  ltb, leb, ltb_lt, ◌==◌, if◌then◌else◌,
}

record Decoder : Type 0 where
  need : ℕ
  low : ℕ
  high : ℕ
  bits : ℕ

abbrev between : ℕ → ℕ → ℕ → Bool
between a b x = leb a x && leb x b

abbrev idle : Decoder
idle = record { need = 0; low = 0x80; high = 0xbf; bits = 0 }

abbrev awaiting : ℕ → ℕ → ℕ → ℕ → Decoder
awaiting need low high bits = record { need = need; low = low; high = high; bits = bits }

-- the first byte of a character: the next state, and the code point if it is complete
lead : ℕ → Option (Decoder × Option ℕ)
lead b =
    if ltb b 0x80
    then some (idle, some b)
    else if between 0xc2 0xdf b
    then some (awaiting 1 0x80 0xbf (b - 0xc0), none)
    else if b == 0xe0
    then some (awaiting 2 0xa0 0xbf 0, none)
    else if b == 0xed
    then some (awaiting 2 0x80 0x9f 0xd, none)
    else if between 0xe1 0xef b
    then some (awaiting 2 0x80 0xbf (b - 0xe0), none)
    else if b == 0xf0
    then some (awaiting 3 0x90 0xbf 0, none)
    else if between 0xf1 0xf3 b
    then some (awaiting 3 0x80 0xbf (b - 0xf0), none)
    else if b == 0xf4
    then some (awaiting 3 0x80 0x8f 4, none)
    else none

follow : ℕ → Decoder → ℕ → Option (Decoder × Option ℕ)
follow left d b =
    let bits = d.bits * 64 + (b - 0x80) in
    if between d.low d.high b
    then (if left == 0 then some (idle, some bits) else some (awaiting left 0x80 0xbf bits, none))
    else none

byte_step : ℕ → Decoder → ℕ → Option (Decoder × Option ℕ)
unfolding lead follow
byte_step zero d b = lead b
byte_step (suc left) d b = follow left d b

abbrev emit : Option ℕ → Option (List ℕ) → Option (List ℕ)
emit c none = none
emit none (some cs) = some cs
emit (some c) (some cs) = some (c ∷ cs)

decode_from : Decoder → List ℕ → Option (List ℕ)
decode_from d [] = if d.need == 0 then some [] else none
decode_from d (b ∷ bs) = elim (byte_step d.need d b) [
  | none ↦ none
  | some (d', c) ↦ emit c (decode_from d' bs)
]

-- `none` is a `UnicodeDecodeError`
unfoldable pub decode : List ℕ → Option (List ℕ)
unfolding decode_from byte_step
decode = decode_from idle

lead-ascii : (b : ℕ) → b < 0x80 → byte_step 0 idle b ≡ some (idle, some b)
unfolding byte_step
lead-ascii b h = rw (ltb_lt b 0x80 h)

ascii_from : (bs : List ℕ) → All (λ b. b < 0x80) bs → decode_from idle bs ≡ some bs
unfolding decode_from
ascii_from [] h = refl
ascii_from (b ∷ bs) h = rw (lead-ascii b h.0, decode_from) (rw (ascii_from bs h.1))

-- ASCII text is its own code points.
pub decode-ascii : (bs : List ℕ) → All (λ b. b < 0x80) bs → decode bs ≡ some bs
unfolding decode
decode-ascii bs h = ascii_from bs h

euro_sign : decode (0xe2 ∷ 0x82 ∷ 0xac ∷ 65 ∷ []) ≡ some (0x20ac ∷ 65 ∷ [])
unfolding decode
euro_sign = refl

-- an overlong form, a surrogate, and a character that breaks off
malformed :
    (decode (0xc0 ∷ 0x80 ∷ []) ≡ none)
    × (decode (0xed ∷ 0xa0 ∷ 0x80 ∷ []) ≡ none)
    × (decode (0xe2 ∷ []) ≡ none)
unfolding decode
malformed = (refl, refl, refl)
