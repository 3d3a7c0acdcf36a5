-- ===== src/L3/Memory/Slots.antt =====
-- What a line-and-CAM memory shows at each key, and its well-formedness.
use nasdaq_itch_parser_order.Prelude.{
  ℕ, ◌%◌, ◌≤◌, ◌<◌, ◌≡◌, Option, none, some, [], arith, length, get_or,
}
use nasdaq_itch_parser_order.Prelude.Bits.{bit_and-mask}
use nasdaq_itch_parser_order.Dict
use nasdaq_itch_parser_order.Dict.{Dict}
use nasdaq_itch_parser_order.Structs.{L3Entry}
use nasdaq_itch_parser_order.L3.Memory.{L3Memory, oid_hash, line_of}

pub oid_hash-mod : (k : ℕ) → oid_hash k ≡ k % 2048
unfolding oid_hash
oid_hash-mod k = bit_and-mask k 11

pub oid_hash-lt : (k : ℕ) → oid_hash k < 2048
oid_hash-lt k = omega (arith, oid_hash-mod k)

abbrev pub or_else : Option L3Entry → Option L3Entry → Option L3Entry
or_else none o = o
or_else (some e) o = some e

-- The order stored under a key: that of its line, or else that of the CAM.
unfoldable pub view : L3Memory → ℕ → Option L3Entry
view m k = or_else (Dict.lookup k (line_of m k)) (Dict.lookup k m.cam)

-- All lines are there and within their size, a key stands only in the line of its hash, and no key
-- stands in a line and in the CAM.
pub record IsValid (m : L3Memory) : Type 0 where
  pub width : length m.ram ≡ 2048
  pub line_size : (i : ℕ) → length (get_or m.ram i []) ≤ 8
  pub cam_size : length m.cam ≤ 8
  pub home : (i k : ℕ) (e : L3Entry) → Dict.lookup k (get_or m.ram i []) ≡ some e → oid_hash k ≡ i
  pub apart :
      (k : ℕ) (e : L3Entry) → Dict.lookup k m.cam ≡ some e → Dict.lookup k (line_of m k) ≡ none
