-- ===== src/L2/Hash.antt =====
-- `L2Memory.price_hash` of src/ref_model/l2_price_table.py.
use nasdaq_itch_parser_order.Prelude.{
  ℕ, ◌+◌, ◌-◌, ◌*◌, ◌/◌, ◌%◌, ◌≤◌, ◌<◌, ◌≡◌, sym, ◌∙◌, bit_and, arith, not, ◌==◌, if◌then◌else◌,
}
use nasdaq_itch_parser_order.Prelude.Bits.{bit_and-mask}
use nasdaq_itch_parser_order.Params.{config}
use nasdaq_itch_parser_order.Structs.{Outcome, ret, raised, assertion_error}

-- `price >> 1` is half of it
unfoldable pub price_hash : ℕ → Outcome ℕ
price_hash price =
    if not (price % 50 == 0)
    then raised assertion_error
    else ret (bit_and (price / 2) (config.l2_mem_size - 1))

-- A price on a tick, among the `l2_mem_size` ticks from `base` on.
pub record InRange (base price : ℕ) : Type 0 where
  pub tick : price % 50 ≡ 0
  pub low : base ≤ price
  pub high : price ≤ base + 50 * (config.l2_mem_size - 1)

-- the slot of a price
abbrev pub slot : ℕ → ℕ
slot price = price / 2 % 2048

pub price_hash-slot : (price : ℕ) → price % 50 ≡ 0 → price_hash price ≡ ret (slot price)
unfolding price_hash
price_hash-slot price h = rw (h, bit_and-mask (price / 2) 11)

pub slot-lt : (price : ℕ) → slot price < 2048
slot-lt price = omega arith

-- No two prices of a range have the same slot: 25 and 2048 have no common factor.
pub slot_injective :
    (base p q : ℕ) → base % 50 ≡ 0 → InRange base p → InRange base q → slot p ≡ slot q → p ≡ q
slot_injective base p q h hp hq e =
    omega (arith, hp.tick, hp.low, hp.high, hq.tick, hq.low, hq.high)

ret_eq : (a b : ℕ) → ret a ≡ ret b → a ≡ b
ret_eq a b h = cc

-- Two prices on a tick, among the 2048 ticks from a base on a tick on, with the same hash are equal.
pub price_hash_injective :
    (base p q h : ℕ)
    → base % 50 ≡ 0
    → InRange base p
    → InRange base q
    → price_hash p ≡ ret h
    → price_hash q ≡ ret h
    → p ≡ q
price_hash_injective base p q h hb hp hq ep eq = slot_injective base p q hb hp hq (
    ret_eq (slot p) (slot q)
      (sym (price_hash-slot p hp.tick) ∙ ep ∙ sym eq ∙ price_hash-slot q hq.tick))
