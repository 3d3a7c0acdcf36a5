-- ===== src/Book/Hardware.antt =====
-- The memory of `L2` in the hardware model, as a setting of the book.
use nasdaq_itch_parser_order.Prelude.{
  ℕ, zero, suc, ◌+◌, ◌*◌, ◌%◌, ◌≡◌, refl, true, false, none, some, [], arith, inr,
}
use nasdaq_itch_parser_order.Dict
use nasdaq_itch_parser_order.Dict.{Dict}
use nasdaq_itch_parser_order.Structs.{ret}
use nasdaq_itch_parser_order.L2.Hash
use nasdaq_itch_parser_order.L2.Hash.{slot, price_hash-slot}
use nasdaq_itch_parser_order.L2.Memory
use nasdaq_itch_parser_order.L2.Memory.{L2Memory, memory_ops, fill_lut}
use nasdaq_itch_parser_order.L2.Memory.Laws
use nasdaq_itch_parser_order.Book.Setting.{Setting}

-- the array, at the 2048 ticks from the base price on
abbrev pub memory_setting : (price_base : ℕ) → price_base % 50 ≡ 0 → Setting L2Memory
memory_setting price_base tick = record {
  ops = memory_ops;
  InRange = Hash.InRange price_base;
  IsValid = Laws.IsValid;
  view = Laws.view;
  laws = Laws.memory_ops-IsPriceMap price_base tick;
  ideal = false;
  base = price_base;
  max = price_base + 50 * 2047;
  window = λ p h. inr (h.low, h.high);
}

-- the table of the hashes fills without an exception, from a price on a tick on
fill_lut-ret :
    (n tick : ℕ) (lut : Dict ℕ) → tick % 50 ≡ 0 → (lut' : Dict ℕ) × (fill_lut n tick lut ≡ ret lut')
unfolding fill_lut
fill_lut-ret zero tick lut h = (lut, refl)
fill_lut-ret (suc n) tick lut h =
    let (lut', e) = fill_lut-ret n (tick + 50) (Dict.insert (slot tick) tick lut) (omega arith) in
    (lut', rw (price_hash-slot tick h) e)

-- the array behind the initialisation is empty and valid
pub memory_starts :
    (price_base : ℕ)
    → price_base % 50 ≡ 0
    → (m : L2Memory) × (Memory.init_params price_base Memory.init ≡ ret m)
      × Laws.IsValid m
      × ((k : ℕ) → Laws.view m k ≡ none)
unfolding Memory.init_params Memory.init
memory_starts price_base h =
    let (lut, e) = fill_lut-ret 2048 price_base [] h in
    (
      record Memory.init {
        initialized = true;
        price_base = some price_base;
        inverse_hash_lut = lut;
      },
      rw e refl,
      Laws.init-IsValid,
      Laws.init-view,
    )
