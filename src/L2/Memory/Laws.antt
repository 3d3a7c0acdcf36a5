-- ===== src/L2/Memory/Laws.antt =====
-- `L2Memory` as a map: its view and its laws.
use nasdaq_itch_parser_order.Prelude.{
  ℕ, ◌%◌, ◌≡◌, refl, true, Option, none, some, length, if◌then◌else◌, ◌==◌, arith, is_some,
  length-set, get_or-set, length-replicate, get_or-replicate, ap, ◌∙◌,
}
use nasdaq_itch_parser_order.Prelude.Int.{ℤ, pos, ltb_ℤ}
use nasdaq_itch_parser_order.Structs.{ret}
use nasdaq_itch_parser_order.L2.Hash.{InRange, slot, price_hash-slot, slot-lt, slot_injective}
use nasdaq_itch_parser_order.L2.Levels.{IsPriceMap, IsPositive}
use nasdaq_itch_parser_order.L2.Memory
use nasdaq_itch_parser_order.L2.Memory.{L2Memory, shares_at, write, memory_ops}

abbrev pub IsValid : L2Memory → Type 0
IsValid m = length m.arr ≡ 2048

-- the shares of a price, where its slot has any
abbrev pub shown : ℤ → Option ℤ
shown v = if ltb_ℤ (pos 0) v then some v else none

abbrev pub view : L2Memory → ℕ → Option ℤ
view m k = shown (shares_at m (slot k))

is_some-shown : (v : ℤ) → ltb_ℤ (pos 0) v ≡ is_some (shown v)
is_some-shown v = ground arith

shown-some : (v w : ℤ) → shown v ≡ some w → v ≡ w
shown-some v w h = ground arith

shown_positive : (v : ℤ) → IsPositive v → shown v ≡ some v
shown_positive v h = rw h

positive : (v w : ℤ) → shown v ≡ some w → ltb_ℤ (pos 0) v ≡ true
positive v w h = ground arith

same_slot :
    (base k j : ℕ)
    → base % 50 ≡ 0
    → InRange base k
    → InRange base j
    → (w v : ℤ) → shown (if slot k == slot j then v else w) ≡ (if k == j then shown v else shown w)
same_slot base k j hb hk hj w v = ground (arith, slot_injective base k j hb hk hj)

write-view :
    (base : ℕ)
    → base % 50 ≡ 0
    → (m : L2Memory) (k j : ℕ) (v : ℤ) → IsValid m
    → InRange base k
    → InRange base j
    → view (write m (slot k) v) j ≡ (if k == j then shown v else view m j)
write-view base hb m k j v hm hk hj =
    rw (get_or-set m.arr (slot k) (slot j) v (pos 0) (omega (arith, slot-lt k)))
      (same_slot base k j hb hk hj (shares_at m (slot j)) v)

del_at :
    (m : L2Memory) (k : ℕ) (v : ℤ)
    → k % 50 ≡ 0
    → view m k ≡ some v
    → memory_ops.del_item k m ≡ ret (write m (slot k) (pos 0))
unfolding Memory.del_item
del_at m k v tick h = rw (price_hash-slot k tick) (rw (positive (shares_at m (slot k)) v h))

get_at :
    (m : L2Memory) (k : ℕ) (v : ℤ)
    → k % 50 ≡ 0
    → view m k ≡ some v
    → memory_ops.get_item k m ≡ ret v
unfolding Memory.get_item
get_at m k v tick h = rw (price_hash-slot k tick) (ap ret (shown-some (shares_at m (slot k)) v h))

has_at : (m : L2Memory) (k : ℕ) → k % 50 ≡ 0 → memory_ops.has_key k m ≡ ret (is_some (view m k))
unfolding Memory.has_key
has_at m k tick = rw (price_hash-slot k tick) (ap ret (is_some-shown (shares_at m (slot k))))

set_at :
    (m : L2Memory) (k : ℕ) (v : ℤ)
    → k % 50 ≡ 0
    → memory_ops.set_item k v m ≡ ret (write m (slot k) v)
unfolding Memory.set_item
set_at m k v tick = rw (price_hash-slot k tick) refl

write-IsValid : (m : L2Memory) (h : ℕ) (v : ℤ) → IsValid m → IsValid (write m h v)
write-IsValid m h v hm = length-set m.arr h v ∙ hm

-- The array is a map of shares by price, at the prices on a tick among the 2048 ticks from `base`
-- on, where `base` is on a tick: reads and tests show the shares of the price, a write of positive
-- shares and a deletion of shares that are there succeed, and change no other price of the range.
pub memory_ops-IsPriceMap :
    (base : ℕ) → base % 50 ≡ 0 → IsPriceMap memory_ops (InRange base) IsValid view
memory_ops-IsPriceMap base hb = record {
  has_view = λ m k hm hk. has_at m k hk.tick;
  get_view = λ m k v hm hk h. get_at m k v hk.tick h;
  set_view = λ m k v hm hk hv. (
    write m (slot k) v,
    set_at m k v hk.tick,
    write-IsValid m (slot k) v hm,
    λ j hj.
        write-view base hb m k j v hm hk hj
        ∙ ap (λ (o : Option ℤ). if k == j then o else view m j) (shown_positive v hv),
  );
  del_view = λ m k v hm hk h. (
    write m (slot k) (pos 0),
    del_at m k v hk.tick h,
    write-IsValid m (slot k) (pos 0) hm,
    λ j hj. write-view base hb m k j (pos 0) hm hk hj,
  );
}

-- The array is empty at first.
pub init-IsValid : IsValid Memory.init
unfolding Memory.init
init-IsValid = length-replicate 2048 (pos 0)

pub init-view : (k : ℕ) → view Memory.init k ≡ none
unfolding Memory.init
init-view k = rw (get_or-replicate 2048 (slot k) (pos 0)) refl
