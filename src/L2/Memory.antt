-- ===== src/L2/Memory.antt =====
-- `L2Memory` of src/ref_model/l2_price_table.py: an array of shares, indexed by the price hash.
pub mod Laws
use nasdaq_itch_parser_order.Prelude.{
  ℕ, suc, zero, ◌+◌, ◌-◌, ◌*◌, ◌^◌, Bool, true, false, not, Option, none, some, List, [], ◌∷◌,
  length, replicate, get_or, get_elem?, set, if◌then◌else◌, ◌==◌,
}
use nasdaq_itch_parser_order.Prelude.Int.{ℤ, pos, ltb_ℤ}
use nasdaq_itch_parser_order.Params.{config}
use nasdaq_itch_parser_order.Dict
use nasdaq_itch_parser_order.Dict.{Dict}
use nasdaq_itch_parser_order.Mapping.{or_raise}
use nasdaq_itch_parser_order.Structs.{Outcome, ret, raised, ◌>>=◌, key_error, assertion_error}
use nasdaq_itch_parser_order.L2.Hash.{price_hash}
use nasdaq_itch_parser_order.L2.Levels.{PriceMemory}

pub record L2Memory : Type 0 where
  pub initialized : Bool
  pub price_base : Option ℕ
  pub arr : List ℤ
  pub inverse_hash_lut : Dict ℕ

-- `__init__`
unfoldable pub init : L2Memory
init = record {
  initialized = false;
  price_base = none;
  arr = replicate config.l2_mem_size (pos 0);
  inverse_hash_lut = [];
}

-- `for tick in range(tick, tick + 50 * n, 50)`
unfoldable pub fill_lut : ℕ → ℕ → Dict ℕ → Outcome (Dict ℕ)
fill_lut zero tick lut = ret lut
fill_lut (suc n) tick lut = price_hash tick >>= λ h. fill_lut n (tick + 50) (Dict.insert h tick lut)

-- An exception on the way leaves the object half filled; it stops the initialisation of the book,
-- and the state behind it is not kept.
unfoldable pub init_params : ℕ → L2Memory → Outcome L2Memory
unfolding fill_lut
init_params base m =
    if m.initialized
    then raised assertion_error
    else (fill_lut config.l2_mem_size base m.inverse_hash_lut >>= λ lut.
        ret (record m { initialized = true; price_base = some base; inverse_hash_lut = lut }))

-- `self.arr[h]`; a hash is below the size of the array
abbrev pub shares_at : L2Memory → ℕ → ℤ
shares_at m h = get_or m.arr h (pos 0)

unfoldable pub has_key : ℕ → L2Memory → Outcome Bool
has_key key m = price_hash key >>= λ h. ret (ltb_ℤ (pos 0) (shares_at m h))

unfoldable pub get_item : ℕ → L2Memory → Outcome ℤ
get_item key m = price_hash key >>= λ h. ret (shares_at m h)

abbrev pub write : L2Memory → ℕ → ℤ → L2Memory
write m h value = record m { arr = set m.arr h value }

unfoldable pub set_item : ℕ → ℤ → L2Memory → Outcome L2Memory
set_item key value m = price_hash key >>= λ h. ret (write m h value)

unfoldable pub del_item : ℕ → L2Memory → Outcome L2Memory
del_item key m = price_hash key >>= λ h.
    if not (ltb_ℤ (pos 0) (shares_at m h)) then raised key_error else ret (write m h (pos 0))

count_positive : List ℤ → ℕ → ℕ
count_positive [] count = count
count_positive (val ∷ arr) count =
    count_positive arr (if ltb_ℤ (pos 0) val then count + 1 else count)

unfoldable pub len : L2Memory → ℕ
unfolding count_positive
len m = count_positive m.arr 0

unfoldable pub price_inverse_hash : ℕ → L2Memory → Outcome ℕ
price_inverse_hash hash_key m = or_raise key_error (Dict.lookup hash_key m.inverse_hash_lut)

-- `combined_items` of `__iter__`, from the index `key` on
items_from : L2Memory → ℕ → List ℤ → Outcome (List ℕ)
items_from m key [] = ret []
items_from m key (val ∷ arr) =
    let rest = items_from m (key + 1) arr in
    if ltb_ℤ (pos 0) val
    then (price_inverse_hash key m >>= λ price. rest >>= λ prices. ret (price ∷ prices))
    else rest

-- `__iter__`, whose iterator `L2MemoryIterator` hands out the items in order
unfoldable pub items : L2Memory → Outcome (List ℕ)
unfolding items_from
items m = items_from m 0 m.arr

abbrev pub memory_ops : PriceMemory L2Memory
memory_ops = record {
  has_key = has_key;
  get_item = get_item;
  set_item = set_item;
  del_item = del_item;
  init_params = init_params;
}
