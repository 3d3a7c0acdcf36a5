-- ===== src/L2/Levels.antt =====
-- How `L2` uses a memory: shares by price. The laws hold at the prices of a range, since the array
-- of the hardware knows a price by its hash alone, and for positive shares, since a slot that holds
-- no shares is free.
use nasdaq_itch_parser_order.Prelude.{
  ℕ, ◌≡◌, Bool, true, Option, none, some, ◌==◌, if◌then◌else◌, is_some, refl,
}
use nasdaq_itch_parser_order.Prelude.Int.{ℤ, pos, ltb_ℤ}
use nasdaq_itch_parser_order.Dict
use nasdaq_itch_parser_order.Dict.{Dict}
use nasdaq_itch_parser_order.Mapping.{or_raise}
use nasdaq_itch_parser_order.Structs.{Outcome, ret, raised, key_error}

pub record PriceMemory (M : Type 0) : Type 0 where
  pub has_key : ℕ → M → Outcome Bool
  pub get_item : ℕ → M → Outcome ℤ
  pub set_item : ℕ → ℤ → M → Outcome M
  pub del_item : ℕ → M → Outcome M
  -- `self.memory.init_params(price_base)`, where the memory has one
  pub init_params : ℕ → M → Outcome M

abbrev pub IsPositive : ℤ → Type 0
IsPositive v = ltb_ℤ (pos 0) v ≡ true

-- the shares at each price of the range but the one that is written
abbrev pub Written :
    (InRange : ℕ → Type 0) → (ℕ → Option ℤ) → ℕ → Option ℤ → (ℕ → Option ℤ) → Type 0
Written InRange before k v after = (j : ℕ) → InRange j → after j ≡ (if k == j then v else before j)

pub record IsPriceMap {M : Type 0} (ops : PriceMemory M) (InRange : ℕ → Type 0)
    (IsValid : M → Type 0) (view : M → ℕ → Option ℤ) : Type 0 where
  pub has_view :
      (m : M) (k : ℕ) → IsValid m → InRange k → ops.has_key k m ≡ ret (is_some (view m k))
  pub get_view :
      (m : M) (k : ℕ) (v : ℤ) → IsValid m → InRange k → view m k ≡ some v → ops.get_item k m ≡ ret v
  pub set_view :
      (m : M) (k : ℕ) (v : ℤ)
      → IsValid m
      → InRange k
      → IsPositive v
      → (m' : M) × (ops.set_item k v m ≡ ret m')
        × IsValid m'
        × Written InRange (view m) k (some v) (view m')
  pub del_view :
      (m : M) (k : ℕ) (v : ℤ)
      → IsValid m
      → InRange k
      → view m k ≡ some v
      → (m' : M) × (ops.del_item k m ≡ ret m')
        × IsValid m'
        × Written InRange (view m) k none (view m')

-- `{}`, the memory of the ideal model
abbrev pub dict_ops : PriceMemory (Dict ℤ)
dict_ops = record {
  has_key = λ k d. ret (Dict.contains k d);
  get_item = λ k d. or_raise key_error (Dict.lookup k d);
  set_item = λ k v d. ret (Dict.insert k v d);
  del_item = λ k d. if Dict.contains k d then ret (Dict.delete k d) else raised key_error;
  init_params = λ base d. ret d;
}

dict_has : (d : Dict ℤ) (k : ℕ) → dict_ops.has_key k d ≡ ret (is_some (Dict.lookup k d))
unfolding Dict.contains
dict_has d k = refl

dict_del :
    (d : Dict ℤ) (k : ℕ) (v : ℤ)
    → Dict.lookup k d ≡ some v
    → dict_ops.del_item k d ≡ ret (Dict.delete k d)
unfolding Dict.contains
dict_del d k v h = rw h

-- A dict is a map of prices, whatever it holds.
pub dict_ops-IsPriceMap :
    (InRange : ℕ → Type 0) → IsPriceMap dict_ops InRange (λ d. Unit {0}) (λ d k. Dict.lookup k d)
dict_ops-IsPriceMap InRange = record {
  has_view = λ d k _ _. dict_has d k;
  get_view = λ d k v _ _ h. rw h;
  set_view = λ d k v _ _ _. (Dict.insert k v d, refl, tt, λ j _. Dict.lookup-insert k j v d);
  del_view =
      λ d k v _ _ h. (Dict.delete k d, dict_del d k v h, tt, λ j _. Dict.lookup-delete k j d);
}
