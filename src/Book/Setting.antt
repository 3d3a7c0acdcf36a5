-- ===== src/Book/Setting.antt =====
-- What a book stands on: the memory of L2, ideal or not, and the range of its prices.
use nasdaq_itch_parser_order.Prelude.{
  ℕ, ◌+◌, ◌*◌, ◌≤◌, ◌≡◌, refl, Bool, true, false, Option, ◌⊎◌, inl, inr, arith,
}
use nasdaq_itch_parser_order.Prelude.Int.{ℤ}
use nasdaq_itch_parser_order.Dict
use nasdaq_itch_parser_order.Dict.{Dict}
use nasdaq_itch_parser_order.Bbo.Adds.{inside}
use nasdaq_itch_parser_order.L2.Levels.{PriceMemory, IsPriceMap, dict_ops, dict_ops-IsPriceMap}

pub record Setting (N : Type 0) : Type 1 where
  pub ops : PriceMemory N
  pub InRange : ℕ → Type 0
  pub IsValid : N → Type 0
  pub view : N → ℕ → Option ℤ
  pub laws : IsPriceMap ops InRange IsValid view
  pub ideal : Bool
  pub base : ℕ
  pub max : ℕ
  pub window : (p : ℕ) → InRange p → (ideal ≡ true) ⊎ ((base ≤ p) × (p ≤ max))

-- a dict, at all prices
abbrev pub ideal_setting : ℕ → Setting (Dict ℤ)
ideal_setting price_base = record {
  ops = dict_ops;
  InRange = λ p. Unit {0};
  IsValid = λ d. Unit {0};
  view = λ d k. Dict.lookup k d;
  laws = dict_ops-IsPriceMap (λ p. Unit {0});
  ideal = true;
  base = price_base;
  max = price_base + 50 * 2047;
  window = λ p _. inl refl;
}

window_inside :
    (ideal : Bool) (base max p : ℕ)
    → (ideal ≡ true) ⊎ ((base ≤ p) × (p ≤ max))
    → (inside true ideal base p ≡ true) × (inside false ideal max p ≡ true)
window_inside ideal base max p (inl e) = rw e (refl, refl)
window_inside true base max p (inr h) = (refl, refl)
window_inside false base max p (inr h) = (ground arith, ground arith)

-- the range tests of both sides of BBO pass a price in the range
pub in_window :
    {N : Type 0} (g : Setting N) (p : ℕ)
    → g.InRange p
    → (inside true g.ideal g.base p ≡ true) × (inside false g.ideal g.max p ≡ true)
in_window g p h = window_inside g.ideal g.base g.max p (g.window p h)
