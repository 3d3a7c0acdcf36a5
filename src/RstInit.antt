-- ===== src/RstInit.antt =====
-- The reference model's part of src/utils/rst_init.py: a reset is a new `Top`, which is then initialised.
use nasdaq_itch_parser_order.Prelude.{ℕ, Bool}
use nasdaq_itch_parser_order.Mapping.{Mapping}
use nasdaq_itch_parser_order.Structs.{Outcome, ret, ◌>>=◌, Str, L3Entry}
use nasdaq_itch_parser_order.L2.Levels.{PriceMemory}
use nasdaq_itch_parser_order.Top
use nasdaq_itch_parser_order.Top.{Top}

abbrev pub ref_rst : {M N : Type 0} → Bool → M → N → Top M N
ref_rst ideal orders levels = Top.init ideal orders levels

module _ {M N : Type 0} (ops : Mapping M L3Entry) (levels : PriceMemory N) where
  unfoldable pub ref_init : Top M N → Str → Str → ℕ → Outcome Bool × Top M N
  ref_init ref market_code stock_symbol price_base =
      Top.init_params ops levels market_code stock_symbol price_base ref

  unfoldable pub ref_rst_init : Str → Str → ℕ → Bool → M → N → Outcome (Top M N)
  unfolding ref_init
  ref_rst_init market_code stock_symbol price_base ideal orders no_levels =
      let r = ref_init (ref_rst ideal orders no_levels) market_code stock_symbol price_base in
      r.0 >>= λ _. ret r.1
