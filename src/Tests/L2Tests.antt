-- ===== src/Tests/L2Tests.antt =====
-- src/ref_model/l2_price_table.py at concrete prices.
use nasdaq_itch_parser_order.Prelude.{
  ℕ, ◌-◌, ◌≡◌, refl, true, false, some, [], ◌∷◌, arith, ◌==◌, if◌then◌else◌, inl, inr, Bool-cases,
}
use nasdaq_itch_parser_order.Prelude.Int.{ℤ, pos}
use nasdaq_itch_parser_order.Prelude.IntSets.{set_add, set_remove, elem}
use nasdaq_itch_parser_order.Dict
use nasdaq_itch_parser_order.Dict.{Dict}
use nasdaq_itch_parser_order.Structs.{ret, ok, ItchMsgType}
use nasdaq_itch_parser_order.Bbo.Adds.{order}
use nasdaq_itch_parser_order.L2
use nasdaq_itch_parser_order.L2.{L2, process_msg, get_updt}
use nasdaq_itch_parser_order.L2.Hash.{InRange, price_hash-slot, price_hash_injective}
use nasdaq_itch_parser_order.L2.Levels.{dict_ops, dict_ops-IsPriceMap, IsPriceMap}
use nasdaq_itch_parser_order.L2.Memory
use nasdaq_itch_parser_order.L2.Memory.{L2Memory, memory_ops}
use nasdaq_itch_parser_order.L2.Memory.Laws.{
  IsValid, view, init-IsValid, init-view, memory_ops-IsPriceMap,
}
use nasdaq_itch_parser_order.Bbo.Ladder.{Level}
use nasdaq_itch_parser_order.Bbo.Adds.{entry_of}
use nasdaq_itch_parser_order.L2.Query.{get_updt-second}
use nasdaq_itch_parser_order.L2.Order.{or_swap}
use nasdaq_itch_parser_order.L2.Refines.{Shows, process_msg-adds_shares, process_msg-takes_shares}
use nasdaq_itch_parser_order.L2.Accepts.{Accepted, more, fewer, level}

abbrev base : ℕ
base = 400000

abbrev empty_table : L2 L2Memory
empty_table = record {
  range = some (base, 502350);
  ideal = false;
  memory = Memory.init;
  bids = [];
  offs = [];
}

in_range : InRange base 400050
in_range = record { tick = refl; low = omega arith; high = omega arith }

memory_ops-IsPriceMap_example : IsPriceMap memory_ops (InRange base) IsValid view
memory_ops-IsPriceMap_example = memory_ops-IsPriceMap base refl

price_hash_injective_example : ◌≡◌ {A = ℕ} 400050 400050
price_hash_injective_example =
    price_hash_injective base 400050 400050 1369 refl in_range in_range
      (price_hash-slot 400050 refl) (price_hash-slot 400050 refl)

abbrev nothing : ℕ → ℕ
nothing k = 0

accepted : Accepted empty_table 10 400050
accepted = record {
  base = base;
  max = 502350;
  ready = refl;
  tick = refl;
  within = inr (omega arith, omega arith);
  shares = omega arith;
}

process_msg-adds_shares_example :
    (m : L2Memory) × (process_msg memory_ops empty_table (order ItchMsgType.add true 10 400050)
      ≡ (ret (ok tt), L2.with_side true (set_add 400050 []) (record empty_table { memory = m })))
    × Shows memory_ops
        (InRange base)
        IsValid
        view
        memory_ops-IsPriceMap_example
        m
        (more nothing 10 400050)
process_msg-adds_shares_example =
    process_msg-adds_shares memory_ops (InRange base) IsValid view memory_ops-IsPriceMap_example
      empty_table nothing ItchMsgType.add true 10 400050 refl accepted in_range
      (init-IsValid, λ k _. init-view k)

abbrev one_bid : L2 (Dict ℤ)
one_bid = record {
  range = some (base, 502350);
  ideal = true;
  memory = (400050, pos 10) ∷ [];
  bids = 400050 ∷ [];
  offs = [];
}

abbrev ten_at : ℕ → ℕ
ten_at k = if 400050 == k then 10 else 0

everywhere : IsPriceMap dict_ops (λ p. Unit {0}) (λ d. Unit {0}) (λ d k. Dict.lookup k d)
everywhere = dict_ops-IsPriceMap (λ p. Unit {0})

ten_shown : (k : ℕ) → Dict.lookup k one_bid.memory ≡ level (ten_at k)
unfolding Dict.lookup
ten_shown k = elim (Bool-cases (400050 == k)) [ inl e ↦ rw e refl | inr e ↦ rw e refl ]

taken : Accepted one_bid 4 400050
taken = record {
  base = base;
  max = 502350;
  ready = refl;
  tick = refl;
  within = inl refl;
  shares = omega arith;
}

process_msg-takes_shares_example :
    (m : Dict ℤ) × (process_msg dict_ops one_bid (order ItchMsgType.reduce true 4 400050) ≡ (
      ret (ok tt),
      L2.with_side true
          (if 10 - 4 == 0 then set_remove 400050 one_bid.bids else one_bid.bids)
          (record one_bid { memory = m }),
    ))
    × Shows dict_ops
        (λ p. Unit {0})
        (λ d. Unit {0})
        (λ d k. Dict.lookup k d)
        everywhere
        m
        (fewer ten_at 4 400050)
unfolding elem
process_msg-takes_shares_example =
    process_msg-takes_shares dict_ops (λ p. Unit {0}) (λ d. Unit {0}) (λ d k. Dict.lookup k d)
      everywhere one_bid ten_at ItchMsgType.reduce true 4 400050 refl taken tt
      (tt, λ k _. ten_shown k) (omega arith) refl

abbrev two_bids : L2 (Dict ℤ)
two_bids = record one_bid {
  memory = (400050, pos 10) ∷ (400100, pos 5) ∷ [];
  bids = 400050 ∷ 400100 ∷ [];
}

abbrev fifteen : ℕ → ℕ
fifteen k = if 400050 == k then 10 else if 400100 == k then 5 else 0

fifteen_shown : (k : ℕ) → Dict.lookup k two_bids.memory ≡ level (fifteen k)
unfolding Dict.lookup
fifteen_shown k = elim (Bool-cases (400050 == k)) [
  | inl e ↦ rw e refl
  | inr e ↦ elim (Bool-cases (400100 == k)) [ inl e' ↦ rw (e, e') refl | inr e' ↦ rw (e, e') refl ]
]

abbrev best_bid : Level
best_bid = record { shares = 5; price = 400100 }

abbrev second_bid : Level
second_bid = record { shares = 10; price = 400050 }

get_updt-second_example : get_updt dict_ops two_bids true ≡ ret (ok (entry_of second_bid))
unfolding elem
get_updt-second_example =
    get_updt-second dict_ops (λ p. Unit {0}) (λ d. Unit {0}) (λ d k. Dict.lookup k d) everywhere
      two_bids fifteen true best_bid second_bid [] (tt, λ k _. fifteen_shown k)
      (omega arith, (refl, tt), (omega arith, tt, tt)) (refl, (refl, tt))
      (λ q. or_swap (q == 400050) (q == 400100) false) tt refl
