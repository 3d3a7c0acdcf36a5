-- ===== src/Top/Consistent.antt =====
-- `Top` over ideal memories, and `assert_consistent_book_state` behind any cycles on the bus.
use nasdaq_itch_parser_order.Prelude.{ℕ, ◌≡◌, refl, ap, true, false, List, []}
use nasdaq_itch_parser_order.Prelude.Int.{ℤ}
use nasdaq_itch_parser_order.Dict.{Dict}
use nasdaq_itch_parser_order.Mapping
use nasdaq_itch_parser_order.Structs.{ret, Str, L3Entry}
use nasdaq_itch_parser_order.Axis.{Cycle}
use nasdaq_itch_parser_order.L2.Levels
use nasdaq_itch_parser_order.Book
use nasdaq_itch_parser_order.Book.{Book}
use nasdaq_itch_parser_order.Book.Sound.{sound}
use nasdaq_itch_parser_order.Book.Reachable.{Reachable, Reachable-consistent}
use nasdaq_itch_parser_order.Top.{init_params}
use nasdaq_itch_parser_order.Top.Driver.{drive}
use nasdaq_itch_parser_order.Top.Entries.{assert_consistent_book_state}
use nasdaq_itch_parser_order.Top.Lockstep.{Duo, SuitsCycles}
use nasdaq_itch_parser_order.Top.Lockstep.Runs.{drive-RunTogether}
use nasdaq_itch_parser_order.Top.HardwareIdeal.{IdealTop, new_ideal_top, init_params-opened}

-- the ideal memories twice: a reachable book stays so with messages that are sound for it
abbrev pub sound_duo : ℕ → Duo (Dict L3Entry) (Dict ℤ) (Dict L3Entry) (Dict ℤ)
sound_duo price_base = record {
  orders = Mapping.dict_ops;
  levels = Levels.dict_ops;
  orders' = Mapping.dict_ops;
  levels' = Levels.dict_ops;
  Pair = λ b b'. (b ≡ b') × Reachable price_base b;
  Suits = λ b b' msg. sound b.l3 msg ≡ true;
  step = λ b b' msg p h.
      let next = ap (λ x. Book.process_msg Mapping.dict_ops Levels.dict_ops x msg) p.0 in
      (ap (λ r. r.0) next, (ap (λ r. r.1) next, Reachable.next msg p.1 h));
}

-- A new ideal pipeline, initialised without an error with any base price, and any cycles on the bus,
-- where each message that reaches the book is sound for it: behind them the check of the book finds no
-- fault, also where an error or an exception has ended a packet.
pub drive-consistent :
    (price_base : ℕ) (market_code stock_symbol : Str) (s : IdealTop) (cycles : List Cycle)
    → init_params Mapping.dict_ops Levels.dict_ops market_code stock_symbol price_base new_ideal_top
      ≡ (ret false, s)
    → SuitsCycles (sound_duo price_base) cycles s s.book
    → assert_consistent_book_state
        (λ d. ret d)
        (λ d. ret d)
        Levels.dict_ops
        (drive Mapping.dict_ops Levels.dict_ops cycles s).state
      ≡ ret tt
unfolding assert_consistent_book_state
drive-consistent price_base market_code stock_symbol s cycles e suits =
    let (b, started, opened) =
      init_params-opened Mapping.dict_ops Levels.dict_ops market_code stock_symbol price_base true
        [] [] s e in
    let reachable : Reachable price_base s.book = rw opened (Reachable.start started) in
    let (_, _, pair) =
      drive-RunTogether (sound_duo price_base) cycles s s.book (refl, reachable) suits in
    Reachable-consistent price_base _ pair.1
