-- ===== src/Book/TwinRuns.antt =====
-- Rows of messages for the book over the memories of the hardware and for the ideal one.
use mathlib.Core.Path.{subst}
use nasdaq_itch_parser_order.Prelude.{
  ℕ, ◌%◌, ◌≡◌, ◌≢◌, refl, sym, ap, ◌∙◌, true, false, List, [], ◌∷◌,
}
use nasdaq_itch_parser_order.Structs.{Outcome, ret, ret_injective, raised, value_error, ItchMsg}
use nasdaq_itch_parser_order.L3
use nasdaq_itch_parser_order.L3.{L3}
use nasdaq_itch_parser_order.L3.Memory as OrderMemory
use nasdaq_itch_parser_order.L3.Memory.{L3Memory}
use nasdaq_itch_parser_order.L3.Memory.Slots
use nasdaq_itch_parser_order.L3.Memory.Capacity.{init-IsValid}
use nasdaq_itch_parser_order.L3.Runs.{start_tables}
use nasdaq_itch_parser_order.L2.Memory as LevelMemory
use nasdaq_itch_parser_order.L2.Levels
use nasdaq_itch_parser_order.Book
use nasdaq_itch_parser_order.Book.{Book}
use nasdaq_itch_parser_order.Book.Keeping.{init_params-Keeps}
use nasdaq_itch_parser_order.Book.Hardware.{memory_setting, memory_starts}
use nasdaq_itch_parser_order.Book.Sound.{sound}
use nasdaq_itch_parser_order.Book.Ledger.{PricedIn}
use nasdaq_itch_parser_order.Book.Passes.{IdealBook}
use nasdaq_itch_parser_order.Book.Reachable.{new_book, start-l3, start-Whole}
use nasdaq_itch_parser_order.Book.Twins.{
  HardBook, hard_table, ideal_table, hard_l3, hard_call, ideal_call, Twins, SomeTwins,
  process_msg-Twins,
}

abbrev pub new_hard_book : HardBook
new_hard_book = Book.init false OrderMemory.init LevelMemory.init

module _ (price_base : ℕ) (tick : price_base % 50 ≡ 0) where
  -- what the calls return, one for each message
  unfoldable pub hard_results : HardBook → List ItchMsg → List (Outcome Book.BookResult)
  hard_results h [] = []
  hard_results h (msg ∷ msgs) =
      let r = hard_call price_base tick h msg in r.0 ∷ hard_results r.1 msgs

  unfoldable pub ideal_results : IdealBook → List ItchMsg → List (Outcome Book.BookResult)
  ideal_results i [] = []
  ideal_results i (msg ∷ msgs) =
      let r = ideal_call price_base tick i msg in r.0 ∷ ideal_results r.1 msgs

  -- a row of sound messages with prices in the range, for whose orders the hash table has room
  unfoldable pub Suits : HardBook → IdealBook → List ItchMsg → Type 0
  Suits h i [] = Unit {0}
  Suits h i (msg ∷ msgs) =
      (sound i.l3 msg ≡ true)
      × PricedIn (memory_setting price_base tick).InRange msg
      × ((hard_l3 h msg).0 ≢ raised value_error)
      × Suits (hard_call price_base tick h msg).1 (ideal_call price_base tick i msg).1 msgs

  results-Twins :
      (msgs : List ItchMsg) (h : HardBook) (i : IdealBook)
      → SomeTwins price_base tick h i
      → Suits h i msgs
      → hard_results h msgs ≡ ideal_results i msgs
  unfolding hard_results ideal_results Suits
  results-Twins [] h i w s = refl
  results-Twins (msg ∷ msgs) h i (bids, offs, w) (hs, hp, room, rest) =
      let (same, next) = process_msg-Twins price_base tick h i bids offs msg w hs hp room in
      let later =
        results-Twins msgs (hard_call price_base tick h msg).1 (ideal_call price_base tick i msg).1
          next rest in
      rw (same, later) refl

  pub start-Twins :
      (h : HardBook) (i : IdealBook)
      → Book.init_params LevelMemory.memory_ops price_base new_hard_book ≡ ret h
      → Book.init_params Levels.dict_ops price_base new_book ≡ ret i
      → Twins price_base tick h i [] []
  start-Twins h i eh ei =
      let (m, em, valid, empty) = memory_starts price_base tick in
      let (h', e, l, keeps) =
        init_params-Keeps (memory_setting price_base tick) OrderMemory.init LevelMemory.init m refl
          em valid (λ k _. empty k) in
      let same : h' ≡ h = ret_injective (sym e ∙ eh) in
      let lh : L3.init OrderMemory.init ≡ h.l3 = sym l ∙ ap (λ (x : HardBook). x.l3) same in
      record {
        keeps = rw same at keeps;
        whole = start-Whole price_base i ei;
        valid = subst (λ (x : L3 L3Memory). Slots.IsValid x.memory) lh init-IsValid;
        same = sym (ap hard_table lh) ∙ start_tables ∙ ap ideal_table (start-l3 price_base i ei);
      }

  -- The book over the memories of the hardware and the ideal one, both initialised with a base price on
  -- a tick, and a row of messages that are sound for the ideal book, have their prices in the range of
  -- the array, and find room in the hash table: the results are the same, message by message.
  pub hardware-ideal :
      (h : HardBook) (i : IdealBook) (msgs : List ItchMsg)
      → Book.init_params LevelMemory.memory_ops price_base new_hard_book ≡ ret h
      → Book.init_params Levels.dict_ops price_base new_book ≡ ret i
      → Suits h i msgs
      → hard_results h msgs ≡ ideal_results i msgs
  hardware-ideal h i msgs eh ei s = results-Twins msgs h i ([], [], start-Twins h i eh ei) s
