-- ===== src/Tests/BookTests.antt =====
-- src/ref_model/book.py, the ideal model, at concrete messages.
use nasdaq_itch_parser_order.Prelude.{
  ℕ, ◌≢◌, ◌∷◌, ◌≡◌, refl, true, [], inl, arith, none, some, ◌⊎◌, false,
}
use nasdaq_itch_parser_order.Dict.{Dict, contains, lookup}
use nasdaq_itch_parser_order.Structs.{
  raised, assertion_error, value_error, ret, ok, ItchMsgType, L3Entry, ItchMsg, add_order_msg,
}
use nasdaq_itch_parser_order.Bbo
use nasdaq_itch_parser_order.Bbo.Half
use nasdaq_itch_parser_order.Bbo.Half.{Kind}
use nasdaq_itch_parser_order.L2
use nasdaq_itch_parser_order.Bbo.Ladder.{place}
use nasdaq_itch_parser_order.Bbo.Adds.{order}
use nasdaq_itch_parser_order.L2.Levels
use nasdaq_itch_parser_order.Book
use nasdaq_itch_parser_order.Book.{Book}
use nasdaq_itch_parser_order.Book.Ladders.{Keeps, quote_at, handed_on}
use nasdaq_itch_parser_order.Book.Whole.{book_call, Refuses, Quotes, process_msg-Whole}
use nasdaq_itch_parser_order.Book.Passes.{IdealBook}
use nasdaq_itch_parser_order.Book.Setting.{Setting, ideal_setting}
use nasdaq_itch_parser_order.Book.Hardware.{memory_setting, memory_starts}
use nasdaq_itch_parser_order.Book.Twins.{HardBook}
use nasdaq_itch_parser_order.Book.TwinRuns.{Suits, hard_results, ideal_results, hardware-ideal}
use nasdaq_itch_parser_order.L3
use nasdaq_itch_parser_order.L3.{L3}
use nasdaq_itch_parser_order.L3.Memory as OrderMemory
use nasdaq_itch_parser_order.L3.Memory.{L3Memory}
use nasdaq_itch_parser_order.L2.Memory as LevelMemory
use nasdaq_itch_parser_order.L2.Memory.{L2Memory}
use nasdaq_itch_parser_order.Book.Sound.{sound, crosses}
use nasdaq_itch_parser_order.Book.Check.{assert_consistent_state}
use nasdaq_itch_parser_order.Book.Reachable.{
  new_book, Reachable, SomeWhole, Reachable-Whole, Reachable-consistent,
}
use nasdaq_itch_parser_order.Book.Clears.{book_calls, deletions, IsEmpty, Reachable-clears}
use nasdaq_itch_parser_order.Book.Twice.{init_params-once}
use nasdaq_itch_parser_order.Book.Keeping.{
  bids_after, offs_after, handed_on-Keeps, init_params-Keeps,
}

abbrev no_orders : Dict L3Entry
no_orders = []

-- a book that is initialised, and nothing else
abbrev opened : IdealBook
opened = record new_book {
  l2 = record { range = some (400000, 502350); ideal = true; memory = []; bids = []; offs = [] };
  bbo = record {
    bid_module = Half.init_params 400000 (Half.init true true);
    off_module = Half.init_params 502350 (Half.init false true);
    bid_entry = none;
    off_entry = none;
    initialized = true;
  };
}

opened_is_new : Book.init_params Levels.dict_ops 400000 new_book ≡ ret opened
unfolding Book.init_params L2.init_params Bbo.init_params
opened_is_new = refl

opened-Reachable : Reachable 400000 opened
opened-Reachable = Reachable.start opened_is_new

-- 30 shares to buy at a price on a tick
abbrev bid_msg : ItchMsg
bid_msg = add_order_msg 7 1001 true 30 400050

bid_msg-sound : sound opened.l3 bid_msg ≡ true
unfolding crosses
bid_msg-sound = refl

bidden-Reachable : Reachable 400000 (book_call (ideal_setting 400000) opened bid_msg).1
bidden-Reachable = Reachable.next bid_msg opened-Reachable bid_msg-sound

opened-SomeWhole : SomeWhole 400000 opened
opened-SomeWhole = Reachable-Whole 400000 opened opened-Reachable

-- the range of the array from 40 dollars on
abbrev range_40 : Setting L2Memory
range_40 = memory_setting 400000 refl

empty_levels :
    (m : L2Memory) × (LevelMemory.init_params 400000 LevelMemory.init ≡ ret m)
    × range_40.IsValid m
    × ((k : ℕ) → range_40.view m k ≡ none)
empty_levels = memory_starts 400000 refl

init_params-Keeps_example :
    (s : HardBook) × (Book.init_params range_40.ops 400000
        (Book.init false OrderMemory.init LevelMemory.init)
      ≡ ret s)
    × (s.l3 ≡ L3.init OrderMemory.init)
    × Keeps range_40 s [] []
init_params-Keeps_example =
    init_params-Keeps range_40 OrderMemory.init LevelMemory.init empty_levels.0 refl empty_levels.1
      empty_levels.2 (λ k _. empty_levels.3 k)

price_in_range : range_40.InRange 400050
price_in_range = record { tick = refl; low = omega arith; high = omega arith }

handed_on-Keeps_example :
    (s' : HardBook) × (handed_on OrderMemory.memory_ops range_40 init_params-Keeps_example.0
        (order ItchMsgType.add true 10 400050)
      ≡ (
        ret (
            ok (
              quote_at
                (bids_after Kind.adds true 10 400050 [])
                (offs_after Kind.adds true 10 400050 []))),
        s',
      ))
    × Keeps range_40 s'
        (bids_after Kind.adds true 10 400050 [])
        (offs_after Kind.adds true 10 400050 [])
unfolding place
handed_on-Keeps_example =
    handed_on-Keeps OrderMemory.memory_ops range_40 init_params-Keeps_example.0 [] []
      ItchMsgType.add true 10 400050 Kind.adds init_params-Keeps_example.3 refl (inl refl) refl
      (omega arith) price_in_range tt

process_msg-Whole_example :
    Refuses (ideal_setting 400000) opened bid_msg ⊎ Quotes (ideal_setting 400000) opened bid_msg
process_msg-Whole_example =
    process_msg-Whole (ideal_setting 400000) opened opened-SomeWhole.0 opened-SomeWhole.1 bid_msg
      opened-SomeWhole.2 bid_msg-sound tt

-- the same over the memories of the hardware
abbrev hard_opened : HardBook
hard_opened = init_params-Keeps_example.0

first_order :
    (L3.process_msg OrderMemory.memory_ops (L3.init OrderMemory.init) bid_msg).0
    ≡ ret (ok (order ItchMsgType.add true 30 400050))
unfolding L3.process_msg L3.store_new OrderMemory.has_key OrderMemory.set_item OrderMemory.oid_hash
    OrderMemory.empty_lines contains lookup
first_order = refl

has_room :
    (l : L3 L3Memory)
    → l ≡ L3.init OrderMemory.init
    → (L3.process_msg OrderMemory.memory_ops l bid_msg).0 ≢ raised value_error
has_room l h e = absurd (cc (first_order, h, e))

bid_msg-Suits : Suits 400000 refl hard_opened opened (bid_msg ∷ [])
unfolding Suits
bid_msg-Suits =
    (bid_msg-sound, price_in_range, has_room hard_opened.l3 init_params-Keeps_example.2, tt)

hardware-ideal_example :
    hard_results 400000 refl hard_opened (bid_msg ∷ [])
    ≡ ideal_results 400000 refl opened (bid_msg ∷ [])
hardware-ideal_example =
    hardware-ideal 400000 refl hard_opened opened (bid_msg ∷ []) init_params-Keeps_example.1
      opened_is_new bid_msg-Suits

Reachable-consistent_example :
    assert_consistent_state
      (λ d. ret d)
      (λ d. ret d)
      Levels.dict_ops
      (book_call (ideal_setting 400000) opened bid_msg).1
    ≡ ret tt
Reachable-consistent_example =
    Reachable-consistent 400000 (book_call (ideal_setting 400000) opened bid_msg).1 bidden-Reachable

Reachable-clears_example :
    let s = (book_call (ideal_setting 400000) opened bid_msg).1 in
    Reachable 400000 (book_calls 400000 s (deletions s.l3.memory))
    × IsEmpty (book_calls 400000 s (deletions s.l3.memory))
Reachable-clears_example =
    Reachable-clears 400000 (book_call (ideal_setting 400000) opened bid_msg).1 bidden-Reachable

init_params-once_example : Book.init_params Levels.dict_ops 500000 opened ≡ raised assertion_error
init_params-once_example =
    init_params-once Levels.dict_ops 400000 500000 (Book.init true no_orders []) opened
      opened_is_new
