-- ===== src/Tests/PipelineTests.antt =====
-- src/ref_model/top.py over the memories of the hardware, from bus cycles on, at a concrete packet.
use nasdaq_itch_parser_order.Prelude.{
  zero, suc, ℕ, ◌≡◌, ◌≢◌, refl, arith, true, false, List, [], ◌∷◌,
}
use nasdaq_itch_parser_order.Structs.{
  Str, Outcome, ret, raised, value_error, ok, add_order_msg, ItchMsg, ItchMsgType,
}
use nasdaq_itch_parser_order.Bytes.{to_little, from_big, from_little}
use nasdaq_itch_parser_order.Utf8.{decode}
use nasdaq_itch_parser_order.Axis
use nasdaq_itch_parser_order.Axis.{Cycle, send_packet, word_cycles, cycles_from, kept}
use nasdaq_itch_parser_order.Mold
use nasdaq_itch_parser_order.Itch
use nasdaq_itch_parser_order.Itch.Cases.{symbol_of}
use nasdaq_itch_parser_order.Control
use nasdaq_itch_parser_order.Mapping
use nasdaq_itch_parser_order.L3
use nasdaq_itch_parser_order.L3.{L3}
use nasdaq_itch_parser_order.L3.Memory as OrderMemory
use nasdaq_itch_parser_order.L3.Memory.{L3Memory}
use nasdaq_itch_parser_order.L2
use nasdaq_itch_parser_order.L2.Levels
use nasdaq_itch_parser_order.L2.Memory as LevelMemory
use nasdaq_itch_parser_order.Bbo
use nasdaq_itch_parser_order.Book
use nasdaq_itch_parser_order.Book.Hardware.{memory_setting, memory_starts}
use nasdaq_itch_parser_order.Dict.{contains, lookup}
use nasdaq_itch_parser_order.Bbo.Adds.{order}
use nasdaq_itch_parser_order.Book.Setting.{Setting}
use nasdaq_itch_parser_order.Book.Ladders.{Keeps}
use nasdaq_itch_parser_order.Book.Orders.{Orders}
use nasdaq_itch_parser_order.Book.Sound.{sound, crosses}
use nasdaq_itch_parser_order.Book.Keeping.{init_params-Keeps}
use nasdaq_itch_parser_order.Book.Passes.{IdealBook}
use nasdaq_itch_parser_order.Book.Reachable.{new_book}
use nasdaq_itch_parser_order.Book.Twins.{HardBook}
use nasdaq_itch_parser_order.Book.TwinRuns.{new_hard_book}
use nasdaq_itch_parser_order.L2.Memory.{L2Memory}
use nasdaq_itch_parser_order.Itch.Cases.{parse_event, parse_directory, parse_add}
use nasdaq_itch_parser_order.Top
use nasdaq_itch_parser_order.Top.{
  Verdict, process_bus_cycle, process_pkt, take_msgs, take_msg, take_results, take_result,
}
use nasdaq_itch_parser_order.Top.Driver.{drive}
use nasdaq_itch_parser_order.Top.Entries.{assert_consistent_book_state}
use nasdaq_itch_parser_order.Top.Consistent.{sound_duo, drive-consistent}
use nasdaq_itch_parser_order.Top.Lockstep.{
  IfProceeds, IfReturns, SuitsCycles, SuitsMsgs, SuitsResults,
}
use nasdaq_itch_parser_order.Top.HardwareIdeal.{
  HardTop, IdealTop, new_hard_top, new_ideal_top, opened, hardware_duo, drive-ideal,
}

abbrev symbol : Str
symbol = 65 ∷ 77 ∷ 68 ∷ 32 ∷ 32 ∷ 32 ∷ 32 ∷ 32 ∷ []

-- the start of messages, the directory entry of the symbol, and an order to buy 30 shares
abbrev three_msgs : List ℕ
three_msgs =
    50 ∷ 48 ∷ 49 ∷ 57 ∷ 49 ∷ 50 ∷ 51 ∷ 48 ∷ 66 ∷ 88 ∷ 0 ∷ 0 ∷ 0 ∷ 0 ∷ 0 ∷ 0 ∷ 0 ∷ 1 ∷ 0 ∷ 3 ∷ 0 ∷ 12
    ∷ 83 ∷ 0 ∷ 0 ∷ 0 ∷ 0 ∷ 0 ∷ 0 ∷ 0 ∷ 0 ∷ 0 ∷ 0 ∷ 79 ∷ 0 ∷ 39 ∷ 82 ∷ 0 ∷ 7 ∷ 0 ∷ 0 ∷ 0 ∷ 0 ∷ 0 ∷ 0
    ∷ 0 ∷ 0 ∷ 65 ∷ 77 ∷ 68 ∷ 32 ∷ 32 ∷ 32 ∷ 32 ∷ 32 ∷ 0 ∷ 0 ∷ 0 ∷ 0 ∷ 0 ∷ 0 ∷ 0 ∷ 0 ∷ 0 ∷ 0 ∷ 0 ∷ 0
    ∷ 0 ∷ 0 ∷ 0 ∷ 0 ∷ 0 ∷ 0 ∷ 0 ∷ 0 ∷ 0 ∷ 36 ∷ 65 ∷ 0 ∷ 7 ∷ 0 ∷ 0 ∷ 0 ∷ 0 ∷ 0 ∷ 0 ∷ 0 ∷ 0 ∷ 0 ∷ 0
    ∷ 0 ∷ 0 ∷ 0 ∷ 0 ∷ 3 ∷ 233 ∷ 66 ∷ 0 ∷ 0 ∷ 0 ∷ 30 ∷ 65 ∷ 77 ∷ 68 ∷ 32 ∷ 32 ∷ 32 ∷ 32 ∷ 32 ∷ 0 ∷ 6
    ∷ 26 ∷ 178 ∷ []

abbrev cycles : List Cycle
cycles = send_packet three_msgs (λ word_idx. 0)

abbrev range_40 : Setting L2Memory
range_40 = memory_setting 400000 refl

hard_started :
    (b : HardBook) × (Book.init_params LevelMemory.memory_ops 400000 new_hard_book ≡ ret b)
    × (b.l3 ≡ L3.init OrderMemory.init)
    × Keeps range_40 b [] []
hard_started =
    let (m, e, valid, empty) = memory_starts 400000 refl in
    init_params-Keeps range_40 OrderMemory.init LevelMemory.init m refl e valid (λ k _. empty k)

ideal_started :
    (b : IdealBook) × (Book.init_params Levels.dict_ops 400000 new_book ≡ ret b)
    × (b.l3 ≡ L3.init [])
unfolding Book.init_params L2.init_params Bbo.init_params
ideal_started = (_, refl, refl)

abbrev hard_top : HardTop
hard_top = opened (b'Q' ∷ []) symbol new_hard_top hard_started.0

abbrev ideal_top : IdealTop
ideal_top = opened (b'Q' ∷ []) symbol new_ideal_top ideal_started.0

hard_top_starts :
    Top.init_params OrderMemory.memory_ops LevelMemory.memory_ops
      (b'Q' ∷ [])
      symbol
      400000
      new_hard_top
    ≡ (ret false, hard_top)
unfolding Top.init_params Control.init_params
hard_top_starts = rw (Top.init_params, hard_started.1) refl

ideal_top_starts :
    Top.init_params Mapping.dict_ops Levels.dict_ops (b'Q' ∷ []) symbol 400000 new_ideal_top
    ≡ (ret false, ideal_top)
unfolding Top.init_params Control.init_params
ideal_top_starts = rw (Top.init_params, ideal_started.1) refl

abbrev bid_msg : ItchMsg
bid_msg = add_order_msg 7 1001 true 30 400050

first_order :
    (L3.process_msg OrderMemory.memory_ops (L3.init OrderMemory.init) bid_msg).0
    ≡ ret (ok (order ItchMsgType.add true 30 400050))
unfolding L3.process_msg L3.store_new OrderMemory.has_key OrderMemory.set_item OrderMemory.oid_hash
    OrderMemory.empty_lines contains lookup
first_order = refl

has_room :
    (l : L3 L3Memory)
    → l ≡ L3.init OrderMemory.init
    → (L3.process_msg OrderMemory.memory_ops l bid_msg).0 ≢ raised value_error
has_room l h e = absurd (cc (first_order, h, e))

bid-sound : (l : L3 Orders) → l ≡ L3.init [] → sound l bid_msg ≡ true
unfolding crosses
bid-sound l h = rw h refl

price_in_range : range_40.InRange 400050
price_in_range = record { tick = refl; low = omega arith; high = omega arith }

proceeds_anyway : (v : Verdict) → IfProceeds (λ l. Unit {0}) v
proceeds_anyway (Verdict.proceed l) = tt
proceeds_anyway (Verdict.refuse text) = tt
proceeds_anyway (Verdict.raise e) = tt

returns_anyway : (o : Outcome (Unit {0})) → IfReturns o (Unit {0})
returns_anyway (raised e) = tt
returns_anyway (ret u) = tt

-- cycles that complete no packet
abbrev Waits : ℕ → Type 0 → Type 0
Waits zero rest = rest
Waits (suc n) rest = Unit {0} × Waits n rest

wait : (n : ℕ) {rest : Type 0} → rest → Waits n rest
wait zero h = h
wait (suc n) h = (tt, wait n h)

cycles-Suits : SuitsCycles (hardware_duo 400000 refl) cycles hard_top ideal_top.book
unfolding SuitsCycles SuitsMsgs SuitsResults process_bus_cycle process_pkt take_msgs take_msg
    take_results take_result Axis.process_bus_cycle kept to_little from_little send_packet
    word_cycles cycles_from Mold.process_pkt Mold.split_payload Mold.finish Mold.note_session
    Mold.same_session from_big Itch.parse_msg symbol_of decode parse_event parse_directory parse_add
    Control.init_params Control.process_msg Control.handle Control.conclude Control.handle_event
    Control.handle_directory Control.is_active
cycles-Suits = wait 28 (
  (
    (tt, tt),
    (
      ((λ is_book watched. absurd (cc is_book)), tt),
      (
        (
          (λ is_book watched. (
            bid-sound ideal_started.0.l3 ideal_started.2,
            price_in_range,
            has_room hard_started.0.l3 hard_started.2,
          )),
          proceeds_anyway _,
        ),
        proceeds_anyway _,
      ),
    ),
  ),
  returns_anyway _,
)

cycles-SuitsIdeal : SuitsCycles (sound_duo 400000) cycles ideal_top ideal_top.book
unfolding SuitsCycles SuitsMsgs SuitsResults process_bus_cycle process_pkt take_msgs take_msg
    take_results take_result Axis.process_bus_cycle kept to_little from_little send_packet
    word_cycles cycles_from Mold.process_pkt Mold.split_payload Mold.finish Mold.note_session
    Mold.same_session from_big Itch.parse_msg symbol_of decode parse_event parse_directory parse_add
    Control.init_params Control.process_msg Control.handle Control.conclude Control.handle_event
    Control.handle_directory Control.is_active
cycles-SuitsIdeal = wait 28 (
  (
    (tt, tt),
    (
      ((λ is_book watched. absurd (cc is_book)), tt),
      (
        ((λ is_book watched. bid-sound ideal_started.0.l3 ideal_started.2), proceeds_anyway _),
        proceeds_anyway _,
      ),
    ),
  ),
  returns_anyway _,
)

drive-ideal_example :
    ((drive OrderMemory.memory_ops LevelMemory.memory_ops cycles hard_top).results
      ≡ (drive Mapping.dict_ops Levels.dict_ops cycles ideal_top).results)
    × ((drive OrderMemory.memory_ops LevelMemory.memory_ops cycles hard_top).outcome
        ≡ (drive Mapping.dict_ops Levels.dict_ops cycles ideal_top).outcome)
drive-ideal_example =
    drive-ideal 400000 refl (b'Q' ∷ []) symbol hard_top ideal_top cycles hard_top_starts
      ideal_top_starts cycles-Suits

drive-consistent_example :
    assert_consistent_book_state
      (λ d. ret d)
      (λ d. ret d)
      Levels.dict_ops
      (drive Mapping.dict_ops Levels.dict_ops cycles ideal_top).state
    ≡ ret tt
drive-consistent_example =
    drive-consistent 400000 (b'Q' ∷ []) symbol ideal_top cycles ideal_top_starts cycles-SuitsIdeal
