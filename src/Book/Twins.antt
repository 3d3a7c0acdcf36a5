-- ===== src/Book/Twins.antt =====
-- The book over the memories of the hardware beside the ideal one.
use nasdaq_itch_parser_order.Prelude.{ℕ, ◌%◌, ◌≡◌, ◌≢◌, sym, ap, ◌∙◌, true, inl, inr}
use nasdaq_itch_parser_order.Mapping
use nasdaq_itch_parser_order.Mapping.{dict_ops-IsMap}
use nasdaq_itch_parser_order.Dict
use nasdaq_itch_parser_order.Structs.{Outcome, ret, raised, value_error, ok, error, ItchMsg}
use nasdaq_itch_parser_order.L3
use nasdaq_itch_parser_order.L3.{L3, L3Result}
use nasdaq_itch_parser_order.L3.Memory
use nasdaq_itch_parser_order.L3.Memory.{L3Memory}
use nasdaq_itch_parser_order.L3.Memory.Slots
use nasdaq_itch_parser_order.L3.Memory.Laws.{memory_ops-IsMap}
use nasdaq_itch_parser_order.L3.Spec.{Table, step}
use nasdaq_itch_parser_order.L3.Refines.{table_of, table-Matches}
use nasdaq_itch_parser_order.L3.Runs.{fine_step, hardware_refusal, dict_refusal}
use nasdaq_itch_parser_order.L2.Memory.{L2Memory}
use nasdaq_itch_parser_order.Bbo.Ladder.{Ladder}
use nasdaq_itch_parser_order.Bbo.Adds.{order}
use nasdaq_itch_parser_order.Book
use nasdaq_itch_parser_order.Book.{Book}
use nasdaq_itch_parser_order.Book.Setting.{Setting, ideal_setting}
use nasdaq_itch_parser_order.Book.Hardware.{memory_setting}
use nasdaq_itch_parser_order.Book.Ladders.{Keeps}
use nasdaq_itch_parser_order.Book.Orders.{Orders}
use nasdaq_itch_parser_order.Book.Sound.{sound}
use nasdaq_itch_parser_order.Book.Ledger.{PricedIn, Refusal, Sends, l3_call}
use nasdaq_itch_parser_order.Book.Answers.{Ledger-answers}
use nasdaq_itch_parser_order.Book.Whole.{
  Whole, book_call, Whole-Ledger, Keeps-Whole, with_l3, process_msg-Sends, process_msg-refused,
  bids_then, offs_then,
}
use nasdaq_itch_parser_order.Book.Passes.{IdealBook}
use nasdaq_itch_parser_order.Book.Reachable.{priced_anywhere}

abbrev pub HardBook : Type 0
HardBook = Book L3Memory L2Memory

abbrev pub hard_l3 : HardBook → ItchMsg → Outcome L3Result × L3 L3Memory
hard_l3 h msg = L3.process_msg Memory.memory_ops h.l3 msg

abbrev pub hard_table : L3 L3Memory → Table
hard_table l = table_of Memory.memory_ops Slots.IsValid Slots.view l

abbrev pub ideal_table : L3 Orders → Table
ideal_table l = table_of Mapping.dict_ops (λ d. Unit {0}) (λ d k. Dict.lookup k d) l

module _ (price_base : ℕ) (tick : price_base % 50 ≡ 0) where
  abbrev hard : Setting L2Memory
  hard = memory_setting price_base tick

  abbrev pub hard_call : HardBook → ItchMsg → Outcome Book.BookResult × HardBook
  hard_call h msg = Book.process_msg Memory.memory_ops hard.ops h msg

  abbrev pub ideal_call : IdealBook → ItchMsg → Outcome Book.BookResult × IdealBook
  ideal_call i msg = book_call (ideal_setting price_base) i msg

  -- both books have the same orders and keep the same ladders
  pub record Twins (h : HardBook) (i : IdealBook) (bids offs : Ladder) : Type 0 where
    pub keeps : Keeps hard h bids offs
    pub whole : Whole (ideal_setting price_base) i bids offs
    pub valid : Slots.IsValid h.l3.memory
    pub same : hard_table h.l3 ≡ ideal_table i.l3

  abbrev pub SomeTwins : HardBook → IdealBook → Type 0
  SomeTwins h i = (bids : Ladder) × (offs : Ladder) × Twins h i bids offs

  -- what the two order tables do with one message
  record Alike (h : L3 L3Memory) (i : L3 Orders) (msg : ItchMsg) : Type 0 where
    results : (L3.process_msg Memory.memory_ops h msg).0 ≡ (l3_call i msg).0
    tables : hard_table (L3.process_msg Memory.memory_ops h msg).1 ≡ ideal_table (l3_call i msg).1
    valid : Slots.IsValid (L3.process_msg Memory.memory_ops h msg).1.memory

  tables-Alike :
      (h : L3 L3Memory) (i : L3 Orders) (msg : ItchMsg)
      → Slots.IsValid h.memory
      → hard_table h ≡ ideal_table i
      → (L3.process_msg Memory.memory_ops h msg).0 ≢ raised value_error
      → Alike h i msg
  tables-Alike h i msg v same room =
      let a =
        fine_step memory_ops-IsMap (λ r. r ≢ raised value_error) hardware_refusal h msg v room in
      let b = fine_step dict_ops-IsMap (λ r. Unit {0}) dict_refusal i msg tt tt in
      record {
        results = a.result ∙ ap (λ w. (step w msg).0) same ∙ sym b.result;
        tables =
            table-Matches Memory.memory_ops Slots.IsValid Slots.view _ _ a
            ∙ ap (λ w. (step w msg).1) same
            ∙ sym (table-Matches Mapping.dict_ops (λ d. Unit {0}) (λ d k. Dict.lookup k d) _ _ b);
        valid = a.valid;
      }

  abbrev Step : HardBook → IdealBook → ItchMsg → Type 0
  Step h i msg =
      ((hard_call h msg).0 ≡ (ideal_call i msg).0)
      × SomeTwins (hard_call h msg).1 (ideal_call i msg).1

  both_refuse :
      (h : HardBook) (i : IdealBook) (bids offs : Ladder) (msg : ItchMsg)
      → Twins h i bids offs
      → Alike h.l3 i.l3 msg
      → Refusal i.l3 msg
      → Step h i msg
  both_refuse h i bids offs msg w a r =
      let l' = (hard_l3 h msg).1 in
      let answer : hard_l3 h msg ≡ (ret (error r.text), l') =
        ap (λ o. (o, l')) (a.results ∙ ap (λ o. o.0) r.answer) in
      let eh = process_msg-refused Memory.memory_ops hard h msg r.text l' answer in
      let ei =
        process_msg-refused Mapping.dict_ops (ideal_setting price_base) i msg r.text i.l3
          r.answer in
      (
        ap (λ o. o.0) eh ∙ sym (ap (λ o. o.0) ei),
        rw (eh, ei)
            (
              bids,
              offs,
              record {
                keeps = with_l3 hard h bids offs l' w.keeps;
                whole = w.whole;
                valid = a.valid;
                same = a.tables ∙ ap (λ o. ideal_table o.1) r.answer;
              },
            ),
      )

  both_send :
      (h : HardBook) (i : IdealBook) (bids offs : Ladder) (msg : ItchMsg)
      → Twins h i bids offs
      → PricedIn hard.InRange msg
      → Alike h.l3 i.l3 msg
      → Sends i.l3 msg bids offs
      → Step h i msg
  both_send h i bids offs msg w hp a x =
      let l' = (hard_l3 h msg).1 in
      let answer : hard_l3 h msg ≡ (ret (ok (order x.type x.is_buy x.shares x.price)), l') =
        ap (λ o. (o, l')) (a.results ∙ ap (λ o. o.0) x.answer) in
      let (h', eh, lh, kh) =
        process_msg-Sends Memory.memory_ops hard h i.l3 l' msg bids offs x w.keeps hp answer in
      let (i', ei, li, ki) =
        process_msg-Sends Mapping.dict_ops (ideal_setting price_base) i i.l3 x.after msg bids offs x
          w.whole.keeps (priced_anywhere price_base msg) x.answer in
      (
        ap (λ o. o.0) eh ∙ sym (ap (λ o. o.0) ei),
        rw (eh, ei)
            (
              bids_then x,
              offs_then x,
              record {
                keeps = kh;
                whole =
                    Keeps-Whole (ideal_setting price_base) i' x.after (bids_then x) (offs_then x) li
                      ki x.distinct x.fair x.sums;
                valid = rw lh a.valid;
                same =
                    ap hard_table lh
                    ∙ a.tables
                    ∙ ap (λ o. ideal_table o.1) x.answer
                    ∙ ap ideal_table (sym li);
              },
            ),
      )

  -- One message for two books with the same orders and ladders, sound for the ideal one, with a price
  -- in the range of the array, and for whose order the hash table has room: both calls return the
  -- same, and the books have again the same orders and ladders.
  pub process_msg-Twins :
      (h : HardBook) (i : IdealBook) (bids offs : Ladder) (msg : ItchMsg)
      → Twins h i bids offs
      → sound i.l3 msg ≡ true
      → PricedIn hard.InRange msg
      → (hard_l3 h msg).0 ≢ raised value_error
      → ((hard_call h msg).0 ≡ (ideal_call i msg).0)
        × SomeTwins (hard_call h msg).1 (ideal_call i msg).1
  process_msg-Twins h i bids offs msg w hs hp room =
      let a = tables-Alike h.l3 i.l3 msg w.valid w.same room in
      let ledger = Whole-Ledger (ideal_setting price_base) i bids offs w.whole in
      elim (Ledger-answers i.l3 bids offs msg ledger hs) [
        | inl r ↦ both_refuse h i bids offs msg w a r
        | inr x ↦ both_send h i bids offs msg w hp a x
      ]
