-- ===== src/Top/Lockstep.antt =====
-- Two pipelines of src/ref_model/top.py that differ in their books only, and books that go together.
pub mod Messages
pub mod Runs
use mathlib.Core.Path.{subst}
use nasdaq_itch_parser_order.Prelude.{
  ℕ, ◌≡◌, refl, sym, ap, ◌∙◌, Bool, true, false, not, Option, none, some, List, [], ◌∷◌, ◌++◌, ◌==◌,
  if◌then◌else◌, inl, inr, Bool-cases, Option-cases,
}
use nasdaq_itch_parser_order.Mapping.{Mapping}
use nasdaq_itch_parser_order.Structs.{
  Outcome, ret, raised, ModuleResult, ok, error, ItchMsg, L3Entry, ControlResult, is_book_msg,
  stock_locate_of,
}
use nasdaq_itch_parser_order.Axis
use nasdaq_itch_parser_order.Axis.{Cycle}
use nasdaq_itch_parser_order.Mold
use nasdaq_itch_parser_order.Itch
use nasdaq_itch_parser_order.Itch.Cases.{Results}
use nasdaq_itch_parser_order.Control
use nasdaq_itch_parser_order.L2.Levels.{PriceMemory}
use nasdaq_itch_parser_order.Book
use nasdaq_itch_parser_order.Book.{Book}
use nasdaq_itch_parser_order.Top
use nasdaq_itch_parser_order.Top.Driver.{then_run, drive}
use nasdaq_itch_parser_order.Top.{
  Top, Run, TopResult, Locals, Verdict, no_quote, book_part, after_ctrl, take_result, take_results,
  take_msg, take_msgs, go_on, after_mold, process_pkt, call_back, process_bus_cycle, take_book,
}

-- the pipeline with another book
abbrev pub with_book : {M N M' N' : Type 0} → Top M N → Book M' N' → Top M' N'
with_book s b = record {
  buffer = s.buffer;
  np = s.np;
  ctrl = s.ctrl;
  book = b;
  initialized = s.initialized;
  stock_active = s.stock_active;
  stock_locate = s.stock_locate;
}

-- what is asked of the rest of a loop, which is run where the body has come to its end
abbrev pub IfProceeds : (Locals → Type 0) → Verdict → Type 0
IfProceeds rest (Verdict.proceed l) = rest l
IfProceeds rest (Verdict.refuse _) = Unit {0}
IfProceeds rest (Verdict.raise _) = Unit {0}

abbrev pub IfReturns : Outcome (Unit {0}) → Type 0 → Type 0
IfReturns (raised _) rest = Unit {0}
IfReturns (ret _) rest = rest

-- two kinds of memory for a book, which books over them go together, and which messages keep it so
pub record Duo (M N M' N' : Type 0) : Type 1 where
  pub orders : Mapping M L3Entry
  pub levels : PriceMemory N
  pub orders' : Mapping M' L3Entry
  pub levels' : PriceMemory N'
  pub Pair : Book M N → Book M' N' → Type 0
  pub Suits : Book M N → Book M' N' → ItchMsg → Type 0
  pub step :
      (b : Book M N) (b' : Book M' N') (msg : ItchMsg)
      → Pair b b'
      → Suits b b' msg
      → ((Book.process_msg orders levels b msg).0 ≡ (Book.process_msg orders' levels' b' msg).0)
        × Pair (Book.process_msg orders levels b msg).1 (Book.process_msg orders' levels' b' msg).1

module _ {M N M' N' : Type 0} (d : Duo M N M' N') where
  -- what is asked of the messages that reach the book, and of no other
  abbrev pub SuitsBook : ItchMsg → Option ℕ → Book M N → Book M' N' → Type 0
  SuitsBook msg none b b' = Unit {0}
  SuitsBook msg (some locate) b b' =
      is_book_msg msg ≡ true → (stock_locate_of msg == locate) ≡ true → d.Suits b b' msg

  abbrev pub SuitsNoted : ItchMsg → Outcome (Top M N) → Book M' N' → Type 0
  SuitsNoted msg (raised e) b' = Unit {0}
  SuitsNoted msg (ret s) b' = SuitsBook msg s.stock_locate s.book b'

  abbrev pub SuitsCtrl :
      ItchMsg → Outcome (ModuleResult ControlResult) → Top M N → Book M' N' → Type 0
  SuitsCtrl msg (raised e) s b' = Unit {0}
  SuitsCtrl msg (ret (error text)) s b' = Unit {0}
  SuitsCtrl msg (ret (ok r)) s b' =
      SuitsNoted msg
        (Top.note_locate d.orders d.levels r.stock_locate
          (record s { stock_active = r.stock_active }))
        b'

  abbrev pub SuitsResult : ModuleResult ItchMsg → Top M N → Book M' N' → Type 0
  SuitsResult (error text) s b' = Unit {0}
  SuitsResult (ok msg) s b' =
      let c = Control.process_msg s.ctrl msg in SuitsCtrl msg c.0 (record s { ctrl = c.1 }) b'

  -- the same along the results of a message, the messages of a packet, and the cycles of the bus
  unfoldable pub SuitsResults : Results → Locals → Top M N → Book M' N' → Type 0
  SuitsResults [] l s b' = Unit {0}
  SuitsResults (r ∷ rs) l s b' =
      let t = take_result d.orders d.levels r l s in
      let t' = take_result d.orders' d.levels' r l (with_book s b') in
      SuitsResult r s b' × IfProceeds (λ l'. SuitsResults rs l' t.1 t'.1.book) t.0

  abbrev pub SuitsMsg : Outcome Results → Top M N → Book M' N' → Type 0
  SuitsMsg (raised e) s b' = Unit {0}
  SuitsMsg (ret results) s b' =
      SuitsResults results (record { output_flag = false; quote = no_quote }) s b'

  unfoldable pub SuitsMsgs : List (List ℕ) → Top M N → Book M' N' → Type 0
  SuitsMsgs [] s b' = Unit {0}
  SuitsMsgs (m ∷ ms) s b' =
      let t = take_msg d.orders d.levels m s in
      let t' = take_msg d.orders' d.levels' m (with_book s b') in
      SuitsMsg (Itch.parse_msg m) s b' × IfProceeds (λ _. SuitsMsgs ms t.1 t'.1.book) t.0

  abbrev pub SuitsPayload : ModuleResult (List (List ℕ)) → Top M N → Book M' N' → Type 0
  SuitsPayload (error text) s b' = Unit {0}
  SuitsPayload (ok payload) s b' = SuitsMsgs payload s b'

  abbrev pub SuitsCall : Outcome (Option (List ℕ)) → Top M N → Book M' N' → Type 0
  SuitsCall (raised e) s b' = Unit {0}
  SuitsCall (ret none) s b' = Unit {0}
  SuitsCall (ret (some pkt)) s b' =
      let r = Mold.process_pkt s.np pkt in SuitsPayload r.0 (record s { np = r.1 }) b'

  unfoldable pub SuitsCycles : List Cycle → Top M N → Book M' N' → Type 0
  SuitsCycles [] s b' = Unit {0}
  SuitsCycles (c ∷ cycles) s b' =
      let a = Axis.process_bus_cycle c true s.buffer in
      let r = process_bus_cycle d.orders d.levels c s in
      let r' = process_bus_cycle d.orders' d.levels' c (with_book s b') in
      SuitsCall a.0 (record s { buffer = a.1 }) b'
      × IfReturns r.outcome (SuitsCycles cycles r.state r'.state.book)

  abbrev pub Together : Verdict × Top M N → Verdict × Top M' N' → Type 0
  Together v w = (b' : Book M' N') × (w ≡ (v.0, with_book v.1 b')) × d.Pair v.1.book b'

  abbrev pub RunTogether : Run (Top M N) → Run (Top M' N') → Type 0
  RunTogether r r' =
      (b' : Book M' N') × (r'
        ≡ record { results = r.results; outcome = r.outcome; state = with_book r.state b' })
      × d.Pair r.state.book b'
