-- ===== src/Top.antt =====
-- src/ref_model/top.py: the pipeline from bus cycles to results. A generator is run to its end: the
-- results that it yields, how it ends, and the state behind it.
pub mod Stream
pub mod Entries
pub mod Driver
pub mod Parsing
pub mod Lockstep
pub mod HardwareIdeal
pub mod Consistent
use nasdaq_itch_parser_order.Prelude.{
  ℕ, Bool, true, false, not, Option, none, some, List, [], ◌∷◌, ◌++◌, ◌==◌, if◌then◌else◌,
}
use nasdaq_itch_parser_order.Mapping.{Mapping}
use nasdaq_itch_parser_order.Prelude.Int.{ℤ}
use nasdaq_itch_parser_order.Structs.{
  Exn, Outcome, ret, raised, ◌>>=◌, ◌>>◌, assertion_error, ModuleResult, ok, error, ErrorText,
  forward_error, fail, np_prefix, ip_prefix, ctrl_prefix, book_prefix, stock_locate_not_initialized,
  Str, ItchMsg, L3Entry, ControlResult, BboEntry, is_book_msg, stock_locate_of,
}
use nasdaq_itch_parser_order.Axis
use nasdaq_itch_parser_order.Axis.{Cycle}
use nasdaq_itch_parser_order.Mold
use nasdaq_itch_parser_order.Mold.{MoldUdp64Parser}
use nasdaq_itch_parser_order.Itch
use nasdaq_itch_parser_order.Itch.Cases.{Results}
use nasdaq_itch_parser_order.Control
use nasdaq_itch_parser_order.Control.{Control}
use nasdaq_itch_parser_order.L2.Levels.{PriceMemory}
use nasdaq_itch_parser_order.Bbo.{Quote}
use nasdaq_itch_parser_order.Book
use nasdaq_itch_parser_order.Book.{Book}

pub record Top (M N : Type 0) : Type 0 where
  pub buffer : List ℕ
  pub np : MoldUdp64Parser
  pub ctrl : Control
  pub book : Book M N
  pub initialized : Bool
  pub stock_active : Bool
  pub stock_locate : Option ℕ

abbrev pub init : {M N : Type 0} → Bool → M → N → Top M N
init ideal orders levels = record {
  buffer = [];
  np = Mold.init;
  ctrl = Control.new;
  book = Book.init ideal orders levels;
  initialized = false;
  stock_active = false;
  stock_locate = none;
}

-- `TopResult`
abbrev pub TopResult : Type 0
TopResult = ModuleResult Quote

-- what a generator does: it yields, and it ends or raises
pub record Run (S : Type 0) : Type 0 where
  pub results : List TopResult
  pub outcome : Outcome (Unit {0})
  pub state : S

-- `bid_entry`, `off_entry`, `spread` and `output_flag` of the loop over the messages
pub record Locals : Type 0 where
  pub output_flag : Bool
  pub quote : Quote

abbrev pub no_quote : Quote
no_quote = record { bid_entry = none; off_entry = none; spread = none }

-- how the body of a loop ends: at its end, by `yield` and `return`, or by an exception
pub data Verdict : Type 0 where
  proceed : Locals → Verdict
  refuse : ErrorText → Verdict
  raise : Exn → Verdict

module _ {M N : Type 0} (orders : Mapping M L3Entry) (levels : PriceMemory N) where
  -- the initial `Control` and book are set up one after the other, and an exception stops there
  unfoldable pub init_params : Str → Str → ℕ → Top M N → Outcome Bool × Top M N
  init_params market_code stock_symbol price_base s =
      let c = Control.init_params market_code stock_symbol s.ctrl in
      let s' = record s { ctrl = c.1 } in
      elim c.0 [
        | raised e ↦ (raised e, s')
        | ret _ ↦ elim (Book.init_params levels price_base s.book) [
          | raised e ↦ (raised e, s')
          | ret book ↦ (ret s.initialized, record s' { book = book; initialized = true })
        ]
      ]

  -- from the answer of the book on
  abbrev pub take_book : Outcome Book.BookResult → Verdict
  take_book (raised e) = Verdict.raise e
  take_book (ret (error text)) = Verdict.refuse (forward_error book_prefix text)
  take_book (ret (ok quote)) = Verdict.proceed (record { output_flag = true; quote = quote })

  -- `if isinstance(ip_result.parsed_msg, ITCHBookMsg)`, on the top level's `stock_locate`
  abbrev pub book_part : ItchMsg → Locals → Option ℕ → Top M N → Verdict × Top M N
  book_part msg l none s =
      if is_book_msg msg
      then (Verdict.refuse (record { prefixes = []; code = stock_locate_not_initialized }), s)
      else (Verdict.proceed l, s)
  book_part msg l (some locate) s =
      let r = Book.process_msg orders levels s.book msg in
      if not (is_book_msg msg)
      then (Verdict.proceed l, s)
      else if stock_locate_of msg == locate
      then (take_book r.0, record s { book = r.1 })
      else (Verdict.proceed l, s)

  -- `stock_locate` of the control result, which is asserted to come once
  abbrev pub note_locate : Option ℕ → Top M N → Outcome (Top M N)
  note_locate none s = ret s
  note_locate (some locate) s = elim s.stock_locate [
    | none ↦ ret (record s { stock_locate = some locate })
    | some _ ↦ raised assertion_error
  ]

  -- from the answer of the control module on
  abbrev pub after_ctrl :
      ItchMsg → Locals → Outcome (ModuleResult ControlResult) → Top M N → Verdict × Top M N
  after_ctrl msg l (raised e) s = (Verdict.raise e, s)
  after_ctrl msg l (ret (error text)) s = (Verdict.refuse (forward_error ctrl_prefix text), s)
  after_ctrl msg l (ret (ok r)) s =
      let s' = record s { stock_active = r.stock_active } in
      elim (note_locate r.stock_locate s') [
        | raised e ↦ (Verdict.raise e, s')
        | ret s'' ↦ book_part msg l s''.stock_locate s''
      ]

  -- the body of the loop over `ip_results`
  unfoldable pub take_result : ModuleResult ItchMsg → Locals → Top M N → Verdict × Top M N
  take_result (error text) l s = (Verdict.refuse (forward_error ip_prefix text), s)
  take_result (ok msg) l s =
      let c = Control.process_msg s.ctrl msg in after_ctrl msg l c.0 (record s { ctrl = c.1 })

  unfoldable pub take_results : Results → Locals → Top M N → Verdict × Top M N
  unfolding take_result
  take_results [] l s = (Verdict.proceed l, s)
  take_results (r ∷ rs) l s =
      let t = take_result r l s in
      elim t.0 [
        | Verdict.proceed l' ↦ take_results rs l' t.1
        | Verdict.refuse text ↦ (Verdict.refuse text, t.1)
        | Verdict.raise e ↦ (Verdict.raise e, t.1)
      ]

  -- the results of one message
  unfoldable pub take_msg : List ℕ → Top M N → Verdict × Top M N
  unfolding take_results
  take_msg unparsed_msg s = elim (Itch.parse_msg unparsed_msg) [
    | raised e ↦ (Verdict.raise e, s)
    | ret results ↦ take_results results (record { output_flag = false; quote = no_quote }) s
  ]

  -- `if output_flag: yield`, gated by `stock_active`
  abbrev pub output : Locals → Top M N → List TopResult
  output l s = if l.output_flag then ok (if s.stock_active then l.quote else no_quote) ∷ [] else []

  abbrev pub in_front : List TopResult → Run (Top M N) → Run (Top M N)
  in_front out run = record run { results = out ++ run.results }

  -- the end of one round, with what the further rounds do if they come to pass
  abbrev pub go_on : Verdict → Top M N → Run (Top M N) → Run (Top M N)
  go_on (Verdict.proceed l) s rest = in_front (output l s) rest
  go_on (Verdict.refuse text) s rest = record {
    results = error text ∷ [];
    outcome = ret tt;
    state = s;
  }
  go_on (Verdict.raise e) s rest = record { results = []; outcome = raised e; state = s }

  -- `for unparsed_msg in np_result.payload`
  unfoldable pub take_msgs : List (List ℕ) → Top M N → Run (Top M N)
  unfolding take_msg
  take_msgs [] s = record { results = []; outcome = ret tt; state = s }
  take_msgs (msg ∷ msgs) s = let t = take_msg msg s in go_on t.0 t.1 (take_msgs msgs t.1)

  -- from the answer of the MoldUDP64 parser on
  abbrev pub after_mold : ModuleResult (List (List ℕ)) → Top M N → Run (Top M N)
  after_mold (error text) s = record {
    results = error (forward_error np_prefix text) ∷ [];
    outcome = ret tt;
    state = s;
  }
  after_mold (ok payload) s = take_msgs payload s

  unfoldable pub process_pkt : List ℕ → Top M N → Run (Top M N)
  unfolding take_msgs
  process_pkt pkt s = let r = Mold.process_pkt s.np pkt in after_mold r.0 (record s { np = r.1 })

  -- `tready` is always true, and the callback is `process_pkt`
  abbrev pub call_back : Outcome (Option (List ℕ)) → Top M N → Run (Top M N)
  call_back (raised e) s = record { results = []; outcome = raised e; state = s }
  call_back (ret none) s = record { results = []; outcome = ret tt; state = s }
  call_back (ret (some pkt)) s = process_pkt pkt s

  unfoldable pub process_bus_cycle : Cycle → Top M N → Run (Top M N)
  unfolding process_pkt
  process_bus_cycle c s =
      let r = Axis.process_bus_cycle c true s.buffer in call_back r.0 (record s { buffer = r.1 })
