-- ===== src/Top/Entries.antt =====
-- The entry points of src/ref_model/top.py that the tests of the repository use.
use nasdaq_itch_parser_order.Prelude.{ℕ, Bool, true, not, some, List, [], ◌∷◌, ◌++◌, if◌then◌else◌}
use nasdaq_itch_parser_order.Prelude.Int.{ℤ}
use nasdaq_itch_parser_order.Dict.{Dict}
use nasdaq_itch_parser_order.Mapping.{Mapping}
use nasdaq_itch_parser_order.Structs.{
  Outcome, ret, raised, ◌>>=◌, assertion_error, ModuleResult, ok, error, forward_error, np_prefix,
  ItchMsg, L3Entry, is_book_msg, ControlResult,
}
use nasdaq_itch_parser_order.Mold
use nasdaq_itch_parser_order.Mold.{MoldUdp64Parser}
use nasdaq_itch_parser_order.Itch
use nasdaq_itch_parser_order.Itch.Cases.{Results}
use nasdaq_itch_parser_order.Control
use nasdaq_itch_parser_order.L2.Levels.{PriceMemory}
use nasdaq_itch_parser_order.Bbo.{Quote}
use nasdaq_itch_parser_order.Book
use nasdaq_itch_parser_order.Book.{Book}
use nasdaq_itch_parser_order.Book.Check.{assert_consistent_state}
use nasdaq_itch_parser_order.Top
use nasdaq_itch_parser_order.Top.{Top, no_quote}

-- the results in front of those of the other messages, up to an exception
abbrev yield_from : Outcome Results → Results × Outcome (Unit {0}) → Results × Outcome (Unit {0})
yield_from (raised e) rest = ([], raised e)
yield_from (ret results) rest = (results ++ rest.0, rest.1)

unfoldable pub parse_all : List (List ℕ) → Results × Outcome (Unit {0})
parse_all [] = ([], ret tt)
parse_all (msg ∷ msgs) = yield_from (Itch.parse_msg msg) (parse_all msgs)

abbrev parse_payload : ModuleResult (List (List ℕ)) → Results × Outcome (Unit {0})
parse_payload (error text) = (error (forward_error np_prefix text) ∷ [], ret tt)
parse_payload (ok payload) = parse_all payload

-- what the generator yields, how it ends, and the state of the MoldUDP64 parser
unfoldable pub test_parse_pkt :
    List ℕ → MoldUdp64Parser → (Results × Outcome (Unit {0})) × MoldUdp64Parser
unfolding parse_all
test_parse_pkt pkt np = let r = Mold.process_pkt np pkt in (parse_payload r.0, r.1)

module _ {M N : Type 0} (orders : Mapping M L3Entry) (levels : PriceMemory N) where
  unfoldable pub test_process_ctrl_msg :
      ItchMsg → Top M N → Outcome (ModuleResult ControlResult) × Top M N
  test_process_ctrl_msg msg s =
      let r = Control.process_msg s.ctrl msg in (r.0, record s { ctrl = r.1 })

  unfoldable pub get_test_process_book_msg : Bool → ℕ → ℕ → M → N → Outcome (Top M N)
  get_test_process_book_msg ideal stock_locate price_base no_orders no_levels =
      let ref : Top M N = Top.init ideal no_orders no_levels in
      Book.init_params levels price_base ref.book >>= λ book.
      ret (record ref { initialized = true; book = book; stock_locate = some stock_locate })

  -- the loop over the messages, on the quote of the last one
  unfoldable pub process_book_msgs :
      List ItchMsg → Quote → Book M N → Outcome Book.BookResult × Book M N
  process_book_msgs [] quote s = (ret (ok quote), s)
  process_book_msgs (msg ∷ msgs) quote s =
      let r = Book.process_msg orders levels s msg in
      if not (is_book_msg msg) then (raised assertion_error, s) else elim r.0 [
        | raised e ↦ (raised e, r.1)
        | ret result ↦ elim result [
          | error text ↦ (ret (error text), r.1)
          | ok quote' ↦ process_book_msgs msgs quote' r.1
        ]
      ]

  -- a single message is a list of one
  unfoldable pub test_process_book_msg : List ItchMsg → Top M N → Outcome Book.BookResult × Top M N
  unfolding process_book_msgs
  test_process_book_msg parsed_msgs s =
      let r = process_book_msgs parsed_msgs no_quote s.book in (r.0, record s { book = r.1 })

module _ {M N : Type 0} (orders_of : M → Outcome (Dict L3Entry)) (levels_of : N → Outcome (Dict ℤ))
    (levels : PriceMemory N) where
  unfoldable pub assert_consistent_book_state : Top M N → Outcome (Unit {0})
  assert_consistent_book_state s = assert_consistent_state orders_of levels_of levels s.book
