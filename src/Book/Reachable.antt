-- ===== src/Book/Reachable.antt =====
-- The states of an ideal book under sound messages.
use nasdaq_itch_parser_order.Prelude.{
  ℕ, ◌≡◌, sym, ap, ◌∙◌, Bool, true, false, [], inl, inr, refl, none,
}
use nasdaq_itch_parser_order.Prelude.Int.{ℤ}
use nasdaq_itch_parser_order.Dict
use nasdaq_itch_parser_order.Structs.{
  ret, ret_injective, ItchMsg, add_order_msg, replace_order_msg, system_event_msg, directory_msg,
  trade_action_msg, op_halt_msg, reduce_order_msg, delete_order_msg, ignored_msg,
}
use nasdaq_itch_parser_order.L3
use nasdaq_itch_parser_order.L3.{L3}
use mathlib.Core.Path.{subst}
use nasdaq_itch_parser_order.L2.Levels
use nasdaq_itch_parser_order.Bbo.Ladder.{Ladder, shares_of}
use nasdaq_itch_parser_order.Book
use nasdaq_itch_parser_order.Book.Keeping.{own, init_params-Keeps}
use nasdaq_itch_parser_order.Book.Orders.{Orders, DistinctKeys, AllFair, resting}
use nasdaq_itch_parser_order.Book.Setting.{ideal_setting}
use nasdaq_itch_parser_order.Book.Ladders.{Keeps}
use nasdaq_itch_parser_order.Book.Ledger.{PricedIn}
use nasdaq_itch_parser_order.Book.Whole.{Whole, book_call, process_msg-Whole}
use nasdaq_itch_parser_order.Book.Sound.{sound}
use nasdaq_itch_parser_order.Book.Check.{assert_consistent_state}
use nasdaq_itch_parser_order.Book.Passes.{IdealBook, assert_consistent_state-passes}

abbrev pub new_book : IdealBook
new_book = Book.init true [] []

-- from an initialised book, by messages that it takes
pub data Reachable (price_base : ℕ) : IdealBook → Type 0 where
  start :
      {s : IdealBook}
      → Book.init_params Levels.dict_ops price_base new_book ≡ ret s
      → Reachable price_base s
  next :
      {s : IdealBook} (msg : ItchMsg)
      → Reachable price_base s
      → sound s.l3 msg ≡ true
      → Reachable price_base (book_call (ideal_setting price_base) s msg).1

abbrev pub SomeWhole : ℕ → IdealBook → Type 0
SomeWhole price_base s =
    (bids : Ladder) × (offs : Ladder) × Whole (ideal_setting price_base) s bids offs

-- the ideal model takes every price
pub priced_anywhere :
    (price_base : ℕ) (msg : ItchMsg) → PricedIn (ideal_setting price_base).InRange msg
priced_anywhere price_base (add_order_msg _ _ _ _ _) = tt
priced_anywhere price_base (replace_order_msg _ _ _ _) = tt
priced_anywhere price_base (system_event_msg _ _) = tt
priced_anywhere price_base (directory_msg _ _) = tt
priced_anywhere price_base (trade_action_msg _ _ _) = tt
priced_anywhere price_base (op_halt_msg _ _ _ _) = tt
priced_anywhere price_base (reduce_order_msg _ _ _) = tt
priced_anywhere price_base (delete_order_msg _ _) = tt
priced_anywhere price_base (ignored_msg _) = tt

no_sums :
    (b : Bool) (p : ℕ) (l : L3 Orders)
    → L3.init [] ≡ l
    → shares_of p (own b [] []) ≡ resting b p l.memory
unfolding resting shares_of
no_sums true p l h = ap (λ (x : L3 Orders). resting true p x.memory) h
no_sums false p l h = ap (λ (x : L3 Orders). resting false p x.memory) h

nothing_at : (k : ℕ) → Dict.lookup {V = ℤ} k [] ≡ none
unfolding Dict.lookup
nothing_at k = refl

-- the state behind the initialisation is the one that keeps two empty ladders
started :
    (price_base : ℕ) (s : IdealBook)
    → Book.init_params Levels.dict_ops price_base new_book ≡ ret s
    → (L3.init [] ≡ s.l3) × Keeps (ideal_setting price_base) s [] []
started price_base s h =
    let (s', e, l, keeps) =
      init_params-Keeps {M = Orders} (ideal_setting price_base) [] [] [] refl refl tt
        (λ k _. nothing_at k) in
    let same : s' ≡ s = ret_injective (sym e ∙ h) in
    (sym l ∙ ap (λ (x : IdealBook). x.l3) same, rw same at keeps)

pub start-l3 :
    (price_base : ℕ) (s : IdealBook)
    → Book.init_params Levels.dict_ops price_base new_book ≡ ret s
    → L3.init [] ≡ s.l3
start-l3 price_base s h = (started price_base s h).0

pub start-Whole :
    (price_base : ℕ) (s : IdealBook)
    → Book.init_params Levels.dict_ops price_base new_book ≡ ret s
    → Whole (ideal_setting price_base) s [] []
start-Whole price_base s h =
    let (l, keeps) = started price_base s h in
    record {
      keeps = keeps;
      distinct = subst (λ (x : L3 Orders). DistinctKeys x.memory) l tt;
      fair = subst (λ (x : L3 Orders). AllFair x.memory) l tt;
      sums = λ b p. no_sums b p s.l3 l;
    }

next-Whole :
    (price_base : ℕ) (s : IdealBook) (bids offs : Ladder) (msg : ItchMsg)
    → Whole (ideal_setting price_base) s bids offs
    → sound s.l3 msg ≡ true
    → SomeWhole price_base (book_call (ideal_setting price_base) s msg).1
next-Whole price_base s bids offs msg w h =
    elim (process_msg-Whole (ideal_setting price_base) s bids offs msg w h
      (priced_anywhere price_base msg)) [
        | inl r ↦ rw r.call (bids, offs, w)
        | inr q ↦ rw q.call (q.bids, q.offs, q.whole)
      ]

pub Reachable-Whole :
    (price_base : ℕ) (s : IdealBook) → Reachable price_base s → SomeWhole price_base s
Reachable-Whole price_base s (Reachable.start h) = ([], [], start-Whole price_base s h)
Reachable-Whole price_base _ (Reachable.next {s} msg r h) =
    let (bids, offs, w) = Reachable-Whole price_base s r in
    next-Whole price_base s bids offs msg w h

-- In every state that sound messages reach from a new ideal book, initialised with any base price, the
-- book's own check of its orders, levels and best entries finds no fault.
pub Reachable-consistent :
    (price_base : ℕ) (s : IdealBook)
    → Reachable price_base s
    → assert_consistent_state (λ d. ret d) (λ d. ret d) Levels.dict_ops s ≡ ret tt
Reachable-consistent price_base s r =
    let (bids, offs, w) = Reachable-Whole price_base s r in
    assert_consistent_state-passes price_base s bids offs w
