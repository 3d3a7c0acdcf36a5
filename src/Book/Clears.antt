-- ===== src/Book/Clears.antt =====
-- Deletions of all live orders of an ideal book, one after the other.
use nasdaq_itch_parser_order.Prelude.{
  ℕ, ◌≡◌, refl, ap, ◌∙◌, Bool, true, false, none, some, List, [], ◌∷◌, inl, inr, arith, map,
  ==_refl,
}
use mathlib.Core.Path.{subst}
use nasdaq_itch_parser_order.Dict
use nasdaq_itch_parser_order.Structs.{ItchMsg, delete_order_msg, L3Entry}
use nasdaq_itch_parser_order.L3.{L3}
use nasdaq_itch_parser_order.L2.Accepts.{level}
use nasdaq_itch_parser_order.Bbo.Ladder.{Ladder, IsLadder, shares_of}
use nasdaq_itch_parser_order.Book.Ladders.{levels_of}
use nasdaq_itch_parser_order.Book.Sides.{best}
use nasdaq_itch_parser_order.Book.Orders.{Orders, resting, DistinctKeys, delete_absent}
use nasdaq_itch_parser_order.Book.Setting.{ideal_setting}
use nasdaq_itch_parser_order.Book.Answers.{delete_live}
use nasdaq_itch_parser_order.Book.Whole.{Whole, book_call, process_msg-Whole}
use nasdaq_itch_parser_order.Book.Passes.{IdealBook, first_shares}
use nasdaq_itch_parser_order.Book.Reachable.{Reachable, Reachable-Whole}

-- one call for each message
unfoldable pub book_calls : ℕ → IdealBook → List ItchMsg → IdealBook
book_calls price_base s [] = s
book_calls price_base s (msg ∷ msgs) =
    book_calls price_base (book_call (ideal_setting price_base) s msg).1 msgs

-- a deletion of each order
abbrev pub deletions : Orders → List ItchMsg
deletions d = map (λ e. delete_order_msg 0 e.0) d

first_live : (k : ℕ) (e : L3Entry) (d : Orders) → Dict.lookup k ((k, e) ∷ d) ≡ some e
unfolding Dict.lookup
first_live k e d = rw (==_refl k) refl

first_deleted :
    (k : ℕ) (e : L3Entry) (d : Orders) → DistinctKeys ((k, e) ∷ d) → Dict.delete k ((k, e) ∷ d) ≡ d
unfolding Dict.delete
first_deleted k e d h = rw (==_refl k) (delete_absent k d h.0)

-- what the deletion of the first order leaves
after_first :
    (price_base : ℕ) (s : IdealBook) (bids offs : Ladder) (k : ℕ) (e : L3Entry) (d : Orders)
    → Whole (ideal_setting price_base) s bids offs
    → s.l3.memory ≡ (k, e) ∷ d
    → (book_call (ideal_setting price_base) s (delete_order_msg 0 k)).1.l3.memory ≡ d
after_first price_base s bids offs k e d w h =
    let live = delete_live s.l3 0 k e (ap (Dict.lookup k) h ∙ first_live k e d) in
    let left : Dict.delete k s.l3.memory ≡ d =
      ap (Dict.delete k) h
      ∙ first_deleted k e d (subst (λ (x : Orders). DistinctKeys x) h w.distinct) in
    elim (process_msg-Whole (ideal_setting price_base) s bids offs (delete_order_msg 0 k) w refl
      tt) [
        | inl r ↦ absurd (cc (r.answer, ap (λ o. o.0) live))
        | inr q ↦
            ap (λ o. o.1.l3.memory) q.call
            ∙ ap (λ (l : L3 Orders). l.memory) (q.orders ∙ ap (λ o. o.1) live)
            ∙ left
      ]

empty_ladder : (b : Bool) (ls : Ladder) → IsLadder b ls → ((p : ℕ) → shares_of p ls ≡ 0) → ls ≡ []
empty_ladder b [] h sums = refl
empty_ladder b (x ∷ xs) h sums = absurd (omega (arith, sums x.price, first_shares x xs, h.0))

-- no order, no level, and no best price
abbrev pub IsEmpty : IdealBook → Type 0
IsEmpty s =
    (s.l3.memory ≡ [])
    × ((p : ℕ) → Dict.lookup p s.l2.memory ≡ none)
    × (s.bbo.bid_entry ≡ none)
    × (s.bbo.off_entry ≡ none)

sums_of_none : (b : Bool) (p : ℕ) (d : Orders) → d ≡ [] → resting b p d ≡ 0
unfolding resting
sums_of_none b p d h = ap (λ (x : Orders). resting b p x) h

no_orders-IsEmpty :
    (price_base : ℕ) (s : IdealBook) (bids offs : Ladder)
    → Whole (ideal_setting price_base) s bids offs
    → s.l3.memory ≡ []
    → IsEmpty s
no_orders-IsEmpty price_base s bids offs w h =
    let none_of = λ (b : Bool) (p : ℕ). w.sums b p ∙ sums_of_none b p s.l3.memory h in
    let eb = empty_ladder true bids w.keeps.bid_side.ladder (none_of true) in
    let eo = empty_ladder false offs w.keeps.off_side.ladder (none_of false) in
    (
      h,
      λ p.
          let gone : levels_of bids offs p ≡ 0 = omega (arith, none_of true p, none_of false p) in
          w.keeps.shares.1 p tt ∙ ap (λ (n : ℕ). level n) gone,
      w.keeps.bid_side.quoted ∙ ap (λ ls. best ls) eb,
      w.keeps.off_side.quoted ∙ ap (λ ls. best ls) eo,
    )

clears :
    (price_base : ℕ) (d : Orders) (s : IdealBook)
    → Reachable price_base s
    → s.l3.memory ≡ d
    → Reachable price_base (book_calls price_base s (deletions d))
      × IsEmpty (book_calls price_base s (deletions d))
unfolding book_calls
clears price_base [] s r h =
    let (bids, offs, w) = Reachable-Whole price_base s r in
    (r, no_orders-IsEmpty price_base s bids offs w h)
clears price_base ((k, e) ∷ d) s r h =
    let (bids, offs, w) = Reachable-Whole price_base s r in
    clears price_base d (book_call (ideal_setting price_base) s (delete_order_msg 0 k)).1
      (Reachable.next (delete_order_msg 0 k) r refl) (after_first price_base s bids offs k e d w h)

-- From every state of an ideal book that sound messages reach, one deletion for each live order, in
-- the order of the table, leads to a reachable state with no order, no level and no best bid or
-- offer.
pub Reachable-clears :
    (price_base : ℕ) (s : IdealBook)
    → Reachable price_base s
    → Reachable price_base (book_calls price_base s (deletions s.l3.memory))
      × IsEmpty (book_calls price_base s (deletions s.l3.memory))
Reachable-clears price_base s r = clears price_base s.l3.memory s r refl
