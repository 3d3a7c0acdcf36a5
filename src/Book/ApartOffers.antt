-- ===== src/Book/ApartOffers.antt =====
-- Bids and offers that are not crossed, when shares of an offer go.
use nasdaq_itch_parser_order.Prelude.{
  ℕ, ◌-◌, ◌≤◌, ◌≡◌, ap, true, false, [], ◌∷◌, arith, ◌==◌, inl, inr, Bool-cases,
}
use nasdaq_itch_parser_order.Bbo.Half.{better}
use nasdaq_itch_parser_order.Bbo.Ladder.{Level, Ladder, IsLadder, take_off, shares_of}
use nasdaq_itch_parser_order.Bbo.Update.{if_holds}
use nasdaq_itch_parser_order.L2.Accepts.{fewer}
use nasdaq_itch_parser_order.L2.Order.{same_price}
use nasdaq_itch_parser_order.L2.Sides.{shares_of-take_off}
use nasdaq_itch_parser_order.Book.Ladders.{levels_of}
use nasdaq_itch_parser_order.Book.Sides.{Uncrossed}

next-Uncrossed :
    (y : Level) (ys bids : Ladder)
    → IsLadder false (y ∷ ys)
    → Uncrossed bids (y ∷ ys)
    → Uncrossed bids ys
next-Uncrossed y ys [] h u = tt
next-Uncrossed y [] (x ∷ bids) h u = tt
next-Uncrossed y (z ∷ ys) (x ∷ bids) h u =
    let e : better false y.price z.price ≡ true = h.1.0 in ground arith

same_best :
    (y : Level) (n : ℕ) (xs ys bids : Ladder)
    → Uncrossed bids (y ∷ xs)
    → Uncrossed bids (record { shares = n; price = y.price } ∷ ys)
same_best y n xs ys [] u = tt
same_best y n xs ys (x ∷ bids) u = u

pub take_offers-Uncrossed :
    (n p : ℕ) (bids offs : Ladder)
    → IsLadder false offs
    → Uncrossed bids offs
    → Uncrossed bids (take_off n p offs)
unfolding take_off
take_offers-Uncrossed n p bids [] h u = u
take_offers-Uncrossed n p bids (y ∷ ys) h u =
    if_holds (λ ls. Uncrossed bids ls) (p == y.price)
      (λ _.
        if_holds (λ ls. Uncrossed bids ls) (y.shares - n == 0) (λ _. next-Uncrossed y ys bids h u)
          (λ _. same_best y (y.shares - n) ys ys bids u))
      (λ _. same_best y y.shares ys (take_off n p ys) bids u)

pub less_offers :
    (n p : ℕ) (bids offs : Ladder)
    → IsLadder false offs
    → n ≤ shares_of p offs
    → (k : ℕ) → fewer (levels_of bids offs) n p k ≡ levels_of bids (take_off n p offs) k
less_offers n p bids offs h hn k = elim (Bool-cases (p == k)) [
  | inl e ↦
      let same : shares_of p offs ≡ shares_of k offs =
        ap (λ (j : ℕ). shares_of j offs) (same_price p k e) in
      let after : shares_of k (take_off n p offs) ≡ shares_of k offs - n =
        rw e at (shares_of-take_off false k n p offs h) in
      rw e (omega (arith, same, hn, after))
  | inr e ↦
      let after : shares_of k (take_off n p offs) ≡ shares_of k offs =
        rw e at (shares_of-take_off false k n p offs h) in
      rw e (omega (arith, after))
]
