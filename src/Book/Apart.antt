-- ===== src/Book/Apart.antt =====
-- Bids and offers that are not crossed, when shares of a bid go.
use nasdaq_itch_parser_order.Prelude.{
  ℕ, ◌-◌, ◌≤◌, ◌<◌, ◌≡◌, ap, Bool, true, false, [], ◌∷◌, arith, ◌==◌, inl, inr, Bool-cases, ltb,
}
use nasdaq_itch_parser_order.Prelude.IntSets.{elem}
use nasdaq_itch_parser_order.Bbo.Half.{better}
use nasdaq_itch_parser_order.Bbo.Ladder.{Level, Ladder, IsLadder, take_off, shares_of}
use nasdaq_itch_parser_order.Bbo.Update.{if_holds}
use nasdaq_itch_parser_order.L2.Accepts.{fewer}
use nasdaq_itch_parser_order.L2.Order.{same_price}
use nasdaq_itch_parser_order.L2.Query.{prices}
use nasdaq_itch_parser_order.L2.Sides.{shares_of-take_off, unlisted}
use nasdaq_itch_parser_order.Book.Ladders.{levels_of}
use nasdaq_itch_parser_order.Book.Sides.{Uncrossed, one_side}

pub next-Uncrossed :
    (x : Level) (xs offs : Ladder)
    → IsLadder true (x ∷ xs)
    → Uncrossed (x ∷ xs) offs
    → Uncrossed xs offs
next-Uncrossed x [] offs h u = tt
next-Uncrossed x (z ∷ xs) [] h u = tt
next-Uncrossed x (z ∷ xs) (y ∷ offs) h u =
    let e : better true x.price z.price ≡ true = h.1.0 in ground arith

pub same_best :
    (x : Level) (n : ℕ) (xs ys offs : Ladder)
    → Uncrossed (x ∷ xs) offs
    → Uncrossed (record { shares = n; price = x.price } ∷ ys) offs
same_best x n xs ys [] u = tt
same_best x n xs ys (y ∷ offs) u = u

pub take_bids-Uncrossed :
    (n p : ℕ) (bids offs : Ladder)
    → IsLadder true bids
    → Uncrossed bids offs
    → Uncrossed (take_off n p bids) offs
unfolding take_off
take_bids-Uncrossed n p [] offs h u = tt
take_bids-Uncrossed n p (x ∷ xs) offs h u =
    if_holds (λ ls. Uncrossed ls offs) (p == x.price)
      (λ _.
        if_holds (λ ls. Uncrossed ls offs) (x.shares - n == 0) (λ _. next-Uncrossed x xs offs h u)
          (λ _. same_best x (x.shares - n) xs xs offs u))
      (λ _. same_best x x.shares xs (take_off n p xs) offs u)

pub less_bids :
    (n p : ℕ) (bids offs : Ladder)
    → IsLadder true bids
    → n ≤ shares_of p bids
    → (k : ℕ) → fewer (levels_of bids offs) n p k ≡ levels_of (take_off n p bids) offs k
less_bids n p bids offs h hn k = elim (Bool-cases (p == k)) [
  | inl e ↦
      let same : shares_of p bids ≡ shares_of k bids =
        ap (λ (j : ℕ). shares_of j bids) (same_price p k e) in
      let after : shares_of k (take_off n p bids) ≡ shares_of k bids - n =
        rw e at (shares_of-take_off true k n p bids h) in
      rw e (omega (arith, same, hn, after))
  | inr e ↦
      let after : shares_of k (take_off n p bids) ≡ shares_of k bids =
        rw e at (shares_of-take_off true k n p bids h) in
      rw e (omega (arith, after))
]

-- a price of one side holds no shares of the other
pub none_offered :
    (bids offs : Ladder) (q : ℕ)
    → IsLadder true bids
    → IsLadder false offs
    → Uncrossed bids offs
    → 0 < shares_of q bids
    → shares_of q offs ≡ 0
none_offered bids offs q hb ho hu hq = elim (Bool-cases (ltb 0 (shares_of q offs))) [
  | inl e ↦ absurd (one_side bids offs q hb ho hu hq (ground arith))
  | inr e ↦ ground arith
]

pub none_bid :
    (bids offs : Ladder) (q : ℕ)
    → IsLadder true bids
    → IsLadder false offs
    → Uncrossed bids offs
    → 0 < shares_of q offs
    → shares_of q bids ≡ 0
none_bid bids offs q hb ho hu hq = elim (Bool-cases (ltb 0 (shares_of q bids))) [
  | inl e ↦ absurd (one_side bids offs q hb ho hu (ground arith) hq)
  | inr e ↦ ground arith
]

pub listed_of : (q : ℕ) (ls : Ladder) → 0 < shares_of q ls → elem q (prices ls) ≡ true
listed_of q ls h = elim (Bool-cases (elem q (prices ls))) [
  | inl e ↦ e
  | inr e ↦ absurd (omega (arith, unlisted q ls e))
]

pub second_shares :
    (c : Bool) (x y : Level) (rest : Ladder)
    → IsLadder c (x ∷ y ∷ rest)
    → shares_of y.price (x ∷ y ∷ rest) ≡ y.shares
unfolding shares_of
second_shares true x y rest h = let e : better true x.price y.price ≡ true = h.1.0 in ground arith
second_shares false x y rest h = let e : better false x.price y.price ≡ true = h.1.0 in ground arith
