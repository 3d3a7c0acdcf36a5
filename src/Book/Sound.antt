-- ===== src/Book/Sound.antt =====
-- The messages that an ideal book takes without an exception: prices on a tick, shares, and no order
-- at or beyond the price of a resting order of the other side.
use nasdaq_itch_parser_order.Prelude.{
  ℕ, ◌%◌, ◌<◌, ◌≡◌, Bool, true, false, not, ◌&&◌, ◌||◌, Option, none, some, [], ◌∷◌, arith, ltb,
  leb, ◌==◌, bool_eq, if◌then◌else◌, inl, inr, Bool-cases,
}
use nasdaq_itch_parser_order.Structs.{
  ItchMsg, add_order_msg, reduce_order_msg, delete_order_msg, replace_order_msg,
}
use nasdaq_itch_parser_order.L3.{L3}
use nasdaq_itch_parser_order.Bbo.Half.{Kind, better}
use nasdaq_itch_parser_order.Bbo.Ladder.{Level, Ladder, IsLadder, place, shares_of}
use nasdaq_itch_parser_order.Bbo.Update.{if_holds}
use nasdaq_itch_parser_order.Book.Sides.{Uncrossed}
use nasdaq_itch_parser_order.Book.Keeping.{own, Fitting}
use nasdaq_itch_parser_order.Book.Orders.{Orders, resting}

-- a price of one side that is at or beyond a price of the other
abbrev pub meets : Bool → (price rival : ℕ) → Bool
meets is_buy price rival = if is_buy then leb rival price else leb price rival

unfoldable pub crosses : Bool → ℕ → Orders → Bool
crosses b p [] = false
crosses b p ((k, e) ∷ d) =
    let rest = crosses b p d in not (bool_eq b e.is_buy) && meets b p e.price || rest

abbrev pub may_rest : Bool → (shares price : ℕ) → Orders → Bool
may_rest b n p d = ltb 0 n && (p % 50 == 0) && not (crosses b p d)

abbrev pub may_replace : Option Bool → (shares price : ℕ) → Orders → Bool
may_replace none n p d = false
may_replace (some b) n p d = may_rest b n p d

abbrev pub sound : L3 Orders → ItchMsg → Bool
sound s (add_order_msg _ k b n p) = may_rest b n p s.memory
sound s (reduce_order_msg _ k n) = ltb 0 n
sound s (delete_order_msg _ k) = true
sound s (replace_order_msg _ k n p) = may_replace s.last_del_is_buy n p s.memory
sound s _ = false

-- no shares rest on the other side at a price that is met
uncrossed_apart :
    (b : Bool) (p q : ℕ) (d : Orders)
    → crosses b p d ≡ false
    → 0 < resting (not b) q d
    → meets b p q ≡ false
unfolding crosses resting
uncrossed_apart b p q [] h hq = absurd (omega arith)
uncrossed_apart b p q ((k, e) ∷ d) h hq = elim (Bool-cases (crosses b p d)) [
  | inl w ↦ absurd (ground arith)
  | inr w ↦ elim (Bool-cases (ltb 0 (resting (not b) q d))) [
    | inl z ↦ uncrossed_apart b p q d w (ground arith)
    | inr z ↦ ground arith
  ]
]

-- the best price of a ladder that is not empty has shares
first_counts :
    (x : Level) (xs : Ladder) (b : Bool) → IsLadder b (x ∷ xs) → 0 < shares_of x.price (x ∷ xs)
unfolding shares_of
first_counts x xs b h = ground (arith, h.0)

abbrev BelowBest : ℕ → Ladder → Type 0
BelowBest p [] = Unit {0}
BelowBest p (y ∷ ys) = p < y.price

abbrev AboveBest : ℕ → Ladder → Type 0
AboveBest p [] = Unit {0}
AboveBest p (x ∷ xs) = x.price < p

place_below :
    (n p : ℕ) (bids offs : Ladder)
    → Uncrossed bids offs
    → BelowBest p offs
    → Uncrossed (place true n p bids) offs
unfolding place
place_below n p [] [] h hb = tt
place_below n p [] (y ∷ ys) h hb = hb
place_below n p (x ∷ xs) [] h hb =
    if_holds (λ ls. Uncrossed ls []) (p == x.price) (λ _. tt)
      (λ _. if_holds (λ ls. Uncrossed ls []) (better true p x.price) (λ _. tt) (λ _. tt))
place_below n p (x ∷ xs) (y ∷ ys) h hb =
    if_holds (λ ls. Uncrossed ls (y ∷ ys)) (p == x.price) (λ _. h)
      (λ _. if_holds (λ ls. Uncrossed ls (y ∷ ys)) (better true p x.price) (λ _. hb) (λ _. h))

place_above :
    (n p : ℕ) (bids offs : Ladder)
    → Uncrossed bids offs
    → AboveBest p bids
    → Uncrossed bids (place false n p offs)
unfolding place
place_above n p [] offs h hb = tt
place_above n p (x ∷ xs) [] h hb = hb
place_above n p (x ∷ xs) (y ∷ ys) h hb =
    if_holds (λ ls. Uncrossed (x ∷ xs) ls) (p == y.price) (λ _. h)
      (λ _. if_holds (λ ls. Uncrossed (x ∷ xs) ls) (better false p y.price) (λ _. hb) (λ _. h))

below :
    (p : ℕ) (ls : Ladder) (d : Orders)
    → IsLadder false ls
    → ((q : ℕ) → shares_of q ls ≡ resting false q d)
    → crosses true p d ≡ false
    → BelowBest p ls
below p [] d h sums hc = tt
below p (y ∷ ys) d h sums hc =
    let apart =
      uncrossed_apart true p y.price d hc
        (omega (arith, sums y.price, first_counts y ys false h)) in
    ground arith

above :
    (p : ℕ) (ls : Ladder) (d : Orders)
    → IsLadder true ls
    → ((q : ℕ) → shares_of q ls ≡ resting true q d)
    → crosses false p d ≡ false
    → AboveBest p ls
above p [] d h sums hc = tt
above p (x ∷ xs) d h sums hc =
    let apart =
      uncrossed_apart false p x.price d hc
        (omega (arith, sums x.price, first_counts x xs true h)) in
    ground arith

-- an order that crosses no resting order fits the ladders
pub may_rest-Fitting :
    (b : Bool) (n p : ℕ) (bids offs : Ladder) (d : Orders)
    → IsLadder true bids
    → IsLadder false offs
    → Uncrossed bids offs
    → ((c : Bool) (q : ℕ) → shares_of q (own c bids offs) ≡ resting c q d)
    → crosses b p d ≡ false
    → Fitting Kind.adds b n p bids offs
may_rest-Fitting true n p bids offs d h h' hu sums hc =
    place_below n p bids offs hu (below p offs d h' (sums false) hc)
may_rest-Fitting false n p bids offs d h h' hu sums hc =
    place_above n p bids offs hu (above p bids d h (sums true) hc)

pub may_rest_parts :
    (b : Bool) (n p : ℕ) (d : Orders)
    → may_rest b n p d ≡ true
    → (0 < n) × (p % 50 ≡ 0) × (crosses b p d ≡ false)
may_rest_parts b n p d h = ground arith
