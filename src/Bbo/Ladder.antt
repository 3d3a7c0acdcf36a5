-- ===== src/Bbo/Ladder.antt =====
-- The levels of one side of a book, best first: what `BBOHalf` keeps the top of.
use nasdaq_itch_parser_order.Prelude.{
  ℕ, ◌+◌, ◌-◌, ◌≤◌, ◌<◌, ◌≡◌, Bool, true, List, [], ◌∷◌, arith, All, ◌==◌, if◌then◌else◌,
}
use nasdaq_itch_parser_order.Bbo.Half.{better}

pub record Level : Type 0 where
  pub shares : ℕ
  pub price : ℕ

abbrev pub Ladder : Type 0
Ladder = List Level

-- Every level holds shares and is better than those behind it.
abbrev pub IsLadder : Bool → Ladder → Type 0
IsLadder is_buy [] = Unit {0}
IsLadder is_buy (l ∷ ls) =
    (0 < l.shares) × All (λ m. better is_buy l.price m.price ≡ true) ls × IsLadder is_buy ls

-- shares that come in at a price
unfoldable pub place : Bool → (shares price : ℕ) → Ladder → Ladder
place is_buy n p [] = record { shares = n; price = p } ∷ []
place is_buy n p (l ∷ ls) =
    let rest = place is_buy n p ls in
    if p == l.price
    then record { shares = l.shares + n; price = l.price } ∷ ls
    else if better is_buy p l.price
    then record { shares = n; price = p } ∷ l ∷ ls
    else l ∷ rest

-- shares that go; a level without any goes with them
unfoldable pub take_off : (shares price : ℕ) → Ladder → Ladder
take_off n p [] = []
take_off n p (l ∷ ls) =
    let rest = take_off n p ls in
    if p == l.price
    then (if l.shares - n == 0 then ls else record { shares = l.shares - n; price = l.price } ∷ ls)
    else l ∷ rest

unfoldable pub shares_of : (price : ℕ) → Ladder → ℕ
shares_of p [] = 0
shares_of p (l ∷ ls) = let rest = shares_of p ls in if p == l.price then l.shares else rest

-- the shares of the levels whose price passes a test
unfoldable pub total : (ℕ → Bool) → Ladder → ℕ
total f [] = 0
total f (l ∷ ls) = (if f l.price then l.shares else 0) + total f ls

pub total-place :
    (f : ℕ → Bool) (is_buy : Bool) (n p : ℕ) (ls : Ladder)
    → total f (place is_buy n p ls) ≡ total f ls + (if f p then n else 0)
unfolding total place
total-place f is_buy n p [] = omega arith
total-place f is_buy n p (l ∷ ls) = ground (arith, total-place f is_buy n p ls)

pub total-take_off :
    (f : ℕ → Bool) (n p : ℕ) (ls : Ladder)
    → n ≤ shares_of p ls
    → total f (take_off n p ls) + (if f p then n else 0) ≡ total f ls
unfolding total take_off shares_of
total-take_off f n p [] h = ground arith
total-take_off f n p (l ∷ ls) h = ground (arith, total-take_off f n p ls)
