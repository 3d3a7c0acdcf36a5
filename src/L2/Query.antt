-- ===== src/L2/Query.antt =====
-- `L2.get_updt` on the prices of a ladder.
use nasdaq_itch_parser_order.Prelude.{
  ℕ, suc, ◌+◌, ◌<◌, ◌≡◌, refl, sym, ap, ◌∙◌, Bool, true, false, Option, some, List, [], ◌∷◌, arith,
  All, if◌then◌else◌, length, take, ltb_lt,
}
use nasdaq_itch_parser_order.Prelude.IntSets.{elem, insert_by, sort_by, nlargest, nsmallest}
use nasdaq_itch_parser_order.Prelude.Int.{ℤ, pos}
use nasdaq_itch_parser_order.Structs.{ret, ok}
use nasdaq_itch_parser_order.Bbo.Half.{better}
use nasdaq_itch_parser_order.Bbo.Ladder.{Level, Ladder, IsLadder}
use nasdaq_itch_parser_order.Bbo.Adds.{entry_of}
use nasdaq_itch_parser_order.L2.{L2, side, get_updt}
use nasdaq_itch_parser_order.L2.Levels.{PriceMemory, IsPriceMap}
use nasdaq_itch_parser_order.L2.Order.{IsStrict, IsDistinct, before, sort_by-strict}
use nasdaq_itch_parser_order.L2.Refines.{Shows}
use nasdaq_itch_parser_order.L2.Accepts.{level, level-some}

abbrev pub prices : Ladder → List ℕ
prices [] = []
prices (l ∷ ls) = l.price ∷ prices ls

pub All-prices :
    (b : Bool) (x : ℕ) (ls : Ladder)
    → All (λ m. better b x m.price ≡ true) ls
    → All (λ y. better b x y ≡ true) (prices ls)
All-prices b x [] h = tt
All-prices b x (m ∷ ls) h = (h.0, All-prices b x ls h.1)

pub prices-IsStrict : (b : Bool) (ls : Ladder) → IsLadder b ls → IsStrict b (prices ls)
prices-IsStrict b [] h = tt
prices-IsStrict b (l ∷ ls) h = (All-prices b l.price ls h.1, prices-IsStrict b ls h.2)

length-insert_by :
    (f : ℕ → ℕ → Bool) (p : ℕ) (xs : List ℕ) → length (insert_by f p xs) ≡ suc (length xs)
unfolding insert_by
length-insert_by f p [] = refl
length-insert_by f p (x ∷ xs) = ground (arith, length-insert_by f p xs)

pub length-sort_by : (f : ℕ → ℕ → Bool) (xs : List ℕ) → length (sort_by f xs) ≡ length xs
unfolding sort_by
length-sort_by f [] = refl
length-sort_by f (x ∷ xs) = length-insert_by f x (sort_by f xs) ∙ ap suc (length-sort_by f xs)

-- the two best prices, as the code gets them
best_two :
    (b : Bool) (xs ys : List ℕ)
    → sort_by (before b) xs ≡ ys
    → (if b then nlargest (1 + 1) xs else nsmallest (1 + 1) xs) ≡ take 2 ys
best_two true xs ys h = ap (λ (zs : List ℕ). take 2 zs) h
best_two false xs ys h = ap (λ (zs : List ℕ). take 2 zs) h

-- The set of a side has the prices of a ladder of at least two levels, no price twice, and the memory
-- shows the shares of the second level: the query gives that level.
pub get_updt-second :
    {M : Type 0} (ops : PriceMemory M) (InRange : ℕ → Type 0) (IsValid : M → Type 0)
    (view : M → ℕ → Option ℤ) (laws : IsPriceMap ops InRange IsValid view) (s : L2 M) (t : ℕ → ℕ)
    (b : Bool) (x y : Level) (ls : Ladder)
    → Shows ops InRange IsValid view laws s.memory t
    → IsLadder b (x ∷ y ∷ ls)
    → IsDistinct (side b s)
    → ((q : ℕ) → elem q (side b s) ≡ elem q (prices (x ∷ y ∷ ls)))
    → InRange y.price
    → t y.price ≡ y.shares
    → get_updt ops s b ≡ ret (ok (entry_of y))
unfolding get_updt
get_updt-second ops InRange IsValid view laws s t b x y ls shows hl hd same hy ht =
    let sorted =
      sort_by-strict b (side b s) (prices (x ∷ y ∷ ls)) hd (prices-IsStrict b (x ∷ y ∷ ls) hl)
        same in
    let many : 1 < length (side b s) = omega (
      arith,
      sym (length-sort_by (before b) (side b s)) ∙ ap (λ (zs : List ℕ). length zs) sorted,
    ) in
    let shown : view s.memory y.price ≡ some (pos y.shares) =
      shows.1 y.price hy ∙ ap (λ (n : ℕ). level n) ht ∙ level-some y.shares hl.2.0 in
    rw
      (
        ltb_lt 1 (length (side b s)) many,
        best_two b (side b s) (prices (x ∷ y ∷ ls)) sorted,
        laws.get_view s.memory y.price (pos y.shares) shows.0 hy shown,
      )
      refl
