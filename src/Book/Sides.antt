-- ===== src/Book/Sides.antt =====
-- What a book keeps of one side: the set of its prices in L2, and the entries of BBO, for the
-- same ladder of levels.
use nasdaq_itch_parser_order.Prelude.{
  ℕ, ◌-◌, ◌≤◌, ◌<◌, ◌≡◌, refl, sym, ap, ◌∙◌, Bool, true, false, ◌||◌, Option, none, some, List, [],
  ◌∷◌, arith, ◌==◌, if◌then◌else◌, ◌⊎◌, inl, inr, Bool-cases,
}
use nasdaq_itch_parser_order.Prelude.IntSets.{elem, set_add, set_remove}
use nasdaq_itch_parser_order.Prelude.Int.{ℤ, pos, ◌-ℤ◌, ltb_ℤ}
use nasdaq_itch_parser_order.Structs.{ret, BboEntry}
use nasdaq_itch_parser_order.Bbo.Half.{BboHalf, better}
use nasdaq_itch_parser_order.Bbo.Ladder.{Level, Ladder, IsLadder, place, take_off, shares_of}
use nasdaq_itch_parser_order.Bbo.Adds.{showing, entry_of}
use nasdaq_itch_parser_order.Bbo.Lowering.{frees, better_of}
use nasdaq_itch_parser_order.Bbo.Update.{if_holds, place-IsLadder, take_off-IsLadder}
use nasdaq_itch_parser_order.Bbo
use nasdaq_itch_parser_order.L2.Order.{IsDistinct, same_price}
use nasdaq_itch_parser_order.L2.Query.{prices}
use nasdaq_itch_parser_order.L2.Sides.{
  elem-set_add, set_add-IsDistinct, elem-place, elem-set_remove, set_remove-IsDistinct,
  elem-take_off,
}

abbrev pub best : Ladder → Option BboEntry
best [] = none
best (l ∷ ls) = some (entry_of l)

pub record SideShown (c ideal : Bool) (bound : ℕ) (set : List ℕ) (half : BboHalf)
    (entry : Option BboEntry) (ls : Ladder) : Type 0 where
  pub ladder : IsLadder c ls
  pub distinct : IsDistinct set
  pub listed : (q : ℕ) → elem q set ≡ elem q (prices ls)
  pub shown : half ≡ showing c ideal bound ls
  pub quoted : entry ≡ best ls

pub place-SideShown :
    (c ideal : Bool) (bound n p : ℕ) (set : List ℕ) (half : BboHalf) (entry : Option BboEntry)
    (ls : Ladder)
    → SideShown c ideal bound set half entry ls
    → 0 < n
    → (half' : BboHalf) (entry' : Option BboEntry) → half' ≡ showing c ideal bound (place c n p ls)
    → entry' ≡ best (place c n p ls)
    → SideShown c ideal bound (set_add p set) half' entry' (place c n p ls)
place-SideShown c ideal bound n p set half entry ls h hn half' entry' eh ee = record {
  ladder = place-IsLadder c n p ls hn h.ladder;
  distinct = set_add-IsDistinct p set h.distinct;
  listed = λ q.
      elem-set_add q p set
      ∙ ap (λ (d : Bool). q == p || d) (h.listed q)
      ∙ sym (elem-place c q n p ls);
  shown = eh;
  quoted = ee;
}

abbrev pub left_over : (n p : ℕ) → Ladder → List ℕ → List ℕ
left_over n p ls set = if shares_of p ls - n == 0 then set_remove p set else set

take_off-SideShown :
    (c : Bool) (bound n p : ℕ) (set : List ℕ) (ls : Ladder) (z : Bool)
    → (shares_of p ls - n == 0) ≡ z
    → IsLadder c ls
    → IsDistinct set
    → ((q : ℕ) → elem q set ≡ elem q (prices ls))
    → 0 < shares_of p ls
    → IsDistinct (if z then set_remove p set else set)
      × ((q : ℕ) → elem q (if z then set_remove p set else set) ≡ elem q (prices (take_off n p ls)))
take_off-SideShown c bound n p set ls true e hl hd same hp = (
  set_remove-IsDistinct p set hd,
  λ q.
      elem-set_remove q p set hd
      ∙ ap (λ (d : Bool). if q == p then false else d) (same q)
      ∙ sym (elem-take_off c q n p ls hl hp ∙ rw e refl),
)
take_off-SideShown c bound n p set ls false e hl hd same hp =
    (hd, λ q. same q ∙ sym (elem-take_off c q n p ls hl hp ∙ rw e refl))

pub takes-SideShown :
    (c ideal : Bool) (bound n p : ℕ) (set : List ℕ) (half : BboHalf) (entry : Option BboEntry)
    (ls : Ladder)
    → SideShown c ideal bound set half entry ls
    → 0 < shares_of p ls
    → (half' : BboHalf) (entry' : Option BboEntry) → half' ≡ showing c ideal bound (take_off n p ls)
    → entry' ≡ best (take_off n p ls)
    → SideShown c ideal bound (left_over n p ls set) half' entry' (take_off n p ls)
takes-SideShown c ideal bound n p set half entry ls h hp half' entry' eh ee =
    let r =
      take_off-SideShown c bound n p set ls (shares_of p ls - n == 0) refl h.ladder h.distinct
        h.listed hp in
    record {
      ladder = take_off-IsLadder c n p ls h.ladder;
      distinct = r.0;
      listed = r.1;
      shown = eh;
      quoted = ee;
    }

-- the best bid is below the best offer
abbrev pub Uncrossed : Ladder → Ladder → Type 0
Uncrossed (x ∷ xs) (y ∷ ys) = x.price < y.price
Uncrossed _ _ = Unit {0}

abbrev pub spread : Ladder → Ladder → Option ℤ
spread (x ∷ xs) (y ∷ ys) = some (pos y.price -ℤ pos x.price)
spread _ _ = none

positive_difference : (x y : ℕ) → x < y → ltb_ℤ (pos 0) (pos y -ℤ pos x) ≡ true
unfolding ◌-ℤ◌
positive_difference x y h = ground arith

pub spread_of-best :
    (bids offs : Ladder)
    → Uncrossed bids offs
    → Bbo.spread_of (best bids) (best offs) ≡ ret (spread bids offs)
unfolding Bbo.spread_of
spread_of-best [] offs h = refl
spread_of-best (x ∷ xs) [] h = refl
spread_of-best (x ∷ xs) (y ∷ ys) h = rw (positive_difference x.price y.price h) refl

-- a price that a ladder lists is its best one or a worse one
listed_worse :
    (c : Bool) (x : Level) (xs : Ladder) (q : ℕ)
    → IsLadder c (x ∷ xs)
    → 0 < shares_of q (x ∷ xs)
    → (q ≡ x.price) ⊎ (better c x.price q ≡ true)
unfolding shares_of
listed_worse c x xs q h hq = elim (Bool-cases (q == x.price)) [
  | inl e ↦ inl (same_price q x.price e)
  | inr e ↦ inr (better_of c x.price q xs h.1 (ground arith))
]

at_most : (x q : ℕ) → (q ≡ x) ⊎ (better true x q ≡ true) → q ≤ x
at_most x q (inl e) = omega (arith, e)
at_most x q (inr e) = ground arith

at_least : (y q : ℕ) → (q ≡ y) ⊎ (better false y q ≡ true) → y ≤ q
at_least y q (inl e) = omega (arith, e)
at_least y q (inr e) = ground arith

-- no price is on both sides
pub one_side :
    (bids offs : Ladder) (q : ℕ)
    → IsLadder true bids
    → IsLadder false offs
    → Uncrossed bids offs
    → 0 < shares_of q bids
    → 0 < shares_of q offs
    → ⊥
unfolding shares_of
one_side [] offs q hb ho hu hq hq' = omega arith
one_side (x ∷ xs) [] q hb ho hu hq hq' = omega arith
one_side (x ∷ xs) (y ∷ ys) q hb ho hu hq hq' =
    let low = at_most x.price q (listed_worse true x xs q hb hq) in
    let high = at_least y.price q (listed_worse false y ys q ho hq') in omega (arith, hu)

abbrev TwoLevels : Ladder → Type 0
TwoLevels ls = (x : Level) × (y : Level) × (rest : Ladder) × (ls ≡ x ∷ y ∷ rest)

abbrev TwoMore : Ladder → Type 0
TwoMore ls = (l : Level) → TwoLevels (l ∷ ls)

-- what is left of three levels is two
pub two_left :
    (n p : ℕ) (ls : Ladder)
    → frees n p ls ≡ true
    → (x : Level) × (y : Level) × (rest : Ladder) × (take_off n p ls ≡ x ∷ y ∷ rest)
unfolding take_off
two_left n p (l ∷ m ∷ k ∷ ls) h =
    if_holds TwoLevels (p == l.price)
      (λ _. if_holds TwoLevels (l.shares - n == 0) (λ _. (_, _, _, refl)) (λ _. (_, _, _, refl)))
      (λ _.
        if_holds TwoMore (p == m.price)
          (λ _.
            if_holds TwoMore (m.shares - n == 0) (λ _ l'. (_, _, _, refl))
              (λ _ l'. (_, _, _, refl)))
          (λ _ l'. (_, _, _, refl)) l)
two_left n p _ h = absurd cc
