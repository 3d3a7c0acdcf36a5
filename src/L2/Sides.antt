-- ===== src/L2/Sides.antt =====
-- The set of prices of a side, and the prices of its ladder, under the changes of a message.
use nasdaq_itch_parser_order.Prelude.{
  ℕ, ◌+◌, ◌-◌, ◌<◌, ◌≡◌, refl, sym, ap, ◌∙◌, Bool, true, false, ◌||◌, List, [], ◌∷◌, arith, All,
  ◌==◌, if◌then◌else◌, inl, inr, Bool-cases,
}
use nasdaq_itch_parser_order.Prelude.IntSets.{elem, set_add, set_remove}
use nasdaq_itch_parser_order.Bbo.Half.{better}
use nasdaq_itch_parser_order.Bbo.Ladder.{Ladder, IsLadder, place, take_off, shares_of}
use nasdaq_itch_parser_order.Bbo.Update.{if_holds, farther}
use nasdaq_itch_parser_order.L2.Order.{IsDistinct, first_once, or_swap, same_price}
use nasdaq_itch_parser_order.L2.Query.{prices, All-prices}

or_twice : (a c : Bool) → (a || c) ≡ (a || (a || c))
or_twice true c = refl
or_twice false c = refl

if_same : (c : Bool) (d : Bool) → (if c then d else d) ≡ d
if_same true d = refl
if_same false d = refl

known : (q p : ℕ) (s : List ℕ) → elem p s ≡ true → elem q s ≡ (q == p || elem q s)
known q p s e = elim (Bool-cases (q == p)) [
  | inl h ↦ rw h (ap (λ (z : ℕ). elem z s) (same_price q p h) ∙ e)
  | inr h ↦ rw h refl
]

pub elem-set_add : (q p : ℕ) (s : List ℕ) → elem q (set_add p s) ≡ (q == p || elem q s)
unfolding set_add elem
elem-set_add q p s = elim (Bool-cases (elem p s)) [
  | inl e ↦ rw e (known q p s e)
  | inr e ↦ rw e refl
]

if_kept :
    (c : Bool) (p : ℕ) (s : List ℕ)
    → elem p s ≡ c
    → IsDistinct s
    → IsDistinct (if c then s else p ∷ s)
if_kept true p s e h = h
if_kept false p s e h = (e, h)

pub set_add-IsDistinct : (p : ℕ) (s : List ℕ) → IsDistinct s → IsDistinct (set_add p s)
unfolding set_add
set_add-IsDistinct p s h = if_kept (elem p s) p s refl h

pub elem-place :
    (b : Bool) (q n p : ℕ) (ls : Ladder)
    → elem q (prices (place b n p ls)) ≡ (q == p || elem q (prices ls))
unfolding place elem
elem-place b q n p [] = refl
elem-place b q n p (l ∷ ls) = elim (Bool-cases (p == l.price)) [
  | inl e ↦ rw e (rw (same_price p l.price e) (or_twice (q == l.price) (elem q (prices ls))))
  | inr e ↦ elim (Bool-cases (better b p l.price)) [
    | inl e' ↦ rw (e, e') refl
    | inr e' ↦
        rw (e, e')
          (ap (λ (c : Bool). q == l.price || c) (elem-place b q n p ls)
            ∙ or_swap (q == l.price) (q == p) (elem q (prices ls)))
  ]
]

-- the removal of a price
pub elem-set_remove :
    (q p : ℕ) (s : List ℕ)
    → IsDistinct s
    → elem q (set_remove p s) ≡ (if q == p then false else elem q s)
unfolding set_remove elem
elem-set_remove q p [] h = sym (if_same (q == p) false)
elem-set_remove q p (x ∷ s) h = elim (Bool-cases (p == x)) [
  | inl e ↦ elim (Bool-cases (q == p)) [
    | inl e' ↦ rw (e, e') (ap (λ (z : ℕ). elem z s) (same_price q p e' ∙ same_price p x e) ∙ h.0)
    | inr e' ↦ let d : (q == x) ≡ false = ground arith in rw (e, e', d) refl
  ]
  | inr e ↦ elim (Bool-cases (q == p)) [
    | inl e' ↦
        let d : (q == x) ≡ false = ground arith in
        rw (e, e', d) (elem-set_remove q p s h.1 ∙ rw e' refl)
    | inr e' ↦ rw (e, e') (ap (λ (c : Bool). q == x || c) (elem-set_remove q p s h.1 ∙ rw e' refl))
  ]
]

pub set_remove-IsDistinct : (p : ℕ) (s : List ℕ) → IsDistinct s → IsDistinct (set_remove p s)
unfolding set_remove
set_remove-IsDistinct p [] h = tt
set_remove-IsDistinct p (x ∷ s) h =
    if_holds IsDistinct (p == x) (λ _. h.1)
      (λ e. (
        elem-set_remove x p s h.1 ∙ rw h.0 (if_same (x == p) false),
        set_remove-IsDistinct p s h.1,
      ))

pub unlisted : (q : ℕ) (ls : Ladder) → elem q (prices ls) ≡ false → shares_of q ls ≡ 0
unfolding elem shares_of
unlisted q [] h = refl
unlisted q (l ∷ ls) h = ground (arith, unlisted q ls)

-- a price better than all levels is not among them
above-absent :
    (b : Bool) (x : ℕ) (ls : Ladder) → All (λ m. better b x m.price ≡ true) ls → shares_of x ls ≡ 0
above-absent b x ls all = unlisted x ls (first_once b x (prices ls) (All-prices b x ls all))

-- the same for a price that equals the better one
absent_at :
    (b : Bool) (x q : ℕ) (ls : Ladder)
    → All (λ m. better b x m.price ≡ true) ls
    → (q == x) ≡ true
    → shares_of q ls ≡ 0
absent_at b x q ls all e =
    ap (λ (z : ℕ). shares_of z ls) (same_price q x e) ∙ above-absent b x ls all

-- The shares of each price, when some come in.
pub shares_of-place :
    (b : Bool) (q n p : ℕ) (ls : Ladder)
    → IsLadder b ls
    → shares_of q (place b n p ls) ≡ (if p == q then shares_of q ls + n else shares_of q ls)
unfolding shares_of place
shares_of-place b q n p [] h = ground arith
shares_of-place b q n p (l ∷ ls) h = elim (Bool-cases (p == l.price)) [
  | inl e ↦ rw e (ground arith)
  | inr e ↦ elim (Bool-cases (better b p l.price)) [
    | inl e' ↦
        rw (e, e')
          (elim (Bool-cases (q == p)) [
            | inl z ↦
                let none_else = absent_at b p q ls (farther b p l.price ls e' h.1) z in ground arith
            | inr z ↦ ground arith
          ])
    | inr e' ↦ rw (e, e') (ground (arith, shares_of-place b q n p ls h.2))
  ]
]

-- The shares of each price, when some go.
pub shares_of-take_off :
    (b : Bool) (q n p : ℕ) (ls : Ladder)
    → IsLadder b ls
    → shares_of q (take_off n p ls) ≡ (if p == q then shares_of q ls - n else shares_of q ls)
unfolding shares_of take_off
shares_of-take_off b q n p [] h = ground arith
shares_of-take_off b q n p (l ∷ ls) h = elim (Bool-cases (p == l.price)) [
  | inl e ↦ elim (Bool-cases (q == l.price)) [
    | inl z ↦ let none_else = absent_at b l.price q ls h.1 z in ground arith
    | inr z ↦ ground arith
  ]
  | inr e ↦ rw e (ground (arith, shares_of-take_off b q n p ls h.2))
]

-- the price that is used up is gone, and the others stay
pub elem-take_off :
    (b : Bool) (q n p : ℕ) (ls : Ladder)
    → IsLadder b ls
    → 0 < shares_of p ls
    → elem q (prices (take_off n p ls)) ≡ (
        if shares_of p ls - n == 0
        then (if q == p then false else elem q (prices ls))
        else elem q (prices ls))
unfolding elem take_off shares_of
elem-take_off b q n p [] h hp = absurd (omega arith)
elem-take_off b q n p (l ∷ ls) h hp = elim (Bool-cases (p == l.price)) [
  | inl e ↦ elim (Bool-cases (l.shares - n == 0)) [
    | inl z ↦ elim (Bool-cases (q == p)) [
      | inl w ↦
          rw (e, z, w)
            (ap (λ (k : ℕ). elem k (prices ls)) (same_price q p w ∙ same_price p l.price e)
              ∙ first_once b l.price (prices ls) (All-prices b l.price ls h.1))
      | inr w ↦ let d : (q == l.price) ≡ false = ground arith in rw (e, z, w, d) refl
    ]
    | inr z ↦ rw (e, z) refl
  ]
  | inr e ↦
      let hp' : 0 < shares_of p ls = ground arith in
      let ih = elem-take_off b q n p ls h.2 hp' in
      elim (Bool-cases (shares_of p ls - n == 0)) [
        | inr z ↦ rw (e, z) (ap (λ (c : Bool). q == l.price || c) (rw z at ih))
        | inl z ↦ elim (Bool-cases (q == p)) [
          | inl w ↦
              let d : (q == l.price) ≡ false = ground arith in rw (e, z, w, d) (rw (z, w) at ih)
          | inr w ↦ rw (e, z, w) (ap (λ (c : Bool). q == l.price || c) (rw (z, w) at ih))
        ]
      ]
]
