-- ===== src/L2/Order.antt =====
-- The sorting behind `heapq.nlargest` and `nsmallest`, on a set of prices.
use nasdaq_itch_parser_order.Prelude.{
  ℕ, ◌≡◌, refl, sym, ap, ◌∙◌, Bool, true, false, ◌||◌, List, [], ◌∷◌, arith, All, leb, ◌==◌, inl,
  inr, Bool-cases, ==_refl,
}
use nasdaq_itch_parser_order.Prelude.IntSets.{elem, insert_by, sort_by}
use nasdaq_itch_parser_order.Bbo.Half.{better}
use nasdaq_itch_parser_order.Bbo.Update.{better_trans, better_total, if_holds}

-- each price better than those behind it
abbrev pub IsStrict : Bool → List ℕ → Type 0
IsStrict b [] = Unit {0}
IsStrict b (x ∷ xs) = All (λ y. better b x y ≡ true) xs × IsStrict b xs

-- no price twice
abbrev pub IsDistinct : List ℕ → Type 0
IsDistinct [] = Unit {0}
IsDistinct (x ∷ xs) = (elem x xs ≡ false) × IsDistinct xs

-- the order in which a side is sorted, which is the better price first where two are different
abbrev pub before : Bool → ℕ → ℕ → Bool
before true a b = leb b a
before false a b = leb a b

before-better : (b : Bool) (p x : ℕ) → (p == x) ≡ false → before b p x ≡ better b p x
before-better true p x h = ground arith
before-better false p x h = ground arith

pub or_swap : (a c d : Bool) → (a || (c || d)) ≡ (c || (a || d))
or_swap true true d = refl
or_swap true false d = refl
or_swap false c d = refl

pub or_false : (a c : Bool) → a ≡ false → (a || c) ≡ true → c ≡ true
or_false true c h e = absurd cc
or_false false c h e = e

or_left : (a c : Bool) → (a || c) ≡ false → a ≡ false
or_left true c h = h
or_left false c h = refl

or_right : (a c : Bool) → (a || c) ≡ false → c ≡ false
or_right true c h = absurd cc
or_right false c h = h

pub contradiction : {c : Bool} → c ≡ true → c ≡ false → ⊥
contradiction h h' = cc

pub same_price : (p x : ℕ) → (p == x) ≡ true → p ≡ x
same_price p x h = ground arith

elem-insert_by :
    (f : ℕ → ℕ → Bool) (q p : ℕ) (xs : List ℕ) → elem q (insert_by f p xs) ≡ (q == p || elem q xs)
unfolding elem insert_by
elem-insert_by f q p [] = refl
elem-insert_by f q p (x ∷ xs) = elim (Bool-cases (f p x)) [
  | inl e ↦ rw e refl
  | inr e ↦ rw e (
      ap (λ (c : Bool). q == x || c) (elem-insert_by f q p xs)
      ∙ or_swap (q == x) (q == p) (elem q xs))
]

pub worse_in :
    (b : Bool) (x q : ℕ) (xs : List ℕ)
    → All (λ y. better b x y ≡ true) xs
    → elem q xs ≡ true
    → better b x q ≡ true
unfolding elem
worse_in b x q [] h e = absurd cc
worse_in b x q (y ∷ xs) h e = elim (Bool-cases (q == y)) [
  | inl s ↦ rw (same_price q y s) h.0
  | inr s ↦ worse_in b x q xs h.1 (or_false (q == y) (elem q xs) s e)
]

elem-sort_by : (f : ℕ → ℕ → Bool) (q : ℕ) (xs : List ℕ) → elem q (sort_by f xs) ≡ elem q xs
unfolding elem sort_by
elem-sort_by f q [] = refl
elem-sort_by f q (x ∷ xs) =
    elem-insert_by f q x (sort_by f xs) ∙ ap (λ (c : Bool). q == x || c) (elem-sort_by f q xs)

irreflexive : (b : Bool) (x : ℕ) → better b x x ≡ false
irreflexive true x = ground arith
irreflexive false x = ground arith

asymmetric : (b : Bool) (x y : ℕ) → better b x y ≡ true → better b y x ≡ true → x ≡ y
asymmetric true x y h h' = absurd (ground arith)
asymmetric false x y h h' = absurd (ground arith)

insert-All :
    (b : Bool) (f : ℕ → ℕ → Bool) (x p : ℕ) (xs : List ℕ)
    → better b x p ≡ true
    → All (λ y. better b x y ≡ true) xs
    → All (λ y. better b x y ≡ true) (insert_by f p xs)
unfolding insert_by
insert-All b f x p [] h all = (h, tt)
insert-All b f x p (y ∷ xs) h all =
    if_holds (All (λ z. better b x z ≡ true)) (f p y) (λ _. (h, all))
      (λ _. (all.0, insert-All b f x p xs h all.1))

farther_prices :
    (b : Bool) (x y : ℕ) (xs : List ℕ)
    → better b x y ≡ true
    → All (λ z. better b y z ≡ true) xs
    → All (λ z. better b x z ≡ true) xs
farther_prices b x y [] h all = tt
farther_prices b x y (z ∷ xs) h all =
    (better_trans b x y z h all.0, farther_prices b x y xs h all.1)

insert-IsStrict :
    (b : Bool) (p : ℕ) (xs : List ℕ)
    → elem p xs ≡ false
    → IsStrict b xs
    → IsStrict b (insert_by (before b) p xs)
unfolding insert_by elem
insert-IsStrict b p [] h s = (tt, tt)
insert-IsStrict b p (x ∷ xs) h s =
    let differs : (p == x) ≡ false = or_left (p == x) (elem p xs) h in
    if_holds (IsStrict b) (before b p x)
      (λ e.
        let w = sym (before-better b p x differs) ∙ e in ((w, farther_prices b p x xs w s.0), s))
      (λ e. (
        insert-All b (before b) x p xs
            (better_total b p x differs (sym (before-better b p x differs) ∙ e)) s.0,
        insert-IsStrict b p xs (or_right (p == x) (elem p xs) h) s.1,
      ))

sort_by-IsStrict : (b : Bool) (xs : List ℕ) → IsDistinct xs → IsStrict b (sort_by (before b) xs)
unfolding sort_by
sort_by-IsStrict b [] h = tt
sort_by-IsStrict b (x ∷ xs) h =
    insert-IsStrict b x (sort_by (before b) xs) (elem-sort_by (before b) x xs ∙ h.0)
      (sort_by-IsStrict b xs h.1)

-- the first of a strict list is not among the others
pub first_once :
    (b : Bool) (x : ℕ) (xs : List ℕ) → All (λ y. better b x y ≡ true) xs → elem x xs ≡ false
first_once b x xs all = elim (Bool-cases (elem x xs)) [
  | inr e ↦ e
  | inl e ↦ absurd (contradiction (worse_in b x x xs all e) (irreflexive b x))
]

head_in : (q : ℕ) (xs : List ℕ) → elem q (q ∷ xs) ≡ true
unfolding elem
head_in q xs = rw (==_refl q) refl

-- the best of two lists with the same prices
same_first :
    (b : Bool) (x y : ℕ) (xs ys : List ℕ)
    → IsStrict b (x ∷ xs)
    → IsStrict b (y ∷ ys)
    → ((q : ℕ) → elem q (x ∷ xs) ≡ elem q (y ∷ ys))
    → x ≡ y
unfolding elem
same_first b x y xs ys hx hy same = elim (Bool-cases (x == y)) [
  | inl e ↦ same_price x y e
  | inr e ↦
      let e' : (y == x) ≡ false = ground arith in
      asymmetric b x y
        (worse_in b x y xs hx.0 (or_false (y == x) (elem y xs) e' (same y ∙ head_in y ys)))
        (worse_in b y x ys hy.0 (or_false (x == y) (elem x ys) e (sym (same x) ∙ head_in x xs)))
]

same_rest :
    (b : Bool) (x : ℕ) (xs ys : List ℕ)
    → All (λ z. better b x z ≡ true) xs
    → All (λ z. better b x z ≡ true) ys
    → ((q : ℕ) → elem q (x ∷ xs) ≡ elem q (x ∷ ys))
    → (q : ℕ) → elem q xs ≡ elem q ys
unfolding elem
same_rest b x xs ys hx hy same q = elim (Bool-cases (q == x)) [
  | inl e ↦ rw (same_price q x e) (first_once b x xs hx ∙ sym (first_once b x ys hy))
  | inr e ↦ rw e at (same q)
]

-- Two strict lists of the same prices are equal.
pub strict_unique :
    (b : Bool) (xs ys : List ℕ)
    → IsStrict b xs
    → IsStrict b ys
    → ((q : ℕ) → elem q xs ≡ elem q ys)
    → xs ≡ ys
unfolding elem
strict_unique b [] [] hx hy same = refl
strict_unique b [] (y ∷ ys) hx hy same = absurd (contradiction (head_in y ys) (sym (same y)))
strict_unique b (x ∷ xs) [] hx hy same = absurd (contradiction (head_in x xs) (same x))
strict_unique b (x ∷ xs) (y ∷ ys) hx hy same =
    let e = same_first b x y xs ys hx hy same in
    let rest =
      same_rest b x xs ys hx.0 (rw (sym e) at hy.0)
        (λ q. same q ∙ ap (λ (z : ℕ). elem q (z ∷ ys)) (sym e)) in
    rw (e, strict_unique b xs ys hx.1 hy.1 rest) refl

-- The prices of a set, sorted, are those of any strict list that has the same prices.
pub sort_by-strict :
    (b : Bool) (xs ys : List ℕ)
    → IsDistinct xs
    → IsStrict b ys
    → ((q : ℕ) → elem q xs ≡ elem q ys)
    → sort_by (before b) xs ≡ ys
sort_by-strict b xs ys hx hy same =
    strict_unique b (sort_by (before b) xs) ys (sort_by-IsStrict b xs hx) hy
      (λ q. elem-sort_by (before b) q xs ∙ same q)
