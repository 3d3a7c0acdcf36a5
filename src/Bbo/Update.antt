-- ===== src/Bbo/Update.antt =====
-- `BBOHalf.process_updt` in the state that stands for a ladder, and ladders under changes.
use nasdaq_itch_parser_order.Prelude.{
  ℕ, ◌+◌, ◌-◌, ◌<◌, ◌≡◌, refl, ap, ◌∙◌, Bool, true, false, [], ◌∷◌, arith, All, ◌==◌, if◌then◌else◌,
  inl, inr, Bool-cases,
}
use nasdaq_itch_parser_order.Prelude.Int.{pos, ◌-ℤ◌}
use nasdaq_itch_parser_order.Structs.{ret}
use nasdaq_itch_parser_order.Bbo.Half.{better, process_updt}
use nasdaq_itch_parser_order.Bbo.Ladder.{Level, Ladder, IsLadder, place, take_off, total}
use nasdaq_itch_parser_order.Bbo.Adds.{inside, always, entry_of, showing}
use nasdaq_itch_parser_order.Bbo.Lowering.{short, pos_sub}

-- a level in range makes every better one be in range
better-inside :
    (b ideal : Bool) (bound x y : ℕ)
    → better b x y ≡ true
    → inside b ideal bound y ≡ true
    → inside b ideal bound x ≡ true
better-inside b true bound x y h hy = refl
better-inside true false bound x y h hy = ground arith
better-inside false false bound x y h hy = ground arith

not_both {ℓ} : {A : Type ℓ} (i : Bool) → i ≡ true → i ≡ false → A
not_both i h h' = absurd cc

sub_front : (a t : ℕ) → pos (a + t) -ℤ pos a ≡ pos t
sub_front a t = pos_sub (a + t) a (omega arith) ∙ ap pos (omega arith)

no_shares : (i : Bool) (n t : ℕ) → i ≡ false → (if i then n else 0) + t ≡ t
no_shares i n t h = rw h (omega arith)

pub if_holds {ℓ κ} :
    {A : Type ℓ} (P : A → Type κ) (c : Bool) {x y : A}
    → (c ≡ true → P x)
    → (c ≡ false → P y)
    → P (if c then x else y)
if_holds P true f g = f refl
if_holds P false f g = g refl

none_inside :
    (b ideal : Bool) (bound y : ℕ) (ls : Ladder)
    → inside b ideal bound y ≡ false
    → All (λ m. better b y m.price ≡ true) ls
    → total (inside b ideal bound) ls ≡ 0
unfolding total
none_inside b ideal bound y [] h all = refl
none_inside b ideal bound y (m ∷ ls) h all = elim (Bool-cases (inside b ideal bound m.price)) [
  | inl e ↦ absurd (not_both _ (better-inside b ideal bound y m.price all.0 e) h)
  | inr e ↦
      no_shares (inside b ideal bound m.price) m.shares _ e ∙ none_inside b ideal bound y ls h all.1
]

-- Where shares are in range behind some entries, the next level is.
pub next-inside :
    (b ideal : Bool) (bound : ℕ) (y : Level) (ls : Ladder)
    → All (λ m. better b y.price m.price ≡ true) ls
    → 0 < total (inside b ideal bound) (y ∷ ls)
    → inside b ideal bound y.price ≡ true
unfolding total
next-inside b ideal bound y ls all h = elim (Bool-cases (inside b ideal bound y.price)) [
  | inl e ↦ e
  | inr e ↦ absurd (
      omega (
        arith,
        no_shares (inside b ideal bound y.price) y.shares (total (inside b ideal bound) ls) e,
        none_inside b ideal bound y.price ls e all,
      ))
]

-- A side that is left with the best entry of its ladder, where shares are in range behind it: the
-- update with the next level makes the side show its ladder again.
pub process_updt-showing :
    (is_buy ideal : Bool) (bound : ℕ) (x y : Level) (ls : Ladder)
    → IsLadder is_buy (x ∷ y ∷ ls)
    → 0 < total (inside is_buy ideal bound) (y ∷ ls)
    → process_updt (short is_buy ideal bound (x ∷ y ∷ ls)) (entry_of y)
      ≡ ret (showing is_buy ideal bound (x ∷ y ∷ ls))
unfolding process_updt total
process_updt-showing b ideal bound x y ls h hi = rw (next-inside b ideal bound y ls h.2.1 hi) (
    rw (sub_front y.shares (total (inside b ideal bound) ls), sub_front y.shares (total always ls))
      refl)

pub better_trans :
    (b : Bool) (x y z : ℕ) → better b x y ≡ true → better b y z ≡ true → better b x z ≡ true
better_trans true x y z h h' = ground arith
better_trans false x y z h h' = ground arith

pub better_total :
    (b : Bool) (x y : ℕ) → (x == y) ≡ false → better b x y ≡ false → better b y x ≡ true
better_total true x y h h' = ground arith
better_total false x y h h' = ground arith

pub farther :
    (b : Bool) (x y : ℕ) (ls : Ladder)
    → better b x y ≡ true
    → All (λ m. better b y m.price ≡ true) ls
    → All (λ m. better b x m.price ≡ true) ls
farther b x y [] h all = tt
farther b x y (m ∷ ls) h all = (better_trans b x y m.price h all.0, farther b x y ls h all.1)

-- the price of a new level among those that are worse than another
place-All :
    (b : Bool) (x n p : ℕ) (ls : Ladder)
    → better b x p ≡ true
    → All (λ m. better b x m.price ≡ true) ls
    → All (λ m. better b x m.price ≡ true) (place b n p ls)
unfolding place
place-All b x n p [] h all = (h, tt)
place-All b x n p (l ∷ ls) h all =
    if_holds (All (λ m. better b x m.price ≡ true)) (p == l.price) (λ _. all)
      (λ _.
        if_holds (All (λ m. better b x m.price ≡ true)) (better b p l.price) (λ _. (h, all))
          (λ _. (all.0, place-All b x n p ls h all.1)))

-- Placing shares keeps a ladder one.
pub place-IsLadder :
    (b : Bool) (n p : ℕ) (ls : Ladder) → 0 < n → IsLadder b ls → IsLadder b (place b n p ls)
unfolding place
place-IsLadder b n p [] hn h = (hn, tt, tt)
place-IsLadder b n p (l ∷ ls) hn h =
    if_holds (IsLadder b) (p == l.price) (λ _. (omega (arith, hn), h.1, h.2))
      (λ e.
        if_holds (IsLadder b) (better b p l.price)
          (λ e'. (hn, (e', farther b p l.price ls e' h.1), h))
          (λ e'. (
            h.0,
            place-All b l.price n p ls (better_total b p l.price e e') h.1,
            place-IsLadder b n p ls hn h.2,
          )))

take_off-All :
    (b : Bool) (x n p : ℕ) (ls : Ladder)
    → All (λ m. better b x m.price ≡ true) ls
    → All (λ m. better b x m.price ≡ true) (take_off n p ls)
unfolding take_off
take_off-All b x n p [] all = tt
take_off-All b x n p (l ∷ ls) all =
    if_holds (All (λ m. better b x m.price ≡ true)) (p == l.price)
      (λ _.
        if_holds (All (λ m. better b x m.price ≡ true)) (l.shares - n == 0) (λ _. all.1) (λ _. all))
      (λ _. (all.0, take_off-All b x n p ls all.1))

remains : (a n : ℕ) → (a - n == 0) ≡ false → 0 < a - n
remains a n h = ground arith

-- Taking shares off keeps a ladder one.
pub take_off-IsLadder :
    (b : Bool) (n p : ℕ) (ls : Ladder) → IsLadder b ls → IsLadder b (take_off n p ls)
unfolding take_off
take_off-IsLadder b n p [] h = tt
take_off-IsLadder b n p (l ∷ ls) h =
    if_holds (IsLadder b) (p == l.price)
      (λ _.
        if_holds (IsLadder b) (l.shares - n == 0) (λ _. h.2)
          (λ z. (remains l.shares n z, h.1, h.2)))
      (λ _. (h.0, take_off-All b l.price n p ls h.1, take_off-IsLadder b n p ls h.2))
