-- ===== src/L2/Accepts.antt =====
-- `L2.process_msg` up to its `match`, on a message that is let through.
use nasdaq_itch_parser_order.Prelude.{
  ℕ, zero, suc, ◌+◌, ◌-◌, ◌%◌, ◌<◌, ◌≤◌, ◌≡◌, refl, sym, ap, Bool, true, false, not, ◌||◌, ◌&&◌,
  Option, none, some, List, arith, ltb, ◌==◌, if◌then◌else◌, ◌⊎◌, inl, inr, Bool-cases, ltb_lt,
  ltb_le,
}
use nasdaq_itch_parser_order.Prelude.Int.{ℤ, pos}
use nasdaq_itch_parser_order.Structs.{Outcome, ret, ok, ItchMsgType}
use nasdaq_itch_parser_order.Bbo.Half.{Kind, kind_of}
use nasdaq_itch_parser_order.Bbo.Adds.{order}
use nasdaq_itch_parser_order.L2
use nasdaq_itch_parser_order.L2.{L2, side, with_side, change, process_msg}
use nasdaq_itch_parser_order.L2.Levels.{PriceMemory, IsPositive}

-- what a memory shows of a price with that many shares
abbrev pub level : ℕ → Option ℤ
level zero = none
level (suc n) = some (pos (suc n))

-- the shares by price, after shares came to a price or went from it
abbrev pub more : (ℕ → ℕ) → (shares price : ℕ) → ℕ → ℕ
more t n p j = if p == j then t j + n else t j

abbrev pub fewer : (ℕ → ℕ) → (shares price : ℕ) → ℕ → ℕ
fewer t n p j = if p == j then t j - n else t j

-- The message is let through to the memory: the table is initialised, the price is on a tick, and in
-- the range unless the model is ideal, and there are shares.
pub record Accepted {M : Type 0} (s : L2 M) (n p : ℕ) : Type 0 where
  pub base : ℕ
  pub max : ℕ
  pub ready : s.range ≡ some (base, max)
  pub tick : p % 50 ≡ 0
  pub within : (s.ideal ≡ true) ⊎ ((base ≤ p) × (p ≤ max))
  pub shares : 0 < n

pub no_level : (n : ℕ) → (n == 0) ≡ true → none ≡ level n
no_level zero h = refl
no_level (suc n) h = absurd (ground arith)

pub level-some : (n : ℕ) → 0 < n → level n ≡ some (pos n)
level-some zero h = absurd (omega arith)
level-some (suc n) h = refl

pub written_at :
    (p j x y : ℕ) (v o : Option ℤ)
    → (p ≡ j → v ≡ level x)
    → o ≡ level y
    → (if p == j then v else o) ≡ level (if p == j then x else y)
written_at p j x y v o same others = elim (Bool-cases (p == j)) [
  | inl e ↦ rw e (same (ground arith))
  | inr e ↦ rw e others
]

pub side_memory :
    {M : Type 0} (b : Bool) (s : L2 M) (m : M) → side b (record s { memory = m }) ≡ side b s
side_memory true s m = refl
side_memory false s m = refl

pub with_own_side :
    {M : Type 0} (b : Bool) (s : L2 M) (m : M)
    → with_side b (side b s) (record s { memory = m }) ≡ record s { memory = m }
with_own_side true s m = refl
with_own_side false s m = refl

-- the side after the removal of a level, if it is empty
pub removed :
    {M : Type 0} (c b : Bool) (s : L2 M) (m : M) (prices : List ℕ)
    → ◌≡◌ {A = Outcome L2.L2OrderResult × L2 M}
        (if c
          then (ret (ok tt), with_side b prices (record s { memory = m }))
          else (ret (ok tt), record s { memory = m }))
        (ret (ok tt), with_side b (if c then prices else side b s) (record s { memory = m }))
removed true b s m prices = refl
removed false b s m prices = ap (λ r. (ret (ok tt), r)) (sym (with_own_side b s m))

pub pos_IsPositive : (n : ℕ) → 0 < n → IsPositive (pos n)
pos_IsPositive n h = ground arith

pub in_window :
    (i : Bool) (p base max : ℕ)
    → (i ≡ true) ⊎ ((base ≤ p) × (p ≤ max))
    → (not i && (ltb p base || ltb max p)) ≡ false
in_window true p base max h = refl
in_window false p base max (inl h) = absurd cc
in_window false p base max (inr h) = rw (ltb_le p base h.0, ltb_le max p h.1) refl

module _ {M : Type 0} (ops : PriceMemory M) where
  pub accepted_at :
      (s : L2 M) (t : ItchMsgType) (b : Bool) (n p base max : ℕ) (r : Option (ℕ × ℕ))
      → r ≡ some (base, max)
      → p % 50 ≡ 0
      → (s.ideal ≡ true) ⊎ ((base ≤ p) × (p ≤ max))
      → 0 < n
      → L2.process_at ops r s (order t b n p) ≡ change ops (order t b n p) s
  accepted_at s t b n p base max r hr tick within hn =
      rw (hr, tick, in_window s.ideal p base max within, ltb_lt 0 n hn) refl

  pub process_msg-change :
      (s : L2 M) (t : ItchMsgType) (b : Bool) (n p : ℕ)
      → Accepted s n p
      → process_msg ops s (order t b n p) ≡ change ops (order t b n p) s
  unfolding process_msg
  process_msg-change s t b n p h =
      accepted_at s t b n p h.base h.max s.range h.ready h.tick h.within h.shares

  pub change-adds :
      (s : L2 M) (t : ItchMsgType) (b : Bool) (n p : ℕ)
      → kind_of t ≡ Kind.adds
      → change ops (order t b n p) s ≡ L2.add_shares ops b n p s
  unfolding change
  change-adds s ItchMsgType.add b n p h = refl
  change-adds s ItchMsgType.replace b n p h = refl
  change-adds s _ b n p h = absurd cc

  pub change-reduces :
      (s : L2 M) (t : ItchMsgType) (b : Bool) (n p : ℕ)
      → kind_of t ≡ Kind.reduces
      → change ops (order t b n p) s ≡ L2.reduce_shares ops b n p s
  unfolding change
  change-reduces s ItchMsgType.reduce b n p h = refl
  change-reduces s ItchMsgType.delete b n p h = refl
  change-reduces s _ b n p h = absurd cc
