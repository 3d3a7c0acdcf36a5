-- ===== src/Bbo/Lowering.antt =====
-- Parts of `BBOHalf.process_msg` on REDUCE and DELETE.
use nasdaq_itch_parser_order.Prelude.{
  ℕ, ◌+◌, ◌-◌, ◌≤◌, ◌<◌, ◌≡◌, refl, ap, ◌∙◌, Bool, true, false, ◌||◌, ◌&&◌, [], ◌∷◌, map, arith,
  All, take, drop, ltb, ◌==◌, if◌then◌else◌, inl, inr, Bool-cases,
}
use nasdaq_itch_parser_order.Prelude.Int.{pos, ◌+ℤ◌, ◌-ℤ◌, ltb_ℤ, int_laws}
use nasdaq_itch_parser_order.Structs.{Outcome, ret, ok, fail, no_shares_in_range}
use nasdaq_itch_parser_order.Bbo.Half
use nasdaq_itch_parser_order.Bbo.Half.{
  BboHalf, Kind, Found, kind_of, better, scan, answer, process_msg, process_updt,
}
use nasdaq_itch_parser_order.Bbo.Ladder.{Level, Ladder, IsLadder, shares_of, total}
use nasdaq_itch_parser_order.Bbo.Adds.{
  inside, always, entry_of, keeping, showing, calmly, counts, counts_raw,
}

pub pos_sub : (a n : ℕ) → n ≤ a → pos a -ℤ pos n ≡ pos (a - n)
unfolding ◌-ℤ◌
pos_sub a n h = ground arith

pub pos_less : (x x' n : ℕ) → x' + n ≡ x → pos x +ℤ (pos 0 -ℤ pos n) ≡ pos x'
pos_less x x' n h = omega int_laws

pub not_negative : (a : ℕ) → ltb_ℤ (pos a) (pos 0) ≡ false
not_negative a = ground arith

-- an entry that loses shares it has
pub at_price-reduces :
    (l : Level) (n idx : ℕ)
    → n ≤ l.shares
    → Half.at_price Kind.reduces n idx (entry_of l) ≡ (
        if l.shares - n == 0
        then ret (Found.depletion idx)
        else ret (Found.modify idx (entry_of (record { shares = l.shares - n; price = l.price }))))
at_price-reduces l n idx h = rw (pos_sub l.shares n h, not_negative (l.shares - n)) refl

pub better_of :
    (b : Bool) (x p : ℕ) (ls : Ladder)
    → All (λ m. better b x m.price ≡ true) ls
    → 0 < shares_of p ls
    → better b x p ≡ true
unfolding shares_of
better_of b x p [] all h = absurd (omega arith)
better_of b x p (m ∷ ls) all h = ground (arith, better_of b x p ls)

pub worse : (b : Bool) (x p : ℕ) → better b x p ≡ true → better b p x ≡ false
worse true x p h = ground arith
worse false x p h = ground arith

-- a level that does not hold the price is better than it
pub not_better :
    (b : Bool) (p : ℕ) (l : Level) (ls : Ladder)
    → IsLadder b (l ∷ ls)
    → 0 < shares_of p ls
    → better b p l.price ≡ false
not_better b p l ls (_, all, _) h = worse b l.price p (better_of b l.price p ls all h)

-- Whether a third level is there, and one of the best two is used up.
abbrev pub frees : (n p : ℕ) → Ladder → Bool
frees n p (l ∷ m ∷ k ∷ ls) = p == l.price && l.shares - n == 0 || p == m.price && m.shares - n == 0
frees n p _ = false

abbrev pub best_price : Ladder → ℕ
best_price [] = 0
best_price (l ∷ ls) = l.price

module _ (b ideal : Bool) (bound : ℕ) where
  -- a side with one entry, and the other levels behind it
  abbrev pub short : Ladder → BboHalf
  short ls = keeping b ideal bound (take 1 ls) (drop 1 ls)

  -- the ladder without the shares: shown at once, or after an update if one is to be had
  abbrev pub after_reduces : Bool → Ladder → Outcome Half.BboHalfResult × BboHalf
  after_reduces false ls = calmly (showing b ideal bound ls)
  after_reduces true ls =
      if ltb 0 (total (inside b ideal bound) (drop 1 ls))
      then (ret (ok (answer (map entry_of (take 1 ls)) true (best_price ls))), short ls)
      else (ret (fail no_shares_in_range), short ls)

pub at_level :
    (n p : ℕ) (l : Level) (ls : Ladder)
    → (p == l.price) ≡ true
    → n ≤ shares_of p (l ∷ ls)
    → n ≤ l.shares
unfolding shares_of
at_level n p l ls e h = ground arith

pub behind :
    (n p : ℕ) (l : Level) (ls : Ladder)
    → (p == l.price) ≡ false
    → n ≤ shares_of p (l ∷ ls)
    → n ≤ shares_of p ls
unfolding shares_of
behind n p l ls e h = ground arith

pub nowhere : (n p : ℕ) {A : Type 0} → n ≤ shares_of p [] → 0 < n → A
unfolding shares_of
nowhere n p h hn = absurd (omega arith)

pub one_price :
    (b : Bool) (p : ℕ) (l m : Level) (ls : Ladder)
    → IsLadder b (l ∷ m ∷ ls)
    → (p == l.price) ≡ true
    → (p == m.price) ≡ false
one_price true p l m ls h e = ground arith
one_price false p l m ls h e = ground arith

pub ltb_pos : (t : ℕ) → ltb_ℤ (pos 0) (pos t) ≡ ltb 0 t
ltb_pos t = ground arith

pub total_pos :
    (k : Level) (ls : Ladder) → 0 < k.shares → ltb_ℤ (pos 0) (pos (total always (k ∷ ls))) ≡ true
unfolding total
total_pos k ls h = ground arith

-- the end of a call that has taken an entry away
abbrev pub ends : BboHalf → Outcome Half.BboHalfResult × BboHalf
ends s = let r = Half.depleted s in (Half.reply r.0 r.1, r.1)

pub depletes :
    (b ideal : Bool) (bound : ℕ) (x k : Level) (ls : Ladder)
    → 0 < k.shares
    → ends (keeping b ideal bound (x ∷ []) (k ∷ ls)) ≡ after_reduces b ideal bound true (x ∷ k ∷ ls)
depletes b ideal bound x k ls h =
    elim (Bool-cases (ltb 0 (total (inside b ideal bound) (k ∷ ls)))) [
      | inl e ↦ rw (ltb_pos (total (inside b ideal bound) (k ∷ ls)), e) refl
      | inr e ↦ rw (ltb_pos (total (inside b ideal bound) (k ∷ ls)), e, total_pos k ls h) refl
    ]

-- shares that leave from behind the entries
pub uncounted :
    (s : BboHalf) (n x y x' y' : ℕ) (i : Bool)
    → s.outside_shares ≡ pos x
    → s.outside_shares_in_range ≡ pos y
    → x' + n ≡ x
    → y' + (if i then n else 0) ≡ y
    → Half.count_in_range (Half.count_outside s (pos 0 -ℤ pos n)) (pos 0 -ℤ pos n) i
      ≡ counts s x' y'
uncounted s n x y x' y' true hx hy ex ey = rw (hx, hy, pos_less x x' n ex, pos_less y y' n ey) refl
uncounted s n x y x' y' false hx hy ex ey =
    rw (hx, pos_less x x' n ex) (ap (counts_raw s (pos x')) (hy ∙ ap pos (omega arith)))
