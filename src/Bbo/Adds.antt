-- ===== src/Bbo/Adds.antt =====
-- `BBOHalf.process_msg` on ADD and REPLACE, in the state that stands for a ladder.
use nasdaq_itch_parser_order.Prelude.{
  ℕ, ◌+◌, ◌≡◌, refl, ap, ◌∙◌, Bool, true, false, not, ◌||◌, ◌&&◌, some, [], ◌∷◌, map, arith, take,
  drop, leb, ◌==◌, bool_eq, if◌then◌else◌, inl, inr, Bool-cases,
}
use nasdaq_itch_parser_order.Prelude.Int.{ℤ, pos, ◌+ℤ◌}
use nasdaq_itch_parser_order.Structs.{Outcome, ret, ok, BboEntry, ItchMsgType, DownstreamOrderMsg}
use nasdaq_itch_parser_order.Bbo.Half
use nasdaq_itch_parser_order.Bbo.Half.{
  BboHalf, Kind, Found, kind_of, better, scan, answer, process_msg,
}
use nasdaq_itch_parser_order.Bbo.Ladder.{Level, Ladder, place, total, total-place}

-- the code's range test, once `init_params` has set the bound
abbrev pub inside : (is_buy ideal : Bool) (bound : ℕ) → ℕ → Bool
inside is_buy ideal bound price =
    ideal || is_buy && leb bound price || not is_buy && leb price bound

abbrev pub always : ℕ → Bool
always price = true

abbrev pub entry_of : Level → BboEntry
entry_of l = record { shares = pos l.shares; price = l.price }

-- the state that shows some levels, with the others behind them
abbrev pub keeping : (is_buy ideal : Bool) (bound : ℕ) → (shown behind : Ladder) → BboHalf
keeping is_buy ideal bound shown behind = record {
  is_buy = is_buy;
  ideal = ideal;
  entries = map entry_of shown;
  outside_shares_in_range = pos (total (inside is_buy ideal bound) behind);
  outside_shares = pos (total always behind);
  price_bound = some bound;
}

-- the state that a ladder stands for: its two best levels, and the shares behind them
abbrev pub showing : (is_buy ideal : Bool) (bound : ℕ) → Ladder → BboHalf
showing is_buy ideal bound ls = keeping is_buy ideal bound (take 2 ls) (drop 2 ls)

pub pos_add : (a n : ℕ) → pos a +ℤ pos n ≡ pos (a + n)
unfolding ◌+ℤ◌
pos_add a n = ground arith

abbrev pub order : ItchMsgType → Bool → (shares price : ℕ) → DownstreamOrderMsg
order t is_buy n p = record { msg_type = t; is_buy = is_buy; shares = n; price = p }

pub bool_eq_refl : (b : Bool) → bool_eq b b ≡ true
bool_eq_refl true = refl
bool_eq_refl false = refl

abbrev pub counts : BboHalf → (outside in_range : ℕ) → BboHalf
counts s x y = record s { outside_shares = pos x; outside_shares_in_range = pos y }

abbrev pub counts_raw : BboHalf → ℤ → ℤ → BboHalf
counts_raw s x y = record s { outside_shares = x; outside_shares_in_range = y }

-- shares that are counted outside, and in range if they are
pub counted :
    (s : BboHalf) (n x y x' y' : ℕ) (i : Bool)
    → s.outside_shares ≡ pos x
    → s.outside_shares_in_range ≡ pos y
    → x' ≡ x + n
    → y' ≡ y + (if i then n else 0)
    → Half.count_in_range (Half.count_outside s (pos n)) (pos n) i ≡ counts s x' y'
counted s n x y x' y' true hx hy ex ey = rw (hx, hy, pos_add x n, pos_add y n, ex, ey) refl
counted s n x y x' y' false hx hy ex ey =
    rw (hx, pos_add x n, ex, ey)
      (ap (λ (w : ℤ). counts_raw s (pos (x + n)) w) (hy ∙ ap pos (omega arith)))

abbrev pub calmly : BboHalf → Outcome Half.BboHalfResult × BboHalf
calmly s = (ret (ok (answer s.entries false 0)), s)

module _ (b ideal : Bool) (bound n p : ℕ) where
  abbrev after_adds : Ladder → Outcome Half.BboHalfResult × BboHalf
  after_adds ls = (ret (ok (answer (map entry_of (take 2 ls)) false 0)), showing b ideal bound ls)

  abbrev reacts : Ladder → Outcome Half.BboHalfResult × BboHalf
  reacts ls =
      Half.react Kind.adds n p (scan b Kind.adds n p 0 (map entry_of (take 2 ls)))
        (showing b ideal bound ls)

  adds_none : reacts [] ≡ after_adds (place b n p [])
  unfolding scan Half.apply place total
  adds_none = refl

  adds_one : (l : Level) → reacts (l ∷ []) ≡ after_adds (place b n p (l ∷ []))
  unfolding scan Half.apply place total
  adds_one l = elim (Bool-cases (p == l.price)) [
    | inl e ↦ rw (e, pos_add l.shares n) refl
    | inr e ↦ elim (Bool-cases (better b p l.price)) [
      | inl h ↦ rw (e, h) refl
      | inr h ↦ rw (e, h) refl
    ]
  ]

  adds_two :
      (l m : Level) (ls : Ladder) → reacts (l ∷ m ∷ ls) ≡ after_adds (place b n p (l ∷ m ∷ ls))
  unfolding scan Half.apply place total
  adds_two l m ls = elim (Bool-cases (p == l.price)) [
    | inl e ↦ rw (e, pos_add l.shares n) refl
    | inr e ↦ elim (Bool-cases (better b p l.price)) [
      | inl h ↦
          rw (e, h)
            (ap calmly (
              counted _ m.shares (total always ls) (total (inside b ideal bound) ls) _ _ _ refl refl
                (omega arith) (omega arith)))
      | inr h ↦ elim (Bool-cases (p == m.price)) [
        | inl e' ↦ rw (e, h, e', pos_add m.shares n) refl
        | inr e' ↦ elim (Bool-cases (better b p m.price)) [
          | inl h' ↦
              rw (e, h, e', h')
                (ap calmly (
                  counted _ m.shares (total always ls) (total (inside b ideal bound) ls) _ _ _ refl
                    refl (omega arith) (omega arith)))
          | inr h' ↦
              rw (e, h, e', h')
                (ap calmly (
                  counted _ n (total always ls) (total (inside b ideal bound) ls) _ _ _ refl refl
                    (total-place always b n p ls) (total-place (inside b ideal bound) b n p ls)))
        ]
      ]
    ]
  ]

  adds-showing : (ls : Ladder) → reacts ls ≡ after_adds (place b n p ls)
  adds-showing [] = adds_none
  adds-showing (l ∷ []) = adds_one l
  adds-showing (l ∷ m ∷ ls) = adds_two l m ls

-- ADD and REPLACE on a side that shows a ladder, in range or not: the side answers the best level,
-- asks for no update, and shows the ladder with the shares placed at their price.
pub process_msg-adds :
    (is_buy ideal : Bool) (bound n p : ℕ) (t : ItchMsgType) (ls : Ladder)
    → kind_of t ≡ Kind.adds
    → process_msg (showing is_buy ideal bound ls) (order t is_buy n p) ≡ (
      ret (ok (answer (map entry_of (take 2 (place is_buy n p ls))) false 0)),
      showing is_buy ideal bound (place is_buy n p ls),
    )
unfolding process_msg
process_msg-adds is_buy ideal bound n p t ls h =
    rw (h, bool_eq_refl is_buy) (adds-showing is_buy ideal bound n p ls)
