-- ===== src/Bbo/Reduces.antt =====
-- `BBOHalf.process_msg` on REDUCE and DELETE, in the state that stands for a ladder.
use nasdaq_itch_parser_order.Prelude.{
  ℕ, ◌-◌, ◌≤◌, ◌<◌, ◌≡◌, refl, ap, Bool, [], ◌∷◌, map, arith, take, ◌==◌, inl, inr, Bool-cases,
}
use nasdaq_itch_parser_order.Structs.{ItchMsgType}
use nasdaq_itch_parser_order.Bbo.Half
use nasdaq_itch_parser_order.Bbo.Half.{
  BboHalf, Kind, Found, kind_of, better, scan, answer, process_msg, process_updt,
}
use nasdaq_itch_parser_order.Bbo.Ladder.{
  Level, Ladder, IsLadder, take_off, shares_of, total, total-take_off,
}
use nasdaq_itch_parser_order.Bbo.Adds.{
  inside, always, entry_of, showing, order, calmly, bool_eq_refl,
}
use nasdaq_itch_parser_order.Bbo.Lowering.{
  at_price-reduces, not_better, frees, after_reduces, at_level, behind, nowhere, one_price,
  depletes, uncounted,
}

module _ (b ideal : Bool) (bound n p : ℕ) where
  abbrev Goes : Ladder → Type 0
  Goes ls =
      Half.react Kind.reduces n p (scan b Kind.reduces n p 0 (map entry_of (take 2 ls)))
        (showing b ideal bound ls)
      ≡ after_reduces b ideal bound (frees n p ls) (take_off n p ls)

  reduces_one : (l : Level) → n ≤ shares_of p (l ∷ []) → 0 < n → Goes (l ∷ [])
  unfolding scan Half.apply take_off total
  reduces_one l h hn = elim (Bool-cases (p == l.price)) [
    | inr e ↦ nowhere n p (behind n p l [] e h) hn
    | inl e ↦ elim (Bool-cases (l.shares - n == 0)) [
      | inl z ↦ rw (e, at_price-reduces l n 0 (at_level n p l [] e h), z) refl
      | inr z ↦ rw (e, at_price-reduces l n 0 (at_level n p l [] e h), z) refl
    ]
  ]

  reduces_two :
      (l m : Level)
      → IsLadder b (l ∷ m ∷ [])
      → n ≤ shares_of p (l ∷ m ∷ [])
      → 0 < n
      → Goes (l ∷ m ∷ [])
  unfolding scan Half.apply take_off total
  reduces_two l m hl h hn = elim (Bool-cases (p == l.price)) [
    | inl e ↦ elim (Bool-cases (l.shares - n == 0)) [
      | inl z ↦ rw (e, at_price-reduces l n 0 (at_level n p l (m ∷ []) e h), z) refl
      | inr z ↦ rw (e, at_price-reduces l n 0 (at_level n p l (m ∷ []) e h), z) refl
    ]
    | inr e ↦
        let h' = behind n p l (m ∷ []) e h in
        let w = not_better b p l (m ∷ []) hl (omega arith) in
        elim (Bool-cases (p == m.price)) [
          | inr e' ↦ nowhere n p (behind n p m [] e' h') hn
          | inl e' ↦ elim (Bool-cases (m.shares - n == 0)) [
            | inl z ↦ rw (e, w, e', at_price-reduces m n 1 (at_level n p m [] e' h'), z) refl
            | inr z ↦ rw (e, w, e', at_price-reduces m n 1 (at_level n p m [] e' h'), z) refl
          ]
        ]
  ]

  reduces_many :
      (l m k : Level) (ls : Ladder)
      → IsLadder b (l ∷ m ∷ k ∷ ls)
      → n ≤ shares_of p (l ∷ m ∷ k ∷ ls)
      → 0 < n
      → Goes (l ∷ m ∷ k ∷ ls)
  unfolding scan Half.apply take_off
  reduces_many l m k ls hl h hn = elim (Bool-cases (p == l.price)) [
    | inl e ↦ elim (Bool-cases (l.shares - n == 0)) [
      | inl z ↦
          rw (e, at_price-reduces l n 0 (at_level n p l (m ∷ k ∷ ls) e h), z)
            (depletes b ideal bound m k ls hl.2.2.0)
      | inr z ↦
          rw
            (
              e,
              at_price-reduces l n 0 (at_level n p l (m ∷ k ∷ ls) e h),
              z,
              one_price b p l m (k ∷ ls) hl e,
            )
            refl
    ]
    | inr e ↦
        let h' = behind n p l (m ∷ k ∷ ls) e h in
        let w = not_better b p l (m ∷ k ∷ ls) hl (omega arith) in
        elim (Bool-cases (p == m.price)) [
          | inr e' ↦
              let h2 = behind n p m (k ∷ ls) e' h' in
              let w' = not_better b p m (k ∷ ls) hl.2 (omega arith) in
              rw (e, w, e', w')
                (ap calmly (
                  uncounted _ n _ _ (total always (take_off n p (k ∷ ls)))
                    (total (inside b ideal bound) (take_off n p (k ∷ ls))) _ refl refl
                    (total-take_off always n p (k ∷ ls) h2)
                    (total-take_off (inside b ideal bound) n p (k ∷ ls) h2)))
          | inl e' ↦ elim (Bool-cases (m.shares - n == 0)) [
            | inl z ↦
                rw (e, w, e', at_price-reduces m n 1 (at_level n p m (k ∷ ls) e' h'), z)
                  (depletes b ideal bound l k ls hl.2.2.0)
            | inr z ↦ rw (e, w, e', at_price-reduces m n 1 (at_level n p m (k ∷ ls) e' h'), z) refl
          ]
        ]
  ]

  reduces-showing : (ls : Ladder) → IsLadder b ls → n ≤ shares_of p ls → 0 < n → Goes ls
  reduces-showing [] hl h hn = nowhere n p h hn
  reduces-showing (l ∷ []) hl h hn = reduces_one l h hn
  reduces-showing (l ∷ m ∷ []) hl h hn = reduces_two l m hl h hn
  reduces-showing (l ∷ m ∷ k ∷ ls) hl h hn = reduces_many l m k ls hl h hn

-- REDUCE and DELETE of shares that the level of the price has, on a side that shows a ladder: the
-- side shows the ladder without them and answers its best level. If a third level is there and one
-- of the two best is used up, the side is left with one entry: it asks for an update where there
-- are shares in range behind it, and gives the error `No shares in range for updt.` where not.
pub process_msg-reduces :
    (is_buy ideal : Bool) (bound n p : ℕ) (t : ItchMsgType) (ls : Ladder)
    → kind_of t ≡ Kind.reduces
    → IsLadder is_buy ls
    → n ≤ shares_of p ls
    → 0 < n
    → process_msg (showing is_buy ideal bound ls) (order t is_buy n p)
      ≡ after_reduces is_buy ideal bound (frees n p ls) (take_off n p ls)
unfolding process_msg
process_msg-reduces is_buy ideal bound n p t ls h hl hs hn =
    rw (h, bool_eq_refl is_buy) (reduces-showing is_buy ideal bound n p ls hl hs hn)
