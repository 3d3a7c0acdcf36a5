-- ===== src/Book/Steps.antt =====
-- `Book.process_msg` behind L3, step by step, and what BBO answers on a ladder.
use nasdaq_itch_parser_order.Prelude.{
  ℕ, ◌≤◌, ◌<◌, ◌≡◌, refl, ap, ◌∙◌, Bool, true, false, Option, [], ◌∷◌, arith, take, map, ltb_lt,
}
use nasdaq_itch_parser_order.Prelude.Int.{ℤ}
use nasdaq_itch_parser_order.Mapping.{Mapping}
use nasdaq_itch_parser_order.Structs.{ret, ok, BboEntry, ItchMsgType, DownstreamOrderMsg, L3Entry}
use nasdaq_itch_parser_order.Bbo.Half
use nasdaq_itch_parser_order.Bbo.Half.{BboHalf, Kind, kind_of, answer, better}
use nasdaq_itch_parser_order.Bbo.Ladder.{Level, Ladder, IsLadder, take_off, shares_of, total}
use nasdaq_itch_parser_order.Bbo.Adds.{showing, entry_of, order, inside}
use nasdaq_itch_parser_order.Bbo.Reduces.{process_msg-reduces}
use nasdaq_itch_parser_order.Bbo.Lowering.{frees, short}
use nasdaq_itch_parser_order.Bbo
use nasdaq_itch_parser_order.Bbo.{Bbo, Quote, half, with_half, with_entry}
use nasdaq_itch_parser_order.L2
use nasdaq_itch_parser_order.L2.{L2}
use nasdaq_itch_parser_order.L2.Levels.{PriceMemory}
use nasdaq_itch_parser_order.Book
use nasdaq_itch_parser_order.Book.{Book}
use nasdaq_itch_parser_order.Book.Sides.{best}

-- BBO when the side has answered
abbrev pub bbo_after : Bool → Half.Answer → BboHalf → Bbo → Bbo
bbo_after b a h s = with_entry b a.entry (with_half b h s)

abbrev pub quote_of : Bbo → Option ℤ → Quote
quote_of s spread = record { bid_entry = s.bid_entry; off_entry = s.off_entry; spread = spread }

abbrev reply_of : Bool → Half.Answer → Bbo → Option ℤ → Bbo.Reply
reply_of b a s spread = record {
  quote = quote_of s spread;
  updt_req = a.updt_req;
  updt_req_is_buy = b;
  updt_req_mask_enc = a.updt_req_mask_enc;
}

bbo_answers :
    (s : Bbo) (msg : DownstreamOrderMsg) (a : Half.Answer) (h : BboHalf) (spread : Option ℤ)
    → Half.process_msg (half msg.is_buy s) msg ≡ (ret (ok a), h)
    → Bbo.spread_of (bbo_after msg.is_buy a h s).bid_entry (bbo_after msg.is_buy a h s).off_entry
      ≡ ret spread
    → Bbo.process_msg s msg ≡ (
      ret (ok (reply_of msg.is_buy a (bbo_after msg.is_buy a h s) spread)),
      bbo_after msg.is_buy a h s,
    )
unfolding Bbo.process_msg
bbo_answers s msg a h spread e es = rw (e, es) refl

module _ {M N : Type 0} (orders : Mapping M L3Entry) (levels : PriceMemory N) where
  -- up to the update
  to_updt :
      (s : Book M N) (msg : DownstreamOrderMsg) (l2' : L2 N) (a : Half.Answer) (h : BboHalf)
      (spread : Option ℤ)
      → L2.process_msg levels s.l2 msg ≡ (ret (ok tt), l2')
      → Half.process_msg (half msg.is_buy s.bbo) msg ≡ (ret (ok a), h)
      → Bbo.spread_of
          (bbo_after msg.is_buy a h s.bbo).bid_entry
          (bbo_after msg.is_buy a h s.bbo).off_entry
        ≡ ret spread
      → Book.after_l3 orders levels (ret (ok msg)) s
        ≡ Book.after_bbo orders levels
            (ret (ok (reply_of msg.is_buy a (bbo_after msg.is_buy a h s.bbo) spread)))
            (record s { l2 = l2'; bbo = bbo_after msg.is_buy a h s.bbo })
  to_updt s msg l2' a h spread el eh es =
      ap (λ r. Book.after_l2 orders levels msg r.0 (record s { l2 = r.1 })) el
      ∙ ap (λ r. Book.after_bbo orders levels r.0 (record s { l2 = l2'; bbo = r.1 }))
          (bbo_answers s.bbo msg a h spread eh es)

  pub without_update :
      (s : Book M N) (msg : DownstreamOrderMsg) (l2' : L2 N) (h : BboHalf) (spread : Option ℤ)
      → L2.process_msg levels s.l2 msg ≡ (ret (ok tt), l2')
      → (a : Half.Answer) → Half.process_msg (half msg.is_buy s.bbo) msg ≡ (ret (ok a), h)
      → a.updt_req ≡ false
      → Bbo.spread_of
          (bbo_after msg.is_buy a h s.bbo).bid_entry
          (bbo_after msg.is_buy a h s.bbo).off_entry
        ≡ ret spread
      → Book.after_l3 orders levels (ret (ok msg)) s ≡ (
        ret (ok (quote_of (bbo_after msg.is_buy a h s.bbo) spread)),
        record s { l2 = l2'; bbo = bbo_after msg.is_buy a h s.bbo },
      )
  without_update s msg l2' h spread el a eh ea es =
      to_updt s msg l2' a h spread el eh es ∙ rw ea refl

  updated :
      (quote : Quote) (b : Bool) (entry : BboEntry) (s : Book M N) (bbo : Bbo)
      → Bbo.process_updt b entry s.bbo ≡ ret bbo
      → Book.update orders levels quote b (ret (ok entry)) s
        ≡ (ret (ok quote), record s { bbo = bbo })
  updated quote b entry s bbo h = rw (Book.update, h) refl

  pub with_update :
      (s : Book M N) (msg : DownstreamOrderMsg) (l2' : L2 N) (h h' : BboHalf) (spread : Option ℤ)
      (entry : BboEntry)
      → L2.process_msg levels s.l2 msg ≡ (ret (ok tt), l2')
      → (a : Half.Answer) → Half.process_msg (half msg.is_buy s.bbo) msg ≡ (ret (ok a), h)
      → a.updt_req ≡ true
      → Bbo.spread_of
          (bbo_after msg.is_buy a h s.bbo).bid_entry
          (bbo_after msg.is_buy a h s.bbo).off_entry
        ≡ ret spread
      → L2.get_updt levels l2' msg.is_buy ≡ ret (ok entry)
      → Bbo.process_updt msg.is_buy entry (bbo_after msg.is_buy a h s.bbo)
        ≡ ret (with_half msg.is_buy h' (bbo_after msg.is_buy a h s.bbo))
      → Book.after_l3 orders levels (ret (ok msg)) s ≡ (
        ret (ok (quote_of (bbo_after msg.is_buy a h s.bbo) spread)),
        record s { l2 = l2'; bbo = with_half msg.is_buy h' (bbo_after msg.is_buy a h s.bbo) },
      )
  with_update s msg l2' h h' spread entry el a eh ea es eu ep =
      to_updt s msg l2' a h spread el eh es ∙ rw (ea, eu) (updated _ msg.is_buy entry _ _ ep)

pub answer-best : (ls : Ladder) → (answer (map entry_of (take 2 ls)) false 0).entry ≡ best ls
answer-best [] = refl
answer-best (l ∷ []) = refl
answer-best (l ∷ m ∷ ls) = refl

pub answer-calm : (ls : Ladder) → (answer (map entry_of (take 2 ls)) false 0).updt_req ≡ false
answer-calm [] = refl
answer-calm (l ∷ []) = refl
answer-calm (l ∷ m ∷ ls) = refl

-- there are shares in range behind the first of two levels, where the second is in range
pub behind_one :
    (c ideal : Bool) (bound : ℕ) (x y : Level) (ls : Ladder)
    → IsLadder c (x ∷ y ∷ ls)
    → inside c ideal bound y.price ≡ true
    → 0 < total (inside c ideal bound) (y ∷ ls)
unfolding total
behind_one c ideal bound x y ls h hi = rw hi (omega (arith, h.2.0))

-- the side that has used up one of its two best levels, and asks for the next
pub half_requests :
    (c ideal : Bool) (bound n p : ℕ) (t : ItchMsgType) (ls : Ladder) (x y : Level) (rest : Ladder)
    → kind_of t ≡ Kind.reduces
    → IsLadder c ls
    → n ≤ shares_of p ls
    → 0 < n
    → frees n p ls ≡ true
    → take_off n p ls ≡ x ∷ y ∷ rest
    → IsLadder c (x ∷ y ∷ rest)
    → inside c ideal bound y.price ≡ true
    → Half.process_msg (showing c ideal bound ls) (order t c n p)
      ≡ (ret (ok (answer (entry_of x ∷ []) true x.price)), short c ideal bound (x ∷ y ∷ rest))
half_requests c ideal bound n p t ls x y rest k hl h hn hf e hl' hi =
    process_msg-reduces c ideal bound n p t ls k hl h hn
    ∙ rw (hf, e)
        (rw
          (ltb_lt 0 (total (inside c ideal bound) (y ∷ rest))
            (behind_one c ideal bound x y rest hl' hi))
          refl)

pub half_calm :
    (c ideal : Bool) (bound n p : ℕ) (t : ItchMsgType) (ls : Ladder)
    → kind_of t ≡ Kind.reduces
    → IsLadder c ls
    → n ≤ shares_of p ls
    → 0 < n
    → frees n p ls ≡ false
    → Half.process_msg (showing c ideal bound ls) (order t c n p) ≡ (
      ret (ok (answer (map entry_of (take 2 (take_off n p ls))) false 0)),
      showing c ideal bound (take_off n p ls),
    )
half_calm c ideal bound n p t ls k hl h hn hf =
    process_msg-reduces c ideal bound n p t ls k hl h hn ∙ rw hf refl

pub bbo_updated :
    (b : Bool) (entry : BboEntry) (s : Bbo) (h : BboHalf)
    → Half.process_updt (half b s) entry ≡ ret h
    → Bbo.process_updt b entry s ≡ ret (with_half b h s)
unfolding Bbo.process_updt
bbo_updated b entry s h e = rw e refl
