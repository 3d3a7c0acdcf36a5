-- ===== src/Book/Takes.antt =====
-- `Book.process_msg` behind L3: shares of a bid that go.
use nasdaq_itch_parser_order.Prelude.{
  ℕ, ◌-◌, ◌%◌, ◌≤◌, ◌<◌, ◌≡◌, refl, sym, ap, ◌∙◌, true, false, Option, [], ◌∷◌, arith, take, map,
  ◌==◌, if◌then◌else◌, inl, inr, Bool-cases,
}
use nasdaq_itch_parser_order.Prelude.IntSets.{elem, set_remove}
use nasdaq_itch_parser_order.Mapping.{Mapping}
use nasdaq_itch_parser_order.Structs.{ret, ok, BboEntry, ItchMsgType, L3Entry}
use nasdaq_itch_parser_order.Bbo.Half
use nasdaq_itch_parser_order.Bbo.Half.{BboHalf, Kind, kind_of, answer, better}
use nasdaq_itch_parser_order.Bbo.Ladder.{Level, Ladder, IsLadder, take_off, shares_of}
use nasdaq_itch_parser_order.Bbo.Adds.{showing, entry_of, order, inside}
use nasdaq_itch_parser_order.Bbo.Lowering.{frees, short}
use nasdaq_itch_parser_order.Bbo.Update.{process_updt-showing, take_off-IsLadder}
use nasdaq_itch_parser_order.L2
use nasdaq_itch_parser_order.L2.{L2}
use nasdaq_itch_parser_order.L2.Refines.{process_msg-takes_shares}
use nasdaq_itch_parser_order.L2.Query.{prices, get_updt-second}
use nasdaq_itch_parser_order.Book.{Book}
use nasdaq_itch_parser_order.Book.Ladders.{
  Displays, levels_of, Keeps, shows_same, take_off-InRange, quotes, quoted_at, quote_at, accepts,
  handed_on,
}
use nasdaq_itch_parser_order.Book.Setting.{Setting, in_window}
use nasdaq_itch_parser_order.Book.Sides.{
  SideShown, best, takes-SideShown, left_over, Uncrossed, spread, two_left,
}
use nasdaq_itch_parser_order.Book.Steps.{
  answer-best, answer-calm, behind_one, half_requests, half_calm, without_update, with_update,
  bbo_updated, bbo_after,
}
use nasdaq_itch_parser_order.Book.Apart.{
  take_bids-Uncrossed, less_bids, none_offered, listed_of, second_shares,
}

module _ {M N : Type 0} (orders : Mapping M L3Entry) (g : Setting N) where
  module _ (s : Book M N) (bids offs : Ladder) (t : ItchMsgType) (n p : ℕ) (h : Keeps g s bids offs)
      (hn : 0 < n) (hle : n ≤ shares_of p bids) where
    bid_there : 0 < shares_of p bids
    bid_there = omega (arith, hn, hle)

    bids_apart : Uncrossed (take_off n p bids) offs
    bids_apart = take_bids-Uncrossed n p bids offs h.bid_side.ladder h.uncrossed

    bids_in_range : (q : ℕ) → 0 < shares_of q (take_off n p bids) → g.InRange q
    bids_in_range = take_off-InRange g true n p bids h.bid_side.ladder h.bids_in

    -- the price table without the shares
    abbrev table : N → L2 N
    table m = record s.l2 { memory = m; bids = left_over n p bids s.l2.bids }

    -- the book with another memory, half and entry
    abbrev book : N → BboHalf → Option BboEntry → Book M N
    book m half entry = record s {
      l2 = table m;
      bbo = record s.bbo { bid_module = half; bid_entry = entry };
    }

    L2-takes :
        kind_of t ≡ Kind.reduces
        → p % 50 ≡ 0
        → (m : N) × (L2.process_msg g.ops s.l2 (order t true n p) ≡ (ret (ok tt), table m))
          × Displays g m (levels_of (take_off n p bids) offs)
    L2-takes k tick =
        let hb = h.bid_side.ladder in
        let (m, e, shows) =
          process_msg-takes_shares g.ops g.InRange g.IsValid g.view g.laws s.l2
            (levels_of bids offs) t true n p k
            (accepts g s bids offs n p h tick hn (h.bids_in p bid_there)) (h.bids_in p bid_there)
            h.shares (omega (arith, hle)) (h.bid_side.listed p ∙ listed_of p bids bid_there) in
        let amount : levels_of bids offs p ≡ shares_of p bids =
          omega (arith, none_offered bids offs p hb h.off_side.ladder h.uncrossed bid_there) in
        (
          m,
          e
              ∙ ap
                  (λ (v : ℕ). (
                    ret (ok tt),
                    record s.l2 {
                      memory = m;
                      bids = if v - n == 0 then set_remove p s.l2.bids else s.l2.bids;
                    },
                  ))
                  amount,
          shows_same g m _ _ (less_bids n p bids offs hb hle) shows,
        )

    side-taken :
        (half : BboHalf) (entry : Option BboEntry)
        → half ≡ showing true g.ideal g.base (take_off n p bids)
        → entry ≡ best (take_off n p bids)
        → SideShown true g.ideal g.base
            (left_over n p bids s.l2.bids)
            half
            entry
            (take_off n p bids)
    side-taken half entry eh ee =
        takes-SideShown true g.ideal g.base n p s.l2.bids _ _ bids h.bid_side bid_there half entry
          eh ee

    book-Keeps :
        (m : N) (half : BboHalf) (entry : Option BboEntry)
        → Displays g m (levels_of (take_off n p bids) offs)
        → half ≡ showing true g.ideal g.base (take_off n p bids)
        → entry ≡ best (take_off n p bids)
        → Keeps g (book m half entry) (take_off n p bids) offs
    book-Keeps m half entry shows eh ee = record {
      ready = h.ready;
      ideal = h.ideal;
      bid_side = side-taken half entry eh ee;
      uncrossed = bids_apart;
      off_side = h.off_side;
      shares = shows;
      bids_in = bids_in_range;
      offs_in = h.offs_in;
    }

    abbrev Taken : Type 0
    Taken =
        (s' : Book M N) × (handed_on orders g s (order t true n p)
          ≡ (ret (ok (quote_at (take_off n p bids) offs)), s'))
        × Keeps g s' (take_off n p bids) offs

    -- both entries of the half are still good
    takes_calmly : kind_of t ≡ Kind.reduces → p % 50 ≡ 0 → frees n p bids ≡ false → Taken
    takes_calmly k tick f =
        let (m, el, shows) = L2-takes k tick in
        let bids' = take_off n p bids in
        let a = answer (map entry_of (take 2 bids')) false 0 in
        let eh : Half.process_msg s.bbo.bid_module (order t true n p)
            ≡ (ret (ok a), showing true g.ideal g.base bids') =
          rw h.bid_side.shown
            (half_calm true g.ideal g.base n p t bids k h.bid_side.ladder hle hn f) in
        let run =
          without_update orders g.ops s (order t true n p) _ _ (spread bids' offs) el a eh
            (answer-calm bids')
            (quotes a.entry s.bbo.off_entry bids' offs (answer-best bids') h.off_side.quoted
              bids_apart) in
        (
          _,
          run
              ∙ quoted_at a.entry s.bbo.off_entry bids' offs _ (answer-best bids')
                  h.off_side.quoted,
          book-Keeps m _ a.entry shows refl (answer-best bids'),
        )

    module _ (m : N) (x y : Level) (rest : Ladder) (two : take_off n p bids ≡ x ∷ y ∷ rest)
        (shows : Displays g m (levels_of (take_off n p bids) offs)) where
      two-IsLadder : IsLadder true (x ∷ y ∷ rest)
      two-IsLadder = rw two at (take_off-IsLadder true n p bids h.bid_side.ladder)

      second_in_range : g.InRange y.price
      second_in_range = bids_in_range y.price (
          omega (
            arith,
            ap (λ ls. shares_of y.price ls) two,
            second_shares true x y rest two-IsLadder,
            two-IsLadder.2.0,
          ))

      -- what L2 answers when it is asked for the second level
      L2-second : L2.get_updt g.ops (table m) true ≡ ret (ok (entry_of y))
      L2-second =
          let second = second_shares true x y rest two-IsLadder in
          let there : 0 < shares_of y.price (x ∷ y ∷ rest) =
            omega (arith, second, two-IsLadder.2.0) in
          let kept = side-taken (showing true g.ideal g.base (take_off n p bids)) _ refl refl in
          let amount : levels_of (x ∷ y ∷ rest) offs y.price ≡ y.shares = omega (
            arith,
            second,
            none_offered (x ∷ y ∷ rest) offs y.price two-IsLadder h.off_side.ladder
                (rw two at bids_apart) there,
          ) in
          get_updt-second g.ops g.InRange g.IsValid g.view g.laws (table m)
            (levels_of (x ∷ y ∷ rest) offs) true x y rest (rw two at shows) two-IsLadder
            kept.distinct (λ q. kept.listed q ∙ ap (λ ls. elem q (prices ls)) two) second_in_range
            amount

    -- an entry of the half is used up, and L2 is asked for the next level
    takes_with_update : kind_of t ≡ Kind.reduces → p % 50 ≡ 0 → frees n p bids ≡ true → Taken
    takes_with_update k tick f =
        let (m, el, shows) = L2-takes k tick in
        let (x, y, rest, two) = two_left n p bids f in
        let bids' = take_off n p bids in
        let a = answer (entry_of x ∷ []) true x.price in
        let hl = two-IsLadder m x y rest two shows in
        let first : a.entry ≡ best bids' = ap (λ ls. best ls) (sym two) in
        let there : inside true g.ideal g.base y.price ≡ true =
          (in_window g y.price (second_in_range m x y rest two shows)).0 in
        let eh : Half.process_msg s.bbo.bid_module (order t true n p)
            ≡ (ret (ok a), short true g.ideal g.base (x ∷ y ∷ rest)) =
          rw h.bid_side.shown (
            half_requests true g.ideal g.base n p t bids x y rest k h.bid_side.ladder hle hn f two
              hl there) in
        let ep =
          bbo_updated true (entry_of y)
            (bbo_after true a (short true g.ideal g.base (x ∷ y ∷ rest)) s.bbo)
            (showing true g.ideal g.base bids')
            (process_updt-showing true g.ideal g.base x y rest hl
                (behind_one true g.ideal g.base x y rest hl there)
              ∙ ap (λ ls. ret (showing true g.ideal g.base ls)) (sym two)) in
        let run =
          with_update orders g.ops s (order t true n p) _ _ (showing true g.ideal g.base bids')
            (spread bids' offs) (entry_of y) el a eh refl
            (quotes a.entry s.bbo.off_entry bids' offs first h.off_side.quoted bids_apart)
            (L2-second m x y rest two shows) ep in
        (
          _,
          run ∙ quoted_at a.entry s.bbo.off_entry bids' offs _ first h.off_side.quoted,
          book-Keeps m _ a.entry shows refl first,
        )

  -- Shares of a bid that go, with a price on a tick.
  pub takes_bids :
      (s : Book M N) (bids offs : Ladder) (t : ItchMsgType) (n p : ℕ)
      → Keeps g s bids offs
      → kind_of t ≡ Kind.reduces
      → p % 50 ≡ 0
      → 0 < n
      → n ≤ shares_of p bids
      → (s' : Book M N) × (handed_on orders g s (order t true n p)
          ≡ (ret (ok (quote_at (take_off n p bids) offs)), s'))
        × Keeps g s' (take_off n p bids) offs
  takes_bids s bids offs t n p h k tick hn hle = elim (Bool-cases (frees n p bids)) [
    | inl f ↦ takes_with_update s bids offs t n p h hn hle k tick f
    | inr f ↦ takes_calmly s bids offs t n p h hn hle k tick f
  ]
