-- ===== src/Book/TakesOffers.antt =====
-- `Book.process_msg` behind L3: shares of an offer that go.
use nasdaq_itch_parser_order.Prelude.{
  ℕ, ◌-◌, ◌%◌, ◌≤◌, ◌<◌, ◌≡◌, refl, sym, ap, ◌∙◌, true, false, Option, [], ◌∷◌, arith, take, map,
  ◌==◌, if◌then◌else◌, inl, inr, Bool-cases,
}
use nasdaq_itch_parser_order.Prelude.IntSets.{elem, set_remove}
use nasdaq_itch_parser_order.Mapping.{Mapping}
use nasdaq_itch_parser_order.Structs.{ret, ok, BboEntry, ItchMsgType, L3Entry}
use nasdaq_itch_parser_order.Bbo.Half
use nasdaq_itch_parser_order.Bbo.Half.{BboHalf, Kind, kind_of, answer, better}
use nasdaq_itch_parser_order.Bbo.Ladder.{Level, Ladder, IsLadder, take_off, shares_of}
use nasdaq_itch_parser_order.Bbo.Adds.{showing, entry_of, order, inside}
use nasdaq_itch_parser_order.Bbo.Lowering.{frees, short}
use nasdaq_itch_parser_order.Bbo.Update.{process_updt-showing, take_off-IsLadder}
use nasdaq_itch_parser_order.L2
use nasdaq_itch_parser_order.L2.{L2}
use nasdaq_itch_parser_order.L2.Refines.{process_msg-takes_shares}
use nasdaq_itch_parser_order.L2.Query.{prices, get_updt-second}
use nasdaq_itch_parser_order.Book.{Book}
use nasdaq_itch_parser_order.Book.Ladders.{
  Displays, levels_of, Keeps, shows_same, take_off-InRange, quotes, quoted_at, quote_at, accepts,
  handed_on,
}
use nasdaq_itch_parser_order.Book.Setting.{Setting, in_window}
use nasdaq_itch_parser_order.Book.Sides.{
  SideShown, best, takes-SideShown, left_over, Uncrossed, spread, two_left,
}
use nasdaq_itch_parser_order.Book.Steps.{
  answer-best, answer-calm, behind_one, half_requests, half_calm, without_update, with_update,
  bbo_updated, bbo_after,
}
use nasdaq_itch_parser_order.Book.ApartOffers.{take_offers-Uncrossed, less_offers}
use nasdaq_itch_parser_order.Book.Apart.{none_bid, listed_of, second_shares}

module _ {M N : Type 0} (orders : Mapping M L3Entry) (g : Setting N) where
  module _ (s : Book M N) (bids offs : Ladder) (t : ItchMsgType) (n p : ℕ) (h : Keeps g s bids offs)
      (hn : 0 < n) (hle : n ≤ shares_of p offs) where
    offer_there : 0 < shares_of p offs
    offer_there = omega (arith, hn, hle)

    offers_apart : Uncrossed bids (take_off n p offs)
    offers_apart = take_offers-Uncrossed n p bids offs h.off_side.ladder h.uncrossed

    offers_in_range : (q : ℕ) → 0 < shares_of q (take_off n p offs) → g.InRange q
    offers_in_range = take_off-InRange g false n p offs h.off_side.ladder h.offs_in

    -- the price table without the shares
    abbrev table : N → L2 N
    table m = record s.l2 { memory = m; offs = left_over n p offs s.l2.offs }

    -- the book with another memory, half and entry
    abbrev book : N → BboHalf → Option BboEntry → Book M N
    book m half entry = record s {
      l2 = table m;
      bbo = record s.bbo { off_module = half; off_entry = entry };
    }

    L2-takes :
        kind_of t ≡ Kind.reduces
        → p % 50 ≡ 0
        → (m : N) × (L2.process_msg g.ops s.l2 (order t false n p) ≡ (ret (ok tt), table m))
          × Displays g m (levels_of bids (take_off n p offs))
    L2-takes k tick =
        let ho = h.off_side.ladder in
        let (m, e, shows) =
          process_msg-takes_shares g.ops g.InRange g.IsValid g.view g.laws s.l2
            (levels_of bids offs) t false n p k
            (accepts g s bids offs n p h tick hn (h.offs_in p offer_there))
            (h.offs_in p offer_there) h.shares (omega (arith, hle))
            (h.off_side.listed p ∙ listed_of p offs offer_there) in
        let amount : levels_of bids offs p ≡ shares_of p offs =
          omega (arith, none_bid bids offs p h.bid_side.ladder ho h.uncrossed offer_there) in
        (
          m,
          e
              ∙ ap
                  (λ (v : ℕ). (
                    ret (ok tt),
                    record s.l2 {
                      memory = m;
                      offs = if v - n == 0 then set_remove p s.l2.offs else s.l2.offs;
                    },
                  ))
                  amount,
          shows_same g m _ _ (less_offers n p bids offs ho hle) shows,
        )

    side-taken :
        (half : BboHalf) (entry : Option BboEntry)
        → half ≡ showing false g.ideal g.max (take_off n p offs)
        → entry ≡ best (take_off n p offs)
        → SideShown false g.ideal g.max
            (left_over n p offs s.l2.offs)
            half
            entry
            (take_off n p offs)
    side-taken half entry eh ee =
        takes-SideShown false g.ideal g.max n p s.l2.offs _ _ offs h.off_side offer_there half entry
          eh ee

    book-Keeps :
        (m : N) (half : BboHalf) (entry : Option BboEntry)
        → Displays g m (levels_of bids (take_off n p offs))
        → half ≡ showing false g.ideal g.max (take_off n p offs)
        → entry ≡ best (take_off n p offs)
        → Keeps g (book m half entry) bids (take_off n p offs)
    book-Keeps m half entry shows eh ee = record {
      ready = h.ready;
      ideal = h.ideal;
      off_side = side-taken half entry eh ee;
      uncrossed = offers_apart;
      bid_side = h.bid_side;
      shares = shows;
      bids_in = h.bids_in;
      offs_in = offers_in_range;
    }

    abbrev Taken : Type 0
    Taken =
        (s' : Book M N) × (handed_on orders g s (order t false n p)
          ≡ (ret (ok (quote_at bids (take_off n p offs))), s'))
        × Keeps g s' bids (take_off n p offs)

    -- both entries of the half are still good
    takes_calmly : kind_of t ≡ Kind.reduces → p % 50 ≡ 0 → frees n p offs ≡ false → Taken
    takes_calmly k tick f =
        let (m, el, shows) = L2-takes k tick in
        let offs' = take_off n p offs in
        let a = answer (map entry_of (take 2 offs')) false 0 in
        let eh : Half.process_msg s.bbo.off_module (order t false n p)
            ≡ (ret (ok a), showing false g.ideal g.max offs') =
          rw h.off_side.shown
            (half_calm false g.ideal g.max n p t offs k h.off_side.ladder hle hn f) in
        let run =
          without_update orders g.ops s (order t false n p) _ _ (spread bids offs') el a eh
            (answer-calm offs')
            (quotes s.bbo.bid_entry a.entry bids offs' h.bid_side.quoted (answer-best offs')
              offers_apart) in
        (
          _,
          run
              ∙ quoted_at s.bbo.bid_entry a.entry bids offs' _ h.bid_side.quoted
                  (answer-best offs'),
          book-Keeps m _ a.entry shows refl (answer-best offs'),
        )

    module _ (m : N) (x y : Level) (rest : Ladder) (two : take_off n p offs ≡ x ∷ y ∷ rest)
        (shows : Displays g m (levels_of bids (take_off n p offs))) where
      two-IsLadder : IsLadder false (x ∷ y ∷ rest)
      two-IsLadder = rw two at (take_off-IsLadder false n p offs h.off_side.ladder)

      second_in_range : g.InRange y.price
      second_in_range = offers_in_range y.price (
          omega (
            arith,
            ap (λ ls. shares_of y.price ls) two,
            second_shares false x y rest two-IsLadder,
            two-IsLadder.2.0,
          ))

      -- what L2 answers when it is asked for the second level
      L2-second : L2.get_updt g.ops (table m) false ≡ ret (ok (entry_of y))
      L2-second =
          let second = second_shares false x y rest two-IsLadder in
          let there : 0 < shares_of y.price (x ∷ y ∷ rest) =
            omega (arith, second, two-IsLadder.2.0) in
          let kept = side-taken (showing false g.ideal g.max (take_off n p offs)) _ refl refl in
          let amount : levels_of bids (x ∷ y ∷ rest) y.price ≡ y.shares = omega (
            arith,
            second,
            none_bid bids (x ∷ y ∷ rest) y.price h.bid_side.ladder two-IsLadder
                (rw two at offers_apart) there,
          ) in
          get_updt-second g.ops g.InRange g.IsValid g.view g.laws (table m)
            (levels_of bids (x ∷ y ∷ rest)) false x y rest (rw two at shows) two-IsLadder
            kept.distinct (λ q. kept.listed q ∙ ap (λ ls. elem q (prices ls)) two) second_in_range
            amount

    -- an entry of the half is used up, and L2 is asked for the next level
    takes_with_update : kind_of t ≡ Kind.reduces → p % 50 ≡ 0 → frees n p offs ≡ true → Taken
    takes_with_update k tick f =
        let (m, el, shows) = L2-takes k tick in
        let (x, y, rest, two) = two_left n p offs f in
        let offs' = take_off n p offs in
        let a = answer (entry_of x ∷ []) true x.price in
        let hl = two-IsLadder m x y rest two shows in
        let first : a.entry ≡ best offs' = ap (λ ls. best ls) (sym two) in
        let there : inside false g.ideal g.max y.price ≡ true =
          (in_window g y.price (second_in_range m x y rest two shows)).1 in
        let eh : Half.process_msg s.bbo.off_module (order t false n p)
            ≡ (ret (ok a), short false g.ideal g.max (x ∷ y ∷ rest)) =
          rw h.off_side.shown (
            half_requests false g.ideal g.max n p t offs x y rest k h.off_side.ladder hle hn f two
              hl there) in
        let ep =
          bbo_updated false (entry_of y)
            (bbo_after false a (short false g.ideal g.max (x ∷ y ∷ rest)) s.bbo)
            (showing false g.ideal g.max offs')
            (process_updt-showing false g.ideal g.max x y rest hl
                (behind_one false g.ideal g.max x y rest hl there)
              ∙ ap (λ ls. ret (showing false g.ideal g.max ls)) (sym two)) in
        let run =
          with_update orders g.ops s (order t false n p) _ _ (showing false g.ideal g.max offs')
            (spread bids offs') (entry_of y) el a eh refl
            (quotes s.bbo.bid_entry a.entry bids offs' h.bid_side.quoted first offers_apart)
            (L2-second m x y rest two shows) ep in
        (
          _,
          run ∙ quoted_at s.bbo.bid_entry a.entry bids offs' _ h.bid_side.quoted first,
          book-Keeps m _ a.entry shows refl first,
        )

  -- Shares of an offer that go, with a price on a tick.
  pub takes_offs :
      (s : Book M N) (bids offs : Ladder) (t : ItchMsgType) (n p : ℕ)
      → Keeps g s bids offs
      → kind_of t ≡ Kind.reduces
      → p % 50 ≡ 0
      → 0 < n
      → n ≤ shares_of p offs
      → (s' : Book M N) × (handed_on orders g s (order t false n p)
          ≡ (ret (ok (quote_at bids (take_off n p offs))), s'))
        × Keeps g s' bids (take_off n p offs)
  takes_offs s bids offs t n p h k tick hn hle = elim (Bool-cases (frees n p offs)) [
    | inl f ↦ takes_with_update s bids offs t n p h hn hle k tick f
    | inr f ↦ takes_calmly s bids offs t n p h hn hle k tick f
  ]
