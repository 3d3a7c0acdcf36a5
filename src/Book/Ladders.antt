-- ===== src/Book/Ladders.antt =====
-- `Book.process_msg` behind L3: a ladder of levels on each side, and shares that come in.
use mathlib.Core.Path.{subst}
use nasdaq_itch_parser_order.Prelude.{
  ℕ, Bool, ◌-◌, ◌==◌, Bool-cases, inr, ◌+◌, ◌%◌, ◌<◌, ◌≡◌, refl, ap, ◌∙◌, true, false, Option, some,
  arith, take, map, inl,
}
use nasdaq_itch_parser_order.Mapping.{Mapping}
use nasdaq_itch_parser_order.Structs.{
  Outcome, ret, ok, BboEntry, ItchMsgType, DownstreamOrderMsg, L3Entry,
}
use nasdaq_itch_parser_order.Bbo.Half
use nasdaq_itch_parser_order.Bbo.Half.{BboHalf, Kind, kind_of, answer, better}
use nasdaq_itch_parser_order.Bbo.Ladder.{Ladder, IsLadder, place, take_off, shares_of}
use nasdaq_itch_parser_order.Bbo.Adds.{showing, entry_of, order, process_msg-adds}
use nasdaq_itch_parser_order.Bbo
use nasdaq_itch_parser_order.Bbo.{Bbo, Quote, half}
use nasdaq_itch_parser_order.L2.Order.{same_price}
use nasdaq_itch_parser_order.L2.Refines.{Shows, process_msg-adds_shares}
use nasdaq_itch_parser_order.L2.Accepts.{Accepted, level, more}
use nasdaq_itch_parser_order.L2.Sides.{shares_of-place, shares_of-take_off}
use nasdaq_itch_parser_order.Book
use nasdaq_itch_parser_order.Book.{Book}
use nasdaq_itch_parser_order.Book.Setting.{Setting}
use nasdaq_itch_parser_order.Book.Sides.{
  best, SideShown, place-SideShown, Uncrossed, spread, spread_of-best,
}
use nasdaq_itch_parser_order.Book.Steps.{answer-best, answer-calm, without_update}

-- the shares at each price, of both sides together
abbrev pub levels_of : Ladder → Ladder → ℕ → ℕ
levels_of bids offs k = shares_of k bids + shares_of k offs

-- the memory of L2 shows the shares by price
abbrev pub Displays : {N : Type 0} → Setting N → N → (ℕ → ℕ) → Type 0
Displays g = Shows g.ops g.InRange g.IsValid g.view g.laws

-- The book keeps a ladder of bids and a ladder of offers, all at prices in the range.
pub record Keeps {M N : Type 0} (g : Setting N) (s : Book M N) (bids offs : Ladder) : Type 0 where
  pub ready : s.l2.range ≡ some (g.base, g.max)
  pub ideal : s.l2.ideal ≡ g.ideal
  pub bid_side : SideShown true g.ideal g.base s.l2.bids s.bbo.bid_module s.bbo.bid_entry bids
  pub uncrossed : Uncrossed bids offs
  pub off_side : SideShown false g.ideal g.max s.l2.offs s.bbo.off_module s.bbo.off_entry offs
  pub shares : Displays g s.l2.memory (levels_of bids offs)
  pub bids_in : (q : ℕ) → 0 < shares_of q bids → g.InRange q
  pub offs_in : (q : ℕ) → 0 < shares_of q offs → g.InRange q

pub shows_same :
    {N : Type 0} (g : Setting N) (m : N) (t u : ℕ → ℕ)
    → ((k : ℕ) → t k ≡ u k)
    → Displays g m t
    → Displays g m u
shows_same g m t u e h = (h.0, λ k hk. h.1 k hk ∙ ap (λ (n : ℕ). level n) (e k))

-- the prices of a ladder stay in the range when shares come in at one of the range, or go
pub place-InRange :
    {N : Type 0} (g : Setting N) (c : Bool) (n p : ℕ) (ls : Ladder)
    → IsLadder c ls
    → g.InRange p
    → ((q : ℕ) → 0 < shares_of q ls → g.InRange q)
    → (q : ℕ) → 0 < shares_of q (place c n p ls)
    → g.InRange q
place-InRange g c n p ls h hp all q hq = elim (Bool-cases (p == q)) [
  | inl e ↦ subst g.InRange (same_price p q e) hp
  | inr e ↦
      let same : shares_of q (place c n p ls) ≡ shares_of q ls =
        rw e at (shares_of-place c q n p ls h) in
      all q (omega (arith, same, hq))
]

pub take_off-InRange :
    {N : Type 0} (g : Setting N) (c : Bool) (n p : ℕ) (ls : Ladder)
    → IsLadder c ls
    → ((q : ℕ) → 0 < shares_of q ls → g.InRange q)
    → (q : ℕ) → 0 < shares_of q (take_off n p ls)
    → g.InRange q
take_off-InRange g c n p ls h all q hq = elim (Bool-cases (p == q)) [
  | inl e ↦
      let less : shares_of q (take_off n p ls) ≡ shares_of q ls - n =
        rw e at (shares_of-take_off c q n p ls h) in
      all q (omega (arith, less, hq))
  | inr e ↦
      let same : shares_of q (take_off n p ls) ≡ shares_of q ls =
        rw e at (shares_of-take_off c q n p ls h) in
      all q (omega (arith, same, hq))
]

more_bids :
    (n p : ℕ) (bids offs : Ladder)
    → IsLadder true bids
    → (k : ℕ) → more (levels_of bids offs) n p k ≡ levels_of (place true n p bids) offs k
more_bids n p bids offs h k = ground (arith, shares_of-place true k n p bids h)

more_offs :
    (n p : ℕ) (bids offs : Ladder)
    → IsLadder false offs
    → (k : ℕ) → more (levels_of bids offs) n p k ≡ levels_of bids (place false n p offs) k
more_offs n p bids offs h k = ground (arith, shares_of-place false k n p offs h)

pub quotes :
    (e e' : Option BboEntry) (bids offs : Ladder)
    → e ≡ best bids
    → e' ≡ best offs
    → Uncrossed bids offs
    → Bbo.spread_of e e' ≡ ret (spread bids offs)
quotes e e' bids offs h h' u = rw (h, h') (spread_of-best bids offs u)

abbrev pub quote_at : Ladder → Ladder → Quote
quote_at bids offs = record {
  bid_entry = best bids;
  off_entry = best offs;
  spread = spread bids offs;
}

-- a quote of the two best levels
pub quoted_at :
    {M N : Type 0} (e e' : Option BboEntry) (bids offs : Ladder) (s : Book M N)
    → e ≡ best bids
    → e' ≡ best offs
    → ◌≡◌ {A = Outcome Book.BookResult × Book M N}
        (ret (ok (record { bid_entry = e; off_entry = e'; spread = spread bids offs })), s)
        (ret (ok (quote_at bids offs)), s)
quoted_at e e' bids offs s h h' = rw (h, h') refl

pub accepts :
    {M N : Type 0} (g : Setting N) (s : Book M N) (bids offs : Ladder) (n p : ℕ)
    → Keeps g s bids offs
    → p % 50 ≡ 0
    → 0 < n
    → g.InRange p
    → Accepted s.l2 n p
accepts g s bids offs n p h tick hn hp = record {
  base = g.base;
  max = g.max;
  ready = h.ready;
  tick = tick;
  within = elim (g.window p hp) [ inl e ↦ inl (h.ideal ∙ e) | inr e ↦ inr e ];
  shares = hn;
}

module _ {M N : Type 0} (orders : Mapping M L3Entry) (g : Setting N) where
  abbrev pub handed_on : Book M N → DownstreamOrderMsg → Outcome Book.BookResult × Book M N
  handed_on s msg = Book.after_l3 orders g.ops (ret (ok msg)) s

  -- Shares that come in as bids, with a price on a tick, where the book is then not crossed.
  pub adds_bids :
      (s : Book M N) (bids offs : Ladder) (t : ItchMsgType) (n p : ℕ)
      → Keeps g s bids offs
      → kind_of t ≡ Kind.adds
      → p % 50 ≡ 0
      → 0 < n
      → g.InRange p
      → Uncrossed (place true n p bids) offs
      → (s' : Book M N) × (handed_on s (order t true n p)
          ≡ (ret (ok (quote_at (place true n p bids) offs)), s'))
        × Keeps g s' (place true n p bids) offs
  adds_bids s bids offs t n p h k tick hn hp hu =
      let (m, e, shows) =
        process_msg-adds_shares g.ops g.InRange g.IsValid g.view g.laws s.l2 (levels_of bids offs) t
          true n p k (accepts g s bids offs n p h tick hn hp) hp h.shares in
      let bids' = place true n p bids in
      let a = answer (map entry_of (take 2 bids')) false 0 in
      let half' = showing true g.ideal g.base bids' in
      let eh : Half.process_msg s.bbo.bid_module (order t true n p) ≡ (ret (ok a), half') =
        rw h.bid_side.shown (process_msg-adds true g.ideal g.base n p t bids k) in
      let run =
        without_update orders g.ops s (order t true n p) _ half' (spread bids' offs) e a eh
          (answer-calm bids')
          (quotes a.entry s.bbo.off_entry bids' offs (answer-best bids') h.off_side.quoted hu) in
      (
        _,
        run ∙ quoted_at a.entry s.bbo.off_entry bids' offs _ (answer-best bids') h.off_side.quoted,
        record {
          ready = h.ready;
          ideal = h.ideal;
          uncrossed = hu;
          bid_side =
              place-SideShown true g.ideal g.base n p s.l2.bids _ _ bids h.bid_side hn half' a.entry
                refl (answer-best bids');
          off_side = h.off_side;
          shares = shows_same g m _ _ (more_bids n p bids offs h.bid_side.ladder) shows;
          bids_in = place-InRange g true n p bids h.bid_side.ladder hp h.bids_in;
          offs_in = h.offs_in;
        },
      )

  -- Shares that come in as offers, with a price on a tick, where the book is then not crossed.
  pub adds_offs :
      (s : Book M N) (bids offs : Ladder) (t : ItchMsgType) (n p : ℕ)
      → Keeps g s bids offs
      → kind_of t ≡ Kind.adds
      → p % 50 ≡ 0
      → 0 < n
      → g.InRange p
      → Uncrossed bids (place false n p offs)
      → (s' : Book M N) × (handed_on s (order t false n p)
          ≡ (ret (ok (quote_at bids (place false n p offs))), s'))
        × Keeps g s' bids (place false n p offs)
  adds_offs s bids offs t n p h k tick hn hp hu =
      let (m, e, shows) =
        process_msg-adds_shares g.ops g.InRange g.IsValid g.view g.laws s.l2 (levels_of bids offs) t
          false n p k (accepts g s bids offs n p h tick hn hp) hp h.shares in
      let offs' = place false n p offs in
      let a = answer (map entry_of (take 2 offs')) false 0 in
      let half' = showing false g.ideal g.max offs' in
      let eh : Half.process_msg s.bbo.off_module (order t false n p) ≡ (ret (ok a), half') =
        rw h.off_side.shown (process_msg-adds false g.ideal g.max n p t offs k) in
      let run =
        without_update orders g.ops s (order t false n p) _ half' (spread bids offs') e a eh
          (answer-calm offs')
          (quotes s.bbo.bid_entry a.entry bids offs' h.bid_side.quoted (answer-best offs') hu) in
      (
        _,
        run ∙ quoted_at s.bbo.bid_entry a.entry bids offs' _ h.bid_side.quoted (answer-best offs'),
        record {
          ready = h.ready;
          ideal = h.ideal;
          uncrossed = hu;
          bid_side = h.bid_side;
          off_side =
              place-SideShown false g.ideal g.max n p s.l2.offs _ _ offs h.off_side hn half' a.entry
                refl (answer-best offs');
          shares = shows_same g m _ _ (more_offs n p bids offs h.off_side.ladder) shows;
          bids_in = h.bids_in;
          offs_in = place-InRange g false n p offs h.off_side.ladder hp h.offs_in;
        },
      )
