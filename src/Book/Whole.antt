-- ===== src/Book/Whole.antt =====
-- The book as a whole: its ladders are the sums over the live orders.
use nasdaq_itch_parser_order.Prelude.{
  ℕ, ◌≡◌, refl, sym, ap, ◌∙◌, Bool, true, false, if◌then◌else◌, inl, inr, ◌⊎◌,
}
use nasdaq_itch_parser_order.Mapping.{Mapping, dict_ops}
use nasdaq_itch_parser_order.Structs.{
  Outcome, Outcome-cases, ret, raised, ModuleResult, ok, error, ErrorText, forward_error, l3_prefix,
  ItchMsg, L3Entry, DownstreamOrderMsg, BboEntry,
}
use nasdaq_itch_parser_order.L3
use nasdaq_itch_parser_order.L3.{L3}
use nasdaq_itch_parser_order.L2
use nasdaq_itch_parser_order.L2.Levels.{PriceMemory}
use nasdaq_itch_parser_order.Bbo
use nasdaq_itch_parser_order.Bbo.Ladder.{Ladder, shares_of}
use nasdaq_itch_parser_order.Bbo.Adds.{order}
use nasdaq_itch_parser_order.Book
use nasdaq_itch_parser_order.Book.{Book}
use nasdaq_itch_parser_order.Book.Setting.{Setting}
use nasdaq_itch_parser_order.Book.Ladders.{Keeps, quote_at}
use nasdaq_itch_parser_order.Book.Keeping.{bids_after, offs_after, own, handed_on-Keeps}
use nasdaq_itch_parser_order.Book.Orders.{Orders, resting, DistinctKeys, AllFair}
use nasdaq_itch_parser_order.Book.Sound.{sound}
use nasdaq_itch_parser_order.Book.Ledger.{Ledger, PricedIn, AllIn, Sends, l3_call}
use nasdaq_itch_parser_order.Book.Answers.{Ledger-answers}

-- nothing behind L3 touches its state
module _ {M N : Type 0} (orders : Mapping M L3Entry) (levels : PriceMemory N) where
  update-l3 :
      (q : Bbo.Quote) (b : Bool) (r : Outcome (ModuleResult BboEntry)) (s : Book M N)
      → (Book.update orders levels q b r s).1.l3 ≡ s.l3
  update-l3 q b (raised e) s = refl
  update-l3 q b (ret (error text)) s = refl
  update-l3 q b (ret (ok entry)) s = elim (Outcome-cases (Bbo.process_updt b entry s.bbo)) [
    | inl (bbo, h) ↦ rw (Book.update, h) refl
    | inr (x, h) ↦ rw (Book.update, h) refl
  ]

  if_l3 :
      (c : Bool) (x y : Outcome Book.BookResult × Book M N) (l : L3 M)
      → x.1.l3 ≡ l
      → y.1.l3 ≡ l
      → (if c then x else y).1.l3 ≡ l
  if_l3 true x y l h h' = h
  if_l3 false x y l h h' = h'

  after_bbo-l3 :
      (r : Outcome Bbo.BboResult) (s : Book M N) → (Book.after_bbo orders levels r s).1.l3 ≡ s.l3
  after_bbo-l3 (raised e) s = refl
  after_bbo-l3 (ret (error text)) s = refl
  after_bbo-l3 (ret (ok r)) s =
      if_l3 r.updt_req _ _ s.l3
        (update-l3 r.quote r.updt_req_is_buy (L2.get_updt levels s.l2 r.updt_req_is_buy) s) refl

  after_l2-l3 :
      (msg : DownstreamOrderMsg) (r : Outcome L2.L2OrderResult) (s : Book M N)
      → (Book.after_l2 orders levels msg r s).1.l3 ≡ s.l3
  after_l2-l3 msg (raised e) s = refl
  after_l2-l3 msg (ret (error text)) s = refl
  after_l2-l3 msg (ret (ok _)) s = after_bbo-l3 (Bbo.process_msg s.bbo msg).0 _

  pub after_l3-l3 :
      (r : Outcome L3.L3Result) (s : Book M N) → (Book.after_l3 orders levels r s).1.l3 ≡ s.l3
  after_l3-l3 (raised e) s = refl
  after_l3-l3 (ret (error text)) s = refl
  after_l3-l3 (ret (ok msg)) s = after_l2-l3 msg (L2.process_msg levels s.l2 msg).0 _

pub with_l3 :
    {M N : Type 0} (g : Setting N) (s : Book M N) (bids offs : Ladder) (l : L3 M)
    → Keeps g s bids offs
    → Keeps g (record s { l3 = l }) bids offs
with_l3 g s bids offs l h = record {
  ready = h.ready;
  ideal = h.ideal;
  bid_side = h.bid_side;
  uncrossed = h.uncrossed;
  off_side = h.off_side;
  shares = h.shares;
  bids_in = h.bids_in;
  offs_in = h.offs_in;
}

pub all_in :
    {M N : Type 0} (g : Setting N) (s : Book M N) (bids offs : Ladder)
    → Keeps g s bids offs
    → AllIn g.InRange bids offs
all_in g s bids offs h true q hq = h.bids_in q hq
all_in g s bids offs h false q hq = h.offs_in q hq

-- the ladders behind an order that is sent on
abbrev pub bids_then :
    {l : L3 Orders} {msg : ItchMsg} {bids offs : Ladder} → Sends l msg bids offs → Ladder
bids_then {bids} x = bids_after x.kind x.is_buy x.shares x.price bids

abbrev pub offs_then :
    {l : L3 Orders} {msg : ItchMsg} {bids offs : Ladder} → Sends l msg bids offs → Ladder
offs_then {offs} x = offs_after x.kind x.is_buy x.shares x.price offs

module _ {M N : Type 0} (orders : Mapping M L3Entry) (g : Setting N) where
  -- a book, over any order table, whose table sends on what the ideal one sends
  pub process_msg-Sends :
      (s : Book M N) (l : L3 Orders) (l' : L3 M) (msg : ItchMsg) (bids offs : Ladder)
      (x : Sends l msg bids offs)
      → Keeps g s bids offs
      → PricedIn g.InRange msg
      → L3.process_msg orders s.l3 msg ≡ (ret (ok (order x.type x.is_buy x.shares x.price)), l')
      → (s' : Book M N) × (Book.process_msg orders g.ops s msg
          ≡ (ret (ok (quote_at (bids_then x) (offs_then x))), s'))
        × (s'.l3 ≡ l')
        × Keeps g s' (bids_then x) (offs_then x)
  unfolding Book.process_msg
  process_msg-Sends s l l' msg bids offs x h hp e =
      let msg' = order x.type x.is_buy x.shares x.price in
      let (s', run, keeps) =
        handed_on-Keeps orders g (record s { l3 = l' }) bids offs x.type x.is_buy x.shares x.price
          x.kind (with_l3 g s bids offs l' h) x.kind_is x.known x.tick x.positive
          (x.priced g.InRange hp (all_in g s bids offs h)) x.fitting in
      (
        s',
        ap (λ o. Book.after_l3 orders g.ops o.0 (record s { l3 = o.1 })) e ∙ run,
        ap (λ o. o.1.l3) (sym run)
            ∙ after_l3-l3 orders g.ops (ret (ok msg')) (record s { l3 = l' }),
        keeps,
      )

  pub process_msg-refused :
      (s : Book M N) (msg : ItchMsg) (text : ErrorText) (l' : L3 M)
      → L3.process_msg orders s.l3 msg ≡ (ret (error text), l')
      → Book.process_msg orders g.ops s msg
        ≡ (ret (error (forward_error l3_prefix text)), record s { l3 = l' })
  unfolding Book.process_msg
  process_msg-refused s msg text l' e =
      ap (λ o. Book.after_l3 orders g.ops o.0 (record s { l3 = o.1 })) e

-- The orders, the levels and the best entries are of one and the same book.
pub record Whole {N : Type 0} (g : Setting N) (s : Book Orders N) (bids offs : Ladder)
    : Type 0 where
  pub keeps : Keeps g s bids offs
  pub distinct : DistinctKeys s.l3.memory
  pub fair : AllFair s.l3.memory
  pub sums : (b : Bool) (p : ℕ) → shares_of p (own b bids offs) ≡ resting b p s.l3.memory

module _ {N : Type 0} (g : Setting N) where
  abbrev pub book_call : Book Orders N → ItchMsg → Outcome Book.BookResult × Book Orders N
  book_call s msg = Book.process_msg dict_ops g.ops s msg

  -- L3 answers an error, which the book forwards, and the book is as before.
  pub record Refuses (s : Book Orders N) (msg : ItchMsg) : Type 0 where
    pub text : ErrorText
    pub answer : (l3_call s.l3 msg).0 ≡ ret (error text)
    pub call : book_call s msg ≡ (ret (error (forward_error l3_prefix text)), s)

  -- The book quotes the best levels of the ladders that it then keeps, with the orders of L3.
  pub record Quotes (s : Book Orders N) (msg : ItchMsg) : Type 0 where
    pub bids : Ladder
    pub offs : Ladder
    pub after : Book Orders N
    pub call : book_call s msg ≡ (ret (ok (quote_at bids offs)), after)
    pub orders : after.l3 ≡ (l3_call s.l3 msg).1
    pub whole : Whole g after bids offs

  pub Whole-Ledger :
      (s : Book Orders N) (bids offs : Ladder) → Whole g s bids offs → Ledger s.l3 bids offs
  Whole-Ledger s bids offs w = record {
    bids_ladder = w.keeps.bid_side.ladder;
    offs_ladder = w.keeps.off_side.ladder;
    uncrossed = w.keeps.uncrossed;
    distinct = w.distinct;
    fair = w.fair;
    sums = w.sums;
  }

  -- the book has the orders that L3 has left
  pub Keeps-Whole :
      (s' : Book Orders N) (l : L3 Orders) (bids offs : Ladder)
      → s'.l3 ≡ l
      → Keeps g s' bids offs
      → DistinctKeys l.memory
      → AllFair l.memory
      → ((c : Bool) (q : ℕ) → shares_of q (own c bids offs) ≡ resting c q l.memory)
      → Whole g s' bids offs
  Keeps-Whole s' l bids offs same keeps hd hf sums = record {
    keeps = keeps;
    distinct = rw same hd;
    fair = rw same hf;
    sums = λ c q. sums c q ∙ ap (λ (x : L3 Orders). resting c q x.memory) (sym same);
  }

  pub process_msg-Quotes :
      (s : Book Orders N) (bids offs : Ladder) (msg : ItchMsg)
      → Whole g s bids offs
      → PricedIn g.InRange msg
      → Sends s.l3 msg bids offs
      → Quotes s msg
  process_msg-Quotes s bids offs msg w hp x =
      let (s', e, same, keeps) =
        process_msg-Sends dict_ops g s s.l3 x.after msg bids offs x w.keeps hp x.answer in
      record {
        bids = bids_then x;
        offs = offs_then x;
        after = s';
        call = e;
        orders = same ∙ sym (ap (λ o. o.1) x.answer);
        whole =
            Keeps-Whole s' x.after (bids_then x) (offs_then x) same keeps x.distinct x.fair x.sums;
      }

  -- A sound book message, its price in the range of the setting, for a book over a dict of orders whose
  -- ladders are the sums over its orders: either L3 answers an error, which the call forwards, and the
  -- book is unchanged; or the call returns the quote of the best bid and offer of the ladders that are
  -- then the sums over the orders that L3 has left.
  pub process_msg-Whole :
      (s : Book Orders N) (bids offs : Ladder) (msg : ItchMsg)
      → Whole g s bids offs
      → sound s.l3 msg ≡ true
      → PricedIn g.InRange msg
      → Refuses s msg ⊎ Quotes s msg
  process_msg-Whole s bids offs msg w h hp =
      elim (Ledger-answers s.l3 bids offs msg (Whole-Ledger s bids offs w) h) [
        | inl r ↦ inl (record {
          text = r.text;
          answer = ap (λ o. o.0) r.answer;
          call = process_msg-refused dict_ops g s msg r.text s.l3 r.answer;
        })
        | inr x ↦ inr (process_msg-Quotes s bids offs msg w hp x)
      ]
