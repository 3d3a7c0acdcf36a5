-- ===== src/Book/Ledger.antt =====
-- The order table of the ideal model, the ladders that are the sums over its orders, and what it sends
-- on.
use nasdaq_itch_parser_order.Prelude.{
  ℕ, ◌+◌, ◌%◌, ◌≤◌, ◌<◌, ◌≡◌, refl, sym, ap, ◌∙◌, Bool, true, false, arith, ◌==◌, if◌then◌else◌,
  inl, inr, ◌⊎◌, Bool-cases, none, some,
}
use nasdaq_itch_parser_order.Dict
use nasdaq_itch_parser_order.Mapping.{dict_ops}
use nasdaq_itch_parser_order.Structs.{
  Outcome, ret, ok, error, ErrorText, ItchMsg, ItchMsgType, L3Entry, add_order_msg,
  replace_order_msg,
}
use nasdaq_itch_parser_order.L3
use nasdaq_itch_parser_order.L3.{L3, L3Result}
use nasdaq_itch_parser_order.L2.Sides.{shares_of-place, shares_of-take_off}
use nasdaq_itch_parser_order.Bbo.Half.{Kind, kind_of}
use nasdaq_itch_parser_order.Bbo.Ladder.{Ladder, IsLadder, take_off, shares_of}
use nasdaq_itch_parser_order.Bbo.Adds.{order}
use nasdaq_itch_parser_order.Book.Sides.{Uncrossed}
use nasdaq_itch_parser_order.Book.Keeping.{bids_after, offs_after, own, Fitting}
use nasdaq_itch_parser_order.Book.Orders.{
  Orders, part, resting, DistinctKeys, AllFair, AllFair-lookup, resting_covers, resting-insert_new,
  insert-DistinctKeys, insert-AllFair,
}
use nasdaq_itch_parser_order.Book.Sound.{may_rest, may_rest-Fitting, may_rest_parts}

abbrev pub entry : Bool → (shares price : ℕ) → L3Entry
entry b n p = record { is_buy = b; shares = n; price = p }

-- a message from L3 changes the shares of its own side and price alone
pub shares_after-adds :
    (b c : Bool) (n p q : ℕ) (bids offs : Ladder)
    → IsLadder true bids
    → IsLadder false offs
    → shares_of q (own c (bids_after Kind.adds b n p bids) (offs_after Kind.adds b n p offs))
      ≡ shares_of q (own c bids offs) + part c q (entry b n p)
shares_after-adds true true n p q bids offs h h' = ground (arith, shares_of-place true q n p bids h)
shares_after-adds true false n p q bids offs h h' = omega arith
shares_after-adds false true n p q bids offs h h' = omega arith
shares_after-adds false false n p q bids offs h h' =
    ground (arith, shares_of-place false q n p offs h')

lowered_part :
    (b : Bool) (n p q : ℕ) (ls : Ladder)
    → IsLadder b ls
    → n ≤ shares_of p ls
    → shares_of q (take_off n p ls) + (if q == p then n else 0) ≡ shares_of q ls
lowered_part b n p q ls h fits = elim (Bool-cases (q == p)) [
  | inr w ↦ ground (arith, shares_of-take_off b q n p ls h)
  | inl w ↦ let e : q ≡ p = ground arith in rw e (ground (arith, shares_of-take_off b p n p ls h))
]

pub shares_after-reduces :
    (b c : Bool) (n p q : ℕ) (bids offs : Ladder)
    → IsLadder true bids
    → IsLadder false offs
    → n ≤ shares_of p (own b bids offs)
    → shares_of q (own c (bids_after Kind.reduces b n p bids) (offs_after Kind.reduces b n p offs))
        + part c q (entry b n p)
      ≡ shares_of q (own c bids offs)
shares_after-reduces true true n p q bids offs h h' fits = lowered_part true n p q bids h fits
shares_after-reduces true false n p q bids offs h h' fits = omega arith
shares_after-reduces false true n p q bids offs h h' fits = omega arith
shares_after-reduces false false n p q bids offs h h' fits = lowered_part false n p q offs h' fits

-- The ladders are the sums over the live orders.
pub record Ledger (l : L3 Orders) (bids offs : Ladder) : Type 0 where
  pub bids_ladder : IsLadder true bids
  pub offs_ladder : IsLadder false offs
  pub uncrossed : Uncrossed bids offs
  pub distinct : DistinctKeys l.memory
  pub fair : AllFair l.memory
  pub sums : (b : Bool) (p : ℕ) → shares_of p (own b bids offs) ≡ resting b p l.memory

abbrev pub l3_call : L3 Orders → ItchMsg → Outcome L3Result × L3 Orders
l3_call l msg = L3.process_msg dict_ops l msg

-- the price of a message that has one
abbrev pub PricedIn : (ℕ → Type 0) → ItchMsg → Type 0
PricedIn P (add_order_msg _ _ _ _ p) = P p
PricedIn P (replace_order_msg _ _ _ p) = P p
PricedIn P _ = Unit {0}

abbrev pub AllIn : (ℕ → Type 0) → Ladder → Ladder → Type 0
AllIn P bids offs = (b : Bool) (q : ℕ) → 0 < shares_of q (own b bids offs) → P q

-- The table answers an error, and is as before.
pub record Refusal (l : L3 Orders) (msg : ItchMsg) : Type 0 where
  pub text : ErrorText
  pub answer : l3_call l msg ≡ (ret (error text), l)

-- The table sends an order on that fits the ladders, which change with it.
pub record Sends (l : L3 Orders) (msg : ItchMsg) (bids offs : Ladder) : Type 1 where
  pub type : ItchMsgType
  pub is_buy : Bool
  pub shares : ℕ
  pub price : ℕ
  pub kind : Kind
  pub after : L3 Orders
  pub answer : l3_call l msg ≡ (ret (ok (order type is_buy shares price)), after)
  pub kind_is : kind_of type ≡ kind
  pub known : (kind ≡ Kind.adds) ⊎ (kind ≡ Kind.reduces)
  pub tick : price % 50 ≡ 0
  pub positive : 0 < shares
  pub fitting : Fitting kind is_buy shares price bids offs
  pub priced : (P : ℕ → Type 0) → PricedIn P msg → AllIn P bids offs → P price
  pub distinct : DistinctKeys after.memory
  pub fair : AllFair after.memory
  pub sums :
      (c : Bool) (q : ℕ)
      → shares_of q (
          own c
            (bids_after kind is_buy shares price bids)
            (offs_after kind is_buy shares price offs))
        ≡ resting c q after.memory

-- an order comes in: from an ADD, or with the side of the order that was deleted last
pub stores :
    (l : L3 Orders) (bids offs : Ladder) (msg : ItchMsg) (t : ItchMsgType) (k : ℕ) (b : Bool)
    (n p : ℕ)
    → Ledger l bids offs
    → may_rest b n p l.memory ≡ true
    → kind_of t ≡ Kind.adds
    → ((P : ℕ → Type 0) → PricedIn P msg → P p)
    → Dict.lookup k l.memory ≡ none
    → l3_call l msg
      ≡ (ret (ok (order t b n p)), record l { memory = Dict.insert k (entry b n p) l.memory })
    → Sends l msg bids offs
stores l bids offs msg t k b n p w hs ht priced fresh h =
    let (hn, tick, hc) = may_rest_parts b n p l.memory hs in
    record {
      type = t;
      is_buy = b;
      shares = n;
      price = p;
      kind = Kind.adds;
      after = record l { memory = Dict.insert k (entry b n p) l.memory };
      answer = h;
      kind_is = ht;
      known = inl refl;
      tick = tick;
      positive = hn;
      fitting =
          may_rest-Fitting b n p bids offs l.memory w.bids_ladder w.offs_ladder w.uncrossed w.sums
            hc;
      priced = λ P hp all. priced P hp;
      distinct = insert-DistinctKeys k (entry b n p) l.memory w.distinct;
      fair = insert-AllFair k (entry b n p) l.memory (hn, tick) w.fair;
      sums = λ c q.
          shares_after-adds b c n p q bids offs w.bids_ladder w.offs_ladder
          ∙ ap (λ (x : ℕ). x + part c q (entry b n p)) (w.sums c q)
          ∙ sym (resting-insert_new c q k (entry b n p) l.memory fresh);
    }

-- an order loses shares: what is left of it is in the table, or it has left it
pub lowers :
    (l : L3 Orders) (bids offs : Ladder) (msg : ItchMsg) (t : ItchMsgType) (k n : ℕ) (old : L3Entry)
    (l' : L3 Orders)
    → Ledger l bids offs
    → kind_of t ≡ Kind.reduces
    → Dict.lookup k l.memory ≡ some old
    → 0 < n
    → n ≤ old.shares
    → l3_call l msg ≡ (ret (ok (order t old.is_buy n old.price)), l')
    → DistinctKeys l'.memory
    → AllFair l'.memory
    → ((c : Bool) (q : ℕ)
        → resting c q l'.memory + part c q (entry old.is_buy n old.price) ≡ resting c q l.memory)
    → Sends l msg bids offs
lowers l bids offs msg t k n old l' w ht there hn fits h hd hf sums =
    let fair = AllFair-lookup k old l.memory w.fair there in
    let covered : n ≤ shares_of old.price (own old.is_buy bids offs) =
      omega (arith, w.sums old.is_buy old.price, resting_covers k old l.memory there) in
    record {
      type = t;
      is_buy = old.is_buy;
      shares = n;
      price = old.price;
      kind = Kind.reduces;
      after = l';
      answer = h;
      kind_is = ht;
      known = inr refl;
      tick = fair.1;
      positive = hn;
      fitting = covered;
      priced = λ P _ all. all old.is_buy old.price (omega (arith, hn, covered));
      distinct = hd;
      fair = hf;
      sums = λ c q. omega (
        arith,
        shares_after-reduces old.is_buy c n old.price q bids offs w.bids_ladder w.offs_ladder
            covered,
        w.sums c q,
        sums c q,
      );
    }
