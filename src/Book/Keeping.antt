-- ===== src/Book/Keeping.antt =====
-- `Book.process_msg` behind L3, for either side and every type of order.
use nasdaq_itch_parser_order.Prelude.{
  ℕ, ◌+◌, ◌*◌, ◌%◌, ◌≤◌, ◌<◌, ◌≡◌, refl, Bool, true, false, ◌⊎◌, inl, inr, [], none, some, sym, ap,
  ◌∙◌, if◌then◌else◌, arith,
}
use nasdaq_itch_parser_order.Mapping.{Mapping}
use nasdaq_itch_parser_order.Structs.{Outcome, ret, ok, ItchMsgType, L3Entry}
use nasdaq_itch_parser_order.Bbo
use nasdaq_itch_parser_order.Bbo.Half
use nasdaq_itch_parser_order.Bbo.Half.{Kind, kind_of}
use nasdaq_itch_parser_order.Bbo.Ladder.{Ladder, place, take_off, shares_of, total}
use nasdaq_itch_parser_order.Bbo.Adds.{order}
use nasdaq_itch_parser_order.L2
use nasdaq_itch_parser_order.L2.Accepts.{level}
use nasdaq_itch_parser_order.L3
use nasdaq_itch_parser_order.Book
use nasdaq_itch_parser_order.Book.{Book}
use nasdaq_itch_parser_order.Book.Setting.{Setting}
use nasdaq_itch_parser_order.Book.Sides.{Uncrossed, SideShown}
use nasdaq_itch_parser_order.Book.Ladders.{
  levels_of, Keeps, quote_at, handed_on, adds_bids, adds_offs,
}
use nasdaq_itch_parser_order.Book.Takes.{takes_bids}
use nasdaq_itch_parser_order.Book.TakesOffers.{takes_offs}

-- what a message makes of the ladder of its side
abbrev pub changed : Kind → Bool → (shares price : ℕ) → Ladder → Ladder
changed Kind.adds c n p ls = place c n p ls
changed Kind.reduces c n p ls = take_off n p ls
changed Kind.other c n p ls = ls

abbrev pub bids_after : Kind → Bool → (shares price : ℕ) → Ladder → Ladder
bids_after k true n p bids = changed k true n p bids
bids_after k false n p bids = bids

abbrev pub offs_after : Kind → Bool → (shares price : ℕ) → Ladder → Ladder
offs_after k true n p offs = offs
offs_after k false n p offs = changed k false n p offs

abbrev pub own : Bool → Ladder → Ladder → Ladder
own true bids offs = bids
own false bids offs = offs

-- shares come in, or at most those of the price go, and the book is then not crossed
abbrev pub Fitting : Kind → Bool → (shares price : ℕ) → Ladder → Ladder → Type 0
Fitting Kind.adds b n p bids offs =
    Uncrossed (bids_after Kind.adds b n p bids) (offs_after Kind.adds b n p offs)
Fitting Kind.reduces b n p bids offs = n ≤ shares_of p (own b bids offs)
Fitting Kind.other b n p bids offs = Unit {0}

-- A message from L3 for a book that keeps a ladder on each side, all in the range of the setting: with
-- a price on a tick and in the range, of at least one share, that comes in without crossing the book,
-- or that takes at most the shares of its price. L2 and BBO together, the update included, return the
-- quote of the best bid and offer of the changed ladders, and the book keeps these: no assertion
-- fails.
pub handed_on-Keeps :
    {M N : Type 0} (orders : Mapping M L3Entry) (g : Setting N) (s : Book M N) (bids offs : Ladder)
    (t : ItchMsgType) (b : Bool) (n p : ℕ) (k : Kind)
    → Keeps g s bids offs
    → kind_of t ≡ k
    → (k ≡ Kind.adds) ⊎ (k ≡ Kind.reduces)
    → p % 50 ≡ 0
    → 0 < n
    → g.InRange p
    → Fitting k b n p bids offs
    → (s' : Book M N) × (handed_on orders g s (order t b n p)
        ≡ (ret (ok (quote_at (bids_after k b n p bids) (offs_after k b n p offs))), s'))
      × Keeps g s' (bids_after k b n p bids) (offs_after k b n p offs)
handed_on-Keeps orders g s bids offs t true n p Kind.adds h ht hk tick hn hp fit =
    adds_bids orders g s bids offs t n p h ht tick hn hp fit
handed_on-Keeps orders g s bids offs t false n p Kind.adds h ht hk tick hn hp fit =
    adds_offs orders g s bids offs t n p h ht tick hn hp fit
handed_on-Keeps orders g s bids offs t true n p Kind.reduces h ht hk tick hn hp fit =
    takes_bids orders g s bids offs t n p h ht tick hn fit
handed_on-Keeps orders g s bids offs t false n p Kind.reduces h ht hk tick hn hp fit =
    takes_offs orders g s bids offs t n p h ht tick hn fit
handed_on-Keeps orders g s bids offs t b n p Kind.other h ht (inl e) tick hn hp fit = absurd cc
handed_on-Keeps orders g s bids offs t b n p Kind.other h ht (inr e) tick hn hp fit = absurd cc

empty_side :
    (c ideal : Bool) (bound : ℕ)
    → SideShown c ideal bound [] (Half.init_params bound (Half.init c ideal)) none []
unfolding total
empty_side c ideal bound = record {
  ladder = tt;
  distinct = tt;
  listed = λ q. refl;
  shown = refl;
  quoted = refl;
}

no_level : (k : ℕ) → none ≡ level (levels_of [] [] k)
unfolding shares_of
no_level k = refl

nothing_in : {N : Type 0} (g : Setting N) (q : ℕ) → 0 < shares_of q [] → g.InRange q
unfolding shares_of
nothing_in g q h = absurd (omega arith)

-- the memory of L2 behind the initialisation
abbrev pub memory_after : {N : Type 0} → Setting N → N → Outcome N
memory_after g m = if g.ideal then ret m else g.ops.init_params g.base m

-- A new book, initialised with the base price of the setting, over a memory that is then empty and
-- valid: it keeps two empty ladders.
pub init_params-Keeps :
    {M N : Type 0} (g : Setting N) (orders : M) (m m' : N)
    → g.max ≡ g.base + 50 * 2047
    → memory_after g m ≡ ret m'
    → g.IsValid m'
    → ((k : ℕ) → g.InRange k → g.view m' k ≡ none)
    → (s : Book M N) × (Book.init_params g.ops g.base (Book.init g.ideal orders m) ≡ ret s)
      × (s.l3 ≡ L3.init orders)
      × Keeps g s [] []
unfolding Book.init_params L2.init_params Bbo.init_params
init_params-Keeps g orders m m' hm e valid empty = (
  record {
    l3 = L3.init orders;
    l2 = record {
      range = some (g.base, g.base + 50 * 2047);
      ideal = g.ideal;
      memory = m';
      bids = [];
      offs = [];
    };
    bbo = record {
      bid_module = Half.init_params g.base (Half.init true g.ideal);
      off_module = Half.init_params (g.base + 50 * 2047) (Half.init false g.ideal);
      bid_entry = none;
      off_entry = none;
      initialized = true;
    };
    initialized = false;
  },
  rw e refl,
  refl,
  record {
    ready = ap (λ (x : ℕ). some (g.base, x)) (sym hm);
    ideal = refl;
    uncrossed = tt;
    bid_side = empty_side true g.ideal g.base;
    off_side = rw hm (empty_side false g.ideal (g.base + 50 * 2047));
    shares = (valid, λ k hk. empty k hk ∙ no_level k);
    bids_in = nothing_in g;
    offs_in = nothing_in g;
  },
)
