-- ===== src/Top/HardwareIdeal.antt =====
-- `Top` over the memories of the hardware, `L3Memory` and `L2Memory`, and `Top` over ideal ones.
use nasdaq_itch_parser_order.Prelude.{
  ℕ, ◌%◌, ◌≡◌, ◌≢◌, refl, sym, ap, ◌∙◌, Bool, true, false, List, [], inl, inr,
}
use nasdaq_itch_parser_order.Prelude.Int.{ℤ}
use nasdaq_itch_parser_order.Dict.{Dict}
use nasdaq_itch_parser_order.Mapping
use nasdaq_itch_parser_order.Mapping.{Mapping}
use nasdaq_itch_parser_order.Structs.{Outcome-cases, ret, raised, value_error, Str, L3Entry}
use nasdaq_itch_parser_order.Axis.{Cycle}
use nasdaq_itch_parser_order.Control
use nasdaq_itch_parser_order.L3.Memory as OrderMemory
use nasdaq_itch_parser_order.L3.Memory.{L3Memory}
use nasdaq_itch_parser_order.L2.Memory as LevelMemory
use nasdaq_itch_parser_order.L2.Memory.{L2Memory}
use nasdaq_itch_parser_order.L2.Levels
use nasdaq_itch_parser_order.L2.Levels.{PriceMemory}
use nasdaq_itch_parser_order.Book
use nasdaq_itch_parser_order.Book.{Book}
use nasdaq_itch_parser_order.Book.Hardware.{memory_setting}
use nasdaq_itch_parser_order.Book.Sound.{sound}
use nasdaq_itch_parser_order.Book.Ledger.{PricedIn}
use nasdaq_itch_parser_order.Book.Twins.{hard_l3, SomeTwins, process_msg-Twins}
use nasdaq_itch_parser_order.Book.TwinRuns.{start-Twins}
use nasdaq_itch_parser_order.Top
use nasdaq_itch_parser_order.Top.{Top, Run, init_params}
use nasdaq_itch_parser_order.Top.Driver.{drive}
use nasdaq_itch_parser_order.Top.Lockstep.{Duo, with_book, SuitsCycles}
use nasdaq_itch_parser_order.Top.Lockstep.Runs.{drive-RunTogether}

abbrev pub HardTop : Type 0
HardTop = Top L3Memory L2Memory

abbrev pub IdealTop : Type 0
IdealTop = Top (Dict L3Entry) (Dict ℤ)

abbrev pub new_hard_top : HardTop
new_hard_top = Top.init false OrderMemory.init LevelMemory.init

abbrev pub new_ideal_top : IdealTop
new_ideal_top = Top.init true [] []

-- an initialised pipeline
abbrev pub opened : {M N : Type 0} → Str → Str → Top M N → Book M N → Top M N
opened market_code stock_symbol s b = record s {
  ctrl = (Control.init_params market_code stock_symbol s.ctrl).1;
  book = b;
  initialized = true;
}

-- a new pipeline that is initialised without an error
pub init_params-opened :
    {M N : Type 0} (orders : Mapping M L3Entry) (levels : PriceMemory N)
    (market_code stock_symbol : Str) (price_base : ℕ) (ideal : Bool) (m : M) (n : N) (s : Top M N)
    → init_params orders levels market_code stock_symbol price_base (Top.init ideal m n)
      ≡ (ret false, s)
    → (b : Book M N) × (Book.init_params levels price_base (Book.init ideal m n) ≡ ret b)
      × (s ≡ opened market_code stock_symbol (Top.init ideal m n) b)
unfolding init_params Control.init_params
init_params-opened orders levels market_code stock_symbol price_base ideal m n s h =
    elim (Outcome-cases (Book.init_params levels price_base (Book.init ideal m n))) [
      | inl (b, e) ↦ (b, e, sym (ap (λ r. r.1) (rw (init_params, e) at h)))
      | inr (x, e) ↦ absurd (cc (ap (λ r. r.0) (rw (init_params, e) at h)))
    ]

module _ (price_base : ℕ) (tick : price_base % 50 ≡ 0) where
  -- A message for the book is sound for the ideal one, has its price in the range of the array, and
  -- finds room in the hash table.
  abbrev pub hardware_duo : Duo L3Memory L2Memory (Dict L3Entry) (Dict ℤ)
  hardware_duo = record {
    orders = OrderMemory.memory_ops;
    levels = LevelMemory.memory_ops;
    orders' = Mapping.dict_ops;
    levels' = Levels.dict_ops;
    Pair = SomeTwins price_base tick;
    Suits = λ h i msg.
        (sound i.l3 msg ≡ true)
        × PricedIn (memory_setting price_base tick).InRange msg
        × ((hard_l3 h msg).0 ≢ raised value_error);
    step = λ h i msg p h'. process_msg-Twins price_base tick h i p.0 p.1 msg p.2 h'.0 h'.1 h'.2;
  }

  -- Two new pipelines, over the memories of the hardware and over ideal ones, both initialised without
  -- an error with a base price on a tick, and any cycles on the bus, where each message that reaches the
  -- book suits: the results are the same, in the same order, and an exception stops both or none.
  pub drive-ideal :
      (market_code stock_symbol : Str) (h : HardTop) (i : IdealTop) (cycles : List Cycle)
      → init_params OrderMemory.memory_ops LevelMemory.memory_ops market_code stock_symbol
          price_base new_hard_top
        ≡ (ret false, h)
      → init_params Mapping.dict_ops Levels.dict_ops market_code stock_symbol price_base
          new_ideal_top
        ≡ (ret false, i)
      → SuitsCycles hardware_duo cycles h i.book
      → ((drive OrderMemory.memory_ops LevelMemory.memory_ops cycles h).results
          ≡ (drive Mapping.dict_ops Levels.dict_ops cycles i).results)
        × ((drive OrderMemory.memory_ops LevelMemory.memory_ops cycles h).outcome
            ≡ (drive Mapping.dict_ops Levels.dict_ops cycles i).outcome)
  drive-ideal market_code stock_symbol h i cycles eh ei suits =
      let (bh, oh, sh) =
        init_params-opened OrderMemory.memory_ops LevelMemory.memory_ops market_code stock_symbol
          price_base false OrderMemory.init LevelMemory.init h eh in
      let (bi, oi, si) =
        init_params-opened Mapping.dict_ops Levels.dict_ops market_code stock_symbol price_base true
          [] [] i ei in
      let twins = start-Twins price_base tick bh bi oh oi in
      let pair : SomeTwins price_base tick h.book i.book = rw (sh, si) ([], [], twins) in
      let other : i ≡ with_book h i.book = rw (sh, si) refl in
      let (b, same, _) = drive-RunTogether hardware_duo cycles h i.book pair suits in
      let run = ap (λ s. drive Mapping.dict_ops Levels.dict_ops cycles s) other ∙ same in
      (sym (ap (λ r. r.results) run), sym (ap (λ r. r.outcome) run))
