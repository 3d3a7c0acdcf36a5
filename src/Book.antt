-- ===== src/Book.antt =====
-- src/ref_model/book.py: the order table, the price table and the best bid and offer together.
pub mod Setting
pub mod Sides
pub mod Steps
pub mod Ladders
pub mod Apart
pub mod ApartOffers
pub mod Takes
pub mod TakesOffers
pub mod Keeping
pub mod Twice
pub mod Orders
pub mod Sound
pub mod Ledger
pub mod Answers
pub mod Whole
pub mod Check
pub mod Passes
pub mod Hardware
pub mod Reachable
pub mod Clears
pub mod Twins
pub mod TwinRuns
use nasdaq_itch_parser_order.Prelude.{ℕ, Bool, false, if◌then◌else◌}
use nasdaq_itch_parser_order.Mapping.{Mapping}
use nasdaq_itch_parser_order.Structs.{
  Outcome, ret, raised, ◌>>=◌, assertion_error, ModuleResult, ok, error, forward_error, l3_prefix,
  l2_msg_prefix, l2_updt_prefix, bbo_prefix, ItchMsg, L3Entry, DownstreamOrderMsg, BboEntry,
}
use nasdaq_itch_parser_order.L3
use nasdaq_itch_parser_order.L3.{L3}
use nasdaq_itch_parser_order.L2
use nasdaq_itch_parser_order.L2.{L2}
use nasdaq_itch_parser_order.L2.Levels.{PriceMemory}
use nasdaq_itch_parser_order.Bbo
use nasdaq_itch_parser_order.Bbo.{Bbo, Quote, Reply}

pub record Book (M N : Type 0) : Type 0 where
  pub l3 : L3 M
  pub l2 : L2 N
  pub bbo : Bbo
  pub initialized : Bool

abbrev pub init : {M N : Type 0} → Bool → M → N → Book M N
init ideal orders levels = record {
  l3 = L3.init orders;
  l2 = L2.init ideal levels;
  bbo = Bbo.init ideal;
  initialized = false;
}

-- `initialized` is not set: the second call is stopped by `L2.init_params`.
unfoldable pub init_params : {M N : Type 0} → PriceMemory N → ℕ → Book M N → Outcome (Book M N)
init_params levels price_base s =
    if s.initialized
    then raised assertion_error
    else (L2.init_params levels price_base s.l2 >>= λ l2.
        Bbo.init_params price_base s.bbo >>= λ bbo. ret (record s { l2 = l2; bbo = bbo }))

abbrev pub BookResult : Type 0
BookResult = ModuleResult Quote

module _ {M N : Type 0} (orders : Mapping M L3Entry) (levels : PriceMemory N) where
  -- `process_updt` with the entry that L2 gives
  abbrev pub update :
      Quote → Bool → Outcome (ModuleResult BboEntry) → Book M N → Outcome BookResult × Book M N
  update quote is_buy (raised e) s = (raised e, s)
  update quote is_buy (ret (error text)) s = (ret (error (forward_error l2_updt_prefix text)), s)
  update quote is_buy (ret (ok entry)) s = elim (Bbo.process_updt is_buy entry s.bbo) [
    | raised e ↦ (raised e, s)
    | ret bbo ↦ (ret (ok quote), record s { bbo = bbo })
  ]

  -- from the answer of BBO on
  abbrev pub after_bbo : Outcome Bbo.BboResult → Book M N → Outcome BookResult × Book M N
  after_bbo (raised e) s = (raised e, s)
  after_bbo (ret (error text)) s = (ret (error (forward_error bbo_prefix text)), s)
  after_bbo (ret (ok r)) s =
      if r.updt_req
      then update r.quote r.updt_req_is_buy (L2.get_updt levels s.l2 r.updt_req_is_buy) s
      else (ret (ok r.quote), s)

  -- from the answer of L2 on
  abbrev pub after_l2 :
      DownstreamOrderMsg → Outcome L2.L2OrderResult → Book M N → Outcome BookResult × Book M N
  after_l2 msg (raised e) s = (raised e, s)
  after_l2 msg (ret (error text)) s = (ret (error (forward_error l2_msg_prefix text)), s)
  after_l2 msg (ret (ok _)) s =
      let r = Bbo.process_msg s.bbo msg in after_bbo r.0 (record s { bbo = r.1 })

  -- from the answer of L3 on
  abbrev pub after_l3 : Outcome L3.L3Result → Book M N → Outcome BookResult × Book M N
  after_l3 (raised e) s = (raised e, s)
  after_l3 (ret (error text)) s = (ret (error (forward_error l3_prefix text)), s)
  after_l3 (ret (ok msg)) s =
      let r = L2.process_msg levels s.l2 msg in after_l2 msg r.0 (record s { l2 = r.1 })

  unfoldable pub process_msg : Book M N → ItchMsg → Outcome BookResult × Book M N
  process_msg s msg = let r = L3.process_msg orders s.l3 msg in after_l3 r.0 (record s { l3 = r.1 })
