-- ===== src/Bbo.antt =====
-- `BBO` of src/ref_model/bbo.py: the two sides, and the spread between them.
pub mod Half
pub mod Ladder
pub mod Adds
pub mod Lowering
pub mod Reduces
pub mod Update
use nasdaq_itch_parser_order.Prelude.{
  ℕ, ◌+◌, ◌-◌, ◌*◌, Bool, true, false, not, Option, none, some, if◌then◌else◌, List, [], ◌∷◌,
}
use nasdaq_itch_parser_order.Prelude.Int.{ℤ, pos, ◌-ℤ◌, ltb_ℤ}
use nasdaq_itch_parser_order.Params.{config}
use nasdaq_itch_parser_order.Structs.{
  Outcome, ret, raised, ◌>>=◌, assertion_error, ModuleResult, ok, error, ErrorText, Prefix,
  bid_prefix, off_prefix, forward_error, DownstreamOrderMsg, BboEntry,
}
use nasdaq_itch_parser_order.Bbo.Half
use nasdaq_itch_parser_order.Bbo.Half.{BboHalf}

pub record Bbo : Type 0 where
  pub bid_module : BboHalf
  pub off_module : BboHalf
  pub bid_entry : Option BboEntry
  pub off_entry : Option BboEntry
  pub initialized : Bool

abbrev pub init : Bool → Bbo
init ideal = record {
  bid_module = Half.init true ideal;
  off_module = Half.init false ideal;
  bid_entry = none;
  off_entry = none;
  initialized = false;
}

unfoldable pub init_params : ℕ → Bbo → Outcome Bbo
init_params price_base s =
    let price_max = price_base + 50 * (config.l2_mem_size - 1) in
    if s.initialized
    then raised assertion_error
    else ret (record s {
      initialized = true;
      bid_module = Half.init_params price_base s.bid_module;
      off_module = Half.init_params price_max s.off_module;
    })

pub record Quote : Type 0 where
  pub bid_entry : Option BboEntry
  pub off_entry : Option BboEntry
  pub spread : Option ℤ

pub record Reply : Type 0 where
  pub quote : Quote
  pub updt_req : Bool
  pub updt_req_is_buy : Bool
  pub updt_req_mask_enc : ℕ

abbrev pub BboResult : Type 0
BboResult = ModuleResult Reply

-- `off_entry.price - bid_entry.price`, which is asserted to be positive
unfoldable pub spread_of : Option BboEntry → Option BboEntry → Outcome (Option ℤ)
spread_of (some bid) (some off) =
    let spread = pos off.price -ℤ pos bid.price in
    if not (ltb_ℤ (pos 0) spread) then raised assertion_error else ret (some spread)
spread_of bid off = ret none

-- from `spread = None` on
abbrev pub respond : Bool → Half.Answer → Bbo → Outcome BboResult
respond is_buy a s = spread_of s.bid_entry s.off_entry >>= λ spread. ret (
    ok (record {
      quote = record { bid_entry = s.bid_entry; off_entry = s.off_entry; spread = spread };
      updt_req = a.updt_req;
      updt_req_is_buy = is_buy;
      updt_req_mask_enc = a.updt_req_mask_enc;
    }))

-- `self.bid_module` and `self.off_module`
abbrev pub half : Bool → Bbo → BboHalf
half true s = s.bid_module
half false s = s.off_module

abbrev pub with_half : Bool → BboHalf → Bbo → Bbo
with_half true h s = record s { bid_module = h }
with_half false h s = record s { off_module = h }

abbrev pub with_entry : Bool → Option BboEntry → Bbo → Bbo
with_entry true entry s = record s { bid_entry = entry }
with_entry false entry s = record s { off_entry = entry }

abbrev pub side_prefix : Bool → Prefix
side_prefix true = bid_prefix
side_prefix false = off_prefix

abbrev pub finish : Bool → Outcome Half.BboHalfResult × BboHalf → Bbo → Outcome BboResult × Bbo
finish is_buy (raised e, h) s = (raised e, with_half is_buy h s)
finish is_buy (ret (error text), h) s =
    (ret (error (forward_error (side_prefix is_buy) text)), with_half is_buy h s)
finish is_buy (ret (ok a), h) s =
    let s' = with_entry is_buy a.entry (with_half is_buy h s) in (respond is_buy a s', s')

unfoldable pub process_msg : Bbo → DownstreamOrderMsg → Outcome BboResult × Bbo
unfolding spread_of
process_msg s msg = finish msg.is_buy (Half.process_msg (half msg.is_buy s) msg) s

unfoldable pub process_updt : Bool → BboEntry → Bbo → Outcome Bbo
process_updt is_buy entry s =
    Half.process_updt (half is_buy s) entry >>= λ h. ret (with_half is_buy h s)
