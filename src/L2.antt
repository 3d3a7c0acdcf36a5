-- ===== src/L2.antt =====
-- `L2` of src/ref_model/l2_price_table.py: the price table, over the memory that it is given.
pub mod Levels
pub mod Hash
pub mod Memory
pub mod Accepts
pub mod Refines
pub mod Order
pub mod Query
pub mod Sides
use nasdaq_itch_parser_order.Prelude.{
  ℕ, ◌+◌, ◌-◌, ◌*◌, ◌%◌, Bool, true, false, not, ◌||◌, ◌&&◌, Option, none, some, List, [], ltb, leb,
  ◌==◌, if◌then◌else◌, length, get_elem?,
}
use nasdaq_itch_parser_order.Prelude.IntSets.{elem, set_add, set_remove, nlargest, nsmallest}
use nasdaq_itch_parser_order.Prelude.Int.{ℤ, pos, ◌+ℤ◌, ◌-ℤ◌}
use nasdaq_itch_parser_order.Params.{config}
use nasdaq_itch_parser_order.Mapping.{or_raise}
use nasdaq_itch_parser_order.Structs.{
  Outcome, ret, raised, ◌>>=◌, assertion_error, index_error, ModuleResult, ok, fail,
  l2_not_initialized, price_not_on_tick, ItchMsgType, DownstreamOrderMsg, BboEntry,
}
use nasdaq_itch_parser_order.L2.Levels.{PriceMemory}

-- `range` is `price_base` and `price_max`, which are set together with `initialized`.
pub record L2 (M : Type 0) : Type 0 where
  pub range : Option (ℕ × ℕ)
  pub ideal : Bool
  pub memory : M
  pub bids : List ℕ
  pub offs : List ℕ

abbrev pub init : {M : Type 0} → Bool → M → L2 M
init ideal memory = record { range = none; ideal = ideal; memory = memory; bids = []; offs = [] }

-- a class of results that hold nothing but the error
abbrev pub L2OrderResult : Type 0
L2OrderResult = ModuleResult (Unit {0})

-- `int(...) == 0`
abbrev pub is_zero : ℤ → Bool
is_zero (pos n) = n == 0
is_zero _ = false

-- `self.bids` or `self.offs`
abbrev pub side : {M : Type 0} → Bool → L2 M → List ℕ
side true s = s.bids
side false s = s.offs

abbrev pub with_side : {M : Type 0} → Bool → List ℕ → L2 M → L2 M
with_side true prices s = record s { bids = prices }
with_side false prices s = record s { offs = prices }

module _ {M : Type 0} (ops : PriceMemory M) where
  unfoldable pub init_params : ℕ → L2 M → Outcome (L2 M)
  init_params price_base s = elim s.range [
    | some r ↦ raised assertion_error
    | none ↦
        let price_max = price_base + 50 * (config.l2_mem_size - 1) in
        ((if s.ideal then ret s.memory else ops.init_params price_base s.memory) >>= λ memory.
        ret (record s { range = some (price_base, price_max); memory = memory }))
  ]

  -- a write or a `del` of the memory, and what is done behind it
  abbrev pub and_then :
      Outcome M → L2 M → (L2 M → Outcome L2OrderResult × L2 M) → Outcome L2OrderResult × L2 M
  and_then (raised e) s rest = (raised e, s)
  and_then (ret memory) s rest = rest (record s { memory = memory })

  -- the shares that ADD and REPLACE write
  abbrev pub new_level : ℕ → ℕ → Bool → M → Outcome ℤ
  new_level price shares true memory = ops.get_item price memory >>= λ old. ret (old +ℤ pos shares)
  new_level price shares false memory = ret (pos shares)

  unfoldable pub add_shares : Bool → ℕ → ℕ → L2 M → Outcome L2OrderResult × L2 M
  add_shares is_buy shares price s =
      and_then
        (ops.has_key price s.memory >>= λ present.
          new_level price shares present s.memory >>= λ level. ops.set_item price level s.memory)
        s (λ s'. (ret (ok tt), with_side is_buy (set_add price (side is_buy s')) s'))

  -- behind the write: the assertion on the side, and the removal of an empty level from it
  abbrev pub drop_level : Bool → ℕ → Bool → L2 M → Outcome L2OrderResult × L2 M
  drop_level is_buy price empty s =
      if not (elem price (side is_buy s))
      then (raised assertion_error, s)
      else if empty
      then (ret (ok tt), with_side is_buy (set_remove price (side is_buy s)) s)
      else (ret (ok tt), s)

  unfoldable pub write_level : Bool → ℕ → ℤ → L2 M → Outcome L2OrderResult × L2 M
  write_level is_buy price new_shares s =
      and_then
        (if is_zero new_shares
          then ops.del_item price s.memory
          else ops.set_item price new_shares s.memory)
        s (drop_level is_buy price (is_zero new_shares))

  -- on `price in self.memory`, which is asserted
  abbrev pub reduce_at : Bool → ℕ → ℕ → Outcome Bool → L2 M → Outcome L2OrderResult × L2 M
  reduce_at is_buy shares price (raised e) s = (raised e, s)
  reduce_at is_buy shares price (ret false) s = (raised assertion_error, s)
  reduce_at is_buy shares price (ret true) s = elim (ops.get_item price s.memory) [
    | raised e ↦ (raised e, s)
    | ret old ↦ write_level is_buy price (old -ℤ pos shares) s
  ]

  unfoldable pub reduce_shares : Bool → ℕ → ℕ → L2 M → Outcome L2OrderResult × L2 M
  reduce_shares is_buy shares price s = reduce_at is_buy shares price (ops.has_key price s.memory) s

  -- the `match`, which passes over other message types
  unfoldable pub change : DownstreamOrderMsg → L2 M → Outcome L2OrderResult × L2 M
  unfolding add_shares reduce_shares
  change msg s = elim msg.msg_type [
    | ItchMsgType.add ↦ add_shares msg.is_buy msg.shares msg.price s
    | ItchMsgType.replace ↦ add_shares msg.is_buy msg.shares msg.price s
    | ItchMsgType.reduce ↦ reduce_shares msg.is_buy msg.shares msg.price s
    | ItchMsgType.delete ↦ reduce_shares msg.is_buy msg.shares msg.price s
    | _ ↦ (ret (ok tt), s)
  ]

  -- a price out of range: ignored, or refused where it is better than all of the range
  abbrev pub out_of_range : Bool → ℕ → ℕ → ℕ → Outcome L2OrderResult
  out_of_range is_buy price price_base price_max =
      if is_buy && ltb price_max price
      then raised assertion_error
      else if not is_buy && ltb price price_base
      then raised assertion_error
      else ret (ok tt)

  abbrev pub process_at : Option (ℕ × ℕ) → L2 M → DownstreamOrderMsg → Outcome L2OrderResult × L2 M
  process_at none s msg = (ret (fail l2_not_initialized), s)
  process_at (some (price_base, price_max)) s msg =
      if not (msg.price % 50 == 0)
      then (ret (fail price_not_on_tick), s)
      else if not s.ideal && (ltb msg.price price_base || ltb price_max msg.price)
      then (out_of_range msg.is_buy msg.price price_base price_max, s)
      else if not (ltb 0 msg.shares)
      then (raised assertion_error, s)
      else change msg s

  unfoldable pub process_msg : L2 M → DownstreamOrderMsg → Outcome L2OrderResult × L2 M
  unfolding change
  process_msg s msg = process_at s.range s msg

  -- `sorted_keys[get_idx]` and the shares there
  abbrev pub updt_at : List ℕ → M → Outcome BboEntry
  updt_at sorted_keys memory =
      or_raise index_error (get_elem? sorted_keys (config.bbo_depth - 1)) >>= λ price.
      ops.get_item price memory >>= λ shares. ret (record { shares = shares; price = price })

  unfoldable pub get_updt : L2 M → Bool → Outcome (ModuleResult BboEntry)
  get_updt s is_buy =
      let get_idx = config.bbo_depth - 1 in
      let prices = side is_buy s in
      let sorted_keys =
        if is_buy then nlargest (get_idx + 1) prices else nsmallest (get_idx + 1) prices in
      if not (ltb get_idx (length prices))
      then raised assertion_error
      else (updt_at sorted_keys s.memory >>= λ entry. ret (ok entry))
