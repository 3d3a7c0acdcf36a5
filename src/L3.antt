-- ===== src/L3.antt =====
-- `L3` of src/ref_model/l3_order_table.py: the order table, over the memory that it is given.
pub mod Memory
pub mod Spec
pub mod Refines
pub mod Runs
pub mod Sequences
pub mod Cam
use nasdaq_itch_parser_order.Prelude.{
  ℕ, ◌-◌, Bool, true, false, Option, none, some, ltb, ◌==◌, if◌then◌else◌,
}
use nasdaq_itch_parser_order.Mapping.{Mapping}
use nasdaq_itch_parser_order.Structs.{
  Exn, Outcome, ret, raised, assertion_error, memory_error, ModuleResult, ok, fail,
  add_with_existing_order_id, reduce_of_missing_order_id, negative_shares_after_reducing,
  delete_of_missing_order_id, replace_with_existing_order_id, ItchMsg, ItchMsgType, add_order_msg,
  reduce_order_msg, delete_order_msg, replace_order_msg, DownstreamOrderMsg, L3Entry,
}

pub record L3 (M : Type 0) : Type 0 where
  pub memory : M
  pub last_del_is_buy : Option Bool

abbrev pub init : {M : Type 0} → M → L3 M
init memory = record { memory = memory; last_del_is_buy = none }

abbrev pub L3Result : Type 0
L3Result = ModuleResult DownstreamOrderMsg

-- `except MemoryError as e: return L3Result.error(str(e))`
abbrev pub catch_memory_error : Exn → Outcome L3Result
catch_memory_error (memory_error text) = ret (fail text)
catch_memory_error e = raised e

abbrev pub downstream : ItchMsgType → L3Entry → ℕ → DownstreamOrderMsg
downstream t entry shares = record {
  msg_type = t;
  is_buy = entry.is_buy;
  shares = shares;
  price = entry.price;
}

module _ {M : Type 0} (ops : Mapping M L3Entry) where
  -- the `try` of the ADD and REPLACE cases, and the result behind it
  unfoldable pub store_new : ItchMsgType → ℕ → L3Entry → L3 M → Outcome L3Result × L3 M
  store_new t order_id entry s = elim (ops.set_item order_id entry s.memory) [
    | ret memory ↦ (ret (ok (downstream t entry entry.shares)), record s { memory = memory })
    | raised e ↦ (catch_memory_error e, s)
  ]

  -- a write or a `del` that nothing catches
  unfoldable pub commit : Outcome M → DownstreamOrderMsg → L3 M → Outcome L3Result × L3 M
  commit (ret memory) msg s = (ret (ok msg), record s { memory = memory })
  commit (raised e) msg s = (raised e, s)

  unfoldable pub reduce_entry : ℕ → ℕ → L3Entry → L3 M → Outcome L3Result × L3 M
  unfolding commit
  reduce_entry order_id shares old s =
      let msg = downstream ItchMsgType.reduce old shares in
      if ltb shares old.shares
      then commit (ops.set_item order_id (record old { shares = old.shares - shares }) s.memory) msg
          s
      else if shares == old.shares
      then commit (ops.del_item order_id s.memory) msg s
      else (ret (fail negative_shares_after_reducing), s)

  unfoldable pub delete_entry : ℕ → L3Entry → L3 M → Outcome L3Result × L3 M
  delete_entry order_id old s = elim (ops.del_item order_id s.memory) [
    | ret memory ↦ (
      ret (ok (downstream ItchMsgType.delete old old.shares)),
      record { memory = memory; last_del_is_buy = some old.is_buy },
    )
    | raised e ↦ (raised e, s)
  ]

  -- the rest of the REPLACE case, on `self.last_del_is_buy`, which is asserted to be there
  unfoldable pub replace_entry : ℕ → ℕ → ℕ → Option Bool → L3 M → Outcome L3Result × L3 M
  unfolding store_new
  replace_entry order_id shares price none s = (raised assertion_error, s)
  replace_entry order_id shares price (some is_buy) s =
      store_new ItchMsgType.replace order_id
        (record { is_buy = is_buy; shares = shares; price = price }) s

  -- `old_entry = self.memory[msg.order_id]`, and the rest of the case
  abbrev pub with_entry :
      ℕ → (L3Entry → L3 M → Outcome L3Result × L3 M) → L3 M → Outcome L3Result × L3 M
  with_entry order_id rest s = elim (ops.get_item order_id s.memory) [
    | ret old ↦ rest old s
    | raised e ↦ (raised e, s)
  ]

  unfoldable pub process_msg : L3 M → ItchMsg → Outcome L3Result × L3 M
  unfolding store_new reduce_entry delete_entry replace_entry
  process_msg s (add_order_msg _ order_id is_buy shares price) =
      if ops.has_key order_id s.memory
      then (ret (fail add_with_existing_order_id), s)
      else store_new ItchMsgType.add order_id
          (record { is_buy = is_buy; shares = shares; price = price }) s
  process_msg s (reduce_order_msg _ order_id shares) =
      if ops.has_key order_id s.memory
      then with_entry order_id (reduce_entry order_id shares) s
      else (ret (fail reduce_of_missing_order_id), s)
  process_msg s (delete_order_msg _ order_id) =
      if ops.has_key order_id s.memory
      then with_entry order_id (delete_entry order_id) s
      else (ret (fail delete_of_missing_order_id), s)
  process_msg s (replace_order_msg _ order_id shares price) =
      if ops.has_key order_id s.memory
      then (ret (fail replace_with_existing_order_id), s)
      else replace_entry order_id shares price s.last_del_is_buy s
  process_msg s msg = (raised assertion_error, s)
