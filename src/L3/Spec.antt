-- ===== src/L3/Spec.antt =====
-- What the order table promises: the live orders as a function of the order id, with no limit on
-- their number.
use nasdaq_itch_parser_order.Prelude.{ℕ, ◌-◌, Bool, Option, none, some, ltb, ◌==◌, if◌then◌else◌}
use nasdaq_itch_parser_order.Structs.{
  Outcome, ret, raised, assertion_error, ok, fail, add_with_existing_order_id,
  reduce_of_missing_order_id, negative_shares_after_reducing, delete_of_missing_order_id,
  replace_with_existing_order_id, ItchMsg, ItchMsgType, add_order_msg, reduce_order_msg,
  delete_order_msg, replace_order_msg, L3Entry,
}
use nasdaq_itch_parser_order.L3.{L3Result, downstream}

abbrev pub Orders : Type 0
Orders = ℕ → Option L3Entry

pub record Table : Type 0 where
  pub orders : Orders
  pub last : Option Bool

abbrev pub update : ℕ → Option L3Entry → Orders → Orders
update k o f j = if k == j then o else f j

abbrev pub book : ItchMsgType → ℕ → L3Entry → Table → Outcome L3Result × Table
book t k e w =
    (ret (ok (downstream t e e.shares)), record w { orders = update k (some e) w.orders })

abbrev pub opened : ℕ → Option L3Entry → L3Entry → Table → Outcome L3Result × Table
opened k (some _) e w = (ret (fail add_with_existing_order_id), w)
opened k none e w = book ItchMsgType.add k e w

abbrev pub reduced : ℕ → Option L3Entry → ℕ → Table → Outcome L3Result × Table
reduced k none n w = (ret (fail reduce_of_missing_order_id), w)
reduced k (some old) n w =
    let left = if n == old.shares then none else some (record old { shares = old.shares - n }) in
    if ltb old.shares n then (ret (fail negative_shares_after_reducing), w) else (
      ret (ok (downstream ItchMsgType.reduce old n)),
      record w { orders = update k left w.orders },
    )

abbrev pub closed : ℕ → Option L3Entry → Table → Outcome L3Result × Table
closed k none w = (ret (fail delete_of_missing_order_id), w)
closed k (some old) w = (
  ret (ok (downstream ItchMsgType.delete old old.shares)),
  record { orders = update k none w.orders; last = some old.is_buy },
)

-- A replacing order stands on the side of the order that was deleted last.
abbrev pub replaced : ℕ → Option L3Entry → Option Bool → ℕ → ℕ → Table → Outcome L3Result × Table
replaced k (some _) side n p w = (ret (fail replace_with_existing_order_id), w)
replaced k none none n p w = (raised assertion_error, w)
replaced k none (some is_buy) n p w =
    book ItchMsgType.replace k (record { is_buy = is_buy; shares = n; price = p }) w

unfoldable pub step : Table → ItchMsg → Outcome L3Result × Table
step w (add_order_msg _ k is_buy n p) =
    opened k (w.orders k) (record { is_buy = is_buy; shares = n; price = p }) w
step w (reduce_order_msg _ k n) = reduced k (w.orders k) n w
step w (delete_order_msg _ k) = closed k (w.orders k) w
step w (replace_order_msg _ k n p) = replaced k (w.orders k) w.last n p w
step w msg = (raised assertion_error, w)
