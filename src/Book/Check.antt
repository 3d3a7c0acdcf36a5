-- ===== src/Book/Check.antt =====
-- `Book.assert_consistent_state` of src/ref_model/book.py: the levels rebuilt from the orders, and the
-- best entries from the levels. `dict(m)` is a parameter for each memory.
use nasdaq_itch_parser_order.Prelude.{
  ℕ, Bool, true, false, ◌&&◌, Option, none, some, List, [], ◌∷◌, min, leb, ◌==◌, if◌then◌else◌,
  length,
}
use nasdaq_itch_parser_order.Prelude.IntSets.{nlargest, nsmallest}
use nasdaq_itch_parser_order.Prelude.Int.{ℤ, pos, negsuc, ◌+ℤ◌}
use nasdaq_itch_parser_order.Params.{config}
use nasdaq_itch_parser_order.Dict
use nasdaq_itch_parser_order.Dict.{Dict}
use nasdaq_itch_parser_order.Structs.{
  Outcome, ret, raised, ◌>>=◌, ◌>>◌, assertion_error, type_error, BboEntry, L3Entry,
}
use nasdaq_itch_parser_order.L2.{L2}
use nasdaq_itch_parser_order.L2.Levels.{PriceMemory}
use nasdaq_itch_parser_order.Book.{Book}

-- `dict(m)` of a `MutableMapping`: its keys in order, each with `m[key]`
abbrev pub dict_from : {M V : Type 0} → (ℕ → M → Outcome V) → M → List ℕ → Outcome (Dict V)
dict_from get_item m [] = ret []
dict_from get_item m (key ∷ keys) =
    let rest = dict_from get_item m keys in
    get_item key m >>= λ v. rest >>= λ d. ret (Dict.insert key v d)

abbrev pub eq_ℤ : ℤ → ℤ → Bool
eq_ℤ (pos a) (pos b) = a == b
eq_ℤ (negsuc a) (negsuc b) = a == b
eq_ℤ _ _ = false

abbrev pub eq_shares : Option ℤ → Option ℤ → Bool
eq_shares none none = true
eq_shares (some a) (some b) = eq_ℤ a b
eq_shares _ _ = false

-- two dicts have the same value, or none, at each key of a list of items
unfoldable pub agree_on : Dict ℤ → Dict ℤ → Dict ℤ → Bool
agree_on a b [] = true
agree_on a b ((k, v) ∷ items) = eq_shares (Dict.lookup k a) (Dict.lookup k b) && agree_on a b items

-- `a == b` of two dicts: the same keys, with the same values
unfoldable pub dict_eq : Dict ℤ → Dict ℤ → Bool
unfolding agree_on
dict_eq a b = agree_on a b a && agree_on a b b

abbrev pub eq_entries : List BboEntry → List BboEntry → Bool
eq_entries [] [] = true
eq_entries (x ∷ xs) (y ∷ ys) = eq_ℤ x.shares y.shares && (x.price == y.price) && eq_entries xs ys
eq_entries _ _ = false

abbrev pub check : Bool → Outcome (Unit {0})
check true = ret tt
check false = raised assertion_error

-- a comparison with `price_base` or `price_max`, which are `None` before `init_params`
abbrev pub at_range : Option (ℕ × ℕ) → (ℕ × ℕ → Bool) → Outcome Bool
at_range none test = raised type_error
at_range (some r) test = ret (test r)

-- `d.get(k, 0)`
abbrev pub get_or_zero : Option ℤ → ℤ
get_or_zero none = pos 0
get_or_zero (some v) = v

module _ {N : Type 0} (s : L2 N) where
  -- `self.l2.ideal or (entry.price >= price_base and entry.price <= price_max)`
  abbrev pub is_counted : ℕ → Outcome Bool
  is_counted price =
      if s.ideal then ret true else at_range s.range (λ r. leb r.0 price && leb price r.1)

  -- the loop over the orders
  unfoldable pub l2_reconstruct : Dict L3Entry → Dict ℤ → Outcome (Dict ℤ)
  l2_reconstruct [] acc = ret acc
  l2_reconstruct ((_, entry) ∷ orders) acc = is_counted entry.price >>= λ counted.
      l2_reconstruct orders (
        if counted
        then Dict.insert entry.price (get_or_zero (Dict.lookup entry.price acc) +ℤ pos entry.shares)
            acc
        else acc)

  -- `heapq.nlargest(min(l2_bid_size, config.BBO_DEPTH), self.l2.bids)`, or `nsmallest` of the offers
  abbrev pub best_prices : Bool → List ℕ
  best_prices true = nlargest (min (length s.bids) config.bbo_depth) s.bids
  best_prices false = nsmallest (min (length s.offs) config.bbo_depth) s.offs

  -- the bids from `price_base` on, or the offers up to `price_max`
  abbrev pub is_kept : Bool → ℕ → Outcome Bool
  is_kept true price = at_range s.range (λ r. leb r.0 price)
  is_kept false price = at_range s.range (λ r. leb price r.1)

  unfoldable pub entries_in_range : Bool → List BboEntry → Outcome (List BboEntry)
  entries_in_range is_buy [] = ret []
  entries_in_range is_buy (entry ∷ entries) =
      let rest = entries_in_range is_buy entries in
      is_kept is_buy entry.price >>= λ kept.
      rest >>= λ others. ret (if kept then entry ∷ others else others)

module _ {N : Type 0} (levels : PriceMemory N) (s : L2 N) where
  unfoldable pub bbo_reconstruct : List ℕ → Outcome (List BboEntry)
  bbo_reconstruct [] = ret []
  bbo_reconstruct (price ∷ prices) =
      let rest = bbo_reconstruct prices in
      levels.get_item price s.memory >>= λ shares.
      rest >>= λ entries. ret (record { shares = shares; price = price } ∷ entries)

  unfoldable pub assert_side : Bool → List BboEntry → Outcome (Unit {0})
  unfolding bbo_reconstruct entries_in_range
  assert_side is_buy entries = bbo_reconstruct (best_prices s is_buy) >>= λ reconstructed.
      (if s.ideal then ret entries else entries_in_range s is_buy entries) >>= λ kept.
      check (eq_entries reconstructed kept)

module _ {M N : Type 0} (orders_of : M → Outcome (Dict L3Entry)) (levels_of : N → Outcome (Dict ℤ))
    (levels : PriceMemory N) where
  unfoldable pub assert_consistent_state : Book M N → Outcome (Unit {0})
  unfolding l2_reconstruct assert_side
  assert_consistent_state s = orders_of s.l3.memory >>= λ orders.
      l2_reconstruct s.l2 orders [] >>= λ reconstructed. levels_of s.l2.memory >>= λ l2_dict.
      (check (dict_eq reconstructed l2_dict)
        >> (assert_side levels s.l2 true s.bbo.bid_module.entries
            >> assert_side levels s.l2 false s.bbo.off_module.entries))
