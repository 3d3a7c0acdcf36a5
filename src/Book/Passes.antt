-- ===== src/Book/Passes.antt =====
-- `Book.assert_consistent_state` on an ideal book that keeps its ladders and orders.
use nasdaq_itch_parser_order.Prelude.{
  ℕ, zero, suc, ◌+◌, ◌<◌, ◌≡◌, refl, sym, ap, ◌∙◌, Bool, true, false, Option, none, some, List, [],
  ◌∷◌, map, min, arith, take, length, ◌==◌, if◌then◌else◌, inl, inr, Bool-cases, ==_refl, leb,
  take_all,
}
use nasdaq_itch_parser_order.Prelude.IntSets.{elem}
use nasdaq_itch_parser_order.Prelude.Int.{ℤ, pos, negsuc}
use nasdaq_itch_parser_order.Dict
use nasdaq_itch_parser_order.Dict.{Dict}
use nasdaq_itch_parser_order.Structs.{ret, BboEntry, L3Entry}
use nasdaq_itch_parser_order.L2.{L2, side}
use nasdaq_itch_parser_order.L2.Levels
use nasdaq_itch_parser_order.L2.Accepts.{level, level-some}
use nasdaq_itch_parser_order.L2.Order.{IsDistinct, before, sort_by-strict}
use nasdaq_itch_parser_order.L2.Query.{prices, prices-IsStrict, length-sort_by}
use nasdaq_itch_parser_order.Bbo.Ladder.{Level, Ladder, IsLadder, shares_of}
use nasdaq_itch_parser_order.Bbo.Adds.{entry_of, pos_add}
use nasdaq_itch_parser_order.Book.Apart.{none_offered, none_bid, second_shares}
use nasdaq_itch_parser_order.Book.Orders.{Orders, part, resting, AllFair}
use nasdaq_itch_parser_order.Book.Whole.{Whole}
use nasdaq_itch_parser_order.Book.{Book}
use nasdaq_itch_parser_order.Book.Setting.{ideal_setting}
use nasdaq_itch_parser_order.Book.Check.{
  eq_shares, agree_on, dict_eq, eq_entries, get_or_zero, l2_reconstruct, best_prices,
  bbo_reconstruct, assert_side, assert_consistent_state,
}

abbrev pub IdealBook : Type 0
IdealBook = Book Orders (Dict ℤ)

eq_shares_refl : (o : Option ℤ) → eq_shares o o ≡ true
eq_shares_refl none = refl
eq_shares_refl (some (pos a)) = ==_refl a
eq_shares_refl (some (negsuc a)) = ==_refl a

agree_on-same :
    (a b items : Dict ℤ) → ((k : ℕ) → Dict.lookup k a ≡ Dict.lookup k b) → agree_on a b items ≡ true
unfolding agree_on
agree_on-same a b [] h = refl
agree_on-same a b ((k, v) ∷ items) h =
    rw (h k, eq_shares_refl (Dict.lookup k b)) (agree_on-same a b items h)

dict_eq-same : (a b : Dict ℤ) → ((k : ℕ) → Dict.lookup k a ≡ Dict.lookup k b) → dict_eq a b ≡ true
unfolding dict_eq
dict_eq-same a b h = rw (agree_on-same a b a h) (agree_on-same a b b h)

eq_entries_refl : (ls : Ladder) → eq_entries (map entry_of ls) (map entry_of ls) ≡ true
eq_entries_refl [] = refl
eq_entries_refl (l ∷ ls) = rw (==_refl l.shares, ==_refl l.price) (eq_entries_refl ls)

abbrev both : ℕ → Orders → ℕ
both p d = resting true p d + resting false p d

own_price :
    (q : ℕ) (e : L3Entry) → part true q e + part false q e ≡ (if q == e.price then e.shares else 0)
own_price q e = ground arith

value-level : (n : ℕ) → get_or_zero (level n) ≡ pos n
value-level zero = refl
value-level (suc n) = refl

-- the rebuilt levels are the sums over the orders
reconstruct_sums :
    (s : L2 (Dict ℤ)) (d : Orders) (acc : Dict ℤ) (t : ℕ → ℕ)
    → s.ideal ≡ true
    → AllFair d
    → ((q : ℕ) → Dict.lookup q acc ≡ level (t q))
    → (made : Dict ℤ) × (l2_reconstruct s d acc ≡ ret made)
      × ((q : ℕ) → Dict.lookup q made ≡ level (t q + both q d))
unfolding l2_reconstruct resting
reconstruct_sums s [] acc t hi hf h = (acc, refl, λ q. h q ∙ ap (λ (n : ℕ). level n) (omega arith))
reconstruct_sums s ((k, e) ∷ d) acc t hi hf h =
    let p = e.price in
    let (made, run, sums) =
      reconstruct_sums s d (Dict.insert p (pos (t p + e.shares)) acc)
        (λ q. t q + (if q == p then e.shares else 0)) hi hf.1
        (λ q. Dict.lookup-insert p q (pos (t p + e.shares)) acc ∙ elim (Bool-cases (q == p)) [
          | inl w ↦
              let same : q ≡ p = ground arith in
              rw (same, ==_refl p) (sym (level-some (t p + e.shares) (omega (arith, hf.0))))
          | inr w ↦
              let other : (p == q) ≡ false = ground arith in
              rw (w, other) (h q ∙ ap (λ (n : ℕ). level n) (omega arith))
        ]) in
    (
      made,
      rw (hi, h p, value-level (t p), pos_add (t p) e.shares) run,
      λ q. sums q ∙ ap (λ (n : ℕ). level n) (omega (arith, own_price q e)),
    )

-- a list is not longer than its length
take-min : (n : ℕ) (xs : List ℕ) → take (min (length xs) n) xs ≡ take n xs
take-min n xs = elim (Bool-cases (leb (length xs) n)) [
  | inl h ↦ take_all (min (length xs) n) xs (ground arith) ∙ sym (take_all n xs (ground arith))
  | inr h ↦ let e : min (length xs) n ≡ n = ground arith in rw e refl
]

best_prices-ladder :
    (s : L2 (Dict ℤ)) (b : Bool) (ls : Ladder)
    → IsLadder b ls
    → IsDistinct (side b s)
    → ((q : ℕ) → elem q (side b s) ≡ elem q (prices ls))
    → best_prices s b ≡ take 2 (prices ls)
best_prices-ladder s true ls hl hd same =
    let sorted = sort_by-strict true s.bids (prices ls) hd (prices-IsStrict true ls hl) same in
    let many = sym (length-sort_by (before true) s.bids) ∙ ap (λ (xs : List ℕ). length xs) sorted in
    ap (λ (xs : List ℕ). take (min (length s.bids) 2) xs) sorted
    ∙ ap (λ (n : ℕ). take (min n 2) (prices ls)) many
    ∙ take-min 2 (prices ls)
best_prices-ladder s false ls hl hd same =
    let sorted = sort_by-strict false s.offs (prices ls) hd (prices-IsStrict false ls hl) same in
    let many =
      sym (length-sort_by (before false) s.offs) ∙ ap (λ (xs : List ℕ). length xs) sorted in
    ap (λ (xs : List ℕ). take (min (length s.offs) 2) xs) sorted
    ∙ ap (λ (n : ℕ). take (min n 2) (prices ls)) many
    ∙ take-min 2 (prices ls)

pub first_shares : (x : Level) (xs : Ladder) → shares_of x.price (x ∷ xs) ≡ x.shares
unfolding shares_of
first_shares x xs = ground arith

-- the two best levels, read back from the memory
read_back :
    (s : L2 (Dict ℤ)) (b : Bool) (ls : Ladder)
    → IsLadder b ls
    → ((q : ℕ) → 0 < shares_of q ls → Dict.lookup q s.memory ≡ level (shares_of q ls))
    → bbo_reconstruct Levels.dict_ops s (take 2 (prices ls)) ≡ ret (map entry_of (take 2 ls))
unfolding bbo_reconstruct
read_back s b [] hl h = refl
read_back s b (x ∷ []) hl h =
    let e = first_shares x [] in
    let there : Dict.lookup x.price s.memory ≡ some (pos x.shares) =
      h x.price (omega (arith, e, hl.0)) ∙ ap (λ (n : ℕ). level n) e ∙ level-some x.shares hl.0 in
    rw there refl
read_back s b (x ∷ y ∷ rest) hl h =
    let e = first_shares x (y ∷ rest) in
    let e' = second_shares b x y rest hl in
    let there : Dict.lookup x.price s.memory ≡ some (pos x.shares) =
      h x.price (omega (arith, e, hl.0)) ∙ ap (λ (n : ℕ). level n) e ∙ level-some x.shares hl.0 in
    let there' : Dict.lookup y.price s.memory ≡ some (pos y.shares) =
      h y.price (omega (arith, e', hl.2.0))
      ∙ ap (λ (n : ℕ). level n) e'
      ∙ level-some y.shares hl.2.0 in
    rw (there, there') refl

side_passes :
    (s : L2 (Dict ℤ)) (b : Bool) (ls : Ladder) (entries : List BboEntry)
    → s.ideal ≡ true
    → IsLadder b ls
    → IsDistinct (side b s)
    → ((q : ℕ) → elem q (side b s) ≡ elem q (prices ls))
    → ((q : ℕ) → 0 < shares_of q ls → Dict.lookup q s.memory ≡ level (shares_of q ls))
    → entries ≡ map entry_of (take 2 ls)
    → assert_side Levels.dict_ops s b entries ≡ ret tt
unfolding assert_side
side_passes s b ls entries hi hl hd same h e =
    rw
      (
        best_prices-ladder s b ls hl hd same,
        read_back s b ls hl h,
        hi,
        e,
        eq_entries_refl (take 2 ls),
      )
      refl

-- On an ideal book that keeps its orders and ladders, the check finds no fault.
pub assert_consistent_state-passes :
    (price_base : ℕ) (s : IdealBook) (bids offs : Ladder)
    → Whole (ideal_setting price_base) s bids offs
    → assert_consistent_state (λ d. ret d) (λ d. ret d) Levels.dict_ops s ≡ ret tt
unfolding assert_consistent_state Dict.lookup
assert_consistent_state-passes price_base s bids offs w =
    let k = w.keeps in
    let (made, run, sums) =
      reconstruct_sums s.l2 s.l3.memory [] (λ q. 0) k.ideal w.fair (λ q. refl) in
    let levels_same : (q : ℕ) → Dict.lookup q made ≡ Dict.lookup q s.l2.memory = λ q.
      sums q
      ∙ ap (λ (n : ℕ). level n) (omega (arith, w.sums true q, w.sums false q))
      ∙ sym (k.shares.1 q tt) in
    rw
      (
        run,
        dict_eq-same made s.l2.memory levels_same,
        side_passes s.l2 true bids s.bbo.bid_module.entries k.ideal k.bid_side.ladder
            k.bid_side.distinct k.bid_side.listed
            (λ q hq.
              k.shares.1 q tt
              ∙ ap (λ (n : ℕ). level n)
                  (omega (
                    arith,
                    none_offered bids offs q k.bid_side.ladder k.off_side.ladder k.uncrossed hq,
                  )))
            (ap (λ h. h.entries) k.bid_side.shown),
      )
      (side_passes s.l2 false offs s.bbo.off_module.entries k.ideal k.off_side.ladder
        k.off_side.distinct k.off_side.listed
        (λ q hq.
          k.shares.1 q tt
          ∙ ap (λ (n : ℕ). level n)
              (omega
                (arith, none_bid bids offs q k.bid_side.ladder k.off_side.ladder k.uncrossed hq)))
        (ap (λ h. h.entries) k.off_side.shown))
