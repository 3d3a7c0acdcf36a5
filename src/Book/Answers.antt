-- ===== src/Book/Answers.antt =====
-- `L3.process_msg` on each book message, in the ideal model: an error, or an order for L2 and BBO.
use nasdaq_itch_parser_order.Prelude.{
  ℕ, ◌+◌, ◌-◌, ◌≤◌, ◌<◌, ◌≡◌, refl, Bool, true, Option, none, some, arith, ltb, ◌==◌, inl, inr, ◌⊎◌,
  Bool-cases, Option-cases,
}
use nasdaq_itch_parser_order.Dict
use nasdaq_itch_parser_order.Dict.{Dict}
use nasdaq_itch_parser_order.Structs.{
  ret, ok, error, plain, ErrorText, ItchMsg, ItchMsgType, add_order_msg, reduce_order_msg,
  delete_order_msg, replace_order_msg, L3Entry, add_with_existing_order_id,
  reduce_of_missing_order_id, negative_shares_after_reducing, delete_of_missing_order_id,
  replace_with_existing_order_id,
}
use nasdaq_itch_parser_order.L3
use nasdaq_itch_parser_order.L3.{L3, L3Result, downstream}
use nasdaq_itch_parser_order.Bbo.Ladder.{Ladder}
use nasdaq_itch_parser_order.Bbo.Adds.{order}
use nasdaq_itch_parser_order.Book.Orders.{
  Orders, part, AllFair-lookup, resting-insert_old, resting-delete, insert-DistinctKeys,
  delete-DistinctKeys, insert-AllFair, delete-AllFair,
}
use nasdaq_itch_parser_order.Book.Ledger.{entry, Ledger, l3_call, Refusal, Sends, stores, lowers}
use nasdaq_itch_parser_order.Book.Sound.{may_rest, may_replace, sound}

refuses :
    (l : L3 Orders) (msg : ItchMsg) (text : ErrorText)
    → l3_call l msg ≡ (ret (error text), l)
    → Refusal l msg
refuses l msg text h = record { text = text; answer = h }

add_call :
    (l : L3 Orders) (bids offs : Ladder) (g k : ℕ) (b : Bool) (n p : ℕ)
    → Ledger l bids offs
    → may_rest b n p l.memory ≡ true
    → Refusal l (add_order_msg g k b n p) ⊎ Sends l (add_order_msg g k b n p) bids offs
unfolding L3.process_msg L3.store_new Dict.contains
add_call l bids offs g k b n p w hs = elim (Option-cases (Dict.lookup k l.memory)) [
  | inr (old, there) ↦ inl (refuses l _ (plain add_with_existing_order_id) (rw there refl))
  | inl fresh ↦
      inr
        (stores l bids offs _ ItchMsgType.add k b n p w hs refl (λ P hp. hp) fresh (rw fresh refl))
]

replace_call :
    (l : L3 Orders) (bids offs : Ladder) (g k n p : ℕ) (side : Option Bool)
    → l.last_del_is_buy ≡ side
    → Ledger l bids offs
    → may_replace side n p l.memory ≡ true
    → Refusal l (replace_order_msg g k n p) ⊎ Sends l (replace_order_msg g k n p) bids offs
unfolding L3.process_msg L3.store_new L3.replace_entry Dict.contains
replace_call l bids offs g k n p none e w hs = absurd cc
replace_call l bids offs g k n p (some b) e w hs = elim (Option-cases (Dict.lookup k l.memory)) [
  | inr (old, there) ↦ inl (refuses l _ (plain replace_with_existing_order_id) (rw there refl))
  | inl fresh ↦ inr (
      stores l bids offs _ ItchMsgType.replace k b n p w hs refl (λ P hp. hp) fresh
        (rw (fresh, e) refl))
]

-- what is left of an order that is reduced
parts :
    (b c : Bool) (n m p q : ℕ)
    → n ≤ m
    → part c q (entry b (m - n) p) + part c q (entry b n p) ≡ part c q (entry b m p)
parts b c n m p q h = ground arith

reduce_call :
    (l : L3 Orders) (bids offs : Ladder) (g k n : ℕ)
    → Ledger l bids offs
    → 0 < n
    → Refusal l (reduce_order_msg g k n) ⊎ Sends l (reduce_order_msg g k n) bids offs
unfolding L3.process_msg L3.reduce_entry L3.commit Dict.contains
reduce_call l bids offs g k n w hn = elim (Option-cases (Dict.lookup k l.memory)) [
  | inl missing ↦ inl (refuses l _ (plain reduce_of_missing_order_id) (rw missing refl))
  | inr (old, there) ↦ elim (Bool-cases (ltb n old.shares)) [
    | inl less ↦
        let fits : n ≤ old.shares = ground arith in
        let fair = AllFair-lookup k old l.memory w.fair there in
        let left = entry old.is_buy (old.shares - n) old.price in
        inr (
          lowers l bids offs _ ItchMsgType.reduce k n old
            (record l { memory = Dict.insert k left l.memory }) w refl there hn fits
            (rw (there, L3.with_entry, there, less) refl)
            (insert-DistinctKeys k left l.memory w.distinct)
            (insert-AllFair k left l.memory (ground arith, fair.1) w.fair)
            (λ c q. omega (
              arith,
              resting-insert_old c q k left old l.memory there,
              parts old.is_buy c n old.shares old.price q fits,
            )))
    | inr more ↦ elim (Bool-cases (n == old.shares)) [
      | inl same ↦
          let e : n ≡ old.shares = ground arith in
          inr (
            lowers l bids offs _ ItchMsgType.reduce k n old
              (record l { memory = Dict.delete k l.memory }) w refl there hn (omega arith)
              (rw (there, L3.with_entry, there, more, same) refl)
              (delete-DistinctKeys k l.memory w.distinct) (delete-AllFair k l.memory w.fair)
              (λ c q. rw e (resting-delete c q k old l.memory there w.distinct)))
      | inr other ↦ inl (
          refuses l _ (plain negative_shares_after_reducing)
            (rw (there, L3.with_entry, there, more, other) refl))
    ]
  ]
]

-- a live order that is deleted is gone, and its side is kept
pub delete_live :
    (l : L3 Orders) (g k : ℕ) (old : L3Entry)
    → Dict.lookup k l.memory ≡ some old
    → l3_call l (delete_order_msg g k) ≡ (
      ret (ok (order ItchMsgType.delete old.is_buy old.shares old.price)),
      record { memory = Dict.delete k l.memory; last_del_is_buy = some old.is_buy },
    )
unfolding L3.process_msg L3.delete_entry Dict.contains
delete_live l g k old there = rw (there, L3.with_entry, there, L3.delete_entry) refl

delete_call :
    (l : L3 Orders) (bids offs : Ladder) (g k : ℕ)
    → Ledger l bids offs
    → Refusal l (delete_order_msg g k) ⊎ Sends l (delete_order_msg g k) bids offs
unfolding L3.process_msg Dict.contains
delete_call l bids offs g k w = elim (Option-cases (Dict.lookup k l.memory)) [
  | inl missing ↦ inl (refuses l _ (plain delete_of_missing_order_id) (rw missing refl))
  | inr (old, there) ↦
      let fair = AllFair-lookup k old l.memory w.fair there in
      inr (
        lowers l bids offs _ ItchMsgType.delete k old.shares old
          (record { memory = Dict.delete k l.memory; last_del_is_buy = some old.is_buy }) w refl
          there fair.0 (omega arith) (delete_live l g k old there)
          (delete-DistinctKeys k l.memory w.distinct) (delete-AllFair k l.memory w.fair)
          (λ c q. resting-delete c q k old l.memory there w.distinct))
]

-- a sound message for a table with its ladders
pub Ledger-answers :
    (l : L3 Orders) (bids offs : Ladder) (msg : ItchMsg)
    → Ledger l bids offs
    → sound l msg ≡ true
    → Refusal l msg ⊎ Sends l msg bids offs
Ledger-answers l bids offs (add_order_msg g k b n p) w h = add_call l bids offs g k b n p w h
Ledger-answers l bids offs (reduce_order_msg g k n) w h =
    reduce_call l bids offs g k n w (ground arith)
Ledger-answers l bids offs (delete_order_msg g k) w h = delete_call l bids offs g k w
Ledger-answers l bids offs (replace_order_msg g k n p) w h =
    replace_call l bids offs g k n p l.last_del_is_buy refl w h
Ledger-answers l bids offs _ w h = absurd cc
