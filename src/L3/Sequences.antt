-- ===== src/L3/Sequences.antt =====
-- Two calls in a row, over any memory that is a map: a replacement, and a reduction in two parts.
use nasdaq_itch_parser_order.Prelude.{
  ℕ, ◌+◌, ◌≤◌, ◌<◌, ◌≡◌, ◌≢◌, ◌∙◌, ap, sym, Bool, Option, none, some, arith, inl, inr, ltb_le,
  ==_refl, ==_ne,
}
use nasdaq_itch_parser_order.Mapping.{Mapping, IsMap}
use nasdaq_itch_parser_order.Structs.{
  Exn, Outcome, ret, ok, ItchMsgType, reduce_order_msg, delete_order_msg, replace_order_msg,
  L3Entry,
}
use nasdaq_itch_parser_order.L3.{L3, L3Result, downstream, process_msg, catch_memory_error}
use nasdaq_itch_parser_order.L3.Spec.{Table, step, update}
use nasdaq_itch_parser_order.L3.Refines.{
  table_of, table-Matches, process_msg-refines, reduce-Matches, delete-Matches,
}

abbrev pub resting : L3Entry → ℕ → ℕ → L3Entry
resting old n p = record { is_buy = old.is_buy; shares = n; price = p }

-- the two calls of a `U` message
abbrev pub replacement :
    {M : Type 0} (ops : Mapping M L3Entry) → L3 M → (l k k' n p : ℕ) → Outcome L3Result × L3 M
replacement ops s l k k' n p =
    process_msg ops (process_msg ops s (delete_order_msg l k)).1 (replace_order_msg l k' n p)

step_delete :
    (w : Table) (l k : ℕ) (old : L3Entry)
    → w.orders k ≡ some old
    → (step w (delete_order_msg l k)).1
      ≡ record { orders = update k none w.orders; last = some old.is_buy }
unfolding step
step_delete w l k old h = rw h

step_replace :
    (w : Table) (l k n p : ℕ) (is_buy : Bool)
    → w.orders k ≡ none
    → let e : L3Entry = record { is_buy = is_buy; shares = n; price = p } in
      step (record { orders = w.orders; last = some is_buy }) (replace_order_msg l k n p) ≡ (
        ret (ok (downstream ItchMsgType.replace e n)),
        record { orders = update k (some e) w.orders; last = some is_buy },
      )
unfolding step
step_replace w l k n p is_buy h = rw h

reduced_in_parts :
    (w : Table) (l k a b : ℕ) (old : L3Entry)
    → w.orders k ≡ some old
    → 0 < b
    → a + b ≤ old.shares
    → (j : ℕ)
    → (step (step w (reduce_order_msg l k a)).1 (reduce_order_msg l k b)).1.orders j
      ≡ (step w (reduce_order_msg l k (a + b))).1.orders j
unfolding step
reduced_in_parts w l k a b old h pos fits j =
    rw
      (
        h,
        ltb_le old.shares a (omega arith),
        ltb_le old.shares (a + b) fits,
        ==_ne a old.shares (omega arith),
        ==_refl k,
      )
      (ground arith)

module _ {M : Type 0} {ops : Mapping M L3Entry} {IsValid : M → Type 0}
    {view : M → ℕ → Option L3Entry} (laws : IsMap ops IsValid view) (s : L3 M)
    (v : IsValid s.memory) (l k : ℕ) (old : L3Entry) (there : view s.memory k ≡ some old) where
  -- Two reductions of a resting order, of which the second is of at least one share, and which
  -- together are of at most the shares of the order, leave the orders that one reduction by the sum
  -- leaves.
  pub reduce_in_parts :
      (a b : ℕ)
      → 0 < b
      → a + b ≤ old.shares
      → (j : ℕ)
      → view
          (process_msg ops
            (process_msg ops s (reduce_order_msg l k a)).1
            (reduce_order_msg l k b)).1.memory
          j
        ≡ view (process_msg ops s (reduce_order_msg l k (a + b))).1.memory j
  reduce_in_parts a b pos fits j =
      let first = reduce-Matches laws s v l k a in
      let second =
        reduce-Matches laws (process_msg ops s (reduce_order_msg l k a)).1 first.valid l k b in
      let whole = reduce-Matches laws s v l k (a + b) in
      let w = table_of ops IsValid view s in
      second.orders j
      ∙ ap (λ t. (step t (reduce_order_msg l k b)).1.orders j)
          (table-Matches ops IsValid view _ _ first)
      ∙ reduced_in_parts w l k a b old there pos fits j
      ∙ sym (whole.orders j)

  -- A deletion of a resting order and a replacement, whose new order has a number that no order then
  -- has and finds room: the new order stands on the side of
  -- the old one, with the new shares and price, and no other order has changed.
  pub delete-replace :
      (k' n p : ℕ)
      → update k none (view s.memory) k' ≡ none
      → ((x : Exn) → (replacement ops s l k k' n p).0 ≢ catch_memory_error x)
      → let out = replacement ops s l k k' n p in
        (out.0 ≡ ret (ok (downstream ItchMsgType.replace (resting old n p) n)))
        × ((j : ℕ)
            → view out.1.memory j
              ≡ update k' (some (resting old n p)) (update k none (view s.memory)) j)
  delete-replace k' n p free room =
      let first = delete-Matches laws s v l k in
      let w : Table = record { orders = update k none (view s.memory); last = some old.is_buy } in
      let at_w = table-Matches ops IsValid view _ _ first ∙ step_delete _ l k old there in
      elim (process_msg-refines laws (process_msg ops s (delete_order_msg l k)).1 first.valid
        (replace_order_msg l k' n p)) [
          | inr h ↦ absurd (room h.exn h.result)
          | inl h ↦
              let done =
                ap (λ t. step t (replace_order_msg l k' n p)) at_w
                ∙ step_replace w l k' n p old.is_buy free in
              (h.result ∙ ap (λ o. o.0) done, λ j. h.orders j ∙ ap (λ o. o.1.orders j) done)
        ]
