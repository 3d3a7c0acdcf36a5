-- ===== src/L3/Refines.antt =====
-- `L3.process_msg` against its specification, over every memory that is a map.
use mathlib.Core.Path.{fun_ext}
use nasdaq_itch_parser_order.Prelude.{
  ℕ, ◌≡◌, ◌⊎◌, refl, ap, ◌∙◌, Bool, true, false, Option, none, some, arith, ◌==◌, is_some, inl, inr,
  Option-cases, Bool-cases, ltb, ◌-◌,
}
use nasdaq_itch_parser_order.Mapping.{Mapping, IsMap, or_raise}
use nasdaq_itch_parser_order.Structs.{
  Exn, Outcome, ret, raised, key_error, Outcome-cases, ItchMsg, ItchMsgType, add_order_msg,
  reduce_order_msg, delete_order_msg, replace_order_msg, L3Entry,
}
use nasdaq_itch_parser_order.L3.{
  L3, L3Result, process_msg, store_new, reduce_entry, delete_entry, catch_memory_error, with_entry,
  replace_entry,
}
use nasdaq_itch_parser_order.L3.Spec.{Table, step, update, book, reduced, closed, replaced}

module _ {M : Type 0} (ops : Mapping M L3Entry) (IsValid : M → Type 0)
    (view : M → ℕ → Option L3Entry) where
  abbrev pub table_of : L3 M → Table
  table_of s = record { orders = view s.memory; last = s.last_del_is_buy }

  -- The call returned or raised what the specification says, and left its orders.
  pub record Matches (out : Outcome L3Result × L3 M) (want : Outcome L3Result × Table)
      : Type 0 where
    pub result : out.0 ≡ want.0
    pub orders : (j : ℕ) → view out.1.memory j ≡ want.1.orders j
    pub last : out.1.last_del_is_buy ≡ want.1.last
    pub valid : IsValid out.1.memory

  -- The memory had no room for a new order: nothing was changed.
  pub record Refused (s : L3 M) (out : Outcome L3Result × L3 M) : Type 0 where
    pub order_id : ℕ
    pub entry : L3Entry
    pub exn : Exn
    pub refusal : ops.set_item order_id entry s.memory ≡ raised exn
    pub result : out.0 ≡ catch_memory_error exn
    pub unchanged : out.1 ≡ s

  pub table-Matches :
      (out : Outcome L3Result × L3 M) (want : Outcome L3Result × Table)
      → Matches out want
      → table_of out.1 ≡ want.1
  table-Matches out want h = λ i. record { orders = fun_ext h.orders i; last = h.last i }

module _ {M : Type 0} {ops : Mapping M L3Entry} {IsValid : M → Type 0}
    {view : M → ℕ → Option L3Entry} (laws : IsMap ops IsValid view) (s : L3 M)
    (v : IsValid s.memory) where
  written :
      (r : Outcome L3Result) (l : Option Bool) (k : ℕ) (e : L3Entry) (m : M)
      → ops.set_item k e s.memory ≡ ret m
      → Matches ops IsValid view
          (r, record { memory = m; last_del_is_buy = l })
          (r, record { orders = update k (some e) (view s.memory); last = l })
  written r l k e m h = record {
    result = refl;
    orders = λ j. laws.set_view s.memory m k j e v h;
    last = refl;
    valid = laws.set_valid s.memory m k e v h;
  }

  deleted :
      (r : Outcome L3Result) (l : Option Bool) (k : ℕ) (m : M)
      → ops.del_item k s.memory ≡ ret m
      → Matches ops IsValid view
          (r, record { memory = m; last_del_is_buy = l })
          (r, record { orders = update k none (view s.memory); last = l })
  deleted r l k m h = record {
    result = refl;
    orders = λ j. laws.del_view s.memory m k j v h;
    last = refl;
    valid = laws.del_valid s.memory m k v h;
  }

  unchanged :
      (r : Outcome L3Result) → Matches ops IsValid view (r, s) (r, table_of ops IsValid view s)
  unchanged r = record { result = refl; orders = λ j. refl; last = refl; valid = v }

  store_new_lem :
      (t : ItchMsgType) (k : ℕ) (e : L3Entry)
      → Matches ops IsValid view (store_new ops t k e s) (book t k e (table_of ops IsValid view s))
        ⊎ Refused ops IsValid view s (store_new ops t k e s)
  unfolding store_new
  store_new_lem t k e = elim (Outcome-cases (ops.set_item k e s.memory)) [
    | inl (m, h) ↦ rw (h, store_new) (inl (written _ _ k e m h))
    | inr (x, h) ↦
        rw (h, store_new)
          (inr (record {
            order_id = k;
            entry = e;
            exn = x;
            refusal = h;
            result = refl;
            unchanged = refl;
          }))
  ]

  -- a key that is there is overwritten, and deleted, without fail
  overwrite :
      (k : ℕ) (old e : L3Entry)
      → view s.memory k ≡ some old
      → (m : M) × (ops.set_item k e s.memory ≡ ret m)
  overwrite k old e there = elim (Outcome-cases (ops.set_item k e s.memory)) [
    | inl found ↦ found
    | inr (x, h) ↦ cc (there, laws.set_raised s.memory k e x v h)
  ]

  remove :
      (k : ℕ) (old : L3Entry)
      → view s.memory k ≡ some old
      → (m : M) × (ops.del_item k s.memory ≡ ret m)
  remove k old there = elim (Outcome-cases (ops.del_item k s.memory)) [
    | inl found ↦ found
    | inr (x, h) ↦ cc (there, laws.del_raised s.memory k x v h)
  ]

  module _ (k : ℕ) (old : L3Entry) (there : view s.memory k ≡ some old) where
    reduce_entry_lem :
        (n : ℕ)
        → Matches ops IsValid view
            (reduce_entry ops k n old s)
            (reduced k (some old) n (table_of ops IsValid view s))
    unfolding reduce_entry
    reduce_entry_lem n = elim (Bool-cases (ltb n old.shares)) [
      | inl less ↦
          let (m, h) = overwrite k old (record old { shares = old.shares - n }) there in
          let kept : (ltb old.shares n ≡ false) × (n == old.shares ≡ false) = ground arith in
          rw (less, reduce_entry, h, kept.0, kept.1) (written _ _ k _ m h)
      | inr more ↦ elim (Bool-cases (n == old.shares)) [
        | inl same ↦
            let (m, h) = remove k old there in
            let fits : ltb old.shares n ≡ false = ground arith in
            rw (more, same, reduce_entry, h, fits) (deleted _ _ k m h)
        | inr other ↦
            let over : ltb old.shares n ≡ true = ground arith in
            rw (more, other, reduce_entry, over) (unchanged _)
      ]
    ]

    delete_entry_lem :
        Matches ops IsValid view
          (delete_entry ops k old s)
          (closed k (some old) (table_of ops IsValid view s))
    unfolding delete_entry
    delete_entry_lem = let (m, h) = remove k old there in rw (h, delete_entry) (deleted _ _ k m h)

  replace_entry_lem :
      (k n p : ℕ) (side : Option Bool)
      → Matches ops IsValid view
          (replace_entry ops k n p side s)
          (replaced k none side n p (table_of ops IsValid view s))
        ⊎ Refused ops IsValid view s (replace_entry ops k n p side s)
  unfolding replace_entry
  replace_entry_lem k n p none = inl (unchanged _)
  replace_entry_lem k n p (some is_buy) =
      store_new_lem ItchMsgType.replace k (record { is_buy = is_buy; shares = n; price = p })

  has : (k : ℕ) → ops.has_key k s.memory ≡ is_some (view s.memory k)
  has k = laws.has_view s.memory k v

  fetched : (k : ℕ) (old : L3Entry) → view s.memory k ≡ some old → ops.get_item k s.memory ≡ ret old
  fetched k old there = laws.get_view s.memory k v ∙ ap (or_raise key_error) there

  -- reductions and deletions are never refused
  pub reduce-Matches :
      (l k n : ℕ)
      → Matches ops IsValid view
          (process_msg ops s (reduce_order_msg l k n))
          (step (table_of ops IsValid view s) (reduce_order_msg l k n))
  unfolding process_msg step
  reduce-Matches l k n = elim (Option-cases (view s.memory k)) [
    | inl missing ↦ rw (has k, missing, process_msg) (unchanged _)
    | inr (old, there) ↦
        rw (has k, there, with_entry, fetched k old there) (reduce_entry_lem k old there n)
  ]

  pub delete-Matches :
      (l k : ℕ)
      → Matches ops IsValid view
          (process_msg ops s (delete_order_msg l k))
          (step (table_of ops IsValid view s) (delete_order_msg l k))
  unfolding process_msg step
  delete-Matches l k = elim (Option-cases (view s.memory k)) [
    | inl missing ↦ rw (has k, missing, process_msg) (unchanged _)
    | inr (old, there) ↦
        rw (has k, there, with_entry, fetched k old there) (delete_entry_lem k old there)
  ]

  -- Each message does what the specification says, or finds no room for its order.
  pub process_msg-refines :
      (msg : ItchMsg)
      → Matches ops IsValid view (process_msg ops s msg) (step (table_of ops IsValid view s) msg)
        ⊎ Refused ops IsValid view s (process_msg ops s msg)
  unfolding process_msg step
  process_msg-refines (add_order_msg l k is_buy n p) = elim (Option-cases (view s.memory k)) [
    | inr (old, there) ↦ rw (has k, there, process_msg) (inl (unchanged _))
    | inl fresh ↦
        rw (has k, fresh, process_msg)
          (store_new_lem ItchMsgType.add k (record { is_buy = is_buy; shares = n; price = p }))
  ]
  process_msg-refines (reduce_order_msg l k n) = inl (reduce-Matches l k n)
  process_msg-refines (delete_order_msg l k) = inl (delete-Matches l k)
  process_msg-refines (replace_order_msg l k n p) = elim (Option-cases (view s.memory k)) [
    | inr (old, there) ↦ rw (has k, there, process_msg) (inl (unchanged _))
    | inl fresh ↦ rw (has k, fresh) (replace_entry_lem k n p s.last_del_is_buy)
  ]
  process_msg-refines _ = inl (unchanged _)
