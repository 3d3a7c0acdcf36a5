-- ===== src/Book/Twice.antt =====
-- `Book.init_params` called twice.
use nasdaq_itch_parser_order.Prelude.{
  ℕ, ◌≡◌, inl, inr, refl, sym, ap, Bool, true, false, Option, none, some,
}
use nasdaq_itch_parser_order.Structs.{
  Exn, Outcome, ret, raised, ◌>>=◌, assertion_error, ret_injective, Outcome-cases,
}
use nasdaq_itch_parser_order.Bbo
use nasdaq_itch_parser_order.Bbo.{Bbo}
use nasdaq_itch_parser_order.L2
use nasdaq_itch_parser_order.L2.{L2}
use nasdaq_itch_parser_order.L2.Levels.{PriceMemory}
use nasdaq_itch_parser_order.Book
use nasdaq_itch_parser_order.Book.{Book}

refused : {A : Type 0} {a : A} {e : Exn} → ◌≡◌ {A = Outcome A} (raised e) (ret a) → ⊥
refused h = cc

module _ {N : Type 0} (levels : PriceMemory N) where
  initialised :
      (o : Outcome N) (r : ℕ × ℕ) (base : ℕ) (s t : L2 N)
      → (o >>= λ memory. ret (record s { range = some r; memory = memory })) ≡ ret t
      → L2.init_params levels base t ≡ raised assertion_error
  unfolding L2.init_params
  initialised (ret memory) r base s t h = rw (sym (ret_injective h)) refl
  initialised (raised e) r base s t h = absurd cc

  again_at :
      (range : Option (ℕ × ℕ)) (s t : L2 N) (base base' : ℕ)
      → s.range ≡ range
      → L2.init_params levels base s ≡ ret t
      → L2.init_params levels base' t ≡ raised assertion_error
  unfolding L2.init_params
  again_at none s t base base' hr h = initialised _ _ base' s t (rw hr at h)
  again_at (some r) s t base base' hr h = absurd (refused (rw hr at h))

-- the book of an initialisation that has returned, and its table of prices
book_parts :
    {M N : Type 0} (o : Outcome (L2 N)) (base : ℕ) (flag : Bool) (s s' : Book M N)
    → (o >>= λ l2. Bbo.init_params base s.bbo >>= λ bbo.
        ret (record s { l2 = l2; bbo = bbo; initialized = flag }))
      ≡ ret s'
    → (o ≡ ret s'.l2) × (s'.initialized ≡ flag)
book_parts (raised e) base flag s s' h = absurd (refused h)
book_parts (ret l2) base flag s s' h = elim (Outcome-cases (Bbo.init_params base s.bbo)) [
  | inl (bbo, e) ↦
      let same = ret_injective (rw e at h) in
      (ap (λ b. ret b.l2) same, ap (λ b. b.initialized) (sym same))
  | inr (x, e) ↦ absurd (refused (rw e at h))
]

again :
    {M N : Type 0} (levels : PriceMemory N) (base base' : ℕ) (flag : Bool) (s s' : Book M N)
    → s.initialized ≡ flag
    → Book.init_params levels base s ≡ ret s'
    → Book.init_params levels base' s' ≡ raised assertion_error
unfolding Book.init_params
again levels base base' true s s' f h = absurd (refused (rw f at h))
again levels base base' false s s' f h =
    let (e, i) = book_parts (L2.init_params levels base s.l2) base false s s' (rw f at h) in
    rw (i, again_at levels s.l2.range s.l2 s'.l2 base base' refl e) refl

-- A book that has been initialised cannot be initialised again: the second call raises
-- AssertionError, whatever the two base prices and the memory are.
pub init_params-once :
    {M N : Type 0} (levels : PriceMemory N) (base base' : ℕ) (s s' : Book M N)
    → Book.init_params levels base s ≡ ret s'
    → Book.init_params levels base' s' ≡ raised assertion_error
init_params-once levels base base' s s' h = again levels base base' s.initialized s s' refl h
