-- ===== src/L2/Refines.antt =====
-- `L2.process_msg` over any memory that is a map of prices.
use nasdaq_itch_parser_order.Prelude.{
  ℕ, zero, suc, ◌+◌, ◌-◌, ◌<◌, ◌≤◌, ◌≡◌, refl, sym, ap, ◌∙◌, Bool, true, false, Option, none, some,
  arith, ◌==◌, if◌then◌else◌,
}
use nasdaq_itch_parser_order.Prelude.IntSets.{elem, set_add, set_remove}
use nasdaq_itch_parser_order.Prelude.Int.{ℤ, pos}
use nasdaq_itch_parser_order.Structs.{ret, ◌>>=◌, >>=_assoc, ok, ItchMsgType}
use nasdaq_itch_parser_order.Bbo.Half.{Kind, kind_of}
use nasdaq_itch_parser_order.Bbo.Adds.{order, pos_add}
use nasdaq_itch_parser_order.Bbo.Lowering.{pos_sub}
use nasdaq_itch_parser_order.L2
use nasdaq_itch_parser_order.L2.{L2, side, with_side, change, process_msg}
use nasdaq_itch_parser_order.L2.Levels.{PriceMemory, IsPriceMap, Written}
use nasdaq_itch_parser_order.L2.Accepts.{
  level, more, fewer, Accepted, no_level, level-some, written_at, side_memory, removed,
  pos_IsPositive, process_msg-change, change-adds, change-reduces,
}

module _ {M : Type 0} (ops : PriceMemory M) (InRange : ℕ → Type 0) (IsValid : M → Type 0)
    (view : M → ℕ → Option ℤ) (laws : IsPriceMap ops InRange IsValid view) where
  -- the memory shows the shares by price
  abbrev pub Shows : M → (ℕ → ℕ) → Type 0
  Shows m t = IsValid m × ((k : ℕ) → InRange k → view m k ≡ level (t k))

  -- what a write leaves
  write_grows :
      (m m' : M) (t : ℕ → ℕ) (n p : ℕ)
      → Shows m t
      → IsValid m'
      → 0 < n
      → Written InRange (view m) p (some (pos (t p + n))) (view m')
      → Shows m' (more t n p)
  write_grows m m' t n p h valid hn w = (
    valid,
    λ j hj.
        w j hj
        ∙ written_at p j (t j + n) (t j) _ _
            (λ e. ap (λ (k : ℕ). some (pos (t k + n))) e ∙ sym (level-some (t j + n) (omega arith)))
            (h.1 j hj),
  )

  -- the shares that the memory then holds
  level_of :
      (m : M) (n p v : ℕ)
      → IsValid m
      → InRange p
      → view m p ≡ level v
      → (ops.has_key p m >>= λ present. L2.new_level ops p n present m) ≡ ret (pos (v + n))
  level_of m n p zero valid hp h =
      rw (laws.has_view m p valid hp, h) (ap ret (ap pos (omega arith)))
  level_of m n p (suc v) valid hp h =
      rw
        (
          laws.has_view m p valid hp,
          h,
          laws.get_view m p (pos (suc v)) valid hp h,
          pos_add (suc v) n,
        )
        refl

  stored_at :
      (m m' : M) (n p v : ℕ)
      → IsValid m
      → InRange p
      → view m p ≡ level v
      → ops.set_item p (pos (v + n)) m ≡ ret m'
      → (ops.has_key p m >>= λ present.
          L2.new_level ops p n present m >>= λ new. ops.set_item p new m)
        ≡ ret m'
  stored_at m m' n p v valid hp h e =
      >>=_assoc (ops.has_key p m) (λ present. L2.new_level ops p n present m)
        (λ new. ops.set_item p new m)
      ∙ ap (λ o. o >>= λ new. ops.set_item p new m) (level_of m n p v valid hp h)
      ∙ e

  add_shares-Shows :
      (s : L2 M) (t : ℕ → ℕ) (b : Bool) (n p : ℕ)
      → Shows s.memory t
      → InRange p
      → 0 < n
      → (m : M) × (L2.add_shares ops b n p s
          ≡ (ret (ok tt), with_side b (set_add p (side b s)) (record s { memory = m })))
        × Shows m (more t n p)
  unfolding L2.add_shares
  add_shares-Shows s t b n p h hp hn =
      let (m, e, valid, w) =
        laws.set_view s.memory p (pos (t p + n)) h.0 hp (pos_IsPositive (t p + n) (omega arith)) in
      (
        m,
        rw (stored_at s.memory m n p (t p) h.0 hp (h.1 p hp) e, side_memory b s m) refl,
        write_grows s.memory m t n p h valid hn w,
      )

  -- what a reduction leaves
  write_shrinks :
      (m m' : M) (t : ℕ → ℕ) (n p : ℕ) (v : Option ℤ)
      → Shows m t
      → IsValid m'
      → v ≡ level (t p - n)
      → Written InRange (view m) p v (view m')
      → Shows m' (fewer t n p)
  write_shrinks m m' t n p v h valid hv w = (
    valid,
    λ j hj.
        w j hj
        ∙ written_at p j (t j - n) (t j) _ _ (λ e. hv ∙ ap (λ (k : ℕ). level (t k - n)) e)
            (h.1 j hj),
  )

  -- the memory that is written, whether the level is empty or not
  lowered :
      (m : M) (t : ℕ → ℕ) (n p : ℕ)
      → Shows m t
      → InRange p
      → 0 < t p
      → (c : Bool) → (t p - n == 0) ≡ c
      → (m' : M) × ((if c then ops.del_item p m else ops.set_item p (pos (t p - n)) m) ≡ ret m')
        × Shows m' (fewer t n p)
  lowered m t n p h hp hn true e =
      let (m', e', valid, w) =
        laws.del_view m p (pos (t p)) h.0 hp (h.1 p hp ∙ level-some (t p) hn) in
      (m', e', write_shrinks m m' t n p none h valid (no_level (t p - n) e) w)
  lowered m t n p h hp hn false e =
      let (m', e', valid, w) =
        laws.set_view m p (pos (t p - n)) h.0 hp (pos_IsPositive (t p - n) (ground arith)) in
      (
        m',
        e',
        write_shrinks m m' t n p (some (pos (t p - n))) h valid
            (sym (level-some (t p - n) (ground arith))) w,
      )

  write_level-Shows :
      (s : L2 M) (t : ℕ → ℕ) (b : Bool) (n p : ℕ)
      → Shows s.memory t
      → InRange p
      → 0 < t p
      → elem p (side b s) ≡ true
      → (m : M) × (L2.write_level ops b p (pos (t p - n)) s ≡ (
        ret (ok tt),
        with_side b
            (if t p - n == 0 then set_remove p (side b s) else side b s)
            (record s { memory = m }),
      ))
        × Shows m (fewer t n p)
  unfolding L2.write_level
  write_level-Shows s t b n p h hp hn he =
      let (m, e, shows) = lowered s.memory t n p h hp hn (t p - n == 0) refl in
      (
        m,
        rw (e, side_memory b s m, he) (removed (t p - n == 0) b s m (set_remove p (side b s))),
        shows,
      )

  reduce_shares-Shows :
      (s : L2 M) (t : ℕ → ℕ) (b : Bool) (n p : ℕ)
      → Shows s.memory t
      → InRange p
      → 0 < n
      → n ≤ t p
      → L2.reduce_shares ops b n p s ≡ L2.write_level ops b p (pos (t p - n)) s
  unfolding L2.reduce_shares
  reduce_shares-Shows s t b n p h hp hn hle =
      let shown : view s.memory p ≡ some (pos (t p)) = h.1 p hp ∙ level-some (t p) (omega arith) in
      rw
        (
          laws.has_view s.memory p h.0 hp,
          shown,
          laws.get_view s.memory p (pos (t p)) h.0 hp shown,
          pos_sub (t p) n hle,
        )
        refl

  -- An accepted message that adds shares, its price in the range of the memory: the memory shows them at their price and all else as
  -- before, and the price is in the set of its side.
  pub process_msg-adds_shares :
      (s : L2 M) (t : ℕ → ℕ) (type : ItchMsgType) (b : Bool) (n p : ℕ)
      → kind_of type ≡ Kind.adds
      → Accepted s n p
      → InRange p
      → Shows s.memory t
      → (m : M) × (process_msg ops s (order type b n p)
          ≡ (ret (ok tt), with_side b (set_add p (side b s)) (record s { memory = m })))
        × Shows m (more t n p)
  process_msg-adds_shares s t type b n p k a hp h =
      let (m, e, shows) = add_shares-Shows s t b n p h hp a.shares in
      (m, process_msg-change ops s type b n p a ∙ change-adds ops s type b n p k ∙ e, shows)

  -- An accepted message that takes at most the shares of its price, which is in the range of the memory
  -- and in the set of the side that the message names: it succeeds, the memory shows the rest there and
  -- all else as before, and the price leaves the set of its side with its last share.
  pub process_msg-takes_shares :
      (s : L2 M) (t : ℕ → ℕ) (type : ItchMsgType) (b : Bool) (n p : ℕ)
      → kind_of type ≡ Kind.reduces
      → Accepted s n p
      → InRange p
      → Shows s.memory t
      → n ≤ t p
      → elem p (side b s) ≡ true
      → (m : M) × (process_msg ops s (order type b n p) ≡ (
        ret (ok tt),
        with_side b
            (if t p - n == 0 then set_remove p (side b s) else side b s)
            (record s { memory = m }),
      ))
        × Shows m (fewer t n p)
  process_msg-takes_shares s t type b n p k a hp h hle he =
      let (m, e, shows) = write_level-Shows s t b n p h hp (omega (arith, a.shares)) he in
      (
        m,
        process_msg-change ops s type b n p a
            ∙ change-reduces ops s type b n p k
            ∙ reduce_shares-Shows s t b n p h hp a.shares hle
            ∙ e,
        shows,
      )
