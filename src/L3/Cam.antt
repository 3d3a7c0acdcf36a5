-- ===== src/L3/Cam.antt =====
-- The CAM of the hardware memory.
use nasdaq_itch_parser_order.Prelude.{
  ℕ, ◌≡◌, Bool, true, false, Option, none, some, List, [], ◌∷◌, ◌-◌, if◌then◌else◌, arith, inl, inr,
}
use nasdaq_itch_parser_order.Structs.{
  Outcome, Outcome-cases, ItchMsg, ItchMsgType, L3Entry, DownstreamOrderMsg, add_order_msg,
  reduce_order_msg, delete_order_msg, replace_order_msg,
}
use nasdaq_itch_parser_order.L3.{
  L3, L3Result, process_msg, store_new, reduce_entry, delete_entry, replace_entry, with_entry,
  commit,
}
use nasdaq_itch_parser_order.L3
use nasdaq_itch_parser_order.L3.Memory
use nasdaq_itch_parser_order.L3.Memory.{L3Memory, memory_ops}
use nasdaq_itch_parser_order.L3.Memory.Capacity.{cam-init, cam-set_item, cam-del_item}

module _ (s : L3 L3Memory) (empty : s.memory.cam ≡ []) where
  cam-store_new :
      (t : ItchMsgType) (k : ℕ) (e : L3Entry) → (store_new memory_ops t k e s).1.memory.cam ≡ []
  unfolding store_new
  cam-store_new t k e = elim (Outcome-cases (Memory.set_item k e s.memory)) [
    | inl (m, h) ↦ rw (h, store_new) (cam-set_item s.memory m k e empty h)
    | inr (x, h) ↦ rw (h, store_new) empty
  ]

  cam-commit_set :
      (k : ℕ) (e : L3Entry) (msg : DownstreamOrderMsg)
      → (commit memory_ops (Memory.set_item k e s.memory) msg s).1.memory.cam ≡ []
  unfolding commit
  cam-commit_set k e msg = elim (Outcome-cases (Memory.set_item k e s.memory)) [
    | inl (m, h) ↦ rw h (cam-set_item s.memory m k e empty h)
    | inr (x, h) ↦ rw h empty
  ]

  cam-commit_del :
      (k : ℕ) (msg : DownstreamOrderMsg)
      → (commit memory_ops (Memory.del_item k s.memory) msg s).1.memory.cam ≡ []
  unfolding commit
  cam-commit_del k msg = elim (Outcome-cases (Memory.del_item k s.memory)) [
    | inl (m, h) ↦ rw h (cam-del_item s.memory m k empty h)
    | inr (x, h) ↦ rw h empty
  ]

  cam-reduce_entry :
      (k n : ℕ) (old : L3Entry) → (reduce_entry memory_ops k n old s).1.memory.cam ≡ []
  unfolding reduce_entry
  cam-reduce_entry k n old = ground (
    arith,
    cam-commit_set k (record old { shares = old.shares - n })
        (L3.downstream ItchMsgType.reduce old n),
    cam-commit_del k (L3.downstream ItchMsgType.reduce old n),
  )

  cam-delete_entry : (k : ℕ) (old : L3Entry) → (delete_entry memory_ops k old s).1.memory.cam ≡ []
  unfolding delete_entry
  cam-delete_entry k old = elim (Outcome-cases (Memory.del_item k s.memory)) [
    | inl (m, h) ↦ rw (h, delete_entry) (cam-del_item s.memory m k empty h)
    | inr (x, h) ↦ rw (h, delete_entry) empty
  ]

  cam-with_entry :
      (k : ℕ) (rest : L3Entry → L3 L3Memory → Outcome L3Result × L3 L3Memory)
      → ((old : L3Entry) → (rest old s).1.memory.cam ≡ [])
      → (with_entry memory_ops k rest s).1.memory.cam ≡ []
  cam-with_entry k rest keep = elim (Outcome-cases (Memory.get_item k s.memory)) [
    | inl (old, h) ↦ rw (h, with_entry) (keep old)
    | inr (x, h) ↦ rw (h, with_entry) empty
  ]

  cam-if :
      (b : Bool) (x y : Outcome L3Result × L3 L3Memory)
      → x.1.memory.cam ≡ []
      → y.1.memory.cam ≡ []
      → (if b then x else y).1.memory.cam ≡ []
  cam-if true x y h g = h
  cam-if false x y h g = g

  cam-replace_entry :
      (k n p : ℕ) (side : Option Bool) → (replace_entry memory_ops k n p side s).1.memory.cam ≡ []
  unfolding replace_entry
  cam-replace_entry k n p none = empty
  cam-replace_entry k n p (some is_buy) = cam-store_new ItchMsgType.replace k _

  cam-process_msg : (msg : ItchMsg) → (process_msg memory_ops s msg).1.memory.cam ≡ []
  unfolding process_msg
  cam-process_msg (add_order_msg l k is_buy n p) =
      cam-if (Memory.has_key k s.memory) _ _ empty (cam-store_new ItchMsgType.add k _)
  cam-process_msg (reduce_order_msg l k n) =
      cam-if (Memory.has_key k s.memory) _ _
        (cam-with_entry k (reduce_entry memory_ops k n) (cam-reduce_entry k n)) empty
  cam-process_msg (delete_order_msg l k) =
      cam-if (Memory.has_key k s.memory) _ _
        (cam-with_entry k (delete_entry memory_ops k) (cam-delete_entry k)) empty
  cam-process_msg (replace_order_msg l k n p) =
      cam-if (Memory.has_key k s.memory) _ _ empty (cam-replace_entry k n p s.last_del_is_buy)
  cam-process_msg _ = empty

-- The table after a call for each message, whether the calls return or raise.
unfoldable pub after : L3 L3Memory → List ItchMsg → L3 L3Memory
after s [] = s
after s (msg ∷ msgs) = after (process_msg memory_ops s msg).1 msgs

cam-after :
    (s : L3 L3Memory) (msgs : List ItchMsg) → s.memory.cam ≡ [] → (after s msgs).memory.cam ≡ []
unfolding after
cam-after s [] h = h
cam-after s (msg ∷ msgs) h =
    cam-after (process_msg memory_ops s msg).1 msgs (cam-process_msg s h msg)

-- Whatever messages a fresh order table has been given, its CAM is empty.
pub cam_unused : (msgs : List ItchMsg) → (after (L3.init Memory.init) msgs).memory.cam ≡ []
cam_unused msgs = cam-after (L3.init Memory.init) msgs cam-init
