-- ===== src/L3/Memory/Capacity.antt =====
-- Room in an `L3Memory`: the start state, what a write of a new order does, and the CAM.
use nasdaq_itch_parser_order.Prelude.{
  ℕ, ◌≡◌, refl, ◌∙◌, none, [], arith, if◌then◌else◌, length, length-replicate, get_or,
  get_or-replicate, ltb, ltb_lt, ltb_le,
}
use native.Mathlib.Decide.{dec_lt}
use nasdaq_itch_parser_order.Dict
use nasdaq_itch_parser_order.Dict.{Dict}
use nasdaq_itch_parser_order.Structs.{L3Entry, Exn, ret, raised, value_error}
use nasdaq_itch_parser_order.L3.Memory.{
  L3Memory, init, empty_lines, oid_hash, line_of, write_line, set_item, del_item, spill,
}
use nasdaq_itch_parser_order.L3.Memory.Slots.{view, IsValid}
use nasdaq_itch_parser_order.L3.Memory.Laws.{set_item-room, set_item-full}

empty_line : (n i : ℕ) → get_or (empty_lines n).ram i [] ≡ []
unfolding empty_lines
empty_line n i = get_or-replicate n i []

no_lookup : (d : Dict L3Entry) (k : ℕ) → d ≡ [] → Dict.lookup k d ≡ none
unfolding Dict.lookup
no_lookup d k h = rw h

width-empty_lines : (n : ℕ) → length (empty_lines n).ram ≡ n
unfolding empty_lines
width-empty_lines n = length-replicate n []

cam-empty_lines : (n : ℕ) → (empty_lines n).cam ≡ []
unfolding empty_lines
cam-empty_lines n = refl

pub init-IsValid : IsValid init
init-IsValid = record {
  width = width-empty_lines 2048;
  line_size = λ i. rw (empty_line 2048 i) (omega arith);
  cam_size = rw (cam-empty_lines 2048) (omega arith);
  home = λ i k e h. cc (no_lookup _ k (empty_line 2048 i), h);
  apart = λ k e h. cc (no_lookup _ k (cam-empty_lines 2048), h);
}

pub view-init : (k : ℕ) → view init k ≡ none
unfolding view
view-init k =
    rw (no_lookup _ k (empty_line 2048 (oid_hash k)), no_lookup _ k (cam-empty_lines 2048))

pub cam-init : init.cam ≡ []
cam-init = cam-empty_lines 2048

-- A full line raises before the CAM is tried: the log message cannot be formatted.
spill-raised : (k : ℕ) (e : L3Entry) (m : L3Memory) → spill k e m ≡ raised value_error
unfolding spill
spill-raised k e m = refl

view-none :
    (m : L3Memory) (k : ℕ)
    → view m k ≡ none
    → (Dict.lookup k (line_of m k) ≡ none) × (Dict.lookup k m.cam ≡ none)
unfolding view
view-none m k h = ground arith

-- A new order is stored in the line of its hash while the line has fewer than eight orders. In a
-- full line the write raises `ValueError`, however empty the CAM is.
pub set_item_new :
    (m : L3Memory) (k : ℕ) (e : L3Entry)
    → IsValid m
    → view m k ≡ none
    → set_item k e m ≡ (
        if ltb (length (line_of m k)) 8
        then ret (write_line k (Dict.insert k e (line_of m k)) m)
        else raised value_error)
set_item_new m k e v h =
    let (absent, fresh) = view-none m k h in
    elim (dec_lt (length (line_of m k)) 8) [
      | yes room ↦ rw (ltb_lt _ _ room) (set_item-room m v k e absent fresh room)
      | no full ↦
          rw (ltb_le (length (line_of m k)) 8 (omega arith))
            (set_item-full m v k e absent fresh (omega arith) ∙ spill-raised k e m)
    ]

pub set_item_raises :
    (m : L3Memory) (k : ℕ) (e : L3Entry) (x : Exn) → set_item k e m ≡ raised x → x ≡ value_error
unfolding set_item
set_item_raises m k e x h = ground (arith, spill-raised k e m)

pub cam-set_item :
    (m m' : L3Memory) (k : ℕ) (e : L3Entry) → m.cam ≡ [] → set_item k e m ≡ ret m' → m'.cam ≡ []
unfolding set_item Dict.contains Dict.lookup
cam-set_item m m' k e empty h = ground (arith, spill-raised k e m)

pub cam-del_item : (m m' : L3Memory) (k : ℕ) → m.cam ≡ [] → del_item k m ≡ ret m' → m'.cam ≡ []
unfolding del_item Dict.contains Dict.lookup
cam-del_item m m' k empty h = ground arith
