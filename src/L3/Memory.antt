-- ===== src/L3/Memory.antt =====
-- `L3Memory` of src/ref_model/l3_order_table.py: a table of lines, one for each hash, and a spill
-- memory, the CAM.
pub mod Slots
pub mod Laws
pub mod Capacity
use nasdaq_itch_parser_order.Prelude.{
  ℕ, ◌+◌, ◌-◌, ◌^◌, Bool, true, false, ◌||◌, Option, none, some, List, [], ◌∷◌, ◌++◌, map, bit_and,
  ltb, ◌==◌, if◌then◌else◌, length, replicate, get_or, set,
}
use nasdaq_itch_parser_order.Params.{config}
use nasdaq_itch_parser_order.Dict
use nasdaq_itch_parser_order.Dict.{Dict}
use nasdaq_itch_parser_order.Mapping.{Mapping, or_raise}
use nasdaq_itch_parser_order.Structs.{
  L3Entry, Outcome, ret, raised, ◌>>=◌, ◌>>◌, key_error, value_error, memory_error,
  out_of_memory_slots,
}

pub record L3Memory : Type 0 where
  pub ram : List (Dict L3Entry)
  pub cam : Dict L3Entry

unfoldable pub empty_lines : ℕ → L3Memory
empty_lines n = record { ram = replicate n []; cam = [] }

-- `__init__`
abbrev pub init : L3Memory
init = empty_lines (2 ^ config.l3_log_addr_size)

unfoldable pub oid_hash : ℕ → ℕ
oid_hash order_id =
    let mask = 2 ^ config.l3_log_addr_size - 1 in
    let lower_bits = bit_and order_id mask in lower_bits

-- `self.ram[self.oid_hash(key)]`; the hash is below the number of lines
abbrev pub line_of : L3Memory → ℕ → Dict L3Entry
line_of m key = get_or m.ram (oid_hash key) []

unfoldable pub has_key : ℕ → L3Memory → Bool
has_key item m = Dict.contains item (line_of m item) || Dict.contains item m.cam

unfoldable pub get_item : ℕ → L3Memory → Outcome L3Entry
get_item key m =
    let line = line_of m key in
    if Dict.contains key line
    then or_raise key_error (Dict.lookup key line)
    else if Dict.contains key m.cam
    then or_raise key_error (Dict.lookup key m.cam)
    else raised key_error

-- The presentation types that Python's `format` knows for an `int`, `bcdoxXneEfFgG%`.
abbrev int_presentation_types : List ℕ
int_presentation_types =
    b'b' ∷ b'c' ∷ b'd' ∷ b'o' ∷ b'x' ∷ b'X' ∷ b'n' ∷ b'e' ∷ b'E' ∷ b'f' ∷ b'F' ∷ b'g' ∷ b'G' ∷ b'%'
    ∷ []

is_member : ℕ → List ℕ → Bool
is_member c [] = false
is_member c (x ∷ xs) = c == x || is_member c xs

-- `f"{n:h}"`, an f-string with a one-letter format specification
unfoldable pub format_int : ℕ → ℕ → Outcome (Unit {0})
unfolding is_member
format_int spec n = if is_member spec int_presentation_types then ret tt else raised value_error

abbrev pub write_line : ℕ → Dict L3Entry → L3Memory → L3Memory
write_line key line m = record m { ram = set m.ram (oid_hash key) line }

-- The branch of a full line: the log message is formatted before the CAM is tried.
unfoldable pub spill : ℕ → L3Entry → L3Memory → Outcome L3Memory
unfolding format_int
spill key value m = do
  format_int b'h' (oid_hash key)
  if ltb (length m.cam) config.l3_cam_size
      then ret (record m { cam = Dict.insert key value m.cam })
      else raised (memory_error (out_of_memory_slots (oid_hash key)))

unfoldable pub set_item : ℕ → L3Entry → L3Memory → Outcome L3Memory
set_item key value m =
    let line = line_of m key in
    if Dict.contains key line
    then ret (write_line key (Dict.insert key value line) m)
    else if Dict.contains key m.cam
    then ret (record m { cam = Dict.insert key value m.cam })
    else if ltb (length line) (2 ^ config.l3_log_line_size)
    then ret (write_line key (Dict.insert key value line) m)
    else spill key value m

unfoldable pub del_item : ℕ → L3Memory → Outcome L3Memory
del_item key m =
    let line = line_of m key in
    if Dict.contains key line
    then ret (write_line key (Dict.delete key line) m)
    else if Dict.contains key m.cam
    then ret (record m { cam = Dict.delete key m.cam })
    else raised key_error

add_lengths : List (Dict L3Entry) → ℕ → ℕ
add_lengths [] count = count
add_lengths (bucket ∷ ram) count = add_lengths ram (count + length bucket)

-- `__len__`
unfoldable pub len : L3Memory → ℕ
unfolding add_lengths
len m = add_lengths m.ram 0 + length m.cam

bucket_keys : List (Dict L3Entry) → List ℕ
bucket_keys [] = []
bucket_keys (bucket ∷ ram) = map (λ e. e.0) bucket ++ bucket_keys ram

-- `combined_items` of `__iter__`
unfoldable pub keys : L3Memory → List ℕ
unfolding bucket_keys
keys m = bucket_keys m.ram ++ map (λ e. e.0) m.cam

abbrev pub memory_ops : Mapping L3Memory L3Entry
memory_ops = record {
  has_key = has_key;
  get_item = get_item;
  set_item = set_item;
  del_item = del_item;
}
