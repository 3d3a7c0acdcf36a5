-- ===== src/Itch.antt =====
-- src/ref_model/itch_parser.py: one message, with its two length bytes in front. The generator
-- yields its results after all that can raise, so a call is the list of its results, or raises.
pub mod Cases
pub mod RoundTrips
pub mod Symbols
pub mod Wire
pub mod Ends
pub mod Outcomes
use nasdaq_itch_parser_order.Prelude.{
  ℕ, ◌+◌, Bool, true, false, not, Option, none, some, List, [], ◌∷◌, ◌==◌, if◌then◌else◌, length,
  slice,
}
use nasdaq_itch_parser_order.Bytes.{int_from_bytes}
use nasdaq_itch_parser_order.Structs.{
  Outcome, ret, raised, ◌>>=◌, assertion_error, unexpected_msg_type_field,
}
use nasdaq_itch_parser_order.Itch.Cases.{
  Results, Common, byte_at, failing, symbol_of, parse_event, parse_directory, parse_action,
  parse_ignored, parse_halt, parse_add, parse_reduce, parse_delete, parse_replace,
}

-- the fields that all cases share, and the `match` on `msg_type`
pub dispatch : ℕ → ℕ → List ℕ → Common → Outcome Results
unfolding parse_event parse_directory parse_action parse_ignored parse_halt parse_add parse_reduce
    parse_delete parse_replace
dispatch msg_type len msg c =
    if msg_type == b'S'
    then parse_event len msg c
    else if msg_type == b'R'
    then parse_directory len c
    else if msg_type == b'H'
    then parse_action len msg c
    else if msg_type == b'Y'
    then parse_ignored 20 len c
    else if msg_type == b'L'
    then parse_ignored 26 len c
    else if msg_type == b'V'
    then parse_ignored 35 len c
    else if msg_type == b'W'
    then parse_ignored 12 len c
    else if msg_type == b'K'
    then parse_ignored 28 len c
    else if msg_type == b'J'
    then parse_ignored 35 len c
    else if msg_type == b'h'
    then parse_halt len msg c
    else if msg_type == b'A'
    then parse_add 36 len msg c
    else if msg_type == b'F'
    then parse_add 40 len msg c
    else if msg_type == b'E'
    then parse_reduce 31 len msg c
    else if msg_type == b'C'
    then parse_reduce 36 len msg c
    else if msg_type == b'X'
    then parse_reduce 23 len msg c
    else if msg_type == b'D'
    then parse_delete len c
    else if msg_type == b'U'
    then parse_replace len msg c
    else if msg_type == b'P'
    then parse_ignored 44 len c
    else if msg_type == b'Q'
    then parse_ignored 40 len c
    else if msg_type == b'B'
    then parse_ignored 17 len c
    else if msg_type == b'I'
    then parse_ignored 50 len c
    else if msg_type == b'N'
    then parse_ignored 20 len c
    else if msg_type == b'O'
    then parse_ignored 48 len c
    else failing unexpected_msg_type_field

unfoldable pub parse_msg : List ℕ → Outcome Results
unfolding dispatch
parse_msg msg =
    let msg_byte_len = int_from_bytes (slice 0 2 msg) in
    let c : Common = record {
      stock_locate = int_from_bytes (slice 3 5 msg);
      stock_symbol = symbol_of (slice 13 21 msg);
      order_id = int_from_bytes (slice 13 21 msg);
    } in
    if not (length msg == msg_byte_len + 2)
    then raised assertion_error
    else byte_at 2 msg >>= λ msg_type. dispatch msg_type msg_byte_len msg c
