-- ===== src/Itch/RoundTrips.antt =====
-- `ITCHParser.parse_msg` on the generated messages of orders.
use nasdaq_itch_parser_order.Prelude.{ℕ, ◌^◌, ◌<◌, ◌≡◌, Bool, true, false, List, [], ◌∷◌, arith}
use nasdaq_itch_parser_order.Bytes.{to_big, int_from-to_big}
use nasdaq_itch_parser_order.PktGen.{
  gen_add_msg, gen_execute_msg, gen_cancel_msg, gen_delete_msg, gen_replace_msg,
}
use nasdaq_itch_parser_order.Structs.{
  ret, ok, add_order_msg, reduce_order_msg, delete_order_msg, replace_order_msg,
}
use nasdaq_itch_parser_order.Itch.{parse_msg}

abbrev pub side_char : Bool → List ℕ
side_char true = b'B' ∷ []
side_char false = b'S' ∷ []

-- An Add message, with or without a participant, is read back.
pub parse-gen_add_msg :
    (locate order_id shares price : ℕ) (is_buy mpid : Bool)
    → locate < 256 ^ 2
    → order_id < 256 ^ 8
    → shares < 256 ^ 4
    → price < 256 ^ 4
    → parse_msg (gen_add_msg locate order_id (side_char is_buy) shares price mpid)
      ≡ ret (ok (add_order_msg locate order_id is_buy shares price) ∷ [])
unfolding parse_msg gen_add_msg to_big
parse-gen_add_msg l k n p true false hl hk hn hp = rw (
  int_from-to_big 2 36 (omega arith),
  int_from-to_big 2 l hl,
  int_from-to_big 8 k hk,
  int_from-to_big 4 n hn,
  int_from-to_big 4 p hp,
)
parse-gen_add_msg l k n p true true hl hk hn hp = rw (
  int_from-to_big 2 40 (omega arith),
  int_from-to_big 2 l hl,
  int_from-to_big 8 k hk,
  int_from-to_big 4 n hn,
  int_from-to_big 4 p hp,
)
parse-gen_add_msg l k n p false false hl hk hn hp = rw (
  int_from-to_big 2 36 (omega arith),
  int_from-to_big 2 l hl,
  int_from-to_big 8 k hk,
  int_from-to_big 4 n hn,
  int_from-to_big 4 p hp,
)
parse-gen_add_msg l k n p false true hl hk hn hp = rw (
  int_from-to_big 2 40 (omega arith),
  int_from-to_big 2 l hl,
  int_from-to_big 8 k hk,
  int_from-to_big 4 n hn,
  int_from-to_big 4 p hp,
)

-- Executions, with or without a price, are read back as reductions.
pub parse-gen_execute_msg :
    (locate order_id shares : ℕ) (at_price : Bool)
    → locate < 256 ^ 2
    → order_id < 256 ^ 8
    → shares < 256 ^ 4
    → parse_msg (gen_execute_msg locate order_id shares at_price)
      ≡ ret (ok (reduce_order_msg locate order_id shares) ∷ [])
unfolding parse_msg gen_execute_msg to_big
parse-gen_execute_msg l k n false hl hk hn = rw (
  int_from-to_big 2 31 (omega arith),
  int_from-to_big 2 l hl,
  int_from-to_big 8 k hk,
  int_from-to_big 4 n hn,
)
parse-gen_execute_msg l k n true hl hk hn = rw (
  int_from-to_big 2 36 (omega arith),
  int_from-to_big 2 l hl,
  int_from-to_big 8 k hk,
  int_from-to_big 4 n hn,
)

-- A cancellation is read back as a reduction.
pub parse-gen_cancel_msg :
    (locate order_id shares : ℕ)
    → locate < 256 ^ 2
    → order_id < 256 ^ 8
    → shares < 256 ^ 4
    → parse_msg (gen_cancel_msg locate order_id shares)
      ≡ ret (ok (reduce_order_msg locate order_id shares) ∷ [])
unfolding parse_msg gen_cancel_msg to_big
parse-gen_cancel_msg l k n hl hk hn = rw (
  int_from-to_big 2 23 (omega arith),
  int_from-to_big 2 l hl,
  int_from-to_big 8 k hk,
  int_from-to_big 4 n hn,
)

pub parse-gen_delete_msg :
    (locate order_id : ℕ)
    → locate < 256 ^ 2
    → order_id < 256 ^ 8
    → parse_msg (gen_delete_msg locate order_id) ≡ ret (ok (delete_order_msg locate order_id) ∷ [])
unfolding parse_msg gen_delete_msg to_big
parse-gen_delete_msg l k hl hk =
    rw (int_from-to_big 2 19 (omega arith), int_from-to_big 2 l hl, int_from-to_big 8 k hk)

-- A replacement is read back as a deletion of the old order and a replacement by the new one.
pub parse-gen_replace_msg :
    (locate old_id new_id shares price : ℕ)
    → locate < 256 ^ 2
    → old_id < 256 ^ 8
    → new_id < 256 ^ 8
    → shares < 256 ^ 4
    → price < 256 ^ 4
    → parse_msg (gen_replace_msg locate old_id new_id shares price)
      ≡ ret (
          ok (delete_order_msg locate old_id)
          ∷ ok (replace_order_msg locate new_id shares price)
          ∷ [])
unfolding parse_msg gen_replace_msg to_big
parse-gen_replace_msg l k j n p hl hk hj hn hp = rw (
  int_from-to_big 2 35 (omega arith),
  int_from-to_big 2 l hl,
  int_from-to_big 8 k hk,
  int_from-to_big 8 j hj,
  int_from-to_big 4 n hn,
  int_from-to_big 4 p hp,
)
