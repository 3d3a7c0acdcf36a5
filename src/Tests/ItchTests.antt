-- ===== src/Tests/ItchTests.antt =====
-- src/ref_model/itch_parser.py at concrete messages.
use nasdaq_itch_parser_order.Prelude.{ℕ, List, ◌≡◌, refl, true, false, [], ◌∷◌, replicate, arith}
use nasdaq_itch_parser_order.Bytes.{to_big, from_big}
use nasdaq_itch_parser_order.Utf8.{decode}
use nasdaq_itch_parser_order.Itch.Cases.{symbol_of}
use nasdaq_itch_parser_order.Structs.{
  ret, raised, fail, index_error, unbound_local_error, assertion_error, invalid_buy_sell_indicator,
  unexpected_msg_type_field,
}
use nasdaq_itch_parser_order.PktGen.{gen_add_msg, gen_wrong_msg, gen_directory_msg}
use nasdaq_itch_parser_order.Itch.{parse_msg}
use nasdaq_itch_parser_order.Itch.Ends.{Ends}
use nasdaq_itch_parser_order.Itch.Outcomes.{parse_msg-Ends}
use nasdaq_itch_parser_order.Itch.Wire.{WireMsg, w_add, encode, meaning, parse-encode}

abbrev add_ten : WireMsg
add_ten = w_add 7 123456789 true 10 1000050 true

parse-encode_example : parse_msg (encode add_ten) ≡ ret (meaning add_ten)
parse-encode_example = parse-encode add_ten (omega arith, omega arith, omega arith, omega arith)

wrong_type : parse_msg gen_wrong_msg ≡ ret (fail unexpected_msg_type_field ∷ [])
unfolding parse_msg gen_wrong_msg to_big from_big
wrong_type = refl

wrong_side :
    parse_msg (gen_add_msg 7 1 (b'?' ∷ []) 10 50 false) ≡ ret (fail invalid_buy_sell_indicator ∷ [])
unfolding parse_msg gen_add_msg to_big from_big
wrong_side = refl

-- a message of no bytes, which the MoldUDP64 parser hands on
empty_msg : parse_msg (0 ∷ 0 ∷ []) ≡ raised index_error
unfolding parse_msg from_big
empty_msg = refl

truncated : parse_msg (0 ∷ 5 ∷ b'D' ∷ []) ≡ raised assertion_error
unfolding parse_msg from_big
truncated = refl

-- a symbol that is not UTF-8
unreadable_symbol : parse_msg (gen_directory_msg 7 (replicate 8 0xff)) ≡ raised unbound_local_error
unfolding parse_msg gen_directory_msg to_big from_big symbol_of decode
unreadable_symbol = refl

-- the order 10 is deleted
abbrev delete_ten : List ℕ
delete_ten =
    0 ∷ 19 ∷ 68 ∷ 1 ∷ 88 ∷ 0 ∷ 0 ∷ 0 ∷ 0 ∷ 0 ∷ 0 ∷ 0 ∷ 0 ∷ 0 ∷ 0 ∷ 0 ∷ 0 ∷ 0 ∷ 0 ∷ 0 ∷ 10 ∷ []

parse_msg-Ends_example : Ends delete_ten (parse_msg delete_ten)
parse_msg-Ends_example = parse_msg-Ends delete_ten (
  omega arith,
  (
    omega arith,
    (
      omega arith,
      (
        omega arith,
        (
          omega arith,
          (
            omega arith,
            (
              omega arith,
              (
                omega arith,
                (
                  omega arith,
                  (
                    omega arith,
                    (
                      omega arith,
                      (
                        omega arith,
                        (
                          omega arith,
                          (
                            omega arith,
                            (
                              omega arith,
                              (
                                omega arith,
                                (
                                  omega arith,
                                  (omega arith, (omega arith, (omega arith, (omega arith, tt)))),
                                ),
                              ),
                            ),
                          ),
                        ),
                      ),
                    ),
                  ),
                ),
              ),
            ),
          ),
        ),
      ),
    ),
  ),
)
