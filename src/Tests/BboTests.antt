-- ===== src/Tests/BboTests.antt =====
-- src/ref_model/bbo.py at concrete ladders.
use nasdaq_itch_parser_order.Prelude.{ℕ, ◌≡◌, refl, true, false, [], ◌∷◌, map, take, arith}
use nasdaq_itch_parser_order.Structs.{ret, ok, fail, ItchMsgType, no_shares_in_range}
use nasdaq_itch_parser_order.Bbo.Half.{answer, process_msg, process_updt}
use nasdaq_itch_parser_order.Bbo.Ladder.{Level, Ladder, IsLadder, place, take_off, total, shares_of}
use nasdaq_itch_parser_order.Bbo.Adds.{showing, order, entry_of, process_msg-adds}
use nasdaq_itch_parser_order.Bbo.Reduces.{process_msg-reduces}
use nasdaq_itch_parser_order.Bbo.Lowering.{after_reduces, frees, short}
use nasdaq_itch_parser_order.Bbo.Update.{process_updt-showing}

abbrev at : (shares price : ℕ) → Level
at n p = record { shares = n; price = p }

-- three bids, the last of which is below the range from 400000 on
abbrev three_bids : Ladder
three_bids = at 10 400100 ∷ at 20 400050 ∷ at 30 399950 ∷ []

three_bids-IsLadder : IsLadder true three_bids
three_bids-IsLadder =
    (omega arith, (refl, (refl, tt)), (omega arith, (refl, tt), (omega arith, tt, tt)))

process_msg-adds_example :
    process_msg (showing true false 400000 three_bids) (order ItchMsgType.add true 5 400075) ≡ (
      ret (ok (answer (map entry_of (take 2 (place true 5 400075 three_bids))) false 0)),
      showing true false 400000 (place true 5 400075 three_bids),
    )
process_msg-adds_example =
    process_msg-adds true false 400000 5 400075 ItchMsgType.add three_bids refl

process_msg-reduces_example :
    process_msg (showing true false 400000 three_bids) (order ItchMsgType.delete true 10 400100)
    ≡ after_reduces true false 400000 (frees 10 400100 three_bids) (take_off 10 400100 three_bids)
unfolding shares_of
process_msg-reduces_example =
    process_msg-reduces true false 400000 10 400100 ItchMsgType.delete three_bids refl
      three_bids-IsLadder (omega arith) (omega arith)

-- the third bid is out of range: the side gives the error, and is left with one entry
no_update :
    after_reduces true false 400000 (frees 10 400100 three_bids) (take_off 10 400100 three_bids)
    ≡ (ret (fail no_shares_in_range), short true false 400000 (at 20 400050 ∷ at 30 399950 ∷ []))
unfolding take_off total
no_update = refl

process_updt-showing_example :
    process_updt (short true true 400000 three_bids) (entry_of (at 20 400050))
    ≡ ret (showing true true 400000 three_bids)
unfolding total
process_updt-showing_example =
    process_updt-showing true true 400000 (at 10 400100) (at 20 400050) (at 30 399950 ∷ [])
      three_bids-IsLadder (omega arith)
