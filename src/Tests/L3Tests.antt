-- ===== src/Tests/L3Tests.antt =====
-- src/ref_model/l3_order_table.py at concrete orders.
use nasdaq_itch_parser_order.Prelude.{
  ℕ, ◌+◌, ◌≡◌, ◌≢◌, ◌⊎◌, refl, true, none, some, List, [], ◌∷◌, arith, All, length, ltb,
  if◌then◌else◌,
}
use mathlib.Core.List.{get_last?}
use nasdaq_itch_parser_order.Dict
use nasdaq_itch_parser_order.Dict.{Dict}
use nasdaq_itch_parser_order.Mapping.{dict_ops, dict_ops-IsMap}
use nasdaq_itch_parser_order.Structs.{
  ret, raised, value_error, ok, fail, Exn, reduce_of_missing_order_id, ItchMsg, ItchMsgType,
  add_order_msg, reduce_order_msg, delete_order_msg, replace_order_msg, L3Entry,
}
use nasdaq_itch_parser_order.L3.{L3, L3Result, process_msg, downstream, catch_memory_error}
use nasdaq_itch_parser_order.L3
use nasdaq_itch_parser_order.L3.Memory
use nasdaq_itch_parser_order.L3.Memory.{L3Memory, memory_ops}
use nasdaq_itch_parser_order.L3.Memory.Slots
use nasdaq_itch_parser_order.L3.Memory.Laws.{memory_ops-IsMap}
use nasdaq_itch_parser_order.L3.Memory.Capacity.{init-IsValid, view-init, set_item_new}
use nasdaq_itch_parser_order.L3.Spec.{update, step}
use nasdaq_itch_parser_order.L3.Refines.{Matches, Refused, table_of, process_msg-refines}
use nasdaq_itch_parser_order.L3.Runs.{results, results-ideal}
use nasdaq_itch_parser_order.L3.Sequences.{reduce_in_parts, delete-replace, resting, replacement}
use nasdaq_itch_parser_order.L3.Cam.{after, cam_unused}

abbrev bid : L3Entry
bid = record { is_buy = true; shares = 1000; price = 10500 }

abbrev session : List ItchMsg
session =
    add_order_msg 7 1 true 1000 10500
    ∷ reduce_order_msg 7 1 400
    ∷ delete_order_msg 7 1
    ∷ replace_order_msg 7 2049 500 10600
    ∷ reduce_order_msg 7 1 1
    ∷ []

-- order ids 1 and 2049 share a hash
session_results :
    results memory_ops (L3.init Memory.init) session
    ≡ ret (ok (downstream ItchMsgType.add bid 1000))
      ∷ ret (ok (downstream ItchMsgType.reduce bid 400))
      ∷ ret (ok (downstream ItchMsgType.delete (resting bid 600 10500) 600))
      ∷ ret (ok (downstream ItchMsgType.replace (resting bid 500 10600) 500))
      ∷ ret (fail reduce_of_missing_order_id)
      ∷ []
unfolding results L3.process_msg Memory.has_key Memory.get_item Memory.set_item Memory.del_item
    Memory.spill Memory.oid_hash Memory.empty_lines Dict.contains Dict.lookup Dict.insert
    Dict.delete
session_results = refl

-- nine orders whose ids share the hash 1
abbrev crowd : List ItchMsg
crowd =
    add_order_msg 7 1 true 10 10500
    ∷ add_order_msg 7 2049 true 10 10500
    ∷ add_order_msg 7 4097 true 10 10500
    ∷ add_order_msg 7 6145 true 10 10500
    ∷ add_order_msg 7 8193 true 10 10500
    ∷ add_order_msg 7 10241 true 10 10500
    ∷ add_order_msg 7 12289 true 10 10500
    ∷ add_order_msg 7 14337 true 10 10500
    ∷ add_order_msg 7 16385 true 10 10500
    ∷ []

-- the ninth order of a line is meant for the CAM
crowd_raises :
    get_last? (results memory_ops (L3.init Memory.init) crowd) ≡ some (raised value_error)
unfolding results L3.process_msg Memory.has_key Memory.get_item Memory.set_item Memory.del_item
    Memory.spill Memory.oid_hash Memory.empty_lines Dict.contains Dict.lookup Dict.insert
    Dict.delete
crowd_raises = refl

process_msg-refines_example :
    Matches memory_ops Slots.IsValid Slots.view
      (process_msg memory_ops (L3.init Memory.init) (add_order_msg 7 1 true 1000 10500))
      (step
        (table_of memory_ops Slots.IsValid Slots.view (L3.init Memory.init))
        (add_order_msg 7 1 true 1000 10500))
    ⊎ Refused memory_ops Slots.IsValid Slots.view
        (L3.init Memory.init)
        (process_msg memory_ops (L3.init Memory.init) (add_order_msg 7 1 true 1000 10500))
process_msg-refines_example =
    process_msg-refines memory_ops-IsMap (L3.init Memory.init) init-IsValid
      (add_order_msg 7 1 true 1000 10500)

session_fine : All (λ r. r ≢ raised value_error) (results memory_ops (L3.init Memory.init) session)
session_fine = rw session_results (λ e. cc, (λ e. cc, (λ e. cc, (λ e. cc, (λ e. cc, tt)))))

results-ideal_example :
    results memory_ops (L3.init Memory.init) session ≡ results dict_ops (L3.init []) session
results-ideal_example = results-ideal session session_fine

set_item_new_example : Memory.set_item 2049 bid Memory.init ≡ (
    if ltb (length (Memory.line_of Memory.init 2049)) 8
    then ret (
        Memory.write_line 2049 (Dict.insert 2049 bid (Memory.line_of Memory.init 2049)) Memory.init)
    else raised value_error)
set_item_new_example = set_item_new Memory.init 2049 bid init-IsValid (view-init 2049)

cam_unused_example : (after (L3.init Memory.init) crowd).memory.cam ≡ []
cam_unused_example = cam_unused crowd

-- a dict with one resting order
abbrev one_order : L3 (Dict L3Entry)
one_order = record { memory = (1, bid) ∷ []; last_del_is_buy = none }

reduce_in_parts_example :
    Dict.lookup 1
      (process_msg dict_ops
        (process_msg dict_ops one_order (reduce_order_msg 7 1 300)).1
        (reduce_order_msg 7 1 700)).1.memory
    ≡ Dict.lookup 1 (process_msg dict_ops one_order (reduce_order_msg 7 1 (300 + 700))).1.memory
unfolding Dict.lookup
reduce_in_parts_example =
    reduce_in_parts dict_ops-IsMap one_order tt 7 1 bid refl 300 700 (omega arith) (omega arith) 1

replaced_room :
    (x : Exn) → (replacement dict_ops one_order 7 1 2 500 10600).0 ≢ catch_memory_error x
unfolding L3.process_msg Dict.contains Dict.lookup Dict.insert Dict.delete
replaced_room x e = ground arith

delete-replace_example :
    ((replacement dict_ops one_order 7 1 2 500 10600).0
      ≡ ret (ok (downstream ItchMsgType.replace (resting bid 500 10600) 500)))
    × ((j : ℕ)
        → Dict.lookup j (replacement dict_ops one_order 7 1 2 500 10600).1.memory
          ≡ update 2
              (some (resting bid 500 10600))
              (update 1 none (λ k. Dict.lookup k one_order.memory))
              j)
unfolding Dict.lookup
delete-replace_example =
    delete-replace dict_ops-IsMap one_order tt 7 1 bid refl 2 500 10600 refl replaced_room
