-- ===== src/Lib.antt =====
-- The Python reference model of a NASDAQ ITCH 5.0 feed handler with an order book for one stock.
--
-- The program. `Top` (src/ref_model/top.py) takes 32-bit AXI-Stream cycles. `AxisInterpreter`
-- (src/ref_model/axis_interpreter.py) puts packets together, `MoldUDP64Parser`
-- (src/ref_model/moldudp64_parser.py) checks session and sequence number and cuts a packet into
-- messages, `ITCHParser` (src/ref_model/itch_parser.py) reads a message, `Control`
-- (src/ref_model/control.py) follows the hours of the feed, the halts and the locate number of the
-- stock, and `Book` (src/ref_model/book.py) keeps the orders: `L3` (src/ref_model/l3_order_table.py)
-- by order, `L2` (src/ref_model/l2_price_table.py) as shares by price, `BBO`
-- (src/ref_model/bbo.py) as the two best levels of each side, which asks L2 for the next level when
-- one is used up. L3 and L2 exist twice: `ideal` over Python's dicts, and over the memories of the
-- hardware, a hash table with a CAM and an array indexed by a price hash.
--
-- Which file models what, with the source's names in the definitions:
--   Params, Structs        src/ref_model/params.py and structs.py: `config`, messages, results, errors
--   Axis                   `AxisInterpreter.process_bus_cycle`, and `ref_axis_send_packet` of
--                          src/utils/axis_driver.py (`send_packet`)
--   Mold                   `MoldUDP64Parser.process_pkt`, its loop as `split_payload`
--   Itch, Itch.Cases       `ITCHParser.parse_msg`, a definition for each case of its `match`
--   Utf8                   `bytes.decode()` of the symbol
--   PktGen                 the message generators of tests/pkt_gen.py
--   Control                `Control.init_params` and `process_msg`, a definition for each case
--   L3, L3.Memory          `L3.process_msg` by its four cases, and `L3Memory`
--   L2, L2.Memory, L2.Hash `L2.init_params`, `process_msg`, `get_updt`, `L2Memory`, `price_hash`
--   Bbo, Bbo.Half          `BBO` and `BBOHalf`, the loop over the entries as `scan`
--   Book, Top, Top.Entries `init_params` and `process_msg`; the pipeline from cycles to results; the
--                          entry points that the tests use
--   Top.Driver             `ref_axis_send_packet` on the pipeline
--   StreamPkt              sim/data/stream_pkt.py: the stream of a recorded feed, its filter by locate
--                          number (`filter_itch_file`), and `generate_moldudp_packets`
--   Book.Check             `Book.assert_consistent_state`, over `dict(m)` of each memory
--   RstInit                `ref_rst_init` of src/utils/rst_init.py
-- The other files below these hold the proofs. Dict, Bytes, Prelude.IntSets and Mapping stand for
-- Python's dicts, byte strings, sets and the `MutableMapping` protocol: L3 is written over a `Mapping`
-- and L2 over a `PriceMemory`, whose laws of a map are `IsMap` and `IsPriceMap`. Bbo.Ladder is the
-- abstract view of one side of a book, its levels in order, and L3.Spec that of the order table.
-- Top.Lockstep.Duo is the interface between two kinds of memory: a relation of books and the messages
-- that keep it, from which the equality of two pipelines over them follows.
-- Book.Setting says what memory L2 stands on and which prices it takes, Book.Orders what rests at a
-- price, and Book.Sound which messages a book takes: prices on a tick, at least one share, and no order
-- at or beyond the price of a resting order of the other side.
--
-- How it is modelled. A method takes the state and returns the new one beside what it returns. A
-- result is `ok` or `error` with its text, whose f-strings are constructors and whose prefixes a
-- list; an exception is `raised`, and what was written before it stays written, except that an
-- exception out of an initialisation leaves no state. A generator is the list of what it yields, how
-- it ends, and the state behind it. Numbers are the native naturals; shares that Python may let
-- become negative are integers of two parts. Loops over lists and counted loops are recursion on the
-- list or the count; the two loops over a file run on fuel, its length and one more, which is enough
-- since each round reads two bytes, and a generator without an end is its first packets, as many as
-- are asked for. The sizes are those of `config`: 2048 lines of 8
-- orders and a CAM of 8, 2048 prices, and a depth of 2. The random gaps of the driver and the random
-- sizes of the batches are any function from the word or the round to a number.
--
-- Not modelled: the SystemVerilog under rtl/, another language; the cocotb benches under sim/ and the
-- drivers of the RTL, which drive a simulator; `write_sv_package`, which prints text; and what is
-- printed or logged, except for the format specification of the log message in
-- `L3Memory.__setitem__`, which raises.
pub mod Prelude
pub mod Params
pub mod Structs
pub mod Dict
pub mod Bytes
pub mod Mapping
pub mod L3
pub mod L2
pub mod Bbo
pub mod Book
pub mod Axis
pub mod Top
pub mod Mold
pub mod Control
pub mod Utf8
pub mod Itch
pub mod PktGen
pub mod StreamPkt
pub mod RstInit
mod Tests
