-- ===== src/Axis.antt =====
-- src/ref_model/axis_interpreter.py, which puts packets together from bus cycles, and
-- `ref_axis_send_packet` of src/utils/axis_driver.py, which cuts them into cycles.
pub mod Words
pub mod Delivery
use nasdaq_itch_parser_order.Prelude.{
  ℕ, zero, suc, ◌+◌, ◌-◌, ◌*◌, ◌/◌, ◌%◌, ◌^◌, Bool, true, false, not, ◌&&◌, Option, none, some,
  List, [], ◌∷◌, ◌++◌, ltb, ◌==◌, if◌then◌else◌, length, slice, replicate, map,
}
use nasdaq_itch_parser_order.Bytes.{from_little, to_little}
use nasdaq_itch_parser_order.Structs.{Outcome, ret, raised, overflow_error}

-- The arguments of `process_bus_cycle`; `tready` is the caller's.
pub record Cycle : Type 0 where
  pub tdata : ℕ
  pub tlast : Bool
  pub tvalid : Bool
  pub tkeep : ℕ

-- `(tkeep >> i) & 0x1`
abbrev pub keeps : ℕ → ℕ → Bool
keeps tkeep i = not (tkeep / 2 ^ i % 2 == 0)

-- `for i in range(4)`, from an index on, with the bytes of the word that are left
unfoldable pub kept : ℕ → ℕ → List ℕ → List ℕ
kept tkeep i [] = []
kept tkeep i (b ∷ word_bytes) =
    let rest = kept tkeep (i + 1) word_bytes in if keeps tkeep i then b ∷ rest else rest

-- The packet that the callback is called with, if any, and the buffer behind the call. The
-- callback runs after the buffer is cleared.
unfoldable pub process_bus_cycle :
    Cycle → (tready : Bool) → List ℕ → Outcome (Option (List ℕ)) × List ℕ
process_bus_cycle c tready buffer =
    let full = buffer ++ kept c.tkeep 0 (to_little 4 c.tdata) in
    if not (c.tvalid && tready)
    then (ret none, buffer)
    else if not (ltb c.tdata (256 ^ 4))
    then (raised overflow_error, buffer)
    else if c.tlast
    then (ret (some full), [])
    else (ret none, full)

-- `process_bus_cycle(0, False, False, tkeep_value)`
abbrev pub gap : ℕ → Cycle
gap tkeep = record { tdata = 0; tlast = false; tvalid = false; tkeep = tkeep }

abbrev pub padding_len : List ℕ → ℕ
padding_len byte_data = (4 - length byte_data % 4) % 4

abbrev pub padded_data : List ℕ → List ℕ
padded_data byte_data = byte_data ++ replicate (padding_len byte_data) 0

abbrev pub total_words : List ℕ → ℕ
total_words byte_data = length (padded_data byte_data) / 4

abbrev pub tkeep_value : List ℕ → ℕ → ℕ
tkeep_value byte_data word_idx =
    if word_idx == total_words byte_data - 1 && ltb 0 (padding_len byte_data)
    then 2 ^ (4 - padding_len byte_data) - 1
    else 0xf

-- one round of the loop, with the number of times that `random.random()` drops `tvalid`
unfoldable pub word_cycles : List ℕ → ℕ → ℕ → List Cycle
word_cycles byte_data drops word_idx =
    replicate drops (gap (tkeep_value byte_data word_idx))
    ++ record {
      tdata = from_little (slice (word_idx * 4) (word_idx * 4 + 4) (padded_data byte_data));
      tlast = word_idx == total_words byte_data - 1;
      tvalid = true;
      tkeep = tkeep_value byte_data word_idx;
    }
      ∷ []

-- the rounds from `word_idx` on; `drops` stands for the random numbers, a count for each word
unfoldable pub cycles_from : List ℕ → (ℕ → ℕ) → ℕ → ℕ → List Cycle
unfolding word_cycles
cycles_from byte_data drops word_idx zero = []
cycles_from byte_data drops word_idx (suc n) =
    word_cycles byte_data (drops word_idx) word_idx ++ cycles_from byte_data drops (word_idx + 1) n

-- the cycles of `ref_axis_send_packet`
unfoldable pub send_packet : List ℕ → (ℕ → ℕ) → List Cycle
unfolding cycles_from
send_packet byte_data drops = cycles_from byte_data drops 0 (total_words byte_data)

-- a packet in front of those that follow
abbrev pub deliver :
    Option (List ℕ) → Outcome (List (List ℕ)) × List ℕ → Outcome (List (List ℕ)) × List ℕ
deliver none rest = rest
deliver (some pkt) (raised e, buffer) = (raised e, buffer)
deliver (some pkt) (ret pkts, buffer) = (ret (pkt ∷ pkts), buffer)

-- The packets of a row of cycles, always ready, and the buffer behind it, or the exception that
-- stops it.
unfoldable pub receive : List Cycle → List ℕ → Outcome (List (List ℕ)) × List ℕ
receive [] buffer = (ret [], buffer)
receive (c ∷ cycles) buffer =
    let r = process_bus_cycle c true buffer in
    elim r.0 [ raised e ↦ (raised e, r.1) | ret got ↦ deliver got (receive cycles r.1) ]
