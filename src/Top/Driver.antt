-- ===== src/Top/Driver.antt =====
-- `ref_axis_send_packet` of src/utils/axis_driver.py on the pipeline of src/ref_model/top.py: the cycles
-- of a packet, one after the other.
use nasdaq_itch_parser_order.Prelude.{
  ℕ, ◌<◌, ◌≡◌, refl, sym, ap, ◌∙◌, true, none, some, List, [], ◌∷◌, ◌++◌, length, append-nil,
}
use nasdaq_itch_parser_order.Mapping.{Mapping}
use nasdaq_itch_parser_order.Bytes.{IsBytes}
use nasdaq_itch_parser_order.Structs.{Outcome, ret, raised, L3Entry}
use nasdaq_itch_parser_order.Axis
use nasdaq_itch_parser_order.Axis.{Cycle, send_packet}
use nasdaq_itch_parser_order.Axis.Words.{Completes}
use nasdaq_itch_parser_order.Axis.Delivery.{send_packet-Completes}
use nasdaq_itch_parser_order.L2.Levels.{PriceMemory}
use nasdaq_itch_parser_order.Top
use nasdaq_itch_parser_order.Top.{Top, Run, TopResult, call_back}

module _ {M N : Type 0} (orders : Mapping M L3Entry) (levels : PriceMemory N) where
  -- the rest of a generator, unless an exception stops it
  abbrev pub then_run : Run (Top M N) → Run (Top M N) → Run (Top M N)
  then_run first rest = elim first.outcome [
    | raised e ↦ first
    | ret _ ↦ record rest { results = first.results ++ rest.results }
  ]

  -- `yield from ref.process_bus_cycle(...)` for each cycle
  unfoldable pub drive : List Cycle → Top M N → Run (Top M N)
  drive [] s = record { results = []; outcome = ret tt; state = s }
  drive (c ∷ cycles) s =
      let r = Top.process_bus_cycle orders levels c s in then_run r (drive cycles r.state)

  unfoldable pub ref_axis_send_packet : List ℕ → (ℕ → ℕ) → Top M N → Run (Top M N)
  unfolding drive
  ref_axis_send_packet byte_data drops s = drive (send_packet byte_data drops) s

  -- a cycle that completes no packet
  drive-none :
      (c : Cycle) (cycles : List Cycle) (s : Top M N) (buffer : List ℕ)
      → Axis.process_bus_cycle c true s.buffer ≡ (ret none, buffer)
      → drive (c ∷ cycles) s ≡ drive cycles (record s { buffer = buffer })
  unfolding drive Top.process_bus_cycle
  drive-none c cycles s buffer h =
      ap
        (λ (r : Outcome _ × List ℕ).
          let run = call_back orders levels r.0 (record s { buffer = r.1 }) in
          then_run run (drive cycles run.state))
        h

  run_alone :
      (results : List TopResult) (o : Outcome (Unit {0})) (s : Top M N)
      → then_run
          (record { results = results; outcome = o; state = s })
          (record { results = []; outcome = ret tt; state = s })
        ≡ record { results = results; outcome = o; state = s }
  run_alone results (raised e) s = refl
  run_alone results (ret tt) s =
      ap (λ rs. record { results = rs; outcome = ret tt; state = s }) (append-nil results)

  -- the cycle that completes one
  drive-last :
      (c : Cycle) (s : Top M N) (pkt : List ℕ)
      → Axis.process_bus_cycle c true s.buffer ≡ (ret (some pkt), [])
      → drive (c ∷ []) s ≡ Top.process_pkt orders levels pkt (record s { buffer = [] })
  unfolding drive Top.process_bus_cycle
  drive-last c s pkt h =
      let run = Top.process_pkt orders levels pkt (record s { buffer = [] }) in
      ap
        (λ (r : Outcome _ × List ℕ).
          let run = call_back orders levels r.0 (record s { buffer = r.1 }) in
          then_run run (drive [] run.state))
        h
      ∙ run_alone run.results run.outcome run.state

  drive-Completes :
      (cycles : List Cycle) (buffer pkt : List ℕ) (s : Top M N)
      → Completes cycles buffer pkt
      → drive cycles (record s { buffer = buffer })
        ≡ Top.process_pkt orders levels pkt (record s { buffer = [] })
  drive-Completes _ buffer pkt s (Completes.at_end {c} h) =
      drive-last c (record s { buffer = buffer }) pkt h
  drive-Completes _ buffer pkt s (Completes.before_end {c} {cycles} {buffer'} h rest) =
      drive-none c cycles (record s { buffer = buffer }) buffer' h
      ∙ drive-Completes cycles buffer' pkt s rest

  -- A packet of at least one byte that the driver sends over the bus, with any number of gaps before
  -- each word, to a pipeline with an empty buffer: the results, the way the run ends and the state
  -- are those of the packet handed over as a whole.
  pub send_packet-process_pkt :
      (pkt : List ℕ) (drops : ℕ → ℕ) (s : Top M N)
      → IsBytes pkt
      → 0 < length pkt
      → s.buffer ≡ []
      → ref_axis_send_packet pkt drops s ≡ Top.process_pkt orders levels pkt s
  unfolding ref_axis_send_packet
  send_packet-process_pkt pkt drops s bytes h e =
      ap (λ b. drive (send_packet pkt drops) (record s { buffer = b })) e
      ∙ drive-Completes (send_packet pkt drops) [] pkt s (send_packet-Completes pkt drops bytes h)
      ∙ ap (λ b. Top.process_pkt orders levels pkt (record s { buffer = b })) (sym e)
