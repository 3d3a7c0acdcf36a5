-- ===== src/Top/Lockstep/Runs.antt =====
-- The messages of a packet and the cycles of the bus, in `Top` over two kinds of memory.
use mathlib.Core.Path.{subst}
use nasdaq_itch_parser_order.Prelude.{
  ℕ, refl, ap, ◌∙◌, true, Option, none, some, List, [], ◌∷◌, ◌++◌,
}
use nasdaq_itch_parser_order.Structs.{Outcome, ret, raised, ModuleResult, ok, error}
use nasdaq_itch_parser_order.Axis
use nasdaq_itch_parser_order.Axis.{Cycle}
use nasdaq_itch_parser_order.Mold
use nasdaq_itch_parser_order.Book.{Book}
use nasdaq_itch_parser_order.Top.Driver.{then_run, drive}
use nasdaq_itch_parser_order.Top.{
  Top, Run, TopResult, Verdict, take_msg, take_msgs, go_on, after_mold, process_pkt, call_back,
  process_bus_cycle,
}
use nasdaq_itch_parser_order.Top.Lockstep.{
  Duo, with_book, IfProceeds, IfReturns, SuitsMsgs, SuitsPayload, SuitsCall, SuitsCycles,
  RunTogether,
}
use nasdaq_itch_parser_order.Top.Lockstep.Messages.{take_msg-Together}

module _ {M N M' N' : Type 0} (d : Duo M N M' N') where
  go_on-RunTogether :
      (ms : List (List ℕ)) (v : Verdict) (s : Top M N) (b' : Book M' N')
      → d.Pair s.book b'
      → IfProceeds (λ _. SuitsMsgs d ms s b') v
      → (SuitsMsgs d ms s b'
          → RunTogether d
              (take_msgs d.orders d.levels ms s)
              (take_msgs d.orders' d.levels' ms (with_book s b')))
      → RunTogether d (go_on d.orders d.levels v s (take_msgs d.orders d.levels ms s)) (
          go_on d.orders' d.levels' v
            (with_book s b')
            (take_msgs d.orders' d.levels' ms (with_book s b')))
  go_on-RunTogether ms (Verdict.proceed l) s b' p h later =
      let (b1, e, q) = later h in
      (b1, ap (λ r. go_on d.orders' d.levels' (Verdict.proceed l) (with_book s b') r) e, q)
  go_on-RunTogether ms (Verdict.refuse text) s b' p h later = (b', refl, p)
  go_on-RunTogether ms (Verdict.raise e) s b' p h later = (b', refl, p)

  take_msgs-RunTogether :
      (ms : List (List ℕ)) (s : Top M N) (b' : Book M' N')
      → d.Pair s.book b'
      → SuitsMsgs d ms s b'
      → RunTogether d
          (take_msgs d.orders d.levels ms s)
          (take_msgs d.orders' d.levels' ms (with_book s b'))
  unfolding take_msgs SuitsMsgs
  take_msgs-RunTogether [] s b' p h = (b', refl, p)
  take_msgs-RunTogether (m ∷ ms) s b' p h =
      let t = take_msg d.orders d.levels m s in
      let (b1, e, q) = take_msg-Together d m s b' p h.0 in
      let same_book = ap (λ (w : Verdict × Top M' N'). w.1.book) e in
      let (b2, e', q') =
        go_on-RunTogether ms t.0 t.1 b1 q
          (subst (λ b. IfProceeds (λ _. SuitsMsgs d ms t.1 b) t.0) same_book h.1)
          (λ h'. take_msgs-RunTogether ms t.1 b1 q h') in
      (
        b2,
        ap (λ w. go_on d.orders' d.levels' w.0 w.1 (take_msgs d.orders' d.levels' ms w.1)) e ∙ e',
        q',
      )

  after_mold-RunTogether :
      (o : ModuleResult (List (List ℕ))) (s : Top M N) (b' : Book M' N')
      → d.Pair s.book b'
      → SuitsPayload d o s b'
      → RunTogether d
          (after_mold d.orders d.levels o s)
          (after_mold d.orders' d.levels' o (with_book s b'))
  after_mold-RunTogether (error text) s b' p h = (b', refl, p)
  after_mold-RunTogether (ok payload) s b' p h = take_msgs-RunTogether payload s b' p h

  call_back-RunTogether :
      (o : Outcome (Option (List ℕ))) (s : Top M N) (b' : Book M' N')
      → d.Pair s.book b'
      → SuitsCall d o s b'
      → RunTogether d
          (call_back d.orders d.levels o s)
          (call_back d.orders' d.levels' o (with_book s b'))
  unfolding process_pkt
  call_back-RunTogether (raised e) s b' p h = (b', refl, p)
  call_back-RunTogether (ret none) s b' p h = (b', refl, p)
  call_back-RunTogether (ret (some pkt)) s b' p h =
      let r = Mold.process_pkt s.np pkt in after_mold-RunTogether r.0 (record s { np = r.1 }) b' p h

  cycle-RunTogether :
      (c : Cycle) (s : Top M N) (b' : Book M' N')
      → d.Pair s.book b'
      → (let a = Axis.process_bus_cycle c true s.buffer in
          SuitsCall d a.0 (record s { buffer = a.1 }) b')
      → RunTogether d
          (process_bus_cycle d.orders d.levels c s)
          (process_bus_cycle d.orders' d.levels' c (with_book s b'))
  unfolding process_bus_cycle
  cycle-RunTogether c s b' p h =
      let a = Axis.process_bus_cycle c true s.buffer in
      call_back-RunTogether a.0 (record s { buffer = a.1 }) b' p h

  then_run-RunTogether :
      (cycles : List Cycle) (results : List TopResult) (o : Outcome (Unit {0})) (s : Top M N)
      (b' : Book M' N')
      → d.Pair s.book b'
      → IfReturns o (SuitsCycles d cycles s b')
      → (SuitsCycles d cycles s b'
          → RunTogether d
              (drive d.orders d.levels cycles s)
              (drive d.orders' d.levels' cycles (with_book s b')))
      → RunTogether d
          (then_run d.orders d.levels
            (record { results = results; outcome = o; state = s })
            (drive d.orders d.levels cycles s))
          (then_run d.orders' d.levels'
            (record { results = results; outcome = o; state = with_book s b' })
            (drive d.orders' d.levels' cycles (with_book s b')))
  then_run-RunTogether cycles results (raised e) s b' p h later = (b', refl, p)
  then_run-RunTogether cycles results (ret tt) s b' p h later =
      let (b1, e, q) = later h in
      (b1, ap (λ (r : Run (Top M' N')). record r { results = results ++ r.results }) e, q)

  -- the two pipelines yield the same, end in the same way, and differ in their books only
  pub drive-RunTogether :
      (cycles : List Cycle) (s : Top M N) (b' : Book M' N')
      → d.Pair s.book b'
      → SuitsCycles d cycles s b'
      → RunTogether d
          (drive d.orders d.levels cycles s)
          (drive d.orders' d.levels' cycles (with_book s b'))
  unfolding drive SuitsCycles
  drive-RunTogether [] s b' p h = (b', refl, p)
  drive-RunTogether (c ∷ cycles) s b' p h =
      let r = process_bus_cycle d.orders d.levels c s in
      let (b1, e, q) = cycle-RunTogether c s b' p h.0 in
      let same_book = ap (λ (w : Run (Top M' N')). w.state.book) e in
      let (b2, e', q') =
        then_run-RunTogether cycles r.results r.outcome r.state b1 q
          (subst (λ b. IfReturns r.outcome (SuitsCycles d cycles r.state b)) same_book h.1)
          (λ h'. drive-RunTogether cycles r.state b1 q h') in
      (
        b2,
        ap
              (λ (w : Run (Top M' N')).
                then_run d.orders' d.levels' w (drive d.orders' d.levels' cycles w.state))
              e
            ∙ e',
        q',
      )
