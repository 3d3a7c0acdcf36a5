-- ===== src/Top/Stream.antt =====
-- What `Top.process_pkt` yields.
use nasdaq_itch_parser_order.Prelude.{
  ℕ, ◌≡◌, refl, Bool, true, false, some, List, [], ◌∷◌, ◌++◌, if◌then◌else◌, str_eq_refl, ==_refl,
}
use nasdaq_itch_parser_order.Mapping.{Mapping}
use nasdaq_itch_parser_order.Structs.{
  ModuleResult, Outcome, ret, raised, ok, error, L3Entry, Str, directory_msg, assertion_error,
}
use nasdaq_itch_parser_order.L2.Levels.{PriceMemory}
use nasdaq_itch_parser_order.Control
use nasdaq_itch_parser_order.Control.{Control}
use nasdaq_itch_parser_order.Bbo.{Quote}
use nasdaq_itch_parser_order.Mold
use nasdaq_itch_parser_order.Top
use nasdaq_itch_parser_order.Top.{
  Top, TopResult, Run, Locals, Verdict, take_msgs, take_msg, process_pkt, output,
}

abbrev pub is_ok : TopResult → Bool
is_ok (ok quote) = true
is_ok (error text) = false

-- Every result but the last is a quote, and the last is one if the generator raised.
abbrev pub IsStream : List TopResult → Bool → Type 0
IsStream [] raises = Unit {0}
IsStream (r ∷ []) raises = (raises ≡ true) → is_ok r ≡ true
IsStream (r ∷ rs) raises = (is_ok r ≡ true) × IsStream rs raises

abbrev pub raises : Outcome (Unit {0}) → Bool
raises (ret _) = false
raises (raised e) = true

-- a quote in front of a stream
quote-IsStream :
    (q : TopResult) (rs : List TopResult) (b : Bool)
    → is_ok q ≡ true
    → IsStream rs b
    → IsStream (q ∷ rs) b
quote-IsStream q [] b hq h = λ _. hq
quote-IsStream q (r ∷ rs) b hq h = (hq, h)

quoted :
    (flag : Bool) (q : Quote) (rs : List TopResult) (b : Bool)
    → IsStream rs b
    → IsStream ((if flag then ok q ∷ [] else []) ++ rs) b
quoted true q rs b h = quote-IsStream (ok q) rs b refl h
quoted false q rs b h = h

module _ {M N : Type 0} (orders : Mapping M L3Entry) (levels : PriceMemory N) where
  go_on-IsStream :
      (v : Verdict) (s : Top M N) (rest : Run (Top M N))
      → IsStream rest.results (raises rest.outcome)
      → IsStream
          (Top.go_on orders levels v s rest).results
          (raises (Top.go_on orders levels v s rest).outcome)
  go_on-IsStream (Verdict.proceed l) s rest h =
      quoted l.output_flag _ rest.results (raises rest.outcome) h
  go_on-IsStream (Verdict.refuse text) s rest h = λ e. cc
  go_on-IsStream (Verdict.raise e) s rest h = tt

  take_msgs-IsStream :
      (msgs : List (List ℕ)) (s : Top M N)
      → IsStream
          (take_msgs orders levels msgs s).results
          (raises (take_msgs orders levels msgs s).outcome)
  unfolding take_msgs
  take_msgs-IsStream [] s = tt
  take_msgs-IsStream (msg ∷ msgs) s =
      let t = take_msg orders levels msg s in
      go_on-IsStream t.0 t.1 (take_msgs orders levels msgs t.1) (take_msgs-IsStream msgs t.1)

  after_mold-IsStream :
      (payload : ModuleResult (List (List ℕ))) (s : Top M N)
      → IsStream
          (Top.after_mold orders levels payload s).results
          (raises (Top.after_mold orders levels payload s).outcome)
  after_mold-IsStream (ok payload) s = take_msgs-IsStream payload s
  after_mold-IsStream (error text) s = λ e. cc

-- Whatever packet comes in whatever state, an error ends the results of the packet: all before it
-- are quotes, and where the call raises an exception it has yielded no error.
pub process_pkt-IsStream :
    {M N : Type 0} (orders : Mapping M L3Entry) (levels : PriceMemory N) (s : Top M N)
    (pkt : List ℕ)
    → IsStream
        (process_pkt orders levels pkt s).results
        (raises (process_pkt orders levels pkt s).outcome)
unfolding process_pkt
process_pkt-IsStream orders levels s pkt =
    let r = Mold.process_pkt s.np pkt in
    after_mold-IsStream orders levels r.0 (record s { np = r.1 })

repeated_at :
    (c : Control) (locate : ℕ) (symbol : Str)
    → c.initialized ≡ true
    → c.stock_symbol ≡ some symbol
    → c.stock_locate ≡ some locate
    → c.msg_hours ≡ true
    → (a : Bool) × ((Control.process_msg c (directory_msg locate symbol)).0
        ≡ ret (ok (record { stock_active = a; stock_locate = some locate })))
unfolding Control.process_msg Control.handle Control.handle_directory Control.conclude
repeated_at c locate symbol hi hs hl hh = (
  Control.is_active (record c { stock_locate = some locate }),
  rw (hi, hs, str_eq_refl symbol, hl, ==_refl locate, hh) refl,
)

-- A directory entry of the watched stock with the locate number that the control module, which is
-- initialised, and the top level already have, in the hours of the feed: the top level raises
-- AssertionError.
pub duplicate_directory-raises :
    {M N : Type 0} (orders : Mapping M L3Entry) (levels : PriceMemory N) (s : Top M N) (locate : ℕ)
    (symbol : Str) (l : Locals)
    → s.ctrl.initialized ≡ true
    → s.ctrl.stock_symbol ≡ some symbol
    → s.ctrl.stock_locate ≡ some locate
    → s.ctrl.msg_hours ≡ true
    → s.stock_locate ≡ some locate
    → (Top.take_result orders levels (ok (directory_msg locate symbol)) l s).0
      ≡ Verdict.raise assertion_error
unfolding Top.take_result
duplicate_directory-raises orders levels s locate symbol l hi hs hl hh ht =
    let (a, e) = repeated_at s.ctrl locate symbol hi hs hl hh in rw (e, ht) refl
