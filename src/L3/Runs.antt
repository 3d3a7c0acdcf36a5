-- ===== src/L3/Runs.antt =====
-- Sequences of messages: the order table over the hardware memory against the ideal one.
use mathlib.Core.Path.{fun_ext}
use nasdaq_itch_parser_order.Prelude.{
  ℕ, ◌≡◌, ◌≢◌, refl, sym, ap, ◌∙◌, Option, none, List, [], ◌∷◌, inl, inr, All,
}
use nasdaq_itch_parser_order.Dict
use nasdaq_itch_parser_order.Dict.{Dict}
use nasdaq_itch_parser_order.Mapping.{Mapping, IsMap, dict_ops, dict_ops-IsMap}
use nasdaq_itch_parser_order.Structs.{Exn, Outcome, ret, raised, value_error, ItchMsg, L3Entry}
use nasdaq_itch_parser_order.L3.{L3, L3Result, process_msg, catch_memory_error}
use nasdaq_itch_parser_order.L3
use nasdaq_itch_parser_order.L3.Memory
use nasdaq_itch_parser_order.L3.Memory.{L3Memory, memory_ops}
use nasdaq_itch_parser_order.L3.Memory.Slots
use nasdaq_itch_parser_order.L3.Memory.Laws.{memory_ops-IsMap}
use nasdaq_itch_parser_order.L3.Memory.Capacity.{init-IsValid, view-init, set_item_raises}
use nasdaq_itch_parser_order.L3.Spec.{Table, step}
use nasdaq_itch_parser_order.L3.Refines.{Matches, table_of, table-Matches, process_msg-refines}

-- The results of one call for each message, in order.
unfoldable pub results :
    {M : Type 0} (ops : Mapping M L3Entry) → L3 M → List ItchMsg → List (Outcome L3Result)
results ops s [] = []
results ops s (msg ∷ msgs) = let (r, s') = process_msg ops s msg in r ∷ results ops s' msgs

unfoldable pub spec_results : Table → List ItchMsg → List (Outcome L3Result)
spec_results w [] = []
spec_results w (msg ∷ msgs) = let (r, w') = step w msg in r ∷ spec_results w' msgs

module _ {M : Type 0} {ops : Mapping M L3Entry} {IsValid : M → Type 0}
    {view : M → ℕ → Option L3Entry} (laws : IsMap ops IsValid view)
    (Fine : Outcome L3Result → Type 0)
    (fine : (m : M) (k : ℕ) (e : L3Entry) (x : Exn)
      → ops.set_item k e m ≡ raised x
      → ¬ Fine (catch_memory_error x)) where
  -- where a refusal is ruled out, a call is a step of the specification
  pub fine_step :
      (s : L3 M) (msg : ItchMsg)
      → IsValid s.memory
      → Fine (process_msg ops s msg).0
      → Matches ops IsValid view (process_msg ops s msg) (step (table_of ops IsValid view s) msg)
  fine_step s msg v ok = elim (process_msg-refines laws s v msg) [
    | inl h ↦ h
    | inr h ↦ absurd (fine s.memory h.order_id h.entry h.exn h.refusal (rw h.result at ok))
  ]

  results-spec :
      (s : L3 M) (msgs : List ItchMsg)
      → IsValid s.memory
      → All Fine (results ops s msgs)
      → results ops s msgs ≡ spec_results (table_of ops IsValid view s) msgs
  unfolding results spec_results
  results-spec s [] v ok = refl
  results-spec s (msg ∷ msgs) v ok =
      let h = fine_step s msg v ok.0 in
      rw (
        h.result,
        results-spec (process_msg ops s msg).1 msgs h.valid ok.1,
        table-Matches ops IsValid view _ _ h,
      )

-- the hardware memory refuses by `ValueError` alone, and a dict never
pub hardware_refusal :
    (m : L3Memory) (k : ℕ) (e : L3Entry) (x : Exn)
    → Memory.set_item k e m ≡ raised x
    → ¬ (catch_memory_error x ≢ raised value_error)
hardware_refusal m k e x h ne = ne (ap catch_memory_error (set_item_raises m k e x h))

pub dict_refusal :
    (d : Dict L3Entry) (k : ℕ) (e : L3Entry) (x : Exn)
    → ◌≡◌ {A = Outcome (Dict L3Entry)} (ret (Dict.insert k e d)) (raised x)
    → ¬ Unit {0}
dict_refusal d k e x h = cc

All-units : {A : Type 0} (xs : List A) → All (λ x. Unit {0}) xs
All-units [] = tt
All-units (x ∷ xs) = (tt, All-units xs)

pub start_tables :
    table_of memory_ops Slots.IsValid Slots.view (L3.init Memory.init)
    ≡ table_of dict_ops (λ d. Unit {0}) (λ d k. Dict.lookup k d) (L3.init [])
unfolding Dict.lookup
start_tables = ap {B = Table} (λ f. record { orders = f; last = none }) (fun_ext view-init)

-- From empty tables, the order table over the hardware memory gives, message by message, the
-- results of the ideal one, as long as no call raises `ValueError`.
pub results-ideal :
    (msgs : List ItchMsg)
    → All (λ r. r ≢ raised value_error) (results memory_ops (L3.init Memory.init) msgs)
    → results memory_ops (L3.init Memory.init) msgs ≡ results dict_ops (L3.init []) msgs
results-ideal msgs fine =
    results-spec memory_ops-IsMap (λ r. r ≢ raised value_error) hardware_refusal
      (L3.init Memory.init) msgs init-IsValid fine
    ∙ ap (λ w. spec_results w msgs) start_tables
    ∙ sym (
        results-spec dict_ops-IsMap (λ r. Unit {0}) dict_refusal (L3.init []) msgs tt (All-units _))
