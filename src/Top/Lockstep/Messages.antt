-- ===== src/Top/Lockstep/Messages.antt =====
-- The results of one message, in `Top.process_pkt` over two kinds of memory.
use mathlib.Core.Path.{subst}
use nasdaq_itch_parser_order.Prelude.{
  ℕ, refl, sym, ap, ◌∙◌, false, Option, none, some, List, [], ◌∷◌, ◌==◌, inl, inr, Bool-cases,
  Option-cases,
}
use nasdaq_itch_parser_order.Mapping.{Mapping}
use nasdaq_itch_parser_order.Structs.{
  Outcome, ret, raised, ModuleResult, ok, error, ItchMsg, L3Entry, ControlResult, is_book_msg,
  stock_locate_of,
}
use nasdaq_itch_parser_order.Itch
use nasdaq_itch_parser_order.Itch.Cases.{Results}
use nasdaq_itch_parser_order.Control
use nasdaq_itch_parser_order.L2.Levels.{PriceMemory}
use nasdaq_itch_parser_order.Book
use nasdaq_itch_parser_order.Book.{Book}
use nasdaq_itch_parser_order.Top.{
  Top, Locals, Verdict, no_quote, book_part, after_ctrl, take_result, take_results, take_msg,
  take_book,
}
use nasdaq_itch_parser_order.Top.Lockstep.{
  Duo, with_book, IfProceeds, SuitsBook, SuitsCtrl, SuitsResult, SuitsResults, SuitsMsg, Together,
}

-- the results behind one whose verdict is there
abbrev next_results :
    {M N : Type 0}
    → Mapping M L3Entry
    → PriceMemory N
    → Results
    → Verdict × Top M N
    → Verdict × Top M N
next_results orders levels rs t = elim t.0 [
  | Verdict.proceed l ↦ take_results orders levels rs l t.1
  | Verdict.refuse text ↦ (Verdict.refuse text, t.1)
  | Verdict.raise e ↦ (Verdict.raise e, t.1)
]

module _ {M N M' N' : Type 0} (d : Duo M N M' N') where
  book_part-Together :
      (msg : ItchMsg) (l : Locals) (locate : Option ℕ) (s : Top M N) (b' : Book M' N')
      → d.Pair s.book b'
      → SuitsBook d msg locate s.book b'
      → Together d
          (book_part d.orders d.levels msg l locate s)
          (book_part d.orders' d.levels' msg l locate (with_book s b'))
  book_part-Together msg l none s b' p h = elim (Bool-cases (is_book_msg msg)) [
    | inl e ↦ rw e (b', refl, p)
    | inr e ↦ rw e (b', refl, p)
  ]
  book_part-Together msg l (some locate) s b' p h = elim (Bool-cases (is_book_msg msg)) [
    | inr e ↦ rw e (b', refl, p)
    | inl e ↦ elim (Bool-cases (stock_locate_of msg == locate)) [
      | inr ne ↦ rw (e, ne) (b', refl, p)
      | inl eq ↦
          let (same, q) = d.step s.book b' msg p (h e eq) in
          let r' = Book.process_msg d.orders' d.levels' b' msg in
          rw (e, eq)
            (r'.1, ap (λ o. (take_book d.orders d.levels o, with_book s r'.1)) (sym same), q)
    ]
  ]

  after_ctrl-Together :
      (msg : ItchMsg) (l : Locals) (o : Outcome (ModuleResult ControlResult)) (s : Top M N)
      (b' : Book M' N')
      → d.Pair s.book b'
      → SuitsCtrl d msg o s b'
      → Together d
          (after_ctrl d.orders d.levels msg l o s)
          (after_ctrl d.orders' d.levels' msg l o (with_book s b'))
  after_ctrl-Together msg l (raised e) s b' p h = (b', refl, p)
  after_ctrl-Together msg l (ret (error text)) s b' p h = (b', refl, p)
  after_ctrl-Together msg l (ret (ok r)) s b' p h = elim (Option-cases r.stock_locate) [
    | inl e ↦ rw e (
        book_part-Together msg l s.stock_locate (record s { stock_active = r.stock_active }) b' p
          (rw e at h))
    | inr (locate, e) ↦ elim (Option-cases s.stock_locate) [
      | inl new ↦
          rw (e, new)
            (book_part-Together msg l (some locate)
              (record s { stock_active = r.stock_active; stock_locate = some locate }) b' p
              (rw (e, new) at h))
      | inr (old, known) ↦ rw (e, known) (b', refl, p)
    ]
  ]

  take_result-Together :
      (r : ModuleResult ItchMsg) (l : Locals) (s : Top M N) (b' : Book M' N')
      → d.Pair s.book b'
      → SuitsResult d r s b'
      → Together d
          (take_result d.orders d.levels r l s)
          (take_result d.orders' d.levels' r l (with_book s b'))
  unfolding take_result
  take_result-Together (error text) l s b' p h = (b', refl, p)
  take_result-Together (ok msg) l s b' p h =
      let c = Control.process_msg s.ctrl msg in
      after_ctrl-Together msg l c.0 (record s { ctrl = c.1 }) b' p h

  next_results-Together :
      (rs : Results) (v : Verdict) (s : Top M N) (b' : Book M' N')
      → d.Pair s.book b'
      → IfProceeds (λ l. SuitsResults d rs l s b') v
      → ((l : Locals)
          → SuitsResults d rs l s b'
          → Together d
              (take_results d.orders d.levels rs l s)
              (take_results d.orders' d.levels' rs l (with_book s b')))
      → Together d
          (next_results d.orders d.levels rs (v, s))
          (next_results d.orders' d.levels' rs (v, with_book s b'))
  next_results-Together rs (Verdict.proceed l) s b' p h later = later l h
  next_results-Together rs (Verdict.refuse text) s b' p h later = (b', refl, p)
  next_results-Together rs (Verdict.raise e) s b' p h later = (b', refl, p)

  take_results-Together :
      (rs : Results) (l : Locals) (s : Top M N) (b' : Book M' N')
      → d.Pair s.book b'
      → SuitsResults d rs l s b'
      → Together d
          (take_results d.orders d.levels rs l s)
          (take_results d.orders' d.levels' rs l (with_book s b'))
  unfolding take_results SuitsResults
  take_results-Together [] l s b' p h = (b', refl, p)
  take_results-Together (r ∷ rs) l s b' p h =
      let t = take_result d.orders d.levels r l s in
      let (b1, e, q) = take_result-Together r l s b' p h.0 in
      let same_book = ap (λ (w : Verdict × Top M' N'). w.1.book) e in
      let (b2, e', q') =
        next_results-Together rs t.0 t.1 b1 q
          (subst (λ b. IfProceeds (λ l'. SuitsResults d rs l' t.1 b) t.0) same_book h.1)
          (λ l' h'. take_results-Together rs l' t.1 b1 q h') in
      (b2, ap (λ w. next_results d.orders' d.levels' rs w) e ∙ e', q')

  pub take_msg-Together :
      (m : List ℕ) (s : Top M N) (b' : Book M' N')
      → d.Pair s.book b'
      → SuitsMsg d (Itch.parse_msg m) s b'
      → Together d
          (take_msg d.orders d.levels m s)
          (take_msg d.orders' d.levels' m (with_book s b'))
  unfolding take_msg
  take_msg-Together m s b' p h = after_parse (Itch.parse_msg m) h
    where
      after_parse :
          (o : Outcome Results)
          → SuitsMsg d o s b'
          → Together d
              (elim o [
                | raised e ↦ (Verdict.raise e, s)
                | ret results ↦
                    take_results d.orders d.levels results
                      (record { output_flag = false; quote = no_quote })
                      s
              ])
              (elim o [
                | raised e ↦ (Verdict.raise e, with_book s b')
                | ret results ↦
                    take_results d.orders' d.levels' results
                      (record { output_flag = false; quote = no_quote })
                      (with_book s b')
              ])
      after_parse (raised e) h = (b', refl, p)
      after_parse (ret results) h = take_results-Together results _ s b' p h
