-- ===== src/Bbo/Half.antt =====
-- `BBOHalf` of src/ref_model/bbo.py: the best levels of one side, and the shares behind them.
use nasdaq_itch_parser_order.Prelude.{
  ℕ, zero, suc, ◌+◌, ◌-◌, Bool, true, false, not, ◌||◌, ◌&&◌, Option, none, some, List, [], ◌∷◌,
  ◌++◌, ltb, leb, ◌==◌, bool_eq, if◌then◌else◌, length, get_elem?, set,
}
use nasdaq_itch_parser_order.Prelude.Int.{ℤ, pos, ◌+ℤ◌, ◌-ℤ◌, ltb_ℤ}
use nasdaq_itch_parser_order.Params.{config}
use nasdaq_itch_parser_order.Structs.{
  Outcome, ret, raised, assertion_error, attribute_error, ModuleResult, ok, fail,
  no_shares_in_range, ItchMsgType, DownstreamOrderMsg, BboEntry,
}

pub record BboHalf : Type 0 where
  pub is_buy : Bool
  pub ideal : Bool
  pub entries : List BboEntry
  pub outside_shares_in_range : ℤ
  pub outside_shares : ℤ
  pub price_bound : Option ℕ

abbrev pub init : Bool → Bool → BboHalf
init is_buy ideal = record {
  is_buy = is_buy;
  ideal = ideal;
  entries = [];
  outside_shares_in_range = pos 0;
  outside_shares = pos 0;
  price_bound = none;
}

abbrev pub init_params : ℕ → BboHalf → BboHalf
init_params price_bound s = record s { price_bound = some price_bound }

pub record Answer : Type 0 where
  pub entry : Option BboEntry
  pub updt_req : Bool
  pub updt_req_mask_enc : ℕ

abbrev pub BboHalfResult : Type 0
BboHalfResult = ModuleResult Answer

-- ADD and REPLACE, REDUCE and DELETE, and the types that are asserted not to come
pub data Kind : Type 0 where
  adds reduces other : Kind

abbrev pub kind_of : ItchMsgType → Kind
kind_of ItchMsgType.add = Kind.adds
kind_of ItchMsgType.replace = Kind.adds
kind_of ItchMsgType.reduce = Kind.reduces
kind_of ItchMsgType.delete = Kind.reduces
kind_of _ = Kind.other

-- The flags that the loop sets, of which one is set when it ends, with their index and entry.
pub data Found : Type 0 where
  modify : ℕ → BboEntry → Found
  depletion : ℕ → Found
  insertion : ℕ → Found
  outside : Found

abbrev pub is_zero : ℤ → Bool
is_zero (pos n) = n == 0
is_zero _ = false

-- an entry at the price of the message
abbrev pub at_price : Kind → ℕ → ℕ → BboEntry → Outcome Found
at_price Kind.adds shares idx entry =
    ret (Found.modify idx (record { shares = entry.shares +ℤ pos shares; price = entry.price }))
at_price Kind.reduces shares idx entry =
    let new_shares = entry.shares -ℤ pos shares in
    if ltb_ℤ new_shares (pos 0)
    then raised assertion_error
    else if is_zero new_shares
    then ret (Found.depletion idx)
    else ret (Found.modify idx (record { shares = new_shares; price = entry.price }))
at_price Kind.other shares idx entry = raised assertion_error

-- an entry worse than the price of the message
abbrev pub before_entry : Kind → ℕ → Outcome Found
before_entry Kind.adds idx = ret (Found.insertion idx)
before_entry _ idx = raised assertion_error

-- a better price than that of a rival
abbrev pub better : Bool → ℕ → ℕ → Bool
better is_buy price rival = is_buy && ltb rival price || not is_buy && ltb price rival

-- `for idx, entry in enumerate(self.entries)`, from an index on
unfoldable pub scan : Bool → Kind → (shares price : ℕ) → ℕ → List BboEntry → Outcome Found
scan is_buy kind shares price idx [] = ret Found.outside
scan is_buy kind shares price idx (entry ∷ entries) =
    let rest = scan is_buy kind shares price (idx + 1) entries in
    if price == entry.price
    then at_price kind shares idx entry
    else if better is_buy price entry.price
    then before_entry kind idx
    else rest

-- `xs.pop(i)`, `xs.insert(i, x)`, and `xs.pop()` as what is left and what is taken
abbrev pub pop_at : ℕ → List BboEntry → List BboEntry
pop_at i [] = []
pop_at zero (x ∷ xs) = xs
pop_at (suc i) (x ∷ xs) = x ∷ pop_at i xs

abbrev pub insert_at : ℕ → BboEntry → List BboEntry → List BboEntry
insert_at zero e xs = e ∷ xs
insert_at (suc i) e [] = e ∷ []
insert_at (suc i) e (x ∷ xs) = x ∷ insert_at i e xs

abbrev pub pop_last : List BboEntry → Option (List BboEntry × BboEntry)
pop_last [] = none
pop_last (x ∷ []) = some ([], x)
pop_last (x ∷ xs) = elim (pop_last xs) [ none ↦ none | some (front, last) ↦ some (x ∷ front, last) ]

-- `self.ideal or (self.is_buy and price >= self.price_bound) or ...`
abbrev pub in_range : BboHalf → ℕ → Outcome Bool
in_range s price = elim s.price_bound [
  | some bound ↦ ret (s.ideal || s.is_buy && leb bound price || not s.is_buy && leb price bound)
  | none ↦ if s.ideal then ret true else raised attribute_error
]

abbrev pub count_outside : BboHalf → ℤ → BboHalf
count_outside s shares = record s { outside_shares = s.outside_shares +ℤ shares }

abbrev pub count_in_range : BboHalf → ℤ → Bool → BboHalf
count_in_range s shares true = record s {
  outside_shares_in_range = s.outside_shares_in_range +ℤ shares;
}
count_in_range s shares false = s

-- the update request that the changed state asks for, or the error
pub data Step : Type 0 where
  done : Step
  request : ℕ → Step
  refused : Step

abbrev pub with_entries : BboHalf → List BboEntry → BboHalf
with_entries s entries = record s { entries = entries }

-- shares that leave the entries, or never enter them
abbrev pub push_out : BboHalf → ℤ → Outcome Bool → Outcome Step × BboHalf
push_out s shares (ret inside) =
    (ret Step.done, count_in_range (count_outside s shares) shares inside)
push_out s shares (raised e) = (raised e, count_outside s shares)

-- the first entry is `self.entries[BBO_DEPTH - 2]`
abbrev pub request_updt : BboHalf → Outcome Step
request_updt s =
    if not (length s.entries == config.bbo_depth - 1)
    then raised assertion_error
    else elim (get_elem? s.entries (config.bbo_depth - 2)) [
      | some entry ↦ ret (Step.request entry.price)
      | none ↦ raised assertion_error
    ]

-- `s` has lost an entry
abbrev pub depleted : BboHalf → Outcome Step × BboHalf
depleted s =
    if ltb_ℤ (pos 0) s.outside_shares_in_range
    then (request_updt s, s)
    else if ltb_ℤ (pos 0) s.outside_shares
    then (ret Step.refused, s)
    else (ret Step.done, s)

-- `s` has got an entry
abbrev pub inserted : BboHalf → Outcome Step × BboHalf
inserted s =
    if ltb config.bbo_depth (length s.entries)
    then elim (pop_last s.entries) [
      | none ↦ (ret Step.done, s)
      | some (front, last) ↦ push_out (with_entries s front) last.shares (in_range s last.price)
    ]
    else (ret Step.done, s)

-- The range is tested before the shares are counted.
abbrev pub count_outsider : Kind → ℕ → Outcome Bool → BboHalf → Outcome Step × BboHalf
count_outsider kind shares (raised e) s = (raised e, s)
count_outsider Kind.adds shares (ret inside) s = push_out s (pos shares) (ret inside)
count_outsider Kind.reduces shares (ret inside) s = push_out s (pos 0 -ℤ pos shares) (ret inside)
count_outsider Kind.other shares (ret inside) s = (raised assertion_error, s)

unfoldable pub apply : Kind → (shares price : ℕ) → Found → BboHalf → Outcome Step × BboHalf
apply kind shares price (Found.modify idx entry) s =
    (ret Step.done, with_entries s (set s.entries idx entry))
apply kind shares price (Found.depletion idx) s = depleted (with_entries s (pop_at idx s.entries))
apply kind shares price (Found.insertion idx) s =
    inserted
      (with_entries s (insert_at idx (record { shares = pos shares; price = price }) s.entries))
apply kind shares price Found.outside s =
    if ltb (length s.entries) config.bbo_depth
    then (
      ret Step.done,
      with_entries s (s.entries ++ (record { shares = pos shares; price = price } ∷ [])),
    )
    else count_outsider kind shares (in_range s price) s

abbrev pub answer : List BboEntry → Bool → ℕ → Answer
answer [] updt_req mask = record { entry = none; updt_req = false; updt_req_mask_enc = 0 }
answer (entry ∷ entries) updt_req mask = record {
  entry = some entry;
  updt_req = updt_req;
  updt_req_mask_enc = mask;
}

abbrev pub reply : Outcome Step → BboHalf → Outcome BboHalfResult
reply (raised e) s = raised e
reply (ret Step.done) s = ret (ok (answer s.entries false 0))
reply (ret (Step.request mask)) s = ret (ok (answer s.entries true mask))
reply (ret Step.refused) s = ret (fail no_shares_in_range)

abbrev pub react :
    Kind → (shares price : ℕ) → Outcome Found → BboHalf → Outcome BboHalfResult × BboHalf
react kind shares price (raised e) s = (raised e, s)
react kind shares price (ret found) s =
    let r = apply kind shares price found s in (reply r.0 r.1, r.1)

unfoldable pub process_msg : BboHalf → DownstreamOrderMsg → Outcome BboHalfResult × BboHalf
unfolding scan apply
process_msg s msg =
    if not (bool_eq msg.is_buy s.is_buy)
    then (raised assertion_error, s)
    else react (kind_of msg.msg_type) msg.shares msg.price
        (scan s.is_buy (kind_of msg.msg_type) msg.shares msg.price 0 s.entries) s

unfoldable pub process_updt : BboHalf → BboEntry → Outcome BboHalf
process_updt s entry =
    if not (length s.entries == config.bbo_depth - 1)
    then raised assertion_error
    else ret (record s {
      entries = s.entries ++ (entry ∷ []);
      outside_shares = s.outside_shares -ℤ entry.shares;
      outside_shares_in_range = s.outside_shares_in_range -ℤ entry.shares;
    })
