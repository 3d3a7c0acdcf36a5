-- ===== src/Itch/Ends.antt =====
-- How a call of `ITCHParser.parse_msg` can end, and what its steps do to that.
use nasdaq_itch_parser_order.Prelude.{
  ℕ, zero, suc, ◌+◌, ◌-◌, ◌^◌, ◌<◌, ◌≤◌, ◌≡◌, refl, Bool, true, false, not, ◌||◌, none, some, List,
  [], ◌∷◌, All, length, drop, slice, get_elem?, if◌then◌else◌, ◌==◌, arith, length-take,
}
use native.Mathlib.Nat.{pow-le-pow_right}
use nasdaq_itch_parser_order.Bytes.{IsBytes, int_from_bytes, int_from_bytes-lt}
use nasdaq_itch_parser_order.Utf8.{decode}
use nasdaq_itch_parser_order.Axis.Words.{drop-IsBytes, take-IsBytes}
use nasdaq_itch_parser_order.Structs.{
  Outcome, ret, raised, ◌>>=◌, assertion_error, index_error, unbound_local_error, ModuleResult, ok,
  error, ErrorCode, ItchMsg, system_event_msg, directory_msg, trade_action_msg, op_halt_msg,
  add_order_msg, reduce_order_msg, delete_order_msg, replace_order_msg, ignored_msg,
}
use nasdaq_itch_parser_order.Itch.Cases.{Results, byte_at, failing, yielding, with_length}

-- 16 bits for a locate number, 64 for an order, 32 for shares and price
abbrev pub IsNarrow : ItchMsg → Type 0
IsNarrow (system_event_msg l _) = l < 2 ^ 16
IsNarrow (directory_msg l _) = l < 2 ^ 16
IsNarrow (trade_action_msg l _ _) = l < 2 ^ 16
IsNarrow (op_halt_msg l _ _ _) = l < 2 ^ 16
IsNarrow (add_order_msg l k _ n p) = (l < 2 ^ 16) × (k < 2 ^ 64) × (n < 2 ^ 32) × (p < 2 ^ 32)
IsNarrow (reduce_order_msg l k n) = (l < 2 ^ 16) × (k < 2 ^ 64) × (n < 2 ^ 32)
IsNarrow (delete_order_msg l k) = (l < 2 ^ 16) × (k < 2 ^ 64)
IsNarrow (replace_order_msg l k n p) = (l < 2 ^ 16) × (k < 2 ^ 64) × (n < 2 ^ 32) × (p < 2 ^ 32)
IsNarrow (ignored_msg l) = l < 2 ^ 16

abbrev pub IsNarrowResult : ModuleResult ItchMsg → Type 0
IsNarrowResult (ok msg) = IsNarrow msg
IsNarrowResult (error _) = Unit {0}

-- the types `R`, `H` and `h`, whose messages name a stock
abbrev pub names_stock : ℕ → Bool
names_stock msg_type = msg_type == b'R' || msg_type == b'H' || msg_type == b'h'

-- how a call on a message ends
pub data Ends (msg : List ℕ) : Outcome Results → Type 0 where
  wrong_length :
      (length msg == int_from_bytes (slice 0 2 msg) + 2) ≡ false → Ends msg (raised assertion_error)
  no_type : length msg ≡ 2 → Ends msg (raised index_error)
  unreadable :
      (msg_type : ℕ)
      → get_elem? msg 2 ≡ some msg_type
      → names_stock msg_type ≡ true
      → decode (slice 13 21 msg) ≡ none
      → Ends msg (raised unbound_local_error)
  answers :
      {results : Results}
      → All IsNarrowResult results
      → zero < length results
      → length results ≤ 2
      → Ends msg (ret results)

get_elem?-some : (i : ℕ) (msg : List ℕ) → i < length msg → (b : ℕ) × (get_elem? msg i ≡ some b)
get_elem?-some i [] h = absurd (omega (arith, h))
get_elem?-some zero (b ∷ msg) h = (b, refl)
get_elem?-some (suc i) (b ∷ msg) h = get_elem?-some i msg (omega (arith, h))

pub get_elem?-none : (i : ℕ) (msg : List ℕ) → get_elem? msg i ≡ none → length msg ≤ i
get_elem?-none i [] h = omega arith
get_elem?-none zero (b ∷ msg) h = absurd (cc h)
get_elem?-none (suc i) (b ∷ msg) h = omega (arith, get_elem?-none i msg h)

short_number : (bs : List ℕ) (w : ℕ) → length bs ≤ w → IsBytes bs → int_from_bytes bs < 256 ^ w
short_number bs w h hb =
    let wider : 256 ^ length bs ≤ 256 ^ w = pow-le-pow_right (omega arith) h in
    omega (arith, int_from_bytes-lt bs hb, wider)

-- a number that is read from a slice
pub field-lt :
    (lo hi : ℕ) (msg : List ℕ) → IsBytes msg → int_from_bytes (slice lo hi msg) < 256 ^ (hi - lo)
field-lt lo hi msg h =
    short_number (slice lo hi msg) (hi - lo) (omega (arith, length-take (hi - lo) (drop lo msg)))
      (take-IsBytes (hi - lo) (drop lo msg) (drop-IsBytes lo msg h))

pub if_Ends :
    {msg : List ℕ} (c : Bool) {x y : Outcome Results}
    → (c ≡ true → Ends msg x)
    → (c ≡ false → Ends msg y)
    → Ends msg (if c then x else y)
if_Ends true h k = h refl
if_Ends false h k = k refl

pub failing-Ends : {msg : List ℕ} (code : ErrorCode) → Ends msg (failing code)
failing-Ends code = Ends.answers (tt, tt) (omega arith) (omega arith)

pub yielding-Ends : {msg : List ℕ} (m : ItchMsg) → IsNarrow m → Ends msg (yielding m)
yielding-Ends m h = Ends.answers (h, tt) (omega arith) (omega arith)

pub length-Ends :
    {msg : List ℕ} (n len : ℕ) (rest : Outcome Results)
    → (len ≡ n → Ends msg rest)
    → Ends msg (with_length n len rest)
length-Ends n len rest h =
    if_Ends (not (len == n)) (λ _. failing-Ends _) (λ e. h (ground (arith, e)))

pub byte-Ends :
    {msg : List ℕ} (i : ℕ) (f : ℕ → Outcome Results)
    → i < length msg
    → ((b : ℕ) → Ends msg (f b))
    → Ends msg (byte_at i msg >>= f)
byte-Ends {msg} i f h k = let (b, e) = get_elem?-some i msg h in rw e (k b)
