-- ===== src/Structs/Results.antt =====
-- `ModuleResult` and its error codes, and what a call does: return, or raise an exception.
use nasdaq_itch_parser_order.Prelude.{ℕ, ◌≡◌, ◌⊎◌, inl, inr, refl, Bool, true, false, List, [], ◌∷◌}

-- The texts of the error codes, each with the values that its f-string shows.
pub data ErrorCode : Type 0 where
  packet_too_short : ℕ → ErrorCode
  session_id_mismatch : ErrorCode
  seq_number_mismatch : ℕ → ℕ → ErrorCode
  packet_terminated packet_has_remaining_bytes : ErrorCode
  unexpected_msg_byte_length invalid_event_code invalid_trading_action : ErrorCode
  invalid_market_code invalid_op_halt_code invalid_buy_sell_indicator : ErrorCode
  unexpected_msg_type_field : ErrorCode
  control_not_initialized not_msg_hours : ErrorCode
  mismatch_stock_locate : ℕ → ErrorCode
  add_with_existing_order_id reduce_of_missing_order_id negative_shares_after_reducing : ErrorCode
  delete_of_missing_order_id replace_with_existing_order_id : ErrorCode
  out_of_memory_slots : ℕ → ErrorCode
  l2_not_initialized price_not_on_tick : ErrorCode
  no_shares_in_range : ErrorCode
  stock_locate_not_initialized : ErrorCode

-- The class attribute `prefix` of each result class, and the two literals of `BBO.process_msg`.
pub data Prefix : Type 0 where
  np_prefix ip_prefix ctrl_prefix book_prefix bbo_prefix l3_prefix : Prefix
  l2_msg_prefix l2_updt_prefix bid_prefix off_prefix : Prefix

-- `error_code`: the prefixes in front of a text, outermost first.
pub record ErrorText : Type 0 where
  pub prefixes : List Prefix
  pub code : ErrorCode

-- The fields that `error` fills with `None`, `0` or `False` carry nothing and are left out.
pub data ModuleResult {ℓ} (A : Type ℓ) : Type ℓ where
  ok : A → ModuleResult A
  error : ErrorText → ModuleResult A

abbrev pub plain : ErrorCode → ErrorText
plain c = record { prefixes = []; code = c }

-- `cls.error(code)`
abbrev pub fail {ℓ} : {A : Type ℓ} → ErrorCode → ModuleResult A
fail c = error (plain c)

-- `forward_error`: `result.prefix + result.error_code`
abbrev pub forward_error : Prefix → ErrorText → ErrorText
forward_error p e = record { prefixes = p ∷ e.prefixes; code = e.code }

abbrev pub error_flag {ℓ} : {A : Type ℓ} → ModuleResult A → Bool
error_flag (ok a) = false
error_flag (error e) = true

-- `str(e)` of a `MemoryError` is kept, since `L3.process_msg` forwards it.
pub data Exn : Type 0 where
  assertion_error key_error value_error index_error unbound_local_error attribute_error
        overflow_error type_error struct_error :
      Exn
  memory_error : ErrorCode → Exn

pub data Outcome {ℓ} (A : Type ℓ) : Type ℓ where
  ret : A → Outcome A
  raised : Exn → Outcome A

infixl 5 ◌>>=◌ ◌>>◌
abbrev pub ◌>>=◌ {ℓ κ} : {A : Type ℓ} {B : Type κ} → Outcome A → (A → Outcome B) → Outcome B
ret a >>= f = f a
raised e >>= f = raised e

abbrev pub ◌>>◌ {ℓ} : {B : Type ℓ} → Outcome (Unit {0}) → Outcome B → Outcome B
m >> k = m >>= λ _. k

pub ret_injective {ℓ} : {A : Type ℓ} {a b : A} → ret a ≡ ret b → a ≡ b
ret_injective h = cc

pub Outcome-cases {ℓ} :
    {A : Type ℓ} (o : Outcome A) → ((a : A) × (o ≡ ret a)) ⊎ ((e : Exn) × (o ≡ raised e))
Outcome-cases (ret a) = inl (a, refl)
Outcome-cases (raised e) = inr (e, refl)

-- the same error, whatever the results that are not there
pub error_injective {ℓ} :
    {A : Type ℓ} {d e : ErrorText} → ◌≡◌ {A = ModuleResult A} (error d) (error e) → d ≡ e
error_injective h = cc

pub >>=_assoc {ℓ κ μ} :
    {A : Type ℓ} {B : Type κ} {C : Type μ} (m : Outcome A) (f : A → Outcome B) (g : B → Outcome C)
    → (m >>= λ a. f a >>= g) ≡ (m >>= f >>= g)
>>=_assoc (ret a) f g = refl
>>=_assoc (raised e) f g = refl
