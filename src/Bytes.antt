-- ===== src/Bytes.antt =====
-- Byte strings: lists of numbers below 256, with Python's `int.from_bytes` and `int.to_bytes`.
mod Slices
unfoldable pub use Slices.*
use native.Mathlib.Nat.{
  pow-suc, one-le-pow, div-add-mod, mod-lt, mod-eq_of_lt, mul-add-mod_self_left, div-div-eq-div-mul,
  mul_comm,
}
use nasdaq_itch_parser_order.Prelude.{
  ℕ, zero, suc, ◌+◌, ◌*◌, ◌/◌, ◌%◌, ◌^◌, ◌<◌, ◌≤◌, ◌≡◌, refl, sym, ap, ◌∙◌, List, [], ◌∷◌, ◌++◌,
  arith, All, length, Bool, ◌-◌,
}

abbrev pub IsBytes : List ℕ → Type 0
IsBytes = All (λ b. b < 256)

-- `int.from_bytes(bs, "big")`, from what the bytes in front stand for
unfoldable pub from_big : ℕ → List ℕ → ℕ
from_big acc [] = acc
from_big acc (b ∷ bs) = from_big (acc * 256 + b) bs

abbrev pub int_from_bytes : List ℕ → ℕ
int_from_bytes = from_big 0

-- `int.to_bytes(n, len, "big")` of a number that fits
unfoldable pub to_big : ℕ → ℕ → List ℕ
to_big zero n = []
to_big (suc len) n = (n / 256 ^ len % 256) ∷ to_big len n

unfoldable pub from_little : List ℕ → ℕ
from_little [] = 0
from_little (b ∷ bs) = b + 256 * from_little bs

unfoldable pub to_little : ℕ → ℕ → List ℕ
to_little zero n = []
to_little (suc len) n = (n % 256) ∷ to_little len (n / 256)

pow256_pos : (k : ℕ) → 1 ≤ 256 ^ k
pow256_pos k = one-le-pow k 256 (omega arith)

-- the remainder modulo `m * 256`, digit by digit from the front
mod_digit : (n m : ℕ) → 1 ≤ m → n / m % 256 * m + n % m ≡ n % (m * 256)
mod_digit n m h =
    let q = n / m / 256 in
    let d = n / m % 256 in
    let r = n % m in
    let e : m * (n / m) + r ≡ n = div-add-mod n m in
    let f : n / m ≡ 256 * q + d = omega arith in
    let small : r < m = mod-lt n h in
    let step : m * (n / m) ≡ m * (256 * q + d) = ap (λ (t : ℕ). m * t) f in
    let whole : n ≡ m * 256 * q + (d * m + r) = omega arith in
    let below : d * m + r < m * 256 = grind arith in
    sym (
      ap (λ (t : ℕ). t % (m * 256)) whole
      ∙ mul-add-mod_self_left (m * 256) q (d * m + r)
      ∙ mod-eq_of_lt below)

pub from-to_big : (len acc n : ℕ) → from_big acc (to_big len n) ≡ acc * 256 ^ len + n % 256 ^ len
unfolding from_big to_big
from-to_big zero acc n = omega arith
from-to_big (suc len) acc n =
    let p = 256 ^ len in
    rw (pow-suc 256 len)
      (omega (arith, from-to_big len (acc * 256 + n / p % 256) n, mod_digit n p (pow256_pos len)))

pub int_from-to_big : (len n : ℕ) → n < 256 ^ len → int_from_bytes (to_big len n) ≡ n
int_from-to_big len n h = omega (arith, from-to_big len 0 n, mod-eq_of_lt h)

pub length-to_big : (len n : ℕ) → length (to_big len n) ≡ len
unfolding to_big
length-to_big zero n = refl
length-to_big (suc len) n = ap suc (length-to_big len n)

pub to_big-IsBytes : (len n : ℕ) → IsBytes (to_big len n)
unfolding to_big
to_big-IsBytes zero n = tt
to_big-IsBytes (suc len) n = (omega arith, to_big-IsBytes len n)

-- a number read from bytes fits them
from_big-lt : (bs : List ℕ) (acc : ℕ) → IsBytes bs → from_big acc bs < (acc + 1) * 256 ^ length bs
unfolding from_big
from_big-lt [] acc h = omega arith
from_big-lt (b ∷ bs) acc h =
    let p = 256 ^ length bs in
    let step : (acc * 256 + b + 1) * p ≤ (acc + 1) * 256 * p = grind arith in
    rw (pow-suc 256 (length bs)) (omega (arith, from_big-lt bs (acc * 256 + b) h.1))

pub int_from_bytes-lt : (bs : List ℕ) → IsBytes bs → int_from_bytes bs < 256 ^ length bs
int_from_bytes-lt bs h = omega (arith, from_big-lt bs 0 h)

pub to-from_little : (bs : List ℕ) → IsBytes bs → to_little (length bs) (from_little bs) ≡ bs
unfolding to_little from_little
to-from_little [] h = refl
to-from_little (b ∷ bs) h =
    let low : (b + 256 * from_little bs) % 256 ≡ b = omega (arith, h.0) in
    let high : (b + 256 * from_little bs) / 256 ≡ from_little bs = omega (arith, h.0) in
    rw (low, high, to-from_little bs h.1)
