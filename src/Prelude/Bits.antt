-- ===== src/Prelude/Bits.antt =====
-- A bit mask of `w` ones keeps the remainder modulo `2 ^ w`.
use Prim.Native.Nat.{
  ℕ, zero, suc, ◌+◌, ◌-◌, ◌*◌, ◌/◌, ◌%◌, ◌^◌, ◌≤◌, ◌<◌, min, bit_and, digits, bit_and-bitwise,
}
use mathlib.Core.Path.{◌≡◌, sym, ap, ◌∙◌}
use native.Mathlib.Omega.{arith}
use native.Mathlib.Nat.{
  pow-suc, one-le-pow, div-add-mod, mod-lt, mod-eq_of_lt, mul-add-mod_self_left, zero-mod,
}

pub pow2_pos : (w : ℕ) → 1 ≤ 2 ^ w
pow2_pos w = one-le-pow w 2 (omega arith)

-- the remainder modulo `2 * m`, digit by digit
mod_double : (a m : ℕ) → 1 ≤ m → a / 2 % m * 2 + a % 2 ≡ a % (m * 2)
mod_double a m h =
    let k = a / 2 / m in
    let s = a / 2 % m in
    let e : m * k + s ≡ a / 2 = div-add-mod (a / 2) m in
    let small : s < m = mod-lt (a / 2) h in
    let whole : a ≡ m * 2 * k + (s * 2 + a % 2) = omega arith in
    sym (
      ap (λ (t : ℕ). t % (m * 2)) whole
      ∙ mul-add-mod_self_left (m * 2) k (s * 2 + a % 2)
      ∙ mod-eq_of_lt (omega arith))

mask_digits : (n a w : ℕ) → a ≤ n → digits (λ b. zero) min n a (2 ^ w - 1) ≡ a % 2 ^ w
mask_digits zero zero w h = sym (zero-mod (2 ^ w))
mask_digits zero (suc a) w h = absurd (omega arith)
mask_digits (suc n) zero w h = sym (zero-mod (2 ^ w))
mask_digits (suc n) (suc a) zero h = omega (arith, mask_digits n (suc a / 2) zero (omega arith))
mask_digits (suc n) (suc a) (suc w) h =
    let e : (2 ^ suc w - 1) / 2 ≡ 2 ^ w - 1 = omega (arith, pow-suc 2 w, pow2_pos w) in
    let odd : min (suc a % 2) ((2 ^ suc w - 1) % 2) ≡ suc a % 2 =
      omega (arith, pow-suc 2 w, pow2_pos w) in
    let ih = mask_digits n (suc a / 2) w (omega arith) in
    rw (odd, e, ih, pow-suc 2 w) (mod_double (suc a) (2 ^ w) (pow2_pos w))

-- `a & ((1 << w) - 1)` is the remainder of `a` modulo `2 ^ w`.
pub bit_and-mask : (a w : ℕ) → bit_and a (2 ^ w - 1) ≡ a % 2 ^ w
bit_and-mask a w = bit_and-bitwise a (2 ^ w - 1) ∙ mask_digits a a w (omega arith)
