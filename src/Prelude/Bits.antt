-- ===== src/Prelude/Bits.antt =====
-- Bounds of `bit_and`, from its binary digits.
use Prim.Native.Nat.{ℕ, zero, suc, ◌+◌, ◌*◌, ◌/◌, ◌%◌, ◌≤◌, min, bit_and, digits, bit_and-bitwise}
use mathlib.Core.Path.{◌≡◌, refl, sym, ap, ◌∙◌}
use native.Mathlib.Omega.{arith}

-- The native operation, with as many digits of `value` as `rounds` says.
abbrev masked : ℕ → ℕ → ℕ → ℕ
masked value mask rounds = digits (λ _. zero) min rounds value mask

-- Rounds beyond the digits of `value` change nothing.
masked_rounds :
    (value mask r s : ℕ) → value ≤ r → value ≤ s → masked value mask r ≡ masked value mask s
masked_rounds value mask zero zero h k = refl
masked_rounds zero mask zero (suc s) h k = refl
masked_rounds zero mask (suc r) s h k = masked_zero s
  where
    masked_zero : (t : ℕ) → zero ≡ masked zero mask t
    masked_zero zero = refl
    masked_zero (suc t) = refl
masked_rounds (suc value) mask zero (suc s) h k = absurd (omega arith)
masked_rounds (suc value) mask (suc r) zero h k = absurd (omega arith)
masked_rounds (suc value) mask (suc r) (suc s) h k =
    let half = masked_rounds (suc value / 2) (mask / 2) r s (omega arith) (omega arith) in
    ap (λ (t : ℕ). t * 2 + min (suc value % 2) (mask % 2)) half

no_bits : (mask : ℕ) → bit_and 0 mask ≡ 0
no_bits = bit_and-bitwise 0

-- The lowest digit, and the others.
pub bit_and_step :
    (value mask : ℕ)
    → bit_and value mask ≡ bit_and (value / 2) (mask / 2) * 2 + min (value % 2) (mask % 2)
bit_and_step zero mask = omega (arith, no_bits mask, no_bits (mask / 2))
bit_and_step (suc n) mask =
    let value = suc n in
    let others =
      masked_rounds (value / 2) (mask / 2) n (value / 2) (omega arith) (omega arith)
      ∙ sym (bit_and-bitwise (value / 2) (mask / 2)) in
    bit_and-bitwise value mask ∙ ap (λ (t : ℕ). t * 2 + min (value % 2) (mask % 2)) others

-- By induction on a bound of the value, since the step halves it.
below_mask : (bound value mask : ℕ) → value ≤ bound → bit_and value mask ≤ mask
below_mask bound zero mask h = omega (arith, no_bits mask)
below_mask zero (suc n) mask h = absurd (omega arith)
below_mask (suc bound) (suc n) mask h =
    let half = below_mask bound (suc n / 2) (mask / 2) (omega arith) in
    omega (arith, half, bit_and_step (suc n) mask)

pub bit_and-le : (value mask : ℕ) → bit_and value mask ≤ mask
bit_and-le value mask = below_mask value value mask (omega arith)
