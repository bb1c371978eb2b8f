-- ===== src/Prelude/Bits.antt =====
-- The bitwise or of a small number and a multiple of a power of two.
use Prim.Native.Nat.{
  ℕ, zero, suc, ◌+◌, ◌*◌, ◌/◌, ◌%◌, ◌^◌, ◌≤◌, ◌<◌, max, bit_or, digits, bit_or-bitwise,
}
use mathlib.Core.Path.{◌≡◌, refl, ◌∙◌}
use native.Mathlib.Omega.{arith}
use native.Mathlib.Nat.{pow-suc, mul_assoc}

-- The digit recursion for which `bit_or` stands.
abbrev or_rec : ℕ → ℕ → ℕ → ℕ
or_rec fuel a b = digits (λ rest. rest) max fuel a b

or_rec_any : (f f' a b : ℕ) → a ≤ f → a ≤ f' → or_rec f a b ≡ or_rec f' a b
or_rec_any zero zero a b p q = refl
or_rec_any zero (suc f') zero b p q = refl
or_rec_any zero (suc f') (suc a) b p q = absurd (omega arith)
or_rec_any (suc f) zero zero b p q = refl
or_rec_any (suc f) zero (suc a) b p q = absurd (omega arith)
or_rec_any (suc f) (suc f') zero b p q = refl
or_rec_any (suc f) (suc f') (suc a) b p q =
    omega (arith, or_rec_any f f' (suc a / 2) (b / 2) (omega arith) (omega arith))

pub zero-bit_or : (b : ℕ) → bit_or 0 b ≡ b
zero-bit_or b = bit_or-bitwise 0 b

-- One digit at a time.
pub bit_or_digit : (a b : ℕ) → bit_or a b ≡ bit_or (a / 2) (b / 2) * 2 + max (a % 2) (b % 2)
bit_or_digit zero b = omega (arith, zero-bit_or b, zero-bit_or (b / 2))
bit_or_digit (suc a) b = omega (
  arith,
  bit_or-bitwise (suc a) b,
  bit_or-bitwise (suc a / 2) (b / 2),
  or_rec_any a (suc a / 2) (suc a / 2) (b / 2) (omega arith) (omega arith),
)

-- A digit 0 below the digits of `m`.
bit_or_even : (a m : ℕ) → bit_or a (m * 2) ≡ bit_or (a / 2) m * 2 + a % 2
bit_or_even a m =
    let half : m * 2 / 2 ≡ m = omega arith in
    let even : m * 2 % 2 ≡ 0 = omega arith in bit_or_digit a (m * 2) ∙ rw (half, even) (omega arith)

-- Where the digits do not meet, `|` is `+`.
pub bit_or-eq-add : (k a c : ℕ) → a < 2 ^ k → bit_or a (c * 2 ^ k) ≡ a + c * 2 ^ k
bit_or-eq-add zero zero c h = omega (arith, zero-bit_or (c * 1))
bit_or-eq-add zero (suc a) c h = absurd (omega arith)
bit_or-eq-add (suc k) a c h =
    let wide : a < 2 ^ k * 2 = rw pow-suc at h in
    rw (pow-suc, ← mul_assoc, bit_or_even) (omega (arith, bit_or-eq-add k (a / 2) c (omega arith)))
