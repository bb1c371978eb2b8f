-- ===== src/Ssa/Offset.antt =====
-- The bits of an offset: `ssa_tag_alloc` and `ssa_tag_print` of src/ssa_tag_gc.cpp.
use libdft64_ect.Prelude.{
  ℕ, zero, suc, ◌+◌, ◌*◌, ◌/◌, ◌%◌, ◌^◌, ◌<◌, ◌≡◌, refl, sym, ap, ◌∙◌, Bool, List, [], ◌∷◌, ◌==◌,
  if◌then◌else◌, arith, Bool-cases, inl, inr,
}
use native.Mathlib.Nat.{
  pow-suc, one-le-pow, mod-one, add-zero, div-add-mod', mod-lt, mul-add-mod_self_right,
  mod-eq_of_lt,
}

-- `TAG_WIDTH`.
abbrev pub tag_width : ℕ
tag_width = 24

-- `0x1 << i & offset`, for the next `rounds` numbers from `i` on.
pub bits_from : ℕ → ℕ → ℕ → List Bool
bits_from zero i offset = []
bits_from (suc rounds) i offset = (offset / 2 ^ i % 2 == 1) ∷ bits_from rounds (i + 1) offset

-- The array that `ssa_tag_alloc` fills, with `VAR_ORDER` its index.
unfoldable pub offset_bits : ℕ → List Bool
unfolding bits_from
offset_bits offset = bits_from tag_width 0 offset

-- `if (res[i]) offset += 1 << i`.
pub sum_bits : ℕ → List Bool → ℕ → ℕ
sum_bits i [] offset = offset
sum_bits i (b ∷ bs) offset = sum_bits (i + 1) bs (if b then offset + 2 ^ i else offset)

-- The offset that `ssa_tag_print` reads from an array.
unfoldable pub bits_offset : List Bool → ℕ
unfolding sum_bits
bits_offset bs = sum_bits 0 bs 0

regroup : (q d r k b : ℕ) → q ≡ k * 2 + b → q * d + r ≡ k * (d * 2) + (r + b * d)
regroup q d r k b e = rw e (grind arith)

-- One more digit of a remainder.
mod_digit : (x d : ℕ) → 0 < d → x % (d * 2) ≡ x % d + x / d % 2 * d
mod_digit x d h =
    let rest : x % d < d = mod-lt x h in
    let bit : x / d % 2 < 2 = mod-lt (x / d) (omega arith) in
    let small : x % d + x / d % 2 * d < d * 2 = grind arith in
    let e : x ≡ x / d / 2 * (d * 2) + (x % d + x / d % 2 * d) =
      sym (div-add-mod' x d)
      ∙ regroup (x / d) d (x % d) (x / d / 2) (x / d % 2) (sym (div-add-mod' (x / d) 2)) in
    ap (λ z. z % (d * 2)) e
    ∙ mul-add-mod_self_right (x / d / 2) (d * 2) (x % d + x / d % 2 * d)
    ∙ mod-eq_of_lt small

next_digit :
    (offset i : ℕ)
    → (if offset / 2 ^ i % 2 == 1 then offset % 2 ^ i + 2 ^ i else offset % 2 ^ i)
      ≡ offset % 2 ^ (i + 1)
next_digit offset i =
    let bit : offset / 2 ^ i % 2 < 2 = mod-lt (offset / 2 ^ i) (omega arith) in
    let next : i + 1 ≡ suc i = omega arith in
    let e : offset % 2 ^ (i + 1) ≡ offset % 2 ^ i + offset / 2 ^ i % 2 * 2 ^ i =
      ap (λ k. offset % k) (ap (λ k. 2 ^ k) next ∙ pow-suc 2 i)
      ∙ mod_digit offset (2 ^ i) (one-le-pow i 2 (omega arith)) in
    rw e (elim (Bool-cases (offset / 2 ^ i % 2 == 1)) [
      | inl one ↦ let b : offset / 2 ^ i % 2 ≡ 1 = ground arith in rw (one, b) (omega arith)
      | inr other ↦ let b : offset / 2 ^ i % 2 ≡ 0 = ground arith in rw (other, b) (omega arith)
    ])

sum_bits-bits_from :
    (rounds i offset : ℕ)
    → sum_bits i (bits_from rounds i offset) (offset % 2 ^ i) ≡ offset % 2 ^ (i + rounds)
unfolding sum_bits bits_from
sum_bits-bits_from zero i offset = rw (add-zero i) refl
sum_bits-bits_from (suc rounds) i offset =
    ap (sum_bits (i + 1) (bits_from rounds (i + 1) offset)) (next_digit offset i)
    ∙ sum_bits-bits_from rounds (i + 1) offset
    ∙ ap (λ k. offset % 2 ^ k) (omega arith)

from_zero : (width offset : ℕ) → sum_bits 0 (bits_from width 0 offset) 0 ≡ offset % 2 ^ width
from_zero width offset =
    ap (sum_bits 0 (bits_from width 0 offset)) (sym (mod-one offset))
    ∙ sum_bits-bits_from width 0 offset
    ∙ ap (λ k. offset % 2 ^ k) (omega arith)

-- What `ssa_tag_print` reads from the array of an offset is the offset, less what is above 24 bits.
pub bits_offset-offset_bits : (offset : ℕ) → bits_offset (offset_bits offset) ≡ offset % 2 ^ 24
unfolding bits_offset offset_bits
bits_offset-offset_bits offset = from_zero tag_width offset
