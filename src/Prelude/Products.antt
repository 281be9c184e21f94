-- ===== src/Prelude/Products.antt =====
-- Laws of the products of integers.
use Prim.Native.Nat.{ℕ, ◌+◌, ◌*◌}
use mathlib.Core.Path.{◌≡◌, ap}
use native.Mathlib.Omega.{arith}
use goeth_self_training.Prelude.Int.{ℤ, pos_part, neg_part, ◌+ℤ◌, ◌*ℤ◌, +ℤ_parts, eq_of_parts}

pub *ℤ_parts :
    (a b : ℤ)
    → pos_part (a *ℤ b) + (pos_part a * neg_part b + neg_part a * pos_part b)
      ≡ neg_part (a *ℤ b) + (pos_part a * pos_part b + neg_part a * neg_part b)
unfolding ◌*ℤ◌
*ℤ_parts a b = ground arith

times : (x y z w k : ℕ) → x + y ≡ z + w → x * k + y * k ≡ z * k + w * k
times x y z w k h = ground (arith, ap (λ n. n * k) h)

-- A product with a sum.
pub sum_times : (a b p : ℤ) → (a +ℤ b) *ℤ p ≡ a *ℤ p +ℤ b *ℤ p
sum_times a b p = eq_of_parts ((a +ℤ b) *ℤ p) (a *ℤ p +ℤ b *ℤ p) (
    ground (
      arith,
      *ℤ_parts (a +ℤ b) p,
      +ℤ_parts (a *ℤ p) (b *ℤ p),
      *ℤ_parts a p,
      *ℤ_parts b p,
      ap (λ n. n * pos_part p) (+ℤ_parts a b),
      ap (λ n. n * neg_part p) (+ℤ_parts a b),
    ))
