-- ===== src/Vm/Ints.antt =====
-- The operations of math/big that ethchain/vm.go calls, where they are not plain sums.
use goeth_self_training.Prelude.{
  ℕ, zero, suc, ◌+◌, ◌-◌, ◌/◌, ◌%◌, ◌^◌, Option, some, none, ltb, ◌==◌, if◌then◌else◌,
}
use goeth_self_training.Prelude.Int.{ℤ, pos, negsuc, nat_abs, sub_ℕ}
use Prim.Native.Nat.{bit_xor}

abbrev pub neg : ℕ → ℤ
neg n = sub_ℕ 0 n

-- The magnitude of the quotient by `d`, rounded so that the remainder is not negative.
unfoldable pub quot_abs : ℤ → ℕ → ℕ
quot_abs (pos x) d = x / d
quot_abs (negsuc x) d = (suc x + d - 1) / d

-- x.Div(x, y): Euclidean division, which panics at zero.
unfoldable pub div_ℤ : ℤ → ℤ → Option ℤ
unfolding quot_abs
div_ℤ x (pos zero) = none
div_ℤ (pos x) (pos (suc d)) = some (pos (quot_abs (pos x) (suc d)))
div_ℤ (negsuc x) (pos (suc d)) = some (neg (quot_abs (negsuc x) (suc d)))
div_ℤ (pos x) (negsuc d) = some (neg (quot_abs (pos x) (suc d)))
div_ℤ (negsuc x) (negsuc d) = some (pos (quot_abs (negsuc x) (suc d)))

-- The remainder from 0 up to, not including, `d`.
unfoldable pub rem_ℕ : ℤ → ℕ → ℕ
rem_ℕ (pos x) d = x % d
rem_ℕ (negsuc x) d = if suc x % d == 0 then 0 else d - suc x % d

-- x.Mod(x, y): the Euclidean remainder, which panics at zero.
unfoldable pub mod_ℤ : ℤ → ℤ → Option ℤ
unfolding rem_ℕ
mod_ℤ x y = if nat_abs y == 0 then none else some (pos (rem_ℕ x (nat_abs y)))

-- x.Xor(x, y) over two's complement.
unfoldable pub xor_ℤ : ℤ → ℤ → ℤ
xor_ℤ (pos x) (pos y) = pos (bit_xor x y)
xor_ℤ (pos x) (negsuc y) = negsuc (bit_xor x y)
xor_ℤ (negsuc x) (pos y) = negsuc (bit_xor x y)
xor_ℤ (negsuc x) (negsuc y) = pos (bit_xor x y)

-- x.And(x, 0xff)
unfoldable pub low_byte : ℤ → ℤ
unfolding rem_ℕ
low_byte x = pos (rem_ℕ x 256)

-- (-1) ^ n * m
unfoldable pub signed_pow : ℤ → ℕ → ℤ
signed_pow (pos x) n = pos (x ^ n)
signed_pow (negsuc x) n = if n % 2 == 0 then pos (suc x ^ n) else neg (suc x ^ n)

-- base.Exp(x, y, m) into a `base` of zero: x ^ y modulo m. A negative y takes the inverse of x
-- modulo m, by `inverse`, and leaves `base` alone where there is none.
unfoldable pub exp_ℤ : (ℤ → Option ℕ) → ℤ → ℤ → ℕ → ℤ
unfolding signed_pow rem_ℕ
exp_ℤ inverse x (pos y) m = pos (rem_ℕ (signed_pow x y) m)
exp_ℤ inverse x (negsuc y) m = elim (inverse x) [ none ↦ pos 0 | some i ↦ pos (i ^ suc y % m) ]

-- x.Int64(): the low 64 bits of the magnitude as an int64, with the sign of x applied to it.
abbrev pub wrap_int64 : ℕ → ℤ
wrap_int64 n =
    if ltb (n % 2 ^ 64) (2 ^ 63) then pos (n % 2 ^ 64) else negsuc (2 ^ 64 - n % 2 ^ 64 - 1)

unfoldable pub int64_of : ℤ → ℤ
int64_of (pos n) = wrap_int64 n
int64_of (negsuc n) = wrap_int64 (2 ^ 64 - suc n % 2 ^ 64)
