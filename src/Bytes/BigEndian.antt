-- ===== src/Bytes/BigEndian.antt =====
-- `big_bytes`, `big_d` and `ReadVarint` in plain arithmetic: digits, bounds and round trips.
use goeth_self_training.Prelude.{
  ℕ, zero, suc, ◌+◌, ◌*◌, ◌/◌, ◌%◌, ◌^◌, ◌<◌, ◌≤◌, ◌≡◌, ◌⊎◌, refl, sym, ap, ◌∙◌, inl, inr, List, [],
  ◌∷◌, ◌++◌, arith, ◌==◌, length, length-append, All, append_assoc, Bool-cases,
}
use goeth_self_training.Bytes.{IsByte, be_loop, be_bytes, from_be_loop, big_d, read_varint}
use goeth_self_training.Prelude.{All-append}
use native.Mathlib.Nat.{pow-suc}

be_loop-append : (f n : ℕ) (acc : List ℕ) → be_loop f n acc ≡ be_loop f n [] ++ acc
unfolding be_loop
be_loop-append zero n acc = refl
be_loop-append (suc f) n acc = elim (Bool-cases (n == 0)) [
  | inl e ↦ rw e
  | inr e ↦ rw e (
      be_loop-append f (n / 256) ((n % 256) ∷ acc)
      ∙ sym (
          ap (λ l. l ++ acc) (be_loop-append f (n / 256) ((n % 256) ∷ []))
          ∙ append_assoc (be_loop f (n / 256) []) ((n % 256) ∷ []) acc))
]

-- Fuel past `n` makes no difference.
be_loop-fuel : (f g n : ℕ) (acc : List ℕ) → n ≤ f → n ≤ g → be_loop f n acc ≡ be_loop g n acc
unfolding be_loop
be_loop-fuel zero zero n acc h k = refl
be_loop-fuel zero (suc g) n acc h k = ground arith
be_loop-fuel (suc f) zero n acc h k = ground arith
be_loop-fuel (suc f) (suc g) n acc h k =
    ground (arith, be_loop-fuel f g (n / 256) ((n % 256) ∷ acc))

-- The last digit of a positive number stands behind the digits of the rest.
pub be_bytes-step : (n : ℕ) → 0 < n → be_bytes n ≡ be_bytes (n / 256) ++ (n % 256) ∷ []
unfolding be_bytes
be_bytes-step zero h = absurd (omega arith)
be_bytes-step (suc m) h =
    unfold be_loop in
    ground (
      arith,
      be_loop-fuel m (suc m / 256) (suc m / 256) ((suc m % 256) ∷ []),
      be_loop-append (suc m / 256) (suc m / 256) ((suc m % 256) ∷ []),
    )

pub from_be-snoc :
    (acc : ℕ) (bs : List ℕ) (b : ℕ)
    → from_be_loop acc (bs ++ b ∷ []) ≡ from_be_loop acc bs * 256 + b
unfolding from_be_loop
from_be-snoc acc [] b = refl
from_be-snoc acc (x ∷ bs) b = from_be-snoc (acc * 256 + x) bs b

pub big_d-snoc : (bs : List ℕ) (b : ℕ) → big_d (bs ++ b ∷ []) ≡ big_d bs * 256 + b
unfolding big_d
big_d-snoc bs b = from_be-snoc 0 bs b

big_d-be_bytes_below : (k n : ℕ) → n < k → big_d (be_bytes n) ≡ n
big_d-be_bytes_below zero n h = absurd (omega arith)
big_d-be_bytes_below (suc k) zero h = unfold big_d be_bytes in refl
big_d-be_bytes_below (suc k) (suc m) h =
    rw (be_bytes-step (suc m) (omega arith), big_d-snoc)
      (omega (arith, big_d-be_bytes_below k (suc m / 256) (omega arith)))

-- SetBytes reads back what Bytes wrote.
pub big_d-be_bytes : (n : ℕ) → big_d (be_bytes n) ≡ n
big_d-be_bytes n = big_d-be_bytes_below (suc n) n (omega arith)

be_bytes_zero : be_bytes 0 ≡ []
unfolding be_bytes
be_bytes_zero = refl

pow-suc_256 : (k : ℕ) → 256 ^ suc k ≡ 256 * 256 ^ k
pow-suc_256 k = omega (arith, pow-suc 256 k)

pow_pos_256 : (k : ℕ) → 0 < 256 ^ k
pow_pos_256 zero = omega arith
pow_pos_256 (suc k) = omega (arith, pow-suc_256 k, pow_pos_256 k)

div_below : (k n : ℕ) → n < 256 ^ suc k → n / 256 < 256 ^ k
div_below k n h = omega (arith, pow-suc_256 k)

div_above : (k n : ℕ) → 256 ^ suc k ≤ n → 256 ^ k ≤ n / 256
div_above k n h = omega (arith, pow-suc_256 k)

pow_pos : (k n : ℕ) → 256 ^ suc k ≤ n → 0 < n
pow_pos k n h = omega (arith, pow-suc_256 k, pow_pos_256 k)

be_bytes_small : (n : ℕ) → n < 1 → be_bytes n ≡ []
unfolding be_bytes
be_bytes_small zero h = refl
be_bytes_small (suc n) h = absurd (omega arith)

pub length-be_bytes-step : (n : ℕ) → 0 < n → length (be_bytes n) ≡ length (be_bytes (n / 256)) + 1
length-be_bytes-step n h =
    rw (be_bytes-step n h) (omega (arith, length-append (be_bytes (n / 256)) ((n % 256) ∷ [])))

-- A number below 256 ^ k has at most k digits, and one from there on has more.
pub length-be_bytes_le : (k n : ℕ) → n < 256 ^ k → length (be_bytes n) ≤ k
length-be_bytes_le k zero h = rw be_bytes_zero (omega arith)
length-be_bytes_le zero (suc m) h = absurd (omega arith)
length-be_bytes_le (suc k) (suc m) h = omega (
  arith,
  length-be_bytes-step (suc m) (omega arith),
  length-be_bytes_le k (suc m / 256) (div_below k (suc m) h),
)

pub length-be_bytes_lt : (k n : ℕ) → 256 ^ k ≤ n → k < length (be_bytes n)
length-be_bytes_lt zero n h = omega (arith, length-be_bytes-step n (omega arith))
length-be_bytes_lt (suc k) n h = omega (
  arith,
  length-be_bytes-step n (pow_pos k n h),
  length-be_bytes_lt k (n / 256) (div_above k n h),
)

be_bytes-IsByte_below : (k n : ℕ) → n < k → All IsByte (be_bytes n)
be_bytes-IsByte_below zero n h = absurd (omega arith)
be_bytes-IsByte_below (suc k) zero h = rw be_bytes_zero tt
be_bytes-IsByte_below (suc k) (suc m) h = rw (be_bytes-step (suc m) (omega arith)) (
    All-append IsByte (be_bytes (suc m / 256)) ((suc m % 256) ∷ [])
      (be_bytes-IsByte_below k (suc m / 256) (omega arith)) (omega arith))

-- The digits are bytes.
pub be_bytes-IsByte : (n : ℕ) → All IsByte (be_bytes n)
be_bytes-IsByte n = be_bytes-IsByte_below (suc n) n (omega arith)

-- The numbers whose digits `ReadVarint` reads whole: 0, 1, 2, 4 or 8 of them.
abbrev pub IsReadable : ℕ → Type 0
IsReadable n = (n < 2 ^ 16) ⊎ ((2 ^ 24 ≤ n) × (n < 2 ^ 32)) ⊎ ((2 ^ 56 ≤ n) × (n < 2 ^ 64))

abbrev ReadLength : ℕ → Type 0
ReadLength n = (n ≤ 2) ⊎ (n ≡ 4) ⊎ (n ≡ 8)

read_varint-big_d : (bs : List ℕ) → ReadLength (length bs) → read_varint bs ≡ big_d bs
unfolding read_varint big_d
read_varint-big_d [] h = refl
read_varint-big_d (b ∷ []) h = ground arith
read_varint-big_d (b ∷ c ∷ bs) h = ground arith

readable_length : (n : ℕ) → IsReadable n → ReadLength (length (be_bytes n))
readable_length n (inl h) = inl (length-be_bytes_le 2 n h)
readable_length n (inr (inl h)) =
    inr (inl (omega (arith, length-be_bytes_le 4 n h.1, length-be_bytes_lt 3 n h.0)))
readable_length n (inr (inr h)) =
    inr (inr (omega (arith, length-be_bytes_le 8 n h.1, length-be_bytes_lt 7 n h.0)))

-- `ReadVarint` reads back such a number.
pub read_varint-be_bytes : (n : ℕ) → IsReadable n → read_varint (be_bytes n) ≡ n
read_varint-be_bytes n h = read_varint-big_d (be_bytes n) (readable_length n h) ∙ big_d-be_bytes n

pub length-be_bytes_three : (n : ℕ) → 2 ^ 16 ≤ n → n < 2 ^ 24 → length (be_bytes n) ≡ 3
length-be_bytes_three n h k = omega (arith, length-be_bytes_le 3 n k, length-be_bytes_lt 2 n h)

-- Of a number with three digits it reads the first digit only.
pub read_varint_three : (n : ℕ) → 2 ^ 16 ≤ n → n < 2 ^ 24 → read_varint (be_bytes n) ≡ n / 2 ^ 16
read_varint_three n h k =
    rw
      (
        be_bytes-step n (omega arith),
        be_bytes-step (n / 256) (omega arith),
        be_bytes-step (n / 256 / 256) (omega arith),
      )
      (rw (be_bytes_small (n / 256 / 256 / 256) (omega arith)) (unfold read_varint in omega arith))
