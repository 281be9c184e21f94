-- ===== src/Bytes.antt =====
-- ethutil/bytes.go, ethutil/big.go and the slice expressions of Go. A byte is a number below 256.
pub mod BigEndian
use goeth_self_training.Prelude.{
  ℕ, zero, suc, ◌+◌, ◌-◌, ◌*◌, ◌/◌, ◌%◌, ◌^◌, ◌<◌, ◌≤◌, ◌&&◌, Bool, Option, some, none, List, [],
  ◌∷◌, ◌++◌, ltb, leb, ◌==◌, if◌then◌else◌, length, take, drop, replicate,
}
use goeth_self_training.Prelude.Int.{ℤ, nat_abs, pos, negsuc, leb_ℤ}

abbrev pub IsByte : ℕ → Type 0
IsByte b = b < 256

-- A uint64.
abbrev pub u64 : ℕ → ℕ
u64 n = n % 2 ^ 64

-- s[from:to]; the upper bound may reach up to the capacity, so `all` is the slice with the bytes
-- behind it.
unfoldable pub slice {ℓ} : {A : Type ℓ} → List A → ℕ → ℕ → Option (List A)
slice all from to =
    if leb from to && leb to (length all) then some (take (to - from) (drop from all)) else none

-- The big-endian digits of `n` in front of `acc`, without leading zeros; `fuel` is at least `n`.
unfoldable pub be_loop : ℕ → ℕ → List ℕ → List ℕ
be_loop zero n acc = acc
be_loop (suc fuel) n acc =
    let more = be_loop fuel (n / 256) ((n % 256) ∷ acc) in if n == 0 then acc else more

-- (*big.Int).Bytes() of a number that is not negative.
unfoldable pub be_bytes : ℕ → List ℕ
unfolding be_loop
be_bytes n = be_loop n n []

unfoldable pub from_be_loop : ℕ → List ℕ → ℕ
from_be_loop acc [] = acc
from_be_loop acc (b ∷ bs) = from_be_loop (acc * 256 + b) bs

-- (*big.Int).SetBytes, which is `BigD` of ethutil/big.go.
unfoldable pub big_d : List ℕ → ℕ
unfolding from_be_loop
big_d bs = from_be_loop 0 bs

-- (*big.Int).Bytes(): the absolute value in big-endian order.
unfoldable pub big_bytes : ℤ → List ℕ
unfolding be_bytes
big_bytes z = be_bytes (nat_abs z)

-- `ReadVarint` over a reader that holds `bs`: eight, four or two bytes are read whole, and of any
-- other number of bytes only the first one (binary.Read at the end of input leaves num at 0).
unfoldable pub read_varint : List ℕ → ℕ
unfolding big_d
read_varint [] = 0
read_varint (b ∷ bs) =
    if length (b ∷ bs) == 8
    then big_d (b ∷ bs)
    else if length (b ∷ bs) == 4
    then big_d (b ∷ bs)
    else if length (b ∷ bs) == 2
    then big_d (b ∷ bs)
    else b

-- `NumberToBytes(uint32(n), 32)`, the only use of that function: four bytes.
unfoldable pub number_to_bytes32 : ℕ → List ℕ
number_to_bytes32 n = (n / 2 ^ 24 % 256) ∷ (n / 2 ^ 16 % 256) ∷ (n / 2 ^ 8 % 256) ∷ (n % 256) ∷ []

-- `BytesToNumber`: `data[:len(b)]` of eight zero bytes, which panics past eight, with `b` behind
-- it; binary.Read wants eight bytes and takes the first eight.
unfoldable pub bytes_to_number : List ℕ → Option ℕ
unfolding big_d
bytes_to_number b =
    let data' = replicate (length b) 0 ++ b in
    if leb (length b) 8
    then some (if ltb (length data') 8 then 0 else big_d (take 8 data'))
    else none

-- `BinaryLength` of a number that is not negative, on fuel at least `n`.
unfoldable pub binary_length : ℕ → ℕ → ℕ
binary_length zero n = 0
binary_length (suc fuel) n =
    let rest = binary_length fuel (n / 256) in if n == 0 then 0 else 1 + rest

-- `BigToBytes`: left padding with zeros up to `base / 8` bytes; a wider number keeps its bytes.
unfoldable pub big_to_bytes : ℤ → ℕ → List ℕ
unfolding big_bytes
big_to_bytes num base =
    if ltb (base / 8) (length (big_bytes num))
    then big_bytes num
    else replicate (base / 8 - length (big_bytes num)) 0 ++ big_bytes num

-- `BigMax`, branches as the source has them.
unfoldable pub big_max : ℤ → ℤ → ℤ
big_max x y = if leb_ℤ x y then x else y
