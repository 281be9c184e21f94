-- ===== src/Stack/Memory.antt =====
-- `Memory` of ethchain/stack.go: bytes, and the capacity of their slice. Between the length and
-- the capacity the bytes are zero: they were never written, since a memory does not shrink.
-- `grow` is the capacity that Go's append chooses: from the old one and the length that is needed.
-- Offsets and sizes are int64.
pub mod Laws
use goeth_self_training.Prelude.{
  ℕ, ◌+◌, ◌-◌, ◌*◌, ◌^◌, ◌<◌, ◌≤◌, ◌&&◌, Bool, Option, some, none, List, [], ◌∷◌, ◌++◌, leb, ltb,
  if◌then◌else◌, length, take, drop, replicate,
}
use goeth_self_training.Prelude.Int.{ℤ, pos, negsuc}
use goeth_self_training.Bytes.{slice}
use Prim.Native.Nat.{min}

pub record Memory : Type 0 where
  pub store : List ℕ
  pub cap : ℕ

abbrev pub empty : Memory
empty = record { store = []; cap = 0 }

-- append(m.store, newSlice...) of zeros up to a length of `total`.
unfoldable pub extend : (ℕ → ℕ → ℕ) → ℕ → Memory → Memory
extend grow total m = record {
  store = m.store ++ replicate (total - length m.store) 0;
  cap = if leb total m.cap then m.cap else grow m.cap total;
}

-- copy(store[offset:offset+size], value)
unfoldable pub copy_in : ℕ → ℕ → List ℕ → List ℕ → List ℕ
copy_in offset size value' store' =
    take offset store' ++ (take size value' ++ drop (offset + min size (length value')) store')

-- `Set` at numbers that are not negative. In Go `totSize > lenSize` compares with the length less
-- one, and grows by `diff - 1`: the new length is the total, which at an equal length adds nothing.
unfoldable pub set_at : (ℕ → ℕ → ℕ) → ℕ → ℕ → List ℕ → Memory → Memory
set_at grow offset size value' m =
    let m' = if leb (length m.store) (offset + size) then extend grow (offset + size) m else m in
    record m' { store = copy_in offset size value' m'.store }

-- `Set(offset, size, value)`; a negative offset or size, and a sum past int64, panic.
unfoldable pub set : (ℕ → ℕ → ℕ) → ℤ → ℤ → List ℕ → Memory → Option Memory
set grow (pos offset) (pos size) value' m =
    if ltb (offset + size) (2 ^ 63) then some (set_at grow offset size value' m) else none
set grow _ _ value' m = none

-- `Get(offset, size)` reaches up to the capacity.
unfoldable pub get : ℤ → ℤ → Memory → Option (List ℕ)
unfolding slice
get (pos offset) (pos size) m =
    if ltb (offset + size) (2 ^ 63)
    then slice (m.store ++ replicate (m.cap - length m.store) 0) offset (offset + size)
    else none
get _ _ m = none

unfoldable pub size_of : Memory → ℕ
size_of m = length m.store
