-- ===== src/Stack.antt =====
-- ethchain/stack.go: the stack of a VM run and its memory. The `Print` methods are left out.
-- A stack is kept with its top first: it is the data slice of Go in reverse.
pub mod Memory
use goeth_self_training.Prelude.{
  ℕ, ◌+◌, Option, some, none, List, [], ◌∷◌, leb, if◌then◌else◌, length, take,
}
use goeth_self_training.Prelude.Int.{ℤ, pos, leb_ℤ, nat_abs}
use mathlib.Core.List.{reverse}

abbrev pub Stack : Type 0
Stack = List ℤ

-- `Pop`, which panics on an empty stack.
unfoldable pub pop : Stack → Option (ℤ × Stack)
pop [] = none
pop (x ∷ st) = some (x, st)

-- `Popn`: the second from the top and the top.
unfoldable pub popn : Stack → Option (ℤ × ℤ × Stack)
popn [] = none
popn (y ∷ []) = none
popn (y ∷ x ∷ st) = some (x, y, st)

unfoldable pub peek : Stack → Option ℤ
peek [] = none
peek (x ∷ st) = some x

-- `Peekn` takes `data[:2]`, which are the two oldest values. With fewer than two on the stack the
-- slice reaches into what the capacity holds behind the length; `stale` says what it finds there.
unfoldable pub peekn : (Stack → Option (ℤ × ℤ)) → Stack → Option (ℤ × ℤ)
peekn stale st = elim (reverse st) [
  | [] ↦ stale st
  | x ∷ rest ↦ elim rest [ [] ↦ stale st | y ∷ more ↦ some (x, y) ]
]

unfoldable pub push : ℤ → Stack → Stack
push d st = d ∷ st

-- `Get(amount)`: the newest `amount` values, oldest first, or nil.
unfoldable pub get : ℕ → Stack → List ℤ
get amount st = if leb amount (length st) then reverse (take amount st) else []
