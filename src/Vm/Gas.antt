-- ===== src/Vm/Gas.antt =====
-- The gas of one step: the first switch of `RunClosure` in ethchain/vm.go. `Big2` of
-- ethutil/common.go is NewInt(1), so a first write to a storage cell costs no more than another.
use goeth_self_training.Prelude.{
  ◌==◌, Bool, ◌&&◌, not, Option, some, none, List, ◌∷◌, ltb, if◌then◌else◌, length,
}
use goeth_self_training.Prelude.Int.{ℤ, pos, ◌+ℤ◌, ◌*ℤ◌}
use goeth_self_training.Prelude.Result.{Result, ok, panic, ◌>>=◌, or_panic}
use goeth_self_training.Bytes.{big_bytes}
use goeth_self_training.Value.{is_empty}
use goeth_self_training.Stack
use goeth_self_training.Trie.{Trie}
use goeth_self_training.Vm.Ints.{div_ℤ}
use goeth_self_training.Vm.OpCode.{Op}
use goeth_self_training.Vm.Machine.{Env, Machine, get_storage}

abbrev pub gas_step : ℤ
gas_step = pos 1

abbrev pub gas_sha : ℤ
gas_sha = pos 20

abbrev pub gas_sload : ℤ
gas_sload = pos 20

abbrev pub gas_sstore : ℤ
gas_sstore = pos 100

abbrev pub gas_balance : ℤ
gas_balance = pos 20

abbrev pub gas_create : ℤ
gas_create = pos 100

abbrev pub gas_call : ℤ
gas_call = pos 20

abbrev pub gas_memory : ℤ
gas_memory = pos 1

abbrev pub gas_tx : ℤ
gas_tx = pos 500

-- Big0, Big1 and Big2.
abbrev pub big0 : ℤ
big0 = pos 0

abbrev pub big1 : ℤ
big1 = pos 1

abbrev pub big2 : ℤ
big2 = pos 1

-- `CalculateTxGas`
unfoldable pub calculate_tx_gas : ℤ → Option ℤ
unfolding div_ℤ
calculate_tx_gas init_size = elim (div_ℤ init_size (pos 32)) [
  | none ↦ none
  | some n ↦ some (n *ℤ gas_sstore)
]

-- The multiplier of SSTORE: `fresh` says that the cell is empty, `zero'` that nothing is written.
unfoldable pub sstore_mult : Bool → Bool → ℤ
sstore_mult fresh zero' =
    if fresh && not zero' then big2 else if not fresh && zero' then big0 else big1

module _ (tries : Trie) where
  open tries use {T}

  -- The sums of `args` in case CREATE: the second and the first of the three newest values.
  abbrev create_size : List ℤ → Option ℤ
  create_size (a ∷ b ∷ rest) = some (b +ℤ a)
  create_size _ = none

  unfoldable pub step_gas : Env → Op → Machine T → Result ℤ
  unfolding get_storage is_empty sstore_mult calculate_tx_gas Stack.peekn Stack.get big_bytes
  step_gas env Op.sha3 m = ok gas_sha
  step_gas env Op.sload m = ok gas_sload
  step_gas env Op.sstore m = do
    (y, x) ← or_panic (Stack.peekn env.stale m.stack)
    val ← get_storage tries x m.storage
    fresh ← is_empty val
    ok (sstore_mult fresh (length (big_bytes y) == 0) *ℤ gas_sstore)
  step_gas env Op.balance m = ok gas_balance
  step_gas env Op.create m = if ltb (length m.stack) 3 then panic else (do
    size ← or_panic (create_size (Stack.get 3 m.stack))
    or_panic (calculate_tx_gas size))
  step_gas env Op.call m = ok gas_call
  step_gas env Op.mload m = ok gas_memory
  step_gas env Op.msize m = ok gas_memory
  step_gas env Op.mstore8 m = ok gas_memory
  step_gas env Op.mstore m = ok gas_memory
  step_gas env _ m = ok gas_step
