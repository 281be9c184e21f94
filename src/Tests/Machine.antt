-- ===== src/Tests/Machine.antt =====
-- The virtual machine and its memory (ethchain/vm.go, stack.go) at concrete inputs.
use goeth_self_training.Prelude.{
  ℕ, zero, suc, ◌+◌, ◌-◌, ◌<◌, ◌≤◌, ◌^◌, ◌≡◌, ◌≢◌, refl, inl, arith, List, [], ◌∷◌, some, none,
  length, list_eq, if◌then◌else◌, leb, ltb, ◌&&◌, get_elem?,
}
use goeth_self_training.Prelude.Int.{ℤ, pos, negsuc, nat_abs, ◌≤ℤ◌}
use goeth_self_training.Prelude.Result.{ok, out_of_fuel}
use Prim.Native.Nat.{min}
use goeth_self_training.Bytes.{be_bytes, big_to_bytes}
use goeth_self_training.Stack.Memory
use goeth_self_training.Stack.Memory.{Memory, set_at, size_of}
use goeth_self_training.Stack.Memory.Laws.{set_at-bytes, padded}
use goeth_self_training.Trie.{by_function}
use goeth_self_training.Vm.OpCode.{Op}
use goeth_self_training.Vm.OpCode
use goeth_self_training.Vm.Machine.{Env, Machine, start}
use goeth_self_training.Vm.Exec.{Outcome, returned, exec}
use goeth_self_training.Vm.Step.{run, step}
use goeth_self_training.Vm.Step.Progress.{run_ends}

-- A closure of the script PUSH1 3 PUSH1 4 ADD PUSH1 0 SSTORE.
abbrev pub adds : Env
adds = record {
  script = 0x60 ∷ 3 ∷ 0x60 ∷ 4 ∷ 0x01 ∷ 0x60 ∷ 0 ∷ 0x58 ∷ [];
  spare = [];
  args = [];
  price = pos 1;
  address = 1 ∷ [];
  caller = 2 ∷ [];
  balance = pos 0;
  origin = 2 ∷ [];
  call_value = pos 0;
  prev_hash = [];
  coinbase = [];
  time = pos 0;
  number = 0;
  diff = pos 0;
  grow = λ old new. new;
  stale = λ st. none;
  inverse = λ x. none;
  sha3 = λ t. t;
}

-- The machine at the start of a run, with a storage where nothing is written.
abbrev begun : Machine (List ℕ → List ℕ)
begun = record {
  stack = [];
  mem = Memory.empty;
  pc = pos 0;
  gas = pos 500;
  used_gas = pos 0;
  storage = λ k. [];
  changes = [];
}

run_ends_example : run by_function 1001 adds begun ≢ out_of_fuel
run_ends_example = run_ends by_function 1001 adds begun (omega arith) (omega arith)

-- PUSH1 3 PUSH1 4 ADD
abbrev sums : Env
sums = record adds { script = 0x60 ∷ 3 ∷ 0x60 ∷ 4 ∷ 0x01 ∷ [] }

abbrev finished : Outcome (List ℕ → List ℕ)
finished =
    returned [] (record begun { stack = pos 7 ∷ []; pc = pos 5; gas = pos 496; used_gas = pos 4 })

run-sums : run by_function 1001 sums begun ≡ ok finished
unfolding run step goeth_self_training.Vm.Machine.fetch goeth_self_training.Vm.Gas.step_gas
    OpCode.op_code goeth_self_training.Bytes.read_varint exec goeth_self_training.Prelude.Int.◌+ℤ◌
    goeth_self_training.Prelude.Int.◌-ℤ◌
run-sums = refl

abbrev four_bytes : Memory
four_bytes = record { store = 1 ∷ 2 ∷ 3 ∷ 4 ∷ []; cap = 8 }

set_at-bytes_example : get_elem? (set_at (λ old new. new) 3 5 (7 ∷ 8 ∷ []) four_bytes).store 4 ≡ (
    if leb 3 4 && ltb 4 (3 + min 5 2)
    then get_elem? (7 ∷ 8 ∷ []) (4 - 3)
    else padded four_bytes 8 4)
set_at-bytes_example = set_at-bytes (λ old new. new) 3 5 (7 ∷ 8 ∷ []) four_bytes 4
