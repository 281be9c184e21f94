-- ===== src/Vm/Machine.antt =====
-- The state of one run of `RunClosure` (ethchain/vm.go) and the closure that it runs
-- (ethchain/closure.go). The closure's gas, its storage and the stack are shared with nothing else
-- while its own code runs.
use goeth_self_training.Prelude.{
  ℕ, ◌+◌, ◌||◌, Option, some, none, List, [], ◌++◌, leb, if◌then◌else◌, length,
}
use goeth_self_training.Prelude.Int.{ℤ, pos, negsuc, ◌+ℤ◌, ◌-ℤ◌, ltb_ℤ}
use goeth_self_training.Prelude.Result.{Result, ok, panic, ◌>>=◌, or_panic}
use goeth_self_training.Bytes.{slice, big_to_bytes}
use goeth_self_training.Item.{Item, int, bytes, big, value}
use goeth_self_training.Rlp.{encode}
use goeth_self_training.Value.{new_value, new_value_from_bytes, to_uint}
use goeth_self_training.Stack.{Stack}
use goeth_self_training.Stack.Memory
use goeth_self_training.Stack.Memory.{Memory}
use goeth_self_training.Trie.{Trie}
use goeth_self_training.Vm.Ints.{int64_of}

-- What a run reads and does not change. `spare` holds the bytes between the length and the
-- capacity of the script's slice. `grow`, `stale`, `inverse` and `sha3` stand for Go's append, for
-- what lies behind the length of the stack's slice, for the modular inverse of math/big and for
-- the hash function; `balance` is the amount of the closure's object.
pub record Env : Type 0 where
  pub script : List ℕ
  pub spare : List ℕ
  pub args : List ℕ
  pub price : ℤ
  pub address : List ℕ
  pub caller : List ℕ
  pub balance : ℤ
  pub origin : List ℕ
  pub call_value : ℤ
  pub prev_hash : List ℕ
  pub coinbase : List ℕ
  pub time : ℤ
  pub number : ℕ
  pub diff : ℤ
  pub grow : ℕ → ℕ → ℕ
  pub stale : Stack → Option (ℤ × ℤ)
  pub inverse : ℤ → Option ℕ
  pub sha3 : List ℕ → List ℕ

-- The variables of the loop, and the fields of the closure that it changes. `changes` is what
-- the manifest is told of the storage, newest first.
pub record Machine (S : Type 0) : Type 0 where
  pub stack : Stack
  pub mem : Memory
  pub pc : ℤ
  pub gas : ℤ
  pub used_gas : ℤ
  pub storage : S
  pub changes : List (List ℕ × ℤ)

-- NewClosure and the first lines of `RunClosure`.
unfoldable pub start : {S : Type 0} → ℤ → S → Machine S
start gas storage = record {
  stack = [];
  mem = Memory.empty;
  pc = pos 0;
  gas = gas;
  used_gas = pos 0;
  storage = storage;
  changes = [];
}

-- `Gets`: the bytes of the script, or the number 0 past its end.
unfoldable pub gets : Env → ℤ → ℤ → Result Item
unfolding slice int64_of
gets env x (pos n) = elim (int64_of x) [
  | pos i ↦
      if leb (length env.script) i || leb (length env.script) n
      then ok (int (pos 0))
      else (or_panic (slice (env.script ++ env.spare) i (i + n)) >>= λ t. ok (bytes t))
  | negsuc i ↦ if leb (length env.script) n then ok (int (pos 0)) else panic
]
gets env x (negsuc n) = panic

-- `closure.Get(pc)` as a number, from which the op code is made.
unfoldable pub fetch : Env → ℤ → Result ℕ
unfolding gets to_uint
fetch env pc = do v ← gets env pc (pos 1); ok (to_uint v)

-- `UseGas`
unfoldable pub use_gas : {S : Type 0} → ℤ → Machine S → Option (Machine S)
use_gas amount m =
    if ltb_ℤ m.gas amount
    then none
    else some (record m { gas = m.gas -ℤ amount; used_gas = m.used_gas +ℤ amount })

-- `ReturnGas` of a closure that was the caller.
unfoldable pub return_gas : {S : Type 0} → ℤ → Machine S → Machine S
return_gas amount m = record m { gas = m.gas +ℤ amount; used_gas = m.used_gas -ℤ amount }

-- `GetMem` and `SetStorage` of the closure's object, over the trie of its state.
module _ (tries : Trie) where
  open tries use {T, get, update}

  unfoldable pub get_storage : ℤ → T → Result Item
  get_storage num t = new_value_from_bytes (get t (big_to_bytes num 256))

  unfoldable pub set_storage : ℤ → ℤ → T → T
  unfolding new_value
  set_storage num val t =
      update t (big_to_bytes num 256) (encode (new_value (value (big (some val)))))
