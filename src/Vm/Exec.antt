-- ===== src/Vm/Exec.antt =====
-- The second switch of `RunClosure` (ethchain/vm.go), one function for each group of op codes.
-- CREATE, CALL and SUICIDE work on the state of all accounts: the step hands their arguments out
-- as a request, after everything that the source does before.
use goeth_self_training.Prelude.{
  ℕ, ◌+◌, ◌-◌, ◌^◌, Bool, ◌&&◌, ◌||◌, Option, some, none, List, [], ◌∷◌, leb, ltb, if◌then◌else◌,
  length,
}
use goeth_self_training.Prelude.Int.{ℤ, pos, negsuc, ◌+ℤ◌, ◌-ℤ◌, ◌*ℤ◌, ltb_ℤ, leb_ℤ, eqb_ℤ}
use goeth_self_training.Prelude.Result.{Result, ok, panic, out_of_fuel, or_panic}
use goeth_self_training.Bytes.{slice, big_d, big_bytes, big_to_bytes}
use goeth_self_training.Value.{to_bytes, to_big}
use goeth_self_training.Stack
use goeth_self_training.Stack.{Stack}
use goeth_self_training.Stack.Memory
use goeth_self_training.Stack.Memory.{Memory}
use goeth_self_training.Trie.{Trie}
use goeth_self_training.Vm.Ints.{div_ℤ, mod_ℤ, xor_ℤ, low_byte, exp_ℤ, int64_of}
use goeth_self_training.Vm.OpCode.{Op}
use goeth_self_training.Vm.Machine.{Env, Machine, gets, get_storage, set_storage}

abbrev pub pow256 : ℤ
pow256 = pos (2 ^ 256)

-- BigTrue and BigFalse.
abbrev pub big_true : ℤ
big_true = pos 1

abbrev pub big_false : ℤ
big_false = pos 0

abbrev pub truth : Bool → ℤ
truth b = if b then big_true else big_false

-- What a step asks of the state: SUICIDE with the receiver; CREATE with the value and the init
-- script; CALL with the address, gas, value, arguments and the place of the result.
pub data Request : Type 0 where
  suicide : ℤ → Request
  create : ℤ → List ℕ → Request
  call : ℤ → ℤ → ℤ → List ℕ → ℤ → ℤ → Request

pub data Fault : Type 0 where
  panicked insufficient_gas : Fault
  invalid_opcode : ℕ → Fault

-- `returned` is closure.Return with a nil error; `failed` returns nil bytes and an error.
pub data Outcome (S : Type 0) : Type 0 where
  running : Machine S → Outcome S
  returned : List ℕ → Machine S → Outcome S
  failed : Fault → Machine S → Outcome S
  request : Request → Machine S → Outcome S

-- A panic inside the loop is recovered, and the machine is as the panic left it.
abbrev pub or_fail {ℓ} :
    {A : Type ℓ} {S : Type 0} → Machine S → Result A → (A → Outcome S) → Outcome S
or_fail m (ok a) k = k a
or_fail m panic k = failed panicked m
or_fail m out_of_fuel k = failed panicked m

-- pc.Add(pc, Big1) at the end of the loop's body.
abbrev pub next : {S : Type 0} → Machine S → Outcome S
next m = running (record m { pc = m.pc +ℤ pos 1 })

abbrev pub pushed : {S : Type 0} → ℤ → Machine S → Outcome S
pushed z m = next (record m { stack = z ∷ m.stack })

-- require(1) and `Pop`; require(2) and `Popn`.
abbrev pub with_one : {S : Type 0} → Machine S → (ℤ → Machine S → Outcome S) → Outcome S
with_one m k = elim m.stack [ [] ↦ failed panicked m | x ∷ st ↦ k x (record m { stack = st }) ]

abbrev pub with_two : {S : Type 0} → Machine S → (ℤ → ℤ → Machine S → Outcome S) → Outcome S
with_two m k = elim (Stack.popn m.stack) [
  | none ↦ failed panicked m
  | some (x, y, st) ↦ k x y (record m { stack = st })
]

-- `if x.Cmp(Pow256) > 0 { x.Sub(Pow256, x) }`
unfoldable pub fold_sign : ℤ → ℤ
fold_sign x = if ltb_ℤ pow256 x then pow256 -ℤ x else x

-- The result of the binary op codes from ADD to BYTE, but for the op codes that take one value.
unfoldable pub binary : (ℤ → Option ℕ) → Op → ℤ → ℤ → Option ℤ
unfolding fold_sign div_ℤ mod_ℤ xor_ℤ exp_ℤ int64_of big_bytes
binary inverse Op.add x y = some (x +ℤ y)
binary inverse Op.sub x y = some (x -ℤ y)
binary inverse Op.mul x y = some (x *ℤ y)
binary inverse Op.div x y = div_ℤ x y
binary inverse Op.sdiv x y = elim (div_ℤ (fold_sign x) (fold_sign y)) [
  | none ↦ none
  | some z ↦ some (fold_sign z)
]
binary inverse Op.modulo x y = mod_ℤ x y
binary inverse Op.smod x y = elim (mod_ℤ (fold_sign x) (fold_sign y)) [
  | none ↦ none
  | some z ↦ some (fold_sign z)
]
binary inverse Op.exp x y = some (exp_ℤ inverse x y (2 ^ 256))
binary inverse Op.lt x y = some (truth (ltb_ℤ x y))
binary inverse Op.gt x y = some (truth (ltb_ℤ y x))
binary inverse Op.eq x y = some (truth (eqb_ℤ x y))
binary inverse Op.and x y = some (truth (leb_ℤ big_true x && leb_ℤ big_true y))
binary inverse Op.or x y = some (truth (leb_ℤ (pos 0) x || leb_ℤ (pos 0) y))
binary inverse Op.xor x y = some (xor_ℤ x y)
binary inverse Op.byte val th =
    some (
      if ltb_ℤ th (pos 32) then pos (length (big_bytes val)) -ℤ pos 1 -ℤ int64_of th else big_false)
binary inverse _ x y = none

-- NEG and NOT.
unfoldable pub unary : Op → ℤ → ℤ
unary Op.neg x = pow256 -ℤ x
unary _ x = truth (eqb_ℤ x big_false)

-- The op codes that push one value that the closure, the transaction or the block gives.
unfoldable pub environment : Env → Op → ℤ
unfolding big_d
environment env Op.address = pos (big_d env.address)
environment env Op.balance = env.balance
environment env Op.origin = pos (big_d env.origin)
environment env Op.caller = pos (big_d env.caller)
environment env Op.call_value = env.call_value
environment env Op.call_data_size = pos (length env.args)
environment env Op.gas_price = env.price
environment env Op.prev_hash = pos (big_d env.prev_hash)
environment env Op.coinbase = pos (big_d env.coinbase)
environment env Op.timestamp = env.time
environment env Op.number = pos env.number
environment env Op.difficulty = env.diff
environment env _ = pos 0

-- CALLDATALOAD at `offset`, an int64: 32 bytes of the arguments, or 0 where they are fewer.
unfoldable pub call_data : List ℕ → ℤ → Result (List ℕ)
unfolding slice
call_data args (pos offset) =
    if ltb (offset + 32) (2 ^ 63)
    then if leb (offset + 32) (length args)
      then or_panic (slice args offset (offset + 32))
      else ok (0 ∷ [])
    else panic
call_data args (negsuc n) = if leb (32 - (n + 1)) (length args) then panic else ok (0 ∷ [])

module _ {S : Type 0} (env : Env) where
  exec_push : ℕ → Machine S → Outcome S
  unfolding gets to_bytes big_d
  exec_push n m =
      or_fail m (gets env (m.pc +ℤ pos 1) (pos n))
        λ data'. pushed (pos (big_d (to_bytes data'))) (record m { pc = m.pc +ℤ pos n })

  exec_memory : Op → Machine S → Outcome S
  unfolding Memory.get Memory.set big_d big_to_bytes low_byte int64_of Stack.popn
  exec_memory Op.sha3 m = with_two m λ size offset m'.
      or_fail m' (or_panic (Memory.get (int64_of offset) (int64_of size) m.mem))
        λ t. pushed (pos (big_d (env.sha3 t))) m'
  exec_memory Op.mload m = with_one m λ offset m'.
      or_fail m' (or_panic (Memory.get (int64_of offset) (pos 32) m.mem))
        λ t. pushed (pos (big_d t)) m'
  exec_memory Op.mstore m = with_two m λ val start m'.
      or_fail m'
        (or_panic (Memory.set env.grow (int64_of start) (pos 32) (big_to_bytes val 256) m.mem))
        λ mem'. next (record m' { mem = mem' })
  exec_memory Op.mstore8 m = with_two m λ val start m'.
      or_fail m'
        (or_panic
          (Memory.set env.grow (int64_of start) (pos 32) (big_to_bytes (low_byte val) 256) m.mem))
        λ mem'. next (record m' { mem = mem' })
  exec_memory _ m = pushed (pos (length m.mem.store)) m

  exec_flow : Op → Machine S → Outcome S
  unfolding Stack.popn
  exec_flow Op.pop m = with_one m λ x m'. next m'
  exec_flow Op.dup m = with_one m λ x m'. pushed x m
  exec_flow Op.swap m = with_two m λ x y m'. next (record m' { stack = x ∷ y ∷ m'.stack })
  exec_flow Op.jump m = with_one m λ pos' m'. running (record m' { pc = pos' })
  exec_flow Op.jumpi m =
      with_two m
        λ cond pos' m'. if eqb_ℤ cond big_true then running (record m' { pc = pos' }) else next m'
  exec_flow _ m = pushed m.pc m

  -- CREATE up to `contract.initScript`, and CALL up to the search for the contract: too little gas
  -- leaves 0 on the stack.
  exec_request : Op → Machine S → Outcome S
  unfolding Memory.get int64_of Stack.popn
  exec_request Op.create m = with_one m λ value' m₁. with_two m₁ λ size offset m₂.
      or_fail m₂ (or_panic (Memory.get (int64_of offset) (int64_of size) m.mem))
        λ init. request (create value' init) m₂
  exec_request Op.call m = with_one m λ addr m₁. with_two m₁ λ gas' value' m₂.
      with_two m₂ λ in_size in_offset m₃. with_two m₃ λ ret_size ret_offset m₄.
        if ltb_ℤ m.gas gas'
        then pushed big_false m₄
        else (or_fail m₄ (or_panic (Memory.get (int64_of in_offset) (int64_of in_size) m.mem))
            λ args. request (call addr gas' value' args ret_size ret_offset) m₄)
  exec_request _ m = with_one m λ receiver m'. request (suicide receiver) m'

  exec_return : Machine S → Outcome S
  unfolding Memory.get int64_of Stack.popn
  exec_return m = with_two m λ size offset m'.
      or_fail m' (or_panic (Memory.get (int64_of offset) (int64_of size) m.mem))
        λ ret. returned ret m'

module _ (tries : Trie) where
  open tries use {T}

  exec_storage : Op → Machine T → Outcome T
  unfolding get_storage set_storage to_big big_bytes Stack.popn
  exec_storage Op.sload m = with_one m λ loc m'.
      or_fail m' (get_storage tries loc m.storage)
        λ val. or_fail m' (or_panic (to_big val)) λ z. pushed z m'
  exec_storage _ m = with_two m λ val loc m'. next (record m' {
    storage = set_storage tries loc val m.storage;
    changes = (big_bytes loc, val) ∷ m.changes;
  })

  -- require(7) of CALL and require(3) of CREATE come before the first value is taken.
  unfoldable pub exec : Env → Op → Machine T → Outcome T
  unfolding exec_push exec_memory exec_flow exec_request exec_return exec_storage binary unary
      environment call_data int64_of big_d Stack.popn
  exec env Op.log m = next m
  exec env Op.neg m = with_one m λ x m'. pushed (unary Op.neg x) m'
  exec env Op.not m = with_one m λ x m'. pushed (unary Op.not x) m'
  exec env Op.sha3 m = exec_memory env Op.sha3 m
  exec env Op.mload m = exec_memory env Op.mload m
  exec env Op.mstore m = exec_memory env Op.mstore m
  exec env Op.mstore8 m = exec_memory env Op.mstore8 m
  exec env Op.msize m = exec_memory env Op.msize m
  exec env Op.call_data_load m =
      with_one m λ offset m'.
        or_fail m' (call_data env.args (int64_of offset)) λ t. pushed (pos (big_d t)) m'
  exec env Op.address m = pushed (environment env Op.address) m
  exec env Op.balance m = pushed (environment env Op.balance) m
  exec env Op.origin m = pushed (environment env Op.origin) m
  exec env Op.caller m = pushed (environment env Op.caller) m
  exec env Op.call_value m = pushed (environment env Op.call_value) m
  exec env Op.call_data_size m = pushed (environment env Op.call_data_size) m
  exec env Op.gas_price m = pushed (environment env Op.gas_price) m
  exec env Op.prev_hash m = pushed (environment env Op.prev_hash) m
  exec env Op.coinbase m = pushed (environment env Op.coinbase) m
  exec env Op.timestamp m = pushed (environment env Op.timestamp) m
  exec env Op.number m = pushed (environment env Op.number) m
  exec env Op.difficulty m = pushed (environment env Op.difficulty) m
  exec env Op.gas_limit m = pushed (environment env Op.gas_limit) m
  exec env (Op.push n) m = exec_push env n m
  exec env Op.pop m = exec_flow env Op.pop m
  exec env Op.dup m = exec_flow env Op.dup m
  exec env Op.swap m = exec_flow env Op.swap m
  exec env Op.jump m = exec_flow env Op.jump m
  exec env Op.jumpi m = exec_flow env Op.jumpi m
  exec env Op.pc m = exec_flow env Op.pc m
  exec env Op.sload m = exec_storage Op.sload m
  exec env Op.sstore m = exec_storage Op.sstore m
  exec env Op.create m =
      if ltb (length m.stack) 3 then failed panicked m else exec_request env Op.create m
  exec env Op.call m =
      if ltb (length m.stack) 7 then failed panicked m else exec_request env Op.call m
  exec env Op.return m = exec_return env m
  exec env Op.suicide m = exec_request env Op.suicide m
  exec env Op.stop m = returned [] m
  exec env (Op.invalid n) m = failed (invalid_opcode n) m
  exec env op m =
      with_two m λ x y m'. or_fail m' (or_panic (binary env.inverse op x y)) λ z. pushed z m'
