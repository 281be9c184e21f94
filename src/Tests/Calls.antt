-- ===== src/Tests/Calls.antt =====
-- Closures that call others (ethchain/vm.go, closure.go) at concrete inputs.
use goeth_self_training.Prelude.{◌≡◌, refl, some, none, [], ◌∷◌, list_eq, if◌then◌else◌}
use goeth_self_training.Prelude.Int.{pos, ◌+ℤ◌, ◌-ℤ◌, ◌*ℤ◌}
use goeth_self_training.Prelude.Result.{Result, ok}
use goeth_self_training.Item.{str}
use goeth_self_training.Rlp.{encode}
use goeth_self_training.Trie.{by_function}
use goeth_self_training.State.{
  StateObject, World, new_account, object_item, get_account, convert_gas,
}
use goeth_self_training.State.Objects.{view}
use goeth_self_training.Value.{to_big}
use goeth_self_training.Bytes.{big_d}
use goeth_self_training.Vm.Calls.{Frame, Scene, Ended, new_closure, refunds, call_closure}
use goeth_self_training.Vm.Calls.Gas.{call_closure_conserves}
use goeth_self_training.StateManager.Apply.{refunded}
use goeth_self_training.StateManager.Apply.Charges.{refunded_pays_used}
use goeth_self_training.Tests.Accounts.{sevens}
use goeth_self_training.Tests.Machine.{adds}

-- A contract at the address 5, of amount 70, whose script is STOP.
abbrev stops : StateObject
stops = new_account (5 ∷ []) (pos 70)

abbrev world : World by_function
world = record {
  trie = λ k. if list_eq (5 ∷ []) k then encode (object_item sevens stops (str [])) else [];
  states = [];
  heap = (λ k. []) ∷ [];
  db = λ k. 0 ∷ [];
  changed = [];
}

abbrev scene : Scene by_function
scene = record { world = world; stored = [] }

-- Five times PUSH1 0, PUSH1 30, PUSH1 5 and CALL: the address 5 is called with the value 30
-- and all of the gas.
abbrev calls : Frame
calls =
    new_closure (λ s. []) (record adds { sha3 = sevens })
      (record (new_account (1 ∷ []) (pos 0)) { state = some 0 }) (2 ∷ []) 3
      (0x60 ∷ 0 ∷ 0x60 ∷ 0 ∷ 0x60 ∷ 0 ∷ 0x60 ∷ 0 ∷ 0x60 ∷ 0 ∷ 0x60 ∷ 30 ∷ 0x60 ∷ 5 ∷ 0xf1 ∷ []) []

abbrev result : Result (Ended by_function)
result = call_closure by_function sevens (λ s. []) 100 calls (pos 500) scene

abbrev ended_of : Result (Ended by_function) → Ended by_function
ended_of (ok e) = e
ended_of r = record {
  ret = [];
  error = none;
  gas = pos 0;
  used_gas = pos 0;
  earlier = [];
  scene = scene;
}

abbrev ended : Ended by_function
ended = ended_of result

result_eq : result ≡ ok ended
unfolding call_closure goeth_self_training.Vm.Step.step goeth_self_training.Vm.Machine.fetch
    goeth_self_training.Vm.Gas.step_gas goeth_self_training.Vm.OpCode.op_code
    goeth_self_training.Bytes.read_varint goeth_self_training.Vm.Exec.exec ◌+ℤ◌ ◌-ℤ◌ encode
    goeth_self_training.Rlp.slice_header goeth_self_training.Rlp.encode_big
    goeth_self_training.Value.new_value_from_bytes goeth_self_training.Rlp.decode_from
    goeth_self_training.Value.get
result_eq = refl

-- Seven pushes, CALL at 20 and two times STOP. The contract has 30 more, which nobody has less.
ended_gas :
    (ended.gas ≡ pos 471)
    × (ended.error ≡ none)
    × (view by_function (5 ∷ []) ended.scene.world ≡ ok (pos 100, 0))
unfolding call_closure view get_account to_big big_d goeth_self_training.Vm.Step.step
    goeth_self_training.Vm.Machine.fetch goeth_self_training.Vm.Gas.step_gas
    goeth_self_training.Vm.OpCode.op_code goeth_self_training.Bytes.read_varint
    goeth_self_training.Vm.Exec.exec ◌+ℤ◌ ◌-ℤ◌ encode goeth_self_training.Rlp.slice_header
    goeth_self_training.Rlp.encode_big goeth_self_training.Value.new_value_from_bytes
    goeth_self_training.Rlp.decode_from goeth_self_training.Value.get
ended_gas = (refl, refl, refl)

call_closure_conserves_example : ended.gas +ℤ ended.used_gas ≡ pos 500
call_closure_conserves_example =
    call_closure_conserves by_function sevens (λ s. []) 100 calls (pos 500) scene ended result_eq

-- An account of 6000 that buys 500 of gas at the price 10.
abbrev buyer : StateObject
buyer = new_account (2 ∷ []) (pos 6000)

abbrev bought : StateObject
bought = new_account (2 ∷ []) (pos 1000)

buys : convert_gas (pos 500) (pos 10) buyer ≡ some bought
unfolding convert_gas ◌*ℤ◌ ◌-ℤ◌
buys = refl

no_create : ended.earlier ≡ []
unfolding call_closure goeth_self_training.Vm.Step.step goeth_self_training.Vm.Machine.fetch
    goeth_self_training.Vm.Gas.step_gas goeth_self_training.Vm.OpCode.op_code
    goeth_self_training.Bytes.read_varint goeth_self_training.Vm.Exec.exec ◌+ℤ◌ ◌-ℤ◌ encode
    goeth_self_training.Rlp.slice_header goeth_self_training.Rlp.encode_big
    goeth_self_training.Value.new_value_from_bytes goeth_self_training.Rlp.decode_from
    goeth_self_training.Value.get
no_create = refl

refunded_pays_used_example :
    (refunded (pos 10) (refunds by_function ended) bought).amount
    ≡ buyer.amount -ℤ ended.used_gas *ℤ pos 10
refunded_pays_used_example =
    refunded_pays_used by_function sevens (λ s. []) 100 calls (pos 500) (pos 10) scene ended buyer
      bought buys result_eq no_create
