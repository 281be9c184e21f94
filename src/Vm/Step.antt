-- ===== src/Vm/Step.antt =====
-- The loop of `RunClosure` in ethchain/vm.go, without a debug hook.
pub mod Progress
use goeth_self_training.Prelude.{ℕ, zero, suc, Option, some, none}
use goeth_self_training.Prelude.Int.{ℤ}
use goeth_self_training.Prelude.Result.{Result, ok, panic, out_of_fuel, ◌>>=◌}
use goeth_self_training.Trie.{Trie}
use goeth_self_training.Vm.OpCode.{Op, op_code}
use goeth_self_training.Vm.Machine.{Env, Machine, fetch, use_gas}
use goeth_self_training.Vm.Gas.{step_gas}
use goeth_self_training.Vm.Exec.{
  Outcome, running, failed, panicked, insufficient_gas, or_fail, exec,
}

-- `for { … }`: another round, or the end.
unfoldable pub go_on :
    {S : Type 0} → (Machine S → Result (Outcome S)) → Outcome S → Result (Outcome S)
go_on rest (running m) = rest m
go_on rest o = ok o

module _ (tries : Trie) where
  open tries use {T}

  -- The gas is taken, or the run ends for want of it.
  unfoldable pub charged : Env → Op → ℤ → Machine T → Outcome T
  unfolding use_gas
  charged env op amount m = elim (use_gas amount m) [
    | none ↦ failed insufficient_gas m
    | some m' ↦ exec tries env op m'
  ]

  -- One round of the loop.
  unfoldable pub step : Env → Machine T → Outcome T
  unfolding charged
  step env m = or_fail m (fetch env m.pc) λ code.
      or_fail m (step_gas tries env (op_code code) m) λ amount. charged env (op_code code) amount m

  -- The loop, up to its end or to a request to the state.
  unfoldable pub run : ℕ → Env → Machine T → Result (Outcome T)
  unfolding go_on
  run zero env m = out_of_fuel
  run (suc fuel) env m = go_on (λ m'. run fuel env m') (step env m)
