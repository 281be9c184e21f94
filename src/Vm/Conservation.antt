-- ===== src/Vm/Conservation.antt =====
-- The gas of a closure and the gas that it has used (ethchain/vm.go, ethchain/closure.go).
use goeth_self_training.Prelude.{
  ℕ, zero, suc, ◌≡◌, ◌∙◌, refl, sym, ap, Option, some, none, arith, Bool, true, false,
  if◌then◌else◌,
}
use goeth_self_training.Prelude.Int.{ℤ, ◌-ℤ◌, ◌+ℤ◌, ltb_ℤ, -ℤ_parts, +ℤ_parts, eq_of_parts}
use goeth_self_training.Prelude.Result.{Result, ok, panic, out_of_fuel, ok-injective}
use goeth_self_training.Trie.{Trie}
use goeth_self_training.Vm.OpCode.{Op, op_code}
use goeth_self_training.Vm.Machine.{Env, Machine, fetch, use_gas}
use goeth_self_training.Vm.Gas.{step_gas}
use goeth_self_training.Vm.Exec.{
  Outcome, running, returned, failed, request, insufficient_gas, or_fail, exec,
}
use goeth_self_training.Vm.Step.{charged, step, go_on, run}

-- The machine as an outcome leaves it.
abbrev pub machine_of : {S : Type 0} → Outcome S → Machine S
machine_of (running m) = m
machine_of (returned t m) = m
machine_of (failed f m) = m
machine_of (request r m) = m

abbrev pub total_gas : {S : Type 0} → Machine S → ℤ
total_gas m = m.gas +ℤ m.used_gas

module _ (tries : Trie) where
  open tries use {T}

  abbrev SameGas : Machine T → Outcome T → Type 0
  SameGas m o = ((machine_of o).gas ≡ m.gas) × ((machine_of o).used_gas ≡ m.used_gas)

  exec_gas : (env : Env) (op : Op) (m : Machine T) → SameGas m (exec tries env op m)
  unfolding exec
  exec_gas env Op.log m = ground arith
  exec_gas env Op.neg m = ground arith
  exec_gas env Op.sha3 m = ground arith
  exec_gas env Op.mload m = ground arith
  exec_gas env Op.create m = ground arith
  exec_gas env Op.call m = ground arith
  exec_gas env _ m = ground arith

  moved : (a b c : ℤ) → (a -ℤ c) +ℤ (b +ℤ c) ≡ a +ℤ b
  moved a b c =
      eq_of_parts ((a -ℤ c) +ℤ (b +ℤ c)) (a +ℤ b)
        (omega (arith, +ℤ_parts (a -ℤ c) (b +ℤ c), -ℤ_parts a c, +ℤ_parts b c, +ℤ_parts a b))

  pub use_gas-total :
      (amount : ℤ) (m m' : Machine T) → use_gas amount m ≡ some m' → total_gas m' ≡ total_gas m
  unfolding use_gas
  use_gas-total amount m m' e =
      by_case (ltb_ℤ m.gas amount)
        (record m { gas = m.gas -ℤ amount; used_gas = m.used_gas +ℤ amount }) e
        (moved m.gas m.used_gas amount)
    where
      by_case :
          (b : Bool) (p : Machine T)
          → (if b then none else some p) ≡ some m'
          → total_gas p ≡ total_gas m
          → total_gas m' ≡ total_gas m
      by_case true p h k = cc
      by_case false p h k = let e' : p ≡ m' = cc in ap total_gas (sym e') ∙ k

  -- What a part of the loop's body leaves has as much gas, with what is used, as before.
  abbrev pub Conserves : Machine T → Outcome T → Type 0
  Conserves m o = total_gas (machine_of o) ≡ total_gas m

  Conserves-or_fail :
      {A : Type 0} (m : Machine T) (r : Result A) (k : A → Outcome T)
      → ((a : A) → Conserves m (k a))
      → Conserves m (or_fail m r k)
  Conserves-or_fail m (ok a) k h = h a
  Conserves-or_fail m panic k h = refl
  Conserves-or_fail m out_of_fuel k h = refl

  charged-Conserves :
      (env : Env) (op : Op) (amount : ℤ) (m : Machine T)
      → Conserves m (charged tries env op amount m)
  unfolding charged
  charged-Conserves env op amount m = go (use_gas amount m) refl
    where
      go :
          (o : Option (Machine T))
          → use_gas amount m ≡ o
          → Conserves m
              (elim o [ none ↦ failed insufficient_gas m | some m' ↦ exec tries env op m' ])
      go none e = refl
      go (some m') e =
          rw ((exec_gas env op m').0, (exec_gas env op m').1) (use_gas-total amount m m' e)

  step-Conserves : (env : Env) (m : Machine T) → Conserves m (step tries env m)
  unfolding step
  step-Conserves env m = Conserves-or_fail m (fetch env m.pc) _ λ code.
      Conserves-or_fail m (step_gas tries env (op_code code) m) _
        λ amount. charged-Conserves env (op_code code) amount m

  go_on-Conserves :
      (rest : Machine T → Result (Outcome T)) (m : Machine T) (o o' : Outcome T)
      → Conserves m o'
      → ((m' : Machine T) → rest m' ≡ ok o → Conserves m' o)
      → go_on rest o' ≡ ok o
      → Conserves m o
  unfolding go_on
  go_on-Conserves rest m o (running m') c h e = h m' e ∙ c
  go_on-Conserves rest m o (returned t m') c h e = rw (← ok-injective e) c
  go_on-Conserves rest m o (failed f m') c h e = rw (← ok-injective e) c
  go_on-Conserves rest m o (request r m') c h e = rw (← ok-injective e) c

  -- However a run ends, the gas and the used gas of the machine that it leaves add up to what they
  -- did at its start.
  pub run_conserves :
      (fuel : ℕ) (env : Env) (m : Machine T) (o : Outcome T)
      → run tries fuel env m ≡ ok o
      → total_gas (machine_of o) ≡ total_gas m
  unfolding run go_on
  run_conserves zero env m o e = cc
  run_conserves (suc fuel) env m o e =
      go_on-Conserves (λ m'. run tries fuel env m') m o (step tries env m) (step-Conserves env m)
        (λ m'. run_conserves fuel env m' o) e
