-- ===== src/Vm/Step/Progress.antt =====
-- Every run of the machine ends: the gas falls, or the stack does (ethchain/vm.go).
use goeth_self_training.Prelude.{
  ℕ, zero, suc, ◌+◌, ◌*◌, ◌<◌, ◌≤◌, ◌≡◌, ◌≢◌, ◌⊎◌, inl, inr, refl, length, ◌==◌, arith, Bool, true,
  false, Bool-cases,
}
use goeth_self_training.Prelude.Int.{ℤ, pos, pos_part, ◌≤ℤ◌, ◌-ℤ◌, ◌+ℤ◌, ◌*ℤ◌, ltb_ℤ, -ℤ_parts}
use goeth_self_training.Prelude.Result.{Result, ok, panic, out_of_fuel, or_panic, >>=-Yields}
use goeth_self_training.Stack
use goeth_self_training.Value.{is_empty}
use goeth_self_training.Bytes.{big_bytes}
use goeth_self_training.Trie.{Trie}
use goeth_self_training.Vm.OpCode.{Op, op_code}
use goeth_self_training.Vm.Machine.{Env, Machine, fetch, use_gas, get_storage}
use goeth_self_training.Vm.Gas.{step_gas, sstore_mult, gas_sstore}
use goeth_self_training.Vm.Exec.{
  Outcome, running, returned, failed, request, insufficient_gas, or_fail, exec,
}
use goeth_self_training.Vm.Step.{charged, step, go_on, run}

-- `P` holds of the machine if the loop goes on.
abbrev pub Runs : {S : Type 0} → (Machine S → Type 0) → Outcome S → Type 0
Runs P (running m) = P m
Runs P (returned t m) = Unit
Runs P (failed f m) = Unit
Runs P (request r m) = Unit

-- No gas is used, and at most `n` values were added to a stack of `l`.
abbrev Grew : {S : Type 0} → ℤ → ℕ → Machine S → Type 0
Grew gas bound m = (m.gas ≡ gas) × (length m.stack ≤ bound)

module _ {S : Type 0} (gas : ℤ) (bound : ℕ) where
  Grew-or_fail :
      {A : Type 0} (m : Machine S) (r : Result A) (k : A → Outcome S)
      → ((a : A) → Runs (Grew gas bound) (k a))
      → Runs (Grew gas bound) (or_fail m r k)
  Grew-or_fail m (ok a) k h = h a
  Grew-or_fail m panic k h = tt
  Grew-or_fail m out_of_fuel k h = tt

module _ (tries : Trie) where
  open tries use {T}

  exec_grows :
      (env : Env) (op : Op) (m : Machine T)
      → Runs (Grew m.gas (length m.stack + 1)) (exec tries env op m)
  unfolding exec
  exec_grows env Op.log m = ground arith
  exec_grows env Op.neg m = ground arith
  exec_grows env Op.sha3 m = ground arith
  exec_grows env Op.mload m = ground arith
  exec_grows env Op.create m = ground arith
  exec_grows env Op.call m = ground arith
  exec_grows env _ m = ground arith

  exec_sstore :
      (env : Env) (m : Machine T)
      → Runs
          (λ m'. (m'.gas ≡ m.gas) × (length m'.stack + 2 ≡ length m.stack))
          (exec tries env Op.sstore m)
  unfolding exec
  exec_sstore env m = ground arith

  exec_create : (env : Env) (m : Machine T) → Runs (λ m'. ⊥) (exec tries env Op.create m)
  unfolding exec
  exec_create env m = ground arith

  -- What falls with each round: twice the gas, and the height of the stack.
  abbrev pub measure : Machine T → ℕ
  measure m = 2 * pos_part m.gas + length m.stack

  abbrev Falls : Machine T → Machine T → Type 0
  Falls m m' = (pos 0 ≤ℤ m'.gas) × (measure m' < measure m)

  Runs-mono :
      (P Q : Machine T → Type 0) (o : Outcome T)
      → Runs P o
      → ((m' : Machine T) → P m' → Q m')
      → Runs Q o
  Runs-mono P Q (running m) h k = k m h
  Runs-mono P Q (returned t m) h k = tt
  Runs-mono P Q (failed f m) h k = tt
  Runs-mono P Q (request r m) h k = tt

  -- The machine that has paid.
  abbrev paid : ℤ → Machine T → Machine T
  paid amount m = record m { gas = m.gas -ℤ amount; used_gas = m.used_gas +ℤ amount }

  charged_short :
      (env : Env) (op : Op) (amount : ℤ) (m : Machine T)
      → ltb_ℤ m.gas amount ≡ true
      → charged tries env op amount m ≡ failed insufficient_gas m
  unfolding charged use_gas
  charged_short env op amount m e = rw (e, charged)

  charged_enough :
      (env : Env) (op : Op) (amount : ℤ) (m : Machine T)
      → ltb_ℤ m.gas amount ≡ false
      → charged tries env op amount m ≡ exec tries env op (paid amount m)
  unfolding charged use_gas
  charged_enough env op amount m e = rw (e, charged)

  charged-paid :
      (P : Machine T → Type 0) (env : Env) (op : Op) (amount : ℤ) (m : Machine T)
      → (ltb_ℤ m.gas amount ≡ false → Runs P (exec tries env op (paid amount m)))
      → Runs P (charged tries env op amount m)
  charged-paid P env op amount m h = elim (Bool-cases (ltb_ℤ m.gas amount)) [
    | inl e ↦ rw (charged_short env op amount m e) tt
    | inr e ↦ rw (charged_enough env op amount m e) (h e)
  ]

  charged-Falls :
      (env : Env) (op : Op) (amount : ℤ) (m : Machine T)
      → pos 0 ≤ℤ m.gas
      → pos 1 ≤ℤ amount
      → Runs (Falls m) (charged tries env op amount m)
  charged-Falls env op amount m have cost = charged-paid (Falls m) env op amount m λ enough.
      Runs-mono (Grew (m.gas -ℤ amount) (length m.stack + 1)) (Falls m)
        (exec tries env op (paid amount m)) (exec_grows env op (paid amount m))
        (λ m' g. ground (arith, -ℤ_parts m.gas amount))

  charged_sstore-Falls :
      (env : Env) (amount : ℤ) (m : Machine T)
      → pos 0 ≤ℤ m.gas
      → pos 0 ≤ℤ amount
      → Runs (Falls m) (charged tries env Op.sstore amount m)
  charged_sstore-Falls env amount m have cost =
      charged-paid (Falls m) env Op.sstore amount m λ enough.
        Runs-mono (λ m'. (m'.gas ≡ m.gas -ℤ amount) × (length m'.stack + 2 ≡ length m.stack))
          (Falls m) (exec tries env Op.sstore (paid amount m)) (exec_sstore env (paid amount m))
          (λ m' g. ground (arith, -ℤ_parts m.gas amount))

  charged_create :
      (env : Env) (amount : ℤ) (m : Machine T)
      → Runs (Falls m) (charged tries env Op.create amount m)
  charged_create env amount m = charged-paid (Falls m) env Op.create amount m λ enough.
      Runs-mono (λ m'. ⊥) (Falls m) (exec tries env Op.create (paid amount m))
        (exec_create env (paid amount m)) (λ m' g. absurd g)

  sstore_mult_nonneg : (fresh zero' : Bool) → pos 0 ≤ℤ sstore_mult fresh zero' *ℤ gas_sstore
  unfolding sstore_mult ◌*ℤ◌
  sstore_mult_nonneg fresh zero' = ground arith

  ok_nonneg : (a b : ℤ) → ok a ≡ ok b → pos 0 ≤ℤ a → pos 0 ≤ℤ b
  ok_nonneg a b e h = ground arith

  sstore_cost :
      (env : Env) (m : Machine T) (amount : ℤ)
      → step_gas tries env Op.sstore m ≡ ok amount
      → pos 0 ≤ℤ amount
  unfolding step_gas
  sstore_cost env m amount e =
      let (p, e₁, f) = >>=-Yields (or_panic (Stack.peekn env.stale m.stack)) _ e in
      let (val, e₂, g) = >>=-Yields (get_storage tries p.1 m.storage) _ f in
      let (fresh, e₃, h) = >>=-Yields (is_empty val) _ g in
      ok_nonneg _ amount h (sstore_mult_nonneg fresh (length (big_bytes p.0) == 0))

  -- A round costs at least 1, but for SSTORE, which may be free, and CREATE.
  step_gas_cost :
      (env : Env) (op : Op) (m : Machine T) (amount : ℤ)
      → step_gas tries env op m ≡ ok amount
      → (pos 1 ≤ℤ amount) ⊎ ((op ≡ Op.sstore) × (pos 0 ≤ℤ amount)) ⊎ (op ≡ Op.create)
  step_gas_cost env Op.sstore m amount e = inr (inl (refl, sstore_cost env m amount e))
  step_gas_cost env Op.create m amount e = inr (inr refl)
  step_gas_cost env op m amount e = inl (unfold step_gas in ground arith)

  Falls-cases :
      (env : Env) (op : Op) (amount : ℤ) (m : Machine T)
      → pos 0 ≤ℤ m.gas
      → (pos 1 ≤ℤ amount) ⊎ ((op ≡ Op.sstore) × (pos 0 ≤ℤ amount)) ⊎ (op ≡ Op.create)
      → Runs (Falls m) (charged tries env op amount m)
  Falls-cases env op amount m have (inl cost) = charged-Falls env op amount m have cost
  Falls-cases env op amount m have (inr (inl (e, cost))) =
      rw e (charged_sstore-Falls env amount m have cost)
  Falls-cases env op amount m have (inr (inr e)) = rw e (charged_create env amount m)

  Runs-or_fail :
      {A : Type 0} (P : Machine T → Type 0) (m : Machine T) (r : Result A) (k : A → Outcome T)
      → ((a : A) → r ≡ ok a → Runs P (k a))
      → Runs P (or_fail m r k)
  Runs-or_fail P m (ok a) k h = h a refl
  Runs-or_fail P m panic k h = tt
  Runs-or_fail P m out_of_fuel k h = tt

  -- A round of the loop that starts with gas of 0 or more and goes on keeps the gas at 0 or more, and lowers twice the gas plus the
  -- height of the stack.
  pub step_falls :
      (env : Env) (m : Machine T)
      → pos 0 ≤ℤ m.gas
      → Runs (λ m'. (pos 0 ≤ℤ m'.gas) × (measure m' < measure m)) (step tries env m)
  unfolding step
  step_falls env m have = Runs-or_fail (Falls m) m (fetch env m.pc) _ λ code e.
      Runs-or_fail (Falls m) m (step_gas tries env (op_code code) m) _ λ amount cost.
        Falls-cases env (op_code code) amount m have
          (step_gas_cost env (op_code code) m amount cost)

  go_on_ends :
      (rest : Machine T → Result (Outcome T)) (P : Machine T → Type 0) (o : Outcome T)
      → Runs P o
      → ((m' : Machine T) → P m' → rest m' ≢ out_of_fuel)
      → go_on rest o ≢ out_of_fuel
  unfolding go_on
  go_on_ends rest P (running m) h k = k m h
  go_on_ends rest P (returned t m) h k = λ e. cc
  go_on_ends rest P (failed f m) h k = λ e. cc
  go_on_ends rest P (request r m) h k = λ e. cc

  -- Where the gas is not negative, the loop comes to its end or to its next CREATE, CALL or SUICIDE
  -- request, at which `run` stops, within as many rounds as twice the gas, the height of the stack and
  -- one.
  pub run_ends :
      (fuel : ℕ) (env : Env) (m : Machine T)
      → pos 0 ≤ℤ m.gas
      → measure m < fuel
      → run tries fuel env m ≢ out_of_fuel
  unfolding run
  run_ends zero env m have h = absurd (omega arith)
  run_ends (suc fuel) env m have h =
      go_on_ends (run tries fuel env) (Falls m) (step tries env m) (step_falls env m have)
        (λ m' f. run_ends fuel env m' f.0 (omega (arith, f.1)))
