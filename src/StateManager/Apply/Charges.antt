-- ===== src/StateManager/Apply/Charges.antt =====
-- What the run of a script costs its sender (`EvalScript` of ethchain/state_manager.go).
use goeth_self_training.Prelude.{ℕ, ◌≡◌, ◌∙◌, sym, ap, some, List, [], arith}
use goeth_self_training.Prelude.Int.{ℤ, ◌+ℤ◌, ◌-ℤ◌, ◌*ℤ◌, +ℤ_parts, -ℤ_parts, eq_of_parts}
use goeth_self_training.Prelude.Products.{sum_times}
use goeth_self_training.Prelude.Result.{ok}
use goeth_self_training.Trie.{Trie}
use goeth_self_training.State.{StateObject, convert_gas, return_gas, add_amount, sub_amount}
use goeth_self_training.StateManager.Apply.{refunded}
use goeth_self_training.Vm.Calls.{Frame, Scene, Ended, refunds, call_closure}
use goeth_self_training.Vm.Calls.Gas.{call_closure_conserves}

convert_gas-amount :
    (gas price : ℤ) (c paid : StateObject)
    → convert_gas gas price c ≡ some paid
    → paid.amount ≡ c.amount -ℤ gas *ℤ price
unfolding convert_gas sub_amount
convert_gas-amount gas price c paid e = ground arith

settled : (a g l u p : ℤ) → l +ℤ u ≡ g → (a -ℤ g *ℤ p) +ℤ l *ℤ p ≡ a -ℤ u *ℤ p
settled a g l u p e =
    let split : g *ℤ p ≡ l *ℤ p +ℤ u *ℤ p = ap (λ z. z *ℤ p) (sym e) ∙ sum_times l u p in
    rw split (
      eq_of_parts ((a -ℤ (l *ℤ p +ℤ u *ℤ p)) +ℤ l *ℤ p) (a -ℤ u *ℤ p) (
        omega (
          arith,
          +ℤ_parts (a -ℤ (l *ℤ p +ℤ u *ℤ p)) (l *ℤ p),
          -ℤ_parts a (l *ℤ p +ℤ u *ℤ p),
          +ℤ_parts (l *ℤ p) (u *ℤ p),
          -ℤ_parts a (u *ℤ p),
        )))

module _ (tries : Trie) (sha3 : List ℕ → List ℕ) (spare : List ℕ → List ℕ) where
  -- A run that no closure of a CREATE gave gas back from: the account that ConvertGas charged for
  -- all of the gas has, with the refunds of Call, paid the price of the gas that Call reports as used.
  pub refunded_pays_used :
      (fuel : ℕ) (f : Frame) (gas price : ℤ) (s : Scene tries) (e : Ended tries)
      (account paid : StateObject)
      → convert_gas gas price account ≡ some paid
      → call_closure tries sha3 spare fuel f gas s ≡ ok e
      → e.earlier ≡ []
      → (refunded price (refunds tries e) paid).amount ≡ account.amount -ℤ e.used_gas *ℤ price
  unfolding refunded refunds return_gas add_amount
  refunded_pays_used fuel f gas price s e account paid h run none_earlier =
      rw (none_earlier, convert_gas-amount gas price account paid h)
        (settled account.amount gas e.gas e.used_gas price
          (call_closure_conserves tries sha3 spare fuel f gas s e run))
