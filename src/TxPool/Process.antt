-- ===== src/TxPool/Process.antt =====
-- `ProcessTransaction` of ethchain/transaction_pool.go: the transfer of a transaction's value and
-- the price of its gas. The notification of subscribers and the log are left out.
use goeth_self_training.Prelude.{
  ℕ, ◌+◌, ◌/◌, ◌==◌, Option, some, none, List, list_eq, if◌then◌else◌, length,
}
use goeth_self_training.Prelude.Int.{ℤ, pos, ◌+ℤ◌, ◌*ℤ◌, ltb_ℤ}
use goeth_self_training.Prelude.Result.{Result, ok, panic, out_of_fuel}
use goeth_self_training.Bytes.{u64}
use goeth_self_training.Trie.{Trie}
use goeth_self_training.State.{
  StateObject, World, add_amount, sub_amount, get_account, update_state_object,
}
use goeth_self_training.Transaction.{Transaction, sender}
use goeth_self_training.Vm.Gas.{gas_sstore, gas_tx}

-- `recovered` is a panic that the deferred function turns into an error.
pub data TxError : Type 0 where
  nonce_err : ℕ → ℕ → TxError
  insufficient_amount recovered : TxError

-- What a call returns, and the state that it leaves.
pub record Processed (tries : Trie) : Type 0 where
  pub gas : ℤ
  pub error : Option TxError
  pub world : World tries

-- tx.Value + tx.Gas * tx.GasPrice
abbrev pub total_amount : Transaction → ℤ
total_amount tx = tx.value +ℤ tx.gas *ℤ tx.gas_price

-- The gas of the payload: its length divided by 32, times GasSStore.
abbrev pub payload_gas : Transaction → ℤ
payload_gas tx = pos (length tx.payload / 32) *ℤ gas_sstore

module _ (tries : Trie) where
  abbrev pub or_recover {ℓ} :
      {A : Type ℓ} → ℤ → World tries → Result A → (A → Processed tries) → Processed tries
  or_recover gas w (ok a) k = k a
  or_recover gas w panic k = record { gas = gas; error = some recovered; world = w }
  or_recover gas w out_of_fuel k = record { gas = gas; error = some recovered; world = w }

  module _ (sha3 : List ℕ → List ℕ) where
    -- From `sender.Nonce += 1` on, with both accounts at hand; `from` is tx.Sender().
    unfoldable pub transfer :
        Transaction → List ℕ → StateObject → StateObject → World tries → Processed tries
    unfolding add_amount sub_amount
    transfer tx from sender' receiver w =
        let counted = record sender' { nonce = u64 (sender'.nonce + 1) } in
        if list_eq tx.recipient from
        then (let gas = payload_gas tx +ℤ gas_tx in
            or_recover gas w
              (update_state_object tries sha3 (sub_amount (gas_tx *ℤ tx.gas_price) counted) w)
              λ w₁. record { gas = gas; error = none; world = w₁ })
        else (or_recover (payload_gas tx) w
            (update_state_object tries sha3 (add_amount tx.value receiver) w)
            λ w₁.
              or_recover (payload_gas tx) w₁
                (update_state_object tries sha3 (sub_amount (total_amount tx) counted) w₁)
                λ w₂. record { gas = payload_gas tx; error = none; world = w₂ })

    unfoldable pub process_transaction :
        (List ℕ → List ℕ → List ℕ) → Transaction → World tries → Processed tries
    unfolding transfer
    process_transaction recover tx w = or_recover (pos 0) w (sender sha3 recover tx) λ from.
        or_recover (pos 0) w (get_account tries from w) λ (sender', w₁).
          if sender'.nonce == tx.nonce
          then (if ltb_ℤ sender'.amount (total_amount tx)
              then record { gas = payload_gas tx; error = some insufficient_amount; world = w₁ }
              else (or_recover (payload_gas tx) w₁ (get_account tries tx.recipient w₁)
                  λ (receiver, w₂). transfer tx from sender' receiver w₂))
          else record { gas = pos 0; error = some (nonce_err tx.nonce sender'.nonce); world = w₁ }
