-- ===== src/StateManager/Apply/Nonces.antt =====
-- Transactions with a wrong nonce in `ApplyTransactions` (ethchain/state_manager.go).
use goeth_self_training.Prelude.{ℕ, ◌≡◌, refl, true, some, List, ◌∷◌}
use goeth_self_training.Prelude.Int.{ℤ, ◌+ℤ◌}
use goeth_self_training.Prelude.Result.{ok, Holds-intro, Holds-bind, Holds-ok}
use goeth_self_training.Trie.{Trie}
use goeth_self_training.Transaction.{Transaction, Receipt, is_contract}
use goeth_self_training.State.Nested.{root_item}
use goeth_self_training.Blocks.{Block}
use goeth_self_training.Chain.Store.{BlockChain}
use goeth_self_training.TxPool.Process.{nonce_err, process_transaction}
use goeth_self_training.Vm.Calls.{Scene}
use goeth_self_training.StateManager.Apply.{
  Given, Applied, Batch, is_nonce_err, root_hash, apply_transaction, apply_transactions,
  creation_error,
}

module _ (tries : Trie) (given : Given) (fuel : ℕ) (bc : BlockChain) (b : Block) where
  -- The first transaction counts as valid, and its receipt has the total with the gas of the pool.
  abbrev pub Counted : ℤ → Transaction → ℤ → Batch tries → Type 0
  Counted total tx gas batch =
      (txs : List Transaction) × (r : Receipt) × (rs : List Receipt) × (batch.valid ≡ tx ∷ txs)
      × (batch.receipts ≡ r ∷ rs)
      × (r.tx ≡ tx)
      × (r.cumulative_gas_used ≡ total +ℤ gas)

  -- A contract creation that ProcessTransaction turns down for its nonce is not passed over: where
  -- ApplyTransactions returns, the transaction counts as valid and has a receipt.
  pub wrong_nonce_counts_creation :
      (total : ℤ) (tx : Transaction) (txs : List Transaction) (s : Scene tries)
      (batch : Batch tries) (is exp : ℕ)
      → (process_transaction tries given.sha3 given.recover tx s.world).error
        ≡ some (nonce_err is exp)
      → is_contract tx ≡ true
      → apply_transactions tries given fuel bc b total (tx ∷ txs) s ≡ ok batch
      → Counted total tx ((process_transaction tries given.sha3 given.recover tx s.world).gas) batch
  unfolding apply_transactions apply_transaction is_nonce_err
  wrong_nonce_counts_creation total tx txs s batch is exp refused creates e =
      let p = process_transaction tries given.sha3 given.recover tx s.world in
      let a : Applied tries = record {
        gas = p.gas;
        error = some (creation_error (nonce_err is exp));
        scene = record s { world = p.world };
      } in
      let ran : apply_transaction tries given fuel bc b tx s ≡ ok a = rw (creates, refused) refl in
      Holds-ok (Counted total tx p.gas) _
        (rw ran (
          Holds-bind (Counted total tx p.gas) (root_hash (root_item tries p.world)) _ λ root.
            Holds-bind (Counted total tx p.gas)
              (apply_transactions tries given fuel bc b (total +ℤ p.gas) txs a.scene) _
              λ rest.
                Holds-intro (Counted total tx p.gas) _
                  (rest.valid, _, rest.receipts, refl, refl, refl, refl)))
        e
