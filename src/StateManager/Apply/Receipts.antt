-- ===== src/StateManager/Apply/Receipts.antt =====
-- The receipts of `ApplyTransactions` (ethchain/state_manager.go).
use goeth_self_training.Prelude.{ℕ, ◌≡◌, refl, sym, ◌∙◌, true, Option, some, none, List, [], ◌∷◌}
use mathlib.Core.Bool.{true≢false}
use goeth_self_training.Prelude.Int.{ℤ, ◌+ℤ◌}
use goeth_self_training.Prelude.Result.{
  ok, Holds, Holds-intro, Holds-here, Holds-then, Holds-ok, Holds-map, Holds-cases,
}
use goeth_self_training.Trie.{Trie}
use goeth_self_training.Transaction.{Transaction, Receipt}
use goeth_self_training.State.Nested.{root_item}
use goeth_self_training.Blocks.{Block}
use goeth_self_training.Chain.Store.{BlockChain}
use goeth_self_training.TxPool.Process.{nonce_err}
use goeth_self_training.Vm.Calls.{Scene}
use goeth_self_training.StateManager.Apply.{
  Given, Applied, ApplyError, tx_error, Batch, is_nonce_err, skipped, root_hash, apply_transaction,
  apply_transactions,
}

-- The error is the pool's own one for a nonce.
pub data IsNonceError : Option ApplyError → Type 0 where
  wrong_nonce : (is exp : ℕ) → IsNonceError (some (tx_error (nonce_err is exp)))

module _ (tries : Trie) (given : Given) (fuel : ℕ) (bc : BlockChain) (b : Block) where
  skipped-IsNonceError :
      (o : Option ApplyError) → skipped tries given fuel bc b o ≡ true → IsNonceError o
  unfolding is_nonce_err
  skipped-IsNonceError (some (tx_error (nonce_err is exp))) e = wrong_nonce is exp
  skipped-IsNonceError none e = absurd (true≢false (sym e))
  skipped-IsNonceError (some _) e = absurd (true≢false (sym e))

  IsNonceError-skipped :
      (o : Option ApplyError) → IsNonceError o → skipped tries given fuel bc b o ≡ true
  unfolding is_nonce_err
  IsNonceError-skipped _ (wrong_nonce is exp) = refl

  -- From a total of the gas and a scene, the transactions come to those that count, their receipts
  -- and the scene at the end. Each is applied in the scene that the one before it has left. One that
  -- fails for its nonce does not count; for any other there is a receipt, with the root of the state
  -- behind it and the total so far with the gas that was returned.
  pub data Charged
      : ℤ
        → Scene tries
        → List Transaction
        → List Transaction
        → List Receipt
        → Scene tries
        → Type 0 where
    finished : {total : ℤ} {s : Scene tries} → Charged total s [] [] [] s
    passed_over :
        {total : ℤ} {s end : Scene tries} {tx : Transaction} {txs valid : List Transaction}
        {rs : List Receipt} (a : Applied tries)
        → apply_transaction tries given fuel bc b tx s ≡ ok a
        → IsNonceError a.error
        → Charged total a.scene txs valid rs end
        → Charged total s (tx ∷ txs) valid rs end
    charged :
        {total : ℤ} {s end : Scene tries} {tx : Transaction} {txs valid : List Transaction}
        {r : Receipt} {rs : List Receipt} (a : Applied tries)
        → apply_transaction tries given fuel bc b tx s ≡ ok a
        → ¬ IsNonceError a.error
        → r.tx ≡ tx
        → root_hash (root_item tries a.scene.world) ≡ ok r.post_state
        → r.cumulative_gas_used ≡ total +ℤ a.gas
        → Charged r.cumulative_gas_used a.scene txs valid rs end
        → Charged total s (tx ∷ txs) (tx ∷ valid) (r ∷ rs) end

  Accounted : ℤ → Scene tries → List Transaction → Batch tries → Type 0
  Accounted total s txs batch = Charged total s txs batch.valid batch.receipts batch.scene

  apply_transactions-Accounted :
      (total : ℤ) (txs : List Transaction) (s : Scene tries)
      → Holds (Accounted total s txs) (apply_transactions tries given fuel bc b total txs s)
  unfolding apply_transactions Accounted
  apply_transactions-Accounted total [] s = Holds-intro (Accounted total s []) _ finished
  apply_transactions-Accounted total (tx ∷ txs) s =
      let Goal : Batch tries → Type 0 = Accounted total s (tx ∷ txs) in
      Holds-here Goal (apply_transaction tries given fuel bc b tx s) _ λ a e.
        Holds-cases Goal (skipped tries given fuel bc b a.error) _ _
          (λ skip.
            Holds-map (Accounted total a.scene txs) Goal _
              (λ batch c. passed_over a e (skipped-IsNonceError a.error skip) c)
              (apply_transactions-Accounted total txs a.scene))
          λ counted. Holds-here Goal (root_hash (root_item tries a.scene.world)) _ λ root found.
            Holds-then (Accounted (total +ℤ a.gas) a.scene txs) Goal
              (apply_transactions tries given fuel bc b (total +ℤ a.gas) txs a.scene) _
              (apply_transactions-Accounted (total +ℤ a.gas) txs a.scene)
              λ rest c. Holds-intro Goal _ (
                charged a e (λ n. true≢false (sym (IsNonceError-skipped a.error n) ∙ counted)) refl
                  found refl c)

  -- ApplyTransactions that returns has applied the transactions in their order, each in the scene
  -- that the one before it has left. One whose error is the pool's for a wrong nonce does not count
  -- as valid and has no receipt; each other one counts, and has a receipt with the state's root
  -- behind it and the gas of those that count up to it.
  pub apply_transactions_receipts :
      (txs : List Transaction) (total : ℤ) (s : Scene tries) (batch : Batch tries)
      → apply_transactions tries given fuel bc b total txs s ≡ ok batch
      → Charged total s txs batch.valid batch.receipts batch.scene
  unfolding Accounted
  apply_transactions_receipts txs total s batch e =
      Holds-ok (Accounted total s txs) _ (apply_transactions-Accounted total txs s) e
