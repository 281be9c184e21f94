-- ===== src/State/Contract.antt =====
-- `NewContract` and `MakeContract` of ethchain/state_object.go.
use goeth_self_training.Prelude.{
  ℕ, Option, some, none, List, [], ◌∷◌, ◌++◌, if◌then◌else◌, length, replicate,
}
use goeth_self_training.Prelude.Int.{ℤ}
use goeth_self_training.Prelude.Result.{Result, ok, ◌>>=◌}
use goeth_self_training.Item.{str}
use goeth_self_training.Trie.{Trie}
use goeth_self_training.State.{StateObject, World, new_account, update_state_object}
use goeth_self_training.Transaction.{Transaction, is_contract, creation_address}

module _ (tries : Trie) where
  open tries use {at_root}

  -- A contract's nested state is a new trie at the root's bytes.
  unfoldable pub new_contract : List ℕ → ℤ → List ℕ → World tries → StateObject × World tries
  new_contract address amount root w = (
    record (new_account address amount) { state = some (length w.heap) },
    record w { heap = w.heap ++ at_root w.db (str root) ∷ [] },
  )

  module _ (sha3 : List ℕ → List ℕ) (recover : List ℕ → List ℕ → List ℕ) where
    -- none where the transaction makes no contract.
    unfoldable pub make_contract :
        Transaction → World tries → Result (Option StateObject × World tries)
    unfolding new_contract is_contract creation_address update_state_object
    make_contract tx w =
        let made : List ℕ → Result (Option StateObject × World tries) = λ addr.
          let (contract, w') = new_contract addr tx.value (replicate 32 0) w in
          let c : StateObject = record contract { init_script = tx.payload } in
          update_state_object tries sha3 c w' >>= λ w''. ok (some c, w'') in
        if is_contract tx then creation_address sha3 recover tx >>= made else ok (none, w)
