-- ===== src/Tests/Processing.antt =====
-- Blocks and transactions that are applied (ethchain/state_manager.go) at concrete inputs.
use goeth_self_training.Prelude.{
  ℕ, ◌+◌, ◌≡◌, ◌⊎◌, refl, inl, inr, some, none, true, false, Option, List, [], ◌∷◌, list_eq,
  replicate, length,
}
use goeth_self_training.Prelude.Int.{ℤ, pos, ◌+ℤ◌, ◌-ℤ◌}
use goeth_self_training.Prelude.Result.{Result, ok}
use goeth_self_training.Item.{bytes}
use goeth_self_training.Trie.{Trie, by_function}
use goeth_self_training.State.{World}
use goeth_self_training.State.Nested.{new_state}
use goeth_self_training.Chain.Store.{BlockChain}
use goeth_self_training.Blocks.{Block, block_encode}
use goeth_self_training.StateManager.Apply.{Given, Batch, apply_transactions}
use goeth_self_training.StateManager.Apply.Receipts.{Charged, apply_transactions_receipts}
use goeth_self_training.StateManager.Apply.Nonces.{Counted, wrong_nonce_counts_creation}
use goeth_self_training.TxPool.Process.{process_transaction, nonce_err}
use goeth_self_training.Transaction.{
  Transaction, is_contract, new_transaction_message, new_contract_creation_tx,
}
use goeth_self_training.StateManager.Process.{Manager, Verdict, process_block}
use goeth_self_training.StateManager.Process.Accepts.{
  Untouched, Added, process_block_all_or_nothing,
}
use goeth_self_training.Vm.Calls.{Scene}
use goeth_self_training.Tests.Blocks.{block}
use goeth_self_training.Tests.Accounts.{sevens, one_key, alices, bob, payment}
use goeth_self_training.Tests.Manager.{zeros}

-- Tries whose root is always the one that the test blocks name.
abbrev pub rooted : Trie
rooted = record by_function { root = λ t. bytes (7 ∷ 9 ∷ []) }

abbrev pub given : Given
given = record {
  sha3 = sevens;
  recover = one_key;
  spare = λ s. [];
  grow = λ old new. new;
  stale = λ st. none;
  inverse = λ x. none;
}

abbrev pub plain_block : Block
plain_block = record block { uncles = []; transactions = []; receipts = [] }

-- A chain of one block, which is stored under the hash 7 9.
abbrev pub chain : BlockChain
chain = record {
  genesis = plain_block;
  td = pos 100;
  last_number = 1;
  current = some plain_block;
  last_hash = 7 ∷ 9 ∷ [];
  db = (7 ∷ 9 ∷ [], some (block_encode plain_block)) ∷ [];
}

abbrev pub node : Manager
node = record {
  chain = chain;
  db = λ k. [];
  pool = record { pool = []; sent = [] };
  posted = [];
  broadcast = [];
}

abbrev scene : Scene rooted
scene = record { world = new_state rooted (λ k. []) (λ k. []); stored = [] }

abbrev result : Result (Verdict rooted)
result = process_block rooted given zeros 100 false scene plain_block plain_block node

abbrev verdict_of : Result (Verdict rooted) → Verdict rooted
verdict_of (ok v) = v
verdict_of r = record { error = none; node = node; state = scene.world }

abbrev verdict : Verdict rooted
verdict = verdict_of result

result_eq : result ≡ ok verdict
unfolding process_block goeth_self_training.Rlp.encode goeth_self_training.Rlp.slice_header
    goeth_self_training.Rlp.encode_bytes goeth_self_training.Rlp.encode_big
    goeth_self_training.Value.new_value_from_bytes goeth_self_training.Rlp.decode_from
    goeth_self_training.Value.get ◌-ℤ◌ ◌+ℤ◌
result_eq = refl

-- The block is on the chain, and the reactor was told of its coinbase and of the block.
verdict_added : (verdict.node.chain.last_hash ≡ sevens []) × (length verdict.node.posted ≡ 2)
unfolding process_block goeth_self_training.Rlp.encode goeth_self_training.Rlp.slice_header
    goeth_self_training.Rlp.encode_bytes goeth_self_training.Rlp.encode_big
    goeth_self_training.Value.new_value_from_bytes goeth_self_training.Rlp.decode_from
    goeth_self_training.Value.get ◌-ℤ◌ ◌+ℤ◌
verdict_added = (refl, refl)

process_block_all_or_nothing_example :
    Untouched node verdict.node
    ⊎ ((verdict.error ≡ none) × Added given zeros plain_block node verdict.node)
process_block_all_or_nothing_example =
    process_block_all_or_nothing rooted given zeros 100 false scene plain_block plain_block node
      verdict result_eq

-- The state where alice has 1000 and the nonce 3.
abbrev alices_scene : Scene rooted
alices_scene = record { world = new_state rooted alices.trie alices.db; stored = [] }

abbrev batch_of : Result (Batch rooted) → Batch rooted
batch_of (ok b) = b
batch_of r = record { receipts = []; valid = []; scene = scene }

-- A payment with the nonce 5, which is passed over, and one with the nonce 3.
abbrev payments : List Transaction
payments = payment bob 5 ∷ payment bob 3 ∷ []

abbrev paid : Result (Batch rooted)
paid = apply_transactions rooted given 100 chain plain_block (pos 0) payments alices_scene

paid_eq : paid ≡ ok (batch_of paid)
unfolding apply_transactions new_state new_transaction_message goeth_self_training.Rlp.encode
    goeth_self_training.Rlp.slice_header goeth_self_training.Rlp.encode_big
    goeth_self_training.Value.new_value_from_bytes goeth_self_training.Rlp.decode_from
    goeth_self_training.Value.to_big goeth_self_training.Value.get ◌+ℤ◌
    goeth_self_training.Prelude.Int.◌*ℤ◌
paid_eq = refl

paid_valid : (batch_of paid).valid ≡ payment bob 3 ∷ []
unfolding apply_transactions new_state new_transaction_message goeth_self_training.Rlp.encode
    goeth_self_training.Rlp.slice_header goeth_self_training.Rlp.encode_big
    goeth_self_training.Value.new_value_from_bytes goeth_self_training.Rlp.decode_from
    goeth_self_training.Value.to_big goeth_self_training.Value.get ◌+ℤ◌
    goeth_self_training.Prelude.Int.◌*ℤ◌
paid_valid = refl

apply_transactions_receipts_example :
    Charged rooted given 100 chain plain_block
      (pos 0)
      alices_scene
      payments
      (batch_of paid).valid
      (batch_of paid).receipts
      (batch_of paid).scene
apply_transactions_receipts_example =
    apply_transactions_receipts rooted given 100 chain plain_block payments (pos 0) alices_scene
      (batch_of paid) paid_eq

-- A contract creation with the nonce 5.
abbrev creation : Transaction
creation = record (new_contract_creation_tx (pos 100) (pos 2) (pos 10) []) { nonce = 5 }

abbrev created : Result (Batch rooted)
created = apply_transactions rooted given 100 chain plain_block (pos 0) (creation ∷ []) alices_scene

created_eq : created ≡ ok (batch_of created)
unfolding apply_transactions new_state new_contract_creation_tx goeth_self_training.Rlp.encode
    goeth_self_training.Rlp.slice_header goeth_self_training.Rlp.encode_big
    goeth_self_training.Value.new_value_from_bytes goeth_self_training.Rlp.decode_from
    goeth_self_training.Value.to_big goeth_self_training.Value.get
created_eq = refl

created_refused :
    (process_transaction rooted sevens one_key creation alices_scene.world).error
    ≡ some (nonce_err 5 3)
unfolding process_transaction new_state new_contract_creation_tx goeth_self_training.Rlp.encode
    goeth_self_training.Rlp.slice_header goeth_self_training.Rlp.encode_big
    goeth_self_training.Value.new_value_from_bytes goeth_self_training.Rlp.decode_from
    goeth_self_training.Value.to_big goeth_self_training.Value.get
    goeth_self_training.Transaction.sender goeth_self_training.State.get_account
    goeth_self_training.State.object_item goeth_self_training.Bytes.big_bytes
created_refused = refl

creates : is_contract creation ≡ true
unfolding is_contract new_contract_creation_tx
creates = refl

wrong_nonce_counts_creation_example :
    Counted rooted given 100 chain plain_block
      (pos 0)
      creation
      ((process_transaction rooted sevens one_key creation alices_scene.world).gas)
      (batch_of created)
wrong_nonce_counts_creation_example =
    wrong_nonce_counts_creation rooted given 100 chain plain_block (pos 0) creation [] alices_scene
      (batch_of created) 5 3 created_refused creates created_eq
