-- ===== src/Chain/Store/Genesis.antt =====
-- The genesis block of ethchain/genesis.go, and `NewBlockChain` of ethchain/block_chain.go, which
-- reads it back from its bytes.
use goeth_self_training.Prelude.{ℕ, ◌^◌, some, none, List, [], replicate}
use goeth_self_training.Prelude.Int.{pos}
use goeth_self_training.Prelude.Result.{Result, ◌>>=◌}
use goeth_self_training.Bytes.{big_bytes}
use goeth_self_training.Item.{Item, nil, big, bytes, str, list, item, no_items}
use goeth_self_training.Rlp.{encode}
use goeth_self_training.Trie.{Trie}
use goeth_self_training.State.{World}
use goeth_self_training.State.Nested.{new_state}
use goeth_self_training.Database.{MemDatabase}
use goeth_self_training.Blocks.{block_decode}
use goeth_self_training.Chain.Store.{BlockChain}
use goeth_self_training.Chain.Store.Start.{set_last_block}

module _ (sha3 : List ℕ → List ℕ) where
  -- `GenesisHeader` and `Genesis`
  unfoldable pub genesis_header : Item
  unfolding encode big_bytes
  genesis_header = list (
      item (bytes (replicate 32 0)) (
        item (bytes (sha3 (encode (list no_items)))) (
          item (bytes (replicate 20 0)) (
            item (str []) (
              item (str []) (
                item (big (some (pos (2 ^ 22)))) (
                  item (big (some (pos 0))) (
                    item (big (some (pos 0))) (
                      item (big (some (pos 1000000))) (
                        item (big (some (pos 0))) (
                          item (big (some (pos 0))) (
                            item nil (item (bytes (sha3 (big_bytes (pos 42)))) no_items)))))))))))))

  unfoldable pub genesis : Item
  unfolding genesis_header
  genesis = list (item genesis_header (item (list no_items) (item (list no_items) no_items)))

  -- `NewBlockChain` over what the database has; the fields are zero before `setLastBlock`.
  unfoldable pub new_block_chain :
      (tries : Trie) → (List ℕ → List ℕ) → MemDatabase → Result (BlockChain × World tries)
  unfolding genesis encode block_decode new_state set_last_block
  new_block_chain tries states db = do
    b ← block_decode (encode genesis)
    set_last_block tries sha3 (new_state tries (tries.at_root states b.head.root) states) (record {
      genesis = b;
      td = pos 0;
      last_number = 0;
      current = none;
      last_hash = [];
      db = db;
    })
