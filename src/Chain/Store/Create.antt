-- ===== src/Chain/Store/Create.antt =====
-- `NewBlock` of ethchain/block_chain.go over the stored chain, at the time `now`.
use goeth_self_training.Prelude.{ℕ, ◌^◌, some, none, List, [], replicate}
use goeth_self_training.Prelude.Int.{ℤ, pos, ◌+ℤ◌}
use goeth_self_training.Prelude.Result.{Result, ok, ◌>>=◌, or_panic}
use goeth_self_training.Item.{nil, list, no_items}
use goeth_self_training.Rlp.{encode}
use goeth_self_training.Chain
use goeth_self_training.Chain.{next_difficulty, next_gas_limit}
use goeth_self_training.Blocks.{Block, create_block}
use goeth_self_training.Chain.Store.{BlockChain}

-- What `NewBlock` reads of the current block; a nil number panics.
unfoldable pub limits_of : Block → Result Chain.Block
limits_of b = do
  difficulty ← or_panic b.head.difficulty
  number ← or_panic b.head.number
  gas_limit ← or_panic b.head.gas_limit
  gas_used ← or_panic b.head.gas_used
  ok (record {
    id = [];
    prev_hash = b.head.prev_hash;
    difficulty = difficulty;
    number = number;
    gas_limit = gas_limit;
    gas_used = gas_used;
    time = b.head.time;
    uncles = [];
  })

-- ZeroHash256
abbrev zero_hash : List ℕ
zero_hash = replicate 32 0

module _ (sha3 : List ℕ → List ℕ) where
  -- The block behind the current one, `parent`.
  unfoldable pub make_after : ℤ → List ℕ → Block → BlockChain → Result Block
  unfolding create_block limits_of next_difficulty next_gas_limit encode
  make_after now coinbase parent bc = do
    let empty_sha_list = sha3 (encode (list no_items))
    let created =
        create_block sha3 now empty_sha_list parent.head.root bc.last_hash coinbase
          (some (pos (2 ^ 32))) [] []
    limits ← limits_of parent
    ok (record created {
      head = record created.head {
        difficulty = some (next_difficulty now limits);
        number = some (limits.number +ℤ pos 1);
        gas_limit = some (next_gas_limit limits);
      };
    })

  -- `NewBlock`
  unfoldable pub make_block : ℤ → List ℕ → BlockChain → Result Block
  unfolding create_block make_after encode
  make_block now coinbase bc = elim bc.current [
    | none ↦ ok (
        create_block sha3 now (sha3 (encode (list no_items))) nil zero_hash coinbase
          (some (pos (2 ^ 32))) [] [])
    | some parent ↦ make_after now coinbase parent bc
  ]
