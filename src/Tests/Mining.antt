-- ===== src/Tests/Mining.antt =====
-- The miner (ethminer/miner.go) and the genesis block (ethchain/genesis.go) at concrete inputs.
use goeth_self_training.Prelude.{ℕ, ◌≡◌, refl, some, none, Option, List, [], ◌∷◌, length}
use goeth_self_training.Prelude.Int.{pos, ◌+ℤ◌, ◌-ℤ◌, ◌*ℤ◌}
use goeth_self_training.Prelude.Result.{Result, ok, ◌>>=◌, or_panic}
use goeth_self_training.Rlp.{encode}
use goeth_self_training.Blocks.{block_decode}
use goeth_self_training.Chain.Store.Genesis.{genesis}
use goeth_self_training.Miner.{Miner, mine_new_block}
use goeth_self_training.Miner.Mines.{Mined, mine_new_block-Mined}
use goeth_self_training.StateManager.Process.{Manager}
use goeth_self_training.Tests.Manager.{zeros}
use goeth_self_training.Tests.Accounts.{sevens}
use goeth_self_training.Tests.Processing.{rooted, given, node}

abbrev miner : Miner
miner = record { coinbase = 8 ∷ []; txs = []; uncles = []; block = none }

abbrev mine : List (Option ℕ) → Result (Miner × Manager)
mine picks =
    mine_new_block rooted given zeros 100 (λ txs. txs) (λ s. []) (pos 1400000010) picks miner node

abbrev state_of : Result (Miner × Manager) → Miner × Manager
state_of (ok r) = r
state_of r = (miner, node)

abbrev mined_state : Miner × Manager
mined_state = state_of (mine (some 5 ∷ []))

mined_eq : mine (some 5 ∷ []) ≡ ok mined_state
unfolding mine_new_block ◌+ℤ◌ ◌*ℤ◌ goeth_self_training.Rlp.slice_header
    goeth_self_training.Rlp.encode_bytes goeth_self_training.Rlp.encode_big
    goeth_self_training.Value.new_value_from_bytes goeth_self_training.Rlp.decode_from ◌-ℤ◌
mined_eq = refl

-- The block is on the chain and was broadcast twice.
mined_twice : (mined_state.1.chain.last_hash ≡ sevens []) × (length mined_state.1.broadcast ≡ 2)
unfolding mine_new_block ◌+ℤ◌ ◌*ℤ◌ goeth_self_training.Rlp.slice_header
    goeth_self_training.Rlp.encode_bytes goeth_self_training.Rlp.encode_big
    goeth_self_training.Value.new_value_from_bytes goeth_self_training.Rlp.decode_from ◌-ℤ◌
mined_twice = (refl, refl)

mine_new_block-Mined_example : Mined given zeros node (mined_state.1)
mine_new_block-Mined_example =
    mine_new_block-Mined given zeros rooted 100 (λ txs. txs) (λ s. []) (pos 1400000010)
      (some 5 ∷ []) miner (mined_state.0) node (mined_state.1) mined_eq

-- An event of the reactor ends the search.
interrupted : (state_of (mine (none ∷ []))).1.broadcast ≡ []
unfolding mine_new_block ◌+ℤ◌ ◌*ℤ◌ goeth_self_training.Rlp.slice_header
    goeth_self_training.Rlp.encode_bytes goeth_self_training.Rlp.encode_big
    goeth_self_training.Value.new_value_from_bytes goeth_self_training.Rlp.decode_from ◌-ℤ◌
interrupted = refl

-- The genesis block that is read back has the number 0.
genesis_read : (block_decode (encode (genesis sevens)) >>= λ b. or_panic b.head.number) ≡ ok (pos 0)
unfolding genesis block_decode encode goeth_self_training.Value.new_value_from_bytes
    goeth_self_training.Rlp.slice_header goeth_self_training.Rlp.encode_bytes
    goeth_self_training.Rlp.encode_big goeth_self_training.Rlp.decode_from
    goeth_self_training.Bytes.read_varint goeth_self_training.Value.get
genesis_read = refl
