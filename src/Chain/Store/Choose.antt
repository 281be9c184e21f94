-- ===== src/Chain/Store/Choose.antt =====
-- The choice between the stored chain and one that came in (ethchain/block_chain.go):
-- `FindCanonicalChainFromMsg` and `FindCanonicalChain` with its reset, and `GetChain`. Fuel bounds
-- the length of the stored chain.
pub mod Refines
use goeth_self_training.Prelude.{
  ℕ, zero, suc, ◌-◌, Bool, true, false, Option, some, none, List, [], ◌∷◌, list_eq, if◌then◌else◌,
}
use goeth_self_training.Prelude.Int.{ℤ, pos, ◌+ℤ◌, ltb_ℤ}
use goeth_self_training.Prelude.Result.{Result, ok, out_of_fuel, ◌>>=◌, or_panic}
use goeth_self_training.Item.{Item}
use goeth_self_training.Value.{len}
use goeth_self_training.Blocks.{Block, block_hash, block_value_decode, decode_each}
use goeth_self_training.Chain.Store.{BlockChain, get_block, reset_till_block_hash}
use goeth_self_training.StateManager.{uncle_difficulty}

-- `CalculateBlockTD`: a nil difficulty panics.
unfoldable pub total_difficulty : Block → Result ℤ
unfolding uncle_difficulty
total_difficulty b = do
  uncles ← uncle_difficulty (pos 0) b.uncles
  own ← or_panic b.head.difficulty
  ok (uncles +ℤ own)

module _ (sha3 : List ℕ → List ℕ) where
  -- The difficulty of the blocks that came in, up to the common block.
  unfoldable pub incoming_total : List ℕ → ℤ → List Block → Result ℤ
  unfolding total_difficulty block_hash
  incoming_total common acc [] = ok acc
  incoming_total common acc (b ∷ bs) =
      let rest = total_difficulty b >>= λ td. incoming_total common (acc +ℤ td) bs in
      if list_eq (block_hash sha3 b) common then ok acc else rest

  -- The difficulty of the current chain, down to the common block or to the first block.
  unfoldable pub current_total : ℕ → List ℕ → ℤ → BlockChain → Option Block → Result ℤ
  unfolding total_difficulty block_hash get_block
  current_total zero common acc bc block = out_of_fuel
  current_total (suc fuel) common acc bc none = ok acc
  current_total (suc fuel) common acc bc (some b) =
      let rest : Option Block → Result ℤ = (λ parent. elim parent [
        | none ↦ ok acc
        | some p ↦ total_difficulty b >>= λ td. current_total fuel common (acc +ℤ td) bc (some p)
      ]) in
      if list_eq (block_hash sha3 b) common
      then ok acc
      else (get_block b.head.prev_hash bc >>= rest)

  -- `FindCanonicalChain`: true where the current chain stays, and the chain behind it.
  unfoldable pub choose_chain : ℕ → List Block → List ℕ → BlockChain → Result (Bool × BlockChain)
  unfolding incoming_total current_total reset_till_block_hash
  choose_chain fuel blocks common bc = do
    theirs ← incoming_total common (pos 0) blocks
    ours ← current_total fuel common (pos 0) bc bc.current
    if ltb_ℤ ours theirs
        then (reset_till_block_hash sha3 common bc >>= λ bc'. ok (false, bc'))
        else ok (true, bc)

  -- `FindCanonicalChainFromMsg`: all blocks of the message but the last.
  unfoldable pub choose_from_msg : ℕ → Item → List ℕ → BlockChain → Result (Bool × BlockChain)
  unfolding block_value_decode decode_each choose_chain len
  choose_from_msg fuel content common bc = do
    blocks ← decode_each block_value_decode (len content - 1) 0 content
    choose_chain fuel blocks common bc

  -- The loop of `GetChain`: `amount` more blocks from `block` back, in front of `blocks`.
  unfoldable pub read_chain_loop : ℕ → Option Block → List Block → BlockChain → Result (List Block)
  unfolding get_block block_hash
  read_chain_loop zero block blocks bc = ok blocks
  read_chain_loop (suc amount) none blocks bc = ok blocks
  read_chain_loop (suc amount) (some b) blocks bc =
      let more = (do
        parent ← get_block b.head.prev_hash bc
        read_chain_loop amount parent (b ∷ blocks) bc) in
      if list_eq (block_hash sha3 bc.genesis) (block_hash sha3 b) then ok (b ∷ blocks) else more

  -- `GetChain`
  unfoldable pub read_chain : List ℕ → ℕ → BlockChain → Result (List Block)
  unfolding get_block read_chain_loop
  read_chain hash amount bc = get_block hash bc >>= λ b. read_chain_loop amount b [] bc
