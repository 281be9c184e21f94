-- ===== src/Tests/Stores.antt =====
-- The chain's blocks in the database (ethchain/block_chain.go) at concrete inputs.
use goeth_self_training.Prelude.{
  ℕ, ◌≡◌, refl, some, none, List, [], length, list_eq, if◌then◌else◌, replicate,
}
use goeth_self_training.Prelude.Int.{pos}
use goeth_self_training.Prelude.Result.{ok}
use goeth_self_training.Blocks.{block_hash}
use goeth_self_training.Chain.Store.{BlockChain, add, get_block, return_to, reset_till_block_hash}
use goeth_self_training.Chain.Store.Laws.{get_block-add, get_block-reset_till_block_hash}
use goeth_self_training.Tests.Accounts.{sevens}
use goeth_self_training.Tests.Blocks.{block, block-IsBlock, block-Fits, block_small}

length-sevens : (s : List ℕ) → length (sevens s) ≡ 32
length-sevens s = refl

abbrev chain : BlockChain
chain = record {
  genesis = block;
  td = pos 0;
  last_number = 1;
  current = some block;
  last_hash = [];
  db = [];
}

get_block-add_example : get_block (replicate 32 7) (add sevens block chain) ≡ ok (some block)
unfolding block_hash
get_block-add_example =
    get_block-add sevens length-sevens block chain (replicate 32 7) block-IsBlock block-Fits
      block_small refl

reset_eq : (bc : BlockChain) × (reset_till_block_hash sevens (replicate 32 7) chain ≡ ok bc)
unfolding reset_till_block_hash return_to block_hash
reset_eq = (_, refl)

get_block-reset_till_block_hash_example : get_block (replicate 32 8) reset_eq.0 ≡ (
    if list_eq (block_hash sevens block) (replicate 32 8)
    then ok none
    else get_block (replicate 32 8) chain)
get_block-reset_till_block_hash_example =
    get_block-reset_till_block_hash sevens (replicate 32 7) chain reset_eq.0 block (replicate 32 8)
      refl reset_eq.1
