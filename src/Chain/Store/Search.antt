-- ===== src/Chain/Store/Search.antt =====
-- Walks back over the stored blocks (ethchain/block_chain.go): `HasBlockWithPrevHash` and
-- `GetChainFromHash`. `rounded` is a uint64 that went through float64 and back.
use goeth_self_training.Prelude.{
  ℕ, zero, suc, ◌+◌, ◌-◌, ◌^◌, ◌&&◌, Bool, true, false, not, Option, some, none, List, [], ◌∷◌,
  list_eq, leb, ltb, if◌then◌else◌,
}
use goeth_self_training.Prelude.Result.{Result, ok, out_of_fuel, ◌>>=◌, or_panic}
use goeth_self_training.Bytes.{u64}
use goeth_self_training.Item.{Item}
use goeth_self_training.Value.{big_uint64}
use goeth_self_training.Blocks.{Block, BlockInfo, block_hash, block_value}
use goeth_self_training.Chain.Store.{BlockChain, get_block, block_info_by_hash}

-- `HasBlockWithPrevHash` from a block on.
unfoldable pub has_prev_loop : ℕ → List ℕ → BlockChain → Option Block → Result Bool
unfolding get_block
has_prev_loop zero hash bc b = out_of_fuel
has_prev_loop (suc fuel) hash bc none = ok false
has_prev_loop (suc fuel) hash bc (some b) =
    let rest = get_block b.head.prev_hash bc >>= λ parent. has_prev_loop fuel hash bc parent in
    if list_eq hash b.head.prev_hash then ok true else rest

unfoldable pub has_block_with_prev_hash : ℕ → List ℕ → BlockChain → Result Bool
unfolding has_prev_loop
has_block_with_prev_hash fuel hash bc = has_prev_loop fuel hash bc bc.current

-- A block that is read at once: a nil block panics.
unfoldable pub block_at : List ℕ → BlockChain → Result Block
unfolding get_block
block_at hash bc = get_block hash bc >>= λ found. or_panic found

-- The first loop of `GetChainFromHash`, as often as it runs.
unfoldable pub go_back : ℕ → List ℕ → BlockChain → Result (List ℕ)
unfolding block_at
go_back zero current bc = ok current
go_back (suc n) current bc = do b ← block_at current bc; go_back n b.head.prev_hash bc

-- The second loop: `n` rounds are left.
unfoldable pub collect_values : ℕ → List ℕ → ℕ → List ℕ → ℕ → BlockChain → Result (List Item)
unfolding block_at block_value
collect_values zero hash parent current num bc = ok []
collect_values (suc n) hash parent current num bc =
    let rest : Result (List Item) = (do
      b ← block_at current bc
      more ← collect_values n hash parent b.head.prev_hash (u64 (num + 2 ^ 64 - 1)) bc
      ok (block_value b ∷ more)) in
    if not (list_eq current hash) && leb parent num then rest else ok []

-- `GetChainFromHash`
unfoldable pub get_chain_from_hash :
    (List ℕ → List ℕ) → (ℕ → ℕ) → List ℕ → ℕ → BlockChain → Result (List Item)
unfolding block_at go_back collect_values block_hash
get_chain_from_hash sha3 rounded hash max bc = do
  last ← or_panic bc.current
  last_number ← or_panic last.head.number
  parent ← block_at hash bc
  parent_number ← or_panic parent.head.number
  let last' = big_uint64 last_number
  let first = big_uint64 parent_number
  let between = rounded (u64 (last' + 2 ^ 64 - first))
  let count = if ltb (rounded max) between then rounded max else between
  let start = u64 (first + count)
  current ← go_back (last' - start) (block_hash sha3 last) bc
  let num = if ltb start last' then start else last'
  collect_values count hash first current num bc

-- `BlockInfo` of a block, in the chain and in the block itself.
unfoldable pub block_info : (List ℕ → List ℕ) → Block → BlockChain → Result BlockInfo
unfolding block_info_by_hash block_hash
block_info sha3 b bc = block_info_by_hash (block_hash sha3 b) bc
