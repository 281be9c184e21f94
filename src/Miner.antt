-- ===== src/Miner.antt =====
-- ethminer/miner.go, with `Search` of ethchain/dagger.go: what a miner keeps, what it does with the
-- events of the reactor, and the mining of a block. The channels and the log are left out, and so is
-- Undo of a block that is made anew before it is used again.
pub mod Mines
use goeth_self_training.Prelude.{
  ℕ, ◌||◌, ◌==◌, length, Bool, true, false, Option, some, none, List, [], ◌∷◌, ◌++◌, map, list_eq,
  if◌then◌else◌,
}
use goeth_self_training.Prelude.Int.{ℤ, pos}
use goeth_self_training.Prelude.Result.{Result, ok, panic, out_of_fuel, ◌>>=◌, or_panic}
use goeth_self_training.Bytes.{big_bytes}
use goeth_self_training.Trie.{Trie}
use goeth_self_training.Transaction
use goeth_self_training.Transaction.{Transaction}
use goeth_self_training.State.Nested.{new_state, root_item}
use goeth_self_training.TxPool.Queue.{Pool, flush, current_transactions}
use goeth_self_training.Blocks.{
  Header, Block, block_hash, block_value, hash_no_nonce, set_uncles, set_receipts,
}
use goeth_self_training.Chain.Store.{BlockChain}
use goeth_self_training.Chain.Store.Create.{make_block}
use goeth_self_training.StateManager.{verify, accumelate_rewards}
use goeth_self_training.StateManager.Apply.{Given, Batch, apply_transactions}
use goeth_self_training.StateManager.Process.{Manager, ProcessError, process}

pub record Miner : Type 0 where
  pub coinbase : List ℕ
  pub txs : List Transaction
  pub uncles : List Block
  pub block : Option Block

module _ (sha3 : List ℕ → List ℕ) where
  -- `NewDefaultMiner` at the time `now`.
  unfoldable pub new_default_miner : ℤ → List ℕ → Manager → Result (Miner × Manager)
  unfolding flush make_block
  new_default_miner now coinbase node = do
    let (txs, pool) = flush node.pool
    block ← make_block sha3 now coinbase node.chain
    ok (
      record { coinbase = coinbase; txs = txs; uncles = []; block = some block },
      record node { pool = pool },
    )

  -- Whether a transaction with the hash is in the list.
  unfoldable pub has_tx : List ℕ → List Transaction → Bool
  unfolding Transaction.hash
  has_tx id [] = false
  has_tx id (tx ∷ txs) = list_eq (Transaction.hash sha3 tx) id || has_tx id txs

  -- The transactions that are not in the other list.
  unfoldable pub not_in : List Transaction → List Transaction → List Transaction
  unfolding has_tx Transaction.hash
  not_in other [] = []
  not_in other (tx ∷ txs) =
      let rest = not_in other txs in
      if has_tx (Transaction.hash sha3 tx) other then rest else tx ∷ rest

  -- The listener's event of a block: the new top, or an uncle of it.
  unfoldable pub on_new_block : Block → BlockChain → Miner → Result Miner
  unfolding block_hash not_in
  on_new_block b bc m = do
    current ← or_panic bc.current
    let uncle =
        if list_eq b.head.prev_hash current.head.prev_hash
        then record m { uncles = m.uncles ++ b ∷ [] }
        else m
    ok (
        if list_eq (block_hash sha3 current) (block_hash sha3 b)
        then record m { txs = not_in b.transactions m.txs }
        else uncle)

  -- Its event of a transaction.
  unfoldable pub on_new_tx : Transaction → Miner → Miner
  unfolding has_tx Transaction.hash
  on_new_tx tx m =
      if has_tx (Transaction.hash sha3 tx) m.txs then m else record m { txs = m.txs ++ tx ∷ [] }

  -- `Search` of EasyPow over what happens in its rounds: an event of the reactor, which is none, or
  -- a random number.
  unfoldable pub search :
      (List ℕ → List ℕ) → List ℕ → Option ℤ → List (Option ℕ) → Result (Option (List ℕ))
  unfolding verify big_bytes
  search keccak id diff [] = out_of_fuel
  search keccak id diff (none ∷ picks) = ok none
  search keccak id diff (some r ∷ picks) =
      let sha = sha3 (big_bytes (pos r)) in
      let more = search keccak id diff picks in
      verify keccak id diff sha >>= λ good. if good then ok (some sha) else more

-- `by_nonce` is sort.Sort of TxByNonce; `beyond` is what lies behind a slice that a trie decodes.
module _ (tries : Trie) (given : Given) (keccak : List ℕ → List ℕ) (fuel : ℕ)
    (by_nonce : List Transaction → List Transaction) (beyond : List ℕ → List ℕ) where
  -- The block up to its nonce, and the transactions that are in it.
  unfoldable pub prepare : ℤ → Miner → Manager → Result (Block × List Transaction)
  unfolding make_block set_uncles new_state apply_transactions set_receipts accumelate_rewards
      root_item
  prepare now m node = do
    fresh ← make_block given.sha3 now m.coinbase node.chain
    let uncles = map (λ b. b.head) m.uncles
    let b = if length m.uncles == 0 then fresh else set_uncles given.sha3 uncles fresh
    let w = new_state tries (tries.at_root node.db b.head.root) node.db
    batch ←
        apply_transactions tries given fuel node.chain b (pos 0) (by_nonce m.txs)
          (record { world = w; stored = [] })
    filled ← set_receipts given.sha3 beyond node.db batch.receipts batch.valid b
    w' ← accumelate_rewards tries given.sha3 filled batch.scene.world
    ok (record filled { head = record filled.head { root = root_item tries w' } }, batch.valid)

  -- What follows `Process` of a block, by its error.
  unfoldable pub announced : Block → Miner → Option ProcessError × Manager → Miner × Manager
  unfolding current_transactions block_value
  announced b m (some wrong, node) = (m, node)
  announced b m (none, node) = (
    record m { txs = current_transactions node.pool },
    record node { broadcast = node.broadcast ++ block_value b ∷ [] },
  )

  -- A block with a nonce that was found.
  unfoldable pub hand_in : Block → Miner → Manager → Result (Miner × Manager)
  unfolding process announced
  hand_in b m node = process tries given keccak fuel false b node >>= λ r. ok (announced b m r)

  -- What follows `Search`: none is an event that came in between.
  unfoldable pub after_search : Block → Miner → Manager → Option (List ℕ) → Result (Miner × Manager)
  unfolding hand_in
  after_search b m node none = ok (m, node)
  after_search b m node (some nonce) =
      let mined = record b { head = record b.head { nonce = nonce } } in
      hand_in mined (record m { block = some mined }) node

  -- `mineNewBlock`
  unfoldable pub mine_new_block : ℤ → List (Option ℕ) → Miner → Manager → Result (Miner × Manager)
  unfolding prepare search hash_no_nonce after_search
  mine_new_block now picks m node = do
    (b, txs) ← prepare now m node
    found ← search given.sha3 keccak (hash_no_nonce given.sha3 b) b.head.difficulty picks
    after_search b (record m { txs = txs; block = some b }) node found
