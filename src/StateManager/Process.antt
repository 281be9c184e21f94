-- ===== src/StateManager/Process.antt =====
-- `Process`, `ProcessBlock` and `notifyChanges` of ethchain/state_manager.go. A `Manager` is what the
-- manager works on: the chain, the database as the states see it, the pool, what was posted to the
-- reactor and the blocks that were broadcast, oldest first. The lock and the log are left out, and
-- a chain with no current block is a panic where a block is validated. Go goes through the changes
-- of a manifest in any order; here the newest comes first.
pub mod Accepts
use goeth_self_training.Prelude.{
  ℕ, ◌&&◌, Bool, true, false, not, Option, some, none, List, [], ◌∷◌, ◌++◌, map, list_eq,
  if◌then◌else◌,
}
use goeth_self_training.Prelude.Int.{ℤ, pos}
use goeth_self_training.Prelude.Result.{Result, ok, panic, out_of_fuel, ◌>>=◌, or_panic}
use goeth_self_training.Item.{Item}
use goeth_self_training.Value.{new_value}
use goeth_self_training.Trie.{Trie}
use goeth_self_training.Trie.Ops.{deep_equal}
use goeth_self_training.State.{StateObject, World}
use goeth_self_training.State.Nested.{new_state, root_item, reset_state, sync_state}
use goeth_self_training.Transaction.{Transaction}
use goeth_self_training.TxPool.Queue.{Pool, remove_invalid}
use goeth_self_training.Vm.Calls.{Scene}
use goeth_self_training.Blocks.{Header, Block, block_hash, block_value}
use goeth_self_training.Chain.Store
use goeth_self_training.Chain.Store.{BlockChain, has_block, get_block}
use goeth_self_training.StateManager.{BlockError, validate_block, calculate_td, accumelate_rewards}
use goeth_self_training.StateManager.Apply.{Given, Batch, apply_transactions}

-- The posts to the reactor: "object:" and "storage:" with their keys, and "newBlock".
pub data Event : Type 0 where
  object_changed : List ℕ → StateObject → Event
  storage_changed : List ℕ → List ℕ → ℤ → Event
  block_added : Block → Event

pub record Manager : Type 0 where
  pub chain : BlockChain
  pub db : List ℕ → List ℕ
  pub pool : Pool
  pub posted : List Event
  pub broadcast : List Item

pub data ProcessError : Type 0 where
  parent_unknown invalid_root : ProcessError
  validation : BlockError → ProcessError

-- What is left of a list of changes when each of its keys keeps the first one.
unfoldable pub without {ℓ} : {A : Type ℓ} → (A → Bool) → List A → List A
without same [] = []
without same (a ∷ more) = let rest = without same more in if same a then rest else a ∷ rest

unfoldable pub first_of_each {ℓ} : {A : Type ℓ} → (A → A → Bool) → List A → List A
unfolding without
first_of_each same [] = []
first_of_each same (a ∷ more) = a ∷ without (same a) (first_of_each same more)

-- The `Block` that `GetBlock` finds, by its header, as `ValidateBlock` reads it.
abbrev pub known_head : Option Block → Option Header
known_head none = none
known_head (some b) = some b.head

-- `ValidateBlock` on the chain.
unfoldable pub validate_on :
    Given → (List ℕ → List ℕ) → BlockChain → Block → Result (Option BlockError)
unfolding get_block validate_block
validate_on given keccak bc b = do
  parent ← get_block b.head.prev_hash bc
  current ← or_panic bc.current
  validate_block keccak given.sha3 (λ id. known_head parent) current.head b

module _ (tries : Trie) where
  -- `notifyChanges`
  unfoldable pub notify_changes : Scene tries → List Event
  unfolding first_of_each
  notify_changes s =
      map (λ (addr, object). object_changed addr object)
        (first_of_each (λ (a, c) (a', c'). list_eq a a') s.world.changed)
      ++ map (λ (addr, loc, val). storage_changed addr loc val)
          (first_of_each (λ (a, l, v) (a', l', v'). list_eq a a' && list_eq l l') s.stored)

  -- The error that `ProcessBlock` returns, none for nil, with the node and the state behind it.
  pub record Verdict : Type 0 where
    pub error : Option ProcessError
    pub node : Manager
    pub state : World tries

  module _ (given : Given) (keccak : List ℕ → List ℕ) (fuel : ℕ) (dont_react : Bool) where
    -- A return of `ProcessBlock` with its deferred `Reset`: the database keeps the scripts.
    unfoldable pub return_with : Option ProcessError → World tries → Manager → Result Verdict
    unfolding reset_state
    return_with error w node = do
      w' ← reset_state tries w
      ok (record { error = error; node = record node { db = w'.db }; state = w' })

    -- The manifest is reset_state unless the caller asked for no reaction.
    abbrev pub kept_changes : World tries → World tries
    kept_changes w = if dont_react then w else record w { changed = [] }

    -- The node with the block on its chain, from the new total, the state and the pool on.
    unfoldable pub extended :
        BlockChain → Block → Scene tries → List Transaction → Manager → Manager
    unfolding Store.add notify_changes block_value
    extended bc b s txs node = record node {
      chain = Store.add given.sha3 b bc;
      pool = record (node.pool) { pool = txs };
      posted = node.posted ++ (notify_changes s ++ (if dont_react then [] else block_added b ∷ []));
      broadcast = node.broadcast ++ block_value b ∷ [];
    }

    -- A block whose total difficulty was accepted; `bc` has the new total.
    unfoldable pub commit_block : BlockChain → Block → Scene tries → Manager → Result Verdict
    unfolding sync_state new_state remove_invalid return_with extended
    commit_block bc b s node = do
      w ← sync_state tries s.world
      let current = new_state tries (tries.at_root w.db b.head.root) w.db
      txs ← remove_invalid tries given.sha3 given.recover (kept_changes w) current node.pool.pool
      return_with none (kept_changes w) (extended bc b (record s { world = w }) txs node)

    -- From the rewards on, for a block that is valid.
    unfoldable pub settle_block : Block → Scene tries → Manager → Result Verdict
    unfolding accumelate_rewards deep_equal new_value root_item calculate_td commit_block
        return_with
    settle_block b s node = do
      w ← accumelate_rewards tries given.sha3 b s.world
      if deep_equal (new_value b.head.root) (new_value (root_item tries w))
          then (do
            (more, bc) ← calculate_td node.chain b
            if more
                then commit_block bc b (record s { world = w }) node
                else return_with none w node)
          else return_with (some invalid_root) w node

    -- From the transactions on.
    unfoldable pub process_known : Block → Block → Scene tries → Manager → Result Verdict
    unfolding apply_transactions validate_on settle_block return_with
    process_known parent b s node = do
      batch ← apply_transactions tries given fuel node.chain parent (pos 0) b.transactions s
      wrong ← validate_on given keccak node.chain b
      elim wrong [
        | some e ↦ return_with (some (validation e)) batch.scene.world node
        | none ↦ settle_block b batch.scene node
      ]

    abbrev pub present : Option Block → Bool
    present none = false
    present (some b) = true

    -- `ProcessBlock`, for a state with what its manifest was told.
    unfoldable pub process_block : Scene tries → Block → Block → Manager → Result Verdict
    unfolding block_hash has_block process_known return_with
    process_block s parent b node =
        if has_block (block_hash given.sha3 b) node.chain
        then ok (record { error = none; node = node; state = s.world })
        else if not (has_block b.head.prev_hash node.chain) && present node.chain.current
        then return_with (some parent_unknown) s.world node
        else process_known parent b s node

    -- `Process`: on the state of the parent.
    unfoldable pub process : Block → Manager → Result (Option ProcessError × Manager)
    unfolding has_block get_block new_state process_block
    process b node =
        if has_block b.head.prev_hash node.chain
        then (do
          found ← get_block b.head.prev_hash node.chain
          parent ← or_panic found
          let w = new_state tries (tries.at_root node.db parent.head.root) node.db
          r ← process_block (record { world = w; stored = [] }) parent b node
          ok (r.error, r.node))
        else ok (some parent_unknown, node)
