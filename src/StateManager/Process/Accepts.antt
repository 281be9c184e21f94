-- ===== src/StateManager/Process/Accepts.antt =====
-- What `ProcessBlock` (ethchain/state_manager.go) does to the node.
use goeth_self_training.Prelude.{
  ℕ, ◌≡◌, ◌⊎◌, inl, inr, refl, subst, Bool, true, false, Option, some, none, List, [], ◌∷◌, ◌++◌,
  Bool-cases,
}
use goeth_self_training.Prelude.Int.{pos}
use goeth_self_training.Prelude.Result.{
  or_panic, ok, Holds, Holds-intro, Holds-here, Holds-bind, Holds-ok, Holds-cases,
}
use goeth_self_training.Value.{new_value}
use goeth_self_training.Trie.{Trie}
use goeth_self_training.Trie.Ops.{deep_equal}
use goeth_self_training.State.{World}
use goeth_self_training.State.Nested.{new_state, reset_state, sync_state, root_item}
use goeth_self_training.TxPool.Queue.{remove_invalid}
use goeth_self_training.Chain.Store
use goeth_self_training.Chain.Store.{BlockChain, has_block, get_block}
use goeth_self_training.Blocks.{Block, block_hash, block_value}
use goeth_self_training.StateManager.{BlockError, calculate_td, accumelate_rewards}
use goeth_self_training.StateManager.Apply.{Given, apply_transactions}
use goeth_self_training.StateManager.Process.{
  Manager, Verdict, ProcessError, return_with, kept_changes, extended, commit_block, parent_unknown,
  invalid_root, validation, validate_on, settle_block, process_known, process_block, process,
}
use goeth_self_training.Vm.Calls.{Scene}

-- The chain, the pool, the posts and the broadcasts are as they were.
pub record Untouched (before after : Manager) : Type 0 where
  pub chain_eq : after.chain ≡ before.chain
  pub pool_eq : after.pool ≡ before.pool
  pub posted_eq : after.posted ≡ before.posted
  pub broadcast_eq : after.broadcast ≡ before.broadcast

module _ (given : Given) (keccak : List ℕ → List ℕ) where
  -- The block was not known and is valid on the chain, its total difficulty was accepted, and it
  -- was put on the chain and broadcast.
  pub record Added (b : Block) (before after : Manager) : Type 0 where
    pub fresh : has_block (block_hash given.sha3 b) before.chain ≡ false
    pub valid : validate_on given keccak before.chain b ≡ ok none
    pub chain : BlockChain
    pub more : calculate_td before.chain b ≡ ok (true, chain)
    pub chain_eq : after.chain ≡ Store.add given.sha3 b chain
    pub broadcast_eq : after.broadcast ≡ before.broadcast ++ block_value b ∷ []

module _ (tries : Trie) (given : Given) (keccak : List ℕ → List ℕ) (fuel : ℕ)
    (dont_react : Bool) where
  -- Either nothing was done to the node, or the block was added and there is no error.
  abbrev Decided : Block → Manager → Verdict tries → Type 0
  Decided b node v = Untouched node v.node ⊎ ((v.error ≡ none) × Added given keccak b node v.node)

  return_with-Holds :
      (P : Verdict tries → Type 0) (error : Option ProcessError) (w : World tries) (node : Manager)
      → ((w' : World tries)
          → P (record { error = error; node = record node { db = w'.db }; state = w' }))
      → Holds P (return_with tries given keccak fuel dont_react error w node)
  unfolding return_with
  return_with-Holds P error w node h =
      Holds-bind P (reset_state tries w) _ λ w'. Holds-intro P _ (h w')

  refused :
      (b : Block) (error : Option ProcessError) (w : World tries) (node : Manager)
      → Holds (Decided b node) (return_with tries given keccak fuel dont_react error w node)
  refused b error w node =
      return_with-Holds (Decided b node) error w node λ w'.
        inl (record { chain_eq = refl; pool_eq = refl; posted_eq = refl; broadcast_eq = refl })

  module _ (b : Block) (node : Manager)
      (fresh : has_block (block_hash given.sha3 b) node.chain ≡ false)
      (valid : validate_on given keccak node.chain b ≡ ok none) where
    commit_block-Decided :
        (bc : BlockChain) (s : Scene tries)
        → calculate_td node.chain b ≡ ok (true, bc)
        → Holds (Decided b node) (commit_block tries given keccak fuel dont_react bc b s node)
    unfolding commit_block extended
    commit_block-Decided bc s e = Holds-bind (Decided b node) (sync_state tries s.world) _ λ w.
        let k = kept_changes tries given keccak fuel dont_react w in
        let current = new_state tries (tries.at_root w.db b.head.root) w.db in
        Holds-bind (Decided b node)
          (remove_invalid tries given.sha3 given.recover k current node.pool.pool) _
          λ txs.
            let node' : Manager =
              extended tries given keccak fuel dont_react bc b (record s { world = w }) txs node in
            return_with-Holds (Decided b node) none k node' λ w'. inr (
              refl,
              record {
                fresh = fresh;
                valid = valid;
                chain = bc;
                more = e;
                chain_eq = refl;
                broadcast_eq = refl;
              },
            )

    settle_block-Decided :
        (s : Scene tries)
        → Holds (Decided b node) (settle_block tries given keccak fuel dont_react b s node)
    unfolding settle_block
    settle_block-Decided s =
        Holds-bind (Decided b node) (accumelate_rewards tries given.sha3 b s.world) _ λ w.
          Holds-cases (Decided b node)
            (deep_equal (new_value b.head.root) (new_value (root_item tries w))) _ _
            (λ same. Holds-here (Decided b node) (calculate_td node.chain b) _ λ (more, bc) e.
              Holds-cases (Decided b node) more _ _
                (λ e'.
                  commit_block-Decided bc (record s { world = w })
                    (subst (λ m. calculate_td node.chain b ≡ ok (m, bc)) e' e))
                (λ e'. refused b none w node))
            (λ e. refused b (some invalid_root) w node)

  process_known-Decided :
      (parent b : Block) (s : Scene tries) (node : Manager)
      → has_block (block_hash given.sha3 b) node.chain ≡ false
      → Holds (Decided b node) (process_known tries given keccak fuel dont_react parent b s node)
  unfolding process_known
  process_known-Decided parent b s node fresh =
      Holds-bind (Decided b node)
        (apply_transactions tries given fuel node.chain parent (pos 0) b.transactions s) _
        λ batch.
          Holds-here (Decided b node) (validate_on given keccak node.chain b) _
            λ wrong e. by_verdict batch.scene wrong e
    where
      by_verdict :
          (s' : Scene tries) (wrong : Option BlockError)
          → validate_on given keccak node.chain b ≡ ok wrong
          → Holds (Decided b node) (elim wrong [
            | some e ↦
                return_with tries given keccak fuel dont_react (some (validation e)) s'.world node
            | none ↦ settle_block tries given keccak fuel dont_react b s' node
          ])
      by_verdict s' none e = settle_block-Decided b node fresh e s'
      by_verdict s' (some wrong) e = refused b (some (validation wrong)) s'.world node

  -- ProcessBlock that returns either leaves the chain, the pool, the posts and the broadcasts as
  -- they were, or it returns no error and has added and broadcast a block that was not known, that
  -- ValidateBlock accepts, and whose total difficulty CalculateTD accepts.
  pub process_block_all_or_nothing :
      (s : Scene tries) (parent b : Block) (node : Manager) (v : Verdict tries)
      → process_block tries given keccak fuel dont_react s parent b node ≡ ok v
      → Untouched node v.node ⊎ ((v.error ≡ none) × Added given keccak b node v.node)
  unfolding process_block
  process_block_all_or_nothing s parent b node v e =
      Holds-ok (Decided b node) _
        (elim (Bool-cases (has_block (block_hash given.sha3 b) node.chain)) [
          | inl known ↦ rw known (
              Holds-intro (Decided b node) _ (
                inl (record {
                  chain_eq = refl;
                  pool_eq = refl;
                  posted_eq = refl;
                  broadcast_eq = refl;
                })))
          | inr fresh ↦ rw fresh (
              Holds-cases (Decided b node) _ _ _
                (λ unknown. refused b (some parent_unknown) s.world node)
                (λ e'. process_known-Decided parent b s node fresh))
        ])
        e

  -- `Process` does nothing to the node or adds the block.
  abbrev pub Settled : Block → Manager → Option ProcessError × Manager → Type 0
  Settled b node (e, m) = Untouched node m ⊎ ((e ≡ none) × Added given keccak b node m)

  pub process-Settled :
      (b : Block) (node : Manager)
      → Holds (Settled b node) (process tries given keccak fuel dont_react b node)
  unfolding process
  process-Settled b node =
      Holds-cases (Settled b node) (has_block b.head.prev_hash node.chain) _ _
        (λ known. Holds-bind (Settled b node) (get_block b.head.prev_hash node.chain) _ λ found.
          Holds-bind (Settled b node) (or_panic found) _ λ parent.
            Holds-here (Settled b node)
              (process_block tries given keccak fuel dont_react _ parent b node) _
              λ v e.
                Holds-intro (Settled b node) (v.error, v.node)
                  (process_block_all_or_nothing _ parent b node v e))
        (λ unknown.
          Holds-intro (Settled b node) (some parent_unknown, node)
            (inl
              (record { chain_eq = refl; pool_eq = refl; posted_eq = refl; broadcast_eq = refl })))
