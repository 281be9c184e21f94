-- ===== src/Miner/Mines.antt =====
-- What `mineNewBlock` does to the node (ethminer/miner.go).
use goeth_self_training.Prelude.{
  ℕ, ◌≡◌, refl, ap, ◌∙◌, inl, inr, true, false, Option, some, none, List, [], ◌∷◌, ◌++◌,
  append_assoc,
}
use goeth_self_training.Prelude.Int.{ℤ, pos}
use goeth_self_training.Prelude.Result.{
  ok, Holds, Holds-intro, Holds-bind, Holds-here, Holds-then, Holds-cases, Holds-ok,
  Holds-out_of_fuel,
}
use goeth_self_training.Bytes.{big_bytes}
use goeth_self_training.Trie.{Trie}
use goeth_self_training.Transaction.{Transaction}
use goeth_self_training.Blocks.{Block, hash_no_nonce, block_value}
use goeth_self_training.StateManager.{verify}
use goeth_self_training.StateManager.Apply.{Given}
use goeth_self_training.StateManager.Process.{Manager, ProcessError, process}
use goeth_self_training.StateManager.Process.Accepts.{Untouched, Added, Settled, process-Settled}
use goeth_self_training.Miner.{
  Miner, search, prepare, announced, hand_in, after_search, mine_new_block,
}

-- A nonce that `Search` returns is one that `Verify` accepts.
abbrev Accepted : (List ℕ → List ℕ) → List ℕ → Option ℤ → Option (List ℕ) → Type 0
Accepted keccak id diff none = Unit
Accepted keccak id diff (some nonce) = verify keccak id diff nonce ≡ ok true

search-Accepted :
    (sha3 keccak : List ℕ → List ℕ) (id : List ℕ) (diff : Option ℤ) (picks : List (Option ℕ))
    → Holds (Accepted keccak id diff) (search sha3 keccak id diff picks)
unfolding search
search-Accepted sha3 keccak id diff [] = Holds-out_of_fuel (Accepted keccak id diff)
search-Accepted sha3 keccak id diff (none ∷ picks) = Holds-intro (Accepted keccak id diff) none tt
search-Accepted sha3 keccak id diff (some r ∷ picks) =
    let sha = sha3 (big_bytes (pos r)) in
    Holds-here (Accepted keccak id diff) (verify keccak id diff sha) _ λ good e.
      Holds-cases (Accepted keccak id diff) good _ _
        (λ yes'. Holds-intro (Accepted keccak id diff) (some sha) (e ∙ ap ok yes'))
        (λ no'. search-Accepted sha3 keccak id diff picks)

module _ (given : Given) (keccak : List ℕ → List ℕ) where
  -- The node after `mineNewBlock`. `idle`: nothing was found, or the block was refused. `ignored`: a
  -- block whose total difficulty is not accepted, or that is known, is broadcast all the same.
  -- `mined`: the block has a nonce that is accepted, is on the chain, and was broadcast twice.
  pub data Mined (before after : Manager) : Type 0 where
    idle : Untouched before after → Mined before after
    ignored :
        (b : Block)
        → after.chain ≡ before.chain
        → after.broadcast ≡ before.broadcast ++ block_value b ∷ []
        → Mined before after
    mined :
        (b : Block) (settled : Manager)
        → verify keccak (hash_no_nonce given.sha3 b) b.head.difficulty b.head.nonce ≡ ok true
        → Added given keccak b before settled
        → after.chain ≡ settled.chain
        → after.broadcast ≡ before.broadcast ++ block_value b ∷ block_value b ∷ []
        → Mined before after

  module _ (tries : Trie) (fuel : ℕ) (by_nonce : List Transaction → List Transaction)
      (beyond : List ℕ → List ℕ) where
    abbrev Done : Manager → Miner × Manager → Type 0
    Done node (m, node') = Mined node node'

    announced-Mined :
        (b : Block) (m : Miner) (node node' : Manager) (e : Option ProcessError)
        → verify keccak (hash_no_nonce given.sha3 b) b.head.difficulty b.head.nonce ≡ ok true
        → Settled tries given keccak fuel false b node (e, node')
        → Done node (announced tries given keccak fuel by_nonce beyond b m (e, node'))
    unfolding announced
    announced-Mined b m node node' (some wrong) good (inl u) = idle u
    announced-Mined b m node node' (some wrong) good (inr (fine, a)) = absurd (let h = fine in cc)
    announced-Mined b m node node' none good (inl u) =
        ignored b u.chain_eq (ap (λ vs. vs ++ block_value b ∷ []) u.broadcast_eq)
    announced-Mined b m node node' none good (inr (fine, a)) = mined b node' good a refl (
        ap (λ vs. vs ++ block_value b ∷ []) a.broadcast_eq
        ∙ append_assoc node.broadcast (block_value b ∷ []) (block_value b ∷ []))

    hand_in-Mined :
        (b : Block) (m : Miner) (node : Manager)
        → verify keccak (hash_no_nonce given.sha3 b) b.head.difficulty b.head.nonce ≡ ok true
        → Holds (Done node) (hand_in tries given keccak fuel by_nonce beyond b m node)
    unfolding hand_in
    hand_in-Mined b m node good =
        Holds-then (Settled tries given keccak fuel false b node) (Done node)
          (process tries given keccak fuel false b node) _
          (process-Settled tries given keccak fuel false b node)
          λ (e, node') s. Holds-intro (Done node) _ (announced-Mined b m node node' e good s)

    after_search-Mined :
        (b : Block) (m : Miner) (node : Manager) (found : Option (List ℕ))
        → Accepted keccak (hash_no_nonce given.sha3 b) b.head.difficulty found
        → Holds (Done node) (after_search tries given keccak fuel by_nonce beyond b m node found)
    unfolding after_search hash_no_nonce
    after_search-Mined b m node none good =
        Holds-intro (Done node) (m, node)
          (idle (record { chain_eq = refl; pool_eq = refl; posted_eq = refl; broadcast_eq = refl }))
    after_search-Mined b m node (some nonce) good = hand_in-Mined _ _ node good

    -- `mineNewBlock` that returns: nothing was found in the rounds that were given, or Process refuses
    -- the block, and the chain, the pool, the posts and the broadcasts are as they were; or the
    -- block is broadcast and the chain is as it was; or the block has a nonce that Verify accepts,
    -- ProcessBlock has put it on the chain, and it is broadcast a second time.
    pub mine_new_block-Mined :
        (now : ℤ) (picks : List (Option ℕ)) (m m' : Miner) (node node' : Manager)
        → mine_new_block tries given keccak fuel by_nonce beyond now picks m node ≡ ok (m', node')
        → Mined node node'
    unfolding mine_new_block
    mine_new_block-Mined now picks m m' node node' e =
        Holds-ok (Done node) _
          (Holds-bind (Done node) (prepare tries given keccak fuel by_nonce beyond now m node) _
            λ (b, txs).
              let id = hash_no_nonce given.sha3 b in
              Holds-then (Accepted keccak id b.head.difficulty) (Done node)
                (search given.sha3 keccak id b.head.difficulty picks) _
                (search-Accepted given.sha3 keccak id b.head.difficulty picks)
                λ found good. after_search-Mined b _ node found good)
          e
