-- ===== src/Network/Steps/Chains.antt =====
-- What becomes of the chain while the goroutines of the peers make their calls one after another (peer.go, ethchain/block_chain.go,
-- ethchain/state_manager.go).
use goeth_self_training.Prelude.{
  ℕ, ◌-◌, ◌≡◌, ◌≢◌, refl, sym, subst, true, false, Option, none, List, [], inl, inr, arith,
}
use goeth_self_training.Prelude.Int.{ℤ, pos, ltb_ℤ}
use goeth_self_training.Prelude.Result.{
  ok, Holds, Holds-intro, Holds-here, Holds-bind, Holds-cases, Holds-ok,
}
use goeth_self_training.Item.{Item}
use goeth_self_training.Value.{len}
use goeth_self_training.Trie.{Trie}
use goeth_self_training.Blocks.{Block, block_hash, block_value_decode, decode_each}
use goeth_self_training.Chain.Store
use goeth_self_training.Chain.Store.{BlockChain, has_block, get_block, reset_till_block_hash}
use goeth_self_training.Chain.Store.Choose.{
  incoming_total, current_total, choose_chain, choose_from_msg,
}
use goeth_self_training.StateManager.{calculate_td}
use goeth_self_training.StateManager.Apply.{Given}
use goeth_self_training.StateManager.Process.{Manager, ProcessError, validate_on}
use goeth_self_training.StateManager.Process.Accepts.{Settled, process-Settled}
use goeth_self_training.Wire.{Msg}
use goeth_self_training.Network.{Ethereum, Net, update, remove_peer_element}
use goeth_self_training.Network.Peers.{push_peer}
use goeth_self_training.Network.Handler.{Moment, blocks, kind_of, handle_message}
use goeth_self_training.Network.Stable.{Stable}
use goeth_self_training.Network.Stable.Handling.{Managed, handle_message-keeps}
use goeth_self_training.Network.Steps.{Run}
use goeth_self_training.Network.Steps.Keeping.{run-keeps}

module _ (given : Given) (keccak : List ℕ → List ℕ) (depth : ℕ) where
  -- How a chain changes: a block comes behind it that it did not have and that is valid on it, with
  -- the total difficulty that CalculateTD has accepted; or it goes back to a common block, as other
  -- blocks have more difficulty from there on.
  pub data Grown (bc : BlockChain) : BlockChain → Type 0 where
    same : Grown bc bc
    added :
        (b : Block) (mid counted : BlockChain)
        → Grown bc mid
        → has_block (block_hash given.sha3 b) mid ≡ false
        → validate_on given keccak mid b ≡ ok none
        → calculate_td mid b ≡ ok (true, counted)
        → Grown bc (Store.add given.sha3 b counted)
    went_back :
        (theirs : List Block) (common : List ℕ) (mid bc' : BlockChain) (total ours : ℤ)
        → Grown bc mid
        → incoming_total given.sha3 common (pos 0) theirs ≡ ok total
        → current_total given.sha3 depth common (pos 0) mid mid.current ≡ ok ours
        → ltb_ℤ ours total ≡ true
        → reset_till_block_hash given.sha3 common mid ≡ ok bc'
        → Grown bc bc'

  choose_chain-Grown :
      (theirs : List Block) (common : List ℕ) (bc mid : BlockChain)
      → Grown bc mid
      → Holds (λ (ours, bc'). Grown bc bc') (choose_chain given.sha3 depth theirs common mid)
  unfolding choose_chain
  choose_chain-Grown theirs common bc mid g =
      Holds-here _ (incoming_total given.sha3 common (pos 0) theirs) _ λ total e.
        Holds-here _ (current_total given.sha3 depth common (pos 0) mid mid.current) _ λ ours e'.
          Holds-cases (λ (ours, bc'). Grown bc bc') (ltb_ℤ ours total) _ _
            (λ more. Holds-here _ (reset_till_block_hash given.sha3 common mid) _ λ bc' r.
              Holds-intro (λ (ours, bc'). Grown bc bc') (false, bc')
                (went_back theirs common mid bc' total ours g e e' more r))
            (λ less. Holds-intro (λ (ours, bc'). Grown bc bc') (true, mid) g)

  choose_from_msg-Grown :
      (content : Item) (common : List ℕ) (bc mid : BlockChain)
      → Grown bc mid
      → Holds (λ (ours, bc'). Grown bc bc') (choose_from_msg given.sha3 depth content common mid)
  unfolding choose_from_msg
  choose_from_msg-Grown content common bc mid g =
      Holds-bind _ (decode_each block_value_decode (len content - 1) 0 content) _
        λ theirs. choose_chain-Grown theirs common bc mid g

module _ (tries : Trie) (given : Given) (keccak : List ℕ → List ℕ) (fuel depth : ℕ) where
  Settled-Grown :
      (b : Block) (node m : Manager) (e : Option ProcessError) (bc : BlockChain)
      → Settled tries given keccak fuel false b node (e, m)
      → Grown given keccak depth bc node.chain
      → Grown given keccak depth bc m.chain
  Settled-Grown b node m e bc (inl u) g = subst (Grown given keccak depth bc) (sym u.chain_eq) g
  Settled-Grown b node m e bc (inr (fine, a)) g =
      subst (Grown given keccak depth bc) (sym a.chain_eq)
        (added b node.chain a.chain g a.fresh a.valid a.more)

  module _ (n : Ethereum) where
    abbrev From : Ethereum → Type 0
    From n' = Grown given keccak depth n.manager.chain n'.manager.chain

    From-Stable : Stable From
    unfolding update remove_peer_element push_peer
    From-Stable = record {
      set = λ i f m h g. g;
      drop_peer = λ i m g. g;
      push = λ p m s g. g;
      repost = λ posts m g. g;
      wait = λ txs m g. g;
    }

    From-Managed : Managed tries given keccak fuel depth From
    From-Managed = record {
      processed = λ b m e m' eq g.
          Settled-Grown b (record m.manager { broadcast = [] }) m' e n.manager.chain
            (Holds-ok
              (Settled tries given keccak fuel false b (record m.manager { broadcast = [] })) _
              (process-Settled tries given keccak fuel false b _) eq)
            g;
      chosen = λ content common m ours bc eq g.
          Holds-ok (λ (ours, bc'). Grown given keccak depth n.manager.chain bc') _
            (choose_from_msg-Grown given keccak depth content common n.manager.chain m.manager.chain
              g)
            eq;
    }

  module _ (rounded : ℕ → ℕ) (net : Net) where
    -- After any sequence of whole calls of the peers' goroutines, one after another, whatever the
    -- peers send, the chain has changed only by blocks that it did not have, that are valid on it and
    -- whose total difficulty is accepted, and by going back to a block from which on other blocks
    -- have more difficulty than its own. What Go runs between the parts of a call, and the miner and
    -- the pool, are not among the calls.
    pub run-Grown :
        (n n' : Ethereum)
        → Run tries given keccak rounded net fuel depth n n'
        → Grown given keccak depth n.manager.chain n'.manager.chain
    run-Grown n n' run =
        run-keeps tries given keccak rounded net fuel depth (From n) (From-Stable n)
          (From-Managed n) n n' run same

    Kept-Stable : (n : Ethereum) → Stable (λ n'. n'.manager ≡ n.manager)
    unfolding update remove_peer_element push_peer
    Kept-Stable n = record {
      set = λ i f m h g. g;
      drop_peer = λ i m g. g;
      push = λ p m s g. g;
      repost = λ posts m g. g;
      wait = λ txs m g. g;
    }

    only_blocks : (ty : ℕ) → kind_of ty ≡ blocks → ty ≡ 19
    unfolding kind_of
    only_blocks ty e = ground arith

    -- A message that is no block message leaves the chain, the states' database, the list of the
    -- pool, the posts of blocks and the broadcasts as they were, where its handler does not panic.
    pub handle_message-manager :
        (m : Moment) (msg : Msg) (i : ℕ) (n n' : Ethereum)
        → msg.msg_type ≢ 19
        → handle_message tries given keccak rounded net fuel depth m msg i n ≡ ok n'
        → n'.manager ≡ n.manager
    handle_message-manager m msg i n n' other e =
        Holds-ok (λ n'. n'.manager ≡ n.manager) _
          (handle_message-keeps tries given keccak fuel depth (λ n'. n'.manager ≡ n.manager)
            (Kept-Stable n) rounded net m msg i n (λ b. absurd (other (only_blocks msg.msg_type b)))
            refl)
          e
