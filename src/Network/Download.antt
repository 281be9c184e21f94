-- ===== src/Network/Download.antt =====
-- The case of a block message in `HandleInbound` (peer.go): the search for a common ancestor, the
-- blocks that are processed, and the catching up behind them. What is only read for the log is left
-- out.
use goeth_self_training.Prelude.{
  ℕ, zero, suc, ◌-◌, ◌==◌, ◌&&◌, Bool, true, false, Option, some, none, List, [], ◌∷◌, ltb,
  if◌then◌else◌,
}
use goeth_self_training.Prelude.Result.{Result, ok, ◌>>=◌}
use goeth_self_training.Item.{Item, list, item, no_items}
use goeth_self_training.Value
use goeth_self_training.Value.{len}
use goeth_self_training.Trie.{Trie}
use goeth_self_training.Blocks.{Block, block_hash, block_value_decode}
use goeth_self_training.Chain.Store.{BlockChain, has_block}
use goeth_self_training.Chain.Store.Search.{has_block_with_prev_hash}
use goeth_self_training.Chain.Store.Choose.{choose_from_msg}
use goeth_self_training.StateManager.Apply.{Given}
use goeth_self_training.StateManager.Process.{
  ProcessError, parent_unknown, invalid_root, validation, process,
}
use goeth_self_training.Network.{Ethereum, new_message, update}
use goeth_self_training.Network.Peers.{broadcast_msg}
use goeth_self_training.Network.Sync.{
  not_catching_up, double_request, sync_with_peer, find_common_parent_block,
}

-- `Broadcast` of each block that the state manager has given out.
unfoldable pub broadcast_blocks : List Item → Ethereum → Ethereum
unfolding broadcast_msg new_message
broadcast_blocks [] n = n
broadcast_blocks (v ∷ vs) n =
    broadcast_blocks vs (broadcast_msg (new_message 19 (list (item v no_items))) n)

abbrev pub with_chain : BlockChain → Ethereum → Ethereum
with_chain bc n = record n { manager = record n.manager { chain = bc } }

module _ (tries : Trie) (given : Given) (keccak : List ℕ → List ℕ) (fuel depth : ℕ) where
  -- `Process` of a block, with what it broadcasts.
  unfoldable pub process_for_peer : Block → Ethereum → Result (Option ProcessError × Ethereum)
  unfolding process broadcast_blocks
  process_for_peer b n = do
    (e, m) ← process tries given keccak fuel false b (record n.manager { broadcast = [] })
    ok (e, broadcast_blocks m.broadcast (record n { manager = record m { broadcast = [] } }))

  -- The loop over the blocks of a message from the last one on, `left` of them, up to an error.
  unfoldable pub process_each : ℕ → Item → Ethereum → Result (Option ProcessError × Ethereum)
  unfolding process_for_peer block_value_decode Value.get
  process_each zero content n = ok (none, n)
  process_each (suc left) content n = do
    b ← block_value_decode (Value.get content left)
    (e, n') ← process_for_peer b n
    elim e [ some wrong ↦ ok (some wrong, n') | none ↦ process_each left content n' ]

  -- A block with a known ancestor: the choice of the chain.
  unfoldable pub on_ancestor : Item → List ℕ → ℕ → Ethereum → Result Ethereum
  unfolding update choose_from_msg sync_with_peer
  on_ancestor content common i n = do
    let n' = update i (λ p. record p { diverted = false }) n
    (ours, bc) ← choose_from_msg given.sha3 depth content common n'.manager.chain
    let chosen = with_chain bc n'
    if ours then ok chosen else sync_with_peer given.sha3 i chosen

  -- The search for it, from the last block on.
  unfoldable pub find_ancestor : ℕ → Item → ℕ → Ethereum → Result Ethereum
  unfolding has_block block_hash block_value_decode has_block_with_prev_hash on_ancestor Value.get
  find_ancestor zero content i n = ok n
  find_ancestor (suc left) content i n = do
    b ← block_value_decode (Value.get content left)
    let more = find_ancestor left content i n
    let missing = (do
      shared ← has_block_with_prev_hash depth b.head.prev_hash n.manager.chain
      if shared then on_ancestor content b.head.prev_hash i n else more)
    if has_block (block_hash given.sha3 b) n.manager.chain then more else missing

  -- The part for a peer that was diverted: whether the blocks are to be processed.
  unfoldable pub after_diversion : Item → ℕ → Ethereum → Result (Bool × Ethereum)
  unfolding has_block block_hash block_value_decode find_ancestor double_request
      find_common_parent_block update Value.get len
  after_diversion content i n = do
    last ← block_value_decode (Value.get content (len content - 1))
    n' ← find_ancestor (len content) content i n
    let asked = find_common_parent_block given.sha3 i (not_catching_up i (double_request i n'))
    if has_block (block_hash given.sha3 last) n'.manager.chain
        then ok (true, n')
        else (asked >>= λ n''. ok (false, n''))

  -- What follows the blocks, by the error.
  unfoldable pub after_blocks : Item → Option ProcessError → ℕ → Ethereum → Result Ethereum
  unfolding sync_with_peer update len
  after_blocks content (some parent_unknown) i n = sync_with_peer given.sha3 i n
  after_blocks content (some (validation e)) i n = ok (not_catching_up i n)
  after_blocks content (some invalid_root) i n = ok n
  after_blocks content none i n =
      let further = sync_with_peer given.sha3 i n in
      if (n.at i).catching_up && ltb 1 (len content) then further else ok n

  unfoldable pub take_blocks : Item → ℕ → Ethereum → Result Ethereum
  unfolding process_each after_blocks update len
  take_blocks content i n = do
    (e, n') ← process_each (len content) content n
    after_blocks content e i (if len content == 0 then not_catching_up i n' else n')

  -- The whole case.
  unfoldable pub on_blocks : Item → ℕ → Ethereum → Result Ethereum
  unfolding after_diversion take_blocks len
  on_blocks content i n = do
    (go_on, n') ←
        if ltb 2 (len content) && (n.at i).diverted
        then after_diversion content i n
        else ok (true, n)
    if go_on then take_blocks content i n' else ok n'
