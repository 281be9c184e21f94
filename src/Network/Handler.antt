-- ===== src/Network/Handler.antt =====
-- The switch of `HandleInbound` and the cases of `HandleOutbound` (peer.go). A transaction goes into
-- the channel of the pool. `rounded` is a uint64 that went through float64 and back.
use goeth_self_training.Prelude.{
  ℕ, zero, suc, ◌-◌, ◌==◌, true, false, Option, some, none, List, [], ◌∷◌, ◌++◌, map, if◌then◌else◌,
}
use goeth_self_training.Prelude.Int.{ℤ}
use goeth_self_training.Prelude.Result.{Result, ok, ◌>>=◌}
use goeth_self_training.Item.{Item, str, list, item, no_items, from_list}
use goeth_self_training.Value
use goeth_self_training.Value.{len, to_bytes, to_uint}
use goeth_self_training.Trie.{Trie}
use goeth_self_training.Transaction.{rlp_value_decode, rlp_data}
use goeth_self_training.TxPool.Queue.{current_transactions}
use goeth_self_training.Blocks.{Block, block_hash, decode_each}
use goeth_self_training.Chain.Store.{BlockChain, has_block, get_block}
use goeth_self_training.Chain.Store.Search.{get_chain_from_hash}
use goeth_self_training.StateManager.Apply.{Given}
use goeth_self_training.Wire.{Msg}
use goeth_self_training.Network.{
  Ethereum, Net, new_message, update, queue_message, stop_peer, write_message,
}
use goeth_self_training.Network.Address.{unpack_addr}
use goeth_self_training.Network.Peers.{broadcast_msg, peers_message, push_peers}
use goeth_self_training.Network.Connect.{process_peer_list}
use goeth_self_training.Network.Caps.{is_cap}
use goeth_self_training.Network.Sync.{double_request, find_common_parent_block, on_handshake}
use goeth_self_training.Network.Download.{on_blocks}

-- A pong at a time in seconds.
unfoldable pub on_pong : ℤ → ℕ → Ethereum → Ethereum
unfolding update
on_pong now i n = update i (λ p. record p { last_pong = now }) n

-- Transactions go to the queue of the pool.
unfoldable pub on_txs : Item → Ethereum → Result Ethereum
unfolding decode_each rlp_value_decode len
on_txs content n = do
  txs ← decode_each rlp_value_decode (len content) 0 content
  ok (record n { queued = n.queued ++ txs })

-- The address of an item of a peer list.
unfoldable pub addr_of : Item → Result (List ℕ)
unfolding unpack_addr to_uint Value.get
addr_of v = unpack_addr (Value.get v 0) (to_uint (Value.get v 1))

-- The first hash of `left` ones that the chain has, with its block.
unfoldable pub first_known : ℕ → ℕ → Item → BlockChain → Result (Option Block)
unfolding has_block get_block to_bytes Value.get
first_known zero k content bc = ok none
first_known (suc left) k content bc =
    let hash = to_bytes (Value.get content k) in
    let more = first_known left (suc k) content bc in
    if has_block hash bc then get_block hash bc else more

-- `MsgGetTxsTy`
unfoldable pub on_get_txs : ℕ → Ethereum → Ethereum
unfolding current_transactions rlp_data new_message queue_message
on_get_txs i n =
    let txs = current_transactions n.manager.pool in
    queue_message (new_message 18 (list (from_list (map (λ tx. rlp_data tx) txs)))) i n

module _ (given : Given) where
  -- `MsgGetChainTy` where `k` hashes are in front of the count.
  unfoldable pub send_chain : (ℕ → ℕ) → ℕ → Item → ℕ → Ethereum → Result Ethereum
  unfolding first_known get_chain_from_hash block_hash new_message queue_message Value.get
  send_chain rounded k content i n = do
    parent ← first_known k 0 content n.manager.chain
    elim parent [
      | some b ↦
          get_chain_from_hash given.sha3 rounded (block_hash given.sha3 b) 100 n.manager.chain
          >>= λ chain. ok (queue_message (new_message 19 (list (from_list chain))) i n)
      | none ↦
          let last_hash = Value.get content (k - 1) in
          ok (queue_message (new_message 21 (list (item last_hash no_items))) i n)
    ]

  -- With no item, or with the count alone, nothing is done.
  unfoldable pub on_get_chain : (ℕ → ℕ) → ℕ → Item → ℕ → Ethereum → Result Ethereum
  unfolding send_chain
  on_get_chain rounded zero content i n = ok n
  on_get_chain rounded (suc zero) content i n = ok n
  on_get_chain rounded (suc (suc k)) content i n = send_chain rounded (suc k) content i n

  -- `MsgNotInChainTy`
  unfoldable pub on_not_in_chain : ℕ → Ethereum → Result Ethereum
  unfolding update double_request find_common_parent_block
  on_not_in_chain i n =
      let deeper = if (n.at i).diverted then double_request i n else n in
      find_common_parent_block given.sha3 i
        (update i (λ p. record p { diverted = true; catching_up = false }) deeper)

module _ (net : Net) where
  -- `MsgGetPeersTy`
  unfoldable pub on_get_peers : ℤ → ℕ → Ethereum → Result Ethereum
  unfolding update push_peers
  on_get_peers now i n =
      push_peers net now i (update i (λ p. record p { requested_peer_list = true }) n)

  -- `MsgPeersTy`
  unfoldable pub on_peers : (ℕ → ℕ) → Item → ℕ → Ethereum → Result Ethereum
  unfolding update decode_each addr_of process_peer_list len
  on_peers choices content i n =
      let connected = (do
        addrs ← decode_each addr_of (len content) 0 content
        let n' = process_peer_list net choices addrs n
        ok (update i (λ p. record p { requested_peer_list = false }) n')) in
      if (n.at i).requested_peer_list then connected else ok n

  -- The cases of `HandleOutbound`: a message of the queue, the timer of the pings, and the service.
  unfoldable pub send_queued : ℕ → Ethereum → Result Ethereum
  unfolding update write_message
  send_queued i n = elim (n.at i).queue [
    | [] ↦ ok n
    | msg ∷ rest ↦ write_message net msg i (update i (λ p. record p { queue = rest }) n)
  ]

  unfoldable pub on_service : ℤ → ℕ → Ethereum → Result Ethereum
  unfolding peers_message broadcast_msg is_cap
  on_service now i n =
      let told = peers_message net now n >>= λ (msg, n'). ok (broadcast_msg msg n') in
      if is_cap 0 (n.at i).caps then told else ok n

-- What a message brings with it that is not in it: the time and the random numbers.
pub record Moment : Type 0 where
  pub now : ℤ
  pub choices : ℕ → ℕ

-- The messages by their types.
pub data Kind : Type 0 where
  handshake disconnects pings pongs get_peers gives_peers txs blocks get_blocks not_in_chain get_txs
        other :
      Kind

unfoldable pub kind_of : ℕ → Kind
kind_of ty =
    if ty == 0
    then handshake
    else if ty == 1
    then disconnects
    else if ty == 2
    then pings
    else if ty == 3
    then pongs
    else if ty == 16
    then get_peers
    else if ty == 17
    then gives_peers
    else if ty == 18
    then txs
    else if ty == 19
    then blocks
    else if ty == 20
    then get_blocks
    else if ty == 21
    then not_in_chain
    else if ty == 22
    then get_txs
    else other

module _ (tries : Trie) (given : Given) (keccak : List ℕ → List ℕ) (rounded : ℕ → ℕ) (net : Net)
    (fuel depth : ℕ) where
  -- The switch for a message of the peer `i`.
  unfoldable pub handle_kind : Kind → Moment → Item → ℕ → Ethereum → Result Ethereum
  unfolding on_handshake stop_peer new_message queue_message on_pong on_blocks on_txs on_get_peers
      on_peers on_get_chain on_not_in_chain on_get_txs len
  handle_kind handshake m content i n = on_handshake given.sha3 net content i n
  handle_kind disconnects m content i n = stop_peer net i n
  handle_kind pings m content i n = ok (queue_message (new_message 3 (str [])) i n)
  handle_kind pongs m content i n = ok (on_pong m.now i n)
  handle_kind blocks m content i n = on_blocks tries given keccak fuel depth content i n
  handle_kind txs m content i n = on_txs content n
  handle_kind get_peers m content i n = on_get_peers net m.now i n
  handle_kind gives_peers m content i n = on_peers net m.choices content i n
  handle_kind get_blocks m content i n = on_get_chain given rounded (len content) content i n
  handle_kind not_in_chain m content i n = on_not_in_chain given i n
  handle_kind get_txs m content i n = ok (on_get_txs i n)
  handle_kind other m content i n = ok n

  unfoldable pub handle_message : Moment → Msg → ℕ → Ethereum → Result Ethereum
  unfolding handle_kind kind_of
  handle_message m msg i n = handle_kind (kind_of msg.msg_type) m msg.content i n
