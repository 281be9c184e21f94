-- ===== src/Network/Sync.antt =====
-- peer.go: how a node catches up with a peer, and the handshake. Where the code sleeps or reads the
-- clock for the log, nothing stands here.
use goeth_self_training.Prelude.{
  ℕ, ◌*◌, ◌%◌, ◌^◌, ◌==◌, true, false, List, [], map, list_eq, ltb, if◌then◌else◌, length,
}
use goeth_self_training.Prelude.Result.{Result, ok, ◌>>=◌, or_panic}
use goeth_self_training.Bytes.{u64}
use goeth_self_training.Item.{
  Item, str, bytes, uint64, list, item, no_items, append_items, from_list,
}
use goeth_self_training.Value
use goeth_self_training.Value.{to_uint, to_bytes, to_str, to_byte_value}
use goeth_self_training.Blocks.{block_hash}
use goeth_self_training.Chain.Store.Choose.{read_chain}
use goeth_self_training.Network.{Ethereum, Net, new_message, update, queue_message, stop_peer}
use goeth_self_training.Network.Caps.{is_cap}

-- `CatchupWithPeer`
unfoldable pub catchup_with_peer : List ℕ → ℕ → Ethereum → Ethereum
unfolding update new_message queue_message
catchup_with_peer hash i n =
    let get_chain = new_message 20 (list (item (bytes hash) (item (uint64 50) no_items))) in
    let get_txs = new_message 22 (list no_items) in
    let asked = update i (λ p. record p { catching_up = true }) n in
    if (n.at i).catching_up then n else queue_message get_txs i (queue_message get_chain i asked)

abbrev pub not_catching_up : ℕ → Ethereum → Ethereum
not_catching_up i n = update i (λ p. record p { catching_up = false }) n

-- Twice as many blocks are asked for, in 64 bits.
unfoldable pub double_request : ℕ → Ethereum → Ethereum
unfolding update
double_request i n = update i (λ p. record p { blocks_requested = u64 (p.blocks_requested * 2) }) n

-- An int that bounds a loop: no rounds where it is negative.
abbrev pub rounds : ℕ → ℕ
rounds n = if ltb n (2 ^ 63) then n else 0

module _ (sha3 : List ℕ → List ℕ) where
  -- CurrentBlock.Hash()
  unfoldable pub current_hash : Ethereum → Result (List ℕ)
  unfolding block_hash
  current_hash n = or_panic n.manager.chain.current >>= λ b. ok (block_hash sha3 b)

  -- `SyncWithPeerToLastKnown`
  unfoldable pub sync_with_peer : ℕ → Ethereum → Result Ethereum
  unfolding current_hash catchup_with_peer update
  sync_with_peer i n =
      current_hash n >>= λ hash. ok (catchup_with_peer hash i (not_catching_up i n))

  -- `FindCommonParentBlock` of a peer that is not catching up.
  unfoldable pub ask_for_parent : ℕ → Ethereum → Result Ethereum
  unfolding update current_hash read_chain new_message queue_message block_hash
  ask_for_parent i n = do
    let n' =
        update i
          (λ p. record p {
            catching_up = true;
            blocks_requested = if p.blocks_requested == 0 then 20 else p.blocks_requested;
          })
          n
    hash ← current_hash n'
    blocks ← read_chain sha3 hash (rounds (n'.at i).blocks_requested) n'.manager.chain
    let hashes = from_list (map (λ b. bytes (block_hash sha3 b)) blocks)
    let info = append_items hashes (item (uint64 (length blocks)) no_items)
    ok (queue_message (new_message 20 (list info)) i n')

  -- `FindCommonParentBlock`
  unfoldable pub find_common_parent_block : ℕ → Ethereum → Result Ethereum
  unfolding ask_for_parent
  find_common_parent_block i n =
      let asked = ask_for_parent i n in if (n.at i).catching_up then ok n else asked

  module _ (net : Net) where
    -- `handleHandshake` from the peer's capabilities on.
    unfoldable pub note_peer : Item → ℕ → Ethereum → Result Ethereum
    unfolding update sync_with_peer to_byte_value to_str Value.get
    note_peer c i n =
        let said = to_str (Value.get c 2) in
        let noted =
          update i
            (λ p. record p {
              caps = to_byte_value (Value.get c 3);
              version = if length said == 0 then p.version else said;
            })
            n in
        sync_with_peer i noted

    -- Of an inbound peer, the key and the port that it tells, and the test for the node itself.
    unfoldable pub welcome : Item → ℕ → Ethereum → Result Ethereum
    unfolding update stop_peer note_peer to_bytes to_uint Value.get
    welcome c i n =
        let pubkey = to_bytes (Value.get c 5) in
        let port = to_uint (Value.get c 4) % 2 ^ 16 in
        let told = update i (λ p. record p { pubkey = pubkey; port = port }) n in
        if list_eq net.own_key pubkey then stop_peer net i told else note_peer c i told

    -- `handleHandshake`
    unfoldable pub handle_handshake : Item → ℕ → Ethereum → Result Ethereum
    unfolding update stop_peer welcome note_peer to_uint Value.get
    handle_handshake c i n =
        let known = update i (λ p. record p { version_known = true }) n in
        let met = if (n.at i).inbound then welcome c i known else note_peer c i known in
        if to_uint (Value.get c 0) == 17 then met else stop_peer net i n

    -- The case of a handshake in `HandleInbound`.
    unfoldable pub on_handshake : Item → ℕ → Ethereum → Result Ethereum
    unfolding handle_handshake is_cap new_message queue_message
    on_handshake c i n = do
      n' ← handle_handshake c i n
      ok (if is_cap 0 (n'.at i).caps then queue_message (new_message 16 (str [])) i n' else n')
