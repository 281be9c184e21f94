-- ===== src/Network/Stable/Talk.antt =====
-- What the messages keep that are no blocks (peer.go): the catching up, the handshake, and the cases
-- of `HandleInbound` and `HandleOutbound`.
use goeth_self_training.Prelude.{
  ℕ, zero, suc, ◌*◌, ◌%◌, ◌^◌, ◌≡◌, ◌==◌, true, false, List, [], ◌∷◌, if◌then◌else◌, ◌++◌, list_eq,
  length,
}
use goeth_self_training.Prelude.Int.{ℤ}
use goeth_self_training.Prelude.Result.{
  ok, Holds, Holds-intro, Holds-then, Holds-bind, Holds-cases, Holds-elim,
}
use goeth_self_training.Bytes.{u64}
use goeth_self_training.Item.{Item}
use goeth_self_training.Value
use goeth_self_training.Value.{len, to_uint, to_bytes, to_str, to_byte_value}
use goeth_self_training.Transaction.{rlp_value_decode}
use goeth_self_training.Blocks.{block_hash, decode_each}
use goeth_self_training.Chain.Store.Choose.{read_chain}
use goeth_self_training.Chain.Store.Search.{get_chain_from_hash}
use goeth_self_training.StateManager.Apply.{Given}
use goeth_self_training.Wire.{Msg}
use goeth_self_training.Network.{Peer, Ethereum, Net, update, write_message}
use goeth_self_training.Network.Caps.{is_cap}
use goeth_self_training.Network.Peers.{peers_message}
use goeth_self_training.Network.Connect.{process_peer_list}
use goeth_self_training.Network.Sync.{
  catchup_with_peer, not_catching_up, double_request, rounds, current_hash, sync_with_peer,
  ask_for_parent, find_common_parent_block, note_peer, welcome, handle_handshake, on_handshake,
}
use goeth_self_training.Network.Handler.{
  on_pong, on_txs, addr_of, first_known, on_get_txs, send_chain, on_get_chain, on_not_in_chain,
  on_get_peers, on_peers, send_queued, on_service,
}
use goeth_self_training.Network.Stable.{
  Silent, Stable, if-keeps, queue_message-keeps, Second, stop_peer-keeps, write_message-keeps,
}
use goeth_self_training.Network.Stable.Lists.{
  broadcast_msg-keeps, peers_message-keeps, push_peers-keeps, process_peer_list-keeps,
}

module _ (P : Ethereum → Type 0) (keeps : Stable P) where
  pub not_catching_up-keeps : (i : ℕ) (n : Ethereum) → P n → P (not_catching_up i n)
  unfolding Silent
  not_catching_up-keeps i n p = keeps.set i (λ q. record q { catching_up = false }) n (λ s. s) p

  pub double_request-keeps : (i : ℕ) (n : Ethereum) → P n → P (double_request i n)
  unfolding double_request Silent
  double_request-keeps i n p =
      keeps.set i (λ q. record q { blocks_requested = u64 (q.blocks_requested * 2) }) n (λ s. s) p

  catchup_with_peer-keeps :
      (hash : List ℕ) (i : ℕ) (n : Ethereum) → P n → P (catchup_with_peer hash i n)
  unfolding catchup_with_peer Silent
  catchup_with_peer-keeps hash i n p = if-keeps P keeps (n.at i).catching_up n _ p (
      queue_message-keeps P keeps _ i _ (
        queue_message-keeps P keeps _ i _
          (keeps.set i (λ q. record q { catching_up = true }) n (λ s. s) p)))

  module _ (sha3 : List ℕ → List ℕ) where
    pub sync_with_peer-keeps : (i : ℕ) (n : Ethereum) → P n → Holds P (sync_with_peer sha3 i n)
    unfolding sync_with_peer
    sync_with_peer-keeps i n p =
        Holds-bind P (current_hash sha3 n) _
          λ hash. Holds-intro P _ (catchup_with_peer-keeps hash i _ (not_catching_up-keeps i n p))

    ask_for_parent-keeps : (i : ℕ) (n : Ethereum) → P n → Holds P (ask_for_parent sha3 i n)
    unfolding ask_for_parent Silent
    ask_for_parent-keeps i n p =
        let asked : Peer → Peer = (λ q. record q {
          catching_up = true;
          blocks_requested = if q.blocks_requested == 0 then 20 else q.blocks_requested;
        }) in
        let n' = update i asked n in
        Holds-bind P (current_hash sha3 n') _ λ hash.
          Holds-bind P (read_chain sha3 hash (rounds (n'.at i).blocks_requested) n'.manager.chain) _
            λ blocks.
              Holds-intro P _ (queue_message-keeps P keeps _ i n' (keeps.set i asked n (λ s. s) p))

    pub find_common_parent_block-keeps :
        (i : ℕ) (n : Ethereum) → P n → Holds P (find_common_parent_block sha3 i n)
    unfolding find_common_parent_block
    find_common_parent_block-keeps i n p =
        Holds-cases P (n.at i).catching_up _ _ (λ e. Holds-intro P n p)
          (λ e. ask_for_parent-keeps i n p)

    module _ (net : Net) where
      note_peer-keeps : (c : Item) (i : ℕ) (n : Ethereum) → P n → Holds P (note_peer sha3 net c i n)
      unfolding note_peer Silent
      note_peer-keeps c i n p = sync_with_peer-keeps i _ (
          keeps.set i
            (λ q. record q {
              caps = to_byte_value (Value.get c 3);
              version =
                  if length (to_str (Value.get c 2)) == 0
                  then q.version
                  else to_str (Value.get c 2);
            })
            n (λ s. s) p)

      welcome-keeps : (c : Item) (i : ℕ) (n : Ethereum) → P n → Holds P (welcome sha3 net c i n)
      unfolding welcome Silent
      welcome-keeps c i n p =
          let told : Peer → Peer = (λ q. record q {
            pubkey = to_bytes (Value.get c 5);
            port = to_uint (Value.get c 4) % 2 ^ 16;
          }) in
          let q : P (update i told n) = keeps.set i told n (λ s. s) p in
          Holds-cases P (list_eq net.own_key (to_bytes (Value.get c 5))) _ _
            (λ e. stop_peer-keeps P keeps net i (update i told n) q)
            (λ e. note_peer-keeps c i (update i told n) q)

      handle_handshake-keeps :
          (c : Item) (i : ℕ) (n : Ethereum) → P n → Holds P (handle_handshake sha3 net c i n)
      unfolding handle_handshake Silent
      handle_handshake-keeps c i n p =
          let known : Peer → Peer = (λ q. record q { version_known = true }) in
          let q : P (update i known n) =
            keeps.set i known n (λ s u. absurd (let h : true ≡ false = u in cc)) p in
          Holds-cases P (to_uint (Value.get c 0) == 17) _ _
            (λ e.
              Holds-cases P (n.at i).inbound _ _ (λ e'. welcome-keeps c i (update i known n) q)
                (λ e'. note_peer-keeps c i (update i known n) q))
            (λ e. stop_peer-keeps P keeps net i n p)

      pub on_handshake-keeps :
          (c : Item) (i : ℕ) (n : Ethereum) → P n → Holds P (on_handshake sha3 net c i n)
      unfolding on_handshake
      on_handshake-keeps c i n p =
          Holds-then P P (handle_handshake sha3 net c i n) _ (handle_handshake-keeps c i n p)
            λ n' q. Holds-intro P _ (
              if-keeps P keeps (is_cap 0 (n'.at i).caps) _ n' (queue_message-keeps P keeps _ i n' q)
                q)

  pub on_pong-keeps : (now : ℤ) (i : ℕ) (n : Ethereum) → P n → P (on_pong now i n)
  unfolding on_pong Silent
  on_pong-keeps now i n p = keeps.set i (λ q. record q { last_pong = now }) n (λ s. s) p

  pub on_txs-keeps : (content : Item) (n : Ethereum) → P n → Holds P (on_txs content n)
  unfolding on_txs
  on_txs-keeps content n p =
      Holds-bind P (decode_each rlp_value_decode (len content) 0 content) _
        λ txs. Holds-intro P _ (keeps.wait (n.queued ++ txs) n p)

  pub on_get_txs-keeps : (i : ℕ) (n : Ethereum) → P n → P (on_get_txs i n)
  unfolding on_get_txs
  on_get_txs-keeps i n p = queue_message-keeps P keeps _ i n p

  module _ (given : Given) where
    send_chain-keeps :
        (rounded : ℕ → ℕ) (k : ℕ) (content : Item) (i : ℕ) (n : Ethereum)
        → P n
        → Holds P (send_chain given rounded k content i n)
    unfolding send_chain
    send_chain-keeps rounded k content i n p =
        Holds-bind P (first_known k 0 content n.manager.chain) _ λ parent.
          Holds-elim P parent _ _ (Holds-intro P _ (queue_message-keeps P keeps _ i n p)) λ b.
            Holds-bind P
              (get_chain_from_hash given.sha3 rounded (block_hash given.sha3 b) 100 n.manager.chain)
              _ λ chain. Holds-intro P _ (queue_message-keeps P keeps _ i n p)

    pub on_get_chain-keeps :
        (rounded : ℕ → ℕ) (k : ℕ) (content : Item) (i : ℕ) (n : Ethereum)
        → P n
        → Holds P (on_get_chain given rounded k content i n)
    unfolding on_get_chain
    on_get_chain-keeps rounded zero content i n p = Holds-intro P n p
    on_get_chain-keeps rounded (suc zero) content i n p = Holds-intro P n p
    on_get_chain-keeps rounded (suc (suc k)) content i n p =
        send_chain-keeps rounded (suc k) content i n p

    pub on_not_in_chain-keeps : (i : ℕ) (n : Ethereum) → P n → Holds P (on_not_in_chain given i n)
    unfolding on_not_in_chain Silent
    on_not_in_chain-keeps i n p =
        let deeper = if (n.at i).diverted then double_request i n else n in
        let q : P deeper =
          if-keeps P keeps (n.at i).diverted (double_request i n) n (double_request-keeps i n p)
            p in
        find_common_parent_block-keeps given.sha3 i _
          (keeps.set i (λ r. record r { diverted = true; catching_up = false }) deeper (λ s. s) q)

  module _ (net : Net) where
    pub on_get_peers-keeps :
        (now : ℤ) (i : ℕ) (n : Ethereum) → P n → Holds P (on_get_peers net now i n)
    unfolding on_get_peers Silent
    on_get_peers-keeps now i n p =
        push_peers-keeps P keeps net now i _
          (keeps.set i (λ q. record q { requested_peer_list = true }) n (λ s. s) p)

    pub on_peers-keeps :
        (choices : ℕ → ℕ) (content : Item) (i : ℕ) (n : Ethereum)
        → P n
        → Holds P (on_peers net choices content i n)
    unfolding on_peers Silent
    on_peers-keeps choices content i n p =
        Holds-cases P (n.at i).requested_peer_list _ _
          (λ e. Holds-bind P (decode_each addr_of (len content) 0 content) _ λ addrs.
            Holds-intro P _ (
              keeps.set i (λ q. record q { requested_peer_list = false })
                (process_peer_list net choices addrs n) (λ s. s)
                (process_peer_list-keeps P keeps net choices addrs n p)))
          (λ e. Holds-intro P n p)

    pub send_queued-keeps : (i : ℕ) (n : Ethereum) → P n → Holds P (send_queued net i n)
    unfolding send_queued Silent
    send_queued-keeps i n p = taken (n.at i).queue
      where
        taken :
            (queue : List Msg)
            → Holds P (elim queue [
              | [] ↦ ok n
              | msg ∷ rest ↦ write_message net msg i (update i (λ q. record q { queue = rest }) n)
            ])
        taken [] = Holds-intro P n p
        taken (msg ∷ rest) =
            write_message-keeps P keeps net msg i _
              (keeps.set i (λ q. record q { queue = rest }) n (λ s. s) p)

    pub on_service-keeps : (now : ℤ) (i : ℕ) (n : Ethereum) → P n → Holds P (on_service net now i n)
    unfolding on_service
    on_service-keeps now i n p =
        Holds-cases P (is_cap 0 (n.at i).caps) _ _
          (λ e.
            Holds-then (Second P keeps) P (peers_message net now n) _
              (peers_message-keeps P keeps net now n p)
              λ (msg, n') q. Holds-intro P _ (broadcast_msg-keeps P keeps msg n' q))
          (λ e. Holds-intro P n p)
