-- ===== src/Network/Peers.antt =====
-- ethereum.go: the list of peers, and the peers that come in; `Start` of peer.go. Each function is
-- one step: what other goroutines do meanwhile is a step before or after it.
use goeth_self_training.Prelude.{
  ℕ, zero, suc, ◌-◌, ◌*◌, ◌^◌, ◌==◌, ◌&&◌, ◌||◌, not, Bool, true, false, Option, some, none, List,
  [], ◌∷◌, ◌++◌, ltb, if◌then◌else◌, length,
}
use goeth_self_training.Prelude.Int.{ℤ, pos, ltb_ℤ}
use goeth_self_training.Prelude.Result.{Result, ok, ◌>>=◌, or_panic}
use goeth_self_training.Item.{
  Item, Items, nil, uint8, uint16, uint32, bytes, str, list, item, no_items, append_items,
}
use goeth_self_training.Wire.{Msg, tail_from}
use goeth_self_training.StateManager.{int64_sub}
use goeth_self_training.Network.{
  Conn, Peer, Ethereum, Net, new_message, ping, update, each_peer, remove_peer_element,
  queue_message, write_message, stop_peer,
}
use goeth_self_training.Network.Address.{pack_addr}

-- `IsUpToDate`
unfoldable pub is_up_to_date : List ℕ → Ethereum → Bool
is_up_to_date [] n = true
is_up_to_date (i ∷ is) n =
    not ((n.at i).connected == 1 && (n.at i).catching_up) && is_up_to_date is n

-- The peers of a list that pass a test.
unfoldable pub select : (Peer → Bool) → List ℕ → Ethereum → List ℕ
select test [] n = []
select test (i ∷ is) n = let rest = select test is n in if test (n.at i) then i ∷ rest else rest

abbrev pub has_conn : Peer → Bool
has_conn p = elim p.conn [ none ↦ false | some c ↦ true ]

abbrev pub has_host : Peer → Bool
has_host p = not (length p.host == 0)

-- `OutboundPeers` and `InboundPeers`
unfoldable pub outbound_peers : Ethereum → List ℕ
unfolding select
outbound_peers n = select (λ p. not p.inbound && has_conn p) n.peers n

unfoldable pub inbound_peers : Ethereum → List ℕ
unfolding select
inbound_peers n = select (λ p. p.inbound) n.peers n

-- The test of `reapPeers` at a time in seconds, with int64(5*time.Minute) in nanoseconds.
unfoldable pub is_dead : ℤ → Peer → Bool
is_dead now p =
    p.disconnect == 1 || (p.inbound && ltb_ℤ (pos (300 * 10 ^ 9)) (int64_sub now p.last_pong))

-- `reapPeers`
unfoldable pub reap_peers : ℤ → Ethereum → Ethereum
unfolding each_peer is_dead remove_peer_element
reap_peers now n =
    each_peer (λ i m. if is_dead now (m.at i) then remove_peer_element i m else m) n.peers n

-- `InOutPeers`
unfoldable pub in_out_peers : ℤ → Ethereum → List ℕ × Ethereum
unfolding reap_peers select
in_out_peers now n = let n' = reap_peers now n in (select has_host n'.peers n', n')

-- `BroadcastMsg`
unfoldable pub broadcast_msg : Msg → Ethereum → Ethereum
unfolding each_peer queue_message
broadcast_msg msg n = each_peer (λ i m. queue_message msg i m) n.peers n

-- `RlpData` of a peer.
unfoldable pub peer_data : Peer → Item
peer_data p = list (item (bytes p.host) (item (uint16 p.port) (item (bytes p.pubkey) no_items)))

-- What make([]interface{}, k) holds.
unfoldable pub nils : ℕ → Items
nils zero = no_items
nils (suc k) = item nil (nils k)

-- A new object at the end of the list.
unfoldable pub push_peer : Peer → Ethereum → Ethereum
push_peer p n = record n {
  at = λ j. if j == n.fresh then p else n.at j;
  fresh = suc n.fresh;
  peers = n.peers ++ n.fresh ∷ [];
}

module _ (net : Net) where
  -- The items of `peersMessage`: nil for a peer on this host.
  unfoldable pub peer_items : List ℕ → Ethereum → Result Items
  unfolding peer_data
  peer_items [] n = ok no_items
  peer_items (i ∷ is) n = do
    conn ← or_panic (n.at i).conn
    rest ← peer_items is n
    ok (item (if net.is_loopback conn.remote then nil else peer_data (n.at i)) rest)

  -- `peersMessage`: the first call of `InOutPeers` gives the number of items, the second the peers.
  unfoldable pub peers_message : ℤ → Ethereum → Result (Msg × Ethereum)
  unfolding in_out_peers peer_items new_message nils
  peers_message now n = do
    let (first, n') = in_out_peers now n
    let (second, n'') = in_out_peers now n'
    items ← peer_items second n''
    ok (new_message 17 (list (append_items items (nils (length first - length second)))), n'')

  -- `pushPeers`
  unfoldable pub push_peers : ℤ → ℕ → Ethereum → Result Ethereum
  unfolding peers_message queue_message
  push_peers now i n = peers_message now n >>= λ (msg, n'). ok (queue_message msg i n')

  -- `pushHandshake`, with PublicKey[1:].
  unfoldable pub push_handshake : ℕ → Ethereum → Result Ethereum
  unfolding new_message queue_message
  push_handshake i n = do
    let p = n.at i
    pubkey ← tail_from net.own_key 1
    let msg = new_message 0 (
        list (
          item (uint32 17) (
            item (uint32 0) (
              item (str p.version)
                (item (uint8 p.caps) (item (uint16 p.port) (item (bytes pubkey) no_items)))))))
    ok (queue_message msg i n)

  -- The address that `Start` notes: the local one for an inbound peer.
  unfoldable pub note_address : ℕ → Ethereum → Result Ethereum
  unfolding pack_addr update
  note_address i n = do
    conn ← or_panic (n.at i).conn
    let addr = if (n.at i).inbound then conn.local else conn.remote
    let (host, port) = net.split_host_port addr
    (host', port') ← pack_addr host port
    ok (update i (λ p. record p { host = host'; port = port' }) n)

  -- `Start`; the two handlers, which it starts, are steps of their own.
  unfoldable pub start_peer : ℕ → Ethereum → Result Ethereum
  unfolding note_address push_handshake write_message
  start_peer i n = do n' ← note_address i n; n'' ← push_handshake i n'; write_message net ping i n''

  -- `NewPeer` for an inbound connection.
  unfoldable pub new_peer : Conn → Ethereum → Result Peer
  new_peer conn n = tail_from net.own_key 1 >>= λ pubkey. ok (record {
    conn = some conn;
    queue = [];
    sent = [];
    quit = false;
    closed = false;
    inbound = true;
    connected = 1;
    disconnect = 0;
    version_known = false;
    last_pong = pos 0;
    requested_peer_list = false;
    host = [];
    port = 30303;
    caps = n.server_caps;
    pubkey = pubkey;
    catching_up = false;
    diverted = false;
    blocks_requested = 10;
    version = [];
  })

  -- `NewOutboundPeer`, before its connection is there.
  unfoldable pub new_outbound_peer : Ethereum → Peer
  new_outbound_peer n = record {
    conn = none;
    queue = [];
    sent = [];
    quit = false;
    closed = false;
    inbound = false;
    connected = 0;
    disconnect = 0;
    version_known = false;
    last_pong = pos 0;
    requested_peer_list = false;
    host = [];
    port = 0;
    caps = n.server_caps;
    pubkey = [];
    catching_up = false;
    diverted = false;
    blocks_requested = 0;
    version = net.client_string;
  }

  -- What the goroutine of `NewOutboundPeer` does with the answer of net.DialTimeout.
  unfoldable pub dialed : Option Conn → ℕ → Ethereum → Result Ethereum
  unfolding stop_peer update start_peer
  dialed none i n = stop_peer net i n
  dialed (some conn) i n =
      start_peer i (update i (λ p. record p { conn = some conn; connected = 1; disconnect = 0 }) n)

  abbrev pub post_peers : Ethereum → Ethereum
  post_peers n = record n { posts = n.peers ∷ n.posts }

  -- `AddPeer` behind its test for room.
  unfoldable pub join_peer : Peer → Ethereum → Result Ethereum
  unfolding push_peer start_peer
  join_peer p n = start_peer n.fresh (push_peer p n) >>= λ n'. ok (post_peers n')

  -- `AddPeer`
  unfoldable pub add_peer : Conn → Ethereum → Result Ethereum
  unfolding new_peer join_peer
  add_peer conn n = do
    p ← new_peer conn n
    if ltb (length n.peers) n.max_peers then join_peer p n else ok (post_peers n)

  -- The loop of `Stop` of the node: a peer that stops takes itself off the list.
  unfoldable pub stop_each : List ℕ → Ethereum → Result Ethereum
  unfolding stop_peer goeth_self_training.Network.member
  stop_each [] n = ok n
  stop_each (i ∷ is) n = stop_peer net i n >>= λ n'.
      if goeth_self_training.Network.member i n'.peers then stop_each is n' else ok n'
