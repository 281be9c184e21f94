-- ===== src/Network/Stable/Lists.antt =====
-- What the functions on the list of peers keep (ethereum.go), with `Start` of peer.go.
use goeth_self_training.Prelude.{
  ℕ, suc, Option, some, none, List, [], ◌∷◌, if◌then◌else◌, length, ltb, Bool-cases, inl, inr,
}
use goeth_self_training.Prelude.Int.{ℤ}
use goeth_self_training.Prelude.Result.{
  or_panic, Holds, Holds-intro, Holds-then, Holds-bind, Holds-cases,
}
use goeth_self_training.Wire.{Msg, tail_from}
use goeth_self_training.Network.{Conn, Peer, Ethereum, Net, ping, remove_peer_element}
use goeth_self_training.Network.Address.{pack_addr}
use goeth_self_training.Network.Peers.{
  is_dead, reap_peers, in_out_peers, broadcast_msg, peer_items, peers_message, push_peer,
  push_peers, push_handshake, note_address, start_peer, new_peer, new_outbound_peer, dialed,
  join_peer, post_peers, add_peer,
}
use goeth_self_training.Network.Connect.{
  connected_to, Chosen, chosen, refused, choose_host, connect_to, connect_to_peer,
  process_peer_list,
}
use goeth_self_training.Network.Stable.{
  Silent, Stable, each_peer-keeps, if-keeps, queue_message-keeps, Second, stop_peer-keeps,
  write_message-keeps,
}

module _ (P : Ethereum → Type 0) (keeps : Stable P) where
  pub reap_peers-keeps : (now : ℤ) (n : Ethereum) → P n → P (reap_peers now n)
  unfolding reap_peers
  reap_peers-keeps now n p =
      each_peer-keeps P keeps _ n.peers n
        (λ i m q.
          if-keeps P keeps (is_dead now (m.at i)) (remove_peer_element i m) m
            (keeps.drop_peer i m q) q)
        p

  pub broadcast_msg-keeps : (msg : Msg) (n : Ethereum) → P n → P (broadcast_msg msg n)
  unfolding broadcast_msg
  broadcast_msg-keeps msg n p =
      each_peer-keeps P keeps _ n.peers n (λ i m q. queue_message-keeps P keeps msg i m q) p

  module _ (net : Net) where
    pub peers_message-keeps :
        (now : ℤ) (n : Ethereum) → P n → Holds (Second P keeps) (peers_message net now n)
    unfolding peers_message in_out_peers
    peers_message-keeps now n p =
        let n' = reap_peers now n in
        Holds-bind (Second P keeps) (peer_items net (in_out_peers now n').0 (reap_peers now n')) _
          λ items.
            Holds-intro (Second P keeps) (_, reap_peers now n')
              (reap_peers-keeps now n' (reap_peers-keeps now n p))

    pub push_peers-keeps : (now : ℤ) (i : ℕ) (n : Ethereum) → P n → Holds P (push_peers net now i n)
    unfolding push_peers
    push_peers-keeps now i n p =
        Holds-then (Second P keeps) P (peers_message net now n) _ (peers_message-keeps now n p)
          λ (msg, n') q. Holds-intro P _ (queue_message-keeps P keeps msg i n' q)

    note_address-keeps : (i : ℕ) (n : Ethereum) → P n → Holds P (note_address net i n)
    unfolding note_address Silent
    note_address-keeps i n p = Holds-bind P (or_panic (n.at i).conn) _ λ conn.
        Holds-bind P
          (pack_addr
            ((net.split_host_port (if (n.at i).inbound then conn.local else conn.remote)).0)
            ((net.split_host_port (if (n.at i).inbound then conn.local else conn.remote)).1))
          _
          λ (host', port').
            Holds-intro P _
              (keeps.set i (λ q. record q { host = host'; port = port' }) n (λ s. s) p)

    start_peer-keeps : (i : ℕ) (n : Ethereum) → P n → Holds P (start_peer net i n)
    unfolding start_peer push_handshake
    start_peer-keeps i n p =
        Holds-then P P (note_address net i n) _ (note_address-keeps i n p) λ n' q.
          Holds-then P P (push_handshake net i n') _
            (Holds-bind P (tail_from net.own_key 1) _
              λ pubkey. Holds-intro P _ (queue_message-keeps P keeps _ i n' q))
            λ n'' r. write_message-keeps P keeps net ping i n'' r

    pub dialed-keeps : (o : Option Conn) (i : ℕ) (n : Ethereum) → P n → Holds P (dialed net o i n)
    unfolding dialed Silent
    dialed-keeps none i n p = stop_peer-keeps P keeps net i n p
    dialed-keeps (some conn) i n p = start_peer-keeps i _ (
        keeps.set i (λ q. record q { conn = some conn; connected = 1; disconnect = 0 }) n (λ s. s)
          p)

    pub new_peer-Silent : (conn : Conn) (n : Ethereum) → Holds Silent (new_peer net conn n)
    unfolding new_peer Silent
    new_peer-Silent conn n =
        Holds-bind Silent (tail_from net.own_key 1) _ λ pubkey. Holds-intro Silent _ (λ u. tt)

    post_peers-keeps : (n : Ethereum) → P n → P (post_peers net n)
    post_peers-keeps n p = keeps.repost (n.peers ∷ n.posts) n p

    pub join_peer-keeps :
        (peer : Peer) (n : Ethereum) → Silent peer → P n → Holds P (join_peer net peer n)
    unfolding join_peer
    join_peer-keeps peer n silent p =
        Holds-then P P (start_peer net n.fresh (push_peer peer n)) _
          (start_peer-keeps n.fresh _ (keeps.push peer n silent p))
          λ n' q. Holds-intro P _ (post_peers-keeps n' q)

    pub add_peer-keeps : (conn : Conn) (n : Ethereum) → P n → Holds P (add_peer net conn n)
    unfolding add_peer
    add_peer-keeps conn n p =
        Holds-then Silent P (new_peer net conn n) _ (new_peer-Silent conn n) λ peer silent.
          Holds-cases P (ltb (length n.peers) n.max_peers) _ _
            (λ e. join_peer-keeps peer n silent p) (λ e. Holds-intro P _ (post_peers-keeps n p))

    pub push_outbound-keeps :
        (m n : Ethereum) → P n → P (post_peers net (push_peer (new_outbound_peer net m) n))
    unfolding new_outbound_peer Silent
    push_outbound-keeps m n p = post_peers-keeps _ (keeps.push _ n (λ u. tt) p)

    connect_to-keeps : (c : Chosen) (n : Ethereum) → P n → P ((connect_to net c n).1)
    unfolding connect_to
    connect_to-keeps (refused e) n p = p
    connect_to-keeps (chosen host) n p = elim (Bool-cases (connected_to net host n.peers n)) [
      | inl e ↦ rw e p
      | inr e ↦ rw e (push_outbound-keeps n n p)
    ]

    pub connect_to_peer-keeps :
        (choice : ℕ) (addr : List ℕ) (n : Ethereum)
        → P n
        → P ((connect_to_peer net choice addr n).1)
    unfolding connect_to_peer
    connect_to_peer-keeps choice addr n p = elim (Bool-cases (ltb (length n.peers) n.max_peers)) [
      | inl e ↦
          rw e (
            connect_to-keeps (choose_host choice (net.lookup_ip ((net.split_host_port addr).0))) n
              p)
      | inr e ↦ rw e p
    ]

    pub process_peer_list-keeps :
        (choices : ℕ → ℕ) (addrs : List (List ℕ)) (n : Ethereum)
        → P n
        → P (process_peer_list net choices addrs n)
    unfolding process_peer_list
    process_peer_list-keeps choices [] n p = p
    process_peer_list-keeps choices (addr ∷ addrs) n p =
        process_peer_list-keeps (λ k. choices (suc k)) addrs _
          (connect_to_peer-keeps (choices 0) addr n p)
