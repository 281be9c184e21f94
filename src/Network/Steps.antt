-- ===== src/Network/Steps.antt =====
-- The goroutines of a node's peers (peer.go, ethereum.go) as steps, one after another: each call of
-- theirs is one, from its start to its end, so that no other comes between its parts. Go lets others
-- in, for instance between a choice of the chain and the blocks that are processed behind it. For the
-- test for room of `AddPeer` and `ConnectToPeer`, which holds no lock, the push is a step of its own.
-- The goroutines of the miner and of the pool are no steps. A call that panics is no step.
pub mod Keeping
pub mod Silence
pub mod Chains
use goeth_self_training.Prelude.{ℕ, ◌≡◌, Option, some, none, List, [], ◌∷◌}
use goeth_self_training.Prelude.Int.{ℤ}
use goeth_self_training.Prelude.Result.{Result, ok}
use goeth_self_training.Trie.{Trie}
use goeth_self_training.StateManager.Apply.{Given}
use goeth_self_training.Wire.{Msg}
use goeth_self_training.Network.{Conn, Peer, Ethereum, Net, ping, write_message, stop_peer}
use goeth_self_training.Network.Peers.{
  reap_peers, dialed, add_peer, new_peer, join_peer, post_peers, push_peer, new_outbound_peer,
}
use goeth_self_training.Network.Connect.{connect_to_peer}
use goeth_self_training.Network.Handler.{Moment, handle_message, send_queued, on_service}

module _ (tries : Trie) (given : Given) (keccak : List ℕ → List ℕ) (rounded : ℕ → ℕ) (net : Net)
    (fuel depth : ℕ) where
  -- `received`: a message that `HandleInbound` has read. `sends`, `pinged` and `serviced` are the
  -- cases of `HandleOutbound`; `ended` is `Stop` where `HandleInbound` ends. `accepted`, `connects`
  -- and `dials` are the peers that come, and `reaped` is the reaping timer. `joins` and `links` are the
  -- ends of `AddPeer` and `ConnectToPeer` of a peer that was made over an earlier node `m`, whatever
  -- the list has become since.
  pub data Step (n n' : Ethereum) : Type 0 where
    received :
        (m : Moment) (msg : Msg) (i : ℕ)
        → handle_message tries given keccak rounded net fuel depth m msg i n ≡ ok n'
        → Step n n'
    sends : (i : ℕ) → send_queued net i n ≡ ok n' → Step n n'
    pinged : (i : ℕ) → write_message net ping i n ≡ ok n' → Step n n'
    serviced : (now : ℤ) (i : ℕ) → on_service net now i n ≡ ok n' → Step n n'
    ended : (i : ℕ) → stop_peer net i n ≡ ok n' → Step n n'
    accepted : (conn : Conn) → add_peer net conn n ≡ ok n' → Step n n'
    joins :
        (conn : Conn) (peer : Peer) (m : Ethereum)
        → new_peer net conn m ≡ ok peer
        → join_peer net peer n ≡ ok n'
        → Step n n'
    links : (m : Ethereum) → post_peers net (push_peer (new_outbound_peer net m) n) ≡ n' → Step n n'
    connects : (choice : ℕ) (addr : List ℕ) → (connect_to_peer net choice addr n).1 ≡ n' → Step n n'
    dials : (o : Option Conn) (i : ℕ) → dialed net o i n ≡ ok n' → Step n n'
    reaped : (now : ℤ) → reap_peers now n ≡ n' → Step n n'

  pub data Run (n : Ethereum) : Ethereum → Type 0 where
    here : Run n n
    and_then : (m m' : Ethereum) → Run n m → Step m m' → Run n m'
