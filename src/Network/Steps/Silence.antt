-- ===== src/Network/Steps/Silence.antt =====
-- What every run of the peers' goroutines keeps (peer.go, ethereum.go): a peer hears nothing but
-- handshakes before its version is known. The list may grow beyond MaxPeers, since its length is
-- tested some time before the push.
use goeth_self_training.Prelude.{
  ℕ, ◌≡◌, ◌==◌, Bool, true, false, List, if◌then◌else◌, arith, subst, Bool-cases, inl, inr,
}
use goeth_self_training.Trie.{Trie}
use goeth_self_training.StateManager.Apply.{Given}
use goeth_self_training.Network.{Peer, Ethereum, Net, update, remove_peer_element}
use goeth_self_training.Network.Peers.{push_peer}
use goeth_self_training.Network.Stable.{Silent, Stable}
use goeth_self_training.Network.Stable.Handling.{Managed}
use goeth_self_training.Network.Steps.{Run}
use goeth_self_training.Network.Steps.Keeping.{run-keeps}

-- Every peer is silent.
pub record IsQuiet (n : Ethereum) : Type 0 where
  pub silent : (i : ℕ) → Silent (n.at i)

at_update :
    (i j : ℕ) (f : Peer → Peer) (at : ℕ → Peer)
    → (Silent (at i) → Silent (f (at i)))
    → Silent (at j)
    → Silent (if j == i then f (at j) else at j)
at_update i j f at h s = elim (Bool-cases (j == i)) [
  | inl e ↦
      let same : i ≡ j = ground arith in
      rw e (subst (λ k. Silent (at k) → Silent (f (at k))) same h s)
  | inr e ↦ rw e s
]

at_push : (b : Bool) (p q : Peer) → Silent p → Silent q → Silent (if b then p else q)
at_push true p q h s = h
at_push false p q h s = s

IsQuiet-Stable : Stable IsQuiet
unfolding update remove_peer_element push_peer
IsQuiet-Stable = record {
  set = λ i f n h q. record { silent = λ j. at_update i j f n.at h (q.silent j) };
  drop_peer = λ i n q. record { silent = q.silent };
  push = λ p n s q. record { silent = λ j. at_push (j == n.fresh) p (n.at j) s (q.silent j) };
  repost = λ posts n q. record { silent = q.silent };
  wait = λ txs n q. record { silent = q.silent };
}

module _ (tries : Trie) (given : Given) (keccak : List ℕ → List ℕ) (rounded : ℕ → ℕ) (net : Net)
    (fuel depth : ℕ) where
  IsQuiet-Managed : Managed tries given keccak fuel depth IsQuiet
  IsQuiet-Managed = record {
    processed = λ b n e m eq q. record { silent = q.silent };
    chosen = λ content common n ours bc eq q. record { silent = q.silent };
  }

  -- After any sequence of whole calls of the peers' goroutines, and of pushes of peers that `AddPeer`
  -- and `ConnectToPeer` have tested the room for earlier, from a node where each peer whose version is
  -- not known was sent nothing but handshakes: the same holds again.
  pub run-IsQuiet :
      (n n' : Ethereum)
      → Run tries given keccak rounded net fuel depth n n'
      → IsQuiet n
      → IsQuiet n'
  run-IsQuiet n n' run q =
      run-keeps tries given keccak rounded net fuel depth IsQuiet IsQuiet-Stable IsQuiet-Managed n
        n' run q
