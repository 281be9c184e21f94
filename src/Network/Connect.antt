-- ===== src/Network/Connect.antt =====
-- `ConnectToPeer` and `ProcessPeerList` of ethereum.go: the choice of an address, and the peer that
-- is dialed.
use goeth_self_training.Prelude.{
  ℕ, suc, ◌%◌, ◌==◌, ◌&&◌, ◌||◌, Bool, false, Option, some, none, List, [], ◌∷◌, list_eq, ltb,
  if◌then◌else◌, length, get_elem?,
}
use goeth_self_training.Network.{Ethereum, Net}
use goeth_self_training.Network.Peers.{push_peer, new_outbound_peer, post_peers}

-- "No IPV4 addresses" is `no_ipv4`, and "No IPs resolved" is `no_ips`.
pub data ConnectError : Type 0 where
  lookup_failed no_ipv4 no_ips : ConnectError

pub data Chosen : Type 0 where
  chosen : List ℕ → Chosen
  refused : ConnectError → Chosen

-- strings.Contains(ip, "::")
unfoldable pub has_colons : List ℕ → Bool
has_colons [] = false
has_colons (a ∷ []) = false
has_colons (a ∷ b ∷ cs) = (a == 58 && b == 58) || has_colons (b ∷ cs)

unfoldable pub without_ipv6 : List (List ℕ) → List (List ℕ)
unfolding has_colons
without_ipv6 [] = []
without_ipv6 (ip ∷ ips) = let rest = without_ipv6 ips in if has_colons ip then rest else ip ∷ rest

abbrev pub chosen_or : ConnectError → Option (List ℕ) → Chosen
chosen_or e none = refused e
chosen_or e (some ip) = chosen ip

-- The address that `ConnectToPeer` takes; `choice` is the random number.
unfoldable pub choose_host : ℕ → Option (List (List ℕ)) → Chosen
unfolding without_ipv6
choose_host choice none = refused lookup_failed
choose_host choice (some ips) =
    let v4 = without_ipv6 ips in
    if ltb 1 (length ips)
    then chosen_or no_ipv4 (get_elem? v4 (choice % length v4))
    else chosen_or no_ips (get_elem? ips 0)

module _ (net : Net) where
  -- Whether a peer of the list has a connection to that host.
  unfoldable pub connected_to : List ℕ → List ℕ → Ethereum → Bool
  connected_to host [] n = false
  connected_to host (i ∷ is) n =
      let rest = connected_to host is n in
      elim (n.at i).conn [
        | none ↦ rest
        | some conn ↦ list_eq ((net.split_host_port conn.remote).0) host || rest
      ]

  -- `ConnectToPeer` from the chosen address on.
  unfoldable pub connect_to : Chosen → Ethereum → Option ConnectError × Ethereum
  unfolding connected_to push_peer new_outbound_peer
  connect_to (refused e) n = (some e, n)
  connect_to (chosen host) n =
      if connected_to host n.peers n
      then (none, n)
      else (none, post_peers net (push_peer (new_outbound_peer net n) n))

  -- `ConnectToPeer`
  unfoldable pub connect_to_peer : ℕ → List ℕ → Ethereum → Option ConnectError × Ethereum
  unfolding connect_to choose_host
  connect_to_peer choice addr n =
      if ltb (length n.peers) n.max_peers
      then connect_to (choose_host choice (net.lookup_ip ((net.split_host_port addr).0))) n
      else (none, n)

  -- `ProcessPeerList`; the random numbers are those of the calls.
  unfoldable pub process_peer_list : (ℕ → ℕ) → List (List ℕ) → Ethereum → Ethereum
  unfolding connect_to_peer
  process_peer_list choices [] n = n
  process_peer_list choices (addr ∷ addrs) n =
      process_peer_list (λ k. choices (suc k)) addrs ((connect_to_peer (choices 0) addr n).1)
