-- ===== src/Network.antt =====
-- peer.go and ethereum.go: the peers of a node and what they say to it. A `Peer` object is known by
-- a number; an `Ethereum` has the objects, the list of its peers by their numbers, and the parts of
-- the program that the messages reach. A channel is a list, its room is not counted: where Go waits,
-- the message is put behind the others. The times that are only shown are left out, and so is the log.
pub mod Address
pub mod Peers
pub mod Connect
pub mod Caps
pub mod Sync
pub mod Download
pub mod Handler
pub mod Stable
pub mod Stopping
pub mod Answers
pub mod Steps
use goeth_self_training.Prelude.{
  ℕ, suc, ◌+◌, ◌%◌, ◌^◌, ◌==◌, ◌&&◌, ◌||◌, not, Bool, true, false, Option, some, none, List, [],
  ◌∷◌, ◌++◌, if◌then◌else◌, length,
}
use goeth_self_training.Prelude.Int.{ℤ}
use goeth_self_training.Prelude.Result.{Result, ok, panic, out_of_fuel, ◌>>=◌, or_panic}
use goeth_self_training.Item.{Item, str}
use goeth_self_training.Value.{new_value}
use goeth_self_training.Transaction.{Transaction}
use goeth_self_training.Wire.{Msg}
use goeth_self_training.StateManager.Process.{Manager}

-- RemoteAddr().String() and LocalAddr().String() of a connection.
pub record Conn : Type 0 where
  pub remote : List ℕ
  pub local : List ℕ

-- `sent` are the messages that were written to the connection, oldest first; `quit` and `closed`
-- tell that the channel and the connection were closed. `blocks_requested` is an int by its 64 bits.
pub record Peer : Type 0 where
  pub conn : Option Conn
  pub queue : List Msg
  pub sent : List Msg
  pub quit : Bool
  pub closed : Bool
  pub inbound : Bool
  pub connected : ℕ
  pub disconnect : ℕ
  pub version_known : Bool
  pub last_pong : ℤ
  pub requested_peer_list : Bool
  pub host : List ℕ
  pub port : ℕ
  pub caps : ℕ
  pub pubkey : List ℕ
  pub catching_up : Bool
  pub diverted : Bool
  pub blocks_requested : ℕ
  pub version : List ℕ

-- `queued` are the transactions in the channel of the pool; `posts` the lists that were posted to
-- the reactor as "peerList", newest first. `at` is each object by its number, from `fresh` on unused.
pub record Ethereum : Type 0 where
  pub manager : Manager
  pub queued : List Transaction
  pub at : ℕ → Peer
  pub fresh : ℕ
  pub peers : List ℕ
  pub max_peers : ℕ
  pub server_caps : ℕ
  pub posts : List (List ℕ)

-- What the package net and the key ring tell: SplitHostPort with "" for an error, IsLoopback of
-- ParseIP, LookupIP by the addresses' texts, whether a message can be written after others, and
-- PublicKey of the first key pair.
pub record Net : Type 0 where
  pub split_host_port : List ℕ → List ℕ × List ℕ
  pub is_loopback : List ℕ → Bool
  pub lookup_ip : List ℕ → Option (List (List ℕ))
  pub accepts : List Msg → Msg → Bool
  pub own_key : List ℕ
  pub client_string : List ℕ

-- NewMessage
unfoldable pub new_message : ℕ → Item → Msg
unfolding new_value
new_message ty data' = record { msg_type = ty; content = new_value data' }

abbrev pub ping : Msg
ping = new_message 2 (str [])

abbrev pub disc : Msg
disc = new_message 1 (str [])

unfoldable pub update : ℕ → (Peer → Peer) → Ethereum → Ethereum
update i f n = record n { at = λ j. if j == i then f (n.at j) else n.at j }

unfoldable pub member : ℕ → List ℕ → Bool
member i [] = false
member i (j ∷ js) = j == i || member i js

unfoldable pub remove_id : ℕ → List ℕ → List ℕ
remove_id i [] = []
remove_id i (j ∷ js) = let rest = remove_id i js in if j == i then js else j ∷ rest

-- `eachPeer`: an element that its callback has removed has no next one.
unfoldable pub each_peer : (ℕ → Ethereum → Ethereum) → List ℕ → Ethereum → Ethereum
unfolding member
each_peer callback [] n = n
each_peer callback (i ∷ is) n =
    let n' = callback i n in
    let rest = each_peer callback is n' in if member i n'.peers then rest else n'

-- `removePeerElement`
unfoldable pub remove_peer_element : ℕ → Ethereum → Ethereum
unfolding remove_id
remove_peer_element i n =
    let left = remove_id i n.peers in record n { peers = left; posts = left ∷ n.posts }

-- `RemovePeer`
unfoldable pub remove_peer : ℕ → Ethereum → Ethereum
unfolding each_peer remove_peer_element
remove_peer i n = each_peer (λ j m. if j == i then remove_peer_element j m else m) n.peers n

-- `QueueMessage`
unfoldable pub queue_message : Msg → ℕ → Ethereum → Ethereum
unfolding update
queue_message msg i n =
    if (n.at i).connected == 1
    then update i (λ p. record p { queue = p.queue ++ msg ∷ [] }) n
    else n

-- atomic.AddInt32(&p.disconnect, 1)
unfoldable pub count_disconnect : ℕ → Ethereum → Ethereum
unfolding update
count_disconnect i n = update i (λ p. record p { disconnect = (p.disconnect + 1) % 2 ^ 32 }) n

module _ (net : Net) where
  -- The message goes to the connection, and the write fails if that is closed.
  unfoldable pub write_to : Msg → ℕ → Ethereum → Result (Bool × Ethereum)
  unfolding update
  write_to msg i n = do
    conn ← or_panic (n.at i).conn
    ok (
        if not (n.at i).closed && net.accepts (n.at i).sent msg
        then (true, update i (λ p. record p { sent = p.sent ++ msg ∷ [] }) n)
        else (false, n))

  -- `writeMessage` up to its error, which is false.
  unfoldable pub try_write : Msg → ℕ → Ethereum → Result (Bool × Ethereum)
  unfolding write_to
  try_write msg i n =
      if (n.at i).connected == 1 && ((n.at i).version_known || msg.msg_type == 0)
      then write_to msg i n
      else ok (true, n)

  -- What `Stop` says to a peer that is connected. An error of the write calls `Stop` again, which
  -- counts and returns.
  unfoldable pub say_goodbye : ℕ → Ethereum → Result Ethereum
  unfolding try_write count_disconnect update
  say_goodbye i n = do
    (good, n') ← try_write disc i n
    ok (update i (λ p. record p { closed = true }) (if good then n' else count_disconnect i n'))

  -- `Stop` at its first call.
  unfoldable pub shut_down : ℕ → Ethereum → Result Ethereum
  unfolding update say_goodbye remove_peer
  shut_down i n =
      let n' = update i (λ p. record p { quit = true }) n in
      let said = if (n.at i).connected == 0 then ok n' else say_goodbye i n' in
      if (n.at i).quit then panic else (said >>= λ m. ok (remove_peer i m))

  -- `Stop`
  unfoldable pub stop_peer : ℕ → Ethereum → Result Ethereum
  unfolding count_disconnect shut_down
  stop_peer i n =
      let n' = count_disconnect i n in if (n'.at i).disconnect == 1 then shut_down i n' else ok n'

  -- `writeMessage`
  unfoldable pub write_message : Msg → ℕ → Ethereum → Result Ethereum
  unfolding try_write stop_peer
  write_message msg i n = do (good, n') ← try_write msg i n; if good then ok n' else stop_peer i n'
