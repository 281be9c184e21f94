-- ===== src/Tests/Peers.antt =====
-- Peers and what they send (peer.go, ethereum.go) at concrete inputs.
use goeth_self_training.Prelude.{◌≡◌, refl, arith, true, false, some, [], ◌∷◌, map}
use goeth_self_training.Prelude.Int.{pos, ◌+ℤ◌, ◌-ℤ◌}
use goeth_self_training.Prelude.Result.{Result, ok, panic, ◌>>=◌}
use goeth_self_training.Item.{Item, bytes, list, item, no_items, uint64}
use goeth_self_training.Blocks.{block_encode}
use goeth_self_training.Value.{new_value_from_bytes}
use goeth_self_training.Wire.{Msg}
use goeth_self_training.Network.{Conn, Peer, Ethereum, Net, stop_peer}
use goeth_self_training.Network.Address.{pack_addr, host_text, itoa}
use goeth_self_training.Network.Address.RoundTrip.{pack_addr-host_text}
use goeth_self_training.Network.Answers.{Queued, on_get_chain-Queued}
use goeth_self_training.Network.Stopping.{IsStopped, stop_peer-IsStopped}
use goeth_self_training.Network.Caps.{reason_named}
use goeth_self_training.Network.Peers.{reap_peers}
use goeth_self_training.Network.Handler.{Moment, handle_message, on_get_chain}
use goeth_self_training.Network.Stable.{Silent}
use goeth_self_training.Network.Steps.{Run, here, and_then, received}
use goeth_self_training.Network.Steps.Silence.{IsQuiet, run-IsQuiet}
use goeth_self_training.Network.Steps.Chains.{Grown, run-Grown, handle_message-manager}
use goeth_self_training.Tests.Manager.{zeros}
use goeth_self_training.Tests.Accounts.{sevens}
use goeth_self_training.Tests.Processing.{rooted, given, plain_block, chain, node}

-- The host 1.2.3.4 for every address, and a connection that takes every message.
abbrev net : Net
net = record {
  split_host_port = λ addr. (49 ∷ 46 ∷ 50 ∷ 46 ∷ 51 ∷ 46 ∷ 52 ∷ [], 55 ∷ []);
  is_loopback = λ addr. false;
  lookup_ip = λ host. some (host ∷ []);
  accepts = λ sent msg. true;
  own_key = 4 ∷ 9 ∷ 9 ∷ [];
  client_string = 71 ∷ [];
}

abbrev conn : Conn
conn = record { remote = 49 ∷ []; local = 50 ∷ [] }

-- A peer that is connected, whose version is not known.
abbrev stranger : Peer
stranger = record {
  conn = some conn;
  queue = [];
  sent = [];
  quit = false;
  closed = false;
  inbound = true;
  connected = 1;
  disconnect = 0;
  version_known = false;
  last_pong = pos 0;
  requested_peer_list = false;
  host = 1 ∷ 2 ∷ 3 ∷ 4 ∷ [];
  port = 7;
  caps = 7;
  pubkey = 9 ∷ 9 ∷ [];
  catching_up = false;
  diverted = false;
  blocks_requested = 10;
  version = [];
}

abbrev ethereum : Ethereum
ethereum = record {
  manager = node;
  queued = [];
  at = λ i. stranger;
  fresh = 1;
  peers = 0 ∷ [];
  max_peers = 3;
  server_caps = 7;
  posts = [];
}

abbrev moment : Moment
moment = record { now = pos 50; choices = λ k. k }

-- A message with one block, as it comes from the wire.
abbrev item_of : Result Item → Item
item_of (ok v) = v
item_of r = bytes []

abbrev blocks_of_peer : Msg
blocks_of_peer = record {
  msg_type = 19;
  content = list (item (item_of (new_value_from_bytes (block_encode plain_block))) no_items);
}

abbrev handle : Msg → Ethereum → Result Ethereum
handle msg n = handle_message rooted given zeros (λ k. k) net 100 10 moment msg 0 n

abbrev behind : Result Ethereum → Ethereum
behind (ok n) = n
behind r = ethereum

abbrev grown : Ethereum
grown = behind (handle blocks_of_peer ethereum)

grown_eq : handle blocks_of_peer ethereum ≡ ok grown
unfolding handle_message block_encode goeth_self_training.Value.get goeth_self_training.Rlp.encode
    goeth_self_training.Rlp.slice_header goeth_self_training.Rlp.encode_bytes
    goeth_self_training.Rlp.encode_big new_value_from_bytes goeth_self_training.Rlp.decode_from ◌-ℤ◌
    ◌+ℤ◌
grown_eq = refl

-- The block is on the chain, and it was broadcast to the peer.
grown_added :
    (grown.manager.chain.last_hash ≡ sevens [])
    × (map (λ msg. msg.msg_type) (grown.at 0).queue ≡ 19 ∷ [])
unfolding handle_message block_encode goeth_self_training.Value.get goeth_self_training.Rlp.encode
    goeth_self_training.Rlp.slice_header goeth_self_training.Rlp.encode_bytes
    goeth_self_training.Rlp.encode_big new_value_from_bytes goeth_self_training.Rlp.decode_from ◌-ℤ◌
    ◌+ℤ◌
grown_added = (refl, refl)

abbrev grows : Run rooted given zeros (λ k. k) net 100 10 ethereum grown
grows = and_then ethereum grown here (received moment blocks_of_peer 0 grown_eq)

run-Grown_example : Grown given zeros 10 chain grown.manager.chain
run-Grown_example = run-Grown rooted given zeros 100 10 (λ k. k) net ethereum grown grows

ethereum-IsQuiet : IsQuiet ethereum
unfolding Silent
ethereum-IsQuiet = record { silent = λ i u. tt }

run-IsQuiet_example : IsQuiet grown
run-IsQuiet_example =
    run-IsQuiet rooted given zeros (λ k. k) net 100 10 ethereum grown grows ethereum-IsQuiet

-- A request for the chain after a block that is not known.
abbrev asks : Msg
asks = record { msg_type = 20; content = list (item (bytes (5 ∷ [])) (item (uint64 50) no_items)) }

asks_eq : handle asks ethereum ≡ ok (behind (handle asks ethereum))
unfolding handle_message
asks_eq = refl

answer_eq :
    on_get_chain given (λ k. k) 2 asks.content 0 ethereum
    ≡ ok (behind (on_get_chain given (λ k. k) 2 asks.content 0 ethereum))
unfolding on_get_chain
answer_eq = refl

-- The answer is that the hash is not in the chain.
asks_answer : map (λ msg. msg.msg_type) ((behind (handle asks ethereum)).at 0).queue ≡ 21 ∷ []
unfolding handle_message
asks_answer = refl

handle_message-manager_example : (behind (handle asks ethereum)).manager ≡ node
handle_message-manager_example =
    handle_message-manager rooted given zeros 100 10 (λ k. k) net moment asks 0 ethereum
      (behind (handle asks ethereum)) (λ e. let h : 20 ≡ 19 = e in absurd (omega (arith, h)))
      asks_eq

on_get_chain-Queued_example :
    Queued chain asks.content 1 []
      ((behind (on_get_chain given (λ k. k) 2 asks.content 0 ethereum)).at 0).queue
on_get_chain-Queued_example =
    on_get_chain-Queued given (λ k. k) refl 2 asks.content 0 ethereum
      (behind (on_get_chain given (λ k. k) 2 asks.content 0 ethereum)) answer_eq

stopped_eq : stop_peer net 0 ethereum ≡ ok (behind (stop_peer net 0 ethereum))
unfolding stop_peer goeth_self_training.Network.new_message
stopped_eq = refl

-- The version is not known, so that the peer is not told.
stopped_quietly : ((behind (stop_peer net 0 ethereum)).at 0).sent ≡ []
unfolding stop_peer goeth_self_training.Network.new_message
stopped_quietly = refl

stop_peer-IsStopped_example : IsStopped net 0 (behind (stop_peer net 0 ethereum))
unfolding goeth_self_training.Network.member
stop_peer-IsStopped_example =
    stop_peer-IsStopped net 0 ethereum (behind (stop_peer net 0 ethereum)) (refl, tt) refl
      stopped_eq

pack_addr-host_text_example :
    (host_text (1 ∷ 20 ∷ 255 ∷ 0 ∷ []) >>= λ host. pack_addr host (itoa 30303))
    ≡ ok (1 ∷ 20 ∷ 255 ∷ 0 ∷ [], 30303)
pack_addr-host_text_example =
    pack_addr-host_text 1 20 255 0 30303 (omega arith, omega arith, omega arith, omega arith)
      (omega arith)

-- The reason 8 is behind the eight names, and the test lets it through.
reason_8 : reason_named 8 ≡ panic
unfolding reason_named
reason_8 = refl

-- A key that the node sends, which is its own without the first byte, is not known as its own.
greets : Msg
greets = record {
  msg_type = 0;
  content = list (
      item (uint64 17) (
        item (uint64 0) (
          item (bytes [])
            (item (bytes []) (item (bytes []) (item (bytes (9 ∷ 9 ∷ [])) no_items))))));
}

greeted : ((behind (handle greets ethereum)).at 0).disconnect ≡ 0
unfolding handle_message greets
greeted = refl

-- Of two peers that are to go, reaping takes the first.
reaped_one :
    (reap_peers
      (pos 1)
      (record ethereum { at = λ i. record stranger { disconnect = 1 }; peers = 0 ∷ 1 ∷ [] })).peers
    ≡ 1 ∷ []
unfolding reap_peers ◌-ℤ◌
reaped_one = refl

-- An inbound peer that has been quiet for a day stays.
quiet_stays : (reap_peers (pos 86400) ethereum).peers ≡ 0 ∷ []
unfolding reap_peers ◌-ℤ◌
quiet_stays = refl
