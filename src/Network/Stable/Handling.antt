-- ===== src/Network/Stable/Handling.antt =====
-- What a message keeps that the switch of `HandleInbound` takes (peer.go), blocks included: there a
-- property has to hold again behind each block that is processed and behind a choice of the chain.
use goeth_self_training.Prelude.{
  ℕ, zero, suc, ◌-◌, ◌≡◌, ◌==◌, ◌&&◌, Bool, true, false, Option, some, none, List, [], ◌∷◌, refl,
  ltb,
}
use goeth_self_training.Prelude.Result.{
  ok, Holds, Holds-intro, Holds-then, Holds-bind, Holds-cases, Holds-here, Holds-elim,
}
use goeth_self_training.Item.{Item}
use goeth_self_training.Value
use goeth_self_training.Value.{len}
use goeth_self_training.Trie.{Trie}
use goeth_self_training.Blocks.{Block, block_hash, block_value_decode}
use goeth_self_training.Chain.Store.{BlockChain, has_block}
use goeth_self_training.Chain.Store.Search.{has_block_with_prev_hash}
use goeth_self_training.Chain.Store.Choose.{choose_from_msg}
use goeth_self_training.StateManager.Apply.{Given}
use goeth_self_training.StateManager.Process.{
  Manager, ProcessError, parent_unknown, invalid_root, validation, process,
}
use goeth_self_training.Wire.{Msg}
use goeth_self_training.Network.{Ethereum, Net, update}
use goeth_self_training.Network.Sync.{not_catching_up, double_request, find_common_parent_block}
use goeth_self_training.Network.Download.{
  broadcast_blocks, with_chain, process_for_peer, process_each, on_ancestor, find_ancestor,
  after_diversion, after_blocks, take_blocks, on_blocks,
}
use goeth_self_training.Network.Handler.{
  Moment, Kind, handshake, disconnects, pings, pongs, get_peers, gives_peers, txs, blocks,
  get_blocks, not_in_chain, get_txs, other, kind_of, handle_kind, handle_message,
}
use goeth_self_training.Network.Stable.{
  Silent, Stable, if-keeps, queue_message-keeps, Second, stop_peer-keeps,
}
use goeth_self_training.Network.Stable.Lists.{broadcast_msg-keeps}
use goeth_self_training.Network.Stable.Talk.{
  not_catching_up-keeps, double_request-keeps, sync_with_peer-keeps, find_common_parent_block-keeps,
  on_handshake-keeps, on_pong-keeps, on_txs-keeps, on_get_txs-keeps, on_get_chain-keeps,
  on_not_in_chain-keeps, on_get_peers-keeps, on_peers-keeps,
}

module _ (tries : Trie) (given : Given) (keccak : List ℕ → List ℕ) (fuel depth : ℕ) where
  -- The property holds again behind `Process` and behind `FindCanonicalChainFromMsg`.
  pub record Managed (P : Ethereum → Type 0) : Type 0 where
    pub processed :
        (b : Block) (n : Ethereum) (e : Option ProcessError) (m : Manager)
        → process tries given keccak fuel false b (record n.manager { broadcast = [] }) ≡ ok (e, m)
        → P n
        → P (record n { manager = record m { broadcast = [] } })
    pub chosen :
        (content : Item) (common : List ℕ) (n : Ethereum) (ours : Bool) (bc : BlockChain)
        → choose_from_msg given.sha3 depth content common n.manager.chain ≡ ok (ours, bc)
        → P n
        → P (with_chain bc n)

  module _ (P : Ethereum → Type 0) (keeps : Stable P) where
    broadcast_blocks-keeps : (vs : List Item) (n : Ethereum) → P n → P (broadcast_blocks vs n)
    unfolding broadcast_blocks
    broadcast_blocks-keeps [] n p = p
    broadcast_blocks-keeps (v ∷ vs) n p =
        broadcast_blocks-keeps vs _ (broadcast_msg-keeps P keeps _ n p)

    module _ (managed : Managed P) where
      process_for_peer-keeps :
          (b : Block) (n : Ethereum)
          → P n
          → Holds (Second P keeps) (process_for_peer tries given keccak fuel depth b n)
      unfolding process_for_peer
      process_for_peer-keeps b n p =
          Holds-here (Second P keeps)
            (process tries given keccak fuel false b (record n.manager { broadcast = [] })) _
            λ (e, m) eq.
              Holds-intro (Second P keeps) (e, _)
                (broadcast_blocks-keeps m.broadcast _ (managed.processed b n e m eq p))

      process_each-keeps :
          (left : ℕ) (content : Item) (n : Ethereum)
          → P n
          → Holds (Second P keeps) (process_each tries given keccak fuel depth left content n)
      unfolding process_each
      process_each-keeps zero content n p = Holds-intro (Second P keeps) (none, n) p
      process_each-keeps (suc left) content n p =
          Holds-bind (Second P keeps) (block_value_decode (Value.get content left)) _ λ b.
            Holds-then (Second P keeps) (Second P keeps)
              (process_for_peer tries given keccak fuel depth b n) _ (process_for_peer-keeps b n p)
              λ (e, n') q.
                Holds-elim (Second P keeps) e _ _ (process_each-keeps left content n' q)
                  (λ wrong. Holds-intro (Second P keeps) (some wrong, n') q)

      on_ancestor-keeps :
          (content : Item) (common : List ℕ) (i : ℕ) (n : Ethereum)
          → P n
          → Holds P (on_ancestor tries given keccak fuel depth content common i n)
      unfolding on_ancestor Silent update
      on_ancestor-keeps content common i n p =
          let n' = update i (λ q. record q { diverted = false }) n in
          let q : P n' = keeps.set i (λ q. record q { diverted = false }) n (λ s. s) p in
          Holds-here P (choose_from_msg given.sha3 depth content common n'.manager.chain) _
            λ (ours, bc) eq.
              let r : P (with_chain bc n') = managed.chosen content common n' ours bc eq q in
              Holds-cases P ours _ _ (λ e. Holds-intro P _ r)
                (λ e. sync_with_peer-keeps P keeps given.sha3 i _ r)

      find_ancestor-keeps :
          (left : ℕ) (content : Item) (i : ℕ) (n : Ethereum)
          → P n
          → Holds P (find_ancestor tries given keccak fuel depth left content i n)
      unfolding find_ancestor
      find_ancestor-keeps zero content i n p = Holds-intro P n p
      find_ancestor-keeps (suc left) content i n p =
          let more = find_ancestor-keeps left content i n p in
          Holds-bind P (block_value_decode (Value.get content left)) _ λ b.
            Holds-cases P (has_block (block_hash given.sha3 b) n.manager.chain) _ _ (λ e. more)
              λ e.
                Holds-bind P (has_block_with_prev_hash depth b.head.prev_hash n.manager.chain) _
                  λ shared.
                    Holds-cases P shared _ _
                      (λ e'. on_ancestor-keeps content b.head.prev_hash i n p) (λ e'. more)

      after_diversion-keeps :
          (content : Item) (i : ℕ) (n : Ethereum)
          → P n
          → Holds (Second P keeps) (after_diversion tries given keccak fuel depth content i n)
      unfolding after_diversion
      after_diversion-keeps content i n p =
          Holds-bind (Second P keeps) (block_value_decode (Value.get content (len content - 1))) _
            λ last.
              Holds-then P (Second P keeps)
                (find_ancestor tries given keccak fuel depth (len content) content i n) _
                (find_ancestor-keeps (len content) content i n p)
                λ n' q.
                  Holds-cases (Second P keeps)
                    (has_block (block_hash given.sha3 last) n'.manager.chain) _ _
                    (λ e. Holds-intro (Second P keeps) (true, n') q)
                    λ e.
                      Holds-then P (Second P keeps)
                        (find_common_parent_block given.sha3 i
                          (not_catching_up i (double_request i n')))
                        _
                        (find_common_parent_block-keeps P keeps given.sha3 i _
                          (not_catching_up-keeps P keeps i _ (double_request-keeps P keeps i n' q)))
                        λ n'' r. Holds-intro (Second P keeps) (false, n'') r

      after_blocks-keeps :
          (content : Item) (e : Option ProcessError) (i : ℕ) (n : Ethereum)
          → P n
          → Holds P (after_blocks tries given keccak fuel depth content e i n)
      unfolding after_blocks
      after_blocks-keeps content (some parent_unknown) i n p =
          sync_with_peer-keeps P keeps given.sha3 i n p
      after_blocks-keeps content (some (validation e)) i n p =
          Holds-intro P _ (not_catching_up-keeps P keeps i n p)
      after_blocks-keeps content (some invalid_root) i n p = Holds-intro P n p
      after_blocks-keeps content none i n p =
          Holds-cases P ((n.at i).catching_up && ltb 1 (len content)) _ _
            (λ e. sync_with_peer-keeps P keeps given.sha3 i n p) (λ e. Holds-intro P n p)

      take_blocks-keeps :
          (content : Item) (i : ℕ) (n : Ethereum)
          → P n
          → Holds P (take_blocks tries given keccak fuel depth content i n)
      unfolding take_blocks
      take_blocks-keeps content i n p =
          Holds-then (Second P keeps) P
            (process_each tries given keccak fuel depth (len content) content n) _
            (process_each-keeps (len content) content n p)
            λ (e, n') q. after_blocks-keeps content e i _ (
              if-keeps P keeps (len content == 0) (not_catching_up i n') n'
                (not_catching_up-keeps P keeps i n' q) q)

      pub on_blocks-keeps :
          (content : Item) (i : ℕ) (n : Ethereum)
          → P n
          → Holds P (on_blocks tries given keccak fuel depth content i n)
      unfolding on_blocks
      on_blocks-keeps content i n p =
          Holds-then (Second P keeps) P _ _
            (Holds-cases (Second P keeps) (ltb 2 (len content) && (n.at i).diverted) _ _
              (λ e. after_diversion-keeps content i n p)
              (λ e. Holds-intro (Second P keeps) (true, n) p))
            λ (go_on, n') q.
              Holds-cases P go_on _ _ (λ e. take_blocks-keeps content i n' q)
                (λ e. Holds-intro P n' q)

    module _ (rounded : ℕ → ℕ) (net : Net) where
      handle_kind-keeps :
          (k : Kind) (m : Moment) (content : Item) (i : ℕ) (n : Ethereum)
          → (k ≡ blocks → Managed P)
          → P n
          → Holds P (handle_kind tries given keccak rounded net fuel depth k m content i n)
      unfolding handle_kind
      handle_kind-keeps handshake m content i n h p =
          on_handshake-keeps P keeps given.sha3 net content i n p
      handle_kind-keeps disconnects m content i n h p = stop_peer-keeps P keeps net i n p
      handle_kind-keeps pings m content i n h p =
          Holds-intro P _ (queue_message-keeps P keeps _ i n p)
      handle_kind-keeps pongs m content i n h p =
          Holds-intro P _ (on_pong-keeps P keeps m.now i n p)
      handle_kind-keeps blocks m content i n h p = on_blocks-keeps (h refl) content i n p
      handle_kind-keeps txs m content i n h p = on_txs-keeps P keeps content n p
      handle_kind-keeps get_peers m content i n h p = on_get_peers-keeps P keeps net m.now i n p
      handle_kind-keeps gives_peers m content i n h p =
          on_peers-keeps P keeps net m.choices content i n p
      handle_kind-keeps get_blocks m content i n h p =
          on_get_chain-keeps P keeps given rounded (len content) content i n p
      handle_kind-keeps not_in_chain m content i n h p = on_not_in_chain-keeps P keeps given i n p
      handle_kind-keeps get_txs m content i n h p = Holds-intro P _ (on_get_txs-keeps P keeps i n p)
      handle_kind-keeps other m content i n h p = Holds-intro P n p

      pub handle_message-keeps :
          (m : Moment) (msg : Msg) (i : ℕ) (n : Ethereum)
          → (kind_of msg.msg_type ≡ blocks → Managed P)
          → P n
          → Holds P (handle_message tries given keccak rounded net fuel depth m msg i n)
      unfolding handle_message
      handle_message-keeps m msg i n h p =
          handle_kind-keeps (kind_of msg.msg_type) m msg.content i n h p
