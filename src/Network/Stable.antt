-- ===== src/Network/Stable.antt =====
-- What every function of peer.go and ethereum.go keeps: a property of the node that the single moves
-- keep, which are a change of one peer, a change of the list, and a post. A peer is silent if it was
-- told nothing but handshakes before its version was known.
pub mod Lists
pub mod Talk
pub mod Handling
use goeth_self_training.Prelude.{
  ℕ, suc, ◌+◌, ◌%◌, arith, ◌^◌, ◌<◌, ◌≡◌, refl, ◌==◌, ◌&&◌, ◌||◌, not, Bool, true, false, Option,
  some, none, List, [], ◌∷◌, ◌++◌, if◌then◌else◌, length, ltb, ltb→lt, All, All-append, Bool-cases,
  inl, inr,
}
use goeth_self_training.Prelude.Int.{ℤ}
use goeth_self_training.Prelude.Result.{
  Result, ok, panic, out_of_fuel, ◌>>=◌, or_panic, Holds, Holds-intro, Holds-then, Holds-bind,
  Holds-cases, Holds-panic,
}
use goeth_self_training.Transaction.{Transaction}
use goeth_self_training.Wire.{Msg}
use goeth_self_training.Network.{
  Conn, Peer, Ethereum, Net, disc, ping, update, member, each_peer, remove_peer_element,
  remove_peer, queue_message, write_to, try_write, count_disconnect, say_goodbye, shut_down,
  stop_peer, write_message,
}
use goeth_self_training.Network.Peers.{push_peer, post_peers}

-- Only handshakes were written while the version is not known.
unfoldable pub Silent : Peer → Type 0
Silent p = p.version_known ≡ false → All (λ msg. msg.msg_type ≡ 0) p.sent

-- The moves that keep a property of the node.
pub record Stable (P : Ethereum → Type 0) : Type 0 where
  pub set :
      (i : ℕ) (f : Peer → Peer) (n : Ethereum)
      → (Silent (n.at i) → Silent (f (n.at i)))
      → P n
      → P (update i f n)
  pub drop_peer : (i : ℕ) (n : Ethereum) → P n → P (remove_peer_element i n)
  pub push : (p : Peer) (n : Ethereum) → Silent p → P n → P (push_peer p n)
  pub repost : (posts : List (List ℕ)) (n : Ethereum) → P n → P (record n { posts = posts })
  pub wait : (txs : List Transaction) (n : Ethereum) → P n → P (record n { queued = txs })

-- A peer stays silent under a message that `writeMessage` lets through.
told-Silent :
    (p : Peer) (msg : Msg)
    → p.version_known || msg.msg_type == 0 ≡ true
    → Silent p
    → Silent (record p { sent = p.sent ++ msg ∷ [] })
unfolding Silent
told-Silent p msg allowed s unknown =
    All-append (λ m. m.msg_type ≡ 0) p.sent (msg ∷ []) (s unknown)
      (let h : msg.msg_type == 0 ≡ true = (rw unknown at allowed) in ground arith, tt)

and_second : (a b : Bool) → a && b ≡ true → b ≡ true
and_second true b e = e
and_second false b e = cc

module _ (P : Ethereum → Type 0) (keeps : Stable P) where
  pub each_peer-keeps :
      (callback : ℕ → Ethereum → Ethereum) (is : List ℕ) (n : Ethereum)
      → ((i : ℕ) (m : Ethereum) → P m → P (callback i m))
      → P n
      → P (each_peer callback is n)
  unfolding each_peer
  each_peer-keeps callback [] n h p = p
  each_peer-keeps callback (i ∷ is) n h p =
      let more = each_peer-keeps callback is (callback i n) h (h i n p) in
      elim (Bool-cases (member i (callback i n).peers)) [
        | inl e ↦ rw e more
        | inr e ↦ rw e (h i n p)
      ]

  pub if-keeps : (b : Bool) (n m : Ethereum) → P n → P m → P (if b then n else m)
  if-keeps true n m p q = p
  if-keeps false n m p q = q

  pub remove_peer-keeps : (i : ℕ) (n : Ethereum) → P n → P (remove_peer i n)
  unfolding remove_peer
  remove_peer-keeps i n p =
      each_peer-keeps (λ j m. if j == i then remove_peer_element j m else m) n.peers n
        (λ j m q. if-keeps (j == i) (remove_peer_element j m) m (keeps.drop_peer j m q) q) p

  pub queue_message-keeps : (msg : Msg) (i : ℕ) (n : Ethereum) → P n → P (queue_message msg i n)
  unfolding queue_message Silent
  queue_message-keeps msg i n p =
      if-keeps ((n.at i).connected == 1) _ n
        (keeps.set i (λ q. record q { queue = q.queue ++ msg ∷ [] }) n (λ s. s) p) p

  pub count_disconnect-keeps : (i : ℕ) (n : Ethereum) → P n → P (count_disconnect i n)
  unfolding count_disconnect Silent
  count_disconnect-keeps i n p =
      keeps.set i (λ q. record q { disconnect = (q.disconnect + 1) % 2 ^ 32 }) n (λ s. s) p

  -- A property of the node in an answer that comes with it.
  abbrev pub Second {ℓ} : {A : Type ℓ} → A × Ethereum → Type 0
  Second (a, n) = P n

  module _ (net : Net) where
    write_to-keeps :
        (msg : Msg) (i : ℕ) (n : Ethereum)
        → (n.at i).version_known || msg.msg_type == 0 ≡ true
        → P n
        → Holds Second (write_to net msg i n)
    unfolding write_to Silent
    write_to-keeps msg i n allowed p = Holds-bind Second (or_panic (n.at i).conn) _ λ conn.
        elim (Bool-cases (not (n.at i).closed && net.accepts (n.at i).sent msg)) [
          | inl e ↦ rw e (
              Holds-intro Second (true, _)
                (keeps.set i (λ q. record q { sent = q.sent ++ msg ∷ [] }) n
                  (told-Silent (n.at i) msg allowed) p))
          | inr e ↦ rw e (Holds-intro Second (false, n) p)
        ]

    pub try_write-keeps :
        (msg : Msg) (i : ℕ) (n : Ethereum) → P n → Holds Second (try_write net msg i n)
    unfolding try_write
    try_write-keeps msg i n p =
        Holds-cases Second
          ((n.at i).connected == 1 && ((n.at i).version_known || msg.msg_type == 0)) _ _
          (λ e.
            write_to-keeps msg i n
              (and_second ((n.at i).connected == 1) ((n.at i).version_known || msg.msg_type == 0) e)
              p)
          (λ e. Holds-intro Second (true, n) p)

    pub say_goodbye-keeps : (i : ℕ) (n : Ethereum) → P n → Holds P (say_goodbye net i n)
    unfolding say_goodbye count_disconnect Silent
    say_goodbye-keeps i n p =
        Holds-then Second P (try_write net disc i n) _ (try_write-keeps disc i n p) λ (good, n') q.
          Holds-intro P _ (
            keeps.set i (λ q. record q { closed = true })
              (if good then n' else count_disconnect i n') (λ s. s)
              (if-keeps good n' (count_disconnect i n') q (count_disconnect-keeps i n' q)))

    pub shut_down-keeps : (i : ℕ) (n : Ethereum) → P n → Holds P (shut_down net i n)
    unfolding shut_down Silent
    shut_down-keeps i n p =
        let n' = update i (λ p. record p { quit = true }) n in
        let q = keeps.set i (λ p. record p { quit = true }) n (λ s. s) p in
        Holds-cases P (n.at i).quit _ _ (λ e. Holds-panic P)
          λ e.
            Holds-then P P (if (n.at i).connected == 0 then ok n' else say_goodbye net i n') _
              (Holds-cases P ((n.at i).connected == 0) _ _ (λ e'. Holds-intro P n' q)
                (λ e'. say_goodbye-keeps i n' q))
              (λ m r. Holds-intro P _ (remove_peer-keeps i m r))

    pub stop_peer-keeps : (i : ℕ) (n : Ethereum) → P n → Holds P (stop_peer net i n)
    unfolding stop_peer count_disconnect Silent
    stop_peer-keeps i n p =
        let n' = count_disconnect i n in
        let q : P n' = count_disconnect-keeps i n p in
        Holds-cases P ((n'.at i).disconnect == 1) _ _ (λ e. shut_down-keeps i n' q)
          (λ e. Holds-intro P n' q)

    pub write_message-keeps :
        (msg : Msg) (i : ℕ) (n : Ethereum) → P n → Holds P (write_message net msg i n)
    unfolding write_message
    write_message-keeps msg i n p =
        Holds-then Second P (try_write net msg i n) _ (try_write-keeps msg i n p) λ (good, n') q.
          Holds-cases P good _ _ (λ e. Holds-intro P n' q) (λ e. stop_peer-keeps i n' q)
