-- ===== src/Network/Answers.antt =====
-- What a peer gets that asks for blocks (the case MsgGetChainTy of `HandleInbound` in peer.go, with
-- `GetChainFromHash` of ethchain/block_chain.go).
use goeth_self_training.Prelude.{
  subst, ◌<◌, false, Bool, Option, some, none, ℕ, zero, suc, ◌+◌, ◌-◌, ◌^◌, ◌≡◌, ◌≤◌, ◌==◌, ◌&&◌,
  refl, ap, arith, true, not, List, [], ◌∷◌, ◌++◌, inl, inr, if◌then◌else◌, length, list_eq, leb,
  ltb, Bool-cases,
}
use goeth_self_training.Prelude.Result.{
  ok, ◌>>=◌, or_panic, Holds, Holds-intro, Holds-then, Holds-bind, Holds-cases, Holds-ok, Holds-map,
}
use goeth_self_training.Bytes.{u64}
use goeth_self_training.Item.{Item, list, item, no_items, from_list}
use goeth_self_training.Value
use goeth_self_training.Value.{len, big_uint64, to_bytes, new_value}
use goeth_self_training.Blocks.{Block, block_hash, block_decode}
use goeth_self_training.Database
use goeth_self_training.Chain.Store.{BlockChain, has_block, get_block, block_of}
use goeth_self_training.Chain.Store.Search.{block_at, go_back, collect_values, get_chain_from_hash}
use goeth_self_training.StateManager.Apply.{Given}
use goeth_self_training.Wire.{Msg}
use goeth_self_training.Network.{Ethereum, new_message, update, queue_message}
use goeth_self_training.Network.Handler.{first_known, send_chain, on_get_chain}

collect_values-length :
    (n : ℕ) (hash : List ℕ) (parent : ℕ) (current : List ℕ) (num : ℕ) (bc : BlockChain)
    → Holds (λ vs. length vs ≤ n) (collect_values n hash parent current num bc)
unfolding collect_values
collect_values-length zero hash parent current num bc =
    Holds-intro (λ vs. length vs ≤ zero) [] (omega arith)
collect_values-length (suc n) hash parent current num bc =
    let Short : List Item → Type 0 = (λ vs. length vs ≤ suc n) in
    Holds-cases Short (not (list_eq current hash) && leb parent num) _ _
      (λ e. Holds-bind Short (block_at current bc) _ λ b.
        Holds-then (λ vs. length vs ≤ n) Short
          (collect_values n hash parent b.head.prev_hash (u64 (num + 2 ^ 64 - 1)) bc) _
          (collect_values-length n hash parent b.head.prev_hash (u64 (num + 2 ^ 64 - 1)) bc)
          λ more h. Holds-intro Short _ (omega (arith, h)))
      (λ e. Holds-intro Short [] (omega arith))

least : (a b : ℕ) → (if ltb a b then a else b) ≤ a
least a b = ground arith

get_chain_from_hash-length :
    (sha3 : List ℕ → List ℕ) (rounded : ℕ → ℕ) (hash : List ℕ) (max : ℕ) (bc : BlockChain)
    → Holds (λ vs. length vs ≤ rounded max) (get_chain_from_hash sha3 rounded hash max bc)
unfolding get_chain_from_hash
get_chain_from_hash-length sha3 rounded hash max bc =
    let Short : List Item → Type 0 = (λ vs. length vs ≤ rounded max) in
    Holds-bind Short (or_panic bc.current) _ λ last.
      Holds-bind Short (or_panic last.head.number) _ λ last_number.
        Holds-bind Short (block_at hash bc) _ λ parent.
          Holds-bind Short (or_panic parent.head.number) _ λ parent_number.
            let last' = big_uint64 last_number in
            let first = big_uint64 parent_number in
            let between = rounded (u64 (last' + 2 ^ 64 - first)) in
            let count = if ltb (rounded max) between then rounded max else between in
            let start = u64 (first + count) in
            let num = if ltb start last' then start else last' in
            Holds-bind Short (go_back (last' - start) (block_hash sha3 last) bc) _ λ current.
              Holds-map (λ vs. length vs ≤ count) Short
                (collect_values count hash first current num bc)
                (λ vs h. omega (arith, h, least (rounded max) between))
                (collect_values-length count hash first current num bc)

len-from_list : (vs : List Item) → len (list (from_list vs)) ≡ length vs
unfolding len
len-from_list [] = refl
len-from_list (v ∷ vs) = ap suc (len-from_list vs)

-- Whether the chain has a block under the item of the content at an index.
abbrev pub is_known : BlockChain → Item → ℕ → Bool
is_known bc content j = has_block (to_bytes (Value.get content j)) bc

-- At most 100 blocks, where one of the first `k` items names a block of the chain; or, where none of
-- them does, the last of them alone, in a message that there is no such block.
pub data IsAnswer (bc : BlockChain) (content : Item) (k : ℕ) (msg : Msg) : Type 0 where
  has_blocks :
      (j : ℕ)
      → j < k
      → is_known bc content j ≡ true
      → msg.msg_type ≡ 19
      → len msg.content ≤ 100
      → IsAnswer bc content k msg
  has_none :
      ((j : ℕ) → j < k → is_known bc content j ≡ false)
      → msg.msg_type ≡ 21
      → msg.content ≡ list (item (Value.get content (k - 1)) no_items)
      → IsAnswer bc content k msg

-- The queue is as it was, or has one answer more.
pub data Queued (bc : BlockChain) (content : Item) (k : ℕ) (queue : List Msg)
    : List Msg → Type 0 where
  nothing : Queued bc content k queue queue
  answer : (msg : Msg) → IsAnswer bc content k msg → Queued bc content k queue (queue ++ msg ∷ [])

-- What `first_known` says of the items from `k` on.
abbrev Searched : BlockChain → Item → ℕ → ℕ → Option Block → Type 0
Searched bc content k left none = (j : ℕ) → k ≤ j → j < k + left → is_known bc content j ≡ false
Searched bc content k left (some b) = (j : ℕ) × (j < k + left) × (is_known bc content j ≡ true)

known_bytes :
    (bc : BlockChain) (id : List ℕ)
    → has_block id bc ≡ true
    → not (length (Database.get id bc.db) == 0) ≡ true
unfolding has_block
known_bytes bc id e = e

found-Searched :
    (bc : BlockChain) (content : Item) (k left : ℕ) (data' : List ℕ)
    → not (length data' == 0) ≡ true
    → is_known bc content k ≡ true
    → Holds (Searched bc content k (suc left)) (block_of data')
found-Searched bc content k left [] e known = absurd (ground (arith, e))
found-Searched bc content k left (x ∷ data') e known =
    Holds-bind (Searched bc content k (suc left)) (block_decode (x ∷ data')) _
      λ b. Holds-intro (Searched bc content k (suc left)) (some b) (k, omega arith, known)

wider_Searched :
    (bc : BlockChain) (content : Item) (k left : ℕ) (o : Option Block)
    → is_known bc content k ≡ false
    → Searched bc content (suc k) left o
    → Searched bc content k (suc left) o
wider_Searched bc content k left (some b) e (j, h, known) = (j, omega (arith, h), known)
wider_Searched bc content k left none e s = λ j h h'. elim (Bool-cases (j == k)) [
  | inl same ↦ let at_k : k ≡ j = ground arith in subst (λ i. is_known bc content i ≡ false) at_k e
  | inr other ↦ s j (ground arith) (omega (arith, h'))
]

first_known-Searched :
    (bc : BlockChain) (content : Item) (left k : ℕ)
    → Holds (Searched bc content k left) (first_known left k content bc)
unfolding first_known get_block
first_known-Searched bc content zero k =
    Holds-intro (Searched bc content k zero) none (λ j h h'. absurd (omega (arith, h, h')))
first_known-Searched bc content (suc left) k =
    Holds-cases (Searched bc content k (suc left)) (is_known bc content k) _ _
      (λ e.
        found-Searched bc content k left (Database.get (to_bytes (Value.get content k)) bc.db)
          (known_bytes bc (to_bytes (Value.get content k)) e) e)
      (λ e.
        Holds-map (Searched bc content (suc k) left) (Searched bc content k (suc left)) _
          (λ o s. wider_Searched bc content k left o e s)
          (first_known-Searched bc content left (suc k)))

queue_message-Queued :
    (bc : BlockChain) (content : Item) (k : ℕ) (msg : Msg) (i : ℕ) (n : Ethereum)
    → IsAnswer bc content k msg
    → Queued bc content k (n.at i).queue ((queue_message msg i n).at i).queue
unfolding queue_message update
queue_message-Queued bc content k msg i n a = elim (Bool-cases ((n.at i).connected == 1)) [
  | inl e ↦ let same : i == i ≡ true = ground arith in rw (e, same) (answer msg a)
  | inr e ↦ rw e nothing
]

module _ (given : Given) (rounded : ℕ → ℕ) (exact : rounded 100 ≡ 100) where
  abbrev Answered : ℕ → Item → ℕ → Ethereum → Ethereum → Type 0
  Answered k content i n m = Queued n.manager.chain content k (n.at i).queue (m.at i).queue

  answer_to :
      (k : ℕ) (content : Item) (i : ℕ) (n : Ethereum) (parent : Option Block)
      → Searched n.manager.chain content 0 k parent
      → Holds (Answered k content i n) (elim parent [
        | some b ↦
            get_chain_from_hash given.sha3 rounded (block_hash given.sha3 b) 100 n.manager.chain
            >>= λ chain. ok (queue_message (new_message 19 (list (from_list chain))) i n)
        | none ↦
            ok (
              queue_message (new_message 21 (list (item (Value.get content (k - 1)) no_items))) i n)
      ])
  unfolding new_message new_value
  answer_to k content i n none s = Holds-intro (Answered k content i n) _ (
      queue_message-Queued n.manager.chain content k _ i n
        (has_none (λ j h. s j (omega arith) (omega (arith, h))) refl refl))
  answer_to k content i n (some b) (j, h, known) =
      Holds-then (λ vs. length vs ≤ rounded 100) (Answered k content i n)
        (get_chain_from_hash given.sha3 rounded (block_hash given.sha3 b) 100 n.manager.chain) _
        (get_chain_from_hash-length given.sha3 rounded (block_hash given.sha3 b) 100
          n.manager.chain)
        λ vs few. Holds-intro (Answered k content i n) _ (
          queue_message-Queued n.manager.chain content k _ i n (
            has_blocks j (omega (arith, h)) known refl
              (omega (arith, few, exact, len-from_list vs))))

  send_chain-Answered :
      (k : ℕ) (content : Item) (i : ℕ) (n : Ethereum)
      → Holds (Answered k content i n) (send_chain given rounded k content i n)
  unfolding send_chain
  send_chain-Answered k content i n =
      Holds-then (Searched n.manager.chain content 0 k) (Answered k content i n)
        (first_known k 0 content n.manager.chain) _
        (first_known-Searched n.manager.chain content k 0)
        λ parent s. answer_to k content i n parent s

  -- Where the case of a peer that asks for blocks does not panic, for a content of `k` items, and
  -- 100 is exact as a float64: the peer's queue is as it was, or has one message more. That has at most
  -- 100 blocks, if one of the items but the last names a block of the chain; if none does, it is the
  -- last of them alone, as a hash that is not in the chain.
  pub on_get_chain-Queued :
      (k : ℕ) (content : Item) (i : ℕ) (n n' : Ethereum)
      → on_get_chain given rounded k content i n ≡ ok n'
      → Queued n.manager.chain content (k - 1) (n.at i).queue (n'.at i).queue
  unfolding on_get_chain
  on_get_chain-Queued zero content i n n' e =
      Holds-ok (Answered 0 content i n) _ (Holds-intro (Answered 0 content i n) n nothing) e
  on_get_chain-Queued (suc zero) content i n n' e =
      Holds-ok (Answered 0 content i n) _ (Holds-intro (Answered 0 content i n) n nothing) e
  on_get_chain-Queued (suc (suc k)) content i n n' e =
      let behind : suc (suc k) - 1 ≡ suc k = omega arith in
      rw behind
        (Holds-ok (Answered (suc k) content i n) _ (send_chain-Answered (suc k) content i n) e)
