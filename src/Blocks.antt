-- ===== src/Blocks.antt =====
-- ethchain/block.go: a block, its header and its RLP form. `root` is Root of the trie of the block's
-- state; a nil *big.Int is none. Of an uncle the code keeps a Block of which it reads the header
-- alone, so it is one here. Extra is a Go string.
pub mod Fields
pub mod RoundTrip
pub mod PayFee
use goeth_self_training.Prelude.{
  ℕ, zero, suc, ◌+◌, ◌-◌, ◌/◌, ◌%◌, ◌==◌, Bool, true, false, Option, some, none, List, [], ◌∷◌,
  ◌++◌, map, list_eq, ltb, if◌then◌else◌,
}
use goeth_self_training.Prelude.Int.{ℤ, pos}
use goeth_self_training.Prelude.Result.{Result, ok, panic, out_of_fuel, ◌>>=◌, or_panic}
use goeth_self_training.Item.{Item, Items, big, sized, uint64, bytes, str, list, item, no_items}
use goeth_self_training.Rlp.{encode, to_int64}
use goeth_self_training.Value
use goeth_self_training.Value.{
  new_value, is_nil, len, big_uint64, to_uint, to_big, to_bytes, to_str, new_value_from_bytes,
}
use goeth_self_training.Trie.Ops.{RawTrie, new_trie, update_key}
use goeth_self_training.Transaction
use goeth_self_training.Transaction.{Transaction, Receipt, receipt_data, receipt_decode, rlp_encode}

pub record Header : Type 0 where
  pub prev_hash : List ℕ
  pub uncle_sha : List ℕ
  pub coinbase : List ℕ
  pub root : Item
  pub tx_sha : List ℕ
  pub difficulty : Option ℤ
  pub number : Option ℤ
  pub min_gas_price : Option ℤ
  pub gas_limit : Option ℤ
  pub gas_used : Option ℤ
  pub time : ℤ
  pub extra : List ℕ
  pub nonce : List ℕ

pub record Block : Type 0 where
  pub head : Header
  pub uncles : List Header
  pub transactions : List Transaction
  pub receipts : List Receipt

-- The fields in front of the nonce, in the order that both `header` and `HashNoNonce` list them.
unfoldable pub fields : Header → Items → Items
fields h rest = item (bytes h.prev_hash) (
    item (bytes h.uncle_sha) (
      item (bytes h.coinbase) (
        item h.root (
          item (bytes h.tx_sha) (
            item (big h.difficulty) (
              item (big h.number) (
                item (big h.min_gas_price) (
                  item (big h.gas_limit)
                    (item (big h.gas_used) (item (sized h.time) (item (str h.extra) rest)))))))))))

-- `header`
unfoldable pub header : Header → Item
unfolding fields
header h = list (fields h (item (bytes h.nonce) no_items))

-- `rlpUncles` and `rlpReceipts`
unfoldable pub rlp_uncles : List Header → Items
unfolding header
rlp_uncles [] = no_items
rlp_uncles (u ∷ us) = item (header u) (rlp_uncles us)

unfoldable pub rlp_receipts : List Receipt → Items
unfolding receipt_data
rlp_receipts [] = no_items
rlp_receipts (r ∷ rs) = item (receipt_data r) (rlp_receipts rs)

-- `Value` and `RlpEncode`
unfoldable pub block_value : Block → Item
unfolding rlp_uncles rlp_receipts
block_value b = new_value (
    list (
      item (header b.head)
        (item (list (rlp_receipts b.receipts)) (item (list (rlp_uncles b.uncles)) no_items))))

unfoldable pub block_encode : Block → List ℕ
unfolding block_value
block_encode b = encode (block_value b)

-- `NewUncleBlockFromValue`, and the header of `RlpValueDecode`: int64 of the Uint64 of the time.
unfoldable pub header_decode : Item → Result Header
unfolding to_bytes to_big to_str
header_decode v = do
  time ← or_panic (to_big (Value.get v 10))
  ok (record {
    prev_hash = to_bytes (Value.get v 0);
    uncle_sha = to_bytes (Value.get v 1);
    coinbase = to_bytes (Value.get v 2);
    root = Value.get v 3;
    tx_sha = to_bytes (Value.get v 4);
    difficulty = to_big (Value.get v 5);
    number = to_big (Value.get v 6);
    min_gas_price = to_big (Value.get v 7);
    gas_limit = to_big (Value.get v 8);
    gas_used = to_big (Value.get v 9);
    time = to_int64 (big_uint64 time);
    extra = to_str (Value.get v 11);
    nonce = to_bytes (Value.get v 12);
  })

-- `for i := 0; i < v.Len(); i++`: the items from `i` on, `left` of them, each decoded.
unfoldable pub decode_each {ℓ} : {A : Type ℓ} → (Item → Result A) → ℕ → ℕ → Item → Result (List A)
decode_each one zero i v = ok []
decode_each one (suc left) i v = do
  a ← one (Value.get v i)
  rest ← decode_each one left (suc i) v
  ok (a ∷ rest)

-- The list under an index, unless it is nil.
unfoldable pub decode_list {ℓ} : {A : Type ℓ} → (Item → Result A) → Item → Result (List A)
unfolding decode_each is_nil len
decode_list one v = if is_nil v then ok [] else decode_each one (len v) 0 v

-- `RlpValueDecode` into a new block, and `RlpDecode`.
unfoldable pub block_value_decode : Item → Result Block
unfolding header_decode decode_list receipt_decode
block_value_decode d = do
  head ← header_decode (Value.get d 0)
  receipts ← decode_list receipt_decode (Value.get d 1)
  uncles ← decode_list header_decode (Value.get d 2)
  ok (record {
    head = head;
    uncles = uncles;
    transactions = map (λ r. r.tx) receipts;
    receipts = receipts;
  })

unfoldable pub block_decode : List ℕ → Result Block
unfolding block_value_decode
block_decode data' = new_value_from_bytes data' >>= λ d. block_value_decode d

-- `BlockInfo`
pub record BlockInfo : Type 0 where
  pub number : ℕ
  pub id : List ℕ
  pub parent : List ℕ

unfoldable pub info_encode : BlockInfo → List ℕ
info_encode bi =
    encode (list (item (uint64 bi.number) (item (bytes bi.id) (item (bytes bi.parent) no_items))))

unfoldable pub info_decode : List ℕ → Result BlockInfo
unfolding to_uint to_bytes
info_decode data' = do
  d ← new_value_from_bytes data'
  ok (record {
    number = to_uint (Value.get d 0);
    id = to_bytes (Value.get d 1);
    parent = to_bytes (Value.get d 2);
  })

-- strconv.Itoa of a number that is not negative; a number has no more digits than it counts.
unfoldable pub digits_of : ℕ → ℕ → List ℕ → List ℕ
digits_of zero n more = more
digits_of (suc fuel) n more =
    let longer = digits_of fuel (n / 10) ((48 + n % 10) ∷ more) in
    if ltb n 10 then (48 + n) ∷ more else longer

module _ (sha3 : List ℕ → List ℕ) where
  -- `Hash` and `HashNoNonce`
  unfoldable pub block_hash : Block → List ℕ
  unfolding block_value
  block_hash b = sha3 (encode (block_value b))

  unfoldable pub hash_no_nonce : Block → List ℕ
  unfolding fields
  hash_no_nonce b = sha3 (encode (list (fields b.head no_items)))

  -- `SetUncles`
  unfoldable pub set_uncles : List Header → Block → Block
  unfolding rlp_uncles
  set_uncles uncles b = record b {
    uncles = uncles;
    head = record b.head { uncle_sha = sha3 (encode (list (rlp_uncles uncles))) };
  }

  -- `CreateBlock` at the time `now`; Number stays nil.
  unfoldable pub create_block :
      ℤ → List ℕ → Item → List ℕ → List ℕ → Option ℤ → List ℕ → List ℕ → Block
  unfolding set_uncles
  create_block now empty_sha_list root prev_hash base difficulty nonce extra =
      set_uncles [] (record {
        head = record {
          prev_hash = prev_hash;
          uncle_sha = empty_sha_list;
          coinbase = base;
          root = root;
          tx_sha = [];
          difficulty = difficulty;
          number = none;
          min_gas_price = some (pos 0);
          gas_limit = some (pos 0);
          gas_used = some (pos 0);
          time = now;
          extra = extra;
          nonce = nonce;
        };
        uncles = [];
        transactions = [];
        receipts = [];
      })

  -- `GetTransaction`
  unfoldable pub find_receipt : List ℕ → List Receipt → Option Transaction
  unfolding Transaction.hash
  find_receipt id [] = none
  find_receipt id (r ∷ rs) =
      let later = find_receipt id rs in
      if list_eq (Transaction.hash sha3 r.tx) id then some r.tx else later

  unfoldable pub get_transaction : List ℕ → Block → Option Transaction
  unfolding find_receipt
  get_transaction id b = find_receipt id b.receipts

  module _ (beyond : List ℕ → List ℕ) where
    -- The loop of `setTransactions`.
    unfoldable pub put_transactions : ℕ → List Transaction → RawTrie → Result RawTrie
    unfolding digits_of update_key rlp_encode
    put_transactions i [] t = ok t
    put_transactions i (tx ∷ txs) t =
        update_key sha3 beyond (digits_of (suc i) i []) (rlp_encode tx) t >>= λ t'.
        put_transactions (suc i) txs t'

    -- The root's dynamic type.
    unfoldable pub root_bytes : Item → Result (List ℕ)
    root_bytes (str s) = ok s
    root_bytes (bytes s) = ok s
    root_bytes v = panic

    unfoldable pub set_transactions : (List ℕ → List ℕ) → List Transaction → Block → Result Block
    unfolding put_transactions root_bytes new_trie
    set_transactions db txs b = do
      t ← put_transactions 0 txs (new_trie db (str []))
      sha ← root_bytes t.root
      ok (record b { transactions = txs; head = record b.head { tx_sha = sha } })

    -- `SetReceipts`
    unfoldable pub set_receipts :
        (List ℕ → List ℕ) → List Receipt → List Transaction → Block → Result Block
    unfolding set_transactions
    set_receipts db receipts txs b = set_transactions db txs (record b { receipts = receipts })
