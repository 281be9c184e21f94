-- ===== src/Transaction.antt =====
-- ethchain/transaction.go: transactions and receipts, their RLP form, their hash and their sender.
-- `sha3` is the hash function and `recover` is secp256k1.RecoverPubkey, of a hash and a signature.
use goeth_self_training.Prelude.{
  ℕ, ◌+◌, ◌-◌, ◌%◌, ◌==◌, Bool, true, false, some, List, [], ◌∷◌, ◌++◌, if◌then◌else◌, length, drop,
  get_elem?,
}
use goeth_self_training.Prelude.Int.{ℤ}
use goeth_self_training.Prelude.Result.{Result, ok, panic, ◌>>=◌, or_panic}
use goeth_self_training.Item.{Item, Items, big, uint8, uint64, bytes, list, item, no_items}
use goeth_self_training.Rlp.{encode}
use goeth_self_training.Bytes
use goeth_self_training.Value
use goeth_self_training.Value.{new_value, to_big, to_uint, to_bytes}

pub record Transaction : Type 0 where
  pub nonce : ℕ
  pub recipient : List ℕ
  pub value : ℤ
  pub gas : ℤ
  pub gas_price : ℤ
  pub payload : List ℕ
  pub v : ℕ
  pub r : List ℕ
  pub s : List ℕ
  pub contract_creation : Bool

-- NewContractCreationTx and NewTransactionMessage.
unfoldable pub new_contract_creation_tx : ℤ → ℤ → ℤ → List ℕ → Transaction
new_contract_creation_tx value gas gas_price script = record {
  nonce = 0;
  recipient = [];
  value = value;
  gas = gas;
  gas_price = gas_price;
  payload = script;
  v = 0;
  r = [];
  s = [];
  contract_creation = true;
}

unfoldable pub new_transaction_message : List ℕ → ℤ → ℤ → ℤ → List ℕ → Transaction
new_transaction_message to value gas gas_price payload = record {
  nonce = 0;
  recipient = to;
  value = value;
  gas = gas;
  gas_price = gas_price;
  payload = payload;
  v = 0;
  r = [];
  s = [];
  contract_creation = false;
}

-- The six fields that are hashed, in front of `rest`.
unfoldable pub hashed_items : Transaction → Items → Items
hashed_items tx rest = item (uint64 tx.nonce) (
    item (big (some tx.gas_price)) (
      item (big (some tx.gas))
        (item (bytes tx.recipient) (item (big (some tx.value)) (item (bytes tx.payload) rest)))))

-- `RlpData`
unfoldable pub rlp_data : Transaction → Item
unfolding hashed_items
rlp_data tx =
    list (hashed_items tx (item (uint8 tx.v) (item (bytes tx.r) (item (bytes tx.s) no_items))))

-- `RlpEncode`
unfoldable pub rlp_encode : Transaction → List ℕ
unfolding rlp_data new_value
rlp_encode tx = encode (new_value (rlp_data tx))

-- `RlpValueDecode` into a transaction that was not marked as a contract creation.
unfoldable pub rlp_value_decode : Item → Result Transaction
unfolding to_uint to_big to_bytes
rlp_value_decode d = do
  gas_price ← or_panic (to_big (Value.get d 1))
  gas ← or_panic (to_big (Value.get d 2))
  value ← or_panic (to_big (Value.get d 4))
  let recipient = to_bytes (Value.get d 3)
  ok (record {
    nonce = to_uint (Value.get d 0);
    recipient = recipient;
    value = value;
    gas = gas;
    gas_price = gas_price;
    payload = to_bytes (Value.get d 5);
    v = to_uint (Value.get d 6) % 256;
    r = to_bytes (Value.get d 7);
    s = to_bytes (Value.get d 8);
    contract_creation = length recipient == 0;
  })

pub record Receipt : Type 0 where
  pub tx : Transaction
  pub post_state : List ℕ
  pub cumulative_gas_used : ℤ

-- `RlpData` and `RlpValueDecode` of a receipt.
unfoldable pub receipt_data : Receipt → Item
unfolding rlp_data
receipt_data rc = list (
    item (rlp_data rc.tx)
      (item (bytes rc.post_state) (item (big (some rc.cumulative_gas_used)) no_items)))

unfoldable pub receipt_decode : Item → Result Receipt
unfolding rlp_value_decode
receipt_decode d = do
  tx ← rlp_value_decode (Value.get d 0)
  used ← or_panic (to_big (Value.get d 2))
  ok (record { tx = tx; post_state = to_bytes (Value.get d 1); cumulative_gas_used = used })

module _ (sha3 : List ℕ → List ℕ) where
  -- `Hash`: the signature is not hashed.
  unfoldable pub hash : Transaction → List ℕ
  unfolding hashed_items
  hash tx = sha3 (encode (list (hashed_items tx no_items)))

  -- `Sign`, with `sign` for secp256k1.Sign: the signature's 65 bytes are cut up.
  unfoldable pub signed : (List ℕ → List ℕ → List ℕ) → List ℕ → Transaction → Result Transaction
  unfolding hash Bytes.slice
  signed sign key tx = do
    let sig = sign (hash tx) key
    r ← or_panic (Bytes.slice sig 0 32)
    s ← or_panic (Bytes.slice sig 32 64)
    last ← or_panic (get_elem? sig 64)
    ok (record tx { r = r; s = s; v = (last + 27) % 256 })

  module _ (recover : List ℕ → List ℕ → List ℕ) where
    -- `PublicKey`; `tx.v - 27` wraps as a byte.
    unfoldable pub public_key : Transaction → List ℕ
    unfolding hash
    public_key tx = recover (hash tx) (tx.r ++ (tx.s ++ ((tx.v + 256 - 27) % 256) ∷ []))

    -- `Sender`: nil for a key that is not in full format, a panic where there is no key.
    unfoldable pub sender : Transaction → Result (List ℕ)
    unfolding public_key
    sender tx = elim (public_key tx) [
      | [] ↦ panic
      | b ∷ rest ↦ ok (if b == 4 then drop 12 (sha3 rest) else [])
    ]

    -- `CreationAddress`
    unfoldable pub creation_address : Transaction → Result (List ℕ)
    unfolding sender
    creation_address tx = do
      from ← sender tx
      ok (drop 12 (sha3 (encode (list (item (bytes from) (item (uint64 tx.nonce) no_items))))))

-- `IsContract`, by `CreatesContract`.
unfoldable pub is_contract : Transaction → Bool
is_contract tx = tx.contract_creation

-- `NewTransactionFromBytes`
unfoldable pub new_transaction_from_bytes : List ℕ → Result Transaction
unfolding rlp_value_decode
new_transaction_from_bytes data' = do v ← Value.new_value_from_bytes data'; rlp_value_decode v
