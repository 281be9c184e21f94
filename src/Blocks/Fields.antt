-- ===== src/Blocks/Fields.antt =====
-- The fields of a header and of a transaction (ethchain/block.go, transaction.go) as they come back
-- from their RLP form, before the code is cut into items.
use goeth_self_training.Prelude.{
  inl, ℕ, ◌%◌, ◌^◌, ◌<◌, ◌≤◌, ◌≡◌, ◌==◌, ◌∙◌, refl, ap, sym, Option, some, List, [], ◌∷◌, length,
  arith,
}
use goeth_self_training.Prelude.Int.{ℤ, pos}
use goeth_self_training.Prelude.Result.{ok, ◌>>=◌, or_panic}
use goeth_self_training.Bytes.BigEndian.{IsReadable, read_varint-be_bytes}
use goeth_self_training.Item.{big, sized, uint8, uint64, bytes, str}
use goeth_self_training.Rlp.{to_int64}
use goeth_self_training.Rlp.Plain.{plain, plain_bytes}
use goeth_self_training.Value
use goeth_self_training.Value.{
  new_value, is_nil, len, big_uint64, to_uint, to_big, to_bytes, to_str,
}
use goeth_self_training.Value.Numbers.{stored, to_big-stored, to_uint-stored}
use goeth_self_training.Transaction.{
  Transaction, Receipt, hashed_items, rlp_data, rlp_value_decode, receipt_data, receipt_decode,
}
use goeth_self_training.Blocks.{Header, fields, header, header_decode}

-- Byte strings that come back: a lone byte up to 0x7f is decoded as a number, which Bytes() of a
-- Value does not read.
abbrev pub IsText : List ℕ → Type 0
IsText [] = Unit
IsText (b ∷ []) = 0x80 ≤ b
IsText (b ∷ c ∷ t) = Unit

to_bytes-stored : (t : List ℕ) → IsText t → to_bytes (stored (bytes t)) ≡ t
unfolding to_bytes new_value plain plain_bytes
to_bytes-stored [] h = refl
to_bytes-stored (b ∷ []) h = ground (arith, h)
to_bytes-stored (b ∷ c ∷ t) h = refl

to_str-stored : (t : List ℕ) → to_str (stored (str t)) ≡ t
unfolding to_str new_value plain plain_bytes
to_str-stored [] = refl
to_str-stored (b ∷ []) = ground arith
to_str-stored (b ∷ c ∷ t) = refl

-- A *big.Int that is there and not negative.
abbrev pub IsNumber : Option ℤ → Type 0
IsNumber o = (n : ℕ) × (o ≡ some (pos n))

to_big-stored_number : (o : Option ℤ) → IsNumber o → to_big (stored (big o)) ≡ o
to_big-stored_number o (n, e) = rw e (to_big-stored n)

to_big-stored_time : (n : ℕ) → to_big (stored (sized (pos n))) ≡ some (pos n)
to_big-stored_time n = unfold plain in to_big-stored n

time_kept : (n : ℕ) → n < 2 ^ 63 → to_int64 (big_uint64 (pos n)) ≡ pos n
time_kept n h = ground (arith, h)

pub record IsHeader (h : Header) : Type 0 where
  pub prev_hash : IsText h.prev_hash
  pub uncle_sha : IsText h.uncle_sha
  pub coinbase : IsText h.coinbase
  pub root : stored h.root ≡ h.root
  pub tx_sha : IsText h.tx_sha
  pub difficulty : IsNumber h.difficulty
  pub number : IsNumber h.number
  pub min_gas_price : IsNumber h.min_gas_price
  pub gas_limit : IsNumber h.gas_limit
  pub gas_used : IsNumber h.gas_used
  pub seconds : ℕ
  pub time : h.time ≡ pos seconds
  pub time_small : seconds < 2 ^ 63
  pub nonce : IsText h.nonce

-- The decoded header, field by field.
abbrev fields_of : Header → ℤ → Header
fields_of h time = record {
  prev_hash = to_bytes (stored (bytes h.prev_hash));
  uncle_sha = to_bytes (stored (bytes h.uncle_sha));
  coinbase = to_bytes (stored (bytes h.coinbase));
  root = stored h.root;
  tx_sha = to_bytes (stored (bytes h.tx_sha));
  difficulty = to_big (stored (big h.difficulty));
  number = to_big (stored (big h.number));
  min_gas_price = to_big (stored (big h.min_gas_price));
  gas_limit = to_big (stored (big h.gas_limit));
  gas_used = to_big (stored (big h.gas_used));
  time = to_int64 (big_uint64 time);
  extra = to_str (stored (str h.extra));
  nonce = to_bytes (stored (bytes h.nonce));
}

header_decode-fields :
    (h : Header)
    → header_decode (stored (header h))
      ≡ (or_panic (to_big (stored (sized h.time))) >>= λ time. ok (fields_of h time))
unfolding header_decode header fields plain new_value Value.get
header_decode-fields h = refl

fields_of-kept : (h : Header) → IsHeader h → fields_of h h.time ≡ h
fields_of-kept h is =
    rw
      (
        to_bytes-stored h.prev_hash is.prev_hash,
        to_bytes-stored h.uncle_sha is.uncle_sha,
        to_bytes-stored h.coinbase is.coinbase,
        is.root,
        to_bytes-stored h.tx_sha is.tx_sha,
        to_big-stored_number h.difficulty is.difficulty,
        to_big-stored_number h.number is.number,
        to_big-stored_number h.min_gas_price is.min_gas_price,
        to_big-stored_number h.gas_limit is.gas_limit,
        to_big-stored_number h.gas_used is.gas_used,
        is.time,
        time_kept is.seconds is.time_small,
        to_str-stored h.extra,
        to_bytes-stored h.nonce is.nonce,
      )
      refl

time_read : (h : Header) → IsHeader h → or_panic (to_big (stored (sized h.time))) ≡ ok h.time
time_read h is = rw is.time (rw (to_big-stored_time is.seconds) refl)

pub header_decode-header : (h : Header) → IsHeader h → header_decode (stored (header h)) ≡ ok h
header_decode-header h is =
    header_decode-fields h
    ∙ ap (λ r. r >>= λ time. ok (fields_of h time)) (time_read h is)
    ∙ ap ok (fields_of-kept h is)

-- A transaction whose fields come back.
pub record IsTransaction (tx : Transaction) : Type 0 where
  pub nonce_small : tx.nonce < 2 ^ 63
  pub nonce : IsReadable tx.nonce
  pub recipient : IsText tx.recipient
  pub payload : IsText tx.payload
  pub v_small : tx.v < 256
  pub r : IsText tx.r
  pub s : IsText tx.s
  pub value : (n : ℕ) × (tx.value ≡ pos n)
  pub gas : (n : ℕ) × (tx.gas ≡ pos n)
  pub gas_price : (n : ℕ) × (tx.gas_price ≡ pos n)
  pub contract_creation : tx.contract_creation ≡ (length tx.recipient == 0)

number_read : (z : ℤ) → ((n : ℕ) × (z ≡ pos n)) → or_panic (to_big (stored (big (some z)))) ≡ ok z
number_read z (n, e) = rw e (rw (to_big-stored n) refl)

pub v_kept : (n : ℕ) → n < 256 → to_uint (stored (uint8 n)) % 256 ≡ n
v_kept n h =
    unfold plain in
    rw (to_uint-stored n (omega arith))
      (rw (read_varint-be_bytes n (inl (omega arith))) (omega arith))

abbrev fields_of_tx : Transaction → ℤ → ℤ → ℤ → Transaction
fields_of_tx tx gas_price gas value = record {
  nonce = to_uint (stored (uint64 tx.nonce));
  recipient = to_bytes (stored (bytes tx.recipient));
  value = value;
  gas = gas;
  gas_price = gas_price;
  payload = to_bytes (stored (bytes tx.payload));
  v = to_uint (stored (uint8 tx.v)) % 256;
  r = to_bytes (stored (bytes tx.r));
  s = to_bytes (stored (bytes tx.s));
  contract_creation = length (to_bytes (stored (bytes tx.recipient))) == 0;
}

rlp_value_decode-fields :
    (tx : Transaction)
    → rlp_value_decode (stored (rlp_data tx)) ≡ (
        or_panic (to_big (stored (big (some tx.gas_price)))) >>= λ gas_price.
        or_panic (to_big (stored (big (some tx.gas)))) >>= λ gas.
        or_panic (to_big (stored (big (some tx.value)))) >>= λ value.
        ok (fields_of_tx tx gas_price gas value))
unfolding rlp_value_decode rlp_data hashed_items plain new_value Value.get
rlp_value_decode-fields tx = refl

fields_of_tx-kept :
    (tx : Transaction) → IsTransaction tx → fields_of_tx tx tx.gas_price tx.gas tx.value ≡ tx
fields_of_tx-kept tx is =
    rw
      (
        to_uint-stored tx.nonce is.nonce_small,
        read_varint-be_bytes tx.nonce is.nonce,
        to_bytes-stored tx.recipient is.recipient,
        to_bytes-stored tx.payload is.payload,
        v_kept tx.v is.v_small,
        to_bytes-stored tx.r is.r,
        to_bytes-stored tx.s is.s,
        sym is.contract_creation,
      )
      refl

pub rlp_value_decode-rlp_data :
    (tx : Transaction) → IsTransaction tx → rlp_value_decode (stored (rlp_data tx)) ≡ ok tx
rlp_value_decode-rlp_data tx is =
    rlp_value_decode-fields tx
    ∙ rw
        (
          number_read tx.gas_price is.gas_price,
          number_read tx.gas is.gas,
          number_read tx.value is.value,
        )
        (ap ok (fields_of_tx-kept tx is))

pub record IsReceipt (rc : Receipt) : Type 0 where
  pub tx : IsTransaction rc.tx
  pub post_state : IsText rc.post_state
  pub used : (n : ℕ) × (rc.cumulative_gas_used ≡ pos n)

receipt_decode-fields :
    (rc : Receipt)
    → receipt_decode (stored (receipt_data rc)) ≡ (
        rlp_value_decode (stored (rlp_data rc.tx)) >>= λ tx.
        or_panic (to_big (stored (big (some rc.cumulative_gas_used)))) >>= λ used. ok (record {
          tx = tx;
          post_state = to_bytes (stored (bytes rc.post_state));
          cumulative_gas_used = used;
        }))
unfolding receipt_decode receipt_data plain new_value Value.get rlp_data
receipt_decode-fields rc = refl

pub receipt_decode-receipt_data :
    (rc : Receipt) → IsReceipt rc → receipt_decode (stored (receipt_data rc)) ≡ ok rc
receipt_decode-receipt_data rc is =
    receipt_decode-fields rc
    ∙ rw
        (
          rlp_value_decode-rlp_data rc.tx is.tx,
          number_read rc.cumulative_gas_used is.used,
          to_bytes-stored rc.post_state is.post_state,
        )
        refl
