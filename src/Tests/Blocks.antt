-- ===== src/Tests/Blocks.antt =====
-- Blocks (ethchain/block.go) at concrete inputs.
use goeth_self_training.Prelude.{
  ℕ, ◌<◌, ◌^◌, ◌≡◌, refl, inl, some, false, List, [], ◌∷◌, length, arith,
}
use goeth_self_training.Prelude.Int.{pos}
use goeth_self_training.Bytes.{be_bytes, big_bytes}
use goeth_self_training.Item.{bytes}
use goeth_self_training.Rlp.{encode, encode_big, encode_bytes, slice_header}
use goeth_self_training.Rlp.Plain.{plain, plain_bytes, Fits}
use goeth_self_training.Value.{new_value}
use goeth_self_training.Transaction.{Transaction, Receipt, receipt_data, rlp_data, hashed_items}
use goeth_self_training.Blocks.{
  Header, Block, fields, header, rlp_uncles, rlp_receipts, block_value, block_encode, digits_of,
}
use goeth_self_training.Blocks.Fields.{IsHeader, IsTransaction}
use goeth_self_training.Blocks.RoundTrip.{IsBlock}

abbrev two : List ℕ
two = 7 ∷ 9 ∷ []

abbrev pub head : Header
head = record {
  prev_hash = two;
  uncle_sha = two;
  coinbase = 200 ∷ [];
  root = bytes two;
  tx_sha = [];
  difficulty = some (pos 4096);
  number = some (pos 3);
  min_gas_price = some (pos 0);
  gas_limit = some (pos 10000);
  gas_used = some (pos 0);
  time = pos 1400000000;
  extra = 33 ∷ [];
  nonce = two;
}

abbrev tx : Transaction
tx = record {
  nonce = 5;
  recipient = two;
  value = pos 20;
  gas = pos 500;
  gas_price = pos 10;
  payload = [];
  v = 27;
  r = two;
  s = two;
  contract_creation = false;
}

abbrev pub receipt : Receipt
receipt = record { tx = tx; post_state = two; cumulative_gas_used = pos 500 }

abbrev pub block : Block
block = record { head = head; uncles = head ∷ []; transactions = tx ∷ []; receipts = receipt ∷ [] }

head-IsHeader : IsHeader head
unfolding plain plain_bytes new_value
head-IsHeader = record {
  prev_hash = tt;
  uncle_sha = tt;
  coinbase = omega arith;
  root = refl;
  tx_sha = tt;
  difficulty = (4096, refl);
  number = (3, refl);
  min_gas_price = (0, refl);
  gas_limit = (10000, refl);
  gas_used = (0, refl);
  seconds = 1400000000;
  time = refl;
  time_small = omega arith;
  nonce = tt;
}

tx-IsTransaction : IsTransaction tx
tx-IsTransaction = record {
  nonce_small = omega arith;
  nonce = inl (omega arith);
  recipient = tt;
  payload = tt;
  v_small = omega arith;
  r = tt;
  s = tt;
  value = (20, refl);
  gas = (500, refl);
  gas_price = (10, refl);
  contract_creation = refl;
}

pub block-IsBlock : IsBlock block
block-IsBlock = record {
  head = head-IsHeader;
  uncles = (head-IsHeader, tt);
  receipts = (record { tx = tx-IsTransaction; post_state = tt; used = (500, refl) }, tt);
  transactions = refl;
}

head-Fits : Fits (header head)
unfolding Fits header fields encode encode_big encode_bytes slice_header big_bytes be_bytes
head-Fits = (
  inl (omega arith),
  (
    inl (omega arith),
    (
      inl (omega arith),
      (
        inl (omega arith),
        (
          inl (omega arith),
          (
            inl (omega arith),
            (
              inl (omega arith),
              (
                inl (omega arith),
                (
                  inl (omega arith),
                  (
                    inl (omega arith),
                    (
                      inl (omega arith),
                      (inl (omega arith), (inl (omega arith), (inl (omega arith), tt))),
                    ),
                  ),
                ),
              ),
            ),
          ),
        ),
      ),
    ),
  ),
)

tx-Fits : Fits (rlp_data tx)
unfolding Fits rlp_data hashed_items encode encode_big encode_bytes slice_header big_bytes be_bytes
tx-Fits = (
  inl (omega arith),
  (
    inl (omega arith),
    (
      inl (omega arith),
      (
        inl (omega arith),
        (
          inl (omega arith),
          (
            inl (omega arith),
            (inl (omega arith), (inl (omega arith), (inl (omega arith), (inl (omega arith), tt)))),
          ),
        ),
      ),
    ),
  ),
)

pub block-Fits : Fits (block_value block)
unfolding Fits block_value rlp_uncles rlp_receipts receipt_data new_value header fields rlp_data
    hashed_items encode encode_big encode_bytes slice_header big_bytes be_bytes
block-Fits = (
  inl (omega arith),
  (
    head-Fits,
    (
      (
        inl (omega arith),
        ((inl (omega arith), (tx-Fits, (inl (omega arith), (inl (omega arith), tt)))), tt),
      ),
      ((inl (omega arith), (head-Fits, tt)), tt),
    ),
  ),
)

pub block_small : length (block_encode block) < 2 ^ 63
unfolding block_encode block_value rlp_uncles rlp_receipts receipt_data new_value header fields
    rlp_data hashed_items encode encode_big encode_bytes slice_header big_bytes be_bytes
block_small = omega arith

digits_of_105 : digits_of 106 105 [] ≡ 49 ∷ 48 ∷ 53 ∷ []
unfolding digits_of
digits_of_105 = refl
