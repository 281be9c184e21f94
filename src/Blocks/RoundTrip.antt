-- ===== src/Blocks/RoundTrip.antt =====
-- `RlpEncode` and `RlpDecode` of a block (ethchain/block.go).
use goeth_self_training.Prelude.{
  ℕ, zero, suc, ◌^◌, ◌<◌, ◌≡◌, ◌∙◌, refl, ap, sym, List, [], ◌∷◌, map, length, All,
}
use goeth_self_training.Prelude.Result.{Result, ok, ◌>>=◌}
use goeth_self_training.Item.{Item, Items, list, item, no_items, length_items}
use goeth_self_training.Rlp.Plain.{plain, plain_items, Fits}
use goeth_self_training.Value
use goeth_self_training.Value.{new_value, is_nil, len, new_value_from_bytes}
use goeth_self_training.Value.Numbers.{stored, new_value_from_bytes-encode}
use goeth_self_training.Transaction.{Receipt, receipt_data, receipt_decode}
use goeth_self_training.Blocks.{
  Header, Block, header, rlp_uncles, rlp_receipts, block_value, block_encode, header_decode,
  decode_each, decode_list, block_value_decode, block_decode,
}
use goeth_self_training.Blocks.Fields.{
  IsHeader, IsReceipt, header_decode-header, receipt_decode-receipt_data,
}

abbrev items_of {ℓ} : {A : Type ℓ} → (A → Item) → List A → Items
items_of f [] = no_items
items_of f (a ∷ rest) = item (f a) (items_of f rest)

decode_each-suc {ℓ} :
    {A : Type ℓ} (one : Item → Result A) (n i : ℕ) (v : Item) (vs : Items)
    → decode_each one n (suc i) (list (item v vs)) ≡ decode_each one n i (list vs)
unfolding decode_each Value.get
decode_each-suc one zero i v vs = refl
decode_each-suc one (suc n) i v vs = rw (decode_each-suc one n (suc i) v vs) refl

-- A list of what is decoded one by one.
module _ {ℓ} {A : Type ℓ} (P : A → Type 0) (f : A → Item) (one : Item → Result A)
    (one-f : (a : A) → P a → one (stored (f a)) ≡ ok a) where
  decode_each-items :
      (rest : List A)
      → All P rest
      → decode_each one (length rest) 0 (list (plain_items (items_of f rest))) ≡ ok rest
  unfolding decode_each Value.get plain
  decode_each-items [] all = refl
  decode_each-items (a ∷ rest) all =
      rw
        (
          one-f a all.0,
          decode_each-suc one (length rest) 0 (plain (f a)) (plain_items (items_of f rest)),
          decode_each-items rest all.1,
        )
        refl

  length-items_of : (rest : List A) → length_items (plain_items (items_of f rest)) ≡ length rest
  unfolding plain
  length-items_of [] = refl
  length-items_of (a ∷ rest) = ap (λ n. suc n) (length-items_of rest)

  decode_list-items :
      (rest : List A) → All P rest → decode_list one (stored (list (items_of f rest))) ≡ ok rest
  unfolding decode_list is_nil len plain new_value
  decode_list-items rest all = rw length-items_of (decode_each-items rest all)

items_of-header : (us : List Header) → rlp_uncles us ≡ items_of header us
unfolding rlp_uncles
items_of-header [] = refl
items_of-header (u ∷ us) = ap (λ vs. item (header u) vs) (items_of-header us)

items_of-receipt_data : (rs : List Receipt) → rlp_receipts rs ≡ items_of receipt_data rs
unfolding rlp_receipts
items_of-receipt_data [] = refl
items_of-receipt_data (r ∷ rs) = ap (λ vs. item (receipt_data r) vs) (items_of-receipt_data rs)

-- A block whose fields come back: its transactions are those of its receipts.
pub record IsBlock (b : Block) : Type 0 where
  pub head : IsHeader b.head
  pub uncles : All IsHeader b.uncles
  pub receipts : All IsReceipt b.receipts
  pub transactions : b.transactions ≡ map (λ r. r.tx) b.receipts

block_value_decode-parts :
    (b : Block)
    → block_value_decode (stored (block_value b)) ≡ (
        header_decode (stored (header b.head)) >>= λ head.
        decode_list receipt_decode (stored (list (rlp_receipts b.receipts))) >>= λ receipts.
        decode_list header_decode (stored (list (rlp_uncles b.uncles))) >>= λ uncles. ok (record {
          head = head;
          uncles = uncles;
          transactions = map (λ r. r.tx) receipts;
          receipts = receipts;
        }))
unfolding block_value_decode block_value plain new_value Value.get header
block_value_decode-parts b = refl

block_value_decode-block_value :
    (b : Block) → IsBlock b → block_value_decode (stored (block_value b)) ≡ ok b
block_value_decode-block_value b is =
    block_value_decode-parts b
    ∙ rw
        (
          items_of-receipt_data b.receipts,
          items_of-header b.uncles,
          header_decode-header b.head is.head,
          decode_list-items IsReceipt receipt_data receipt_decode receipt_decode-receipt_data
              b.receipts is.receipts,
          decode_list-items IsHeader header header_decode header_decode-header b.uncles is.uncles,
          sym is.transactions,
        )
        refl

pub block_decode-block_encode :
    (b : Block)
    → IsBlock b
    → Fits (block_value b)
    → length (block_encode b) < 2 ^ 63
    → block_decode (block_encode b) ≡ ok b
unfolding block_decode block_encode
block_decode-block_encode b is fits small =
    rw (new_value_from_bytes-encode (block_value b) fits small)
      (block_value_decode-block_value b is)
