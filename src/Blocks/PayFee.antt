-- ===== src/Blocks/PayFee.antt =====
-- `PayFee` of ethchain/block.go, on the state of the block. It prints the amount of the contract
-- before it returns false, which is a panic where there is none; the state of the contract is put
-- back by hand, without a word to the manifest.
use goeth_self_training.Prelude.{ℕ, Bool, true, false, List, if◌then◌else◌}
use goeth_self_training.Prelude.Int.{ℤ, ltb_ℤ}
use goeth_self_training.Prelude.Result.{Result, ok, ◌>>=◌, or_panic}
use goeth_self_training.Rlp.{encode}
use goeth_self_training.Trie.{Trie}
use goeth_self_training.State.{
  World, add_amount, sub_amount, object_item, root_of, from_bytes, get_state_object,
  update_state_object,
}
use goeth_self_training.State.Nested.{put_object}

module _ (tries : Trie) (sha3 : List ℕ → List ℕ) where
  -- `PayFee` to the coinbase of the block.
  unfoldable pub pay_fee : List ℕ → List ℕ → ℤ → World tries → Result (Bool × World tries)
  unfolding get_state_object sub_amount root_of object_item put_object from_bytes add_amount
      update_state_object
  pay_fee coinbase addr fee w = do
    (found, w₁) ← get_state_object tries addr w
    contract ← or_panic found
    if ltb_ℤ contract.amount fee then ok (false, w₁) else (do
      let paid = sub_amount fee contract
      r ← root_of tries w₁.heap paid.state
      let w₂ = put_object tries addr (encode (object_item sha3 paid r)) w₁
      (account, w₃) ← from_bytes tries coinbase (tries.get w₂.trie coinbase) w₂
      w₄ ← update_state_object tries sha3 (add_amount fee account) w₃
      ok (true, w₄))
