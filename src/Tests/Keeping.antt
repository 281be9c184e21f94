-- ===== src/Tests/Keeping.antt =====
-- A payment to oneself in the nodes of a trie (ethchain/transaction_pool.go, ethutil/trie.go) at
-- concrete inputs.
use goeth_self_training.Prelude.{ℕ, ◌+◌, ◌≡◌, refl, arith, true, false, List, []}
use goeth_self_training.Prelude.Int.{nat_abs, ltb_ℤ, pos, ◌+ℤ◌, ◌-ℤ◌, ◌*ℤ◌}
use goeth_self_training.Prelude.Result.{ok}
use goeth_self_training.Bytes.{IsByte, be_bytes, big_bytes}
use goeth_self_training.Item.{str}
use goeth_self_training.Compact.{compact_encode, compact_decode}
use goeth_self_training.Rlp.{encode, encode_bytes, encode_big, slice_header, decode_from}
use goeth_self_training.Rlp.RoundTrip.{length-encode_pos}
use goeth_self_training.Value
use goeth_self_training.Value.{new_value_from_bytes, to_big}
use goeth_self_training.Trie.Ops.{new_trie, get_key, update_key}
use goeth_self_training.Trie.Instance.{IsSound}
use goeth_self_training.State.{
  add_amount, sub_amount, StateObject, World, object_item, updated, get_account,
  update_state_object,
}
use goeth_self_training.Transaction.{Transaction, sender, new_transaction_message}
use goeth_self_training.TxPool.Process.{total_amount, process_transaction}
use goeth_self_training.Tests.Accounts.{one_key, payment, IsShort-amount}
use goeth_self_training.Bytes.{u64}
use goeth_self_training.Vm.Gas.{gas_tx}
use goeth_self_training.TxPool.Transfer.{IsShort, GoodAfter}
use goeth_self_training.TxPool.Refused.{Kept, process_transaction_to_itself}
use goeth_self_training.Tests.Writing.{
  mixed, nothing, nodes, apart, Written, one_more, Written-IsSound, yielded,
}
use goeth_self_training.Tests.Paying.{
  alice, alice-bytes, alices, alices_trie, alices-Written, sees_alice, sender', sender_eq, read_of,
  alices_item, alices_short, IsShortAt, mixed_short, pair_of, world_of,
}

abbrev to_herself : Transaction
to_herself = payment alice 3

abbrev again : StateObject × World nodes
again = pair_of (get_account nodes alice sender'.1)

abbrev charged : StateObject → StateObject
charged c = sub_amount (gas_tx *ℤ to_herself.gas_price) (record c { nonce = u64 (c.nonce + 1) })

abbrev kept : World nodes
kept = world_of (update_state_object nodes mixed (charged sender'.0) again.1)

abbrev kept_code : List ℕ
kept_code = encode (object_item mixed (charged sender'.0) (str []))

again_eq : get_account nodes alice sender'.1 ≡ ok again
unfolding sender new_transaction_message update_key get_key get_account new_trie compact_encode
    compact_decode encode slice_header encode_bytes encode_big be_bytes big_bytes object_item
    new_value_from_bytes decode_from to_big Value.get goeth_self_training.Bytes.big_d
    update_state_object updated ◌+ℤ◌ ◌-ℤ◌ ◌*ℤ◌ add_amount sub_amount
again_eq = refl

kept_eq : update_state_object nodes mixed (charged sender'.0) again.1 ≡ ok kept
unfolding sender new_transaction_message update_key get_key get_account new_trie compact_encode
    compact_decode encode slice_header encode_bytes encode_big be_bytes big_bytes object_item
    new_value_from_bytes decode_from to_big Value.get goeth_self_training.Bytes.big_d
    update_state_object updated ◌+ℤ◌ ◌-ℤ◌ ◌*ℤ◌ add_amount sub_amount
kept_eq = refl

kept_trie : update_key mixed nothing alice kept_code alices_trie ≡ ok kept.trie
unfolding sender new_transaction_message update_key get_key get_account new_trie compact_encode
    compact_decode encode slice_header encode_bytes encode_big be_bytes big_bytes object_item
    new_value_from_bytes decode_from to_big Value.get goeth_self_training.Bytes.big_d
    update_state_object updated ◌+ℤ◌ ◌-ℤ◌ ◌*ℤ◌ add_amount sub_amount
kept_trie = refl

kept_apart : apart kept.trie.cache.nodes ≡ true
unfolding sender new_transaction_message update_key get_key get_account new_trie compact_encode
    compact_decode encode slice_header encode_bytes encode_big be_bytes big_bytes object_item
    new_value_from_bytes decode_from to_big Value.get goeth_self_training.Bytes.big_d
    update_state_object updated ◌+ℤ◌ ◌-ℤ◌ ◌*ℤ◌ add_amount sub_amount
kept_apart = refl

signed_by_alice : sender mixed one_key to_herself ≡ ok alice
unfolding sender new_transaction_message update_key get_key get_account new_trie compact_encode
    compact_decode encode slice_header encode_bytes encode_big be_bytes big_bytes object_item
    new_value_from_bytes decode_from to_big Value.get goeth_self_training.Bytes.big_d
    update_state_object updated ◌+ℤ◌ ◌-ℤ◌ ◌*ℤ◌ add_amount sub_amount
signed_by_alice = refl

to_alice : to_herself.recipient ≡ alice
unfolding sender new_transaction_message update_key get_key get_account new_trie compact_encode
    compact_decode encode slice_header encode_bytes encode_big be_bytes big_bytes object_item
    new_value_from_bytes decode_from to_big Value.get goeth_self_training.Bytes.big_d
    update_state_object updated ◌+ℤ◌ ◌-ℤ◌ ◌*ℤ◌ add_amount sub_amount
to_alice = refl

covered : ltb_ℤ (pos 1000) (total_amount to_herself) ≡ false
unfolding sender new_transaction_message update_key get_key get_account new_trie compact_encode
    compact_decode encode slice_header encode_bytes encode_big be_bytes big_bytes object_item
    new_value_from_bytes decode_from to_big Value.get goeth_self_training.Bytes.big_d
    update_state_object updated ◌+ℤ◌ ◌-ℤ◌ ◌*ℤ◌ add_amount sub_amount
covered = refl

IsShort-left : IsShort (nat_abs (pos 1000 -ℤ gas_tx *ℤ to_herself.gas_price))
unfolding sender new_transaction_message update_key get_key get_account new_trie compact_encode
    compact_decode encode slice_header encode_bytes encode_big be_bytes big_bytes object_item
    new_value_from_bytes decode_from to_big Value.get goeth_self_training.Bytes.big_d
    update_state_object updated ◌+ℤ◌ ◌-ℤ◌ ◌*ℤ◌ add_amount sub_amount
IsShort-left = IsShort-amount 4000 (omega arith)

kept-Written : Written kept.trie
kept-Written =
    one_more alices_trie kept.trie alice kept_code alices-Written alice-bytes
      (length-encode_pos (object_item mixed (charged sender'.0) (str []))) kept_trie kept_apart

good_after :
    (p q : StateObject × World nodes)
    → get_account nodes alice alices ≡ ok p
    → get_account nodes alice p.1 ≡ ok q
    → GoodAfter nodes mixed (charged p.0) q.1
good_after p q e =
    yielded (λ p. get_account nodes alice p.1 ≡ ok q → GoodAfter nodes mixed (charged p.0) q.1)
      (get_account nodes alice alices) sender' p sender_eq e
      (λ f.
        yielded (λ q. GoodAfter nodes mixed (charged sender'.0) q.1)
          (get_account nodes alice sender'.1) again q again_eq f
          (λ w' g.
            yielded (λ w. IsSound w.trie) _ kept w' kept_eq g
              (Written-IsSound kept.trie kept-Written)))

process_transaction_to_itself_example :
    Kept nodes mixed to_herself alice
      (pos 1000 -ℤ gas_tx *ℤ to_herself.gas_price)
      alices
      (process_transaction nodes mixed one_key to_herself alices)
unfolding new_trie
process_transaction_to_itself_example =
    process_transaction_to_itself nodes mixed mixed_short one_key to_herself alices alice (pos 1000)
      signed_by_alice to_alice sees_alice covered IsShort-left (omega arith) alice-bytes
      (λ v e. yielded IsShortAt (read_of alice) _ v alices_item e alices_short)
      (Written-IsSound alices_trie alices-Written) (λ c d w₁ w₂ e f. good_after (c, w₁) (d, w₂) e f)
