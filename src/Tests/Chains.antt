-- ===== src/Tests/Chains.antt =====
-- Chains of blocks and the pool of transactions (ethchain/block_chain.go, transaction_pool.go) at
-- concrete inputs.
use goeth_self_training.Prelude.{
  length, ◌≤◌, ℕ, ◌^◌, ◌*◌, ◌≡◌, refl, arith, true, false, Option, some, none, List, [], ◌∷◌,
  list_eq, if◌then◌else◌,
}
use goeth_self_training.Prelude.Int.{pos, ◌+ℤ◌, ltb_ℤ}
use goeth_self_training.Prelude.Result.{ok}
use goeth_self_training.Trie.{by_function}
use goeth_self_training.State.{World}
use goeth_self_training.Transaction.{Transaction, new_transaction_message}
use goeth_self_training.Chain.{Block, new_block, find_canonical_chain, get_chain}
use goeth_self_training.Chain.Links.{Linked, get_chain-Linked}
use goeth_self_training.Chain.Limits.{IsLeast, scaled_limit, new_block-gas_limit}
use goeth_self_training.Chain.Canonical.{
  at_first, after, sum_difficulty, before, find_canonical_chain-compares,
}
use goeth_self_training.TxPool.Queue.{
  Pool, handle_queued, remove_invalid, Distinct, FirstRemoved, handle_queued-Distinct,
  remove_invalid-FirstRemoved,
}
use goeth_self_training.Tests.Accounts.{alices, alices_with, sevens, one_key, payment, bob}

abbrev block : ℕ → ℕ → Block
block n difficulty' = record {
  id = n ∷ [];
  prev_hash = 0 ∷ [];
  difficulty = pos difficulty';
  number = pos n;
  gas_limit = pos 50000;
  gas_used = pos 600;
  time = pos 100;
  uncles = pos 1 ∷ [];
}

abbrev child : Block
child = record (block 2 70) { prev_hash = 1 ∷ [] }

-- A database of the first block alone.
abbrev only_first : List ℕ → Option Block
only_first h = if list_eq h (1 ∷ []) then some (block 1 60) else none

new_block-gas_limit_example :
    IsLeast (new_block (block 1 60) child).gas_limit (pos 10000) (scaled_limit (block 1 60))
new_block-gas_limit_example = new_block-gas_limit (block 1 60) child

find_canonical_chain-compares_example :
    find_canonical_chain only_first 5 (some child) (block 3 40 ∷ block 4 50 ∷ []) (9 ∷ [])
    ≡ ok (
        if ltb_ℤ
          (sum_difficulty (pos 0) (child ∷ []))
          (sum_difficulty (pos 0) (before (9 ∷ []) (block 3 40 ∷ block 4 50 ∷ [])))
        then false
        else true)
find_canonical_chain-compares_example =
    find_canonical_chain-compares only_first 5 (some child) (block 3 40 ∷ block 4 50 ∷ [])
      (child ∷ []) (9 ∷ [])
      (after child (block 1 60) [] refl refl (at_first (block 1 60) refl refl)) (omega arith)

-- The empty pool, and the pool with one transaction of alice, who can pay the flat fee.
abbrev no_pool : Pool
no_pool = record { pool = []; sent = [] }

abbrev one_pool : Pool
one_pool = record { pool = payment bob 3 ∷ []; sent = payment bob 3 ∷ [] }

queued :
    handle_queued by_function sevens one_key (alices_with (2 * 10 ^ 16)) (payment bob 3) no_pool
    ≡ ok one_pool
unfolding handle_queued goeth_self_training.Transaction.sender goeth_self_training.State.get_account
    goeth_self_training.Rlp.encode goeth_self_training.State.object_item
    goeth_self_training.Rlp.slice_header goeth_self_training.Rlp.encode_big
    goeth_self_training.Bytes.big_bytes goeth_self_training.Value.new_value_from_bytes
    goeth_self_training.Rlp.decode_from goeth_self_training.Value.to_big
    goeth_self_training.Value.get goeth_self_training.Bytes.big_d ◌+ℤ◌ new_transaction_message
queued = refl

handle_queued-Distinct_example : Distinct by_function sevens one_key one_pool.pool
handle_queued-Distinct_example =
    handle_queued-Distinct by_function sevens one_key (alices_with (2 * 10 ^ 16)) (payment bob 3)
      no_pool one_pool tt queued

-- Neither transaction can pay the flat fee.
removed_one :
    remove_invalid by_function sevens one_key alices alices (payment bob 3 ∷ payment bob 4 ∷ [])
    ≡ ok (payment bob 4 ∷ [])
unfolding remove_invalid goeth_self_training.Transaction.sender
    goeth_self_training.State.get_account goeth_self_training.Rlp.encode
    goeth_self_training.State.object_item goeth_self_training.Rlp.slice_header
    goeth_self_training.Rlp.encode_big goeth_self_training.Bytes.big_bytes
    goeth_self_training.Value.new_value_from_bytes goeth_self_training.Rlp.decode_from
    goeth_self_training.Value.to_big goeth_self_training.Value.get goeth_self_training.Bytes.big_d
    ◌+ℤ◌ new_transaction_message
removed_one = refl

remove_invalid-FirstRemoved_example :
    FirstRemoved by_function sevens one_key alices alices
      (payment bob 3 ∷ payment bob 4 ∷ [])
      (payment bob 4 ∷ [])
remove_invalid-FirstRemoved_example =
    remove_invalid-FirstRemoved by_function sevens one_key alices alices
      (payment bob 3 ∷ payment bob 4 ∷ []) (payment bob 4 ∷ []) removed_one

get_chain-Linked_example :
    Linked only_first (get_chain only_first (9 ∷ []) (1 ∷ []) 3)
    × (length (get_chain only_first (9 ∷ []) (1 ∷ []) 3) ≤ 3)
get_chain-Linked_example = get_chain-Linked only_first (9 ∷ []) (1 ∷ []) 3
