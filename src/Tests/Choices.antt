-- ===== src/Tests/Choices.antt =====
-- The choice between two chains over stored blocks (ethchain/block_chain.go) at concrete inputs.
use goeth_self_training.Prelude.{
  ℕ, ◌≡◌, refl, true, Option, some, none, List, [], ◌∷◌, list_eq, if◌then◌else◌, Bool-cases, inl,
  inr,
}
use goeth_self_training.Prelude.Int.{pos, ◌+ℤ◌}
use goeth_self_training.Prelude.Result.{ok}
use goeth_self_training.Blocks.{block_encode}
use goeth_self_training.Chain
use goeth_self_training.Chain.{find_canonical_chain}
use goeth_self_training.Chain.Store.{get_block, block_of}
use goeth_self_training.Chain.Store.Choose.{choose_chain, total_difficulty}
use goeth_self_training.Chain.Store.Choose.Refines.{
  IsView, more_views, no_views, there, not_there, IsStored, outcome,
  choose_chain-find_canonical_chain,
}
use goeth_self_training.Tests.Accounts.{sevens}
use goeth_self_training.Tests.Processing.{plain_block, chain}

abbrev plain_view : Chain.Block
plain_view = record {
  id = sevens [];
  prev_hash = 7 ∷ 9 ∷ [];
  difficulty = pos 4096;
  number = pos 3;
  gas_limit = pos 10000;
  gas_used = pos 0;
  time = pos 1400000000;
  uncles = [];
}

plain_block-IsView : IsView sevens plain_block plain_view
unfolding total_difficulty goeth_self_training.Chain.calculate_block_td
    goeth_self_training.Blocks.block_hash
plain_block-IsView = record { id_eq = refl; prev_eq = refl; td_eq = refl }

abbrev only_plain : List ℕ → Option Chain.Block
only_plain id = if list_eq (7 ∷ 9 ∷ []) id then some plain_view else none

plain_found : block_of (block_encode plain_block) ≡ ok (some plain_block)
unfolding block_encode goeth_self_training.Rlp.encode goeth_self_training.Rlp.slice_header
    goeth_self_training.Rlp.encode_bytes goeth_self_training.Rlp.encode_big
    goeth_self_training.Value.new_value_from_bytes goeth_self_training.Rlp.decode_from
    goeth_self_training.Value.get goeth_self_training.Bytes.big_bytes
    goeth_self_training.Blocks.block_decode goeth_self_training.Bytes.big_d
plain_found = refl

chain-IsStored : IsStored sevens chain only_plain
unfolding get_block
chain-IsStored id = elim (Bool-cases (list_eq (7 ∷ 9 ∷ []) id)) [
  | inl e ↦ rw e (some plain_block, plain_found, there plain_block plain_view plain_block-IsView)
  | inr e ↦ rw e (none, refl, not_there)
]

-- The common block is not among the blocks: both chains have one block, and the own one stays.
stays : find_canonical_chain only_plain 10 (some plain_view) (plain_view ∷ []) (sevens []) ≡ ok true
unfolding find_canonical_chain ◌+ℤ◌
stays = refl

choose_chain-find_canonical_chain_example :
    choose_chain sevens 10 (plain_block ∷ []) (sevens []) chain
    ≡ outcome sevens chain (sevens []) true
choose_chain-find_canonical_chain_example =
    choose_chain-find_canonical_chain sevens chain only_plain 10 (plain_block ∷ [])
      (plain_view ∷ []) (some plain_view) (sevens []) true chain-IsStored
      (there plain_block plain_view plain_block-IsView)
      (more_views plain_block plain_view [] [] plain_block-IsView no_views) stays
