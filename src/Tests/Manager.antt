-- ===== src/Tests/Manager.antt =====
-- The checks and the rewards of a block (ethchain/state_manager.go) at concrete inputs.
use goeth_self_training.Prelude.{
  All, ℕ, ◌+◌, ◌<◌, ◌^◌, ◌≡◌, refl, inl, inr, some, none, true, List, [], ◌∷◌, list_eq, arith,
  Bool-cases, replicate,
}
use goeth_self_training.Prelude.Int.{pos, ◌+ℤ◌, ◌-ℤ◌}
use goeth_self_training.Prelude.Result.{ok, Returns}
use goeth_self_training.Bytes.{IsByte, big_d}
use goeth_self_training.Trie.{by_function}
use goeth_self_training.State.{World}
use goeth_self_training.Chain.Store.{BlockChain}
use goeth_self_training.Blocks.{Block}
use goeth_self_training.StateManager.{
  verify, calculate_block_reward, inclusion_reward, gas_reward, accumelate_rewards,
}
use goeth_self_training.StateManager.Rewards.{
  GoodAlong, Books, credited, uncle_credits, accumelate_rewards-Books,
}
use goeth_self_training.Tests.Blocks.{head, block}
use goeth_self_training.State.Fetch.{HasShortRoots-one}
use goeth_self_training.Tests.Accounts.{sevens, roots, hashes_short}

abbrev chain : BlockChain
chain = record {
  genesis = block;
  td = pos 100;
  last_number = 1;
  current = none;
  last_hash = [];
  db = [];
}

-- A block that is 20000 years ahead of the current one.
abbrev ahead : Block
ahead = record block { head = record head { time = pos 700000000000 } }

abbrev pub zeros : List ℕ → List ℕ
zeros s = replicate 32 0

zeros_verified : (h n : List ℕ) → verify zeros h (some (pos 4096)) n ≡ ok true
unfolding verify big_d
zeros_verified h n = refl

abbrev nobody : World by_function
nobody = record { trie = λ k. []; states = []; heap = []; db = λ k. []; changed = [] }

nobody-Books : Books by_function (λ addr. 0) (λ addr. 0) nobody
unfolding goeth_self_training.State.Objects.view goeth_self_training.State.get_account
nobody-Books = record { shows = λ addr j. refl; small = λ addr. omega arith }

block_reward_eq : calculate_block_reward block 1 ≡ pos 1687500000000000510
unfolding calculate_block_reward inclusion_reward gas_reward ◌+ℤ◌ ◌-ℤ◌
block_reward_eq = refl

credits_small :
    (addr : List ℕ)
    → 0 + credited ((head.coinbase, 1687500000000000510) ∷ uncle_credits (head ∷ [])) addr < 2 ^ 256
credits_small addr = elim (Bool-cases (list_eq head.coinbase addr)) [
  | inl e ↦ rw e (omega arith)
  | inr e ↦ rw e (omega arith)
]

coinbase-bytes : All IsByte head.coinbase
coinbase-bytes = (omega arith, tt)

coinbase-GoodAlong :
    GoodAlong by_function sevens
      ((head.coinbase, 1687500000000000510) ∷ uncle_credits (head ∷ []))
      nobody
coinbase-GoodAlong = (
  coinbase-bytes,
  HasShortRoots-one by_function roots head.coinbase nobody,
  tt,
  λ w e. (coinbase-bytes, HasShortRoots-one by_function roots head.coinbase w, tt, λ w' e'. tt),
)

accumelate_rewards-Books_example :
    Returns
      (Books by_function
        (λ addr.
          0 + credited ((head.coinbase, 1687500000000000510) ∷ uncle_credits (head ∷ [])) addr)
        (λ addr. 0))
      (accumelate_rewards by_function sevens block nobody)
accumelate_rewards-Books_example =
    accumelate_rewards-Books by_function sevens hashes_short block 1687500000000000510 (λ addr. 0)
      (λ addr. 0) nobody nobody-Books block_reward_eq credits_small coinbase-GoodAlong
