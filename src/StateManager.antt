-- ===== src/StateManager.antt =====
-- ethchain/state_manager.go: the checks of a block, its total difficulty and its rewards, and
-- EasyPow of ethchain/dagger.go. `get_block` is GetBlock of the chain and `keccak` is Keccak256; a
-- nil *big.Int that is read is a panic.
pub mod Checks
pub mod Rewards
pub mod Apply
pub mod Process
use goeth_self_training.Prelude.{
  ℕ, zero, suc, ◌+◌, ◌-◌, ◌*◌, ◌/◌, ◌^◌, ◌==◌, Bool, true, false, not, Option, some, none, List, [],
  ◌∷◌, ◌++◌, list_eq, if◌then◌else◌, length,
}
use goeth_self_training.Prelude.Int.{ℤ, pos, negsuc, ◌+ℤ◌, ◌-ℤ◌, ltb_ℤ}
use goeth_self_training.Prelude.Result.{Result, ok, panic, out_of_fuel, ◌>>=◌, or_panic}
use goeth_self_training.Bytes.{big_d}
use goeth_self_training.Rlp.{to_int64}
use goeth_self_training.Value.{int_to_u64}
use goeth_self_training.Trie.{Trie}
use goeth_self_training.State.{World, add_amount, get_account, update_state_object}
use goeth_self_training.Transaction.{Receipt}
use goeth_self_training.Chain.Store.{BlockChain, set_total_difficulty}
use goeth_self_training.Blocks.{Header, Block, hash_no_nonce}

-- BlockReward, UncleReward and UncleInclusionReward
abbrev pub block_reward : ℕ
block_reward = 1500000000000000000

abbrev pub uncle_reward : ℕ
uncle_reward = 1125000000000000000

abbrev pub uncle_inclusion_reward : ℕ
uncle_inclusion_reward = 187500000000000000

-- `CalculateTD`: whether the new total is accepted, and the chain behind it.
unfoldable pub uncle_difficulty : ℤ → List Header → Result ℤ
uncle_difficulty acc [] = ok acc
uncle_difficulty acc (u ∷ us) = or_panic u.difficulty >>= λ d. uncle_difficulty (acc +ℤ d) us

unfoldable pub calculate_td : BlockChain → Block → Result (Bool × BlockChain)
unfolding uncle_difficulty set_total_difficulty
calculate_td bc b = do
  uncles ← uncle_difficulty (pos 0) b.uncles
  own ← or_panic b.head.difficulty
  let td = bc.td +ℤ uncles +ℤ own
  ok (if ltb_ℤ bc.td td then (true, set_total_difficulty td bc) else (false, bc))

-- x.Div(x, d) of a number that is not negative, as math/big rounds it.
abbrev pub quotient : ℕ → ℤ → Result ℤ
quotient n (pos zero) = panic
quotient n (pos (suc d)) = ok (pos (n / suc d))
quotient n (negsuc d) = ok (pos 0 -ℤ pos (n / suc d))

-- `Verify` of EasyPow
unfoldable pub verify : (List ℕ → List ℕ) → List ℕ → Option ℤ → List ℕ → Result Bool
unfolding big_d
verify keccak hash diff nonce = do
  d ← or_panic diff
  bound ← quotient (2 ^ 256) d
  ok (ltb_ℤ (pos (big_d (keccak (hash ++ nonce)))) bound)

pub data BlockError : Type 0 where
  uncle_mismatch timestamp_less too_far invalid_nonce : BlockError

-- a - b of int64
abbrev pub int64_sub : ℤ → ℤ → ℤ
int64_sub a b = to_int64 (int_to_u64 (a -ℤ b))

-- int64(15*time.Minute), which counts nanoseconds.
abbrev pub fifteen_minutes : ℕ
fifteen_minutes = 900000000000

-- The uncles' previous hashes; the previous block is read for each.
unfoldable pub uncles_match : Option Header → List Header → Result Bool
uncles_match previous [] = ok true
uncles_match previous (u ∷ us) = or_panic previous >>= λ p.
    let rest = uncles_match previous us in
    if list_eq u.prev_hash p.prev_hash then rest else ok false

-- `ValidateBlock`; none is its nil. `current` is the current block of the chain.
unfoldable pub validate_block :
    (List ℕ → List ℕ)
    → (List ℕ → List ℕ)
    → (List ℕ → Option Header)
    → Header
    → Block
    → Result (Option BlockError)
unfolding verify uncles_match hash_no_nonce
validate_block keccak sha3 get_block current b = do
  same ← uncles_match (get_block b.head.prev_hash) b.uncles
  let diff = int64_sub b.head.time current.time
  if same
      then if ltb_ℤ diff (pos 0)
        then ok (some timestamp_less)
        else if ltb_ℤ (pos fifteen_minutes) diff
        then ok (some too_far)
        else (do
          good ← verify keccak (hash_no_nonce sha3 b) b.head.difficulty b.head.nonce
          ok (if good then none else some invalid_nonce))
      else ok (some uncle_mismatch)

-- `CalculateBlockReward`: lastCumulGasUsed stays 0.
unfoldable pub inclusion_reward : ℤ → ℕ → ℤ
inclusion_reward base zero = base
inclusion_reward base (suc n) = inclusion_reward (base +ℤ pos uncle_inclusion_reward) n

unfoldable pub gas_reward : ℤ → List Receipt → ℤ
gas_reward base [] = base
gas_reward base (r ∷ rs) =
    gas_reward (base +ℤ (r.cumulative_gas_used -ℤ pos 0 +ℤ r.tx.gas_price)) rs

unfoldable pub calculate_block_reward : Block → ℕ → ℤ
unfolding inclusion_reward gas_reward
calculate_block_reward b uncles =
    gas_reward (inclusion_reward (pos 0) uncles) b.receipts +ℤ pos block_reward

-- `CalculateUncleReward`
unfoldable pub calculate_uncle_reward : Header → ℤ
calculate_uncle_reward u = pos uncle_reward

module _ (tries : Trie) (sha3 : List ℕ → List ℕ) where
  -- GetAccount, AddAmount and UpdateStateObject
  unfoldable pub add_reward : List ℕ → ℤ → World tries → Result (World tries)
  unfolding add_amount get_account update_state_object
  add_reward addr amount w = do
    (account, w') ← get_account tries addr w
    update_state_object tries sha3 (add_amount amount account) w'

  -- `AccumelateRewards`
  unfoldable pub reward_uncles : List Header → World tries → Result (World tries)
  unfolding add_reward calculate_uncle_reward
  reward_uncles [] w = ok w
  reward_uncles (u ∷ us) w =
      add_reward u.coinbase (calculate_uncle_reward u) w >>= λ w'. reward_uncles us w'

  unfoldable pub accumelate_rewards : Block → World tries → Result (World tries)
  unfolding reward_uncles add_reward calculate_block_reward
  accumelate_rewards b w = do
    w' ← add_reward b.head.coinbase (calculate_block_reward b (length b.uncles)) w
    reward_uncles b.uncles w'
