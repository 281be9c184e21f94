-- ===== src/Chain/Limits.antt =====
-- The gas limit of new blocks (ethchain/block_chain.go).
use goeth_self_training.Prelude.{arith, ◌≡◌, ◌⊎◌}
use goeth_self_training.Prelude.Int.{ℤ, pos, ◌≤ℤ◌, ◌*ℤ◌, ◌+ℤ◌}
use goeth_self_training.Bytes.{big_max}
use goeth_self_training.Chain.{div_floor, Block, next_gas_limit, new_block}

-- The gas limit that the comment in `NewBlock` computes from the parent, of which it names the
-- larger one with 10000.
abbrev pub scaled_limit : Block → ℤ
scaled_limit parent =
    div_floor (parent.gas_limit *ℤ pos 1023 +ℤ div_floor (parent.gas_used *ℤ pos 6) 5) 1024

-- The first number is the smaller one of the other two.
abbrev pub IsLeast : ℤ → ℤ → ℤ → Type 0
IsLeast z x y = ((z ≡ x) × (x ≤ℤ y)) ⊎ ((z ≡ y) × (y ≤ℤ x))

big_max-IsLeast : (x y : ℤ) → IsLeast (big_max x y) x y
unfolding big_max
big_max-IsLeast x y = ground arith

-- The gas limit of a block that `NewBlock` makes after another is the smaller one, not the larger
-- one, of 10000 and what is computed from the parent.
pub new_block-gas_limit :
    (parent created : Block)
    → IsLeast (new_block parent created).gas_limit (pos 10000) (scaled_limit parent)
unfolding new_block next_gas_limit
new_block-gas_limit parent created = big_max-IsLeast (pos 10000) (scaled_limit parent)
