-- ===== src/Chain/Canonical.antt =====
-- The choice between the current chain and one that came in (ethchain/block_chain.go).
use goeth_self_training.Prelude.{
  ℕ, zero, suc, ◌<◌, ◌≡◌, refl, arith, true, false, Option, some, none, List, [], ◌∷◌, length,
  list_eq, if◌then◌else◌, Bool-cases, inl, inr,
}
use goeth_self_training.Prelude.Int.{ℤ, pos, ◌+ℤ◌, ltb_ℤ}
use goeth_self_training.Prelude.Result.{ok}
use goeth_self_training.Chain.{
  Block, calculate_block_td, incoming_difficulty, current_difficulty, find_canonical_chain,
}

-- The sum of the blocks' difficulties, their uncles' included.
abbrev pub sum_difficulty : ℤ → List Block → ℤ
sum_difficulty acc [] = acc
sum_difficulty acc (b ∷ bs) = sum_difficulty (acc +ℤ calculate_block_td b) bs

-- The blocks in front of the common one.
abbrev pub before : List ℕ → List Block → List Block
before common [] = []
before common (b ∷ bs) = if list_eq b.id common then [] else b ∷ before common bs

incoming_difficulty-before :
    (common : List ℕ) (acc : ℤ) (blocks : List Block)
    → incoming_difficulty common acc blocks ≡ sum_difficulty acc (before common blocks)
unfolding incoming_difficulty
incoming_difficulty-before common acc [] = refl
incoming_difficulty-before common acc (b ∷ bs) =
    let more = incoming_difficulty-before common (acc +ℤ calculate_block_td b) bs in
    elim (Bool-cases (list_eq b.id common)) [ inl e ↦ rw e refl | inr e ↦ rw e more ]

module _ (get_block : List ℕ → Option Block) where
  -- `ours` are the blocks from a block back to the common one, or to the first block of all, which
  -- itself is left out.
  pub data Descends (common : List ℕ) : Option Block → List Block → Type 0 where
    no_block : Descends common none []
    at_common : (b : Block) → list_eq b.id common ≡ true → Descends common (some b) []
    at_first :
        (b : Block)
        → list_eq b.id common ≡ false
        → get_block b.prev_hash ≡ none
        → Descends common (some b) []
    after :
        (b parent : Block) (ours : List Block)
        → list_eq b.id common ≡ false
        → get_block b.prev_hash ≡ some parent
        → Descends common (some parent) ours
        → Descends common (some b) (b ∷ ours)

  current_difficulty-Descends :
      (fuel : ℕ) (common : List ℕ) (acc : ℤ) (block : Option Block) (ours : List Block)
      → Descends common block ours
      → length ours < fuel
      → current_difficulty get_block fuel common acc block ≡ ok (sum_difficulty acc ours)
  unfolding current_difficulty
  current_difficulty-Descends zero common acc block ours d h = absurd (omega arith)
  current_difficulty-Descends (suc fuel) common acc _ _ no_block h = refl
  current_difficulty-Descends (suc fuel) common acc _ _ (at_common b e) h = rw e refl
  current_difficulty-Descends (suc fuel) common acc _ _ (at_first b e f) h = rw (e, f) refl
  current_difficulty-Descends (suc fuel) common acc _ _ (after b parent ours e f d) h =
      rw (e, f)
        (rw f (
          current_difficulty-Descends fuel common (acc +ℤ calculate_block_td b) (some parent) ours d
            (omega arith)))

  -- With more fuel than the current chain has blocks after the common one, `FindCanonicalChain`
  -- answers false exactly if the blocks that came in, up to the common one, have more difficulty in
  -- all than the current chain's.
  pub find_canonical_chain-compares :
      (fuel : ℕ) (current : Option Block) (blocks ours : List Block) (common : List ℕ)
      → Descends common current ours
      → length ours < fuel
      → find_canonical_chain get_block fuel current blocks common
        ≡ ok (
            if ltb_ℤ (sum_difficulty (pos 0) ours) (sum_difficulty (pos 0) (before common blocks))
            then false
            else true)
  unfolding find_canonical_chain
  find_canonical_chain-compares fuel current blocks ours common d h =
      rw
        (
          current_difficulty-Descends fuel common (pos 0) current ours d h,
          incoming_difficulty-before common (pos 0) blocks,
        )
        refl
