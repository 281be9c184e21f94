-- ===== src/Chain/Store/Choose/Refines.antt =====
-- `FindCanonicalChain` over the stored blocks decides as `find_canonical_chain` of `Chain` does over
-- what it reads of them (ethchain/block_chain.go).
use goeth_self_training.Prelude.{
  ℕ, zero, suc, ◌≡◌, refl, ◌∙◌, Bool, true, false, Option, some, none, List, [], ◌∷◌, list_eq,
  if◌then◌else◌, Bool-cases, inl, inr,
}
use goeth_self_training.Prelude.Int.{ℤ, pos, ◌+ℤ◌, ltb_ℤ}
use goeth_self_training.Prelude.Result.{Result, ok, ◌>>=◌, >>=-Yields, ok-injective}
use goeth_self_training.Blocks.{Block, block_hash}
use goeth_self_training.Chain
use goeth_self_training.Chain.{
  calculate_block_td, incoming_difficulty, current_difficulty, find_canonical_chain,
}
use goeth_self_training.Chain.Store.{BlockChain, get_block, reset_till_block_hash}
use goeth_self_training.Chain.Store.Choose.{
  total_difficulty, incoming_total, current_total, choose_chain,
}

module _ (sha3 : List ℕ → List ℕ) where
  -- What `FindCanonicalChain` reads of a block.
  pub record IsView (b : Block) (v : Chain.Block) : Type 0 where
    pub id_eq : block_hash sha3 b ≡ v.id
    pub prev_eq : b.head.prev_hash ≡ v.prev_hash
    pub td_eq : total_difficulty b ≡ ok (calculate_block_td v)

  pub data AreViews : List Block → List Chain.Block → Type 0 where
    no_views : AreViews [] []
    more_views :
        (b : Block) (v : Chain.Block) (bs : List Block) (vs : List Chain.Block)
        → IsView b v
        → AreViews bs vs
        → AreViews (b ∷ bs) (v ∷ vs)

  pub data IsViewed : Option Block → Option Chain.Block → Type 0 where
    not_there : IsViewed none none
    there : (b : Block) (v : Chain.Block) → IsView b v → IsViewed (some b) (some v)

  incoming_total-difficulty :
      (common : List ℕ) (acc : ℤ) (bs : List Block) (vs : List Chain.Block)
      → AreViews bs vs
      → incoming_total sha3 common acc bs ≡ ok (incoming_difficulty common acc vs)
  unfolding incoming_total incoming_difficulty
  incoming_total-difficulty common acc _ _ no_views = refl
  incoming_total-difficulty common acc _ _ (more_views b v bs vs w ws) =
      elim (Bool-cases (list_eq v.id common)) [
        | inl e ↦ rw (w.id_eq, e) refl
        | inr e ↦
            rw (w.id_eq, e)
              (rw w.td_eq (incoming_total-difficulty common (acc +ℤ calculate_block_td v) bs vs ws))
      ]

  -- The chain stays for true and goes back to the common block for false.
  abbrev pub outcome : BlockChain → List ℕ → Bool → Result (Bool × BlockChain)
  outcome bc common true = ok (true, bc)
  outcome bc common false = reset_till_block_hash sha3 common bc >>= λ bc'. ok (false, bc')

  module _ (bc : BlockChain) (get : List ℕ → Option Chain.Block) where
    -- `get` finds the views of the blocks that the database has, and each of them can be read.
    abbrev pub IsStored : Type 0
    IsStored =
        (id : List ℕ)
        → (found : Option Block) × (get_block id bc ≡ ok found) × IsViewed found (get id)

    by_parent :
        (fuel : ℕ) (common : List ℕ) (acc : ℤ) (b : Block) (v : Chain.Block) (found : Option Block)
        (view : Option Chain.Block) (rest : Result ℤ)
        → IsView b v
        → IsViewed found view
        → current_total sha3 fuel common (acc +ℤ calculate_block_td v) bc found ≡ rest
        → (elim found [
          | none ↦ ok acc
          | some p ↦
              total_difficulty b >>= λ td. current_total sha3 fuel common (acc +ℤ td) bc (some p)
        ])
          ≡ (elim view [ none ↦ ok acc | some q ↦ rest ])
    by_parent fuel common acc b v _ _ rest w not_there more = refl
    by_parent fuel common acc b v _ _ rest w (there p q u) more = rw w.td_eq more

    current_total-difficulty :
        (fuel : ℕ) (common : List ℕ) (acc : ℤ) (block : Option Block) (view : Option Chain.Block)
        → IsStored
        → IsViewed block view
        → current_total sha3 fuel common acc bc block ≡ current_difficulty get fuel common acc view
    unfolding current_total current_difficulty
    current_total-difficulty zero common acc block view stored u = refl
    current_total-difficulty (suc fuel) common acc _ _ stored not_there = refl
    current_total-difficulty (suc fuel) common acc _ _ stored (there b v w) =
        let (found, e₁, u) = stored v.prev_hash in
        let more =
          current_total-difficulty fuel common (acc +ℤ calculate_block_td v) found (get v.prev_hash)
            stored u in
        elim (Bool-cases (list_eq v.id common)) [
          | inl e ↦ rw (w.id_eq, e) refl
          | inr e ↦
              rw (w.id_eq, e)
                (rw (w.prev_eq, e₁)
                  (by_parent fuel common acc b v found (get v.prev_hash) _ w u more))
        ]

    -- Where the blocks that came in and the stored ones can be read, `FindCanonicalChain` over the
    -- database answers what the choice between their views does; it keeps the chain for true and
    -- resets it to the common block for false.
    pub choose_chain-find_canonical_chain :
        (fuel : ℕ) (bs : List Block) (vs : List Chain.Block) (view : Option Chain.Block)
        (common : List ℕ) (ours : Bool)
        → IsStored
        → IsViewed bc.current view
        → AreViews bs vs
        → find_canonical_chain get fuel view vs common ≡ ok ours
        → choose_chain sha3 fuel bs common bc ≡ outcome bc common ours
    unfolding choose_chain find_canonical_chain
    choose_chain-find_canonical_chain fuel bs vs view common ours stored u ws e =
        let (cur, e₁, e₂) = >>=-Yields (current_difficulty get fuel common (pos 0) view) _ e in
        let mine = current_total-difficulty fuel common (pos 0) bc.current view stored u ∙ e₁ in
        let theirs = incoming_total-difficulty common (pos 0) bs vs ws in
        rw (theirs, mine)
          (by_test (ltb_ℤ cur (incoming_difficulty common (pos 0) vs)) (ok-injective e₂))
      where
        by_test :
            (more : Bool)
            → (if more then false else true) ≡ ours
            → (if more
                then (reset_till_block_hash sha3 common bc >>= λ bc'. ok (false, bc'))
                else ok (true, bc))
              ≡ outcome bc common ours
        by_test true q = rw (← q) refl
        by_test false q = rw (← q) refl
