-- ===== src/Chain/Links.antt =====
-- `GetChain` of ethchain/block_chain.go.
use goeth_self_training.Prelude.{
  ℕ, zero, suc, ◌+◌, ◌≤◌, ◌≡◌, refl, arith, Option, some, none, List, [], ◌∷◌, length, list_eq,
  Bool-cases, inl, inr,
}
use goeth_self_training.Chain.{Block, get_chain_loop, get_chain}

module _ (get_block : List ℕ → Option Block) where
  -- Each block of the list is the one that its successor's `prev_hash` names.
  abbrev pub Linked : List Block → Type 0
  Linked [] = Unit
  Linked (a ∷ []) = Unit
  Linked (a ∷ b ∷ bs) = (get_block b.prev_hash ≡ some a) × Linked (b ∷ bs)

  -- `block` goes in front of the list.
  abbrev Leads : Option Block → List Block → Type 0
  Leads block [] = Unit
  Leads block (b ∷ bs) = get_block b.prev_hash ≡ block

  Linked-∷ : (b : Block) (bs : List Block) → Leads (some b) bs → Linked bs → Linked (b ∷ bs)
  Linked-∷ b [] lead linked = tt
  Linked-∷ b (c ∷ bs) lead linked = (lead, linked)

  -- What holds of the list that the loop returns.
  abbrev Chained : ℕ → List Block → Type 0
  Chained bound bs = Linked bs × (length bs ≤ bound)

  get_chain_loop-Chained :
      (genesis : List ℕ) (amount : ℕ) (block : Option Block) (bs : List Block)
      → Leads block bs
      → Linked bs
      → Chained (amount + length bs) (get_chain_loop get_block genesis amount block bs)
  unfolding get_chain_loop
  get_chain_loop-Chained genesis zero block bs lead linked = (linked, omega arith)
  get_chain_loop-Chained genesis (suc amount) none bs lead linked = (linked, omega arith)
  get_chain_loop-Chained genesis (suc amount) (some b) bs lead linked =
      let linked' = Linked-∷ b bs lead linked in
      let more =
        get_chain_loop-Chained genesis amount (get_block b.prev_hash) (b ∷ bs) refl linked' in
      elim (Bool-cases (list_eq genesis b.id)) [
        | inl e ↦ rw e (linked', omega arith)
        | inr e ↦ rw e (more.0, omega (arith, more.1))
      ]

  -- `GetChain` returns at most the number of blocks that was asked for, each the parent of the next.
  pub get_chain-Linked :
      (genesis hash : List ℕ) (amount : ℕ)
      → Linked (get_chain get_block genesis hash amount)
        × (length (get_chain get_block genesis hash amount) ≤ amount)
  unfolding get_chain
  get_chain-Linked genesis hash amount =
      let (linked, few) = get_chain_loop-Chained genesis amount (get_block hash) [] tt tt in
      (linked, omega (arith, few))
