-- ===== src/Chain.antt =====
-- ethchain/block_chain.go: the difficulty and the gas limit of a new block, and the choice between
-- two chains. A `Block` has what these read; `id` is Hash(), `uncles` the uncles' difficulties, and
-- `get_block` is GetBlock, a look into the database.
pub mod Limits
pub mod Canonical
pub mod Links
pub mod Store
use goeth_self_training.Prelude.{
  ℕ, zero, suc, ◌+◌, ◌/◌, Bool, true, false, Option, some, none, List, [], ◌∷◌, list_eq,
  if◌then◌else◌,
}
use goeth_self_training.Prelude.Int.{ℤ, pos, negsuc, ◌+ℤ◌, ◌*ℤ◌, ltb_ℤ}
use goeth_self_training.Prelude.Result.{Result, ok, panic, out_of_fuel, ◌>>=◌}
use goeth_self_training.Bytes.{big_max}

pub record Block : Type 0 where
  pub id : List ℕ
  pub prev_hash : List ℕ
  pub difficulty : ℤ
  pub number : ℤ
  pub gas_limit : ℤ
  pub gas_used : ℤ
  pub time : ℤ
  pub uncles : List ℤ

-- x.Div(x, d) for a positive `d`, which rounds down.
abbrev pub div_floor : ℤ → ℕ → ℤ
div_floor (pos x) d = pos (x / d)
div_floor (negsuc x) d = negsuc (x / d)

-- The difficulty of a block that `NewBlock` makes at the time `now`.
unfoldable pub next_difficulty : ℤ → Block → ℤ
next_difficulty now parent =
    let mul = if ltb_ℤ now (parent.time +ℤ pos 42) then pos 1 else negsuc 0 in
    div_floor parent.difficulty 1024 *ℤ mul +ℤ parent.difficulty

-- Its gas limit.
unfoldable pub next_gas_limit : Block → ℤ
unfolding big_max
next_gas_limit parent =
    big_max (pos 10000)
      (div_floor (parent.gas_limit *ℤ pos 1023 +ℤ div_floor (parent.gas_used *ℤ pos 6) 5) 1024)

-- What `NewBlock` sets of a block after a current one, on what `CreateBlock` made.
unfoldable pub new_block : Block → Block → Block
unfolding next_difficulty next_gas_limit
new_block parent created = record created {
  difficulty = next_difficulty created.time parent;
  number = parent.number +ℤ pos 1;
  gas_limit = next_gas_limit parent;
}

-- `CalculateBlockTD`
unfoldable pub sum_uncles : ℤ → List ℤ → ℤ
sum_uncles acc [] = acc
sum_uncles acc (d ∷ ds) = sum_uncles (acc +ℤ d) ds

unfoldable pub calculate_block_td : Block → ℤ
unfolding sum_uncles
calculate_block_td b = sum_uncles (pos 0) b.uncles +ℤ b.difficulty

-- The difficulty of the blocks that came in, up to the common block.
unfoldable pub incoming_difficulty : List ℕ → ℤ → List Block → ℤ
unfolding calculate_block_td
incoming_difficulty common acc [] = acc
incoming_difficulty common acc (b ∷ bs) =
    let rest = incoming_difficulty common (acc +ℤ calculate_block_td b) bs in
    if list_eq b.id common then acc else rest

module _ (get_block : List ℕ → Option Block) where
  -- The difficulty of the current chain, from `block` back to the common block or to the block
  -- after the first one. Fuel bounds the length of the chain.
  unfoldable pub current_difficulty : ℕ → List ℕ → ℤ → Option Block → Result ℤ
  unfolding calculate_block_td
  current_difficulty zero common acc block = out_of_fuel
  current_difficulty (suc fuel) common acc none = ok acc
  current_difficulty (suc fuel) common acc (some b) =
      let parent = get_block b.prev_hash in
      let rest = current_difficulty fuel common (acc +ℤ calculate_block_td b) parent in
      if list_eq b.id common then ok acc else elim parent [ none ↦ ok acc | some p ↦ rest ]

  -- `FindCanonicalChain`: true where the current chain stays; otherwise it is reset.
  unfoldable pub find_canonical_chain : ℕ → Option Block → List Block → List ℕ → Result Bool
  unfolding incoming_difficulty current_difficulty
  find_canonical_chain fuel current blocks common = do
    cur ← current_difficulty fuel common (pos 0) current
    ok (if ltb_ℤ cur (incoming_difficulty common (pos 0) blocks) then false else true)

  -- The loop of `GetChain`: up to `amount` blocks from `block` back, put in front of `blocks`.
  unfoldable pub get_chain_loop : List ℕ → ℕ → Option Block → List Block → List Block
  get_chain_loop genesis zero block blocks = blocks
  get_chain_loop genesis (suc amount) none blocks = blocks
  get_chain_loop genesis (suc amount) (some b) blocks =
      let more = get_chain_loop genesis amount (get_block b.prev_hash) (b ∷ blocks) in
      if list_eq genesis b.id then b ∷ blocks else more

  unfoldable pub get_chain : List ℕ → List ℕ → ℕ → List Block
  unfolding get_chain_loop
  get_chain genesis hash amount = get_chain_loop genesis amount (get_block hash) []
