-- ===== src/Chain/Store/Start.antt =====
-- The start of the chain (ethchain/block_chain.go): `setLastBlock`, and `AddTestNetFunds` with the
-- genesis block of a new database. The state of the genesis block is given as a `World` over its
-- root; the log is left out.
use goeth_self_training.Prelude.{ℕ, ◌^◌, ◌==◌, some, List, [], ◌∷◌, if◌then◌else◌, length}
use goeth_self_training.Prelude.Int.{ℤ, pos}
use goeth_self_training.Prelude.Result.{Result, ok, ◌>>=◌, or_panic}
use goeth_self_training.Bytes.{big_d}
use goeth_self_training.Value.{big_uint64}
use goeth_self_training.Trie.{Trie}
use goeth_self_training.State.{World, get_account, update_state_object}
use goeth_self_training.State.Nested.{root_item}
use goeth_self_training.Database
use goeth_self_training.Database.{last_known_td}
use goeth_self_training.Blocks.{block_hash, block_decode}
use goeth_self_training.Chain.Store.{BlockChain, last_block_key, add}

-- The addresses of `AddTestNetFunds`, and what each of them gets.
abbrev pub test_addresses : List (List ℕ)
test_addresses =
    (0x8a ∷ 0x40 ∷ 0xbf ∷ 0xaa ∷ 0x73 ∷ 0x25 ∷ 0x6b ∷ 0x60 ∷ 0x76 ∷ 0x4c ∷ 0x1b ∷ 0xf4 ∷ 0x06 ∷ 0x75
      ∷ 0xa9 ∷ 0x90 ∷ 0x83 ∷ 0xef ∷ 0xb0 ∷ 0x75 ∷ [])
    ∷ (0xe4 ∷ 0x15 ∷ 0x7b ∷ 0x34 ∷ 0xea ∷ 0x96 ∷ 0x15 ∷ 0xcf ∷ 0xbd ∷ 0xe6 ∷ 0xb4 ∷ 0xfd ∷ 0xa4
        ∷ 0x19 ∷ 0x82 ∷ 0x81 ∷ 0x24 ∷ 0xb7 ∷ 0x0c ∷ 0x78 ∷ [])
    ∷ (0x1e ∷ 0x12 ∷ 0x51 ∷ 0x5c ∷ 0xe3 ∷ 0xe0 ∷ 0xf8 ∷ 0x17 ∷ 0xa4 ∷ 0xdd ∷ 0xef ∷ 0x9c ∷ 0xa5
        ∷ 0x57 ∷ 0x88 ∷ 0xa1 ∷ 0xd6 ∷ 0x6b ∷ 0xd2 ∷ 0xdf ∷ [])
    ∷ (0x6c ∷ 0x38 ∷ 0x6a ∷ 0x4b ∷ 0x26 ∷ 0xf7 ∷ 0x3c ∷ 0x80 ∷ 0x2f ∷ 0x34 ∷ 0x67 ∷ 0x3f ∷ 0x72
        ∷ 0x48 ∷ 0xbb ∷ 0x11 ∷ 0x8f ∷ 0x97 ∷ 0x42 ∷ 0x4a ∷ [])
    ∷ (0xcd ∷ 0x2a ∷ 0x3d ∷ 0x9f ∷ 0x93 ∷ 0x8e ∷ 0x13 ∷ 0xcd ∷ 0x94 ∷ 0x7e ∷ 0xc0 ∷ 0x5a ∷ 0xbc
        ∷ 0x7f ∷ 0xe7 ∷ 0x34 ∷ 0xdf ∷ 0x8d ∷ 0xd8 ∷ 0x26 ∷ [])
    ∷ (0x2e ∷ 0xf4 ∷ 0x71 ∷ 0x00 ∷ 0xe0 ∷ 0x78 ∷ 0x7b ∷ 0x91 ∷ 0x51 ∷ 0x05 ∷ 0xfd ∷ 0x5e ∷ 0x3f
        ∷ 0x4f ∷ 0xf6 ∷ 0x75 ∷ 0x20 ∷ 0x79 ∷ 0xd5 ∷ 0xcb ∷ [])
    ∷ (0xe6 ∷ 0x71 ∷ 0x6f ∷ 0x95 ∷ 0x44 ∷ 0xa5 ∷ 0x6c ∷ 0x53 ∷ 0x0d ∷ 0x86 ∷ 0x8e ∷ 0x4b ∷ 0xfb
        ∷ 0xac ∷ 0xb1 ∷ 0x72 ∷ 0x31 ∷ 0x5b ∷ 0xde ∷ 0xad ∷ [])
    ∷ (0x1a ∷ 0x26 ∷ 0x33 ∷ 0x8f ∷ 0x0d ∷ 0x90 ∷ 0x5e ∷ 0x29 ∷ 0x5f ∷ 0xcc ∷ 0xb7 ∷ 0x1f ∷ 0xa9
        ∷ 0xea ∷ 0x84 ∷ 0x9f ∷ 0xfa ∷ 0x12 ∷ 0xaa ∷ 0xf4 ∷ [])
    ∷ []

abbrev pub test_funds : ℤ
test_funds = pos (2 ^ 200)

module _ (tries : Trie) (sha3 : List ℕ → List ℕ) where
  -- The loop of `AddTestNetFunds`.
  unfoldable pub fund_each : List (List ℕ) → World tries → Result (World tries)
  unfolding get_account update_state_object
  fund_each [] w = ok w
  fund_each (addr ∷ addrs) w = do
    (account, w') ← get_account tries addr w
    w'' ← update_state_object tries sha3 (record account { amount = test_funds }) w'
    fund_each addrs w''

  -- `AddTestNetFunds`
  unfoldable pub add_test_net_funds : World tries → Result (World tries)
  unfolding fund_each
  add_test_net_funds w = fund_each test_addresses w

  -- A block that was stored last becomes the current one.
  unfoldable pub resume_at : List ℕ → BlockChain → Result BlockChain
  unfolding block_decode block_hash
  resume_at data' bc = do
    b ← block_decode data'
    number ← or_panic b.head.number
    ok (record bc {
      current = some b;
      last_hash = block_hash sha3 b;
      last_number = big_uint64 number;
    })

  -- A new chain: the genesis block with the funds in its state, which is written to the database.
  unfoldable pub begin_at : World tries → BlockChain → Result (BlockChain × World tries)
  unfolding add_test_net_funds root_item add
  begin_at w bc = do
    funded ← add_test_net_funds w
    let (t, db) = tries.sync funded.trie funded.db
    let w' = record funded { trie = t; db = db }
    let genesis = record (bc.genesis) {
      head = record (bc.genesis.head) { root = root_item tries w' };
    }
    ok (add sha3 genesis (record bc { genesis = genesis }), w')

  -- `setLastBlock`; `w` is the state of the genesis block.
  unfoldable pub set_last_block : World tries → BlockChain → Result (BlockChain × World tries)
  unfolding Database.get resume_at begin_at last_known_td big_d
  set_last_block w bc = do
    let stored = Database.get last_block_key bc.db
    (bc', w') ←
        if length stored == 0
        then begin_at w bc
        else (resume_at stored bc >>= λ resumed. ok (resumed, w))
    ok (record bc' { td = pos (big_d (last_known_td bc'.db)) }, w')
