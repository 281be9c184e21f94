-- ===== src/Chain/Store.antt =====
-- ethchain/block_chain.go: the blocks of the chain in the database, and the current block.
pub mod Laws
pub mod Start
pub mod Search
pub mod Choose
pub mod Create
pub mod Genesis
use goeth_self_training.Prelude.{
  ℕ, ◌+◌, ◌%◌, ◌^◌, ◌==◌, not, Bool, true, false, Option, some, none, List, [], ◌∷◌, ◌++◌, list_eq,
  if◌then◌else◌, length,
}
use goeth_self_training.Prelude.Int.{ℤ}
use goeth_self_training.Prelude.Result.{Result, ok, panic, out_of_fuel, ◌>>=◌, or_panic}
use goeth_self_training.Bytes.{u64, big_bytes}
use goeth_self_training.Value.{big_uint64}
use goeth_self_training.Database
use goeth_self_training.Database.{MemDatabase, last_known_key}
use goeth_self_training.Blocks.{
  Block, BlockInfo, block_hash, block_encode, block_decode, info_encode, info_decode,
}

pub record BlockChain : Type 0 where
  pub genesis : Block
  pub td : ℤ
  pub last_number : ℕ
  pub current : Option Block
  pub last_hash : List ℕ
  pub db : MemDatabase

-- The bytes of "LastBlock", and a hash with "Info" behind it.
abbrev pub last_block_key : List ℕ
last_block_key = 76 ∷ 97 ∷ 115 ∷ 116 ∷ 66 ∷ 108 ∷ 111 ∷ 99 ∷ 107 ∷ []

abbrev pub info_key : List ℕ → List ℕ
info_key id = id ++ 73 ∷ 110 ∷ 102 ∷ 111 ∷ []

-- `HasBlock`
unfoldable pub has_block : List ℕ → BlockChain → Bool
unfolding Database.get
has_block id bc = not (length (Database.get id bc.db) == 0)

abbrev pub block_of : List ℕ → Result (Option Block)
block_of [] = ok none
block_of (x ∷ data') = block_decode (x ∷ data') >>= λ b. ok (some b)

-- `GetBlock`
unfoldable pub get_block : List ℕ → BlockChain → Result (Option Block)
unfolding Database.get block_decode
get_block id bc = block_of (Database.get id bc.db)

-- `BlockInfoByHash`
unfoldable pub block_info_by_hash : List ℕ → BlockChain → Result BlockInfo
unfolding Database.get info_decode
block_info_by_hash id bc = info_decode (Database.get (info_key id) bc.db)

-- `SetTotalDifficulty`
unfoldable pub set_total_difficulty : ℤ → BlockChain → BlockChain
unfolding Database.put big_bytes
set_total_difficulty td bc = record bc {
  td = td;
  db = Database.put last_known_key (big_bytes td) bc.db;
}

module _ (sha3 : List ℕ → List ℕ) where
  -- `writeBlockInfo`
  unfoldable pub write_block_info : Block → BlockChain → BlockChain
  unfolding Database.put info_encode block_hash
  write_block_info b bc =
      let number = u64 (bc.last_number + 1) in
      let id = block_hash sha3 b in
      record bc {
        last_number = number;
        db =
            Database.put (info_key id)
              (info_encode (record { number = number; id = id; parent = b.head.prev_hash })) bc.db;
      }

  -- `Add`
  unfoldable pub add : Block → BlockChain → BlockChain
  unfolding write_block_info Database.put block_encode block_hash
  add b bc =
      let noted = write_block_info b bc in
      let code = block_encode b in
      record noted {
        current = some b;
        last_hash = block_hash sha3 b;
        db = Database.put last_block_key code (Database.put (block_hash sha3 b) code noted.db);
      }

  -- The block that `ResetTillBlockHash` returns to, with its number.
  unfoldable pub return_to : List ℕ → BlockChain → Result (Block × ℕ)
  unfolding get_block block_hash
  return_to id bc = if list_eq id (block_hash sha3 bc.genesis) then ok (bc.genesis, 1) else (do
    found ← get_block id bc
    b ← or_panic found
    number ← or_panic b.head.number
    ok (b, big_uint64 number))

  -- `ResetTillBlockHash`: the loop that is to delete the blocks starts from a nil block and ends
  -- at once.
  unfoldable pub reset_till_block_hash : List ℕ → BlockChain → Result BlockChain
  unfolding return_to Database.delete
  reset_till_block_hash id bc = do
    (b, number) ← return_to id bc
    last ← or_panic bc.current
    ok (record bc {
      current = some b;
      last_hash = block_hash sha3 b;
      last_number = number;
      db = Database.delete (block_hash sha3 last) bc.db;
    })
