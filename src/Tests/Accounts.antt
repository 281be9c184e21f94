-- ===== src/Tests/Accounts.antt =====
-- Accounts and transactions (ethchain/state.go, transaction_pool.go) at concrete inputs.
use goeth_self_training.Prelude.{
  ℕ, ◌<◌, ◌≤◌, ◌^◌, ◌≡◌, refl, inl, arith, All, zero, suc, List, [], ◌∷◌, length, list_eq,
  if◌then◌else◌, replicate,
}
use goeth_self_training.Prelude.Int.{pos}
use goeth_self_training.Prelude.Result.{ok}
use goeth_self_training.Bytes.{IsByte, be_bytes}
use goeth_self_training.Bytes.BigEndian.{length-be_bytes_le}
use goeth_self_training.Item.{str}
use goeth_self_training.Rlp.{encode, encode_bytes}
use goeth_self_training.Rlp.Plain.{Fits}
use goeth_self_training.Trie.{by_function}
use goeth_self_training.State.{
  StateObject, World, new_account, object_item, root_of, updated, update_state_object,
}
use goeth_self_training.State.Objects.{view}
use goeth_self_training.State.Fetch.{HasShortRoots}
use goeth_self_training.Transaction.{Transaction, new_transaction_message}
use goeth_self_training.TxPool.Transfer.{IsShort}
use goeth_self_training.TxPool.Refused.{Refused}

-- A hash function of 32 bytes, and a key recovery that finds the same key in every signature.
abbrev pub sevens : List ℕ → List ℕ
sevens t = replicate 32 7

abbrev pub one_key : List ℕ → List ℕ → List ℕ
one_key h sig = 4 ∷ 1 ∷ []

abbrev pub alice : List ℕ
alice = replicate 20 7

abbrev pub bob : List ℕ
bob = 1 ∷ 2 ∷ []

abbrev pub alice_account : ℕ → StateObject
alice_account amount = record (new_account alice (pos amount)) { nonce = 3 }

-- A state where only alice has an account, of the given amount and nonce 3.
abbrev pub alices_with : ℕ → World by_function
alices_with amount = record {
  trie = λ k.
      if list_eq alice k then encode (object_item sevens (alice_account amount) (str [])) else [];
  states = [];
  heap = [];
  db = λ k. [];
  changed = [];
}

abbrev pub alices : World by_function
alices = alices_with 1000

pub empty_root-Fits : Fits (str [])
unfolding Fits
empty_root-Fits = inl (omega arith)

pub empty_root_short : length (encode (str [])) ≤ 2 ^ 10
unfolding encode encode_bytes
empty_root_short = omega arith

pub roots : HasShortRoots by_function
roots = record { fits = λ t. empty_root-Fits; short = λ t. empty_root_short }

pub hashes_short : (t : List ℕ) → length (sevens t) ≤ 2 ^ 10
hashes_short t = omega arith

sees_bob : view by_function bob alices ≡ ok (pos 0, 0)
unfolding view goeth_self_training.State.get_account
sees_bob = refl

-- alice sends 100 at a gas of 2 and a price of 10.
abbrev pub payment : List ℕ → ℕ → Transaction
payment to n = record (new_transaction_message to (pos 100) (pos 2) (pos 10) []) { nonce = n }

pub IsShort-amount : (n : ℕ) → n < 2 ^ 64 → IsShort n
IsShort-amount n h = omega (arith, length-be_bytes_le 8 n h)

-- The addresses are bytes.
sevens-bytes : (n : ℕ) → All IsByte (replicate n 7)
sevens-bytes zero = tt
sevens-bytes (suc n) = (omega arith, sevens-bytes n)

pub alice-bytes : All IsByte alice
alice-bytes = sevens-bytes 20

pub bob-bytes : All IsByte bob
bob-bytes = (omega arith, (omega arith, tt))
