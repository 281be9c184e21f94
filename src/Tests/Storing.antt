-- ===== src/Tests/Storing.antt =====
-- Accounts and cells in the nodes of a trie (ethchain/state.go, ethutil/trie.go) at concrete inputs.
use goeth_self_training.Prelude.{
  ◌≡◌, refl, some, inl, arith, All, List, [], ◌∷◌, length, list_eq, if◌then◌else◌, ◌≤◌, ◌^◌, ℕ, ◌<◌,
}
use goeth_self_training.Prelude.Int.{ℤ, pos}
use goeth_self_training.Prelude.Result.{ok}
use goeth_self_training.Bytes.{IsByte, be_bytes, big_to_bytes, big_bytes}
use goeth_self_training.Item.{str, big, value}
use goeth_self_training.Value.{new_value}
use goeth_self_training.Rlp.RoundTrip.{length-encode_pos}
use goeth_self_training.Compact.{compact_encode, compact_decode}
use goeth_self_training.Rlp.{encode, encode_bytes, encode_big, slice_header}
use goeth_self_training.Trie.{Trie}
use goeth_self_training.Trie.Ops.{RawTrie, new_trie, update_key}
use goeth_self_training.Trie.Rep.{Coherent}
use goeth_self_training.Trie.Refines.{start, then_update, Updates-Stands}
use goeth_self_training.Trie.Instance.{by_nodes, IsSound}
use goeth_self_training.State.{
  StateObject, World, new_account, object_item, root_of, updated, update_state_object,
}
use goeth_self_training.State.Objects.{IsStorable, view, view-update_state_object}
use goeth_self_training.Stack.Memory
use goeth_self_training.Vm.OpCode.{Op}
use goeth_self_training.Vm.Machine.{Machine, set_storage}
use goeth_self_training.Vm.Exec.{running, or_fail, pushed, exec}
use goeth_self_training.Vm.Storage.{big_to_bytes-IsByte, cell, exec_sload-exec_sstore}
use goeth_self_training.Tests.Accounts.{
  bob, bob-bytes, empty_root-Fits, empty_root_short, IsShort-amount,
}
use goeth_self_training.Tests.Machine.{adds}
use goeth_self_training.Tests.Tries.{hash, hash_length, nothing, empty_trie}

abbrev nodes : Trie
nodes = by_nodes hash hash_length nothing 100

empty-IsSound : IsSound empty_trie
empty-IsSound = (_, Updates-Stands hash hash_length nothing start)

-- The first value of a trie.
one_update :
    (key v : List ℕ) (u : RawTrie)
    → All IsByte key
    → 1 ≤ length v
    → update_key hash nothing key v empty_trie ≡ ok u
    → Coherent u.cache.nodes
    → IsSound u
one_update key [] u bytes' full e co = absurd (omega (arith, full))
one_update key (b ∷ bs) u bytes' full e co =
    (_, Updates-Stands hash hash_length nothing (then_update key b bs start bytes' e co))

-- An account of bob, stored into a state without accounts.
abbrev nobody : World nodes
nobody = record { trie = empty_trie; states = []; heap = []; db = λ k. []; changed = [] }

abbrev bobs_account : StateObject
bobs_account = record (new_account bob (pos 70000)) { nonce = 9 }

bobs_account-IsStorable : IsStorable hash bobs_account 70000 (str [])
bobs_account-IsStorable = record {
  amount_eq = refl;
  amount_short = IsShort-amount 70000 (omega arith);
  nonce_small = omega arith;
  root_fits = empty_root-Fits;
  root_short = empty_root_short;
  hash_short = omega (arith, hash_length []);
}

no_root : root_of nodes nobody.heap bobs_account.state ≡ ok (str [])
unfolding root_of
no_root = refl

abbrev with_bob : World nodes
with_bob = updated nodes hash bobs_account (str []) nobody

stored_bob : update_state_object nodes hash bobs_account nobody ≡ ok with_bob
unfolding update_state_object
stored_bob = refl

with_bob_eq :
    update_key hash nothing bob (encode (object_item hash bobs_account (str []))) empty_trie
    ≡ ok with_bob.trie
unfolding update_key new_trie compact_encode compact_decode encode slice_header encode_bytes
    encode_big be_bytes big_bytes object_item updated set_storage big_to_bytes
    goeth_self_training.Value.new_value
with_bob_eq = refl

with_bob-Coherent : Coherent with_bob.trie.cache.nodes
unfolding update_key new_trie compact_encode compact_decode encode slice_header encode_bytes
    encode_big be_bytes big_bytes object_item updated set_storage big_to_bytes
    goeth_self_training.Value.new_value
with_bob-Coherent = ((λ v k. elim k [ ]), tt)

with_bob-IsSound : IsSound with_bob.trie
with_bob-IsSound =
    one_update bob (encode (object_item hash bobs_account (str []))) with_bob.trie bob-bytes
      (length-encode_pos (object_item hash bobs_account (str []))) with_bob_eq with_bob-Coherent

view-update_state_object_example :
    view nodes bob with_bob ≡ (if list_eq bob bob then ok (pos 70000, 9) else view nodes bob nobody)
view-update_state_object_example =
    view-update_state_object nodes hash bobs_account 70000 (str []) nobody with_bob
      bobs_account-IsStorable (inl (omega arith)) no_root stored_bob empty-IsSound with_bob-IsSound
      bob-bytes bob bob-bytes

-- The machine with 7 to be stored in the cell 0, and the number 9 below.
abbrev storing : Machine RawTrie
storing = record {
  stack = pos 0 ∷ pos 7 ∷ pos 9 ∷ [];
  mem = Memory.empty;
  pc = pos 0;
  gas = pos 500;
  used_gas = pos 0;
  storage = empty_trie;
  changes = [];
}

seven_small : length (be_bytes 7) < 2 ^ 16
unfolding be_bytes
seven_small = omega arith

abbrev with_cell : RawTrie
with_cell = set_storage nodes (pos 0) (pos 7) empty_trie

abbrev code : List ℕ
code = encode (new_value (value (big (some (pos 7)))))

with_cell_eq : update_key hash nothing (big_to_bytes (pos 0) 256) code empty_trie ≡ ok with_cell
unfolding update_key new_trie compact_encode compact_decode encode slice_header encode_bytes
    encode_big be_bytes big_bytes object_item updated set_storage big_to_bytes
    goeth_self_training.Value.new_value
with_cell_eq = refl

with_cell-Coherent : Coherent with_cell.cache.nodes
unfolding update_key new_trie compact_encode compact_decode encode slice_header encode_bytes
    encode_big be_bytes big_bytes object_item updated set_storage big_to_bytes
    goeth_self_training.Value.new_value
with_cell-Coherent = ((λ v k. elim k [ ]), tt)

stored-IsSound : IsSound with_cell
stored-IsSound =
    one_update (big_to_bytes (pos 0) 256) code with_cell (big_to_bytes-IsByte nodes (pos 0) 256)
      (length-encode_pos (new_value (value (big (some (pos 7)))))) with_cell_eq with_cell-Coherent

exec_sload-exec_sstore_example :
    (m' : Machine RawTrie) × (exec nodes adds Op.sstore storing ≡ running m')
    × (m'.stack ≡ pos 9 ∷ [])
    × ((k : ℤ) (rest : List ℤ)
        → exec nodes adds Op.sload (record m' { stack = k ∷ rest }) ≡ (
            let m'' = record m' { stack = rest } in
            or_fail m''
              (if list_eq (big_to_bytes (pos 0) 256) (big_to_bytes k 256)
                then ok (pos 7)
                else cell nodes k storing.storage)
              (λ z. pushed z m'')))
exec_sload-exec_sstore_example =
    exec_sload-exec_sstore nodes adds storing (pos 7) (pos 0) (pos 9 ∷ []) refl seven_small
      empty-IsSound stored-IsSound
