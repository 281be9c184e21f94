-- ===== src/Trie.antt =====
-- What the state of ethchain relies on of the trie of ethutil/trie.go: a store of byte strings
-- under byte strings. `IsGood` are the tries that are sound, such as those that were updated with values
-- only and where no two nodes share a hash; `Trie.Instance.by_nodes` is that trie, with the law proved
-- over its nodes. A deletion may lose keys, so that the law is on updates between good tries with a
-- key of bytes and a value that is not empty. `update` is `Trie.Update`, where the empty value deletes; `get` is
-- `Trie.Get`, where the empty value says that there is none; `root` is the field `Root`; `at_root`
-- is `NewTrie` over what the database holds. `copy` is `Trie.Copy`, `undo` is `Trie.Undo`, `sync` is
-- `Trie.Sync` with the database behind it, `purge` is `TrieIterator.Purge`.
pub mod Cache
pub mod Nodes
pub mod Ops
pub mod Iterator
pub mod Rep
pub mod Refines
pub mod Instance
pub mod Tree
use goeth_self_training.Prelude.{ℕ, ◌≤◌, List, [], ◌≡◌, list_eq, length, All, if◌then◌else◌, refl}
use goeth_self_training.Bytes.{IsByte}
use goeth_self_training.Item.{Item, str}

pub record Trie : Type 1 where
  pub T : Type 0
  pub get : T → List ℕ → List ℕ
  pub update : T → List ℕ → List ℕ → T
  pub root : T → Item
  pub at_root : (List ℕ → List ℕ) → Item → T
  pub copy : T → T
  pub undo : T → T
  pub sync : T → (List ℕ → List ℕ) → T × (List ℕ → List ℕ)
  pub purge : T → T
  pub IsGood : T → Type 0
  pub get-update :
      (t : T) (k v j : List ℕ)
      → IsGood t
      → IsGood (update t k v)
      → All IsByte k
      → All IsByte j
      → 1 ≤ length v
      → get (update t k v) j ≡ (if list_eq k j then v else get t j)

-- Functions from keys to values, for runs on concrete inputs.
abbrev pub by_function : Trie
by_function = record {
  T = List ℕ → List ℕ;
  get = λ t k. t k;
  update = λ t k v j. if list_eq k j then v else t j;
  root = λ t. str [];
  at_root = λ db r j. [];
  copy = λ t. t;
  undo = λ t. t;
  sync = λ t db. (t, db);
  purge = λ t. t;
  IsGood = λ t. Unit;
  get-update = λ t k v j before after key key' full. refl;
}
