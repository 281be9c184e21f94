-- ===== src/Trie/Ops.antt =====
-- The methods of Trie in ethutil/trie.go, but for its iterator. A Trie is its two roots and its
-- cache; the lock is left out, since each method holds it. The fuel of a lookup or an update is one
-- more than the nibbles of its key, the terminator included.
use goeth_self_training.Prelude.{
  ℕ, ◌+◌, ◌==◌, List, [], ◌∷◌, list_eq, length, Bool, true, false, ◌&&◌, some, none,
}
use goeth_self_training.Prelude.Result.{Result, ok, ◌>>=◌}
use goeth_self_training.Item.{
  Item, Items, nil, int, sized, uint, uint8, uint16, uint32, uint64, big, bytes, str, list, value,
  no_items, item,
}
use goeth_self_training.Prelude.Int.{eqb_ℤ}
use goeth_self_training.Compact.{compact_hex_decode}
use goeth_self_training.Value.{new_value, to_str}
use goeth_self_training.Trie.Cache.{Cache, new_cache, commit, undo}
use goeth_self_training.Trie.Nodes.{get_state, insert_state}
use goeth_self_training.Trie.Nodes.Delete.{delete_state}

pub record RawTrie : Type 0 where
  pub prev_root : Item
  pub root : Item
  pub cache : Cache

-- `NewTrie`
unfoldable pub new_trie : (List ℕ → List ℕ) → Item → RawTrie
unfolding new_cache
new_trie db root = record { prev_root = root; root = root; cache = new_cache db }

-- `Sync` and `Undo`
unfoldable pub sync : RawTrie → RawTrie
unfolding commit
sync t = record { prev_root = t.root; root = t.root; cache = commit t.cache }

unfoldable pub undo_trie : RawTrie → RawTrie
unfolding undo
undo_trie t = record t { root = t.prev_root; cache = undo t.cache }

-- `Get`; a lookup may fill the cache.
unfoldable pub get_key : List ℕ → RawTrie → Result (List ℕ × RawTrie)
unfolding compact_hex_decode get_state new_value to_str
get_key key t = do
  let k = compact_hex_decode key
  (node, c) ← get_state (length k + 1) t.root k t.cache
  ok (to_str (new_value node), record t { cache = c })

module _ (sha3 : List ℕ → List ℕ) (beyond : List ℕ → List ℕ) where
  -- `UpdateState`: the empty value deletes.
  unfoldable pub update_state : ℕ → Item → List ℕ → List ℕ → Cache → Result (Item × Cache)
  unfolding insert_state delete_state
  update_state fuel node key [] c = delete_state sha3 beyond fuel node key c
  update_state fuel node key (b ∷ bs) c = insert_state sha3 fuel node key (str (b ∷ bs)) c

  -- `Update` and `Delete`
  unfoldable pub update_key : List ℕ → List ℕ → RawTrie → Result RawTrie
  unfolding compact_hex_decode update_state
  update_key key new t = do
    let k = compact_hex_decode key
    (root', c) ← update_state (length k + 1) t.root k new t.cache
    ok (record t { root = root'; cache = c })

  unfoldable pub delete_key : List ℕ → RawTrie → Result RawTrie
  unfolding update_key
  delete_key key t = update_key key [] t

-- `Cmp`, by reflect.DeepEqual of what the roots hold; the widths of the signed types are one here.
unfoldable mutual
  pub deep_equal : Item → Item → Bool
  deep_equal nil nil = true
  deep_equal (int a) (int b) = eqb_ℤ a b
  deep_equal (sized a) (sized b) = eqb_ℤ a b
  deep_equal (uint a) (uint b) = a == b
  deep_equal (uint8 a) (uint8 b) = a == b
  deep_equal (uint16 a) (uint16 b) = a == b
  deep_equal (uint32 a) (uint32 b) = a == b
  deep_equal (uint64 a) (uint64 b) = a == b
  deep_equal (big none) (big none) = true
  deep_equal (big (some a)) (big (some b)) = eqb_ℤ a b
  deep_equal (bytes s) (bytes t) = list_eq s t
  deep_equal (str s) (str t) = list_eq s t
  deep_equal (list us) (list vs) = deep_equal_items us vs
  deep_equal (value u) (value v) = deep_equal u v
  deep_equal u v = false

  pub deep_equal_items : Items → Items → Bool
  deep_equal_items no_items no_items = true
  deep_equal_items (item u us) (item v vs) = deep_equal u v && deep_equal_items us vs
  deep_equal_items us vs = false

unfoldable pub cmp : RawTrie → RawTrie → Bool
unfolding new_value deep_equal
cmp t u = deep_equal (new_value t.root) (new_value u.root)

-- `Copy` starts from the same root, database and nodes; the flag of the new cache is not set.
unfoldable pub copy : RawTrie → RawTrie
copy t = record { prev_root = t.root; root = t.root; cache = record t.cache { is_dirty = false } }
