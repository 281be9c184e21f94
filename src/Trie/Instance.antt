-- ===== src/Trie/Instance.antt =====
-- The trie of ethutil/trie.go as the state of ethchain uses it: its nodes, with the law of `get` and
-- `update` from what they do on the tree that the root stands for. A call that panics leaves the trie,
-- and a lookup that panics finds nothing.
use goeth_self_training.Prelude.{
  ℕ, ◌≤◌, ◌≡◌, ◌∙◌, refl, ap, subst, arith, false, List, [], ◌∷◌, if◌then◌else◌, list_eq, length,
  All,
}
use goeth_self_training.Prelude.Result.{Result, ok, panic, out_of_fuel, Returns, Returns-ok}
use goeth_self_training.Bytes.{IsByte}
use goeth_self_training.Compact.{compact_hex_decode}
use goeth_self_training.Trie.{Trie}
use goeth_self_training.Trie.Ops.{RawTrie, new_trie, sync, undo_trie, copy, get_key, update_key}
use goeth_self_training.Trie.Iterator.{purge}
use goeth_self_training.Trie.Tree.{Tree, find, grow}
use goeth_self_training.Trie.Rep.{Coherent}
use goeth_self_training.Trie.Tree.Laws.{grow_find}
use goeth_self_training.Trie.Refines.{
  Stands, get_key-find, update_key-Stands, compact_hex_decode-IsKey, list_eq-compact_hex_decode,
}

-- The bytes that a lookup found.
abbrev found_bytes : Result (List ℕ × RawTrie) → List ℕ
found_bytes (ok (s, t)) = s
found_bytes panic = []
found_bytes out_of_fuel = []

abbrev pub trie_or : RawTrie → Result RawTrie → RawTrie
trie_or t (ok u) = u
trie_or t panic = t
trie_or t out_of_fuel = t

abbrev purged_or : RawTrie → Result (ℕ × RawTrie) → RawTrie
purged_or t (ok (n, u)) = u
purged_or t panic = t
purged_or t out_of_fuel = t

-- `Sync` with the database that is there now.
abbrev synced : RawTrie → (List ℕ → List ℕ) → RawTrie
synced t db = sync (record t { cache = record t.cache { db = db } })

-- The root stands for a tree, in a cache where no two nodes share a hash.
abbrev pub IsSound : RawTrie → Type 0
IsSound t = (tree : Tree) × Stands t tree

found_bytes-find :
    (t : RawTrie) (tree : Tree) (j : List ℕ)
    → Stands t tree
    → found_bytes (get_key j t) ≡ find tree (compact_hex_decode j)
found_bytes-find t tree j s = rw (get_key-find t tree j s)

module _ (sha3 : List ℕ → List ℕ) (sha3_length : (s : List ℕ) → length (sha3 s) ≡ 32)
    (beyond : List ℕ → List ℕ) where
  -- `Get` after `Update`, where the trie is sound before and after.
  pub nodes_get-update :
      (t : RawTrie) (k v j : List ℕ)
      → IsSound t
      → IsSound (trie_or t (update_key sha3 beyond k v t))
      → All IsByte k
      → All IsByte j
      → 1 ≤ length v
      → found_bytes (get_key j (trie_or t (update_key sha3 beyond k v t)))
        ≡ (if list_eq k j then v else found_bytes (get_key j t))
  nodes_get-update t k [] j before after key key' full = absurd (omega (arith, full))
  nodes_get-update t k (b ∷ bs) j (tree, s) (tree', s') key key' full =
      let stands = update_key-Stands sha3 sha3_length beyond t tree k b bs s in
      let (u, e) = Returns-ok _ (update_key sha3 beyond k (b ∷ bs) t) stands in
      let grown : Tree = grow tree (compact_hex_decode k) (b ∷ bs) in
      let is_u : trie_or t (update_key sha3 beyond k (b ∷ bs) t) ≡ u = ap (trie_or t) e in
      let r : Stands u grown =
        subst (Returns (λ w. Coherent w.cache.nodes → Stands w grown)) e stands
          (subst (λ w. Coherent w.cache.nodes) is_u s'.coherent) in
      ap (λ w. found_bytes (get_key j w)) is_u
      ∙ (found_bytes-find u grown j r
          ∙ grow_find false tree (compact_hex_decode k) (compact_hex_decode j) (b ∷ bs) s.shape
              (compact_hex_decode-IsKey k) (compact_hex_decode-IsKey j)
          ∙ rw (list_eq-compact_hex_decode k j key key', found_bytes-find t tree j s) refl)

  -- The nodes; the fuel is for `Purge`.
  abbrev pub by_nodes : ℕ → Trie
  by_nodes fuel = record {
    T = RawTrie;
    get = λ t k. found_bytes (get_key k t);
    update = λ t k v. trie_or t (update_key sha3 beyond k v t);
    root = λ t. t.root;
    at_root = λ db r. new_trie db r;
    copy = λ t. copy t;
    undo = λ t. undo_trie t;
    sync = λ t db. let u = synced t db in (u, u.cache.db);
    purge = λ t. purged_or t (purge fuel t);
    IsGood = IsSound;
    get-update = nodes_get-update;
  }
