-- ===== src/Trie/Refines.antt =====
-- `Get`, `Update` and `Sync` of a Trie (ethutil/trie.go) against a map from keys to values: the tree
-- that the root stands for, and the list of the updates.
use goeth_self_training.Prelude.{
  subst, ℕ, ◌+◌, ◌/◌, ◌%◌, ◌<◌, ◌≡◌, ◌∙◌, refl, false, List, [], ◌∷◌, ◌++◌, if◌then◌else◌, length,
  All, list_eq, arith,
}
use goeth_self_training.Prelude.Result.{ok, Returns, Returns-bind, Returns-ok}
use goeth_self_training.Bytes.{IsByte}
use goeth_self_training.Item.{str}
use goeth_self_training.Compact.{nibbles, compact_hex_decode}
use goeth_self_training.Value.{new_value, to_str}
use goeth_self_training.Trie.Nodes.{insert_state}
use goeth_self_training.Trie.Ops.{RawTrie, new_trie, get_key, update_state, update_key}
use goeth_self_training.Trie.Tree.{Tree, empty, find, grow}
use goeth_self_training.Trie.Tree.Keys.{IsKey}
use goeth_self_training.Trie.Tree.Laws.{IsTree, grow_find}
use goeth_self_training.Trie.Tree.Shape.{grow-IsTree}
use goeth_self_training.Trie.Rep.{Coherent, Rep}
use goeth_self_training.Trie.Rep.Lookup.{get_state_lem}
use goeth_self_training.Trie.Rep.Insert.{Inserted}
use goeth_self_training.Trie.Rep.Update.{insert_state_lem}

-- The root stands for the tree, in a cache where no two nodes share a hash.
pub record Stands (t : RawTrie) (tree : Tree) : Type 0 where
  pub coherent : Coherent t.cache.nodes
  pub rep : Rep t.cache.nodes t.root tree
  pub shape : IsTree false tree

IsKey-nibbles_of : (s : List ℕ) → IsKey (nibbles s ++ 16 ∷ [])
unfolding nibbles
IsKey-nibbles_of [] = refl
IsKey-nibbles_of (b ∷ s) =
    let high : b / 16 % 16 < 16 = omega arith in
    let low : b % 16 < 16 = omega arith in
    (high, before (b % 16) (nibbles s) low (IsKey-nibbles_of s))
  where
    before : (n : ℕ) (k : List ℕ) → n < 16 → IsKey (k ++ 16 ∷ []) → IsKey (n ∷ k ++ 16 ∷ [])
    before n [] h k' = (h, k')
    before n (x ∷ k) h k' = (h, k')

pub compact_hex_decode-IsKey : (s : List ℕ) → IsKey (compact_hex_decode s)
unfolding compact_hex_decode
compact_hex_decode-IsKey s = IsKey-nibbles_of s

pub get_key-find :
    (t : RawTrie) (tree : Tree) (key : List ℕ)
    → Stands t tree
    → get_key key t ≡ ok (find tree (compact_hex_decode key), t)
unfolding get_key to_str new_value
get_key-find t tree key s =
    let k = compact_hex_decode key in
    rw
      (get_state_lem (length k + 1) t.cache s.coherent false tree k t.root (omega arith) s.rep
        s.shape (compact_hex_decode-IsKey key))
      refl

list_eq-nibbles :
    (s u : List ℕ)
    → All IsByte s
    → All IsByte u
    → list_eq (nibbles s ++ 16 ∷ []) (nibbles u ++ 16 ∷ []) ≡ list_eq s u
unfolding nibbles
list_eq-nibbles [] [] a b = ground arith
list_eq-nibbles [] (y ∷ u) a b = ground arith
list_eq-nibbles (x ∷ s) [] a b = ground arith
list_eq-nibbles (x ∷ s) (y ∷ u) a b = ground (arith, a.0, b.0, list_eq-nibbles s u a.1 b.1)

pub list_eq-compact_hex_decode :
    (s u : List ℕ)
    → All IsByte s
    → All IsByte u
    → list_eq (compact_hex_decode s) (compact_hex_decode u) ≡ list_eq s u
unfolding compact_hex_decode
list_eq-compact_hex_decode s u a b = list_eq-nibbles s u a b

-- What a map holds under a key after some updates, the latest first.
abbrev pub latest : List (List ℕ × List ℕ) → List ℕ → List ℕ
latest [] j = []
latest ((k, w) ∷ history) j = if list_eq k j then w else latest history j

module _ (sha3 : List ℕ → List ℕ) (sha3_length : (s : List ℕ) → length (sha3 s) ≡ 32)
    (beyond : List ℕ → List ℕ) where
  pub update_key-Stands :
      (t : RawTrie) (tree : Tree) (key : List ℕ) (b : ℕ) (bs : List ℕ)
      → Stands t tree
      → Returns
          (λ u. Coherent u.cache.nodes → Stands u (grow tree (compact_hex_decode key) (b ∷ bs)))
          (update_key sha3 beyond key (b ∷ bs) t)
  unfolding update_key update_state
  update_key-Stands t tree key b bs s =
      let k = compact_hex_decode key in
      Returns-bind (Inserted t.cache (grow tree k (b ∷ bs)))
        (λ u. Coherent u.cache.nodes → Stands u (grow tree k (b ∷ bs)))
        (insert_state sha3 (length k + 1) t.root k (str (b ∷ bs)) t.cache) _
        (insert_state_lem sha3 sha3_length (length k + 1) t.cache (b ∷ bs) s.coherent false tree k
          t.root (omega arith) s.rep s.shape (compact_hex_decode-IsKey key))
        (λ (root, c) (keeps, r) co. record {
          coherent = co;
          rep = r;
          shape = grow-IsTree false tree k (b ∷ bs) s.shape (compact_hex_decode-IsKey key);
        })

  -- The updates of a trie that started empty, the latest first: the keys are bytes, no value is
  -- empty, and no two nodes of the cache come to share a hash.
  pub data Updates (db : List ℕ → List ℕ) : RawTrie → List (List ℕ × List ℕ) → Type 0 where
    start : Updates db (new_trie db (str [])) []
    then_update :
        {t u : RawTrie} {history : List (List ℕ × List ℕ)} (key : List ℕ) (b : ℕ) (bs : List ℕ)
        → Updates db t history
        → All IsByte key
        → update_key sha3 beyond key (b ∷ bs) t ≡ ok u
        → Coherent u.cache.nodes
        → Updates db u ((key, b ∷ bs) ∷ history)

  -- The tree of a history of updates.
  abbrev pub grown : List (List ℕ × List ℕ) → Tree
  grown [] = empty
  grown ((k, w) ∷ history) = grow (grown history) (compact_hex_decode k) w

  pub Updates-Stands :
      {db : List ℕ → List ℕ} {t : RawTrie} {history : List (List ℕ × List ℕ)}
      → Updates db t history
      → Stands t (grown history)
  unfolding new_trie
  Updates-Stands start = record { coherent = tt; rep = refl; shape = tt }
  Updates-Stands (then_update {t = t} {history = history} key b bs us bytes e co) =
      subst
        (Returns (λ v.
          Coherent v.cache.nodes
          → Stands v (grow (grown history) (compact_hex_decode key) (b ∷ bs))))
        e (update_key-Stands t (grown history) key b bs (Updates-Stands us)) co

  pub find-grown :
      {db : List ℕ → List ℕ} {t : RawTrie} {history : List (List ℕ × List ℕ)} (j : List ℕ)
      → Updates db t history
      → All IsByte j
      → find (grown history) (compact_hex_decode j) ≡ latest history j
  find-grown j start h = unfold find in refl
  find-grown j (then_update {history = history} key b bs us bytes e co) h =
      grow_find false (grown history) (compact_hex_decode key) (compact_hex_decode j) (b ∷ bs)
        (Updates-Stands us).shape (compact_hex_decode-IsKey key) (compact_hex_decode-IsKey j)
      ∙ rw (list_eq-compact_hex_decode key j bytes h, find-grown j us h) refl

  -- After any updates of a trie that started empty, `Get` of a key returns the value that was put
  -- last under it, or the empty one, and leaves the trie as it is. The keys are bytes, no value is
  -- empty, the hash is 32 bytes long and no two nodes of the cache came to share one.
  pub get_key-Updates :
      (db : List ℕ → List ℕ) (t : RawTrie) (history : List (List ℕ × List ℕ)) (j : List ℕ)
      → Updates db t history
      → All IsByte j
      → get_key j t ≡ ok (latest history j, t)
  get_key-Updates db t history j us h =
      get_key-find t (grown history) j (Updates-Stands us) ∙ rw (find-grown j us h) refl

  -- After any updates of a trie that started empty, with keys of bytes and values that are not empty,
  -- where the hash is 32 bytes long and no two nodes of the cache came to share one: the next `Update`
  -- with such a key and value yields a trie (it neither panics nor runs out of its fuel), and that is
  -- one more update, where no two nodes of its cache share a hash.
  pub update_key-Updates :
      (db : List ℕ → List ℕ) (t : RawTrie) (history : List (List ℕ × List ℕ)) (key : List ℕ) (b : ℕ)
      (bs : List ℕ)
      → Updates db t history
      → All IsByte key
      → (u : RawTrie) × (update_key sha3 beyond key (b ∷ bs) t ≡ ok u)
        × (Coherent u.cache.nodes → Updates db u ((key, b ∷ bs) ∷ history))
  update_key-Updates db t history key b bs us h =
      let (u, e) =
        Returns-ok _ (update_key sha3 beyond key (b ∷ bs) t)
          (update_key-Stands t (grown history) key b bs (Updates-Stands us)) in
      (u, e, λ co. then_update key b bs us h e co)
