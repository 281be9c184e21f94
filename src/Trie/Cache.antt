-- ===== src/Trie/Cache.antt =====
-- `Cache` of ethutil/trie.go. A Go map is the list of its writes, the newest first, of which the
-- first entry of a key counts; none stands for a deleted key. `sha3` is Sha3Bin.
use goeth_self_training.Prelude.{
  lookup, suc, ℕ, Bool, true, false, Option, some, none, List, [], ◌∷◌, list_eq, leb, ltb,
  if◌then◌else◌, length,
}
use goeth_self_training.Prelude.Result.{Result, ok, ◌>>=◌}
use goeth_self_training.Item.{Item, bytes}
use goeth_self_training.Rlp.{encode}
use goeth_self_training.Value.{new_value, new_value_from_bytes}

pub record Node : Type 0 where
  pub value : Item
  pub dirty : Bool

abbrev pub Nodes : Type 0
Nodes = List (List ℕ × Option Node)

pub record Cache : Type 0 where
  pub nodes : Nodes
  pub db : List ℕ → List ℕ
  pub is_dirty : Bool

-- cache.nodes[key]
abbrev pub flat {ℓ} : {A : Type ℓ} → Option (Option A) → Option A
flat none = none
flat (some o) = o

unfoldable pub find_node : List ℕ → Nodes → Option Node
find_node key nodes = flat (lookup key nodes)

unfoldable pub new_cache : (List ℕ → List ℕ) → Cache
new_cache db = record { nodes = []; db = db; is_dirty = false }

-- `Put`: a node of 32 bytes and more goes into the cache, and its hash stands for it.
unfoldable pub put : (List ℕ → List ℕ) → Item → Cache → Item × Cache
unfolding new_value
put sha3 v c =
    let enc = encode (new_value v) in
    let sha = sha3 enc in
    if leb 32 (length enc)
    then (
      bytes sha,
      record c {
        nodes = (sha, some (record { value = new_value v; dirty = true })) ∷ c.nodes;
        is_dirty = true;
      },
    )
    else (v, c)

-- `Get`: a node that is not in the cache is read from the database and cached.
unfoldable pub get : List ℕ → Cache → Result (Item × Cache)
unfolding find_node
get key c = elim (find_node key c.nodes) [
  | some n ↦ ok (n.value, c)
  | none ↦ new_value_from_bytes (c.db key) >>= λ v.
      ok (v, record c { nodes = (key, some (record { value = v; dirty = false })) ∷ c.nodes })
]

-- `Delete`, in the cache and in the database.
unfoldable pub delete : List ℕ → Cache → Cache
delete key c = record c {
  nodes = (key, none) ∷ c.nodes;
  db = λ k. if list_eq key k then [] else c.db k;
}

abbrev written : Option Node → List ℕ → List ℕ
written none old = old
written (some n) old = if n.dirty then encode n.value else old

-- The keys of the map, each once.
abbrev pub count_keys : Nodes → Nodes → ℕ
count_keys [] seen = 0
count_keys ((k, o) ∷ rest) seen =
    let more = count_keys rest ((k, o) ∷ seen) in
    elim (lookup k seen) [ some _ ↦ more | none ↦ elim o [ none ↦ more | some _ ↦ suc more ] ]

-- The loop of `Commit` clears the dirty flags.
abbrev pub clean : Nodes → Nodes
clean [] = []
clean ((k, none) ∷ rest) = (k, none) ∷ clean rest
clean ((k, some n) ∷ rest) = (k, some (record n { dirty = false })) ∷ clean rest

-- `Commit` writes the dirty nodes; a map of more than 200 nodes is emptied.
unfoldable pub commit : Cache → Cache
unfolding find_node
commit c =
    if c.is_dirty
    then record {
      nodes = if ltb 200 (count_keys c.nodes []) then [] else clean c.nodes;
      db = λ k. written (find_node k c.nodes) (c.db k);
      is_dirty = false;
    }
    else c

-- The loop of `Undo`: a dirty node is deleted from the map.
abbrev undone : Nodes → Nodes
undone [] = []
undone ((k, none) ∷ rest) = (k, none) ∷ undone rest
undone ((k, some n) ∷ rest) = (k, if n.dirty then none else some n) ∷ undone rest

unfoldable pub undo : Cache → Cache
undo c = record c { nodes = undone c.nodes; is_dirty = false }
