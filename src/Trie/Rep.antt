-- ===== src/Trie/Rep.antt =====
-- How the nodes of a trie stand for a tree: the values that the cache knows under their hashes, and
-- what a node stands for.
pub mod Lookup
pub mod Insert
pub mod Short
pub mod Update
use goeth_self_training.Prelude.{
  ℕ, zero, suc, ◌+◌, ◌<◌, ◌≤◌, ◌≡◌, ◌⊎◌, ◌∙◌, inl, inr, refl, sym, ap, ◌==◌, Bool, true, false,
  Option, some, none, List, [], ◌∷◌, if◌then◌else◌, length, list_eq, list_eq_refl, list_eq_sound,
  arith, Bool-cases,
}
use goeth_self_training.Prelude.Result.{ok}
use goeth_self_training.Item.{Item, Items, bytes, str, list, item, no_items}
use goeth_self_training.Compact.{compact_encode, compact_decode}
use goeth_self_training.Trie.Cache.{Node, Nodes, Cache, flat, find_node}
use goeth_self_training.Trie.Nodes.{pair}
use goeth_self_training.Trie.Tree.{Tree, Trees, empty, leaf, short, branch, no_trees, tree}

abbrev pub Holds : Option Node → Item → Type 0
Holds none v = ⊥
Holds (some n) v = n.value ≡ v

-- The value was written under the hash.
abbrev pub Known : Nodes → List ℕ → Item → Type 0
Known [] h v = ⊥
Known ((k, o) ∷ ns) h v = ((k ≡ h) × Holds o v) ⊎ Known ns h v

-- No two nodes of the cache share a hash, and none was deleted from it.
abbrev pub Coherent : Nodes → Type 0
Coherent [] = Unit
Coherent ((k, o) ∷ ns) = ((v : Item) → Known ns k v → Holds o v) × Coherent ns

abbrev pub Keeps : Nodes → Nodes → Type 0
Keeps ns ns' = (h : List ℕ) (v : Item) → Known ns h v → Known ns' h v

-- A list of a node: in its place, or in the cache under a hash.
pub data Stored (ns : Nodes) : Item → Items → Type 0 where
  here : (vs : Items) → Stored ns (list vs) vs
  hashed : (h : List ℕ) (vs : Items) → length h ≡ 32 → Known ns h (list vs) → Stored ns (bytes h) vs

-- The compact form of a path.
abbrev pub IsCode : List ℕ → List ℕ → Type 0
IsCode k code = (compact_encode k ≡ ok code) × (compact_decode code ≡ ok k)

abbrev pub two : Item → Item → Items
two a b = item a (item b no_items)

-- The tree that a node stands for.
abbrev mutual
  pub Rep : Nodes → Item → Tree → Type 0
  Rep ns node empty = node ≡ str []
  Rep ns node (leaf v) = node ≡ str v
  Rep ns node (short k t) =
      (code : List ℕ) × (child : Item) × IsCode k code
      × Stored ns node (two (str code) child)
      × Rep ns child t
  Rep ns node (branch ts) = (vs : Items) × Stored ns node vs × Reps ns vs ts

  pub Reps : Nodes → Items → Trees → Type 0
  Reps ns no_items no_trees = Unit
  Reps ns no_items (tree t ts) = ⊥
  Reps ns (item v vs) no_trees = ⊥
  Reps ns (item v vs) (tree t ts) = Rep ns v t × Reps ns vs ts

Stored-Keeps :
    {ns ns' : Nodes} {node : Item} {vs : Items}
    → Keeps ns ns'
    → Stored ns node vs
    → Stored ns' node vs
Stored-Keeps k (here vs) = here vs
Stored-Keeps k (hashed h vs l e) = hashed h vs l (k h (list vs) e)

mutual
  pub Rep-Keeps :
      (ns ns' : Nodes) (node : Item) (t : Tree) → Keeps ns ns' → Rep ns node t → Rep ns' node t
  Rep-Keeps ns ns' node empty k r = r
  Rep-Keeps ns ns' node (leaf v) k r = r
  Rep-Keeps ns ns' node (short p t) k (code, child, c, s, r) =
      (code, child, c, Stored-Keeps k s, Rep-Keeps ns ns' child t k r)
  Rep-Keeps ns ns' node (branch ts) k (vs, s, r) =
      (vs, Stored-Keeps k s, Reps-Keeps ns ns' vs ts k r)

  pub Reps-Keeps :
      (ns ns' : Nodes) (vs : Items) (ts : Trees) → Keeps ns ns' → Reps ns vs ts → Reps ns' vs ts
  Reps-Keeps ns ns' no_items no_trees k r = r
  Reps-Keeps ns ns' no_items (tree t ts) k r = absurd r
  Reps-Keeps ns ns' (item v vs) no_trees k r = absurd r
  Reps-Keeps ns ns' (item v vs) (tree t ts) k r =
      (Rep-Keeps ns ns' v t k r.0, Reps-Keeps ns ns' vs ts k r.1)

-- What was written under a hash is found there.
pub find_node-Known :
    (ns : Nodes) (h : List ℕ) (v : Item)
    → Coherent ns
    → Known ns h v
    → (n : Node) × (find_node h ns ≡ some n) × (n.value ≡ v)
unfolding find_node
find_node-Known [] h v c k = absurd k
find_node-Known ((g, none) ∷ ns) h v c (inl k) = absurd k.1
find_node-Known ((g, some n) ∷ ns) h v c (inl k) = (n, rw (k.0, list_eq_refl h) refl, k.1)
find_node-Known ((g, o) ∷ ns) h v c (inr k) = elim (Bool-cases (list_eq g h)) [
  | inl e ↦ rw e (held o (c.0 v (rw (list_eq_sound g h e) k)))
  | inr e ↦ rw e (find_node-Known ns h v c.1 k)
]
  where
    held : (o : Option Node) → Holds o v → (n : Node) × (o ≡ some n) × (n.value ≡ v)
    held none k' = absurd k'
    held (some n) k' = (n, refl, k')
