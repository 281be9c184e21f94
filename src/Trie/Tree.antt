-- ===== src/Trie/Tree.antt =====
-- A trie as a tree, independent of how its nodes are kept: a leaf under what is left of its key, a
-- path over a tree, and a branch of 17. A key is a list of nibbles with 16 at its end.
pub mod Keys
pub mod Laws
pub mod Shape
use goeth_self_training.Prelude.{
  ℕ, zero, suc, ◌+◌, ◌==◌, Bool, true, false, Option, some, none, List, [], ◌∷◌, ◌++◌,
  if◌then◌else◌, replicate,
}

mutual
  pub data Tree : Type 0 where
    empty : Tree
    leaf : List ℕ → Tree
    short : List ℕ → Tree → Tree
    branch : Trees → Tree

  pub data Trees : Type 0 where
    no_trees : Trees
    tree : Tree → Trees → Trees

-- What is left of a list behind its front `k`.
abbrev pub strip : List ℕ → List ℕ → Option (List ℕ)
strip [] j = some j
strip (x ∷ k) [] = none
strip (x ∷ k) (y ∷ j) = let rest = strip k j in if x == y then rest else none

-- The value of a key, or the empty one.
unfoldable mutual
  pub find : Tree → List ℕ → List ℕ
  find empty j = []
  find (leaf v) [] = v
  find (leaf v) (x ∷ j) = []
  find (short k t) j = elim (strip k j) [ none ↦ [] | some rest ↦ find t rest ]
  find (branch ts) [] = []
  find (branch ts) (x ∷ j) = find_at ts x j

  pub find_at : Trees → ℕ → List ℕ → List ℕ
  find_at no_trees x j = []
  find_at (tree t ts) zero j = find t j
  find_at (tree t ts) (suc x) j = find_at ts x j

-- The common front of two keys, and what is left of each.
abbrev pub common : List ℕ → List ℕ → List ℕ × List ℕ × List ℕ
common [] key = ([], [], key)
common (y ∷ k) [] = ([], y ∷ k, [])
common (y ∷ k) (x ∷ key) =
    let (p, k', key') = common k key in if y == x then (y ∷ p, k', key') else ([], y ∷ k, x ∷ key)

-- A path of no nibbles is left out.
abbrev pub under : List ℕ → Tree → Tree
under [] t = t
under (x ∷ p) t = short (x ∷ p) t

abbrev pub empty_trees : ℕ → Trees
empty_trees zero = no_trees
empty_trees (suc n) = tree empty (empty_trees n)

abbrev pub set_tree : Trees → ℕ → Tree → Trees
set_tree no_trees x t = no_trees
set_tree (tree u us) zero t = tree t us
set_tree (tree u us) (suc x) t = tree u (set_tree us x t)

-- A path over `t` and a leaf, which part at the first elements of two keys.
abbrev pub parted : List ℕ → Tree → List ℕ → List ℕ → Tree
parted (y ∷ k) t (x ∷ key) w =
    branch (set_tree (set_tree (empty_trees 17) y (under k t)) x (under key (leaf w)))
parted k t key w = empty

abbrev pub meet : List ℕ → Tree → Tree → List ℕ → List ℕ → Tree
meet [] t grown key w = grown
meet (y ∷ k) t grown key w = parted (y ∷ k) t key w

-- A value put under a key.
unfoldable mutual
  pub grow : Tree → List ℕ → List ℕ → Tree
  grow empty key w = under key (leaf w)
  grow (leaf v) key w = under key (leaf w)
  grow (short k t) key w =
      let (p, k', key') = common k key in
      let grown = grow t key' w in under p (meet k' t grown key' w)
  grow (branch ts) [] w = leaf w
  grow (branch ts) (x ∷ key) w = branch (grow_at ts x key w)

  pub grow_at : Trees → ℕ → List ℕ → List ℕ → Trees
  grow_at no_trees x key w = no_trees
  grow_at (tree t ts) zero key w = tree (grow t key w) ts
  grow_at (tree t ts) (suc x) key w = tree t (grow_at ts x key w)
