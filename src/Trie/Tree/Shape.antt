-- ===== src/Trie/Tree/Shape.antt =====
-- A tree keeps its shape when a value is put into it: paths lead to branches or, under the whole
-- rest of a key, to leaves.
use goeth_self_training.Prelude.{
  subst, ℕ, zero, suc, ◌+◌, ◌≡◌, ◌∙◌, inl, inr, refl, ap, ◌==◌, Bool, true, false, List, [], ◌∷◌,
  ◌++◌, All, arith, append-nil,
}
use goeth_self_training.Compact.RoundTrip.{IsNibble}
use goeth_self_training.Trie.Tree.{
  Tree, Trees, empty, leaf, short, branch, no_trees, tree, common, under, empty_trees, set_tree,
  parted, meet, grow, grow_at,
}
use goeth_self_training.Trie.Tree.Keys.{
  IsKey, IsRest, IsPath, IsKey-IsRest, common-Meets, common-Ways, Ways, parts,
}
use goeth_self_training.Trie.Tree.Laws.{IsTree, IsTrees, IsTop, length_trees, length-set_tree}

IsTrees-set_tree :
    (i : ℕ) (ts : Trees) (x : ℕ) (t : Tree)
    → IsTrees i ts
    → IsTree (i + x == 16) t
    → IsTrees i (set_tree ts x t)
IsTrees-set_tree i no_trees x t h k = h
IsTrees-set_tree i (tree u ts) zero t h k =
    let e : i + 0 ≡ i = omega arith in (subst (λ n. IsTree (n == 16) t) e k, h.1)
IsTrees-set_tree i (tree u ts) (suc x) t h k =
    let e : i + suc x ≡ suc i + x = omega arith in
    (h.0, IsTrees-set_tree (suc i) ts x t h.1 (subst (λ n. IsTree (n == 16) t) e k))

IsTrees-empty : (i n : ℕ) → IsTrees i (empty_trees n)
IsTrees-empty i zero = tt
IsTrees-empty i (suc n) = (tt, IsTrees-empty (suc i) n)

IsTree-leaf : (b : Bool) (a w : List ℕ) → IsRest b a → IsTree b (under a (leaf w))
IsTree-leaf true a w h = rw h tt
IsTree-leaf false [] w h = absurd h
IsTree-leaf false (x ∷ a) w h = (true, h, tt, tt)

-- What is left of a path behind an element stands in a slot of a branch.
IsTree-under :
    (e : Bool) (y : ℕ) (b : List ℕ) (t : Tree)
    → IsPath e (y ∷ b)
    → IsTop e t
    → IsTree e t
    → IsTree (y == 16) (under b t)
IsTree-under true y [] t p top h = rw p h
IsTree-under true y (z ∷ b) t p top h =
    let n : (y == 16) ≡ false = ground (arith, p.0) in rw n (true, p.1, top, h)
IsTree-under false y [] t p top h = let n : (y == 16) ≡ false = ground (arith, p.0) in rw n h
IsTree-under false y (z ∷ b) t p top h =
    let n : (y == 16) ≡ false = ground (arith, p.0) in rw n (false, p.1, top, h)

IsTree-parted :
    (e : Bool) (y x : ℕ) (b a : List ℕ) (t : Tree) (w : List ℕ)
    → IsPath e (y ∷ b)
    → IsKey (x ∷ a)
    → IsTop e t
    → IsTree e t
    → IsTree false (parted (y ∷ b) t (x ∷ a) w)
IsTree-parted e y x b a t w p k top h =
    let one = set_tree (empty_trees 17) y (under b t) in
    (
      length-set_tree one x (under a (leaf w)) ∙ length-set_tree (empty_trees 17) y (under b t),
      slots,
    )
  where
    at_zero : (z : ℕ) (u : Tree) → IsTree (z == 16) u → IsTree (0 + z == 16) u
    at_zero z u h' = let e' : z ≡ 0 + z = omega arith in subst (λ n. IsTree (n == 16) u) e' h'

    slots : IsTrees 0 (set_tree (set_tree (empty_trees 17) y (under b t)) x (under a (leaf w)))
    slots =
        IsTrees-set_tree 0 (set_tree (empty_trees 17) y (under b t)) x (under a (leaf w))
          (IsTrees-set_tree 0 (empty_trees 17) y (under b t) (IsTrees-empty 0 17)
            (at_zero y (under b t) (IsTree-under e y b t p top h)))
          (at_zero x (under a (leaf w)) (IsTree-leaf (x == 16) a w (IsKey-IsRest x a k)))

IsTree-branch :
    (p : List ℕ) (ts : Trees)
    → All IsNibble p
    → IsTree false (branch ts)
    → IsTree false (under p (branch ts))
IsTree-branch [] ts a h = h
IsTree-branch (x ∷ p) ts a h = (false, a, tt, h)

length-grow_at :
    (ts : Trees) (x : ℕ) (key w : List ℕ) → length_trees (grow_at ts x key w) ≡ length_trees ts
unfolding grow
length-grow_at no_trees x key w = refl
length-grow_at (tree t ts) zero key w = refl
length-grow_at (tree t ts) (suc x) key w = ap (λ n. suc n) (length-grow_at ts x key w)

IsTop-grow :
    (e : Bool) (t : Tree) (key w : List ℕ) → IsTop e t → IsRest e key → IsTop e (grow t key w)
unfolding grow
IsTop-grow true (leaf v) key w h k = rw k tt
IsTop-grow false (branch ts) [] w h k = absurd k
IsTop-grow false (branch ts) (x ∷ key) w h k = tt
IsTop-grow true empty key w h k = absurd h
IsTop-grow false empty key w h k = absurd h
IsTop-grow false (leaf v) key w h k = absurd h
IsTop-grow true (short _ _) key w h k = absurd h
IsTop-grow false (short _ _) key w h k = absurd h
IsTop-grow true (branch _) key w h k = absurd h

IsTree-path :
    (e : Bool) (p : List ℕ) (t : Tree)
    → IsPath e p
    → IsTop e t
    → IsTree e t
    → IsTree false (under p t)
IsTree-path true [] t p top h = absurd p
IsTree-path false [] t p top h = absurd p
IsTree-path e (x ∷ k) t p top h = (e, p, top, h)

IsTree-meet :
    (e : Bool) (t grown : Tree) (w p k' key' : List ℕ)
    → Ways e (p, k', key')
    → IsPath e (p ++ k')
    → IsTop e t
    → IsTree e t
    → (IsRest e key' → IsTop e grown × IsTree e grown)
    → IsTree false (under p (meet k' t grown key' w))
IsTree-meet e t grown w p k' key' (inl (done, rest)) path top h g =
    let (top', h') = g rest in
    rw done
      (IsTree-path e p grown (subst (IsPath e) (ap (λ l. p ++ l) done ∙ append-nil p) path) top' h')
IsTree-meet e t grown w p k' key' (inr (a, parts y x b c apart py hx)) path top h g =
    IsTree-branch p _ a (IsTree-parted e y x b c t w py hx top h)

mutual
  unfolding grow

  pub grow-IsTree :
      (b : Bool) (t : Tree) (key w : List ℕ) → IsTree b t → IsRest b key → IsTree b (grow t key w)
  grow-IsTree b empty key w h k = IsTree-leaf b key w k
  grow-IsTree true (leaf v) key w h k = IsTree-leaf true key w k
  grow-IsTree false (leaf v) key w h k = absurd h
  grow-IsTree true (short p t) key w h k = absurd h
  grow-IsTree false (short path t) key w (e, hp, top, ht) k =
      let (p, k', key') = common path key in
      let m = common-Meets path key in
      IsTree-meet e t (grow t key' w) w p k' key' (common-Ways e path key hp k)
        (subst (IsPath e) m.path_eq hp) top ht
        (λ r. (IsTop-grow e t key' w top r, grow-IsTree e t key' w ht r))
  grow-IsTree true (branch ts) key w h k = absurd h
  grow-IsTree false (branch ts) [] w h k = absurd k
  grow-IsTree false (branch ts) (x ∷ key) w h k = (
    length-grow_at ts x key w ∙ h.0,
    grow_at-IsTrees 0 ts x key w h.1 (
        let e : x ≡ 0 + x = omega arith in
        subst (λ n. IsRest (n == 16) key) e (IsKey-IsRest x key k)),
  )

  grow_at-IsTrees :
      (i : ℕ) (ts : Trees) (x : ℕ) (key w : List ℕ)
      → IsTrees i ts
      → IsRest (i + x == 16) key
      → IsTrees i (grow_at ts x key w)
  grow_at-IsTrees i no_trees x key w h k = h
  grow_at-IsTrees i (tree t ts) zero key w h k =
      let e : i + 0 ≡ i = omega arith in
      (grow-IsTree (i == 16) t key w h.0 (subst (λ n. IsRest (n == 16) key) e k), h.1)
  grow_at-IsTrees i (tree t ts) (suc x) key w h k =
      let e : i + suc x ≡ suc i + x = omega arith in
      (h.0, grow_at-IsTrees (suc i) ts x key w h.1 (subst (λ n. IsRest (n == 16) key) e k))
