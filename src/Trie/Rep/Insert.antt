-- ===== src/Trie/Rep/Insert.antt =====
-- `InsertState` of ethutil/trie.go on nodes that stand for a tree: the pieces of a node's change.
use goeth_self_training.Prelude.{
  subst, ℕ, zero, suc, ◌<◌, ◌≡◌, ◌⊎◌, inl, inr, refl, sym, ap, ◌==◌, leb, Bool, true, false, List,
  [], ◌∷◌, ◌++◌, length, All, arith, Bool-cases,
}
use goeth_self_training.Prelude.Result.{ok, Returns, Returns-bind, Returns-map}
use goeth_self_training.Item.{Item, Items, str, list, item, no_items}
use goeth_self_training.Rlp.{encode}
use goeth_self_training.Compact.RoundTrip.{IsNibble, key, compact_decode-compact_encode}
use goeth_self_training.Value
use goeth_self_training.Value.{new_value}
use goeth_self_training.Trie.Cache
use goeth_self_training.Trie.Cache.{Cache, Nodes}
use goeth_self_training.Trie.Nodes.{
  put_pair, prefixed, matching_nibble_length, empty_slots, set_slot, copied, copy_slots,
}
use goeth_self_training.Trie.Tree.{
  Tree, Trees, empty, leaf, short, branch, no_trees, tree, under, empty_trees, set_tree, grow,
  grow_at,
}
use goeth_self_training.Trie.Tree.Keys.{IsKey, IsPath}
use goeth_self_training.Trie.Tree.Laws.{length_trees}
use goeth_self_training.Trie.Rep.{Keeps, Stored, here, hashed, IsCode, two, Rep, Reps, Rep-Keeps}
use goeth_self_training.Trie.Rep.Lookup.{slot, Rep-new_value}

-- A node for the tree, in a cache that still knows what it knew.
abbrev pub Inserted : Cache → Tree → Item × Cache → Type 0
Inserted c t (node, c') = Keeps c.nodes c'.nodes × Rep c'.nodes node t

pub Keeps-trans : (a b c : Nodes) → Keeps a b → Keeps b c → Keeps a c
Keeps-trans a b c p q h v k = q h v (p h v k)

pub Inserted-Keeps :
    (c d : Cache) (t : Tree) (r : Item × Cache)
    → Keeps c.nodes d.nodes
    → Inserted d t r
    → Inserted c t r
Inserted-Keeps c d t (node, e) k i = (Keeps-trans c.nodes d.nodes e.nodes k i.0, i.1)

-- The compact form of a path.
ended-IsCode :
    (e : Bool) (body : List ℕ)
    → All IsNibble body
    → 0 < length (key e body)
    → (code : List ℕ) × IsCode (key e body) code
ended-IsCode e body a h =
    let (code, p, q) = compact_decode-compact_encode e body a h in (code, (p, q))

IsKey-body : (k : List ℕ) → IsKey k → (body : List ℕ) × All IsNibble body × (k ≡ body ++ 16 ∷ [])
IsKey-body [] h = absurd h
IsKey-body (x ∷ []) h = ([], tt, ap (λ y. y ∷ []) h)
IsKey-body (x ∷ y ∷ k) h =
    let (body, a, e) = IsKey-body (y ∷ k) h.1 in (x ∷ body, (h.0, a), ap (λ l. x ∷ l) e)

length-ended : (body : List ℕ) → 0 < length (body ++ 16 ∷ [])
length-ended [] = omega arith
length-ended (x ∷ body) = omega arith

pub IsPath-IsCode : (e : Bool) (k : List ℕ) → IsPath e k → (code : List ℕ) × IsCode k code
IsPath-IsCode true k p =
    let (body, a, s) = IsKey-body k p in
    let (code, c) = ended-IsCode true body a (length-ended body) in
    (code, subst (λ l. IsCode l code) (sym s) c)
IsPath-IsCode false [] p = absurd p
IsPath-IsCode false (x ∷ k) p = ended-IsCode false (x ∷ k) p (omega arith)

-- What may stand in front of a node: nothing, or a path.
abbrev pub IsFront : Bool → List ℕ → Type 0
IsFront e p = (p ≡ []) ⊎ IsPath e p

pub cons_nil : {x : ℕ} {p : List ℕ} → ¬ (x ∷ p ≡ [])
cons_nil h = cc

module _ (sha3 : List ℕ → List ℕ) (sha3_length : (s : List ℕ) → length (sha3 s) ≡ 32) where
  pub put-Stored :
      (vs : Items) (c : Cache)
      → let (node, c') = Cache.put sha3 (list vs) c in
        Keeps c.nodes c'.nodes × Stored c'.nodes node vs
  unfolding Cache.put new_value
  put-Stored vs c = elim (Bool-cases (leb 32 (length (encode (list vs))))) [
    | inl e ↦ rw e (
      (λ h v k. inr k),
      hashed (sha3 (encode (list vs))) vs (sha3_length (encode (list vs))) (inl (refl, refl)),
    )
    | inr e ↦ rw e ((λ h v k. k), here vs)
  ]

  pub put_pair-Inserted :
      (e : Bool) (k : List ℕ) (v : Item) (t : Tree) (c : Cache)
      → IsPath e k
      → Rep c.nodes v t
      → Returns (Inserted c (short k t)) (put_pair sha3 k v c)
  unfolding put_pair
  put_pair-Inserted e k v t c p r =
      let (code, d) = IsPath-IsCode e k p in
      let (keeps, s) = put-Stored (two (str code) v) c in
      rw d.0 (keeps, (code, v, d, s, Rep-Keeps c.nodes _ v t keeps r))

  pub prefixed-Inserted :
      (e : Bool) (p : List ℕ) (t : Tree) (c : Cache) (r : Item × Cache)
      → IsFront e p
      → Inserted c t r
      → Returns (Inserted c (under p t)) (prefixed sha3 p r)
  unfolding prefixed
  prefixed-Inserted e [] t c (node, d) f i = i
  prefixed-Inserted e (x ∷ p) t c (node, d) (inl f) i = absurd (cons_nil f)
  prefixed-Inserted e (x ∷ p) t c (node, d) (inr f) i =
      Returns-map (Inserted d (short (x ∷ p) t)) (Inserted c (short (x ∷ p) t))
        (put_pair sha3 (x ∷ p) node d) (λ r'. Inserted-Keeps c d (short (x ∷ p) t) r' i.0)
        (put_pair-Inserted e (x ∷ p) node t d f i.1)

pub set_slot-Reps :
    (ns : Nodes) (vs : Items) (ts : Trees) (x : ℕ) (v : Item) (t : Tree)
    → Reps ns vs ts
    → x < length_trees ts
    → Rep ns v t
    → Returns (λ us. Reps ns us (set_tree ts x t)) (set_slot vs x v)
unfolding set_slot
set_slot-Reps ns no_items no_trees x v t r l h = absurd (omega arith)
set_slot-Reps ns no_items (tree u us) x v t r l h = absurd r
set_slot-Reps ns (item w ws) no_trees x v t r l h = absurd r
set_slot-Reps ns (item w ws) (tree u us) zero v t r l h = (h, r.1)
set_slot-Reps ns (item w ws) (tree u us) (suc x) v t r l h =
    Returns-bind (λ vs'. Reps ns vs' (set_tree us x t))
      (λ vs'. Reps ns vs' (tree u (set_tree us x t))) (set_slot ws x v) (λ us'. ok (item w us'))
      (set_slot-Reps ns ws us x v t r.1 (omega arith) h) (λ a p. (r.0, p))

pub empty_slots-Reps : (ns : Nodes) (n : ℕ) → Reps ns (empty_slots n) (empty_trees n)
empty_slots-Reps ns zero = tt
empty_slots-Reps ns (suc n) = (refl, empty_slots-Reps ns n)

copied-Rep : (ns : Nodes) (v : Item) (t : Tree) → Rep ns v t → copied v ≡ v
copied-Rep ns v empty r = rw r refl
copied-Rep ns v (leaf w) r = rw r refl
copied-Rep ns v (short k t) (code, child, c, here _, r) = refl
copied-Rep ns v (short k t) (code, child, c, hashed h _ l e, r) = refl
copied-Rep ns v (branch ts) (vs, here _, r) = refl
copied-Rep ns v (branch ts) (vs, hashed h _ l e, r) = refl

copy_slots-suc :
    (n i : ℕ) (v : Item) (vs : Items)
    → copy_slots n (suc i) (list (item v vs)) ≡ copy_slots n i (list vs)
unfolding copy_slots Value.get
copy_slots-suc zero i v vs = refl
copy_slots-suc (suc n) i v vs =
    ap (λ us. item (copied (Value.get (list vs) i)) us) (copy_slots-suc n (suc i) v vs)

pub copy_slots-Reps :
    (ns : Nodes) (vs : Items) (ts : Trees)
    → Reps ns vs ts
    → Reps ns (copy_slots (length_trees ts) 0 (list vs)) ts
unfolding copy_slots Value.get
copy_slots-Reps ns no_items no_trees r = tt
copy_slots-Reps ns no_items (tree u us) r = absurd r
copy_slots-Reps ns (item v vs) no_trees r = absurd r
copy_slots-Reps ns (item v vs) (tree u us) r = (
  rw ((Rep-new_value ns v u r.0).0, copied-Rep ns v u r.0) r.0,
  rw copy_slots-suc (copy_slots-Reps ns vs us r.1),
)

pub grow_at-set_tree :
    (ts : Trees) (x : ℕ) (key w : List ℕ)
    → grow_at ts x key w ≡ set_tree ts x (grow (slot ts x) key w)
unfolding grow
grow_at-set_tree no_trees x key w = refl
grow_at-set_tree (tree t ts) zero key w = refl
grow_at-set_tree (tree t ts) (suc x) key w = ap (tree t) (grow_at-set_tree ts x key w)

-- The two keys match as far as they are in common.
pub matching-append :
    (p a b : List ℕ)
    → matching_nibble_length a b ≡ ok 0
    → matching_nibble_length (p ++ a) (p ++ b) ≡ ok (length p)
unfolding matching_nibble_length
matching-append [] a b h = h
matching-append (x ∷ p) a b h =
    let same : (x == x) ≡ true = ground arith in rw (same, matching-append p a b h) refl
