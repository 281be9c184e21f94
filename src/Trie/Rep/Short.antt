-- ===== src/Trie/Rep/Short.antt =====
-- `InsertState` of ethutil/trie.go on a node of two items that stands for a path over a tree.
use goeth_self_training.Prelude.{
  subst, ℕ, suc, ◌<◌, ◌≡◌, inl, inr, refl, ◌==◌, Bool, true, false, List, [], ◌∷◌, ◌++◌, length,
  length-append, take-append, drop, drop-append, get_elem?-append, All, list_eq, list_eq_refl,
  arith, append-nil,
}
use goeth_self_training.Prelude.Result.{ok, Returns, Returns-bind}
use goeth_self_training.Item.{Item, Items, str, list}
use goeth_self_training.Compact.{compact_decode}
use goeth_self_training.Compact.RoundTrip.{IsNibble}
use goeth_self_training.Value
use goeth_self_training.Value.{new_value, to_str, len, is_nil}
use goeth_self_training.Trie.Cache
use goeth_self_training.Trie.Cache.{Cache, Nodes}
use goeth_self_training.Trie.Nodes.{
  prefixed, matching_nibble_length, empty_slots, set_slot, fork, Inserter, insert_short,
  insert_step, insert_state, is_fresh,
}
use goeth_self_training.Trie.Tree.{
  Tree, Trees, empty, leaf, short, branch, under, empty_trees, set_tree, parted, meet, grow,
}
use goeth_self_training.Trie.Tree.Keys.{IsKey, IsRest, IsPath, IsKey-le, IsPath-le, Ways, parts}
use goeth_self_training.Trie.Tree.Laws.{IsTree, IsTop, length-set_tree}
use goeth_self_training.Trie.Rep.{Keeps, two, Rep, Reps, Rep-Keeps, Reps-Keeps}
use goeth_self_training.Trie.Rep.Lookup.{Rep-new_value}
use goeth_self_training.Trie.Rep.Insert.{
  cons_nil, Inserted, Keeps-trans, put-Stored, put_pair-Inserted, IsFront, prefixed-Inserted,
  set_slot-Reps, empty_slots-Reps, matching-append,
}

drop-append_suc : (p b : List ℕ) (y : ℕ) → drop (suc (length p)) (p ++ y ∷ b) ≡ b
drop-append_suc [] b y = refl
drop-append_suc (x ∷ p) b y = drop-append_suc p b y

list_eq-common : (p a b : List ℕ) → list_eq (p ++ a) (p ++ b) ≡ list_eq a b
list_eq-common [] a b = refl
list_eq-common (x ∷ p) a b =
    let same : (x == x) ≡ true = ground arith in rw (same, list_eq-common p a b) refl

nibbles-IsFront : (p : List ℕ) → All IsNibble p → IsFront false p
nibbles-IsFront [] a = inl refl
nibbles-IsFront (x ∷ p) a = inr a

IsPath-tail : (e : Bool) (y : ℕ) (b : List ℕ) → IsPath e (y ∷ b) → IsFront e b
IsPath-tail e y [] p = inl refl
IsPath-tail true y (z ∷ b) p = inr p.1
IsPath-tail false y (z ∷ b) p = inr p.1

-- A call that starts from no node puts what it is given under the key.
abbrev pub Fresh : Inserter → Type 0
Fresh rec =
    (e : Bool) (key : List ℕ) (v : Item) (t : Tree) (c : Cache)
    → IsFront e key
    → Rep c.nodes v t
    → Returns (Inserted c (under key t)) (rec (str []) key v c)

-- A call puts the value into the tree that its node stands for, under each shorter key.
abbrev pub Inserts : Inserter → Cache → ℕ → List ℕ → Type 0
Inserts rec c n w =
    (b : Bool) (t : Tree) (key : List ℕ) (node : Item)
    → length key < n
    → Rep c.nodes node t
    → IsTree b t
    → IsRest b key
    → Returns (Inserted c (grow t key w)) (rec node key (str w) c)

module _ (sha3 : List ℕ → List ℕ) (sha3_length : (s : List ℕ) → length (sha3 s) ≡ 32) where
  pub put-Inserted :
      (vs : Items) (ts : Trees) (c d : Cache)
      → Keeps c.nodes d.nodes
      → Reps d.nodes vs ts
      → Inserted c (branch ts) (Cache.put sha3 (list vs) d)
  put-Inserted vs ts c d k r =
      let (keeps, s) = put-Stored sha3 sha3_length vs d in
      (Keeps-trans c.nodes d.nodes _ k keeps, (vs, s, Reps-Keeps d.nodes _ vs ts keeps r))

  pub insert_state-Fresh : (fuel : ℕ) → Fresh (insert_state sha3 (suc fuel))
  unfolding insert_state insert_step is_fresh new_value
  insert_state-Fresh fuel e [] v t c f r = ((λ h u k. k), r)
  insert_state-Fresh fuel e (x ∷ key) v t c (inl f) r = absurd (cons_nil f)
  insert_state-Fresh fuel e (x ∷ key) v t c (inr f) r =
      put_pair-Inserted sha3 sha3_length e (x ∷ key) v t c f r

  fork-Inserted :
      (rec : Inserter) (e : Bool) (p b a w : List ℕ) (y x : ℕ) (v : Item) (t : Tree) (c : Cache)
      → Fresh rec
      → IsPath e (y ∷ b)
      → IsKey (x ∷ a)
      → Rep c.nodes v t
      → Returns
          (Inserted c (parted (y ∷ b) t (x ∷ a) w))
          (fork sha3 rec (length p) (p ++ y ∷ b) v (p ++ x ∷ a) (str w) c)
  unfolding fork
  fork-Inserted rec e p b a w y x v t c fresh hy hx r =
      let goal = Inserted c (parted (y ∷ b) t (x ∷ a) w) in
      let one = set_tree (empty_trees 17) y (under b t) in
      rw
        (
          drop-append_suc p b y,
          drop-append_suc p a x,
          get_elem?-append p b y,
          get_elem?-append p a x,
        )
        (Returns-bind (Inserted c (under b t)) goal (rec (str []) b v c) _
          (fresh e b v t c (IsPath-tail e y b hy) r)
          (λ (old, c₁) (keeps₁, r₁).
            Returns-bind (Inserted c₁ (under a (leaf w))) goal (rec (str []) a (str w) c₁) _
              (fresh true a (str w) (leaf w) c₁ (IsPath-tail true x a hx) refl)
              (λ (new, c₂) (keeps₂, r₂).
                Returns-bind (λ us. Reps c₂.nodes us one) goal (set_slot (empty_slots 17) y old) _
                  (set_slot-Reps c₂.nodes (empty_slots 17) (empty_trees 17) y old (under b t)
                    (empty_slots-Reps c₂.nodes 17) (IsPath-le e y b hy)
                    (Rep-Keeps c₁.nodes c₂.nodes old (under b t) keeps₂ r₁))
                  (λ us ru.
                    Returns-bind (λ us'. Reps c₂.nodes us' (set_tree one x (under a (leaf w)))) goal
                      (set_slot us x new) _
                      (set_slot-Reps c₂.nodes us one x new (under a (leaf w)) ru
                        (omega
                          (arith, IsKey-le x a hx, length-set_tree (empty_trees 17) y (under b t)))
                        r₂)
                      (λ us' ru'.
                        put-Inserted us' (set_tree one x (under a (leaf w))) c c₂
                          (Keeps-trans c.nodes c₁.nodes c₂.nodes keeps₁ keeps₂) ru')))))

  -- The value of a leaf is replaced.
  replaced-Inserted :
      (p w code : List ℕ) (child : Item) (t : Tree) (rec : Inserter) (c : Cache)
      → compact_decode code ≡ ok (p ++ [])
      → IsPath true (p ++ [])
      → IsTop true t
      → Returns
          (Inserted c (under p (grow t [] w)))
          (insert_short sha3 rec (list (two (str code) child)) (p ++ []) (str w) c)
  unfolding insert_short Value.get to_str new_value grow
  replaced-Inserted [] w code child t rec c d path top = absurd path
  replaced-Inserted (x ∷ p) w code child empty rec c d path top = elim top [ ]
  replaced-Inserted (x ∷ p) w code child (short _ _) rec c d path top = elim top [ ]
  replaced-Inserted (x ∷ p) w code child (branch _) rec c d path top = elim top [ ]
  replaced-Inserted (x ∷ p) w code child (leaf v) rec c d path top =
      rw (d, list_eq_refl (x ∷ p ++ []))
        (rw append-nil (
          put_pair-Inserted sha3 sha3_length true (x ∷ p) (str w) (leaf w) c
            (subst (λ l. IsPath true (x ∷ l)) (append-nil p) path) refl))

  -- The path is whole in front of the key.
  below-Inserted :
      (p a w code : List ℕ) (x : ℕ) (child : Item) (t : Tree) (rec : Inserter) (c : Cache)
      → compact_decode code ≡ ok (p ++ [])
      → IsPath false (p ++ [])
      → Rep c.nodes child t
      → Returns (Inserted c (grow t (x ∷ a) w)) (rec child (x ∷ a) (str w) c)
      → Returns
          (Inserted c (under p (grow t (x ∷ a) w)))
          (insert_short sha3 rec (list (two (str code) child)) (p ++ x ∷ a) (str w) c)
  unfolding insert_short Value.get to_str matching_nibble_length
  below-Inserted p a w code x child t rec c d path r h =
      let whole : (length p == length (p ++ [])) ≡ true = ground (arith, length-append p []) in
      let front : IsPath false p = subst (IsPath false) (append-nil p) path in
      rw (d, list_eq-common p [] (x ∷ a))
        (rw
          (
            matching-append p (x ∷ a) [] refl,
            whole,
            drop-append p (x ∷ a),
            take-append p (x ∷ a),
            (Rep-new_value c.nodes child t r).0,
          )
          (Returns-bind (Inserted c (grow t (x ∷ a) w)) (Inserted c (under p (grow t (x ∷ a) w)))
            (rec child (x ∷ a) (str w) c) (λ m. prefixed sha3 p m) h
            (λ m. prefixed-Inserted sha3 sha3_length false p (grow t (x ∷ a) w) c m (inr front))))

  -- The path and the key part.
  apart-Inserted :
      (e : Bool) (p b a w code : List ℕ) (y x : ℕ) (child : Item) (t : Tree) (rec : Inserter)
      (c : Cache)
      → compact_decode code ≡ ok (p ++ y ∷ b)
      → (y == x) ≡ false
      → All IsNibble p
      → IsPath e (y ∷ b)
      → IsKey (x ∷ a)
      → Rep c.nodes child t
      → Fresh rec
      → Returns
          (Inserted c (under p (parted (y ∷ b) t (x ∷ a) w)))
          (insert_short sha3 rec (list (two (str code) child)) (p ++ x ∷ a) (str w) c)
  unfolding insert_short Value.get to_str matching_nibble_length
  apart-Inserted e p b a w code y x child t rec c d ne nib hy hx r fresh =
      let ne' : (x == y) ≡ false = ground (arith, ne) in
      let inside : (length p == length (p ++ y ∷ b)) ≡ false =
        ground (arith, length-append p (y ∷ b)) in
      rw (d, list_eq-common p (y ∷ b) (x ∷ a), ne)
        (rw
          (
            matching-append p (x ∷ a) (y ∷ b) (rw ne' refl),
            inside,
            take-append p (x ∷ a),
            (Rep-new_value c.nodes child t r).0,
          )
          (Returns-bind (Inserted c (parted (y ∷ b) t (x ∷ a) w))
            (Inserted c (under p (parted (y ∷ b) t (x ∷ a) w)))
            (fork sha3 rec (length p) (p ++ y ∷ b) child (p ++ x ∷ a) (str w) c)
            (λ m. prefixed sha3 p m) (fork-Inserted rec e p b a w y x child t c fresh hy hx r)
            (λ m.
              prefixed-Inserted sha3 sha3_length false p (parted (y ∷ b) t (x ∷ a) w) c m
                (nibbles-IsFront p nib))))

  pub insert_short-Inserted :
      (e : Bool) (p k' key' w code : List ℕ) (child : Item) (t : Tree) (rec : Inserter) (c : Cache)
      → compact_decode code ≡ ok (p ++ k')
      → Ways e (p, k', key')
      → IsPath e (p ++ k')
      → IsTop e t
      → Rep c.nodes child t
      → Fresh rec
      → (k' ≡ [] → IsRest e key' → Returns (Inserted c (grow t key' w)) (rec child key' (str w) c))
      → Returns
          (Inserted c (under p (meet k' t (grow t key' w) key' w)))
          (insert_short sha3 rec (list (two (str code) child)) (p ++ key') (str w) c)
  insert_short-Inserted true p k' key' w code child t rec c d (inl (done, rest)) path top r fresh
        ih =
      rw (done, rest)
        (replaced-Inserted p w code child t rec c (rw done at d) (rw done at path) top)
  insert_short-Inserted false p k' [] w code child t rec c d (inl (done, rest)) path top r fresh
        ih =
      absurd rest
  insert_short-Inserted false p k' (x ∷ a) w code child t rec c d (inl (done, rest)) path top r
        fresh ih =
      rw done (
        below-Inserted p a w code x child t rec c (rw done at d) (rw done at path) r (ih done rest))
  insert_short-Inserted e p k' key' w code child t rec c d (inr (a, parts y x b l ne hy hx)) path
        top r fresh ih =
      apart-Inserted e p b l w code y x child t rec c d ne a hy hx r fresh
