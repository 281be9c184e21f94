-- ===== src/Trie/Rep/Update.antt =====
-- `InsertState` of ethutil/trie.go on nodes that stand for a tree: it yields a node for the tree
-- with the value put into it.
use goeth_self_training.Prelude.{
  subst, ℕ, zero, suc, ◌<◌, ◌≡◌, ◌∙◌, inl, inr, refl, sym, ap, ◌==◌, Bool, true, false, List, [],
  ◌∷◌, if◌then◌else◌, length, length-append, arith,
}
use goeth_self_training.Prelude.Result.{ok, Returns, Returns-bind}
use goeth_self_training.Item.{Item, Items, str, list, item, no_items}
use goeth_self_training.Compact.{compact_decode}
use goeth_self_training.Value
use goeth_self_training.Value.{new_value, to_str, len, is_nil}
use goeth_self_training.Trie.Cache
use goeth_self_training.Trie.Cache.{Cache, Nodes}
use goeth_self_training.Trie.Nodes.{
  set_slot, copy_slots, Inserter, insert_short, insert_wide, insert_step, insert_state, is_fresh,
}
use goeth_self_training.Trie.Tree.{
  Tree, Trees, empty, leaf, short, branch, common, under, set_tree, meet, grow, grow_at,
}
use goeth_self_training.Trie.Tree.Keys.{
  IsKey, IsRest, IsPath, IsKey-IsRest, IsKey-le, common-Meets, common-Ways,
}
use goeth_self_training.Trie.Tree.Laws.{IsTree, IsTop, length_trees}
use goeth_self_training.Trie.Rep.{Coherent, Stored, here, hashed, two, Rep, Reps, Reps-Keeps}
use goeth_self_training.Trie.Rep.Lookup.{
  slot, get_node-Stored, IsTrees-slot_first, Reps-length, get-Reps, is_nil-first, IsPath-length,
}
use goeth_self_training.Trie.Rep.Insert.{
  Inserted, IsFront, set_slot-Reps, copy_slots-Reps, grow_at-set_tree,
}
use goeth_self_training.Trie.Rep.Short.{
  Fresh, Inserts, put-Inserted, insert_state-Fresh, insert_short-Inserted,
}

is_fresh-Stored :
    (ns : Nodes) (node a : Item) (vs : Items)
    → Stored ns node (item a vs)
    → is_fresh (new_value node) ≡ false
unfolding is_fresh new_value len
is_fresh-Stored ns node a vs (here _) = ground arith
is_fresh-Stored ns node a vs (hashed h _ l k) = rw l refl

IsRest-IsFront : (b : Bool) (key : List ℕ) → IsRest b key → IsFront true key
IsRest-IsFront true key h = inl h
IsRest-IsFront false key h = inr h

module _ (sha3 : List ℕ → List ℕ) (sha3_length : (s : List ℕ) → length (sha3 s) ≡ 32) where
  -- A node of 17 items, where the slot of the key's first nibble is changed.
  insert_wide-Inserted :
      (rec : Inserter) (c : Cache) (vs : Items) (ts : Trees) (x : ℕ) (key w : List ℕ)
      → Reps c.nodes vs ts
      → length_trees ts ≡ 17
      → x < 17
      → Returns (Inserted c (grow (slot ts x) key w)) (rec (Value.get (list vs) x) key (str w) c)
      → Returns
          (Inserted c (branch (grow_at ts x key w)))
          (insert_wide sha3 rec (list vs) (x ∷ key) (str w) c)
  unfolding insert_wide
  insert_wide-Inserted rec c vs ts x key w r wide hx h =
      let t = grow (slot ts x) key w in
      let slots : Reps c.nodes (copy_slots 17 0 (list vs)) ts =
        rw wide at (copy_slots-Reps c.nodes vs ts r) in
      Returns-bind (Inserted c t) (Inserted c (branch (grow_at ts x key w)))
        (rec (Value.get (list vs) x) key (str w) c) _ h
        (λ (node, d) (keeps, rn).
          Returns-bind (λ us. Reps d.nodes us (set_tree ts x t))
            (Inserted c (branch (grow_at ts x key w))) (set_slot (copy_slots 17 0 (list vs)) x node)
            _
            (set_slot-Reps d.nodes (copy_slots 17 0 (list vs)) ts x node t
              (Reps-Keeps c.nodes d.nodes (copy_slots 17 0 (list vs)) ts keeps slots)
              (omega (arith, wide)) rn)
            (λ us ru.
              subst (λ g. Inserted c (branch g) (Cache.put sha3 (list us) d))
                (sym (grow_at-set_tree ts x key w))
                (put-Inserted sha3 sha3_length us (set_tree ts x t) c d keeps ru)))

  short-Inserted :
      (rec : Inserter) (c : Cache) (e : Bool) (k code key w : List ℕ) (child : Item) (t : Tree)
      → compact_decode code ≡ ok k
      → IsPath e k
      → IsTop e t
      → IsTree e t
      → IsKey key
      → Rep c.nodes child t
      → Fresh rec
      → Inserts rec c (length key) w
      → Returns
          (Inserted c (grow (short k t) key w))
          (insert_short sha3 rec (list (two (str code) child)) key (str w) c)
  unfolding grow
  short-Inserted rec c e k code key w child t d path top ht hk r fresh ih =
      let (p, k', key') = common k key in
      let m = common-Meets k key in
      let below : k' ≡ [] → length key' < length key = λ done. omega (
        arith,
        IsPath-length e k path,
        ap length m.key_eq,
        ap length m.path_eq,
        length-append p key',
        length-append p k',
        ap length done,
      ) in
      subst
        (λ l.
          Returns (Inserted c (under p (meet k' t (grow t key' w) key' w)))
            (insert_short sha3 rec (list (two (str code) child)) l (str w) c))
        (sym m.key_eq)
        (insert_short-Inserted sha3 sha3_length e p k' key' w code child t rec c
          (d ∙ ap ok m.path_eq) (common-Ways e k key path hk) (subst (IsPath e) m.path_eq path) top
          r fresh (λ done rest. ih e t key' child (below done) r ht rest))

  -- A node that is there is read before it is changed.
  insert_step-Stored :
      (rec : Inserter) (c : Cache) (node a v : Item) (vs : Items) (x : ℕ) (key : List ℕ)
      → Coherent c.nodes
      → is_nil (new_value a) ≡ false
      → Stored c.nodes node (item a vs)
      → insert_step sha3 rec node (x ∷ key) v c ≡ (
          if len (list (item a vs)) == 2
          then insert_short sha3 rec (list (item a vs)) (x ∷ key) v c
          else insert_wide sha3 rec (list (item a vs)) (x ∷ key) v c)
  unfolding insert_step
  insert_step-Stored rec c node a v vs x key co n s =
      rw (is_fresh-Stored c.nodes node a vs s, get_node-Stored c node a vs co n s) refl

  pub insert_state_lem :
      (fuel : ℕ) (c : Cache) (w : List ℕ)
      → Coherent c.nodes
      → Inserts (λ node key v c'. insert_state sha3 fuel node key v c') c fuel w
  unfolding insert_state grow
  insert_state_lem zero c w co b t key node l r ht hk = absurd (omega arith)
  insert_state_lem (suc fuel) c w co b empty key node l r ht hk = rw r (
      insert_state-Fresh sha3 sha3_length fuel true key (str w) (leaf w) c (IsRest-IsFront b key hk)
        refl)
  insert_state_lem (suc fuel) c w co false (leaf v) key node l r ht hk = absurd ht
  insert_state_lem (suc fuel) c w co true (leaf v) key node l r ht hk =
      subst
        (λ q.
          Returns (Inserted c (under q (leaf w))) (insert_state sha3 (suc fuel) node q (str w) c))
        (sym hk) (unfold insert_step in ((λ h u k. k), refl))
  insert_state_lem (suc fuel) c w co true (short k t) key node l r ht hk = absurd ht
  insert_state_lem (suc fuel) c w co false (short k t) [] node l r ht hk = absurd hk
  insert_state_lem (suc zero) c w co false (short k t) (x ∷ key) node l r ht hk =
      absurd (omega arith)
  insert_state_lem (suc (suc fuel)) c w co false (short k t) (x ∷ key) node l (code, child, d, s, r)
        (e, path, top, ht) hk =
      let rec : Inserter = λ n q v c'. insert_state sha3 (suc fuel) n q v c' in
      subst (Returns (Inserted c (grow (short k t) (x ∷ key) w)))
        (sym
          (insert_step-Stored rec c node (str code) (str w) (item child no_items) x key co refl s))
        (unfold len in
          short-Inserted rec c e k code (x ∷ key) w child t d.1 path top ht hk r
            (insert_state-Fresh sha3 sha3_length fuel)
            (λ b u q n less. insert_state_lem (suc fuel) c w co b u q n (omega arith)))
  insert_state_lem (suc fuel) c w co true (branch ts) key node l r ht hk = absurd ht
  insert_state_lem (suc fuel) c w co false (branch ts) [] node l r ht hk = absurd hk
  insert_state_lem (suc fuel) c w co false (branch ts) (x ∷ key) node l (no_items, s, r) ht hk =
      absurd (omega (arith, Reps-length c.nodes no_items ts r, ht.0))
  insert_state_lem (suc fuel) c w co false (branch ts) (x ∷ key) node l (item a vs, s, r) ht hk =
      let rec : Inserter = λ n q v c'. insert_state sha3 fuel n q v c' in
      let within : x < length_trees ts = omega (arith, IsKey-le x key hk, ht.0) in
      let wide : len (list (item a vs)) ≡ 17 =
        unfold len in Reps-length c.nodes (item a vs) ts r ∙ ht.0 in
      subst (Returns (Inserted c (grow (branch ts) (x ∷ key) w)))
        (sym
          (insert_step-Stored rec c node a (str w) vs x key co (is_nil-first c.nodes a vs ts r) s))
        (rw wide (
          insert_wide-Inserted rec c (item a vs) ts x key w r ht.0 (IsKey-le x key hk) (
            insert_state_lem fuel c w co (x == 16) (slot ts x) key (Value.get (list (item a vs)) x)
              (omega arith) (get-Reps c.nodes (item a vs) ts x r within)
              (IsTrees-slot_first ts x ht.1 within) (IsKey-IsRest x key hk))))
