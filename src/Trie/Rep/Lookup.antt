-- ===== src/Trie/Rep/Lookup.antt =====
-- `GetState` of ethutil/trie.go on nodes that stand for a tree.
use goeth_self_training.Prelude.{
  subst, ℕ, zero, suc, ◌+◌, ◌<◌, ◌≡◌, ◌∙◌, inl, inr, refl, ap, ◌==◌, leb, ◌&&◌, Bool, true, false,
  some, none, List, [], ◌∷◌, ◌++◌, if◌then◌else◌, length, take, drop, length-drop, list_eq, arith,
  Bool-cases,
}
use goeth_self_training.Prelude.Result.{ok}
use goeth_self_training.Item.{Item, Items, str, list, item, no_items, get_item?, length_items}
use goeth_self_training.Compact.{compact_decode}
use goeth_self_training.Value
use goeth_self_training.Value.{new_value, is_nil, len, to_str, to_bytes}
use goeth_self_training.Trie.Cache
use goeth_self_training.Trie.Cache.{Cache, Nodes}
use goeth_self_training.Trie.Nodes.{
  get_node, is_over, Getter, get_short, get_at, get_step, get_state,
}
use goeth_self_training.Trie.Tree.{
  Tree, Trees, empty, leaf, short, branch, no_trees, tree, strip, find, find_at,
}
use goeth_self_training.Trie.Tree.Keys.{
  IsKey, IsRest, IsPath, IsKey-IsRest, IsKey-le, IsPath-IsRest, strip_sound,
}
use goeth_self_training.Trie.Tree.Laws.{IsTree, IsTrees, length_trees, find-strip}
use goeth_self_training.Trie.Rep.{Coherent, Stored, here, hashed, Rep, Reps, two, find_node-Known}

strip-take :
    (k j : List ℕ)
    → strip k j ≡ (
        if leb (length k) (length j) && list_eq k (take (length k) j)
        then some (drop (length k) j)
        else none)
strip-take [] j = ground arith
strip-take (x ∷ k) [] = ground arith
strip-take (x ∷ k) (y ∷ j) = ground (arith, strip-take k j)

pub is_over-Stored :
    (ns : Nodes) (node a : Item) (vs : Items) (x : ℕ) (key : List ℕ)
    → Stored ns node (item a vs)
    → is_over (new_value node) (x ∷ key) ≡ false
unfolding new_value is_nil len
is_over-Stored ns node a vs x key (here _) = ground arith
is_over-Stored ns node a vs x key (hashed h _ l k) = ground (arith, l)

pub get_node-Stored :
    (c : Cache) (node a : Item) (vs : Items)
    → Coherent c.nodes
    → is_nil (new_value a) ≡ false
    → Stored c.nodes node (item a vs)
    → get_node node c ≡ ok (list (item a vs), c)
unfolding get_node Value.get new_value to_str to_bytes Cache.get is_nil
get_node-Stored c node a vs co n (here _) = rw n refl
get_node-Stored c node a vs co n (hashed h _ l k) =
    let (m, e, v) = find_node-Known c.nodes h (list (item a vs)) co k in
    rw (l, e, Cache.get, v) refl

get_step-Stored :
    (rec : Getter) (c : Cache) (node a : Item) (vs : Items) (x : ℕ) (key : List ℕ)
    → Coherent c.nodes
    → is_nil (new_value a) ≡ false
    → Stored c.nodes node (item a vs)
    → get_step rec node (x ∷ key) c ≡ get_at rec (list (item a vs)) (x ∷ key) c
unfolding get_step
get_step-Stored rec c node a vs x key co n s =
    rw (is_over-Stored c.nodes node a vs x key s, get_node-Stored c node a vs co n s) refl

get_step-none :
    (rec : Getter) (key : List ℕ) (c : Cache) → get_step rec (str []) key c ≡ ok (str [], c)
unfolding get_step new_value is_nil len
get_step-none rec [] c = refl
get_step-none rec (x ∷ key) c = ground arith

-- What stands for a tree is not wrapped, and is not nil.
pub Rep-new_value :
    (ns : Nodes) (node : Item) (t : Tree)
    → Rep ns node t
    → (new_value node ≡ node) × (is_nil node ≡ false)
unfolding new_value is_nil
Rep-new_value ns node empty r = rw r (refl, refl)
Rep-new_value ns node (leaf v) r = rw r (refl, refl)
Rep-new_value ns node (short k t) (code, child, c, here _, r) = (refl, refl)
Rep-new_value ns node (short k t) (code, child, c, hashed h _ l e, r) = (refl, refl)
Rep-new_value ns node (branch ts) (vs, here _, r) = (refl, refl)
Rep-new_value ns node (branch ts) (vs, hashed h _ l e, r) = (refl, refl)

abbrev pub slot : Trees → ℕ → Tree
slot no_trees x = empty
slot (tree t ts) zero = t
slot (tree t ts) (suc x) = slot ts x

find-slot : (ts : Trees) (x : ℕ) (j : List ℕ) → find_at ts x j ≡ find (slot ts x) j
unfolding find
find-slot no_trees x j = refl
find-slot (tree t ts) zero j = refl
find-slot (tree t ts) (suc x) j = find-slot ts x j

find-branch : (ts : Trees) (x : ℕ) (j : List ℕ) → find (branch ts) (x ∷ j) ≡ find (slot ts x) j
unfolding find
find-branch ts x j = find-slot ts x j

pub IsTrees-slot :
    (i : ℕ) (ts : Trees) (x : ℕ)
    → IsTrees i ts
    → x < length_trees ts
    → IsTree (i + x == 16) (slot ts x)
IsTrees-slot i no_trees x h l = absurd (omega arith)
IsTrees-slot i (tree t ts) zero h l = let e : i + 0 ≡ i = omega arith in rw e h.0
IsTrees-slot i (tree t ts) (suc x) h l =
    let e : i + suc x ≡ suc i + x = omega arith in
    rw e (IsTrees-slot (suc i) ts x h.1 (omega arith))

pub IsTrees-slot_first :
    (ts : Trees) (x : ℕ) → IsTrees 0 ts → x < length_trees ts → IsTree (x == 16) (slot ts x)
IsTrees-slot_first ts x h l = let e : 0 + x ≡ x = omega arith in rw e at (IsTrees-slot 0 ts x h l)

pub Reps-length :
    (ns : Nodes) (vs : Items) (ts : Trees) → Reps ns vs ts → length_items vs ≡ length_trees ts
Reps-length ns no_items no_trees r = refl
Reps-length ns no_items (tree t ts) r = absurd r
Reps-length ns (item v vs) no_trees r = absurd r
Reps-length ns (item v vs) (tree t ts) r = ap (λ n. suc n) (Reps-length ns vs ts r.1)

pub Reps-slot :
    (ns : Nodes) (vs : Items) (ts : Trees) (x : ℕ)
    → Reps ns vs ts
    → x < length_trees ts
    → (v : Item) × (get_item? vs x ≡ some v) × Rep ns v (slot ts x)
Reps-slot ns no_items no_trees x r l = absurd (omega arith)
Reps-slot ns no_items (tree t ts) x r l = absurd r
Reps-slot ns (item v vs) no_trees x r l = absurd r
Reps-slot ns (item v vs) (tree t ts) zero r l = (v, refl, r.0)
Reps-slot ns (item v vs) (tree t ts) (suc x) r l = Reps-slot ns vs ts x r.1 (omega arith)

pub get-Reps :
    (ns : Nodes) (vs : Items) (ts : Trees) (x : ℕ)
    → Reps ns vs ts
    → x < length_trees ts
    → Rep ns (Value.get (list vs) x) (slot ts x)
unfolding Value.get
get-Reps ns vs ts x r l =
    let (v, e, r') = Reps-slot ns vs ts x r l in
    rw (e, Value.get, (Rep-new_value ns v (slot ts x) r').0) r'

-- The recursive call finds what the tree holds, under each shorter key.
abbrev Finds : Getter → Cache → ℕ → Type 0
Finds rec c n =
    (b : Bool) (t : Tree) (key : List ℕ) (node : Item)
    → length key < n
    → Rep c.nodes node t
    → IsTree b t
    → IsRest b key
    → rec node key c ≡ ok (str (find t key), c)

pub IsPath-length : (e : Bool) (k : List ℕ) → IsPath e k → 0 < length k
IsPath-length true [] p = absurd p
IsPath-length false [] p = absurd p
IsPath-length e (x ∷ k) p = omega arith

get_short-Finds :
    (rec : Getter) (c : Cache) (e : Bool) (k code : List ℕ) (child : Item) (t : Tree) (x : ℕ)
    (key : List ℕ)
    → Finds rec c (length (x ∷ key))
    → compact_decode code ≡ ok k
    → IsPath e k
    → IsTree e t
    → Rep c.nodes child t
    → IsKey (x ∷ key)
    → get_short rec (list (two (str code) child)) (x ∷ key) c
      ≡ ok (str (find (short k t) (x ∷ key)), c)
unfolding get_short find Value.get to_str new_value
get_short-Finds rec c e k code child t x key ih dec path ht r hk =
    rw (dec, (Rep-new_value c.nodes child t r).0, find-strip k t (x ∷ key), strip-take k (x ∷ key))
      (elim (Bool-cases
        (leb (length k) (length (x ∷ key)) && list_eq k (take (length k) (x ∷ key)))) [
          | inl front ↦
              let r' = drop (length k) (x ∷ key) in
              let split : x ∷ key ≡ k ++ r' =
                strip_sound k (x ∷ key) r' (strip-take k (x ∷ key) ∙ rw front refl) in
              let less : length r' < length (x ∷ key) =
                omega (arith, length-drop (length k) (x ∷ key), IsPath-length e k path) in
              rw front
                (ih e t r' child less r ht (IsPath-IsRest e k r' path (subst IsKey split hk)))
          | inr other ↦ rw other refl
        ])

pub is_nil-first :
    (ns : Nodes) (a : Item) (vs : Items) (ts : Trees)
    → Reps ns (item a vs) ts
    → is_nil (new_value a) ≡ false
is_nil-first ns a vs no_trees r = absurd r
is_nil-first ns a vs (tree t ts) r = let (e, n) = Rep-new_value ns a t r.0 in rw e n

pub get_state_lem :
    (fuel : ℕ) (c : Cache)
    → Coherent c.nodes
    → Finds (λ node key c'. get_state fuel node key c') c fuel
unfolding get_state
get_state_lem zero c co b t key node l r ht hk = absurd (omega arith)
get_state_lem (suc fuel) c co b empty key node l r ht hk =
    rw (r, get_step-none (λ n k c'. get_state fuel n k c') key c) (unfold find in refl)
get_state_lem (suc fuel) c co false (leaf v) key node l r ht hk = absurd ht
get_state_lem (suc fuel) c co true (leaf v) key node l r ht hk =
    rw (r, hk) (unfold get_step find in refl)
get_state_lem (suc fuel) c co true (short k t) key node l r ht hk = absurd ht
get_state_lem (suc fuel) c co false (short k t) [] node l r ht hk = absurd hk
get_state_lem (suc fuel) c co false (short k t) (x ∷ key) node l (code, child, d, s, r)
      (e, path, top, ht) hk =
    get_step-Stored (λ n k' c'. get_state fuel n k' c') c node (str code) (item child no_items) x
      key co refl s
    ∙ unfold get_at in
      get_short-Finds (λ n k' c'. get_state fuel n k' c') c e k code child t x key
        (λ b t' key' node' l'. get_state_lem fuel c co b t' key' node' (omega arith)) d.1 path ht r
        hk
get_state_lem (suc fuel) c co true (branch ts) key node l r ht hk = absurd ht
get_state_lem (suc fuel) c co false (branch ts) [] node l r ht hk = absurd hk
get_state_lem (suc fuel) c co false (branch ts) (x ∷ key) node l (no_items, s, r) ht hk =
    absurd (omega (arith, Reps-length c.nodes no_items ts r, ht.0))
get_state_lem (suc fuel) c co false (branch ts) (x ∷ key) node l (item a vs, s, r) ht hk =
    let within : x < length_trees ts = omega (arith, IsKey-le x key hk, ht.0) in
    let wide : len (list (item a vs)) ≡ 17 =
      unfold len in Reps-length c.nodes (item a vs) ts r ∙ ht.0 in
    let below =
      get_state_lem fuel c co (x == 16) (slot ts x) key (Value.get (list (item a vs)) x)
        (omega arith) (get-Reps c.nodes (item a vs) ts x r within)
        (IsTrees-slot_first ts x ht.1 within) (IsKey-IsRest x key hk) in
    get_step-Stored (λ n k' c'. get_state fuel n k' c') c node a vs x key co
      (is_nil-first c.nodes a vs ts r) s
    ∙ unfold get_at in rw (wide, find-branch ts x key) below
