-- ===== src/Trie/Tree/Laws.antt =====
-- A value put into a tree is found under its key, and every other key finds what it did.
use goeth_self_training.Prelude.{
  ℕ, zero, suc, ◌+◌, ◌<◌, ◌≡◌, ◌∙◌, inl, inr, refl, sym, ap, ◌==◌, ◌&&◌, Bool, true, false, Option,
  some, none, List, [], ◌∷◌, ◌++◌, if◌then◌else◌, list_eq, arith, Bool-cases, append-nil,
}
use goeth_self_training.Trie.Tree.{
  Tree, Trees, empty, leaf, short, branch, no_trees, tree, strip, find, find_at, common, under,
  empty_trees, set_tree, parted, meet, grow, grow_at,
}
use goeth_self_training.Trie.Tree.Keys.{
  IsKey, IsRest, IsPath, IsKey-IsRest, IsKey-le, IsPath-le, strip_sound, strip-append,
  list_eq-append, IsKey-nibbles, IsPath-IsRest, strip-IsRest, Parts, parts, Ways, common-Meets,
  common-Ways,
}

abbrev pub length_trees : Trees → ℕ
length_trees no_trees = 0
length_trees (tree t ts) = suc (length_trees ts)

-- A path of a whole rest leads to a leaf, and any other to a branch.
abbrev pub IsTop : Bool → Tree → Type 0
IsTop true (leaf v) = Unit
IsTop false (branch ts) = Unit
IsTop e t = ⊥

-- A tree at a place where a key has a rest of the given kind.
abbrev mutual
  pub IsTree : Bool → Tree → Type 0
  IsTree b empty = Unit
  IsTree true (leaf v) = Unit
  IsTree false (leaf v) = ⊥
  IsTree true (short k t) = ⊥
  IsTree false (short k t) = (e : Bool) × IsPath e k × IsTop e t × IsTree e t
  IsTree true (branch ts) = ⊥
  IsTree false (branch ts) = (length_trees ts ≡ 17) × IsTrees 0 ts

  pub IsTrees : ℕ → Trees → Type 0
  IsTrees i no_trees = Unit
  IsTrees i (tree t ts) = IsTree (i == 16) t × IsTrees (suc i) ts

-- What is found behind a path.
abbrev pub behind : Tree → Option (List ℕ) → List ℕ
behind t none = []
behind t (some r) = find t r

find-under : (p : List ℕ) (t : Tree) (j : List ℕ) → find (under p t) j ≡ behind t (strip p j)
unfolding find
find-under [] t j = refl
find-under (x ∷ p) t j = ground arith

find_at-set_tree :
    (ts : Trees) (x : ℕ) (t : Tree) (z : ℕ) (c : List ℕ)
    → x < length_trees ts
    → find_at (set_tree ts x t) z c ≡ (if x == z then find t c else find_at ts z c)
unfolding find
find_at-set_tree no_trees x t z c h = absurd (omega arith)
find_at-set_tree (tree u ts) zero t zero c h = refl
find_at-set_tree (tree u ts) zero t (suc z) c h = ground arith
find_at-set_tree (tree u ts) (suc x) t zero c h = ground arith
find_at-set_tree (tree u ts) (suc x) t (suc z) c h =
    find_at-set_tree ts x t z c (omega arith) ∙ ground arith

find_at-empty_trees : (n z : ℕ) (c : List ℕ) → find_at (empty_trees n) z c ≡ []
unfolding find
find_at-empty_trees zero z c = refl
find_at-empty_trees (suc n) zero c = refl
find_at-empty_trees (suc n) (suc z) c = find_at-empty_trees n z c

pub length-set_tree :
    (ts : Trees) (x : ℕ) (t : Tree) → length_trees (set_tree ts x t) ≡ length_trees ts
length-set_tree no_trees x t = refl
length-set_tree (tree u ts) zero t = refl
length-set_tree (tree u ts) (suc x) t = ap (λ n. suc n) (length-set_tree ts x t)

-- A leaf under a rest of a key is found by that rest alone.
find-under_leaf :
    (b : Bool) (a c w : List ℕ)
    → IsRest b a
    → IsRest b c
    → find (under a (leaf w)) c ≡ (if list_eq a c then w else [])
find-under_leaf b a c w h k =
    find-under a (leaf w) c
    ∙ rw (strip-IsRest b a c h k)
        (elim (Bool-cases (list_eq a c)) [ inl e ↦ rw e (unfold find in refl) | inr e ↦ rw e refl ])

==_sound : (x z : ℕ) → (x == z) ≡ true → x ≡ z
==_sound x z h = ground arith

find-parted :
    (y x : ℕ) (b a : List ℕ) (t : Tree) (w : List ℕ) (z : ℕ) (c : List ℕ)
    → (y == x) ≡ false
    → y < 17
    → IsKey (x ∷ a)
    → IsKey (z ∷ c)
    → find (parted (y ∷ b) t (x ∷ a) w) (z ∷ c)
      ≡ (if list_eq (x ∷ a) (z ∷ c) then w else behind t (strip (y ∷ b) (z ∷ c)))
find-parted y x b a t w z c apart hy hx hz =
    let one = set_tree (empty_trees 17) y (under b t) in
    unfold find in
    find_at-set_tree one x (under a (leaf w)) z c
      (omega (arith, IsKey-le x a hx, length-set_tree (empty_trees 17) y (under b t)))
    ∙ rw
        (
          find_at-set_tree (empty_trees 17) y (under b t) z c hy,
          find_at-empty_trees,
          find-under b t c,
        )
        (elim (Bool-cases (x == z)) [
          | inl same ↦
              let other : (y == z) ≡ false = ground (arith, same, apart) in
              let slot : IsRest (x == 16) c = (rw (==_sound x z same) (IsKey-IsRest z c hz)) in
              rw (same, other) (find-under_leaf (x == 16) a c w (IsKey-IsRest x a hx) slot)
          | inr differ ↦
              rw differ (elim (Bool-cases (y == z)) [ inl e ↦ rw e refl | inr e ↦ rw e refl ])
        ])

-- A short node, where its path and the key meet.
module _ (e : Bool) (t grown : Tree) (w : List ℕ) where
  -- Under each rest of the kind, the grown tree finds the value or what the old one does.
  abbrev Grows : List ℕ → Type 0
  Grows key' =
      (r : List ℕ)
      → IsRest e key'
      → IsRest e r
      → find grown r ≡ (if list_eq key' r then w else find t r)

  find-Parts :
      (k' key' r : List ℕ)
      → Parts e k' key'
      → IsKey r
      → find (meet k' t grown key' w) r ≡ (if list_eq key' r then w else behind t (strip k' r))
  find-Parts _ _ [] (parts y x b a apart py hx) hr = elim hr [ ]
  find-Parts _ _ (z ∷ c) (parts y x b a apart py hx) hr =
      find-parted y x b a t w z c apart (IsPath-le e y b py) hx hr

  find-meet :
      (p k' key' r : List ℕ)
      → Ways e (p, k', key')
      → IsPath e (p ++ k')
      → IsKey (p ++ r)
      → Grows key'
      → find (meet k' t grown key' w) r ≡ (if list_eq key' r then w else behind t (strip k' r))
  find-meet p k' key' r (inl (done, rest)) path hr ih =
      let path' : IsPath e p = rw (done, append-nil p) at path in
      rw done (ih r rest (IsPath-IsRest e p r path' hr))
  find-meet p k' key' r (inr (a, ps)) path hr ih = find-Parts k' key' r ps (IsKey-nibbles p r a hr)

  find-short :
      (p k' key' j : List ℕ)
      → Ways e (p, k', key')
      → IsPath e (p ++ k')
      → IsKey j
      → Grows key'
      → find (under p (meet k' t grown key' w)) j
        ≡ (if list_eq (p ++ key') j then w else behind t (strip (p ++ k') j))
  find-short p k' key' j ways path hj ih =
      find-under p (meet k' t grown key' w) j
      ∙ rw (list_eq-append, strip-append) (by_strip (strip p j) (λ r. strip_sound p j r))
    where
      by_strip :
          (o : Option (List ℕ))
          → ((r : List ℕ) → o ≡ some r → j ≡ p ++ r)
          → behind (meet k' t grown key' w) o ≡ (
              if (elim o [ none ↦ false | some r ↦ list_eq key' r ])
              then w
              else behind t (elim o [ none ↦ none | some r ↦ strip k' r ]))
      by_strip none sound = refl
      by_strip (some r) sound = find-meet p k' key' r ways path (rw (sound r refl) at hj) ih

pub find-strip : (k : List ℕ) (t : Tree) (j : List ℕ) → find (short k t) j ≡ behind t (strip k j)
unfolding find
find-strip k t j = ground arith

at_zero : (x : ℕ) (key : List ℕ) → IsRest (x == 16) key → IsRest (0 + x == 16) key
at_zero x key h = let e : 0 + x ≡ x = omega arith in rw e h

-- The two keys, split where they part.
by_common :
    (e : Bool) (k : List ℕ) (t : Tree) (key j w : List ℕ)
    → IsPath e k
    → IsKey key
    → IsKey j
    → ((key' : List ℕ) → Grows e t (grow t key' w) w key')
    → find (grow (short k t) key w) j ≡ (if list_eq key j then w else find (short k t) j)
unfolding grow
by_common e k t key j w path hk hj ih =
    let (p, k', key') = common k key in
    let m = common-Meets k key in
    find-short e t (grow t key' w) w p k' key' j (common-Ways e k key path hk)
      (rw m.path_eq at path) hj (ih key')
    ∙ rw (sym m.key_eq, sym m.path_eq, find-strip k t j) refl

mutual
  unfolding grow find

  pub grow_find :
      (b : Bool) (t : Tree) (key j w : List ℕ)
      → IsTree b t
      → IsRest b key
      → IsRest b j
      → find (grow t key w) j ≡ (if list_eq key j then w else find t j)
  grow_find b empty key j w ht hk hj = find-under_leaf b key j w hk hj
  grow_find true (leaf v) key j w ht hk hj = rw (hk, hj) refl
  grow_find false (leaf v) key j w ht hk hj = elim ht [ ]
  grow_find true (short k t) key j w ht hk hj = elim ht [ ]
  grow_find false (short k t) key j w (e, path, top, ht) hk hj =
      by_common e k t key j w path hk hj (λ key' r hk' hr. grow_find e t key' r w ht hk' hr)
  grow_find true (branch ts) key j w ht hk hj = elim ht [ ]
  grow_find false (branch ts) [] j w ht hk hj = elim hk [ ]
  grow_find false (branch ts) (x ∷ key) [] w ht hk hj = elim hj [ ]
  grow_find false (branch ts) (x ∷ key) (z ∷ j) w ht hk hj =
      grow_find_at 0 ts x z key j w ht.1 (omega (arith, IsKey-le x key hk, ht.0))
        (at_zero x key (IsKey-IsRest x key hk)) (at_zero z j (IsKey-IsRest z j hj))

  grow_find_at :
      (i : ℕ) (ts : Trees) (x z : ℕ) (key j w : List ℕ)
      → IsTrees i ts
      → x < length_trees ts
      → IsRest (i + x == 16) key
      → IsRest (i + z == 16) j
      → find_at (grow_at ts x key w) z j ≡ (if (x == z) && list_eq key j then w else find_at ts z j)
  grow_find_at i no_trees x z key j w ht hx hk hj = absurd (omega arith)
  grow_find_at i (tree t ts) zero zero key j w ht hx hk hj =
      let e : i + 0 ≡ i = omega arith in
      grow_find (i == 16) t key j w ht.0 (rw e at hk) (rw e at hj)
  grow_find_at i (tree t ts) zero (suc z) key j w ht hx hk hj = ground arith
  grow_find_at i (tree t ts) (suc x) zero key j w ht hx hk hj = ground arith
  grow_find_at i (tree t ts) (suc x) (suc z) key j w ht hx hk hj =
      let ex : i + suc x ≡ suc i + x = omega arith in
      let ez : i + suc z ≡ suc i + z = omega arith in
      grow_find_at (suc i) ts x z key j w ht.1 (omega arith) (rw ex at hk) (rw ez at hj)
      ∙ ground arith
