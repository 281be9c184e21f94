-- ===== src/Trie/Tree/Keys.antt =====
-- The keys of a trie and their fronts: a key is a list of nibbles with 16 at its end, so that no
-- key goes on behind another.
use goeth_self_training.Prelude.{
  ℕ, ◌<◌, ◌≡◌, ◌⊎◌, inl, inr, refl, ap, ◌==◌, Bool, true, false, some, none, List, [], ◌∷◌, ◌++◌,
  if◌then◌else◌, list_eq, All, arith, Bool-cases,
}
use goeth_self_training.Compact.RoundTrip.{IsNibble}
use goeth_self_training.Trie.Tree.{strip, common}

abbrev pub IsKey : List ℕ → Type 0
IsKey [] = ⊥
IsKey (x ∷ []) = x ≡ 16
IsKey (x ∷ y ∷ r) = (x < 16) × IsKey (y ∷ r)

-- What is left of a key: nothing behind its 16, and a key in front of it.
abbrev pub IsRest : Bool → List ℕ → Type 0
IsRest true key = key ≡ []
IsRest false key = IsKey key

-- A path of a trie: a whole rest of a key, or some nibbles.
abbrev pub IsPath : Bool → List ℕ → Type 0
IsPath true k = IsKey k
IsPath false [] = ⊥
IsPath false (x ∷ k) = All IsNibble (x ∷ k)

pub IsKey-IsRest : (x : ℕ) (key : List ℕ) → IsKey (x ∷ key) → IsRest (x == 16) key
IsKey-IsRest x [] h = rw h refl
IsKey-IsRest x (y ∷ key) (n, h) = let e : (x == 16) ≡ false = ground arith in rw e h

pub IsKey-le : (x : ℕ) (key : List ℕ) → IsKey (x ∷ key) → x < 17
IsKey-le x [] h = omega arith
IsKey-le x (y ∷ key) h = omega (arith, h.0)

pub IsPath-le : (e : Bool) (x : ℕ) (k : List ℕ) → IsPath e (x ∷ k) → x < 17
IsPath-le true x k h = IsKey-le x k h
IsPath-le false x k h = omega (arith, h.0)

pub strip_sound : (k j r : List ℕ) → strip k j ≡ some r → j ≡ k ++ r
strip_sound [] j r e = cc
strip_sound (x ∷ k) [] r e = cc
strip_sound (x ∷ k) (y ∷ j) r e = ground (arith, strip_sound k j r)

pub strip-append :
    (p k j : List ℕ) → strip (p ++ k) j ≡ elim (strip p j) [ none ↦ none | some r ↦ strip k r ]
strip-append [] k j = refl
strip-append (x ∷ p) k [] = refl
strip-append (x ∷ p) k (y ∷ j) = ground (arith, strip-append p k j)

pub list_eq-append :
    (p key j : List ℕ)
    → list_eq (p ++ key) j ≡ elim (strip p j) [ none ↦ false | some r ↦ list_eq key r ]
list_eq-append [] key j = refl
list_eq-append (x ∷ p) key [] = refl
list_eq-append (x ∷ p) key (y ∷ j) = ground (arith, list_eq-append p key j)

pub IsKey-nibbles : (p r : List ℕ) → All IsNibble p → IsKey (p ++ r) → IsKey r
IsKey-nibbles [] r a h = h
IsKey-nibbles (x ∷ []) [] a h = absurd (omega (arith, a.0))
IsKey-nibbles (x ∷ []) (y ∷ r) a h = h.1
IsKey-nibbles (x ∷ y ∷ p) r a h = IsKey-nibbles (y ∷ p) r a.1 h.1

pub IsKey-whole : (k r : List ℕ) → IsKey k → IsKey (k ++ r) → r ≡ []
IsKey-whole [] r k h = elim k [ ]
IsKey-whole (x ∷ []) [] k h = refl
IsKey-whole (x ∷ []) (y ∷ r) k h = absurd (omega (arith, h.0))
IsKey-whole (x ∷ y ∷ k) r a h = IsKey-whole (y ∷ k) r a.1 h.1

-- Behind a path, a key leaves a rest of the path's kind.
pub IsPath-IsRest : (e : Bool) (k r : List ℕ) → IsPath e k → IsKey (k ++ r) → IsRest e r
IsPath-IsRest true k r p h = IsKey-whole k r p h
IsPath-IsRest false [] r p h = elim p [ ]
IsPath-IsRest false (x ∷ k) r p h = IsKey-nibbles (x ∷ k) r p h

-- Of two whole keys the one is in front of the other only if they are equal.
pub strip-IsKey :
    (a c : List ℕ) → IsKey a → IsKey c → strip a c ≡ (if list_eq a c then some [] else none)
strip-IsKey [] c h k = elim h [ ]
strip-IsKey (x ∷ a) [] h k = elim k [ ]
strip-IsKey (x ∷ []) (y ∷ []) h k = ground arith
strip-IsKey (x ∷ []) (y ∷ z ∷ c) h k = let e : (x == y) ≡ false = ground (arith, k.0) in rw e refl
strip-IsKey (x ∷ z ∷ a) (y ∷ []) h k = let e : (x == y) ≡ false = ground (arith, h.0) in rw e refl
strip-IsKey (x ∷ u ∷ a) (y ∷ v ∷ c) h k = elim (Bool-cases (x == y)) [
  | inl e ↦ rw e (strip-IsKey (u ∷ a) (v ∷ c) h.1 k.1)
  | inr e ↦ rw e refl
]

pub strip-IsRest :
    (b : Bool) (a c : List ℕ)
    → IsRest b a
    → IsRest b c
    → strip a c ≡ (if list_eq a c then some [] else none)
strip-IsRest true a c h k = rw (h, k) refl
strip-IsRest false a c h k = strip-IsKey a c h k

-- How a path and a key meet: the path ends first, or they part at two elements.
pub record Meets (k key p k' key' : List ℕ) : Type 0 where
  pub path_eq : k ≡ p ++ k'
  pub key_eq : key ≡ p ++ key'

pub data Parts (e : Bool) : List ℕ → List ℕ → Type 0 where
  parts :
      (y x : ℕ) (b a : List ℕ)
      → (y == x) ≡ false
      → IsPath e (y ∷ b)
      → IsKey (x ∷ a)
      → Parts e (y ∷ b) (x ∷ a)

pub common-Meets : (k key : List ℕ) → let (p, k', key') = common k key in Meets k key p k' key'
common-Meets [] key = record { path_eq = refl; key_eq = refl }
common-Meets (y ∷ k) [] = record { path_eq = refl; key_eq = refl }
common-Meets (y ∷ k) (x ∷ key) = elim (Bool-cases (y == x)) [
  | inl e ↦
      let m = common-Meets k key in
      let same : x ≡ y = ground (arith, e) in
      rw e (record {
        path_eq = ap (λ l. y ∷ l) m.path_eq;
        key_eq = rw same (ap (λ l. y ∷ l) m.key_eq);
      })
  | inr e ↦ rw e (record { path_eq = refl; key_eq = refl })
]

abbrev pub Ways : Bool → List ℕ × List ℕ × List ℕ → Type 0
Ways e (p, k', key') = ((k' ≡ []) × IsRest e key') ⊎ (All IsNibble p × Parts e k' key')

Ways-∷ :
    (e : Bool) (y : ℕ) (p k' key' : List ℕ)
    → y < 16
    → Ways e (p, k', key')
    → Ways e (y ∷ p, k', key')
Ways-∷ e y p k' key' n (inl w) = inl w
Ways-∷ e y p k' key' n (inr (a, w)) = inr ((n, a), w)

-- A key behind an element that is a nibble.
IsKey-tail : (x : ℕ) (key : List ℕ) → x < 16 → IsKey (x ∷ key) → IsKey key
IsKey-tail x [] n h = absurd (omega (arith, h))
IsKey-tail x (z ∷ key) n h = h.1

-- The end of a key.
IsKey-end : (x : ℕ) (key : List ℕ) → x ≡ 16 → IsKey (x ∷ key) → key ≡ []
IsKey-end x [] n h = refl
IsKey-end x (z ∷ key) n h = absurd (omega (arith, h.0))

pub common-Ways : (e : Bool) (k key : List ℕ) → IsPath e k → IsKey key → Ways e (common k key)
common-Ways true [] key pk h = elim pk [ ]
common-Ways false [] key pk h = elim pk [ ]
common-Ways e (y ∷ k) [] pk h = elim h [ ]
common-Ways true (y ∷ []) (x ∷ key) pk h = elim (Bool-cases (y == x)) [
  | inl s ↦ rw s (inl (refl, IsKey-end x key (ground (arith, s, pk)) h))
  | inr s ↦ rw s (inr (tt, parts y x [] key s pk h))
]
common-Ways true (y ∷ z ∷ k) (x ∷ key) pk h = elim (Bool-cases (y == x)) [
  | inl s ↦ rw s (
      Ways-∷ true y _ _ _ pk.0
        (common-Ways true (z ∷ k) key pk.1 (IsKey-tail x key (ground (arith, s, pk.0)) h)))
  | inr s ↦ rw s (inr (tt, parts y x (z ∷ k) key s pk h))
]
common-Ways false (y ∷ []) (x ∷ key) pk h = elim (Bool-cases (y == x)) [
  | inl s ↦ rw s (inl (refl, IsKey-tail x key (ground (arith, s, pk.0)) h))
  | inr s ↦ rw s (inr (tt, parts y x [] key s pk h))
]
common-Ways false (y ∷ z ∷ k) (x ∷ key) pk h = elim (Bool-cases (y == x)) [
  | inl s ↦ rw s (
      Ways-∷ false y _ _ _ pk.0
        (common-Ways false (z ∷ k) key pk.1 (IsKey-tail x key (ground (arith, s, pk.0)) h)))
  | inr s ↦ rw s (inr (tt, parts y x (z ∷ k) key s pk h))
]
