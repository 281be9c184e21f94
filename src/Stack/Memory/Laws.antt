-- ===== src/Stack/Memory/Laws.antt =====
-- `Memory.Set` and `Memory.Get` of ethchain/stack.go: what is read after a write.
use goeth_self_training.Prelude.{
  ℕ, zero, suc, ◌+◌, ◌-◌, ◌<◌, ◌≤◌, ◌≡◌, ◌∙◌, refl, ◌&&◌, Option, some, none, List, [], ◌∷◌, ◌++◌,
  leb, ltb, if◌then◌else◌, length, take, drop, replicate, get_elem?, arith, length-append,
  length-replicate, length-take, length-drop, Bool-cases, inl, inr, false, true, get_elem?-ge,
}
use goeth_self_training.Stack.Memory.{Memory, extend, copy_in, set_at, size_of}
use Prim.Native.Nat.{min, max}

module _ {ℓ} {A : Type ℓ} where
  get_elem?-split :
      (xs ys : List A) (i : ℕ)
      → get_elem? (xs ++ ys) i
        ≡ (if ltb i (length xs) then get_elem? xs i else get_elem? ys (i - length xs))
  get_elem?-split [] ys i = ground arith
  get_elem?-split (x ∷ xs) ys zero = ground arith
  get_elem?-split (x ∷ xs) ys (suc i) = ground (arith, get_elem?-split xs ys i)

  get_elem?-take :
      (n : ℕ) (xs : List A) (i : ℕ)
      → get_elem? (take n xs) i ≡ (if ltb i n then get_elem? xs i else none)
  get_elem?-take zero xs i = ground arith
  get_elem?-take (suc n) [] i = ground arith
  get_elem?-take (suc n) (x ∷ xs) zero = ground arith
  get_elem?-take (suc n) (x ∷ xs) (suc i) = ground (arith, get_elem?-take n xs i)

  get_elem?-drop : (n : ℕ) (xs : List A) (i : ℕ) → get_elem? (drop n xs) i ≡ get_elem? xs (n + i)
  get_elem?-drop zero xs i = ground arith
  get_elem?-drop (suc n) [] i = refl
  get_elem?-drop (suc n) (x ∷ xs) i = ground (arith, get_elem?-drop n xs i)

length-copy_in :
    (offset size : ℕ) (value' store' : List ℕ)
    → offset + size ≤ length store'
    → length (copy_in offset size value' store') ≡ length store'
unfolding copy_in
length-copy_in offset size value' store' h = omega (
  arith,
  length-append (take offset store')
      (take size value' ++ drop (offset + min size (length value')) store'),
  length-append (take size value') (drop (offset + min size (length value')) store'),
  length-take offset store',
  length-take size value',
  length-drop (offset + min size (length value')) store',
)

copy_in-get :
    (offset size : ℕ) (value' store' : List ℕ) (i : ℕ)
    → offset + size ≤ length store'
    → get_elem? (copy_in offset size value' store') i ≡ (
        if leb offset i && ltb i (offset + min size (length value'))
        then get_elem? value' (i - offset)
        else get_elem? store' i)
unfolding copy_in
copy_in-get offset size value' store' i h =
    let n = min size (length value') in
    ground (
      arith,
      get_elem?-split (take offset store') (take size value' ++ drop (offset + n) store') i,
      get_elem?-split (take size value') (drop (offset + n) store')
          (i - length (take offset store')),
      get_elem?-take offset store' i,
      get_elem?-take size value' (i - length (take offset store')),
      get_elem?-drop (offset + n) store'
          (i - length (take offset store') - length (take size value')),
      length-take offset store',
      length-take size value',
    )

length-extend :
    (grow : ℕ → ℕ → ℕ) (total : ℕ) (m : Memory)
    → length m.store ≤ total
    → length (extend grow total m).store ≡ total
unfolding extend
length-extend grow total m h = omega (
  arith,
  length-append m.store (replicate (total - length m.store) 0),
  length-replicate {A = ℕ} (total - length m.store) 0,
)

-- After a write at non-negative numbers the memory is as long as it was, or as the end of the
-- written range, whichever is more.
pub size_of-set_at :
    (grow : ℕ → ℕ → ℕ) (offset size : ℕ) (value' : List ℕ) (m : Memory)
    → size_of (set_at grow offset size value' m) ≡ max (size_of m) (offset + size)
unfolding size_of set_at
size_of-set_at grow offset size value' m =
    elim (Bool-cases (leb (length m.store) (offset + size))) [
      | inl e ↦ rw e (
          let l = length-extend grow (offset + size) m (ground arith) in
          omega (
            arith,
            l,
            length-copy_in offset size value' (extend grow (offset + size) m).store
                (omega (arith, l)),
            e'' e,
          ))
      | inr e ↦ rw e (omega (arith, length-copy_in offset size value' m.store (ground arith), e' e))
    ]
  where
    e' : leb (length m.store) (offset + size) ≡ false → offset + size < length m.store
    e' h = ground arith

    e'' : leb (length m.store) (offset + size) ≡ true → length m.store ≤ offset + size
    e'' h = ground arith

get_elem?-replicate :
    (n i : ℕ) → get_elem? {A = ℕ} (replicate n 0) i ≡ (if ltb i n then some 0 else none)
get_elem?-replicate zero i = ground arith
get_elem?-replicate (suc n) zero = ground arith
get_elem?-replicate (suc n) (suc i) = ground (arith, get_elem?-replicate n i)

-- The byte at `i` of a memory that is padded with zeros up to `total`.
abbrev pub padded : Memory → ℕ → ℕ → Option ℕ
padded m total i =
    if ltb i (length m.store) then get_elem? m.store i else if ltb i total then some 0 else none

extend-get :
    (grow : ℕ → ℕ → ℕ) (total : ℕ) (m : Memory) (i : ℕ)
    → length m.store ≤ total
    → get_elem? (extend grow total m).store i ≡ padded m total i
unfolding extend
extend-get grow total m i h = ground (
  arith,
  get_elem?-split m.store (replicate (total - length m.store) 0) i,
  get_elem?-replicate (total - length m.store) (i - length m.store),
)

-- After `Set` every byte of the written range that the value reaches is the value's, and every
-- other byte is the old one, or zero where the memory has grown.
pub set_at-bytes :
    (grow : ℕ → ℕ → ℕ) (offset size : ℕ) (value' : List ℕ) (m : Memory) (i : ℕ)
    → get_elem? (set_at grow offset size value' m).store i ≡ (
        if leb offset i && ltb i (offset + min size (length value'))
        then get_elem? value' (i - offset)
        else padded m (offset + size) i)
unfolding set_at
set_at-bytes grow offset size value' m i =
    elim (Bool-cases (leb (length m.store) (offset + size))) [
      | inl e ↦ rw e (
          let l = length-extend grow (offset + size) m (ground arith) in
          copy_in-get offset size value' (extend grow (offset + size) m).store i (omega (arith, l))
          ∙ rw (extend-get grow (offset + size) m i (ground arith)))
      | inr e ↦ rw e (
          copy_in-get offset size value' m.store i (ground arith)
          ∙ ground (arith, get_elem?-ge m.store i))
    ]
