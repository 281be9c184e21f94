-- ===== src/Tests/Tries.antt =====
-- The trie of ethutil/trie.go at concrete inputs. The hash stands for Sha3Bin: the first 32 bytes.
use goeth_self_training.Prelude.{
  ℕ, zero, ◌≡◌, refl, inl, inr, false, List, [], ◌∷◌, ◌++◌, length, length-append, length-take,
  length-replicate, list_eq, take, replicate, arith,
}
use goeth_self_training.Prelude.Result.{Result, ok, ◌>>=◌}
use goeth_self_training.Item.{str}
use goeth_self_training.Bytes.{be_bytes}
use goeth_self_training.Rlp.{encode, encode_bytes, slice_header}
use goeth_self_training.Compact.{compact_encode, compact_decode}
use goeth_self_training.Trie.Ops.{RawTrie, new_trie, get_key, update_key, delete_key, undo_trie}
use goeth_self_training.Trie.Rep.{Coherent}
use goeth_self_training.Trie.Refines.{
  Updates, start, then_update, get_key-Updates, update_key-Updates,
}

abbrev pub hash : List ℕ → List ℕ
hash s = take 32 (s ++ replicate 32 0)

pub hash_length : (s : List ℕ) → length (hash s) ≡ 32
hash_length s = omega (
  arith,
  length-take 32 (s ++ replicate 32 0),
  length-append s (replicate 32 0),
  length-replicate 32 zero,
)

abbrev pub nothing : List ℕ → List ℕ
nothing s = []

abbrev dog : List ℕ
dog = 0x64 ∷ 0x6f ∷ []

abbrev horse : List ℕ
horse = 0x74 ∷ []

abbrev cat : List ℕ
cat = 0x14 ∷ []

abbrev long : List ℕ
long = replicate 40 7

abbrev then_put : List ℕ → List ℕ → Result RawTrie → Result RawTrie
then_put key w r = r >>= λ t. update_key hash nothing key w t

abbrev pub empty_trie : RawTrie
empty_trie = new_trie nothing (str [])

-- A leaf, then a branch under a path, then a node that goes into the cache.
abbrev run : Result RawTrie
run = then_put cat long (then_put horse (3 ∷ []) (then_put dog (1 ∷ 2 ∷ []) (ok empty_trie)))

run_get_dog : (run >>= λ t. get_key dog t >>= λ r. ok r.0) ≡ ok (1 ∷ 2 ∷ [])
unfolding update_key get_key new_trie compact_encode compact_decode encode slice_header encode_bytes
    be_bytes
run_get_dog = refl

run_empty : (run >>= λ t. get_key (0x65 ∷ []) t >>= λ r. ok r.0) ≡ ok []
unfolding update_key get_key new_trie compact_encode compact_decode encode slice_header encode_bytes
    be_bytes
run_empty = refl

-- `Delete` of what was put, and `Undo` of all.
run_delete :
    (run >>= λ t. delete_key hash nothing dog t >>= λ t'. get_key dog t' >>= λ r. ok r.0) ≡ ok []
unfolding delete_key get_key new_trie compact_encode compact_decode encode slice_header encode_bytes
    be_bytes
run_delete = refl

run_undo : (run >>= λ t. get_key dog (undo_trie t) >>= λ r. ok r.0) ≡ ok []
unfolding update_key get_key new_trie undo_trie compact_encode compact_decode encode slice_header
    encode_bytes be_bytes
run_undo = refl

-- Two keys under one path, beside a third that is deleted: the path's branch is lost.
abbrev beside : Result RawTrie
beside =
    then_put (0x14 ∷ 0x13 ∷ []) (6 ∷ [])
      (then_put (0x14 ∷ 0x12 ∷ []) (5 ∷ []) (then_put horse (3 ∷ []) (ok empty_trie)))

beside_found : (beside >>= λ t. get_key (0x14 ∷ 0x12 ∷ []) t >>= λ r. ok r.0) ≡ ok (5 ∷ [])
unfolding update_key get_key new_trie compact_encode compact_decode encode slice_header encode_bytes
    be_bytes
beside_found = refl

beside_lost :
    (beside >>= λ t.
    delete_key hash nothing horse t >>= λ t'. get_key (0x14 ∷ 0x12 ∷ []) t' >>= λ r. ok r.0)
    ≡ ok []
unfolding delete_key get_key new_trie compact_encode compact_decode encode slice_header encode_bytes
    be_bytes
beside_lost = refl

-- The same run, step by step.
abbrev got : Result RawTrie → RawTrie
got (ok t) = t
got r = empty_trie

abbrev one : RawTrie
one = got (update_key hash nothing dog (1 ∷ 2 ∷ []) empty_trie)

abbrev two : RawTrie
two = got (update_key hash nothing horse (3 ∷ []) one)

abbrev three : RawTrie
three = got (update_key hash nothing cat long two)

one_eq : update_key hash nothing dog (1 ∷ 2 ∷ []) empty_trie ≡ ok one
unfolding update_key new_trie compact_encode compact_decode encode slice_header encode_bytes
    be_bytes
one_eq = refl

two_eq : update_key hash nothing horse (3 ∷ []) one ≡ ok two
unfolding update_key new_trie compact_encode compact_decode encode slice_header encode_bytes
    be_bytes
two_eq = refl

three_eq : update_key hash nothing cat long two ≡ ok three
unfolding update_key new_trie compact_encode compact_decode encode slice_header encode_bytes
    be_bytes
three_eq = refl

one_Coherent : Coherent one.cache.nodes
unfolding update_key new_trie compact_encode compact_decode encode slice_header encode_bytes
    be_bytes
one_Coherent = tt

two_Coherent : Coherent two.cache.nodes
unfolding update_key new_trie compact_encode compact_decode encode slice_header encode_bytes
    be_bytes
two_Coherent = tt

heads : (x y : ℕ) (a b : List ℕ) → list_eq (x ∷ []) (y ∷ []) ≡ false → ¬ (x ∷ a ≡ y ∷ b)
heads x y a b h e = ground (arith, h, e)

three_Coherent : Coherent three.cache.nodes
unfolding update_key new_trie compact_encode compact_decode encode slice_header encode_bytes
    be_bytes
three_Coherent = (
  (λ v k. elim k [ inl p ↦ absurd (heads 234 248 _ _ refl p.0) | inr n ↦ elim n [ ] ]),
  ((λ v k. elim k [ ]), tt),
)

-- All that the run wrote.
abbrev history : List (List ℕ × List ℕ)
history = (cat, long) ∷ (horse, 3 ∷ []) ∷ (dog, 1 ∷ 2 ∷ []) ∷ []

three_Updates : Updates hash hash_length nothing nothing three history
three_Updates =
    then_update cat 7 (replicate 39 7)
      (then_update horse 3 []
        (then_update dog 1 (2 ∷ []) start (omega arith, (omega arith, tt)) one_eq one_Coherent)
        (omega arith, tt) two_eq two_Coherent)
      (omega arith, tt) three_eq three_Coherent

get_key-Updates_example : get_key cat three ≡ ok (long, three)
get_key-Updates_example =
    get_key-Updates hash hash_length nothing nothing three history cat three_Updates
      (omega arith, tt)

update_key-Updates_example :
    (u : RawTrie) × (update_key hash nothing (9 ∷ []) (8 ∷ []) three ≡ ok u)
    × (Coherent u.cache.nodes
        → Updates hash hash_length nothing nothing u ((9 ∷ [], 8 ∷ []) ∷ history))
update_key-Updates_example =
    update_key-Updates hash hash_length nothing nothing three history (9 ∷ []) 8 [] three_Updates
      (omega arith, tt)
