-- ===== src/Trie/Iterator.antt =====
-- `TrieIterator` of ethutil/trie.go: `Collect`, `Purge` and `Each`. The walk goes down from the root
-- through the cache; `fuel` bounds its depth. What `Each` hands to its callback is a list, in order.
use goeth_self_training.Prelude.{
  ℕ, zero, suc, ◌+◌, ◌-◌, ◌&&◌, ◌==◌, Bool, true, false, not, none, List, [], ◌∷◌, ◌++◌,
  if◌then◌else◌, length, get_elem?,
}
use goeth_self_training.Prelude.Result.{Result, ok, out_of_fuel, ◌>>=◌, or_panic}
use goeth_self_training.Item.{Item, str}
use goeth_self_training.Compact.{compact_decode, decode_compact}
use goeth_self_training.Value
use goeth_self_training.Value.{new_value, len, to_str, to_bytes}
use goeth_self_training.Trie.Cache
use goeth_self_training.Trie.Cache.{Cache}
use goeth_self_training.Trie.Ops.{RawTrie}

-- The fields of the iterator that the walk of `Collect` changes.
pub record Walk : Type 0 where
  pub shas : List (List ℕ)
  pub values : List (List ℕ)
  pub cache : Cache

abbrev is_empty_str : Item → Bool
is_empty_str v = length (to_str v) == 0

-- k[len(k)-1]
abbrev last_nibble : List ℕ → Result ℕ
last_nibble k = or_panic (if length k == 0 then none else get_elem? k (length k - 1))

-- `getNode`, with `rec` for `workNode`.
unfoldable pub walk_to : (Item → Walk → Result Walk) → List ℕ → Walk → Result Walk
unfolding Cache.get
walk_to rec key w = do (n, c) ← Cache.get key w.cache; rec n (record w { cache = c })

-- `workNode` of a node of two slots.
unfoldable pub walk_short : (Item → Walk → Result Walk) → Item → Walk → Result Walk
unfolding compact_decode Value.get to_str to_bytes walk_to
walk_short rec n w = do
  k ← compact_decode (to_str (Value.get n 0))
  let v = Value.get n 1
  if is_empty_str v then rec v w else (do
    last ← last_nibble k
    if last == 16
        then ok (record w { values = w.values ++ to_str v ∷ [] })
        else walk_to rec (to_bytes v) (record w { shas = w.shas ++ to_bytes v ∷ [] }))

-- `workNode` of another node, from slot `i` on: what is noted for a slot is slot 1.
unfoldable pub walk_slots : (Item → Walk → Result Walk) → ℕ → ℕ → Item → Walk → Result Walk
unfolding Value.get to_str to_bytes len walk_to
walk_slots rec zero i n w = ok w
walk_slots rec (suc count) i n w = do
  let v = Value.get n i
  w' ←
      if (i == 16) && not (len v == 0)
      then ok (record w { values = w.values ++ to_str v ∷ [] })
      else if is_empty_str v
      then rec v w
      else walk_to rec (to_str v) (record w { shas = w.shas ++ to_bytes (Value.get n 1) ∷ [] })
  walk_slots rec count (i + 1) n w'

-- `workNode`
unfoldable pub work_node : ℕ → Item → Walk → Result Walk
unfolding len walk_short walk_slots
work_node zero n w = out_of_fuel
work_node (suc fuel) n w =
    if len n == 2
    then walk_short (λ v w'. work_node fuel v w') n w
    else walk_slots (λ v w'. work_node fuel v w') (len n) 0 n w

abbrev is_empty_root : Item → Bool
is_empty_root (str []) = true
is_empty_root v = false

-- `Collect`: what was noted on the way, with the walk's end.
unfoldable pub collect : ℕ → RawTrie → Result Walk
unfolding work_node new_value to_bytes walk_to
collect fuel t =
    let begun : Walk = record { shas = []; values = []; cache = t.cache } in
    if is_empty_root t.root
    then ok begun
    else walk_to (work_node fuel) (to_bytes (new_value t.root)) begun

unfoldable pub delete_each : List (List ℕ) → Cache → Cache
unfolding Cache.delete
delete_each [] c = c
delete_each (sha ∷ shas) c = delete_each shas (Cache.delete sha c)

-- `Purge`: the number of the values, and the trie without the nodes that were noted.
unfoldable pub purge : ℕ → RawTrie → Result (ℕ × RawTrie)
unfolding collect delete_each
purge fuel t = do
  w ← collect fuel t
  ok (length w.values, record t { cache = delete_each w.shas w.cache })

-- What the callback of `Each` was given so far, and the cache.
abbrev pub Visit : Type 0
Visit = List (List ℕ × Item) × Cache

-- `fetchNode`, with `rec` for `iterateNode`.
unfoldable pub fetch_node :
    (List ℕ → Item → Visit → Result Visit) → List ℕ → List ℕ → Visit → Result Visit
unfolding Cache.get
fetch_node rec key node (seen, c) = do (n, c') ← Cache.get node c; rec key n (seen, c')

unfoldable pub visit_short :
    (List ℕ → Item → Visit → Result Visit) → List ℕ → Item → Visit → Result Visit
unfolding compact_decode decode_compact Value.get to_str to_bytes fetch_node
visit_short rec key n (seen, c) = do
  k ← compact_decode (to_str (Value.get n 0))
  let v = Value.get n 1
  if is_empty_str v then rec key v (seen, c) else (do
    last ← last_nibble k
    if last == 16
        then ok (seen ++ (decode_compact (key ++ k), v) ∷ [], c)
        else fetch_node rec (key ++ k) (to_bytes v) (seen, c))

unfoldable pub visit_slots :
    (List ℕ → Item → Visit → Result Visit) → ℕ → ℕ → List ℕ → Item → Visit → Result Visit
unfolding decode_compact Value.get to_str len fetch_node
visit_slots rec zero i key n s = ok s
visit_slots rec (suc count) i key n (seen, c) = do
  let v = Value.get n i
  let pk = key ++ i ∷ []
  s ←
      if (i == 16) && not (len v == 0)
      then ok (seen ++ (decode_compact pk, v) ∷ [], c)
      else if is_empty_str v
      then rec pk v (seen, c)
      else fetch_node rec pk (to_str v) (seen, c)
  visit_slots rec count (i + 1) key n s

-- `iterateNode`
unfoldable pub iterate_node : ℕ → List ℕ → Item → Visit → Result Visit
unfolding len visit_short visit_slots
iterate_node zero key n s = out_of_fuel
iterate_node (suc fuel) key n s =
    if len n == 2
    then visit_short (λ k v s'. iterate_node fuel k v s') key n s
    else visit_slots (λ k v s'. iterate_node fuel k v s') (len n) 0 key n s

-- `Each`
unfoldable pub each : ℕ → RawTrie → Result Visit
unfolding iterate_node fetch_node new_value to_bytes
each fuel t = fetch_node (iterate_node fuel) [] (to_bytes (new_value t.root)) ([], t.cache)
