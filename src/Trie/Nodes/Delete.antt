-- ===== src/Trie/Nodes/Delete.antt =====
-- `DeleteState` of ethutil/trie.go. `beyond` gives what lies between the length and the capacity of
-- a key's slice, which key[:len(k)] may reach.
use goeth_self_training.Prelude.{
  ℕ, zero, suc, ◌==◌, Bool, true, false, List, [], ◌∷◌, ◌++◌, list_eq, if◌then◌else◌, length, drop,
}
use goeth_self_training.Prelude.Result.{Result, ok, panic, out_of_fuel, ◌>>=◌, or_panic}
use goeth_self_training.Bytes.{slice}
use goeth_self_training.Item.{Item, Items, str, list, item, no_items, get_item?}
use goeth_self_training.Compact.{compact_decode}
use goeth_self_training.Value
use goeth_self_training.Value.{new_value, len, to_str}
use goeth_self_training.Trie.Cache
use goeth_self_training.Trie.Cache.{Cache}
use goeth_self_training.Trie.Nodes.{get_node, copy_slots, set_slot, put_pair, pair, is_fresh}

abbrev pub Deleter : Type 0
Deleter = Item → List ℕ → Cache → Result (Item × Cache)

-- n[i] != "", of a string alone: an empty []byte is another dynamic type.
abbrev pub is_used : Item → Bool
is_used (str []) = false
is_used v = true

-- Which slots are used: -1 for none, i for the slot i alone, -2 for more.
pub data Amount : Type 0 where
  no_slot many : Amount
  only : ℕ → Amount

abbrev pub add_slot : ℕ → Amount → Amount
add_slot i no_slot = only i
add_slot i a = many

abbrev pub amount_of : ℕ → Amount → Items → Amount
amount_of i a no_items = a
amount_of i a (item v vs) = amount_of (suc i) (if is_used v then add_slot i a else a) vs

module _ (sha3 : List ℕ → List ℕ) (beyond : List ℕ → List ℕ) where
  -- The node over a child whose path was cut: two short nodes are joined.
  unfoldable pub join_short : List ℕ → Item → Item → Cache → Result (Item × Cache)
  unfolding get_node put_pair Value.get to_str len Cache.put
  join_short k current hash c = do
    (child, c') ← get_node hash c
    if len child == 2
        then (do
          rest ← compact_decode (to_str (Value.get child 0))
          put_pair sha3 (k ++ rest) (Value.get child 1) c')
        else ok (Cache.put sha3 (pair (str (to_str (Value.get current 0))) hash) c')

  unfoldable pub delete_short : Deleter → Item → Item → List ℕ → Cache → Result (Item × Cache)
  unfolding join_short Value.get to_str slice
  delete_short rec node current key c = do
    k ← compact_decode (to_str (Value.get current 0))
    if list_eq k key then ok (str [], c) else (do
      front ← or_panic (slice (key ++ beyond key) 0 (length k))
      if list_eq front k
          then (do
            (hash, c') ← rec (Value.get current 1) (drop (length k) key) c
            join_short k current hash c')
          else ok (node, c))

  -- The node over the only slot that is left: of a short child the value is taken as a string.
  unfoldable pub collapse : Amount → Items → Cache → Result (Item × Cache)
  unfolding get_node put_pair Value.get to_str len Cache.put
  collapse no_slot n c = ok (Cache.put sha3 (list n) c)
  collapse many n c = ok (Cache.put sha3 (list n) c)
  collapse (only i) n c = do
    v ← or_panic (get_item? n i)
    if i == 16 then put_pair sha3 (16 ∷ []) v c else (do
      (child, c') ← get_node v c
      if len child == 17
          then put_pair sha3 (i ∷ []) v c'
          else if len child == 2
          then (do
            rest ← compact_decode (to_str (Value.get child 0))
            put_pair sha3 (i ∷ rest) (str (to_str (Value.get child 1))) c')
          else ok (Cache.put sha3 (list no_items) c'))

  unfoldable pub delete_wide : Deleter → Item → List ℕ → Cache → Result (Item × Cache)
  unfolding copy_slots set_slot collapse
  delete_wide rec current [] c = panic
  delete_wide rec current (x ∷ key) c = do
    let n = copy_slots 17 0 current
    old ← or_panic (get_item? n x)
    (new, c') ← rec old key c
    n' ← set_slot n x new
    collapse (amount_of 0 no_slot n') n' c'

  unfoldable pub delete_step : Deleter → Deleter
  unfolding is_fresh get_node delete_short delete_wide len new_value
  delete_step rec node [] c = ok (str [], c)
  delete_step rec node (x ∷ key) c = if is_fresh (new_value node) then ok (str [], c) else (do
    (current, c') ← get_node node c
    if len current == 2
        then delete_short rec node current (x ∷ key) c'
        else delete_wide rec current (x ∷ key) c')

  -- `DeleteState`
  unfoldable pub delete_state : ℕ → Deleter
  unfolding delete_step
  delete_state zero node key c = out_of_fuel
  delete_state (suc fuel) node key c = delete_step (λ n k c'. delete_state fuel n k c') node key c
