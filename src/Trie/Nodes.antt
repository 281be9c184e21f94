-- ===== src/Trie/Nodes.antt =====
-- Reading and writing of the nodes of ethutil/trie.go: GetNode, GetState, InsertState and
-- DeleteState, with the helpers of ethutil/helpers.go. Each recursive call of the three is handed
-- to the step as a function; the fuel bounds the depth of the calls.
pub mod Delete
use goeth_self_training.Prelude.{
  ℕ, zero, suc, ◌+◌, ◌-◌, ◌==◌, Bool, true, false, ◌&&◌, ◌||◌, not, Option, some, none, List, [],
  ◌∷◌, ◌++◌, list_eq, leb, ltb, if◌then◌else◌, length, take, drop, get_elem?,
}
use goeth_self_training.Prelude.Result.{Result, ok, panic, out_of_fuel, ◌>>=◌, or_panic}
use goeth_self_training.Item.{Item, Items, nil, bytes, str, list, item, no_items}
use goeth_self_training.Compact.{compact_encode, compact_decode}
use goeth_self_training.Value
use goeth_self_training.Value.{new_value, is_nil, len, to_str, to_bytes, new_value_from_bytes}
use goeth_self_training.Trie.Cache
use goeth_self_training.Trie.Cache.{Cache}

-- `CompareIntSlice` is `list_eq`. `MatchingNibbleLength(a, b)` slices one past what matches: past
-- the end of `a` that panics, and behind `b`, which is a key without its terminator as
-- `CompactDecode` returns it, there is room for one more.
unfoldable pub matching_nibble_length : List ℕ → List ℕ → Result ℕ
matching_nibble_length [] b = panic
matching_nibble_length (x ∷ a) [] = ok 0
matching_nibble_length (x ∷ a) (y ∷ b) =
    let more = matching_nibble_length a b in if x == y then (more >>= λ n. ok (suc n)) else ok 0

-- `GetNode`: a node itself, or the one that its hash stands for.
unfoldable pub get_node : Item → Cache → Result (Item × Cache)
unfolding Value.get to_str to_bytes is_nil Cache.get new_value
get_node node c =
    let n = new_value node in
    if is_nil (Value.get n 0)
    then if length (to_str n) == 0
      then ok (n, c)
      else if ltb (length (to_str n)) 32
      then (new_value_from_bytes (to_str n) >>= λ v. ok (v, c))
      else Cache.get (to_bytes n) c
    else ok (n, c)

-- A function that the recursive calls of `GetState` go to.
abbrev pub Getter : Type 0
Getter = Item → List ℕ → Cache → Result (Item × Cache)

-- A node of two items: its key is decoded and compared.
unfoldable pub get_short : Getter → Item → List ℕ → Cache → Result (Item × Cache)
unfolding Value.get to_str
get_short rec current key c = do
  k ← compact_decode (to_str (Value.get current 0))
  if leb (length k) (length key) && list_eq k (take (length k) key)
      then rec (Value.get current 1) (drop (length k) key) c
      else ok (str [], c)

unfoldable pub get_at : Getter → Item → List ℕ → Cache → Result (Item × Cache)
unfolding Value.get get_short
get_at rec current [] c = panic
get_at rec current (x ∷ key) c =
    if len current == 2
    then get_short rec current (x ∷ key) c
    else if len current == 17
    then rec (Value.get current x) key c
    else ok (str [], c)

-- The test that ends `GetState`: nothing is left of the key, or of the trie.
abbrev pub is_over : Item → List ℕ → Bool
is_over n key = length key == 0 || (is_nil n || len n == 0)

unfoldable pub get_step : Getter → Item → List ℕ → Cache → Result (Item × Cache)
unfolding get_node get_at is_nil len new_value
get_step rec node key c =
    if is_over (new_value node) key
    then ok (node, c)
    else (do (current, c') ← get_node node c; get_at rec current key c')

unfoldable pub get_state : ℕ → Item → List ℕ → Cache → Result (Item × Cache)
unfolding get_step
get_state zero node key c = out_of_fuel
get_state (suc fuel) node key c = get_step (λ n k c'. get_state fuel n k c') node key c

-- EmptyStringSlice(n)
abbrev pub empty_slots : ℕ → Items
empty_slots zero = no_items
empty_slots (suc n) = item (str []) (empty_slots n)

-- slice[i] = v
unfoldable pub set_slot : Items → ℕ → Item → Result Items
set_slot no_items i v = panic
set_slot (item u us) zero v = ok (item v us)
set_slot (item u us) (suc i) v = set_slot us i v >>= λ us'. ok (item u us')

-- The first `left` slots from `i` on, where a missing one is the empty string.
abbrev pub copied : Item → Item
copied nil = str []
copied v = v

unfoldable pub copy_slots : ℕ → ℕ → Item → Items
unfolding Value.get
copy_slots zero i current = no_items
copy_slots (suc left) i current =
    item (copied (Value.get current i)) (copy_slots left (suc i) current)

abbrev pub pair : Item → Item → Item
pair a b = list (item a (item b no_items))

-- There is no node: nil, any string, or an empty value.
unfoldable pub is_fresh : Item → Bool
unfolding len
is_fresh nil = true
is_fresh (str t) = true
is_fresh n = len n == 0

abbrev pub Inserter : Type 0
Inserter = Item → List ℕ → Item → Cache → Result (Item × Cache)

module _ (sha3 : List ℕ → List ℕ) where
  -- t.Put([]interface{}{CompactEncode(key), value})
  unfoldable pub put_pair : List ℕ → Item → Cache → Result (Item × Cache)
  unfolding Cache.put
  put_pair key v c = do code ← compact_encode key; ok (Cache.put sha3 (pair (str code) v) c)

  -- The two nodes under a slice of 17, where the keys differ at `m`.
  unfoldable pub fork : Inserter → ℕ → List ℕ → Item → List ℕ → Item → Cache → Result (Item × Cache)
  unfolding set_slot Cache.put
  fork rec m k v key new c = do
    (old_node, c₁) ← rec (str []) (drop (suc m) k) v c
    (new_node, c₂) ← rec (str []) (drop (suc m) key) new c₁
    y ← or_panic (get_elem? k m)
    x ← or_panic (get_elem? key m)
    scaled ← set_slot (empty_slots 17) y old_node
    scaled' ← set_slot scaled x new_node
    ok (Cache.put sha3 (list scaled') c₂)

  -- The key that matched stands in front.
  unfoldable pub prefixed : List ℕ → Item × Cache → Result (Item × Cache)
  unfolding put_pair
  prefixed [] r = ok r
  prefixed (x ∷ key) (node, c) = put_pair (x ∷ key) node c

  unfoldable pub insert_short : Inserter → Item → List ℕ → Item → Cache → Result (Item × Cache)
  unfolding put_pair matching_nibble_length fork prefixed Value.get to_str
  insert_short rec current key new c = do
    k ← compact_decode (to_str (Value.get current 0))
    let v = Value.get current 1
    if list_eq k key then put_pair key new c else (do
      m ← matching_nibble_length key k
      r ← (if m == length k then rec v (drop m key) new c else fork rec m k v key new c)
      prefixed (take m key) r)

  unfoldable pub insert_wide : Inserter → Item → List ℕ → Item → Cache → Result (Item × Cache)
  unfolding copy_slots set_slot Cache.put Value.get
  insert_wide rec current [] new c = panic
  insert_wide rec current (x ∷ key) new c = do
    (node, c') ← rec (Value.get current x) key new c
    slots ← set_slot (copy_slots 17 0 current) x node
    ok (Cache.put sha3 (list slots) c')

  unfoldable pub insert_step : Inserter → Inserter
  unfolding is_fresh get_node insert_short insert_wide put_pair len new_value
  insert_step rec node [] new c = ok (new, c)
  insert_step rec node (x ∷ key) new c =
      if is_fresh (new_value node) then put_pair (x ∷ key) new c else (do
        (current, c') ← get_node node c
        if len current == 2
            then insert_short rec current (x ∷ key) new c'
            else insert_wide rec current (x ∷ key) new c')

  -- `InsertState`
  unfoldable pub insert_state : ℕ → Inserter
  unfolding insert_step
  insert_state zero node key new c = out_of_fuel
  insert_state (suc fuel) node key new c =
      insert_step (λ n k v c'. insert_state fuel n k v c') node key new c
