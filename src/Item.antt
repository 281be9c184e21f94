-- ===== src/Item.antt =====
-- What Go code keeps in an `interface{}` that is handed to the RLP coder or to `Value`
-- (ethutil/value.go, ethutil/rlp.go): one constructor for each dynamic type that they tell apart.
-- `sized` is int8, int16, int32 and int64, which the code treats alike. `big none` is a nil
-- *big.Int. `value` is a *Value, by what its `Val` holds.
use goeth_self_training.Prelude.{ℕ, Option, some, none, List, [], ◌∷◌, zero, suc}
use goeth_self_training.Prelude.Int.{ℤ}

mutual
  pub data Item : Type 0 where
    nil : Item
    int sized : ℤ → Item
    uint uint8 uint16 uint32 uint64 : ℕ → Item
    big : Option ℤ → Item
    bytes str : List ℕ → Item
    list : Items → Item
    value : Item → Item

  pub data Items : Type 0 where
    no_items : Items
    item : Item → Items → Items

abbrev pub length_items : Items → ℕ
length_items no_items = 0
length_items (item v vs) = suc (length_items vs)

abbrev pub get_item? : Items → ℕ → Option Item
get_item? no_items i = none
get_item? (item v vs) zero = some v
get_item? (item v vs) (suc i) = get_item? vs i

-- append(xs, ys...) on []interface{}.
abbrev pub append_items : Items → Items → Items
append_items no_items ys = ys
append_items (item x xs) ys = item x (append_items xs ys)

abbrev pub from_list : List Item → Items
from_list [] = no_items
from_list (x ∷ xs) = item x (from_list xs)
