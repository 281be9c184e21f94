-- ===== src/Value.antt =====
-- ethutil/value.go: `Value` by its field `Val` (its field `kind` is never used), and its accessors.
-- A []byte, a string and a []interface{} are never nil slices here.
pub mod Numbers
use goeth_self_training.Prelude.{
  ℕ, zero, suc, ◌+◌, ◌-◌, ◌*◌, ◌/◌, ◌%◌, ◌^◌, ◌<◌, ◌≤◌, Bool, true, false, ◌||◌, ◌&&◌, Option, some,
  none, List, [], ◌∷◌, ◌++◌, leb, ltb, ◌==◌, if◌then◌else◌, length, take, drop, get_elem?,
}
use goeth_self_training.Prelude.Int.{ℤ, pos, negsuc, nat_abs}
use goeth_self_training.Prelude.Result.{Result, ok, panic, out_of_fuel, ◌>>=◌, or_panic}
use goeth_self_training.Bytes.{u64, read_varint, big_d}
use goeth_self_training.Item.{
  Item, Items, nil, int, sized, uint, uint8, uint16, uint32, uint64, big, bytes, str, list, value,
  no_items, item, length_items, get_item?, append_items,
}
use goeth_self_training.Rlp.{encode, decode_from, to_int64}

-- NewValue(val).Val: a *Value is opened once.
unfoldable pub new_value : Item → Item
new_value (value v) = v
new_value v = v

unfoldable pub is_nil : Item → Bool
is_nil nil = true
is_nil _ = false

unfoldable pub len : Item → ℕ
len (list vs) = length_items vs
len (bytes t) = length t
len (str t) = length t
len _ = 0

-- uint64(x) of a Go int, in two's complement.
abbrev pub int_to_u64 : ℤ → ℕ
int_to_u64 (pos n) = u64 n
int_to_u64 (negsuc n) = u64 (2 ^ 64 - n - 1)

-- `Uint64` of a *big.Int: the low 64 bits of its magnitude, also for a negative number.
abbrev pub big_uint64 : ℤ → ℕ
big_uint64 z = u64 (nat_abs z)

-- `Uint`; int8 to int64 and *big.Int are not among its cases.
unfoldable pub to_uint : Item → ℕ
to_uint (uint8 n) = n
to_uint (uint16 n) = n
to_uint (uint32 n) = n
to_uint (uint64 n) = n
to_uint (int z) = int_to_u64 z
to_uint (uint n) = n
to_uint (bytes t) = read_varint t
to_uint _ = 0

unfoldable pub to_byte_value : Item → ℕ
to_byte_value (uint8 n) = n
to_byte_value _ = 0

-- `BigInt`; none is a nil *big.Int.
unfoldable pub to_big : Item → Option ℤ
unfolding to_uint
to_big (bytes t) = some (pos (big_d t))
to_big (big z) = z
to_big v = some (to_int64 (to_uint v))

-- string(b) of a byte: the UTF-8 form of that code point.
abbrev pub byte_to_str : ℕ → List ℕ
byte_to_str b = if ltb b 0x80 then b ∷ [] else (0xc0 + b / 64) ∷ (0x80 + b % 64) ∷ []

unfoldable pub to_str : Item → List ℕ
to_str (bytes t) = t
to_str (str t) = t
to_str (uint8 b) = byte_to_str b
to_str _ = []

unfoldable pub to_bytes : Item → List ℕ
to_bytes (bytes t) = t
to_bytes _ = []

unfoldable pub to_slice : Item → Items
to_slice (list vs) = vs
to_slice _ = no_items

-- `SliceFrom`: `slice[from:]` panics past the length.
unfoldable pub drop_items : ℕ → Items → Option Items
drop_items zero vs = some vs
drop_items (suc n) no_items = none
drop_items (suc n) (item v vs) = drop_items n vs

unfoldable pub slice_from : Item → ℕ → Result Item
unfolding drop_items to_slice
slice_from v from = do vs ← or_panic (drop_items from (to_slice v)); ok (list vs)

-- `IsSlice` and `IsStr`: reflect.TypeOf(nil) has no kind.
unfoldable pub is_slice : Item → Result Bool
is_slice nil = panic
is_slice (bytes t) = ok true
is_slice (list vs) = ok true
is_slice _ = ok false

unfoldable pub is_str : Item → Result Bool
is_str nil = panic
is_str (str t) = ok true
is_str _ = ok false

unfoldable pub is_list : Item → Bool
is_list (list vs) = true
is_list _ = false

-- `IsEmpty`; `||` and `&&` stop at the first test that decides.
unfoldable pub is_empty : Item → Result Bool
unfolding is_slice is_str len
is_empty nil = ok true
is_empty v = do slice' ← is_slice v; str' ← is_str v; ok ((slice' || str') && len v == 0)

-- `Get(idx)` for an index that is not negative.
unfoldable pub get : Item → ℕ → Item
unfolding new_value
get (list vs) idx = elim (get_item? vs idx) [ none ↦ nil | some v ↦ new_value v ]
get _ idx = nil

-- NewValueFromBytes of a slice whose capacity is its length.
unfoldable pub new_value_from_bytes : List ℕ → Result Item
unfolding new_value
new_value_from_bytes [] = ok nil
new_value_from_bytes (b ∷ bs) = do (v, p) ← decode_from (b ∷ bs) [] 0; ok (new_value v)

-- `Append`
unfoldable pub append : Item → Item → Item
unfolding to_slice
append v x = list (append_items (to_slice v) (item x no_items))

-- `NewSliceValue` of a []interface{}: the items are appended one by one to an empty list.
unfoldable pub append_all : Item → Items → Item
unfolding append
append_all v no_items = v
append_all v (item x xs) = append_all (append v x) xs

unfoldable pub new_slice_value : Item → Item
unfolding append_all
new_slice_value (list vs) = append_all (list no_items) vs
new_slice_value _ = list no_items

-- `ValueIterator`: `next` stands for `Next`, and `none` for its false.
pub record ValueIterator : Type 0 where
  pub over : Item
  pub current : Item
  pub idx : ℕ

unfoldable pub next : ValueIterator → Option ValueIterator
unfolding len get
next it =
    if leb (len it.over) it.idx
    then none
    else some (record it { current = get it.over it.idx; idx = it.idx + 1 })
