-- ===== src/Rlp/Plain.antt =====
-- What `Decode` makes of an encoded item (ethutil/rlp.go), and the items whose payload lengths
-- `ReadVarint` reads whole.
use goeth_self_training.Prelude.{ℕ, List, [], ◌∷◌, length, leb, if◌then◌else◌, Option, some, none}
use goeth_self_training.Prelude.Int.{ℤ}
use goeth_self_training.Bytes.{big_bytes}
use goeth_self_training.Bytes.BigEndian.{IsReadable}
use goeth_self_training.Item.{
  Item, Items, nil, int, sized, uint, uint8, uint16, uint32, uint64, big, bytes, str, list, value,
  no_items, item,
}
use goeth_self_training.Rlp.{encode_items, to_int64}

-- What an encoded byte string decodes to: one byte up to 0x7f comes back as a uint8.
unfoldable pub plain_bytes : List ℕ → Item
plain_bytes (b ∷ []) = if leb b 0x7f then uint8 b else bytes (b ∷ [])
plain_bytes t = bytes t

abbrev pub plain_big : Option ℤ → Item
plain_big none = list no_items
plain_big (some z) = plain_bytes (big_bytes z)

-- What an encoded item decodes to.
unfoldable mutual
  pub plain : Item → Item
  plain nil = list no_items
  plain (int z) = plain_big (some z)
  plain (sized z) = plain_big (some z)
  plain (uint n) = plain_big (some (to_int64 n))
  plain (uint8 n) = plain_big (some (to_int64 n))
  plain (uint16 n) = plain_big (some (to_int64 n))
  plain (uint32 n) = plain_big (some (to_int64 n))
  plain (uint64 n) = plain_big (some (to_int64 n))
  plain (big z) = plain_big z
  plain (bytes t) = plain_bytes t
  plain (str t) = plain_bytes t
  plain (list vs) = list (plain_items vs)
  plain (value v) = plain v

  pub plain_items : Items → Items
  plain_items no_items = no_items
  plain_items (item v vs) = item (plain v) (plain_items vs)

abbrev pub FitsBig : Option ℤ → Type 0
FitsBig none = Unit
FitsBig (some z) = IsReadable (length (big_bytes z))

-- Every payload length in the item is one that `ReadVarint` reads whole.
unfoldable mutual
  pub Fits : Item → Type 0
  Fits nil = Unit
  Fits (int z) = FitsBig (some z)
  Fits (sized z) = FitsBig (some z)
  Fits (uint n) = FitsBig (some (to_int64 n))
  Fits (uint8 n) = FitsBig (some (to_int64 n))
  Fits (uint16 n) = FitsBig (some (to_int64 n))
  Fits (uint32 n) = FitsBig (some (to_int64 n))
  Fits (uint64 n) = FitsBig (some (to_int64 n))
  Fits (big z) = FitsBig z
  Fits (bytes t) = IsReadable (length t)
  Fits (str t) = IsReadable (length t)
  Fits (list vs) = IsReadable (length (encode_items vs)) × FitsItems vs
  Fits (value v) = Fits v

  pub FitsItems : Items → Type 0
  FitsItems no_items = Unit
  FitsItems (item v vs) = Fits v × FitsItems vs
