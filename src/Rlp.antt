-- ===== src/Rlp.antt =====
-- ethutil/rlp.go: `Encode` and `Decode`. The data slice of `Decode` is `data`; `spare` holds the
-- bytes between its length and its capacity, which an index does not reach and a slice
-- expression does. `DecodeWithReader` is not modelled: nothing in the repository calls it.
pub mod Fuel
pub mod Header
pub mod Plain
pub mod Texts
pub mod ListItems
pub mod RoundTrip
use goeth_self_training.Prelude.{
  ℕ, zero, suc, ◌+◌, ◌-◌, ◌*◌, ◌/◌, ◌%◌, ◌^◌, ◌<◌, ◌≤◌, ◌&&◌, Bool, Option, some, none, List, [],
  ◌∷◌, ◌++◌, ltb, leb, ◌==◌, if◌then◌else◌, length, get_elem?,
}
use goeth_self_training.Prelude.Int.{ℤ, pos, negsuc, nat_abs}
use goeth_self_training.Prelude.Result.{Result, ok, panic, out_of_fuel, ◌>>=◌, or_panic}
use goeth_self_training.Bytes.{u64, slice, be_bytes, big_bytes, read_varint}
use goeth_self_training.Item.{
  Item, Items, nil, int, sized, uint, uint8, uint16, uint32, uint64, big, bytes, str, list, value,
  no_items, item,
}

-- int64(t) of a value below 2 ^ 64.
abbrev pub to_int64 : ℕ → ℤ
to_int64 n = if ltb n (2 ^ 63) then pos n else negsuc (2 ^ 64 - n - 1)

-- byte(n)
abbrev pub to_byte : ℕ → ℕ
to_byte n = n % 256

-- `case []byte` of `Encode`. Lengths are below 2 ^ 63, so int64(len(t)) is the length.
unfoldable pub encode_bytes : List ℕ → List ℕ
encode_bytes (b ∷ []) = if leb b 0x7f then b ∷ [] else to_byte (1 + 0x80) ∷ b ∷ []
encode_bytes t =
    if ltb (length t) 56
    then to_byte (length t + 0x80) ∷ t
    else to_byte (length (be_bytes (length t)) + 0xb7) ∷ (be_bytes (length t) ++ t)

-- `WriteSliceHeader`.
unfoldable pub slice_header : ℕ → List ℕ
slice_header n =
    if ltb n 56 then to_byte (n + 0xc0) ∷ [] else to_byte (length (be_bytes n) + 0xf7) ∷ be_bytes n

-- `Encode(*big.Int)`, nil included.
unfoldable pub encode_big : Option ℤ → List ℕ
unfolding encode_bytes
encode_big none = 0xc0 ∷ []
encode_big (some z) = encode_bytes (big_bytes z)

-- `Encode`. The unsigned types go through int64(t), as the source has it.
unfoldable mutual
  pub encode : Item → List ℕ
  encode nil = 0xc0 ∷ []
  encode (int z) = encode_big (some z)
  encode (sized z) = encode_big (some z)
  encode (uint n) = encode_big (some (to_int64 n))
  encode (uint8 n) = encode_big (some (to_int64 n))
  encode (uint16 n) = encode_big (some (to_int64 n))
  encode (uint32 n) = encode_big (some (to_int64 n))
  encode (uint64 n) = encode_big (some (to_int64 n))
  encode (big z) = encode_big z
  encode (bytes t) = encode_bytes t
  encode (str t) = encode_bytes t
  encode (list vs) = slice_header (length (encode_items vs)) ++ encode_items vs
  encode (value v) = encode v

  pub encode_items : Items → List ℕ
  encode_items no_items = []
  encode_items (item v vs) = encode v ++ encode_items vs

-- `data[pos]`, where `pos` is a uint64.
unfoldable pub byte_at : List ℕ → ℕ → Result ℕ
byte_at data' pos' = or_panic (get_elem? data' pos')

-- `data[from:to]`, up to the capacity.
unfoldable pub cut : List ℕ → List ℕ → ℕ → ℕ → Result (List ℕ)
unfolding slice
cut data' spare from to = or_panic (slice (data' ++ spare) from to)

-- One case of the switch of `Decode` that returns without a recursive call, and the two that loop:
-- the payload's first position and its length.
pub data Head : Type 0 where
  single : ℕ → Head
  text : ℕ → ℕ → Head
  items_at : ℕ → ℕ → Head

-- The header at `pos`, all arithmetic in uint64.
unfoldable pub head_at : List ℕ → List ℕ → ℕ → Result Head
unfolding byte_at cut
head_at data' spare p = do
  char ← byte_at data' p
  if leb char 0x7f
      then ok (single char)
      else if leb char 0xb7
      then ok (text (u64 (p + 1)) (char - 0x80))
      else if leb char 0xbf
      then (do
        size ← cut data' spare (u64 (p + 1)) (u64 (p + 1 + (char - 0xb7)))
        ok (text (u64 (p + 1 + (char - 0xb7))) (read_varint size)))
      else if leb char 0xf7
      then ok (items_at (u64 (p + 1)) (char - 0xc0))
      else (do
        size ← cut data' spare (u64 (p + 1)) (u64 (p + 1 + (char - 0xf7)))
        ok (items_at (u64 (p + (char - 0xf7) + 1)) (read_varint size)))

-- `return data[from:from+n], from + n`
unfoldable pub text_at : List ℕ → List ℕ → ℕ → ℕ → Result (Item × ℕ)
unfolding cut
text_at data' spare from n = do
  t ← cut data' spare from (u64 (from + n))
  ok (bytes t, u64 (from + n))

-- The case of the switch that a header selects; `loop` is the loop over the items.
unfoldable pub at_head :
    (ℕ → ℕ → Result (Items × ℕ)) → List ℕ → List ℕ → ℕ → Head → Result (Item × ℕ)
unfolding text_at
at_head loop data' spare p (single b) = ok (uint8 b, u64 (p + 1))
at_head loop data' spare p (text from n) = text_at data' spare from n
at_head loop data' spare p (items_at from n) = do (vs, q) ← loop from n; ok (list vs, q)

-- `Decode(data, pos)` and its loop `for i := uint64(0); i < b;`, whose items stand in order.
unfoldable mutual
  pub decode : ℕ → List ℕ → List ℕ → ℕ → Result (Item × ℕ)
  decode zero data' spare p = out_of_fuel
  decode (suc f) data' spare p =
      head_at data' spare p
      >>= at_head (λ from n. decode_items f data' spare 0 n from) data' spare p

  pub decode_items : ℕ → List ℕ → List ℕ → ℕ → ℕ → ℕ → Result (Items × ℕ)
  decode_items zero data' spare i b p = out_of_fuel
  decode_items (suc f) data' spare i b p =
      let more = decode f data' spare p >>= λ (v, q).
      decode_items f data' spare (u64 (i + (q + 2 ^ 64 - p))) b q >>= λ (vs, r).
      ok (item v vs, r) in
      if ltb i b then more else ok (no_items, p)

-- `Decode` with fuel that is enough for its input (`Rlp.Fuel`).
unfoldable pub decode_from : List ℕ → List ℕ → ℕ → Result (Item × ℕ)
unfolding decode head_at at_head
decode_from data' spare p = decode (2 * length (data' ++ spare) + 2) data' spare p
