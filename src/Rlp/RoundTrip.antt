-- ===== src/Rlp/RoundTrip.antt =====
-- `Decode` reads back what `Encode` wrote (ethutil/rlp.go), up to the dynamic types that the
-- format forgets, for payloads whose length `ReadVarint` reads whole.
use goeth_self_training.Prelude.{
  ℕ, zero, suc, ◌+◌, ◌*◌, ◌<◌, ◌≤◌, ◌^◌, ◌≡◌, List, ◌++◌, arith, length, length-append, Option,
  some, none,
}
use goeth_self_training.Prelude.Int.{ℤ}
use goeth_self_training.Prelude.Result.{ok}
use goeth_self_training.Bytes.{big_bytes}
use goeth_self_training.Bytes.BigEndian.{IsReadable}
use goeth_self_training.Item.{
  Item, Items, nil, int, sized, uint, uint8, uint16, uint32, uint64, big, bytes, str, list, value,
  no_items, item,
}
use goeth_self_training.Rlp.{
  decode_from, encode, encode_items, encode_big, encode_bytes, slice_header, to_int64,
}
use goeth_self_training.Rlp.Plain.{
  plain_bytes, plain_big, plain, plain_items, FitsBig, Fits, FitsItems,
}
use goeth_self_training.Rlp.Texts.{Reads, Reads-bytes_fuel}
use goeth_self_training.Rlp.ListItems.{
  Reads-nil, ReadsItems, reads_no_items, reads_item, length-slice_header, Reads-list_fuel,
  length-encode_bytes_pos, length-encode_big_pos,
}

-- Every item has a code of at least one byte.
pub length-encode_pos : (v : Item) → 1 ≤ length (encode v)
unfolding encode
length-encode_pos nil = omega arith
length-encode_pos (bytes t) = length-encode_bytes_pos t
length-encode_pos (str t) = length-encode_bytes_pos t
length-encode_pos (list vs) =
    let hd = slice_header (length (encode_items vs)) in
    omega
      (arith, length-append hd (encode_items vs), length-slice_header (length (encode_items vs)))
length-encode_pos (value v) = length-encode_pos v
length-encode_pos (big z) = length-encode_big_pos z
length-encode_pos (int z) = length-encode_big_pos (some z)
length-encode_pos (sized z) = length-encode_big_pos (some z)
length-encode_pos (uint n) = length-encode_big_pos (some (to_int64 n))
length-encode_pos (uint8 n) = length-encode_big_pos (some (to_int64 n))
length-encode_pos (uint16 n) = length-encode_big_pos (some (to_int64 n))
length-encode_pos (uint32 n) = length-encode_big_pos (some (to_int64 n))
length-encode_pos (uint64 n) = length-encode_big_pos (some (to_int64 n))

abbrev ReadsFuel : List ℕ → Item → Type 0
ReadsFuel code v = (f : ℕ) → 2 * length code ≤ f → Reads f code v

ReadsFuel-bytes :
    (t : List ℕ)
    → IsReadable (length t)
    → length (encode_bytes t) < 2 ^ 63
    → ReadsFuel (encode_bytes t) (plain_bytes t)
ReadsFuel-bytes t fits k f h =
    Reads-bytes_fuel t fits k f (omega (arith, length-encode_bytes_pos t))

reads_big :
    (z : Option ℤ)
    → FitsBig z
    → length (encode_big z) < 2 ^ 63
    → ReadsFuel (encode_big z) (plain_big z)
unfolding encode_big
reads_big none fits k f h = Reads-nil f h
reads_big (some z) fits k f h = ReadsFuel-bytes (big_bytes z) fits k f h

mutual
  unfolding encode plain Fits

  reads : (v : Item) → Fits v → length (encode v) < 2 ^ 63 → ReadsFuel (encode v) (plain v)
  reads nil fits k = Reads-nil
  reads (int z) fits k = reads_big (some z) fits k
  reads (sized z) fits k = reads_big (some z) fits k
  reads (uint n) fits k = reads_big (some (to_int64 n)) fits k
  reads (uint8 n) fits k = reads_big (some (to_int64 n)) fits k
  reads (uint16 n) fits k = reads_big (some (to_int64 n)) fits k
  reads (uint32 n) fits k = reads_big (some (to_int64 n)) fits k
  reads (uint64 n) fits k = reads_big (some (to_int64 n)) fits k
  reads (big z) fits k = reads_big z fits k
  reads (bytes t) fits k = ReadsFuel-bytes t fits k
  reads (str t) fits k = ReadsFuel-bytes t fits k
  reads (list vs) fits k =
      Reads-list_fuel (encode_items vs) (plain_items vs) k (reads_items vs fits.1) fits.0
  reads (value v) fits k = reads v fits k

  reads_items :
      (vs : Items)
      → FitsItems vs
      → length (encode_items vs) < 2 ^ 63
      → (f : ℕ) → 2 * length (encode_items vs) + 1 ≤ f
      → ReadsItems f (encode_items vs) (plain_items vs)
  reads_items no_items fits k zero h = absurd (omega arith)
  reads_items no_items fits k (suc f) h = reads_no_items f
  reads_items (item v vs) fits k zero h = absurd (omega arith)
  reads_items (item v vs) fits k (suc f) h =
      let l = length-append (encode v) (encode_items vs) in
      let pos' = length-encode_pos v in
      reads_item f (encode v) (encode_items vs) (plain v) (plain_items vs) pos'
        (reads v fits.0 (omega (arith, l)) f (omega (arith, l, pos')))
        (reads_items vs fits.1 (omega (arith, l)) f (omega (arith, l, pos')))

-- `Decode` at the start of an encoded item, wherever it stands and whatever follows it, returns
-- `plain` of the item and the position behind it, if `Fits`, which says that each payload length in
-- the item is one that `ReadVarint` reads whole, and if all of the data is shorter than 2 ^ 63 bytes.
-- `plain` is what is left of an item: byte strings and lists, where a byte string of one byte is a
-- number, a number has lost its sign and its type, and a uint64 from 2 ^ 63 on has wrapped around.
pub decode-encode :
    (v : Item) (pre ys spare : List ℕ)
    → Fits v
    → length (pre ++ (encode v ++ ys)) < 2 ^ 63
    → decode_from (pre ++ (encode v ++ ys)) spare (length pre)
      ≡ ok (plain v, length pre + length (encode v))
decode-encode v pre ys spare fits k =
    let l = length-append pre (encode v ++ ys) in
    let m = length-append (encode v) ys in
    unfold decode_from in
    reads v fits (omega (arith, l, m)) (2 * length ((pre ++ (encode v ++ ys)) ++ spare) + 2)
      (omega (arith, l, m, length-append (pre ++ (encode v ++ ys)) spare)) pre ys spare k
