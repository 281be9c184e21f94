-- ===== src/Tests/Coding.antt =====
-- RLP, values and the compact form of keys (ethutil/rlp.go, value.go, encoding.go) at concrete
-- inputs.
use goeth_self_training.Prelude.{
  ℕ, List, [], ◌∷◌, ◌++◌, ◌≡◌, ◌<◌, ◌≤◌, ◌^◌, ◌+◌, refl, inl, arith, true, length,
}
use goeth_self_training.Prelude.Result.{ok, Safe}
use goeth_self_training.Prelude.Int.{pos}
use goeth_self_training.Item.{Item, list, bytes, item, no_items, int}
use goeth_self_training.Bytes.{be_bytes, big_bytes}
use goeth_self_training.Rlp.{encode, encode_big, encode_bytes, slice_header, decode_from}
use goeth_self_training.Rlp.Plain.{plain, Fits}
use goeth_self_training.Rlp.Fuel.{decode_ends}
use goeth_self_training.Rlp.RoundTrip.{decode-encode}
use goeth_self_training.Compact.{compact_encode, compact_decode}
use goeth_self_training.Compact.RoundTrip.{key, compact_decode-compact_encode}

-- A list of a byte string and a number.
abbrev pair : Item
pair = list (item (bytes (1 ∷ 200 ∷ [])) (item (int (pos 1024)) no_items))

encode-pair : encode pair ≡ 198 ∷ 130 ∷ 1 ∷ 200 ∷ 130 ∷ 4 ∷ 0 ∷ []
unfolding encode encode_big encode_bytes slice_header big_bytes
encode-pair = refl

decode_pair :
    decode_from (198 ∷ 130 ∷ 1 ∷ 200 ∷ 130 ∷ 4 ∷ 7 ∷ []) [] 0
    ≡ ok (list (item (bytes (1 ∷ 200 ∷ [])) (item (bytes (4 ∷ 7 ∷ [])) no_items)), 7)
unfolding decode_from
decode_pair = refl

pair-Fits : Fits pair
unfolding Fits encode encode_big encode_bytes big_bytes
pair-Fits = (inl (omega arith), (inl (omega arith), (inl (omega arith), tt)))

pair_small : length (7 ∷ [] ++ (encode pair ++ 9 ∷ [])) < 2 ^ 63
unfolding encode encode_big encode_bytes slice_header big_bytes
pair_small = omega arith

decode-encode_example :
    decode_from (7 ∷ [] ++ (encode pair ++ 9 ∷ [])) (5 ∷ []) 1
    ≡ ok (plain pair, 1 + length (encode pair))
decode-encode_example = decode-encode pair (7 ∷ []) (9 ∷ []) (5 ∷ []) pair-Fits pair_small

decode_ends_example : Safe (λ r. (0 < r.1) × (r.1 ≤ 3)) (decode_from (200 ∷ 130 ∷ 1 ∷ []) [] 0)
decode_ends_example = decode_ends (200 ∷ 130 ∷ 1 ∷ []) [] 0 (omega arith)

compact_decode-compact_encode_example :
    (code : List ℕ) × (compact_encode (key true (1 ∷ 2 ∷ 15 ∷ [])) ≡ ok code)
    × (compact_decode code ≡ ok (key true (1 ∷ 2 ∷ 15 ∷ [])))
compact_decode-compact_encode_example =
    compact_decode-compact_encode true (1 ∷ 2 ∷ 15 ∷ [])
      (omega arith, (omega arith, (omega arith, tt))) (omega arith)

few_bytes : length (be_bytes 70000) < 2 ^ 16
unfolding be_bytes
few_bytes = omega arith
