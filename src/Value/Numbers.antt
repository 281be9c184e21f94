-- ===== src/Value/Numbers.antt =====
-- Numbers stored by `Encode` and read through `Value` (ethutil/value.go): which come back.
use goeth_self_training.Prelude.{
  ℕ, suc, ◌-◌, ◌/◌, ◌^◌, ◌<◌, ◌≤◌, ◌≡◌, ◌∙◌, inl, refl, ap, some, List, [], ◌∷◌, ◌++◌, length,
  length-append, arith, append-nil,
}
use goeth_self_training.Prelude.Int.{pos, negsuc}
use goeth_self_training.Prelude.Result.{ok}
use goeth_self_training.Bytes.{read_varint, big_d, be_bytes, big_bytes}
use goeth_self_training.Bytes.BigEndian.{
  IsReadable, big_d-be_bytes, read_varint-be_bytes, read_varint_three, length-be_bytes_le,
}
use goeth_self_training.Item.{Item, uint64, big}
use goeth_self_training.Rlp.{encode, encode_big, encode_bytes, decode_from, to_int64}
use goeth_self_training.Rlp.Plain.{plain, plain_bytes, Fits}
use goeth_self_training.Rlp.RoundTrip.{decode-encode, length-encode_pos}
use goeth_self_training.Value.{new_value, to_uint, to_big, new_value_from_bytes}

new_value_from_bytes-cons :
    (code : List ℕ) (v : Item) (q : ℕ)
    → 1 ≤ length code
    → decode_from code [] 0 ≡ ok (v, q)
    → new_value_from_bytes code ≡ ok (new_value v)
unfolding new_value_from_bytes
new_value_from_bytes-cons [] v q h e = absurd (omega arith)
new_value_from_bytes-cons (b ∷ bs) v q h e = rw e

-- NewValueFromBytes of an encoded item.
pub new_value_from_bytes-encode :
    (v : Item)
    → Fits v
    → length (encode v) < 2 ^ 63
    → new_value_from_bytes (encode v) ≡ ok (new_value (plain v))
new_value_from_bytes-encode v fits k =
    let k' : length (encode v ++ []) < 2 ^ 63 = rw (append-nil (encode v)) k in
    let e = decode-encode v [] [] [] fits k' in
    new_value_from_bytes-cons (encode v) (plain v) _ (length-encode_pos v)
      (rw (append-nil (encode v)) at e)

-- A number's digits, kept as bytes, are read back by `BigInt` and by `Uint`.
pub to_big-plain_bytes : (t : List ℕ) → to_big (new_value (plain_bytes t)) ≡ some (pos (big_d t))
unfolding to_big plain_bytes new_value big_d
to_big-plain_bytes [] = refl
to_big-plain_bytes (b ∷ []) = ground arith
to_big-plain_bytes (b ∷ c ∷ t) = refl

pub to_uint-plain_bytes : (t : List ℕ) → to_uint (new_value (plain_bytes t)) ≡ read_varint t
unfolding to_uint plain_bytes new_value read_varint
to_uint-plain_bytes [] = refl
to_uint-plain_bytes (b ∷ []) = ground arith
to_uint-plain_bytes (b ∷ c ∷ t) = refl

digits_fit : (n k : ℕ) → k ≤ 55 → n < 256 ^ k → IsReadable (length (be_bytes n))
digits_fit n k small h = inl (omega (arith, length-be_bytes_le k n h))

code_small : (t : List ℕ) → length t < 2 ^ 16 → length (encode_bytes t) < 2 ^ 63
unfolding encode_bytes
code_small [] h = omega arith
code_small (b ∷ []) h = ground arith
code_small (b ∷ c ∷ t) h = ground (
  arith,
  length-append (be_bytes (length (b ∷ c ∷ t))) (b ∷ c ∷ t),
  length-be_bytes_le 8 (length (b ∷ c ∷ t)),
)

-- A stored item, read back as a *Value.
abbrev pub stored : Item → Item
stored v = new_value (plain v)

pub Fits-big : (n : ℕ) → length (be_bytes n) < 2 ^ 16 → Fits (big (some (pos n)))
unfolding Fits big_bytes
Fits-big n few = inl few

code_big : (n : ℕ) → length (be_bytes n) < 2 ^ 16 → length (encode (big (some (pos n)))) < 2 ^ 63
unfolding encode encode_big big_bytes
code_big n few = code_small (be_bytes n) few

pub to_big-stored : (n : ℕ) → to_big (stored (big (some (pos n)))) ≡ some (pos n)
unfolding plain big_bytes
to_big-stored n = to_big-plain_bytes (be_bytes n) ∙ ap (λ m. some (pos m)) (big_d-be_bytes n)

-- A *big.Int that is not negative and has fewer than 2 ^ 16 bytes is read back, after it was
-- encoded, by `BigInt`.
pub big_stored :
    (n : ℕ)
    → length (be_bytes n) < 2 ^ 16
    → (v : Item) × (new_value_from_bytes (encode (big (some (pos n)))) ≡ ok v)
      × (to_big v ≡ some (pos n))
big_stored n few = (
  stored (big (some (pos n))),
  new_value_from_bytes-encode (big (some (pos n))) (Fits-big n few) (code_big n few),
  to_big-stored n,
)

to_int64-small : (n : ℕ) → n < 2 ^ 63 → to_int64 n ≡ pos n
to_int64-small n h = ground arith

plain_uint64 : (n : ℕ) → n < 2 ^ 63 → plain (uint64 n) ≡ plain_bytes (be_bytes n)
unfolding plain big_bytes
plain_uint64 n h = rw (to_int64-small n h)

few_digits : (n : ℕ) → n < 2 ^ 64 → length (be_bytes n) < 2 ^ 16
few_digits n h = omega (arith, length-be_bytes_le 8 n h)

pub Fits-uint64 : (n : ℕ) → n < 2 ^ 63 → Fits (uint64 n)
unfolding Fits big_bytes
Fits-uint64 n h = rw (to_int64-small n h) (inl (few_digits n (omega arith)))

code_uint64 : (n : ℕ) → n < 2 ^ 63 → length (encode (uint64 n)) < 2 ^ 63
unfolding encode encode_big big_bytes
code_uint64 n h = rw (to_int64-small n h) (code_small (be_bytes n) (few_digits n (omega arith)))

pub to_uint-stored : (n : ℕ) → n < 2 ^ 63 → to_uint (stored (uint64 n)) ≡ read_varint (be_bytes n)
to_uint-stored n h = rw (plain_uint64 n h) (to_uint-plain_bytes (be_bytes n))

uint_read :
    (n : ℕ)
    → n < 2 ^ 63
    → (v : Item) × (new_value_from_bytes (encode (uint64 n)) ≡ ok v)
      × (to_uint v ≡ read_varint (be_bytes n))
uint_read n h = (
  stored (uint64 n),
  new_value_from_bytes-encode (uint64 n) (Fits-uint64 n h) (code_uint64 n h),
  to_uint-stored n h,
)

-- A uint64 below 2 ^ 63 with 0, 1, 2, 4 or 8 significant bytes is read back, after it was encoded,
-- by `Uint`.
pub uint_stored :
    (n : ℕ)
    → n < 2 ^ 63
    → IsReadable n
    → (v : Item) × (new_value_from_bytes (encode (uint64 n)) ≡ ok v) × (to_uint v ≡ n)
uint_stored n h readable =
    let (v, e, r) = uint_read n h in (v, e, r ∙ read_varint-be_bytes n readable)

-- Of a uint64 with three significant bytes `Uint` reads back the first byte alone.
pub uint_stored_three :
    (n : ℕ)
    → 2 ^ 16 ≤ n
    → n < 2 ^ 24
    → (v : Item) × (new_value_from_bytes (encode (uint64 n)) ≡ ok v) × (to_uint v ≡ n / 2 ^ 16)
uint_stored_three n h k =
    let (v, e, r) = uint_read n (omega arith) in (v, e, r ∙ read_varint_three n h k)

big_bytes-negsuc : (k : ℕ) → big_bytes (negsuc k) ≡ be_bytes (suc k)
unfolding big_bytes
big_bytes-negsuc k = refl

big_bytes-pos : (k : ℕ) → be_bytes k ≡ big_bytes (pos k)
unfolding big_bytes
big_bytes-pos k = refl

-- `Encode` takes a uint64 from 2 ^ 63 on for the distance to 2 ^ 64: the two have the same code.
pub encode_uint64_wraps :
    (n : ℕ) → 2 ^ 63 ≤ n → n < 2 ^ 64 → encode (uint64 n) ≡ encode (big (some (pos (2 ^ 64 - n))))
unfolding encode encode_big
encode_uint64_wraps n h k =
    let e : to_int64 n ≡ negsuc (2 ^ 64 - n - 1) = ground arith in
    let e' : suc (2 ^ 64 - n - 1) ≡ 2 ^ 64 - n = omega arith in
    rw e (
      ap encode_bytes {y = big_bytes (pos (2 ^ 64 - n))}
        (big_bytes-negsuc (2 ^ 64 - n - 1) ∙ rw e' (big_bytes-pos (2 ^ 64 - n))))
